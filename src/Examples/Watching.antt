-- ===== src/Examples/Watching.antt =====
-- Runs of the selectors, keys and the reconciliation of watches.
use metac.Prelude.{
  String, Bool, ◌≡◌, ◌&&◌, refl, Option, none, some, [], ◌∷◌, Dict, has, insert, lookup,
}
use metac.Prelude.Results.{ok}
use metac.Prelude.Text.{has_byte, concat}
use metac.Value.{str, entries}
use metac.Api.{Object}
use metac.Generic.Selection.{
  GenericResource, ApiKind, Selection, new_selector_for_watch, register, set_selectors,
  set_label_selector, set_annotation_selector, set_name_selector, set_advanced_selector,
  is_duplicate_resource, make_selector_key_from_avk, match_lan, everything,
}
use metac.Generic.Selection.Matching.{IsTest, is_named, match_lan-watch}
use metac.Generic.Queue.{make_watch_queue_key, split_watch_queue_key}
use metac.Generic.Queue.Keys.{split-make_watch_queue_key}
use metac.Examples.{small_api, small_labels}

abbrev pod_kind : ApiKind
pod_kind = record { api_version = "v1"; kind = "Pod" }

abbrev api_of : String → String → Option ApiKind
api_of v r = some pod_kind

abbrev web_pods : GenericResource
web_pods = record {
  api_version = "v1";
  resource = "pods";
  name_selector = some ("web" ∷ []);
  label_selector = none;
  annotation_selector = none;
  advanced_selector = none;
}

abbrev pub web_selection : Selection
web_selection = record {
  name_selectors = ("Pod.v1", "web" ∷ []) ∷ [];
  label_selectors = ("Pod.v1", everything) ∷ [];
  annotation_selectors = ("Pod.v1", everything) ∷ [];
  advanced_selectors = ("Pod.v1", []) ∷ [];
}

abbrev pub web_pod : Object
web_pod = ("apiVersion", str "v1") ∷ ("kind", str "Pod") ∷ ("name", str "web") ∷ []

web_selected : new_selector_for_watch small_labels api_of web_pods ≡ ok web_selection
unfolding new_selector_for_watch register set_selectors set_label_selector set_annotation_selector
    set_name_selector set_advanced_selector is_duplicate_resource make_selector_key_from_avk has
    insert lookup
web_selected = refl

match_lan-watch_example :
    (f : Dict String → Bool) × (g : Dict String → Bool) × IsTest small_labels none f
    × IsTest small_labels none g
    × (match_lan small_labels small_api web_selection web_pod
        ≡ ok (
            f (small_api.get_labels web_pod)
            && (g (entries (small_api.get_annotations web_pod))
                && is_named (some ("web" ∷ [])) (small_api.get_name web_pod))))
match_lan-watch_example =
    match_lan-watch small_labels small_api api_of web_pods pod_kind web_pod web_selected refl
      (unfold lookup in refl) (unfold lookup in refl)

split-make_watch_queue_key_example :
    split_watch_queue_key "v1:Pod::web"
    ≡ some (record { api_version = "v1"; kind = "Pod"; namespace = ""; name = "web" })
unfolding lookup
split-make_watch_queue_key_example =
    split-make_watch_queue_key small_api web_pod "v1:Pod::web" (unfold has_byte in refl)
      (unfold has_byte in refl) (unfold has_byte in refl)
      (unfold make_watch_queue_key concat in refl)

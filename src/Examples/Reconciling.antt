-- ===== src/Examples/Reconciling.antt =====
-- Runs of the reconciliation of a watch.
use metac.Prelude.{
  true, false, ◌≡◌, refl, ◌∙◌, none, some, [], ◌∷◌, contains, insert, lookup, lookup-insert,
}
use metac.Prelude.Results.{ok}
use metac.Value.{str}
use metac.Api.{Object}
use metac.Registry.{
  AnyUnstructRegistry, init, insert_object, insert_named, object_key, namespace_name_or_name,
  make_key_from_api_version_kind,
}
use metac.Selector.Evaluator.{run_match}
use metac.States.{StatesServer}
use metac.Generic.Selection.{
  match_lan, match_against, match_attachment_against_watch, make_selector_key_from_avk,
  contains_or_true,
}
use metac.Generic.Calls.{
  WatchSetters, WatchController, WatchWorld, SyncHookResponse, Hook, get_observed_attachments,
  observe_kinds, observe_objects,
}
use metac.Generic.Watch.{update_watch, sync_watch_obj}
use metac.Generic.Calls.Observed.{get_observed_attachments-AllMatch}
use metac.Generic.Watch.Updating.{SettersLaws, update_watch-finalizers}
use metac.Generic.Watch.ReadOnly.{sync_watch_obj-read_only}
use metac.Examples.{small_api, small_json, small_nested, small_labels, small_server}
use metac.Examples.Managing.{no_owners}
use metac.Examples.Watching.{web_pod, web_selection}

abbrev answer : SyncHookResponse
answer = record {
  labels = ("app", some "web") ∷ [];
  annotations = [];
  status = none;
  attachments = [];
  explicit_updates = [];
  explicit_deletes = [];
  resync_after_seconds = 0;
  skip_reconcile = false;
  finalized = false;
}

abbrev hook : Hook Object
hook request s = (ok answer, s)

abbrev reader : WatchController Object
reader = record {
  watch_selector = web_selection;
  attachment_selector = web_selection;
  finalizer = record { name = "metac"; enabled = false };
  sync_hook = some hook;
  finalize_hook = none;
  attachments = record { api_version = "v1"; resource = "pods"; update_strategy = none } ∷ [];
  read_only = some true;
  update_any = none;
  delete_any = none;
}

-- A server for attachments that stores what it is sent.
abbrev storing : StatesServer Object
storing = record {
  client_for = λ v k. ok (record { group = ""; kind = k });
  delete = λ c ns name uid s. (ok tt, []);
  update = λ c ns o s. (ok o, o);
  create = λ c ns o s. (ok o, o);
}

abbrev idle : StatesServer Object
idle = record {
  client_for = λ v k. ok (record { group = ""; kind = k });
  delete = λ c ns name uid s. (ok tt, s);
  update = λ c ns o s. (ok o, s);
  create = λ c ns o s. (ok o, s);
}

abbrev world : WatchWorld Object
world = record {
  watch_client = λ v k. ok (small_server, true);
  list_attachments = λ v r. some (ok (web_pod ∷ []));
  kind_of = λ v r. some "Pod";
  add_after = λ o n s. s;
  states = storing;
}

abbrev setters : WatchSetters
setters = record {
  set_labels = λ o l. insert "labels" (str "set") o;
  set_resource_version_of = λ o result. insert "resourceVersion" (str "2") o;
}

abbrev seen : AnyUnstructRegistry
seen = ("Pod.v1", ("web", some web_pod) ∷ []) ∷ []

web_seen : get_observed_attachments small_api small_labels world reader web_pod ≡ ok seen
unfolding get_observed_attachments observe_kinds observe_objects match_attachment_against_watch
    match_against match_lan run_match make_selector_key_from_avk contains_or_true contains init
    insert_object insert_named insert lookup make_key_from_api_version_kind object_key
    namespace_name_or_name
web_seen = refl

get_observed_attachments-AllMatch_example :
    match_attachment_against_watch small_labels small_api web_selection web_pod web_pod ≡ ok true
get_observed_attachments-AllMatch_example =
    get_observed_attachments-AllMatch small_api small_labels world reader web_pod web_seen "Pod.v1"
      "web" web_pod (unfold lookup in refl)

setters_laws : SettersLaws small_api small_nested setters
setters_laws = record {
  get_finalizers-set_labels = λ o l. rw lookup-insert refl;
  get_finalizers-set_annotations = λ o a. rw lookup-insert refl;
  get_finalizers-set_status = λ o v. rw lookup-insert refl;
  get_finalizers-set_resource_version = λ o result. rw lookup-insert refl;
}

-- The stored object has no finalizers.
abbrev Unfinalized : Object → Type 0
Unfinalized o = small_api.get_finalizers o ≡ []

update_watch-finalizers_example :
    small_api.get_finalizers
      (update_watch small_api small_nested setters reader small_server true web_pod answer
        web_pod).1
    ≡ []
update_watch-finalizers_example =
    update_watch-finalizers small_api small_nested setters setters_laws reader small_server
      Unfinalized true web_pod answer web_pod (λ o s f q. (f ∙ (unfold lookup in refl), q)) refl
      (unfold lookup in refl)

sync_watch_obj-read_only_example :
    sync_watch_obj small_api small_json small_nested small_labels no_owners setters
      (record world { states = idle })
      reader
      web_pod
    ≡ sync_watch_obj small_api small_json small_nested small_labels no_owners setters world reader
        web_pod
sync_watch_obj-read_only_example =
    sync_watch_obj-read_only small_api small_json small_nested small_labels no_owners setters world
      idle reader refl web_pod

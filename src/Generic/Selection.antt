-- ===== src/Generic/Selection.antt =====
-- controller/generic/selector.go: the selectors of the resources that a generic controller names. They
-- are kept in four maps, which are set together. The discovered resources are a parameter.
pub mod Matching
use Prim.Native.String.{◌++◌ as append}
use metac.Prelude.{
  String, Bool, true, false, ◌&&◌, Option, none, some, List, [], ◌∷◌, Dict, lookup, has, insert,
  contains, ◌==◌, if◌then◌else◌,
}
use metac.Prelude.Results.{Result, ok, err, ◌>>=◌}
use metac.Value.{entries}
use metac.Api.{Object, Api}
use metac.Selector.Labels.{SelectorError, LabelSelectorRequirement, LabelSelector, Labels}
use metac.Selector.Evaluator.{SelectorTerm, run_match}

-- A nil selector that is called is a panic, as is a lookup by a nil discovery.
pub data SelectionError : Type 0 where
  missing_api_version missing_resource no_resource duplicate_resource nil_selector : SelectionError
  selector_failed : SelectorError → SelectionError

-- v1alpha1.GenericControllerResource; a nil selector is `none`.
pub record GenericResource : Type 0 where
  pub api_version : String
  pub resource : String
  pub name_selector : Option (List String)
  pub label_selector : Option LabelSelector
  pub annotation_selector : Option LabelSelector
  pub advanced_selector : Option (List (Option SelectorTerm))

-- dynamicdiscovery.APIResource, by what is used of it here.
pub record ApiKind : Type 0 where
  pub api_version : String
  pub kind : String

pub record Selection : Type 0 where
  pub name_selectors : Dict (List String)
  pub label_selectors : Dict (Dict String → Bool)
  pub annotation_selectors : Dict (Dict String → Bool)
  pub advanced_selectors : Dict (List (Option SelectorTerm))

abbrev pub of_selector : {A : Type 0} → Result SelectorError A → Result SelectionError A
of_selector (ok a) = ok a
of_selector (err e) = err (selector_failed e)

unfoldable pub make_selector_key_from_avk : String → String → String
make_selector_key_from_avk api_version kind = append kind (append "." api_version)

abbrev pub key_of : ApiKind → String
key_of api_resource = make_selector_key_from_avk api_resource.api_version api_resource.kind

unfoldable pub is_duplicate_resource : Selection → ApiKind → Bool
is_duplicate_resource s api_resource = has (key_of api_resource) s.name_selectors

abbrev pub empty_selection : Selection
empty_selection = record {
  name_selectors = [];
  label_selectors = [];
  annotation_selectors = [];
  advanced_selectors = [];
}

-- labels.Everything
abbrev pub everything : Dict String → Bool
everything set = true

module _ (labels : Labels) (api_of : String → String → Option ApiKind) where
  abbrev pub selector_or_everything :
      Option LabelSelector → Result SelectionError (Dict String → Bool)
  selector_or_everything none = ok everything
  selector_or_everything (some selector) = of_selector (labels.as_selector selector)

  -- setLabelSelectorOrEverything
  unfoldable pub set_label_selector :
      GenericResource → ApiKind → Selection → Result SelectionError Selection
  set_label_selector r a s = do
    selector ← selector_or_everything r.label_selector
    ok (record s { label_selectors = insert (key_of a) selector s.label_selectors })

  -- setAnnotationSelectorOrEverything
  unfoldable pub set_annotation_selector :
      GenericResource → ApiKind → Selection → Result SelectionError Selection
  set_annotation_selector r a s = do
    selector ← selector_or_everything r.annotation_selector
    ok (record s { annotation_selectors = insert (key_of a) selector s.annotation_selectors })

  -- setNameSelectorOrEverything
  unfoldable pub set_name_selector :
      GenericResource → ApiKind → Selection → Result SelectionError Selection
  set_name_selector r a s =
      ok
        (record s { name_selectors = insert (key_of a) (entries r.name_selector) s.name_selectors })

  -- setAdvancedSelectorOrEverything
  unfoldable pub set_advanced_selector :
      GenericResource → ApiKind → Selection → Result SelectionError Selection
  set_advanced_selector r a s = ok (record s {
    advanced_selectors = insert (key_of a) (entries r.advanced_selector) s.advanced_selectors;
  })

  unfoldable pub set_selectors :
      GenericResource → ApiKind → Selection → Result SelectionError Selection
  set_selectors r a s = do
    labelled ← set_label_selector r a s
    annotated ← set_annotation_selector r a labelled
    named ← set_name_selector r a annotated
    set_advanced_selector r a named

  unfoldable pub register : GenericResource → Selection → Result SelectionError Selection
  register r s =
      if r.api_version == ""
      then err missing_api_version
      else if r.resource == ""
      then err missing_resource
      else elim (api_of r.api_version r.resource) [
        | none ↦ err no_resource
        | some a ↦ if is_duplicate_resource s a then err duplicate_resource else set_selectors r a s
      ]

  unfoldable pub new_selector_for_watch : GenericResource → Result SelectionError Selection
  new_selector_for_watch watch = register watch empty_selection

  unfoldable pub register_all : List GenericResource → Selection → Result SelectionError Selection
  register_all [] s = ok s
  register_all (r ∷ attachments) s = do
    registered ← register r s
    register_all attachments registered

  unfoldable pub new_selector_for_attachments :
      List GenericResource → Result SelectionError Selection
  new_selector_for_attachments attachments = register_all attachments empty_selection

-- NameSelector.ContainsOrTrue
unfoldable pub contains_or_true : List String → String → Bool
contains_or_true [] name = true
contains_or_true (first ∷ names) name = contains name (first ∷ names)

module _ (labels : Labels) (api : Api) where
  abbrev pub object_avk : Object → String
  object_avk obj = make_selector_key_from_avk (api.get_api_version obj) (api.get_kind obj)

  -- The annotations are read only if the labels match.
  abbrev pub match_selectors :
      Option (Dict String → Bool)
      → Option (Dict String → Bool)
      → List String
      → Object
      → Result SelectionError Bool
  match_selectors none annotations names obj = err nil_selector
  match_selectors (some by_labels) none names obj =
      if by_labels (api.get_labels obj) then err nil_selector else ok false
  match_selectors (some by_labels) (some by_annotations) names obj = ok (
      by_labels (api.get_labels obj)
      && (by_annotations (entries (api.get_annotations obj))
          && contains_or_true names (api.get_name obj)))

  unfoldable pub match_lan : Selection → Object → Result SelectionError Bool
  match_lan s obj =
      match_selectors (lookup (object_avk obj) s.label_selectors)
        (lookup (object_avk obj) s.annotation_selectors)
        (entries (lookup (object_avk obj) s.name_selectors)) obj

  -- Match, without a reference, and MatchAttachmentAgainstWatch, with one.
  unfoldable pub match_against : Selection → Option Object → Object → Result SelectionError Bool
  match_against s reference obj = do
    lan ← match_lan s obj
    advanced ← of_selector (
        run_match labels api (record {
          target = some obj;
          terms = entries (lookup (object_avk obj) s.advanced_selectors);
          reference = reference;
        }))
    ok (lan && advanced)

  unfoldable pub selection_match : Selection → Object → Result SelectionError Bool
  selection_match s obj = match_against s none obj

  unfoldable pub match_attachment_against_watch :
      Selection → Object → Object → Result SelectionError Bool
  match_attachment_against_watch s attachment watch = match_against s (some watch) attachment

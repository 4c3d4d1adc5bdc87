-- ===== src/Selector/Field.antt =====
-- controller/common/selector/field.go: selectors over the texts at field paths, by way of label
-- selectors. Of the table of replacements, a map with one entry, the entry is written out.
pub mod Match
use metac.Prelude.{
  String, Bool, true, false, not, ◌≡◌, Option, none, some, List, [], ◌∷◌, ◌++◌, Dict, insert, ◌==◌,
  if◌then◌else◌,
}
use metac.Prelude.Results.{Result, ok, err, ◌>>=◌}
use metac.Prelude.Text.{split, replace_all}
use metac.Api.{Object, Api}
use metac.Selector.Labels.{
  SelectorError, empty_key, no_string, LabelSelectorRequirement, LabelSelector, Labels,
}

unfoldable pub sanitise_value : String → String
sanitise_value given = if given == "" then "" else replace_all b'/' "fwdslash" given

unfoldable pub sanitise_map : Dict String → Dict String → Dict String
sanitise_map [] new = new
sanitise_map ((key, val) ∷ labels) new = sanitise_map labels (insert key (sanitise_value val) new)

-- Of several values only the first is kept.
abbrev pub first_sanitised : List String → List String
first_sanitised [] = []
first_sanitised (v ∷ values) = sanitise_value v ∷ []

unfoldable pub sanitise_expressions :
    List LabelSelectorRequirement → List LabelSelectorRequirement → List LabelSelectorRequirement
sanitise_expressions [] new = new
sanitise_expressions (e ∷ exprs) new =
    sanitise_expressions exprs (new ++ record e { values = first_sanitised e.values } ∷ [])

unfoldable pub sanitise_labels : LabelSelector → LabelSelector
unfolding sanitise_map sanitise_expressions
sanitise_labels lbls = record {
  match_labels = sanitise_map lbls.match_labels [];
  match_expressions = sanitise_expressions lbls.match_expressions [];
}

-- The selector is there if there is no error.
pub record FieldSelection : Type 0 where
  pub selector : Option (Dict String → Bool)
  pub field_keys : List String
  pub error : Option SelectorError

-- The keys that init collects, in order, up to an empty one.
unfoldable pub label_keys : Dict String → List String → Result SelectorError (List String)
label_keys [] keys = ok keys
label_keys ((key, val) ∷ labels) keys =
    let rest = label_keys labels (keys ++ key ∷ []) in if key == "" then err empty_key else rest

unfoldable pub expression_keys :
    List LabelSelectorRequirement → List String → Result SelectorError (List String)
expression_keys [] keys = ok keys
expression_keys (e ∷ exprs) keys =
    let rest = expression_keys exprs (keys ++ e.key ∷ []) in
    if e.key == "" then err empty_key else rest

-- What init leaves; the keys matter only where there is no error.
abbrev pub initialised :
    Result SelectorError (List String) → Result SelectorError (Dict String → Bool) → FieldSelection
initialised (err e) selector = record { selector = none; field_keys = []; error = some e }
initialised (ok keys) (err e) = record { selector = none; field_keys = keys; error = some e }
initialised (ok keys) (ok f) = record { selector = some f; field_keys = keys; error = none }

module _ (labels : Labels) where
  unfoldable pub new_field_selector : LabelSelector → FieldSelection
  unfolding label_keys expression_keys
  new_field_selector lbls =
      let new = sanitise_labels lbls in
      initialised
        (do keys ← label_keys new.match_labels []; expression_keys new.match_expressions keys)
        (labels.as_selector new)

module _ (api : Api) where
  -- A value that is not found is left out; any error of the lookup stops the match.
  abbrev pub put_found : String → Option String → Dict String → Dict String
  put_found key none lbls = lbls
  put_found key (some val) lbls = insert key (sanitise_value val) lbls

  unfoldable pub target_labels :
      Object → List String → Dict String → Result SelectorError (Dict String)
  target_labels target [] lbls = ok lbls
  target_labels target (key ∷ keys) lbls = elim (api.nested_string target (split b'.' key)) [
    | err e ↦ err no_string
    | ok found ↦ target_labels target keys (put_found key found lbls)
  ]

  abbrev pub apply_selector : Option (Dict String → Bool) → Dict String → Bool
  apply_selector none lbls = false
  apply_selector (some f) lbls = f lbls

  unfoldable pub field_match : FieldSelection → Object → Result SelectorError Bool
  field_match s target = elim s.error [
    | some e ↦ err e
    | none ↦ do lbls ← target_labels target s.field_keys []; ok (apply_selector s.selector lbls)
  ]

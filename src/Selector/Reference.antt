-- ===== src/Selector/Reference.antt =====
-- controller/common/selector/reference.go: selectors that compare a target with a reference.
pub mod Invalid
pub mod Paths
use metac.Prelude.{
  String, Bool, true, false, not, ◌≡◌, ◌||◌, Option, none, some, List, [], ◌∷◌, ◌++◌, Dict, insert,
  ◌==◌, if◌then◌else◌,
}
use metac.Prelude.Results.{Result, ok, err, ◌>>=◌, ◌>>◌}
use metac.Prelude.Text.{split, replace_text, join}
use metac.Api.{ApiError, Object, Api}
use metac.Selector.Labels.{
  SelectorError, empty_key, no_string, bad_operator, operator_with_ref_key, nil_target,
  nil_reference, LabelSelectorRequirement, LabelSelector, label_in, label_not_in, Labels,
}

abbrev pub ref_equals : String
ref_equals = "Equals"

abbrev pub ref_not_equals : String
ref_not_equals = "NotEquals"

abbrev pub ref_equals_uid : String
ref_equals_uid = "EqualsWatchUID"

abbrev pub ref_equals_name : String
ref_equals_name = "EqualsWatchName"

abbrev pub ref_equals_namespace : String
ref_equals_namespace = "EqualsWatchNamespace"

abbrev pub not_found_value : String
not_found_value = "some-value-that-should-never-be-used"

pub record ReferenceSelectorRequirement : Type 0 where
  pub key : String
  pub ref_key : String
  pub operator : String

pub record ReferenceSelectorConfig : Type 0 where
  pub match_reference : List String
  pub match_reference_expressions : List ReferenceSelectorRequirement

-- The fields of ReferenceSelection that a match changes. The target and the reference are arguments.
pub record Selection : Type 0 where
  pub target_expressions : List LabelSelectorRequirement
  pub reference_pairs : Dict String
  pub error : Option SelectorError

abbrev pub new_selection : Selection
new_selection = record { target_expressions = []; reference_pairs = []; error = none }

-- The operator of the label selector; one that is not in the table gives the empty text.
unfoldable pub operator_mapping : String → String
operator_mapping op =
    if op == ref_not_equals
    then label_not_in
    else if op == ref_equals
        || (op == ""
            || (op == ref_equals_uid || (op == ref_equals_name || op == ref_equals_namespace)))
    then label_in
    else ""

-- The escape `\.` stands for a dot within a field.
abbrev restore : List String → List String
restore [] = []
restore (field ∷ fields) = replace_text "-@@-" "." field ∷ restore fields

unfoldable pub path_to_fields : String → List String
path_to_fields path = restore (split b'.' (replace_text "\\." "-@@-" path))

-- strings.Join(fields, ".")
unfoldable pub pair_key : String → String
pair_key path = join "." (path_to_fields path)

abbrev pub target_value : Option String → String
target_value none = not_found_value
target_value (some v) = v

abbrev pub reference_value : Option String → String
reference_value none = ""
reference_value (some v) = v

abbrev pub fail : SelectorError → Selection → Selection
fail e s = record s { error = some e }

abbrev pub add_expression : String → String → String → Selection → Selection
add_expression key op value s = record s {
  target_expressions =
      s.target_expressions ++ record { key = key; operator = op; values = value ∷ [] } ∷ [];
}

abbrev pub add_pair : String → String → Selection → Selection
add_pair key value s = record s { reference_pairs = insert key value s.reference_pairs }

-- Every step of the walk is skipped once there is an error.
abbrev pub unless_failed : (Selection → Selection) → Selection → Selection
unless_failed step s = elim s.error [ some e ↦ s | none ↦ step s ]

-- The operators that take a value of their own from the reference.
abbrev pub is_named_operator : String → Bool
is_named_operator op = op == ref_equals_name || (op == ref_equals_uid || op == ref_equals_namespace)

unfoldable pub validate_exp_if_ref_key :
    ReferenceSelectorRequirement → Result SelectorError (Unit {0})
validate_exp_if_ref_key exp =
    if exp.ref_key == ""
    then ok tt
    else if is_named_operator exp.operator
    then err operator_with_ref_key
    else ok tt

module _ (api : Api) where
  unfoldable pub add_target_expression_from_path : Object → String → Selection → Selection
  add_target_expression_from_path target path = unless_failed λ s.
      elim (api.nested_string target (path_to_fields path)) [
        | err e ↦ fail no_string s
        | ok found ↦ add_expression (pair_key path) label_in (target_value found) s
      ]

  unfoldable pub add_reference_pair_from_path : Object → String → Selection → Selection
  add_reference_pair_from_path reference path = unless_failed λ s.
      elim (api.nested_string reference (path_to_fields path)) [
        | err e ↦ fail no_string s
        | ok found ↦ add_pair (pair_key path) (reference_value found) s
      ]

  unfoldable pub add_target_expression_from_exp :
      Object → ReferenceSelectorRequirement → Selection → Selection
  add_target_expression_from_exp target exp = unless_failed λ s.
      elim (api.nested_string target (path_to_fields exp.key)) [
        | err e ↦ fail no_string s
        | ok found ↦
            add_expression (pair_key exp.key) (operator_mapping exp.operator) (target_value found) s
      ]

  abbrev pub text_found : Result ApiError (Option String) → Result SelectorError String
  text_found (err e) = err no_string
  text_found (ok found) = ok (reference_value found)

  -- The value of the reference, by the operator.
  unfoldable pub exp_reference_value :
      Object → ReferenceSelectorRequirement → Result SelectorError String
  exp_reference_value reference exp =
      let path = if exp.ref_key == "" then exp.key else exp.ref_key in
      if exp.operator == ref_equals || (exp.operator == ref_not_equals || exp.operator == "")
      then text_found (api.nested_string reference (path_to_fields path))
      else if exp.operator == ref_equals_name
      then ok (api.get_name reference)
      else if exp.operator == ref_equals_uid
      then ok (api.get_uid reference)
      else if exp.operator == ref_equals_namespace
      then ok (api.get_namespace reference)
      else err bad_operator

  unfoldable pub add_reference_pair_from_exp :
      Object → ReferenceSelectorRequirement → Selection → Selection
  add_reference_pair_from_exp reference exp = unless_failed λ s.
      elim (do validate_exp_if_ref_key exp; exp_reference_value reference exp) [
        | err e ↦ fail e s
        | ok value ↦ add_pair (pair_key exp.key) value s
      ]

  unfoldable pub walk_expressions :
      Object → Object → List ReferenceSelectorRequirement → Selection → Selection
  walk_expressions target reference [] s = s
  walk_expressions target reference (exp ∷ exps) s = elim (exp.key == "") [
    | true ↦ fail empty_key s
    | false ↦
        walk_expressions target reference exps
          (add_target_expression_from_exp target exp (add_reference_pair_from_exp reference exp s))
  ]

  unfoldable pub walk_paths : Object → Object → List String → Selection → Selection
  walk_paths target reference [] s = s
  walk_paths target reference (path ∷ paths) s = elim (path == "") [
    | true ↦ fail empty_key s
    | false ↦ walk_paths target reference paths (
        add_target_expression_from_path target path (add_reference_pair_from_path reference path s))
  ]

module _ (labels : Labels) where
  -- The error of the selection is not asked for here.
  unfoldable pub match_selection : Selection → Result SelectorError Bool
  match_selection s = do
    selector ←
        labels.as_selector (record { match_labels = []; match_expressions = s.target_expressions })
    ok (selector s.reference_pairs)

module _ (labels : Labels) (api : Api) where
  -- Match, on a selection that is new. A nil object and one with nil content are both `none`.
  unfoldable pub reference_match :
      ReferenceSelectorConfig → Option Object → Option Object → Result SelectorError Bool
  reference_match config none reference = err nil_target
  reference_match config (some target) none = err nil_reference
  reference_match config (some target) (some reference) = match_selection labels (
      walk_paths api target reference config.match_reference
        (walk_expressions api target reference config.match_reference_expressions new_selection))

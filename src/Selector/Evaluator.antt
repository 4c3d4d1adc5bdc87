-- ===== src/Selector/Evaluator.antt =====
-- controller/common/selector/evaluator.go: selector terms evaluated against a target.
pub mod Terms
pub mod Slices
use metac.Prelude.{
  ℕ, ◌+◌, suc, String, Bool, true, false, not, ◌≡◌, Option, none, some, List, [], ◌∷◌, Dict, insert,
  length, ◌==◌, nat_eq, if◌then◌else◌,
}
use metac.Prelude.Results.{Result, ok, err, ◌>>=◌, ◌>>◌}
use metac.Prelude.Text.{split}
use metac.Value.{entries}
use metac.Api.{Object, Api}
use metac.Selector.Labels.{
  SelectorError, empty_key, no_slice, nil_target, LabelSelectorRequirement, LabelSelector, Labels,
}
use metac.Selector.Slice.{
  KeyToSlice, SliceSelectorRequirement, SliceSelectorConfig, new_slice_selector, selector_match,
}
use metac.Selector.Field.{new_field_selector, field_match}
use metac.Selector.Reference.{
  ReferenceSelectorRequirement, ReferenceSelectorConfig, reference_match,
}

-- apis/metacontroller/v1alpha1/selector.go
pub record SelectorTerm : Type 0 where
  pub match_slice : Dict (List String)
  pub match_slice_expressions : List SliceSelectorRequirement
  pub match_fields : Dict String
  pub match_field_expressions : List LabelSelectorRequirement
  pub match_reference : List String
  pub match_reference_expressions : List ReferenceSelectorRequirement
  pub match_labels : Dict String
  pub match_label_expressions : List LabelSelectorRequirement
  pub match_annotations : Dict String
  pub match_annotation_expressions : List LabelSelectorRequirement

-- A nil resource, or a nil term, is `none`.
pub record Evaluation : Type 0 where
  pub target : Option Object
  pub terms : List (Option SelectorTerm)
  pub reference : Option Object

abbrev pub MatchFn : Type 0
MatchFn = SelectorTerm → Result SelectorError Bool

-- len(a) + len(b) == 0
abbrev pub both_empty {ℓ κ} : {A : Type ℓ} {B : Type κ} → List A → List B → Bool
both_empty xs ys = nat_eq (length xs + length ys) 0

abbrev pub on_target :
    Option Object → (Object → Result SelectorError Bool) → Result SelectorError Bool
on_target none f = err nil_target
on_target (some target) f = f target

module _ (api : Api) where
  -- NestedStringSlice, whose nil list for a missing path is stored all the same.
  unfoldable pub actual_values : Object → String → Result SelectorError (List String)
  actual_values target key =
      if key == "" then err empty_key else elim (api.nested_string_slice target (split b'.' key)) [
        | err x ↦ err no_slice
        | ok found ↦ ok (entries found)
      ]

  unfoldable pub target_of_expressions :
      Object → List SliceSelectorRequirement → KeyToSlice → Result SelectorError KeyToSlice
  target_of_expressions target [] new = ok new
  target_of_expressions target (exp ∷ exps) new = do
    vals ← actual_values target exp.key
    target_of_expressions target exps (insert exp.key vals new)

  unfoldable pub target_of_map :
      Object → Dict (List String) → KeyToSlice → Result SelectorError KeyToSlice
  target_of_map target [] new = ok new
  target_of_map target ((key, values) ∷ slices) new = do
    vals ← actual_values target key
    target_of_map target slices (insert key vals new)

module _ (labels : Labels) (api : Api) (e : Evaluation) where
  unfoldable pub is_annotation_match : MatchFn
  is_annotation_match term =
      if both_empty term.match_annotations term.match_annotation_expressions
      then ok true
      else on_target e.target λ target. do
        selector ← labels.as_selector (record {
          match_labels = term.match_annotations;
          match_expressions = term.match_annotation_expressions;
        })
        ok (selector (entries (api.get_annotations target)))

  unfoldable pub is_label_match : MatchFn
  is_label_match term =
      if both_empty term.match_labels term.match_label_expressions
      then ok true
      else on_target e.target λ target. do
        selector ← labels.as_selector (record {
          match_labels = term.match_labels;
          match_expressions = term.match_label_expressions;
        })
        ok (selector (api.get_labels target))

  unfoldable pub is_field_match : MatchFn
  is_field_match term =
      if both_empty term.match_fields term.match_field_expressions
      then ok true
      else on_target e.target λ target.
        field_match api
          (new_field_selector labels (record {
            match_labels = term.match_fields;
            match_expressions = term.match_field_expressions;
          }))
          target

  unfoldable pub is_slice_match : MatchFn
  is_slice_match term =
      if both_empty term.match_slice term.match_slice_expressions
      then ok true
      else on_target e.target λ target. do
        selector ← new_slice_selector labels (record {
          match_slice = term.match_slice;
          match_slice_expressions = term.match_slice_expressions;
        })
        first ← target_of_expressions api target term.match_slice_expressions []
        new ← target_of_map api target term.match_slice first
        ok (selector_match selector new)

  unfoldable pub is_reference_match : MatchFn
  is_reference_match term =
      if both_empty term.match_reference term.match_reference_expressions
      then ok true
      else reference_match labels api
          (record {
            match_reference = term.match_reference;
            match_reference_expressions = term.match_reference_expressions;
          })
          e.target e.reference

  abbrev pub match_fns : List MatchFn
  match_fns =
      is_field_match ∷ is_annotation_match ∷ is_label_match ∷ is_slice_match ∷ is_reference_match
      ∷ []

-- The inner loop: how many match functions succeeded before one failed.
unfoldable pub count_matches : List MatchFn → SelectorTerm → ℕ → Result SelectorError ℕ
count_matches [] term count = ok count
count_matches (fn ∷ fns) term count = do
  is_match ← fn term
  elim is_match [ true ↦ count_matches fns term (suc count) | false ↦ ok count ]

-- The outer loop, over the terms.
unfoldable pub run_terms : List MatchFn → List (Option SelectorTerm) → Result SelectorError Bool
run_terms fns [] = ok false
run_terms fns (none ∷ terms) = run_terms fns terms
run_terms fns (some term ∷ terms) = do
  count ← count_matches fns term 0
  elim (nat_eq count (length fns)) [ true ↦ ok true | false ↦ run_terms fns terms ]

module _ (labels : Labels) (api : Api) where
  unfoldable pub run_match : Evaluation → Result SelectorError Bool
  run_match e =
      if nat_eq (length e.terms) 0
      then ok true
      else on_target e.target λ target. run_terms (match_fns labels api e) e.terms

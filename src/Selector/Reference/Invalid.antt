-- ===== src/Selector/Reference/Invalid.antt =====
-- What becomes of a reference selector whose configuration is not valid.
use metac.Prelude.{
  String, Bool, true, ◌≡◌, ap, refl, some, List, [], ◌∷◌, Dict, ◌==◌, Bool-cases, inl, inr,
}
use metac.Prelude.Results.{ok}
use metac.Api.{Object, Api}
use metac.Selector.Labels.{SelectorError, empty_key, Labels, LabelsLaws}
use metac.Selector.Reference.{
  Selection, new_selection, fail, ReferenceSelectorRequirement, add_target_expression_from_path,
  add_reference_pair_from_path, walk_expressions, walk_paths, match_selection, reference_match,
}

-- What the walk over the paths keeps, once there is an error.
walk_paths-failed :
    (api : Api) (target reference : Object) (paths : List String) (s : Selection)
    (e : SelectorError)
    → s.error ≡ some e
    → ((walk_paths api target reference paths s).target_expressions ≡ s.target_expressions)
      × ((walk_paths api target reference paths s).reference_pairs ≡ s.reference_pairs)
unfolding walk_paths
walk_paths-failed api target reference [] s e h = (refl, refl)
walk_paths-failed api target reference (path ∷ paths) s e h = elim (Bool-cases (path == "")) [
  | inl empty ↦ rw (empty, walk_paths) (refl, refl)
  | inr named ↦
      let skip_pair : add_reference_pair_from_path api reference path s ≡ s =
        unfold add_reference_pair_from_path in rw h in
      let skip_exp : add_target_expression_from_path api target path s ≡ s =
        unfold add_target_expression_from_path in rw h in
      rw (named, walk_paths, skip_pair, skip_exp)
        (walk_paths-failed api target reference paths s e h)
]

-- Let the first expression of a configuration have no key. The match does not fail: if the library
-- accepts the empty selector, every target matches every reference.
pub reference_match-missing_key :
    (labels : Labels) (laws : LabelsLaws labels) (api : Api) (exp : ReferenceSelectorRequirement)
    (exps : List ReferenceSelectorRequirement) (paths : List String) (target reference : Object)
    (f : Dict String → Bool)
    → exp.key ≡ ""
    → labels.as_selector (record { match_labels = []; match_expressions = [] }) ≡ ok f
    → reference_match labels api
        (record { match_reference = paths; match_reference_expressions = exp ∷ exps })
        (some target)
        (some reference)
      ≡ ok true
unfolding reference_match walk_expressions match_selection
reference_match-missing_key labels laws api exp exps paths target reference f k a =
    let (texts, pairs) =
      walk_paths-failed api target reference paths (fail empty_key new_selection) empty_key refl in
    rw (k, texts, pairs, a) (ap ok (laws.expressions_only [] f tt a []))

-- ===== src/Examples/Selecting.antt =====
-- Runs of the selectors.
use metac.Prelude.{
  true, ◌&&◌, ◌≡◌, ◌≢◌, refl, none, some, List, [], ◌∷◌, lookup, insert, contains, ◌==◌,
}
use metac.Prelude.Results.{ok}
use metac.Prelude.Text.{split, replace_text, replace_from}
use metac.Value.{str, arr, of_list, object}
use metac.Api.{Object}
use metac.Selector.Labels.{LabelSelectorRequirement, meet_all}
use metac.Selector.Slice.{
  KeyToSlice, SliceMatcher, SliceSelector, SliceSelectorConfig, op_equals, op_in,
  subset_of_observed_values, equals_observed_values, matcher_match, new_slice_selector,
  selector_match, add_slices, add_expressions, new_slice_matcher, validate_label_key,
  validate_label_value, validate_values, selector_add, all_match, slice_get, value_store,
  all_stored,
}
use metac.Selector.Slice.Selectors.{slices_met, all_met, selector_match-eq}
use metac.Selector.Field.{
  sanitise_value, sanitise_map, sanitise_labels, new_field_selector, field_match,
}
use metac.Selector.Field.Match.{one_in, field_match-in}
use metac.Selector.Reference.{reference_match, walk_paths, new_selection, path_to_fields}
use metac.Selector.Reference.Paths.{Readable, Apart, texts_agree, reference_match-paths}
use metac.Selector.Evaluator.{
  SelectorTerm, Evaluation, run_match, is_slice_match, target_of_expressions, target_of_map,
  actual_values,
}
use metac.Selector.Evaluator.Terms.{some_term, term_matches, run_match-eq-some_term}
use metac.Selector.Evaluator.Slices.{entries_hold, expressions_hold, is_slice_match-lem}
use metac.Examples.{small_api, small_labels, small_labels_laws}

abbrev finalizers_equal : SliceMatcher
finalizers_equal = record {
  key = "finalizers";
  operator = op_equals;
  desired_values = "a" ∷ "b" ∷ [];
}

abbrev seen : KeyToSlice
seen = ("finalizers", "b" ∷ "a" ∷ []) ∷ []

abbrev config : SliceSelectorConfig
config = record {
  match_slice = ("finalizers", "a" ∷ "b" ∷ []) ∷ [];
  match_slice_expressions = record { key = "finalizers"; operator = op_in; values = "a" ∷ [] } ∷ [];
}

abbrev selector : SliceSelector
selector = record {
  matchers =
      finalizers_equal
      ∷ record { key = "finalizers"; operator = op_in; desired_values = "a" ∷ [] }
      ∷ [];
  match_fn = none;
}

selector_built : new_slice_selector small_labels config ≡ ok selector
unfolding new_slice_selector add_slices add_expressions new_slice_matcher validate_label_key
    validate_label_value validate_values selector_add
selector_built = refl

selector_match-eq_example :
    selector_match selector seen
    ≡ (slices_met seen config.match_slice && all_met seen config.match_slice_expressions)
selector_match-eq_example = selector_match-eq small_labels config seen selector_built

abbrev target : Object
target = ("spec", object (("node", str "n1") ∷ [])) ∷ []

node_path : small_api.nested_string target (split b'.' "spec.node") ≡ ok (some "n1")
unfolding split lookup
node_path = refl

field_match-in_example :
    field_match small_api (new_field_selector small_labels (one_in "spec.node" ("n1" ∷ []))) target
    ≡ ok (sanitise_value "n1" == sanitise_value "n1")
field_match-in_example =
    field_match-in small_labels small_labels_laws small_api "spec.node" "n1" [] target
      (λ l. meet_all (sanitise_labels (one_in "spec.node" ("n1" ∷ []))).match_expressions l)
      (some "n1") refl (unfold sanitise_labels in unfold sanitise_map in refl) node_path

abbrev watch : Object
watch = ("spec", object (("node", str "n1") ∷ [])) ∷ ("name", str "w") ∷ []

target-Readable : Readable small_api target ("spec.node" ∷ [])
unfolding path_to_fields split lookup replace_text replace_from
target-Readable = (refl, refl, tt)

watch-Readable : Readable small_api watch ("spec.node" ∷ [])
unfolding path_to_fields split lookup replace_text replace_from
watch-Readable = (refl, refl, tt)

node-Apart : Apart ("spec.node" ∷ [])
unfolding contains
node-Apart = (refl, tt)

abbrev node_expressions : List LabelSelectorRequirement
node_expressions =
    (walk_paths small_api target watch ("spec.node" ∷ []) new_selection).target_expressions

reference_match-paths_example :
    reference_match small_labels small_api
      (record { match_reference = "spec.node" ∷ []; match_reference_expressions = [] })
      (some target)
      (some watch)
    ≡ ok (texts_agree small_api target watch ("spec.node" ∷ []))
reference_match-paths_example =
    reference_match-paths small_labels small_labels_laws small_api target watch ("spec.node" ∷ [])
      (λ l. meet_all node_expressions l) node-Apart target-Readable watch-Readable refl

abbrev on_finalizers : SelectorTerm
on_finalizers = record {
  match_slice = ("finalizers", "a" ∷ "b" ∷ []) ∷ [];
  match_slice_expressions = [];
  match_fields = [];
  match_field_expressions = [];
  match_reference = [];
  match_reference_expressions = [];
  match_labels = [];
  match_label_expressions = [];
  match_annotations = [];
  match_annotation_expressions = [];
}

abbrev finalized_target : Object
finalized_target = ("finalizers", arr (of_list (str "b" ∷ str "a" ∷ []))) ∷ []

abbrev evaluation : Evaluation
evaluation = record {
  target = some finalized_target;
  terms = none ∷ some on_finalizers ∷ [];
  reference = none;
}

two_terms : evaluation.terms ≢ []
two_terms h = cc

run_match-eq-some_term_example :
    run_match small_labels small_api evaluation
    ≡ some_term (term_matches small_labels small_api evaluation) evaluation.terms
run_match-eq-some_term_example =
    run_match-eq-some_term small_labels small_api evaluation finalized_target refl two_terms

slices_match : is_slice_match small_labels small_api evaluation on_finalizers ≡ ok true
unfolding is_slice_match new_slice_selector add_slices add_expressions new_slice_matcher
    validate_label_key validate_label_value validate_values selector_add target_of_expressions
    target_of_map actual_values split lookup insert selector_match all_match matcher_match
    equals_observed_values subset_of_observed_values slice_get value_store all_stored
slices_match = refl

is_slice_match_example : true ≡ (
    entries_hold small_api finalized_target on_finalizers.match_slice
    && expressions_hold small_api finalized_target on_finalizers.match_slice_expressions)
is_slice_match_example =
    is_slice_match-lem small_api finalized_target small_labels evaluation on_finalizers true refl
      slices_match

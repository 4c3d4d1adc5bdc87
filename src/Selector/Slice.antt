-- ===== src/Selector/Slice.antt =====
-- controller/common/selector/slice.go and util.go: selectors over lists of texts.
pub mod Sets
pub mod Selectors
pub mod Equality
use metac.Prelude.{
  ℕ, ◌+◌, String, Bool, true, false, not, ◌&&◌, ◌||◌, ◌≡◌, Option, none, some, List, [], ◌∷◌, ◌++◌,
  Dict, lookup, has, insert, contains, length, ◌==◌, nat_eq, if◌then◌else◌,
}
use metac.Prelude.Results.{Result, ok, err, ◌>>=◌, ◌>>◌}
use metac.Selector.Labels.{
  SelectorError, empty_key, empty_values, bad_key, bad_operator, bad_value, Labels,
}

-- map[string][]string
abbrev pub KeyToSlice : Type 0
KeyToSlice = Dict (List String)

unfoldable pub slice_get : KeyToSlice → String → List String
slice_get s key = elim (lookup key s) [ none ↦ [] | some vals ↦ vals ]

unfoldable pub slice_has : KeyToSlice → String → Bool
slice_has s key = has key s

abbrev pub op_equals : String
op_equals = "Equals"

abbrev pub op_not_equals : String
op_not_equals = "NotEquals"

abbrev pub op_in : String
op_in = "In"

abbrev pub op_not_in : String
op_not_in = "NotIn"

pub record SliceMatcher : Type 0 where
  pub key : String
  pub operator : String
  pub desired_values : List String

pub record SliceSelectorRequirement : Type 0 where
  pub key : String
  pub operator : String
  pub values : List String

-- The operators that a matcher may have.
abbrev pub is_slice_operator : String → Bool
is_slice_operator op = op == op_in || (op == op_not_in || (op == op_equals || op == op_not_equals))

abbrev pub ensure : Bool → SelectorError → Result SelectorError (Unit {0})
ensure true e = ok tt
ensure false e = err e

module _ (labels : Labels) where
  unfoldable pub validate_label_key : String → Result SelectorError (Unit {0})
  validate_label_key key = elim (labels.is_qualified_name key) [ [] ↦ ok tt | _ ∷ _ ↦ err bad_key ]

  unfoldable pub validate_label_value : String → Result SelectorError (Unit {0})
  validate_label_value value = elim (labels.is_valid_label_value value) [
    | [] ↦ ok tt
    | _ ∷ _ ↦ err bad_value
  ]

  unfoldable pub validate_values : List String → Result SelectorError (Unit {0})
  validate_values [] = ok tt
  validate_values (v ∷ values) = do validate_label_value v; validate_values values

  unfoldable pub new_slice_matcher :
      String → String → List String → Result SelectorError SliceMatcher
  unfolding validate_label_key validate_label_value validate_values
  new_slice_matcher key op values = do
    ensure (not (key == "")) empty_key
    ensure (not (nat_eq (length values) 0)) empty_values
    validate_label_key key
    ensure (is_slice_operator op) bad_operator
    validate_values values
    ok (record { key = key; operator = op; desired_values = values })

-- The set of the observed values, as a map.
unfoldable pub value_store : List String → Dict Bool → Dict Bool
value_store [] store = store
value_store (v ∷ observed) store = value_store observed (insert v true store)

abbrev pub is_set : Option Bool → Bool
is_set none = false
is_set (some b) = b

unfoldable pub all_stored : Dict Bool → List String → Bool
all_stored store [] = true
all_stored store (v ∷ desired) =
    let rest = all_stored store desired in if not (is_set (lookup v store)) then false else rest

unfoldable pub subset_of_observed_values : SliceMatcher → List String → Bool
unfolding value_store all_stored
subset_of_observed_values r observed =
    if nat_eq (length observed) 0 && not (nat_eq (length r.desired_values) 0)
    then false
    else all_stored (value_store observed []) r.desired_values

unfoldable pub equals_observed_values : SliceMatcher → List String → Bool
equals_observed_values r observed =
    if not (nat_eq (length observed) (length r.desired_values))
    then false
    else subset_of_observed_values r observed

unfoldable pub matcher_match : SliceMatcher → KeyToSlice → Bool
unfolding slice_get slice_has
matcher_match r observed =
    if r.operator == op_in
    then subset_of_observed_values r (slice_get observed r.key)
    else if r.operator == op_equals
    then equals_observed_values r (slice_get observed r.key)
    else if r.operator == op_not_in
    then (if not (slice_has observed r.key)
        then true
        else not (subset_of_observed_values r (slice_get observed r.key)))
    else if r.operator == op_not_equals
    then (if not (slice_has observed r.key)
        then true
        else not (equals_observed_values r (slice_get observed r.key)))
    else false

-- The override is the one of NewSliceSelectorAlwaysTrue.
pub record SliceSelector : Type 0 where
  pub matchers : List SliceMatcher
  pub match_fn : Option (KeyToSlice → Bool)

pub record SliceSelectorConfig : Type 0 where
  pub match_slice : Dict (List String)
  pub match_slice_expressions : List SliceSelectorRequirement

unfoldable pub new_slice_selector_always_true : SliceSelector
new_slice_selector_always_true = record { matchers = []; match_fn = some (λ k. true) }

unfoldable pub selector_add : SliceSelector → SliceMatcher → SliceSelector
selector_add s m = record s { matchers = s.matchers ++ m ∷ [] }

module _ (labels : Labels) where
  unfoldable pub add_slices :
      Dict (List String) → SliceSelector → Result SelectorError SliceSelector
  unfolding selector_add
  add_slices [] s = ok s
  add_slices ((k, v) ∷ slices) s = do
    m ← new_slice_matcher labels k op_equals v
    add_slices slices (selector_add s m)

  unfoldable pub add_expressions :
      List SliceSelectorRequirement → SliceSelector → Result SelectorError SliceSelector
  unfolding selector_add
  add_expressions [] s = ok s
  add_expressions (e ∷ exprs) s = do
    m ← new_slice_matcher labels e.key e.operator e.values
    add_expressions exprs (selector_add s m)

  unfoldable pub new_slice_selector : SliceSelectorConfig → Result SelectorError SliceSelector
  unfolding add_slices add_expressions new_slice_selector_always_true
  new_slice_selector config =
      if nat_eq (length config.match_slice + length config.match_slice_expressions) 0
      then ok new_slice_selector_always_true
      else do
        s ← add_slices config.match_slice (record { matchers = []; match_fn = none })
        add_expressions config.match_slice_expressions s

unfoldable pub all_match : List SliceMatcher → KeyToSlice → Bool
all_match [] target = true
all_match (m ∷ ms) target =
    let rest = all_match ms target in if not (matcher_match m target) then false else rest

unfoldable pub selector_match : SliceSelector → KeyToSlice → Bool
selector_match s target = elim s.match_fn [
  | some fn ↦ fn target
  | none ↦ all_match s.matchers target
]

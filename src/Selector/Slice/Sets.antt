-- ===== src/Selector/Slice/Sets.antt =====
-- A slice matcher, against membership in lists.
use metac.Prelude.{
  String, Bool, true, false, not, ◌&&◌, ◌||◌, ◌≡◌, refl, inl, inr, Option, none, some, List, [],
  ◌∷◌, Dict, lookup, insert, contains, length, ◌==◌, nat_eq, if◌then◌else◌, arith, eq_iff,
  lookup-insert, has-is_some, is_some, Option-cases,
}
use metac.Value.{entries}
use metac.Selector.Slice.{
  KeyToSlice, slice_get, SliceMatcher, op_in, op_not_in, op_equals, op_not_equals, value_store,
  is_set, all_stored, subset_of_observed_values, equals_observed_values, matcher_match,
}

-- Every desired value is among the observed ones.
abbrev pub contains_all : List String → List String → Bool
contains_all observed [] = true
contains_all observed (v ∷ desired) = contains v observed && contains_all observed desired

lookup-value_store :
    (v : String) (observed : List String) (store : Dict Bool)
    → is_set (lookup v (value_store observed store))
      ≡ (contains v observed || is_set (lookup v store))
unfolding value_store contains
lookup-value_store v [] store = refl
lookup-value_store v (o ∷ observed) store = ground (
  arith,
  eq_iff o v,
  lookup-insert o v true store,
  lookup-value_store v observed (insert o true store),
)

all_stored-eq-contains_all :
    (observed desired : List String)
    → all_stored (value_store observed []) desired ≡ contains_all observed desired
unfolding all_stored lookup
all_stored-eq-contains_all observed [] = refl
all_stored-eq-contains_all observed (v ∷ desired) =
    ground (arith, lookup-value_store v observed [], all_stored-eq-contains_all observed desired)

-- The check for a subset is membership of every desired value: the early return changes nothing.
pub subset-eq-contains_all :
    (r : SliceMatcher) (observed : List String)
    → subset_of_observed_values r observed ≡ contains_all observed r.desired_values
unfolding subset_of_observed_values
subset-eq-contains_all r observed =
    go r.desired_values observed (all_stored-eq-contains_all observed r.desired_values)
  where
    go :
        (desired observed : List String)
        → all_stored (value_store observed []) desired ≡ contains_all observed desired
        → (if nat_eq (length observed) 0 && not (nat_eq (length desired) 0)
            then false
            else all_stored (value_store observed []) desired)
          ≡ contains_all observed desired
    go [] [] e = e
    go [] (o ∷ os) e = ground arith
    go (d ∷ ds) [] e = unfold contains in ground arith
    go (d ∷ ds) (o ∷ os) e = ground arith

-- What each operator promises, by membership.
abbrev pub slice_matches : String → Option (List String) → List String → Bool
slice_matches op none desired =
    if op == op_in
    then contains_all [] desired
    else if op == op_equals
    then nat_eq 0 (length desired) && contains_all [] desired
    else op == op_not_in || op == op_not_equals
slice_matches op (some vals) desired =
    if op == op_in
    then contains_all vals desired
    else if op == op_equals
    then nat_eq (length vals) (length desired) && contains_all vals desired
    else if op == op_not_in
    then not (contains_all vals desired)
    else if op == op_not_equals
    then not (nat_eq (length vals) (length desired) && contains_all vals desired)
    else false

pub equals-eq :
    (r : SliceMatcher) (observed : List String)
    → equals_observed_values r observed ≡ (
        nat_eq (length observed) (length r.desired_values)
        && contains_all observed r.desired_values)
unfolding equals_observed_values
equals-eq r observed = ground (arith, subset-eq-contains_all r observed)

slice_get-eq :
    (observed : KeyToSlice) (key : String) → slice_get observed key ≡ entries (lookup key observed)
unfolding slice_get
slice_get-eq observed key = elim (Option-cases (lookup key observed)) [
  | inl e ↦ rw (e, slice_get)
  | inr (vals, e) ↦ rw (e, slice_get)
]

-- A matcher decides membership, by its operator and by whether the key is observed: In and Equals
-- fail on a key that is not observed, unless nothing is desired, and the negative operators succeed.
pub matcher_match-eq :
    (r : SliceMatcher) (observed : KeyToSlice)
    → matcher_match r observed ≡ slice_matches r.operator (lookup r.key observed) r.desired_values
unfolding matcher_match
matcher_match-eq r observed =
    rw
      (
        slice_get-eq observed r.key,
        has-is_some r.key observed,
        subset-eq-contains_all r (entries (lookup r.key observed)),
        equals-eq r (entries (lookup r.key observed)),
      )
      (go (lookup r.key observed))
  where
    go :
        (o : Option (List String))
        → (if r.operator == op_in
            then contains_all (entries o) r.desired_values
            else if r.operator == op_equals
            then nat_eq (length (entries o)) (length r.desired_values)
              && contains_all (entries o) r.desired_values
            else if r.operator == op_not_in
            then (if not (is_some o) then true else not (contains_all (entries o) r.desired_values))
            else if r.operator == op_not_equals
            then (if not (is_some o)
                then true
                else not (
                    nat_eq (length (entries o)) (length r.desired_values)
                    && contains_all (entries o) r.desired_values))
            else false)
          ≡ slice_matches r.operator o r.desired_values
    go none = ground arith
    go (some vals) = refl

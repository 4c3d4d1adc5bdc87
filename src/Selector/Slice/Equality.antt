-- ===== src/Selector/Slice/Equality.antt =====
-- The operator Equals of a slice matcher.
use metac.Prelude.{
  suc, String, true, false, ◌||◌, ◌≡◌, refl, sym, ◌∙◌, inl, inr, List, [], ◌∷◌, contains,
  remove_first, length, ◌==◌, arith, eq_iff, eq_refl, Bool-cases, contains-remove_first_ne,
}
use metac.Selector.Slice.{SliceMatcher, op_equals, equals_observed_values}
use metac.Selector.Slice.Sets.{contains_all, equals-eq}

-- No value is desired twice.
abbrev pub Unrepeated : List String → Type 0
Unrepeated [] = Unit
Unrepeated (v ∷ vs) = (contains v vs ≡ false) × Unrepeated vs

length-remove_first :
    (v : String) (xs : List String)
    → contains v xs ≡ true
    → length xs ≡ suc (length (remove_first v xs))
unfolding contains remove_first
length-remove_first v [] h = cc
length-remove_first v (x ∷ xs) h = ground (arith, length-remove_first v xs)

contains-remove_first :
    (v t : String) (xs : List String)
    → contains t xs ≡ true
    → (v == t || contains t (remove_first v xs)) ≡ true
unfolding contains remove_first
contains-remove_first v t [] h = cc
contains-remove_first v t (x ∷ xs) h =
    ground (arith, eq_iff x v, eq_iff v t, eq_iff x t, contains-remove_first v t xs)

contains_all-remove_first :
    (v : String) (observed desired : List String)
    → contains v desired ≡ false
    → contains_all observed desired ≡ true
    → contains_all (remove_first v observed) desired ≡ true
unfolding contains
contains_all-remove_first v observed [] n h = refl
contains_all-remove_first v observed (d ∷ desired) n h = ground (
  arith,
  eq_iff d v,
  eq_iff v d,
  contains-remove_first_ne v d observed,
  contains_all-remove_first v observed desired,
)

contains_of_contains_all :
    (t : String) (observed desired : List String)
    → contains_all observed desired ≡ true
    → contains t desired ≡ true
    → contains t observed ≡ true
unfolding contains
contains_of_contains_all t observed [] h c = cc
contains_of_contains_all t observed (d ∷ desired) h c =
    ground (arith, eq_iff d t, contains_of_contains_all t observed desired)

-- As many observed values as unrepeated desired ones, which they contain: there are no others.
no_others :
    (observed desired : List String)
    → Unrepeated desired
    → length observed ≡ length desired
    → contains_all observed desired ≡ true
    → (t : String) → contains t observed ≡ true
    → contains t desired ≡ true
unfolding contains
no_others [] desired u l h t c = cc
no_others (o ∷ os) [] u l h t c = absurd (omega arith)
no_others (o ∷ os) (d ∷ desired) u l h t c =
    let there : contains d (o ∷ os) ≡ true = ground arith in
    let shorter : length (remove_first d (o ∷ os)) ≡ length desired =
      omega (arith, length-remove_first d (o ∷ os) there) in
    let within = contains_all-remove_first d (o ∷ os) desired u.0 (ground arith) in
    elim (Bool-cases (d == t)) [
      | inl same ↦ rw same
      | inr other ↦ ground (
        arith,
        contains-remove_first d t (o ∷ os),
        no_others (remove_first d (o ∷ os)) desired u.1 shorter within t,
      )
    ]

-- If no value is desired twice and the matcher finds the observed values equal to the desired ones,
-- then the two lists have the same values.
pub equals-same_values :
    (r : SliceMatcher) (observed : List String)
    → Unrepeated r.desired_values
    → equals_observed_values r observed ≡ true
    → (t : String) → contains t observed ≡ contains t r.desired_values
equals-same_values r observed u e t =
    let both = sym (equals-eq r observed) ∙ e in
    let lengths : length observed ≡ length r.desired_values = ground arith in
    let within : contains_all observed r.desired_values ≡ true = ground arith in
    ground (
      arith,
      no_others observed r.desired_values u lengths within t,
      contains_of_contains_all t observed r.desired_values within,
    )

-- A value that is desired twice makes the matcher find unequal lists equal: it accepts any second
-- value that is observed beside it.
pub equals_repeated :
    (key x y : String)
    → equals_observed_values
        (record { key = key; operator = op_equals; desired_values = x ∷ x ∷ [] })
        (x ∷ y ∷ [])
      ≡ true
equals_repeated key x y =
    equals-eq (record { key = key; operator = op_equals; desired_values = x ∷ x ∷ [] }) (x ∷ y ∷ [])
    ∙ (unfold contains in rw (eq_refl x))

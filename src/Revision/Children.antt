-- ===== src/Revision/Children.antt =====
-- Adding and removing a child of a revision: membership, number and repeated names.
use metac.Prelude.{
  ℕ, ◌+◌, String, Bool, true, false, not, ◌&&◌, ◌||◌, ◌≡◌, refl, ap, ◌∙◌, some, List, [], ◌∷◌, ◌++◌,
  contains, remove_first, length, ◌==◌, if◌then◌else◌, eq_iff, arith, contains-append,
  contains-remove_first_ne, Bool-cases, inl, inr, ◌⊎◌,
}
use mathlib.Core.Path.{ap₂}
use metac.Revision.{
  RevisionChildren, is_group, add_name, remove_name, add_child, remove_child, count_from,
  count_children,
}

-- The first group of that API group and kind has the name.
abbrev pub has_child : String → String → String → List RevisionChildren → Bool
has_child api_group kind name [] = false
has_child api_group kind name (ch ∷ children) =
    if is_group api_group kind ch
    then contains name ch.names
    else has_child api_group kind name children

abbrev pub Unrepeated : List String → Type 0
Unrepeated [] = Unit
Unrepeated (n ∷ names) = (contains n names ≡ false) × Unrepeated names

abbrev pub NoRepeats : List RevisionChildren → Type 0
NoRepeats [] = Unit
NoRepeats (ch ∷ children) = Unrepeated ch.names × NoRepeats children

names-add_name :
    (n m : String) (ch : RevisionChildren)
    → contains m (add_name n ch).names ≡ ((n == m) || contains m ch.names)
unfolding contains
names-add_name n m ch = elim (Bool-cases (contains n ch.names)) [
  | inl old ↦ rw old (ground (arith, eq_iff n m))
  | inr new ↦ rw (new, contains-append) (ground arith)
]

group-add_name :
    (n h l : String) (ch : RevisionChildren) → is_group h l (add_name n ch) ≡ is_group h l ch
group-add_name n h l ch = elim (Bool-cases (contains n ch.names)) [
  | inl old ↦ rw old
  | inr new ↦ rw new
]

group-same :
    (g k h l : String) (ch : RevisionChildren)
    → is_group g k ch ≡ true
    → is_group h l ch ≡ ((g == h) && (k == l))
group-same g k h l ch e = ground (arith, eq_iff ch.api_group g, eq_iff ch.kind k)

-- A child that is added is there, and no other child comes or goes.
pub has_child-add_child :
    (g k n h l m : String) (children : List RevisionChildren)
    → has_child h l m (add_child g k n children)
      ≡ ((((g == h) && (k == l)) && (n == m)) || has_child h l m children)
unfolding add_child contains
has_child-add_child g k n h l m [] = ground (arith, eq_iff g h, eq_iff k l)
has_child-add_child g k n h l m (ch ∷ children) = elim (Bool-cases (is_group g k ch)) [
  | inl here ↦
      ap (has_child h l m) (first_here here)
      ∙ ap₂ (λ a b. if a then b else has_child h l m children)
          (group-add_name n h l ch ∙ group-same g k h l ch here) (names-add_name n m ch)
      ∙ ground (arith, group-same g k h l ch here)
  | inr there ↦ rw there (
      ground (
        arith,
        has_child-add_child g k n h l m children,
        eq_iff g h,
        eq_iff k l,
        eq_iff ch.api_group g,
        eq_iff ch.kind k,
        eq_iff ch.api_group h,
        eq_iff ch.kind l,
      ))
]
  where
    first_here :
        is_group g k ch ≡ true
        → (if is_group g k ch then add_name n ch ∷ children else ch ∷ add_child g k n children)
          ≡ add_name n ch ∷ children
    first_here e = rw e

names-remove_first :
    (n m : String) (names : List String)
    → Unrepeated names
    → contains m (remove_first n names) ≡ (not (n == m) && contains m names)
unfolding contains remove_first
names-remove_first n m [] u = ground arith
names-remove_first n m (x ∷ names) u =
    ground (arith, names-remove_first n m names, eq_iff x n, eq_iff x m, eq_iff n m)

-- A child that is removed, from a revision without repeated names, is gone; and no other child comes
-- or goes.
pub has_child-remove_child :
    (g k n h l m : String) (children : List RevisionChildren)
    → NoRepeats children
    → has_child h l m (remove_child g k n children)
      ≡ (not (((g == h) && (k == l)) && (n == m)) && has_child h l m children)
unfolding remove_child
has_child-remove_child g k n h l m [] u = ground arith
has_child-remove_child g k n h l m (ch ∷ children) u = elim (Bool-cases (is_group g k ch)) [
  | inl here ↦
      ap (has_child h l m) (first_here here)
      ∙ ap₂ (λ a b. if a then b else has_child h l m children) (group-same g k h l ch here)
          (names-remove_first n m ch.names u.0)
      ∙ ground (arith, group-same g k h l ch here)
  | inr there ↦ rw there (
      ground (
        arith,
        has_child-remove_child g k n h l m children,
        eq_iff g h,
        eq_iff k l,
        eq_iff ch.api_group g,
        eq_iff ch.kind k,
        eq_iff ch.api_group h,
        eq_iff ch.kind l,
      ))
]
  where
    first_here :
        is_group g k ch ≡ true
        → (if is_group g k ch
            then remove_name n ch ∷ children
            else ch ∷ remove_child g k n children)
          ≡ remove_name n ch ∷ children
    first_here e = rw e

Unrepeated-append :
    (n : String) (names : List String)
    → contains n names ≡ false
    → Unrepeated names
    → Unrepeated (names ++ n ∷ [])
unfolding contains
Unrepeated-append n [] h u = (refl, tt)
Unrepeated-append n (m ∷ names) h u = (
  contains-append m names (n ∷ []) ∙ ground (arith, eq_iff n m),
  Unrepeated-append n names (ground arith) u.1,
)

Unrepeated-remove_first :
    (n : String) (names : List String) → Unrepeated names → Unrepeated (remove_first n names)
unfolding remove_first contains
Unrepeated-remove_first n [] u = tt
Unrepeated-remove_first n (m ∷ names) u = elim (Bool-cases (m == n)) [
  | inl same ↦ rw same u.1
  | inr other ↦ rw other (
    contains-remove_first_ne n m names (ground (arith, eq_iff n m, eq_iff m n)) ∙ u.0,
    Unrepeated-remove_first n names u.1,
  )
]

-- Adding and removing a child keep a revision free of repeated names.
pub add_child-NoRepeats :
    (g k n : String) (children : List RevisionChildren)
    → NoRepeats children
    → NoRepeats (add_child g k n children) × NoRepeats (remove_child g k n children)
unfolding add_child remove_child contains
add_child-NoRepeats g k n [] u = (((refl, tt), tt), tt)
add_child-NoRepeats g k n (ch ∷ children) u = elim (Bool-cases (is_group g k ch)) [
  | inl here ↦ rw here (
    (added (Bool-cases (contains n ch.names)), u.1),
    (Unrepeated-remove_first n ch.names u.0, u.1),
  )
  | inr there ↦ let (a, r) = add_child-NoRepeats g k n children u.1 in rw there ((u.0, a), (u.0, r))
]
  where
    added :
        (contains n ch.names ≡ true) ⊎ (contains n ch.names ≡ false)
        → Unrepeated (add_name n ch).names
    added (inl e) = rw e u.0
    added (inr e) = rw e (Unrepeated-append n ch.names e u.0)

count_from-eq :
    (children : List RevisionChildren) (count : ℕ)
    → count_from children count ≡ count + count_from children 0
unfolding count_from
count_from-eq [] count = omega arith
count_from-eq (ch ∷ children) count = ground (
  arith,
  count_from-eq children (count + length ch.names),
  count_from-eq children (0 + length ch.names),
)

length-add_name :
    (n : String) (ch : RevisionChildren)
    → length (add_name n ch).names ≡ length ch.names + (if contains n ch.names then 0 else 1)
length-add_name n ch = elim (Bool-cases (contains n ch.names)) [
  | inl old ↦ rw old (omega arith)
  | inr new ↦ rw new (length_append ch.names)
]
  where
    length_append : (names : List String) → length (names ++ n ∷ []) ≡ length names + 1
    length_append [] = omega arith
    length_append (m ∷ names) = ground (arith, length_append names)

-- An addition raises the number of children by one if the child is new, and else keeps it.
pub count-add_child :
    (g k n : String) (children : List RevisionChildren)
    → count_children (some (add_child g k n children))
      ≡ count_children (some children) + (if has_child g k n children then 0 else 1)
unfolding count_children add_child count_from
count-add_child g k n [] = omega arith
count-add_child g k n (ch ∷ children) = elim (Bool-cases (is_group g k ch)) [
  | inl here ↦ rw here (
      count_from-eq children (0 + length (add_name n ch).names)
      ∙ ground (arith, length-add_name n ch, count_from-eq children (0 + length ch.names)))
  | inr there ↦ rw there (
      count_from-eq (add_child g k n children) (0 + length ch.names)
      ∙ ground
          (arith, count-add_child g k n children, count_from-eq children (0 + length ch.names)))
]

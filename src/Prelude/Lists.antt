-- ===== src/Prelude/Lists.antt =====
-- Lists measured by native numbers, and the tests that the program makes on lists of texts.
use Prim.Native.Nat.{ℕ, zero, suc}
use Prim.Native.String.{String}
use text.Mathlib.Text.{◌==◌}
use text.Mathlib.TextEquality.{eq_iff}
use mathlib.Core.Path.{◌≡◌, refl, ◌∙◌}
use mathlib.Core.Bool.{Bool, false, ◌||◌}
use mathlib.Core.Logic.{◌⊎◌, inl, inr}
use mathlib.Core.List.{List, [], ◌∷◌, ◌++◌, Memᴰ}
use native.Mathlib.Omega.{arith}
use mathlib.Core.Option.{Option, none, some}
use mathlib.Core.Option
use metac.Prelude.Tests.{nat_eq, if◌then◌else◌}

module _ {ℓ} {A : Type ℓ} where
  abbrev pub length : List A → ℕ
  length [] = 0
  length (x ∷ xs) = suc (length xs)

-- A predicate of every element.
abbrev pub All {ℓ κ} : {A : Type ℓ} → (A → Type κ) → List A → Type κ
All P [] = Unit
All P (x ∷ xs) = P x × All P xs

pub All-append {ℓ κ} :
    {A : Type ℓ} (P : A → Type κ) (xs ys : List A) → All P xs → All P ys → All P (xs ++ ys)
All-append P [] ys hx hy = hy
All-append P (x ∷ xs) ys hx hy = (hx.0, All-append P xs ys hx.1 hy)

-- Whether a text stands in a list.
unfoldable pub contains : String → List String → Bool
contains s [] = false
contains s (x ∷ xs) = x == s || contains s xs

pub contains-append :
    (s : String) (xs ys : List String) → contains s (xs ++ ys) ≡ (contains s xs || contains s ys)
unfolding contains
contains-append s [] ys = refl
contains-append s (x ∷ xs) ys = ground (arith, contains-append s xs ys)

-- The first occurrence of a text is left out.
unfoldable pub remove_first : String → List String → List String
remove_first s [] = []
remove_first s (x ∷ xs) = if x == s then xs else x ∷ remove_first s xs

pub contains-remove_first_ne :
    (s t : String) (xs : List String)
    → (s == t) ≡ false
    → contains t (remove_first s xs) ≡ contains t xs
unfolding contains remove_first
contains-remove_first_ne s t [] h = refl
contains-remove_first_ne s t (x ∷ xs) h =
    ground (arith, eq_iff x s, eq_iff x t, eq_iff s t, contains-remove_first_ne s t xs h)

pub Memᴰ-append_left {ℓ} :
    {A : Type ℓ} {a : A} {xs : List A} (ys : List A) → Memᴰ a xs → Memᴰ a (xs ++ ys)
Memᴰ-append_left ys (Memᴰ.head e) = Memᴰ.head e
Memᴰ-append_left ys (Memᴰ.tail m) = Memᴰ.tail (Memᴰ-append_left ys m)

pub Memᴰ-append_right {ℓ} :
    {A : Type ℓ} {a : A} (xs : List A) {ys : List A} → Memᴰ a ys → Memᴰ a (xs ++ ys)
Memᴰ-append_right [] m = m
Memᴰ-append_right (x ∷ xs) m = Memᴰ.tail (Memᴰ-append_right xs m)

pub Memᴰ-append_cases {ℓ} :
    {A : Type ℓ} {a : A} (xs : List A) {ys : List A} → Memᴰ a (xs ++ ys) → Memᴰ a xs ⊎ Memᴰ a ys
Memᴰ-append_cases [] m = inr m
Memᴰ-append_cases (x ∷ xs) (Memᴰ.head e) = inl (Memᴰ.head e)
Memᴰ-append_cases (x ∷ xs) (Memᴰ.tail m) = elim (Memᴰ-append_cases xs m) [
  | inl l ↦ inl (Memᴰ.tail l)
  | inr r ↦ inr r
]

pub Memᴰ-cons_cases {ℓ} :
    {A : Type ℓ} {a x : A} {xs : List A} → Memᴰ a (x ∷ xs) → (a ≡ x) ⊎ Memᴰ a xs
Memᴰ-cons_cases (Memᴰ.head e) = inl e
Memᴰ-cons_cases (Memᴰ.tail m) = inr m

module _ {ℓ} {A : Type ℓ} where
  abbrev pub elem_at : List A → ℕ → Option A
  elem_at [] n = none
  elem_at (x ∷ xs) zero = some x
  elem_at (x ∷ xs) (suc n) = elem_at xs n

  -- The element at a position is changed; out of bounds nothing is.
  abbrev pub modify_at : (A → A) → List A → ℕ → List A
  modify_at f [] n = []
  modify_at f (x ∷ xs) zero = f x ∷ xs
  modify_at f (x ∷ xs) (suc n) = x ∷ modify_at f xs n

  pub elem_at-append_last : (xs : List A) (x : A) → elem_at (xs ++ x ∷ []) (length xs) ≡ some x
  elem_at-append_last [] x = refl
  elem_at-append_last (y ∷ xs) x = elem_at-append_last xs x

  pub elem_at-append_left :
      (xs ys : List A) (n : ℕ) {a : A} → elem_at xs n ≡ some a → elem_at (xs ++ ys) n ≡ some a
  elem_at-append_left [] ys n h = cc
  elem_at-append_left (x ∷ xs) ys zero h = h
  elem_at-append_left (x ∷ xs) ys (suc n) h = elem_at-append_left xs ys n h

  pub elem_at-modify_at :
      (f : A → A) (xs : List A) (n m : ℕ)
      → elem_at (modify_at f xs n) m
        ≡ (if nat_eq n m then Option.map f (elem_at xs m) else elem_at xs m)
  elem_at-modify_at f [] n m = ground arith
  elem_at-modify_at f (x ∷ xs) zero zero = refl
  elem_at-modify_at f (x ∷ xs) zero (suc m) = ground arith
  elem_at-modify_at f (x ∷ xs) (suc n) zero = ground arith
  elem_at-modify_at f (x ∷ xs) (suc n) (suc m) = elem_at-modify_at f xs n m ∙ ground arith

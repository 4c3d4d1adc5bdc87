-- ===== src/Informer/Counting.antt =====
-- The subscriptions that are open, and how many there are for a key.
use metac.Prelude.{
  ℕ, zero, suc, ◌+◌, String, Bool, false, ◌≡◌, refl, some, List, [], ◌∷◌, ◌==◌, elem_at, All, arith,
  if◌then◌else◌,
}
use metac.Informer.{ResourceInformer}

abbrev pub one_if : Bool → ℕ
one_if b = if b then 1 else 0

unfoldable pub count_key : String → List ResourceInformer → ℕ
count_key key [] = 0
count_key key (r ∷ open_) = one_if (r.key == key) + count_key key open_

abbrev pub remove_at : List ResourceInformer → ℕ → List ResourceInformer
remove_at [] n = []
remove_at (r ∷ rs) zero = rs
remove_at (r ∷ rs) (suc n) = r ∷ remove_at rs n

pub count_key-remove_at :
    (key : String) (rs : List ResourceInformer) (n : ℕ) {r : ResourceInformer}
    → elem_at rs n ≡ some r
    → count_key key rs ≡ one_if (r.key == key) + count_key key (remove_at rs n)
unfolding count_key
count_key-remove_at key [] n h = cc
count_key-remove_at key (x ∷ rs) zero {r = r} h = let e : x ≡ r = cc in rw e refl
count_key-remove_at key (x ∷ rs) (suc n) {r = r} h = omega (arith, count_key-remove_at key rs n h)

module _ (P : ResourceInformer → Type 0) where
  pub All-get :
      (rs : List ResourceInformer) (n : ℕ) {r : ResourceInformer}
      → All P rs
      → elem_at rs n ≡ some r
      → P r
  All-get [] n all h = cc
  All-get (x ∷ rs) zero {r = r} all h = let e : x ≡ r = cc in rw (← e) all.0
  All-get (x ∷ rs) (suc n) all h = All-get rs n all.1 h

  pub All-remove_at : (rs : List ResourceInformer) (n : ℕ) → All P rs → All P (remove_at rs n)
  All-remove_at [] n all = all
  All-remove_at (x ∷ rs) zero all = all.1
  All-remove_at (x ∷ rs) (suc n) all = (all.0, All-remove_at rs n all.1)

  -- What is left of a property for the subscriptions to other keys, if there are none to this one.
  pub All-other_keys :
      (Q : ResourceInformer → Type 0) (key : String) (rs : List ResourceInformer)
      → count_key key rs ≡ 0
      → ((r : ResourceInformer) → (r.key == key) ≡ false → P r → Q r)
      → All P rs
      → All Q rs
  unfolding count_key
  All-other_keys Q key [] c k all = tt
  All-other_keys Q key (r ∷ rs) c k all =
      (k r (ground arith) all.0, All-other_keys Q key rs (omega arith) k all.1)

  pub All-map :
      (Q : ResourceInformer → Type 0) (rs : List ResourceInformer)
      → ((r : ResourceInformer) → P r → Q r)
      → All P rs
      → All Q rs
  All-map Q [] k all = tt
  All-map Q (r ∷ rs) k all = (k r all.0, All-map Q rs k all.1)

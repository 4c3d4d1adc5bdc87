-- ===== src/Prelude/Maps.antt =====
-- Go maps with string keys: association lists, each key read at its first entry.
use Prim.Native.String.{String}
use text.Mathlib.Text.{◌==◌}
use text.Mathlib.TextEquality.{eq_iff}
use mathlib.Core.Path.{◌≡◌, refl, ap}
use mathlib.Core.Logic.{inl, inr}
use mathlib.Core.Bool.{Bool, true, false, ◌||◌}
use mathlib.Core.Option.{Option, none, some}
use mathlib.Core.List.{List, [], ◌∷◌, map}
use native.Mathlib.Omega.{arith}
use metac.Prelude.Tests.{Bool-cases, is_some, if◌then◌else◌}

abbrev pub Dict {ℓ} : Type ℓ → Type ℓ
Dict V = List (String × V)

module _ {ℓ} {V : Type ℓ} where
  abbrev pub keys : Dict V → List String
  keys = map (λ e. e.0)

  -- m[k], with its `ok`
  unfoldable pub lookup : String → Dict V → Option V
  lookup k [] = none
  lookup k ((j, v) ∷ m) = if j == k then some v else lookup k m

  -- _, ok := m[k]
  unfoldable pub has : String → Dict V → Bool
  has k [] = false
  has k ((j, v) ∷ m) = j == k || has k m

  -- m[k] = v
  unfoldable pub insert : String → V → Dict V → Dict V
  insert k v [] = (k, v) ∷ []
  insert k v ((j, w) ∷ m) = if j == k then (j, v) ∷ m else (j, w) ∷ insert k v m

  -- delete(m, k)
  unfoldable pub remove : String → Dict V → Dict V
  remove k [] = []
  remove k ((j, w) ∷ m) = let rest = remove k m in if j == k then rest else (j, w) ∷ rest

  -- No key occurs twice: what a Go map guarantees.
  abbrev pub Distinct : Dict V → Type 0
  Distinct [] = Unit
  Distinct ((k, v) ∷ m) = (has k m ≡ false) × Distinct m

  pub lookup-insert :
      (key other : String) (value : V) (m : Dict V)
      → lookup other (insert key value m) ≡ (if key == other then some value else lookup other m)
  unfolding insert lookup
  lookup-insert key other value [] = refl
  lookup-insert key other value ((here, old) ∷ rest) =
      let later = lookup-insert key other value rest in
      ground (arith, later, eq_iff here other, eq_iff here key, eq_iff key other)

  pub lookup-remove :
      (k j : String) (m : Dict V) → lookup j (remove k m) ≡ (if k == j then none else lookup j m)
  unfolding lookup remove
  lookup-remove k j [] = ground arith
  lookup-remove k j ((i, w) ∷ m) =
      ground (arith, eq_iff k j, eq_iff i k, eq_iff i j, lookup-remove k j m)

  pub has-insert : (k j : String) (v : V) (m : Dict V) → has j (insert k v m) ≡ (k == j || has j m)
  unfolding has insert
  has-insert k j v [] = refl
  has-insert k j v ((i, w) ∷ m) =
      ground (arith, eq_iff k j, eq_iff i k, eq_iff i j, has-insert k j v m)

  pub has-remove :
      (k j : String) (m : Dict V) → has j (remove k m) ≡ (if k == j then false else has j m)
  unfolding has remove
  has-remove k j [] = ground arith
  has-remove k j ((i, w) ∷ m) = ground (arith, eq_iff k j, eq_iff i k, eq_iff i j, has-remove k j m)

  pub has-is_some : (k : String) (m : Dict V) → has k m ≡ is_some (lookup k m)
  unfolding lookup has
  has-is_some k [] = refl
  has-is_some k ((j, v) ∷ m) = ground (arith, has-is_some k m)

  pub lookup-eq-none : (k : String) (m : Dict V) → has k m ≡ false → lookup k m ≡ none
  lookup-eq-none k m h = ground (arith, has-is_some k m)

  pub lookup-eq-some : (k : String) (m : Dict V) → has k m ≡ true → (v : V) × (lookup k m ≡ some v)
  lookup-eq-some k m h = ground (arith, has-is_some k m)

  pub has_of_lookup : (k : String) (m : Dict V) {v : V} → lookup k m ≡ some v → has k m ≡ true
  has_of_lookup k m h = ground (arith, has-is_some k m)

  pub insert-Distinct : (k : String) (v : V) (m : Dict V) → Distinct m → Distinct (insert k v m)
  unfolding has insert
  insert-Distinct k v [] d = (refl, tt)
  insert-Distinct k v ((j, w) ∷ m) d =
      ground (arith, has-insert k j v m, eq_iff j k, eq_iff k j, insert-Distinct k v m)

  pub remove-Distinct : (k : String) (m : Dict V) → Distinct m → Distinct (remove k m)
  unfolding remove
  remove-Distinct k [] d = tt
  remove-Distinct k ((j, w) ∷ m) d =
      ground (arith, has-remove k j m, eq_iff k j, eq_iff j k, remove-Distinct k m)

  -- Writing what is there changes nothing, not even the order.
  pub insert_self : (k : String) (v : V) (m : Dict V) → lookup k m ≡ some v → insert k v m ≡ m
  unfolding lookup insert
  insert_self k v [] h = absurd (cc)
  insert_self k v ((j, w) ∷ m) h = elim (Bool-cases (j == k)) [
    | inl e ↦ rw e (ground arith)
    | inr e ↦ rw e (ap (◌∷◌ (j, w)) (insert_self k v m (rw e at h)))
  ]

pub ruleset dict_laws = (lookup-insert, lookup-remove)

-- ===== src/Value/Depth.antt =====
-- How deep a value nests, and that what stands in a map or a list nests less deeply.
use metac.Prelude.{
  ℕ, suc, ◌<◌, max, String, List, [], ◌∷◌, Dict, insert, lookup, ◌≡◌, some, inl, inr, ◌==◌,
  Bool-cases, arith,
}
use metac.Value.{
  Value, null, bool, int, float, str, nil_arr, arr, obj, Items, nil, cons, Fields, end, field,
  to_list, to_dict,
}

unfoldable mutual
  pub depth : Value → ℕ
  depth null = 0
  depth (bool b) = 0
  depth (int n) = 0
  depth (float t) = 0
  depth (str s) = 0
  depth nil_arr = 0
  depth (arr xs) = suc (depth_items xs)
  depth (obj fs) = suc (depth_fields fs)

  pub depth_items : Items → ℕ
  depth_items nil = 0
  depth_items (cons v xs) = max (depth v) (depth_items xs)

  pub depth_fields : Fields → ℕ
  depth_fields end = 0
  depth_fields (field k v fs) = max (depth v) (depth_fields fs)

-- Every value of a map or of a list nests less than `n` deep.
abbrev pub DictWithin : ℕ → Dict Value → Type 0
DictWithin n [] = Unit
DictWithin n ((k, v) ∷ m) = (depth v < n) × DictWithin n m

abbrev pub ListWithin : ℕ → List Value → Type 0
ListWithin n [] = Unit
ListWithin n (v ∷ xs) = (depth v < n) × ListWithin n xs

pub to_dict-DictWithin : (n : ℕ) (fs : Fields) → depth_fields fs < n → DictWithin n (to_dict fs)
unfolding depth
to_dict-DictWithin n end h = tt
to_dict-DictWithin n (field k v fs) h = (omega arith, to_dict-DictWithin n fs (omega arith))

pub to_list-ListWithin : (n : ℕ) (xs : Items) → depth_items xs < n → ListWithin n (to_list xs)
unfolding depth
to_list-ListWithin n nil h = tt
to_list-ListWithin n (cons v xs) h = (omega arith, to_list-ListWithin n xs (omega arith))

pub insert-DictWithin :
    (n : ℕ) (k : String) (v : Value) (m : Dict Value)
    → depth v < n
    → DictWithin n m
    → DictWithin n (insert k v m)
unfolding insert
insert-DictWithin n k v [] h w = (h, tt)
insert-DictWithin n k v ((j, u) ∷ m) h w = ground (arith, insert-DictWithin n k v m)

pub lookup-DictWithin :
    (n : ℕ) (k : String) (m : Dict Value) {v : Value}
    → DictWithin n m
    → lookup k m ≡ some v
    → depth v < n
unfolding lookup
lookup-DictWithin n k [] w h = absurd (cc)
lookup-DictWithin n k ((j, u) ∷ m) {v = v} w h = elim (Bool-cases (j == k)) [
  | inl e ↦ ground arith
  | inr e ↦ lookup-DictWithin n k m {v = v} w.1 (rw e at h)
]

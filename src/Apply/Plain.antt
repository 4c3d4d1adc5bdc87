-- ===== src/Apply/Plain.antt =====
-- Plain values: maps down to scalars and to lists that are not merged item by item.
use metac.Prelude.{
  ℕ, zero, suc, ◌<◌, String, true, ◌≡◌, refl, ap, ◌∙◌, Option, none, some, List, [], ◌∷◌, Dict,
  Distinct, lookup, has, inl, inr, arith, ◌==◌, eq_refl, Bool-cases, eq_iff, has_of_lookup,
  insert_self,
}
use mathlib.Core.Path.{subst}
use metac.Prelude.Results.{ok}
use metac.Value.{
  Value, null, bool, int, float, str, nil_arr, arr, obj, Items, Fields, end, field, to_list,
  to_dict, array, as_map, as_array, entries, or_null, of_dict-to_dict, of_list-to_list,
}
use metac.Value.Depth.{depth, to_dict-DictWithin, lookup-DictWithin}
use metac.Apply.{
  Merger, delete_unwanted, merge_entries, merge_map, merge_array, expect, merge_step, merge,
  detect_list_map_key, bad_last_applied,
}
use metac.Apply.Total.{AllMaps, detect_list_map_key-AllMaps, expect_array}

abbrev pub NotMap : Value → Type 0
NotMap (obj fs) = ⊥
NotMap _ = Unit

-- A list with an item that is no map, which is never merged item by item.
abbrev pub IsScalarList : List Value → Type 0
IsScalarList [] = ⊥
IsScalarList (obj fs ∷ items) = IsScalarList items
IsScalarList (_ ∷ items) = Unit

-- Maps at every level, down to scalars and to lists that are not merged item by item.
unfoldable mutual
  pub Plain : Value → Type 0
  Plain null = Unit
  Plain (bool b) = Unit
  Plain (int n) = Unit
  Plain (float t) = Unit
  Plain (str s) = Unit
  Plain nil_arr = ⊥
  Plain (arr xs) = IsScalarList (to_list xs)
  Plain (obj fs) = Distinct (to_dict fs) × PlainFields fs

  pub PlainFields : Fields → Type 0
  PlainFields end = Unit
  PlainFields (field k v fs) = Plain v × PlainFields fs

not-AllMaps : (items : List Value) → IsScalarList items → AllMaps items → ⊥
not-AllMaps [] s h = s
not-AllMaps (obj fs ∷ items) s h = not-AllMaps items s h
not-AllMaps (_ ∷ items) s h = h

-- A desired list that holds a scalar replaces the observed list.
pub merge_array_scalars :
    (rec : Merger) (observed last : Option (List Value)) (desired : List Value)
    → IsScalarList desired
    → merge_array rec observed last (some desired) ≡ ok (array (some desired))
unfolding merge_array
merge_array_scalars rec observed last desired s =
    elim (Bool-cases (detect_list_map_key (entries observed ∷ entries last ∷ desired ∷ []) == "")) [
      | inl e ↦ rw e
      | inr e ↦ absurd (
          not-AllMaps desired s
            (detect_list_map_key-AllMaps (entries observed ∷ entries last ∷ desired ∷ []) e).1.1.0)
    ]

delete_unwanted_self :
    (last desired dest : Dict Value)
    → ((k : String) → has k last ≡ true → has k desired ≡ true)
    → delete_unwanted last desired dest ≡ dest
unfolding delete_unwanted has
delete_unwanted_self [] desired dest h = refl
delete_unwanted_self ((k, v) ∷ last) desired dest h =
    rw (h k (rw (eq_refl k))) (delete_unwanted_self last desired dest (λ j p. h j (ground arith)))

-- Each desired field is already there, and merging it again gives it back.
abbrev pub Settled : Merger → Dict Value → Dict Value → Dict Value → Type 0
Settled rec last desired dest =
    (k : String) (v : Value)
    → lookup k desired ≡ some v
    → (u : Value) × (lookup k dest ≡ some u) × (rec u (or_null (lookup k last)) v ≡ ok u)

merge_entries-Settled :
    (rec : Merger) (last desired dest : Dict Value)
    → Distinct desired
    → Settled rec last desired dest
    → merge_entries rec last desired dest ≡ ok dest
unfolding merge_entries lookup
merge_entries-Settled rec last [] dest d h = refl
merge_entries-Settled rec last ((k, v) ∷ desired) dest d h =
    let (u, p, q) = h k v (rw (eq_refl k)) in
    rw (p, q, insert_self k u dest p)
      (merge_entries-Settled rec last desired dest d.1
        λ j w e. h j w (ground (arith, eq_iff k j, has_of_lookup j desired {v = w})))

pub merge_map-Settled :
    (rec : Merger) (desired dest : Dict Value)
    → Distinct desired
    → Settled rec desired desired dest
    → merge_map rec dest desired desired ≡ ok dest
unfolding merge_map
merge_map-Settled rec desired dest d h =
    rw (delete_unwanted_self desired desired dest (λ k p. p))
      (merge_entries-Settled rec desired desired dest d h)

pub PlainFields-lookup :
    (k : String) (fs : Fields) {v : Value}
    → PlainFields fs
    → lookup k (to_dict fs) ≡ some v
    → Plain v
unfolding lookup Plain
PlainFields-lookup k end p e = absurd (cc)
PlainFields-lookup k (field j w fs) {v = v} p e = elim (Bool-cases (j == k)) [
  | inl same ↦ let e : w ≡ v = ground arith in subst Plain e p.0
  | inr other ↦ PlainFields-lookup k fs {v = v} p.1 (rw other at e)
]

pub obj_step :
    (rec : Merger) (dest desired : Fields)
    → Distinct (to_dict desired)
    → Settled rec (to_dict desired) (to_dict desired) (to_dict dest)
    → merge_step rec (obj dest) (obj desired) (obj desired) ≡ ok (obj dest)
unfolding merge_step expect as_map
obj_step rec dest desired d h =
    rw (merge_map-Settled rec (to_dict desired) (to_dict dest) d h, of_dict-to_dict dest)

-- Whatever is observed, but a map, a desired list that holds a scalar replaces it.
pub arr_step :
    (rec : Merger) (observed last : Value) (desired : Items)
    → NotMap observed
    → IsScalarList (to_list desired)
    → merge_step rec observed last (arr desired) ≡ ok (arr desired)
unfolding merge_step
arr_step rec (obj fs) last desired nm p = absurd nm
arr_step rec (arr xs) last desired nm p = rw (expect_array last bad_last_applied) (
    merge_array_scalars rec (some (to_list xs)) (as_array last).0 (to_list desired) p
    ∙ ap (λ l. ok (arr l)) (of_list-to_list desired))
arr_step rec nil_arr last desired nm p = rw (expect_array last bad_last_applied) (
    merge_array_scalars rec none (as_array last).0 (to_list desired) p
    ∙ ap (λ l. ok (arr l)) (of_list-to_list desired))
arr_step rec _ last desired nm p = refl

-- A plain value is merged with itself into itself.
pub merge_refl : (n : ℕ) (v : Value) → Plain v → depth v < n → merge n v v v ≡ ok v
unfolding merge depth Plain
merge_refl zero v p h = elim h [ ]
merge_refl (suc n) (obj fs) p h = obj_step (merge n) fs fs p.0 λ k v e. (
  v,
  e,
  rw e (
      merge_refl n v (PlainFields-lookup k fs {v = v} p.1 e)
        (lookup-DictWithin n k (to_dict fs) {v = v} (to_dict-DictWithin n fs (omega arith)) e)),
)
merge_refl (suc n) (arr xs) p h = arr_step (merge n) (arr xs) (arr xs) xs tt p
merge_refl (suc n) nil_arr p h = absurd p
merge_refl (suc n) null p h = unfold merge_step in refl
merge_refl (suc n) (bool b) p h = unfold merge_step in refl
merge_refl (suc n) (int i) p h = unfold merge_step in refl
merge_refl (suc n) (float t) p h = unfold merge_step in refl
merge_refl (suc n) (str s) p h = unfold merge_step in refl

-- ===== src/Apply/Total.antt =====
-- Errors, panics and the fuel of the merge.
use metac.Prelude.{
  ℕ, zero, suc, ◌<◌, String, false, ◌≡◌, refl, Option, none, some, List, [], ◌∷◌, Dict, lookup,
  insert, inl, inr, arith, ◌==◌, Bool-cases, Option-cases,
}
use metac.Prelude.Results.{Result, ok}
use metac.Value.{
  Value, nil_arr, arr, obj, to_list, of_list, to_dict, array, object, as_map, as_array, entries,
  or_null,
}
use metac.Value.Depth.{
  depth, DictWithin, ListWithin, to_dict-DictWithin, to_list-ListWithin, insert-DictWithin,
}
use metac.Apply.{
  MergeError, bad_last_applied, bad_desired, Merger, Taken, delete_unwanted, merge_entries,
  merge_map, item_key, add_items, make_map_from_list, take_item, take_observed, take_new,
  take_desired, merge_list_map, narrow, scan_items, scan_lists, detect_list_map_key, merge_array,
  expect, merge_step, merge,
}

-- The computation returns a value.
abbrev pub Succeeds {ℓ} : {A : Type ℓ} → Result MergeError A → Type ℓ
Succeeds {A = A} m = (a : A) × (m ≡ ok a)

-- A merger returns a value for whatever nests less than `n` deep.
abbrev pub IsTotal : ℕ → Merger → Type 0
IsTotal n rec =
    (observed last desired : Value) → depth desired < n → Succeeds (rec observed last desired)

module _ (rec : Merger) (n : ℕ) (total : IsTotal n rec) where
  merge_entries_total :
      (last desired dest : Dict Value)
      → DictWithin n desired
      → Succeeds (merge_entries rec last desired dest)
  unfolding merge_entries
  merge_entries_total last [] dest w = (dest, refl)
  merge_entries_total last ((k, v) ∷ desired) dest w =
      let (u, e) = total (or_null (lookup k dest)) (or_null (lookup k last)) v w.0 in
      let (m, q) = merge_entries_total last desired (insert k u dest) w.1 in (m, rw e q)

  pub merge_map_total :
      (observed last desired : Dict Value)
      → DictWithin n desired
      → Succeeds (merge_map rec observed last desired)
  unfolding merge_map
  merge_map_total observed last desired w =
      merge_entries_total last desired (delete_unwanted last desired observed) w

-- Every item of the list is a map.
abbrev pub AllMaps : List Value → Type 0
AllMaps [] = Unit
AllMaps (obj fs ∷ items) = AllMaps items
AllMaps (_ ∷ items) = ⊥

scan_items-AllMaps :
    (items : List Value) (common : Option (List String)) {c : Option (List String)}
    → scan_items items common ≡ some c
    → AllMaps items
unfolding scan_items
scan_items-AllMaps [] common h = tt
scan_items-AllMaps (obj fs ∷ items) common h =
    scan_items-AllMaps items (some (narrow (to_dict fs) common)) h
scan_items-AllMaps (_ ∷ items) common h = cc

abbrev pub AllListsMaps : List (List Value) → Type 0
AllListsMaps [] = Unit
AllListsMaps (items ∷ lists) = AllMaps items × AllListsMaps lists

scan_lists-AllMaps :
    (lists : List (List Value)) (common : Option (List String)) {c : Option (List String)}
    → scan_lists lists common ≡ some c
    → AllListsMaps lists
unfolding scan_lists
scan_lists-AllMaps [] common h = tt
scan_lists-AllMaps (items ∷ lists) common h = elim (Option-cases (scan_items items common)) [
  | inl e ↦ cc (rw (e, scan_lists) at h)
  | inr (c, e) ↦
      (scan_items-AllMaps items common e, scan_lists-AllMaps lists c (rw (e, scan_lists) at h))
]

-- A merge key is found only in lists whose items are all maps.
pub detect_list_map_key-AllMaps :
    (lists : List (List Value)) → (detect_list_map_key lists == "") ≡ false → AllListsMaps lists
unfolding detect_list_map_key
detect_list_map_key-AllMaps lists h = elim (Option-cases (scan_lists lists none)) [
  | inl e ↦ cc (rw (e, detect_list_map_key) at h)
  | inr (c, e) ↦ scan_lists-AllMaps lists none e
]

item_key_total :
    (key : String) (item : Value) (items : List Value)
    → AllMaps (item ∷ items)
    → Succeeds (item_key key item) × AllMaps items
unfolding item_key
item_key_total key (obj fs) items h = ((_, refl), h)
item_key_total key _ items h = elim h [ ]

add_items_total :
    (key : String) (n : ℕ) (items : List Value) (res : Dict Value)
    → AllMaps items
    → (m : Dict Value) × (add_items key items res ≡ ok m)
      × (ListWithin n items → DictWithin n res → DictWithin n m)
unfolding add_items
add_items_total key n [] res h = (res, refl, λ w r. r)
add_items_total key n (item ∷ items) res h =
    let ((k, e), rest) = item_key_total key item items h in
    let (m, q, within) = add_items_total key n items (insert k item res) rest in
    (m, rw e q, λ w r. within w.1 (insert-DictWithin n k item res w.0 r))

take_observed_total :
    (key : String) (merged : Dict Value) (items : List Value) (taken : Taken)
    → AllMaps items
    → Succeeds (take_observed key merged items taken)
unfolding take_observed
take_observed_total key merged [] taken h = (taken, refl)
take_observed_total key merged (item ∷ items) taken h =
    let ((k, e), rest) = item_key_total key item items h in
    let (t, q) = take_observed_total key merged items (take_item k (lookup k merged) taken) rest in
    (t, rw e q)

take_desired_total :
    (key : String) (merged : Dict Value) (items : List Value) (taken : Taken)
    → AllMaps items
    → Succeeds (take_desired key merged items taken)
unfolding take_desired
take_desired_total key merged [] taken h = (taken, refl)
take_desired_total key merged (item ∷ items) taken h =
    let ((k, e), rest) = item_key_total key item items h in
    let (t, q) =
      take_desired_total key merged items (take_new k (or_null (lookup k merged)) taken) rest in
    (t, rw e q)

module _ (rec : Merger) (n : ℕ) (total : IsTotal n rec) where
  merge_list_map_total :
      (key : String) (observed last desired : List Value)
      → AllMaps observed
      → AllMaps last
      → AllMaps desired
      → ListWithin n desired
      → Succeeds (merge_list_map rec key observed last desired)
  unfolding merge_list_map make_map_from_list
  merge_list_map_total key observed last desired ho hl hd w =
      let (o, eo, _) = add_items_total key n observed [] ho in
      let (l, el, _) = add_items_total key n last [] hl in
      let (d, ed, within) = add_items_total key n desired [] hd in
      let (m, em) = merge_map_total rec n total o l d (within w tt) in
      let (t, et) = take_observed_total key m observed ([], []) ho in
      let (u, eu) = take_desired_total key m desired t hd in (u.0, rw (eo, el, ed, em, et, eu))

  merge_array_total :
      (observed last desired : Option (List Value))
      → ListWithin n (entries desired)
      → Succeeds (merge_array rec observed last desired)
  unfolding merge_array
  merge_array_total observed last desired w = elim (Bool-cases (detect_list_map_key lists == "")) [
    | inl e ↦ (array desired, rw e)
    | inr e ↦
        let maps = detect_list_map_key-AllMaps lists e in
        let (m, q) =
          merge_list_map_total (detect_list_map_key lists) (entries observed) (entries last)
            (entries desired) maps.0 maps.1.0 maps.1.1.0 w in
        (arr (of_list m), rw (e, q))
  ]
    where
      lists : List (List Value)
      lists = entries observed ∷ entries last ∷ entries desired ∷ []

-- A failed assertion leaves nil, so that the check on the types never fails.
pub expect_map : (v : Value) (e : MergeError) → expect (as_map v) e ≡ ok tt
unfolding expect as_map
expect_map (obj fs) e = refl
expect_map _ e = refl

pub expect_array : (v : Value) (e : MergeError) → expect (as_array v) e ≡ ok tt
unfolding expect as_array
expect_array (arr xs) e = refl
expect_array nil_arr e = refl
expect_array _ e = refl

pub as_map-DictWithin : (n : ℕ) (v : Value) → depth v < suc n → DictWithin n (entries (as_map v).0)
unfolding as_map depth
as_map-DictWithin n (obj fs) h = to_dict-DictWithin n fs (omega arith)
as_map-DictWithin n _ h = tt

pub as_array-ListWithin :
    (n : ℕ) (v : Value) → depth v < suc n → ListWithin n (entries (as_array v).0)
unfolding as_array depth
as_array-ListWithin n (arr xs) h = to_list-ListWithin n xs (omega arith)
as_array-ListWithin n _ h = tt

module _ (rec : Merger) (n : ℕ) (total : IsTotal n rec) where
  merge_step-IsTotal : IsTotal (suc n) (merge_step rec)
  unfolding merge_step
  merge_step-IsTotal (obj fs) last desired h =
      let (m, e) =
        merge_map_total rec n total (to_dict fs) (entries (as_map last).0)
          (entries (as_map desired).0) (as_map-DictWithin n desired h) in
      (object m, rw (expect_map last bad_last_applied, expect_map desired bad_desired, e))
  merge_step-IsTotal (arr xs) last desired h =
      let (m, e) =
        merge_array_total rec n total (some (to_list xs)) (as_array last).0 (as_array desired).0
          (as_array-ListWithin n desired h) in
      (m, rw (expect_array last bad_last_applied, expect_array desired bad_desired, e))
  merge_step-IsTotal nil_arr last desired h =
      let (m, e) =
        merge_array_total rec n total none (as_array last).0 (as_array desired).0
          (as_array-ListWithin n desired h) in
      (m, rw (expect_array last bad_last_applied, expect_array desired bad_desired, e))
  merge_step-IsTotal _ last desired h = (desired, refl)

-- The merge of any three values returns a value, without an error or a panic, if the fuel is above
-- the depth of the desired value.
pub merge-IsTotal : (fuel : ℕ) → IsTotal fuel (merge fuel)
unfolding merge
merge-IsTotal zero observed last desired h = elim h [ ]
merge-IsTotal (suc fuel) observed last desired h =
    merge_step-IsTotal (merge fuel) fuel (merge-IsTotal fuel) observed last desired h

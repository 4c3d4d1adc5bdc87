-- ===== src/Apply/Fuel.antt =====
-- The fuel of the merge.
use metac.Prelude.{
  ℕ, zero, suc, ◌≤◌, ◌<◌, String, ◌≡◌, refl, sym, ◌∙◌, Option, none, some, List, [], ◌∷◌, Dict,
  lookup, insert, arith,
}
use metac.Prelude.Results.{ok, >>=-eq-ok, bind_congr}
use metac.Value.{Value, nil_arr, arr, obj, to_list, to_dict, as_map, as_array, entries, or_null}
use metac.Value.Depth.{depth, DictWithin, ListWithin, insert-DictWithin}
use metac.Apply.{
  Merger, delete_unwanted, merge_entries, merge_map, item_key, add_items, make_map_from_list,
  merge_list_map, detect_list_map_key, merge_array, merge_step, merge,
}
use metac.Apply.Total.{as_map-DictWithin, as_array-ListWithin}

-- Two mergers agree on whatever nests less than `n` deep.
abbrev pub Agree : ℕ → Merger → Merger → Type 0
Agree n r s =
    (observed last desired : Value)
    → depth desired < n
    → r observed last desired ≡ s observed last desired

pub add_items-DictWithin :
    (key : String) (n : ℕ) (items : List Value) (res : Dict Value) {m : Dict Value}
    → ListWithin n items
    → DictWithin n res
    → add_items key items res ≡ ok m
    → DictWithin n m
unfolding add_items
add_items-DictWithin key n [] res w r e = ground arith
add_items-DictWithin key n (item ∷ items) res w r e =
    let (k, _, q) =
      >>=-eq-ok (item_key key item) (λ k. add_items key items (insert k item res)) e in
    add_items-DictWithin key n items (insert k item res) w.1 (insert-DictWithin n k item res w.0 r)
      q

module _ (r s : Merger) (n : ℕ) (agree : Agree n r s) where
  merge_entries_agree :
      (last desired dest : Dict Value)
      → DictWithin n desired
      → merge_entries r last desired dest ≡ merge_entries s last desired dest
  unfolding merge_entries
  merge_entries_agree last [] dest w = refl
  merge_entries_agree last ((k, v) ∷ desired) dest w =
      rw (agree (or_null (lookup k dest)) (or_null (lookup k last)) v w.0) (
        bind_congr (s (or_null (lookup k dest)) (or_null (lookup k last)) v) _ _
          (λ u _. merge_entries_agree last desired (insert k u dest) w.1))

  merge_map_agree :
      (observed last desired : Dict Value)
      → DictWithin n desired
      → merge_map r observed last desired ≡ merge_map s observed last desired
  unfolding merge_map
  merge_map_agree observed last desired w =
      merge_entries_agree last desired (delete_unwanted last desired observed) w

  merge_list_map_agree :
      (key : String) (observed last desired : List Value)
      → ListWithin n desired
      → merge_list_map r key observed last desired ≡ merge_list_map s key observed last desired
  unfolding merge_list_map make_map_from_list
  merge_list_map_agree key observed last desired w =
      bind_congr (add_items key observed []) _ _ λ o _.
        bind_congr (add_items key last []) _ _ λ l _.
          bind_congr (add_items key desired []) _ _
            λ d e. rw (merge_map_agree o l d (add_items-DictWithin key n desired [] w tt e))

  merge_array_agree :
      (observed last desired : Option (List Value))
      → ListWithin n (entries desired)
      → merge_array r observed last desired ≡ merge_array s observed last desired
  unfolding merge_array
  merge_array_agree observed last desired w = rw (
      merge_list_map_agree
        (detect_list_map_key (entries observed ∷ entries last ∷ entries desired ∷ []))
        (entries observed) (entries last) (entries desired) w)

  merge_step-Agree : Agree (suc n) (merge_step r) (merge_step s)
  unfolding merge_step
  merge_step-Agree (obj fs) last desired h = rw (
      merge_map_agree (to_dict fs) (entries (as_map last).0) (entries (as_map desired).0)
        (as_map-DictWithin n desired h))
  merge_step-Agree (arr xs) last desired h = rw (
      merge_array_agree (some (to_list xs)) (as_array last).0 (as_array desired).0
        (as_array-ListWithin n desired h))
  merge_step-Agree nil_arr last desired h = rw (
      merge_array_agree none (as_array last).0 (as_array desired).0
        (as_array-ListWithin n desired h))
  merge_step-Agree _ last desired h = refl

pub merge-Agree : (n m : ℕ) → n ≤ m → Agree n (merge n) (merge m)
unfolding merge
merge-Agree zero m le observed last desired h = elim h [ ]
merge-Agree (suc n) zero le observed last desired h = elim le [ ]
merge-Agree (suc n) (suc m) le observed last desired h =
    merge_step-Agree (merge n) (merge m) n (merge-Agree n m (omega arith)) observed last desired h

-- Any two amounts of fuel above the depth of the desired value give the same merge.
pub merge_fuel :
    (n m : ℕ) (observed last desired : Value)
    → depth desired < n
    → depth desired < m
    → merge n observed last desired ≡ merge m observed last desired
merge_fuel n m observed last desired hn hm =
    sym (merge-Agree (suc (depth desired)) n hn observed last desired (omega arith))
    ∙ merge-Agree (suc (depth desired)) m hm observed last desired (omega arith)

-- ===== src/Apply/Duplicates.antt =====
-- Two desired items with one merge key, such as two ports with one number and two protocols.
use metac.Prelude.{ℕ, suc, String, ◌≡◌, [], ◌∷◌, lookup, insert, contains, eq_refl}
use metac.Prelude.Results.{ok}
use metac.Value.{Value}
use metac.Apply.{
  item_key, add_items, make_map_from_list, delete_unwanted, merge_entries, merge_map, take_observed,
  take_desired, merge_list_map, merge_step, merge,
}

-- Let two desired items have the same text under the merge key, and nothing be observed or applied
-- last. The merge returns the second item alone: the first is lost.
pub merge_list_map-duplicate :
    (n : ℕ) (key t : String) (a b : Value)
    → item_key key a ≡ ok t
    → item_key key b ≡ ok t
    → merge_list_map (merge (suc n)) key [] [] (a ∷ b ∷ []) ≡ ok (b ∷ [])
unfolding merge_list_map make_map_from_list add_items merge_map delete_unwanted merge_entries
    take_observed take_desired merge merge_step insert lookup contains
merge_list_map-duplicate n key t a b ha hb = rw (ha, hb) (simp eq_refl)

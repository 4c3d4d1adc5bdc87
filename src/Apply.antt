-- ===== src/Apply.antt =====
-- dynamic/apply/apply.go, the three-way merge.
-- A loop over a Go map runs over the entries of its association list. A map that the source
-- updates in place is returned. The path of a field and the texts of messages are left out: they
-- go to the log and into errors alone. `observed` is deep-copied by the source, so that a value,
-- which no one shares here, stands for the copy.
pub mod Total
pub mod Fuel
pub mod Fields
pub mod Plain
pub mod Stable
pub mod Detect
pub mod Lists
pub mod ListMap
pub mod Duplicates
pub mod LastApplied
use metac.Prelude.{
  ℕ, zero, suc, String, Bool, not, ◌&&◌, Option, none, some, List, [], ◌∷◌, ◌++◌, Dict, keys,
  lookup, has, insert, remove, contains, is_some, ◌==◌, if◌then◌else◌,
}
use metac.Prelude.Results.{Result, ok, err, ◌>>=◌, ◌>>◌}
use metac.Value.{
  Value, str, nil_arr, arr, obj, to_list, of_list, to_dict, object, array, as_map, as_array,
  entries, or_null,
}
use metac.Value.Format.{format}
use metac.Value.Depth.{depth}

-- `not_a_map` is the panic of an unchecked type assertion, and `out_of_fuel` is no outcome of the
-- source.
pub data MergeError : Type 0 where
  bad_last_applied bad_desired not_a_map out_of_fuel : MergeError

-- The call of `merge` for what nests one level deeper.
abbrev pub Merger : Type 0
Merger = Value → Value → Value → Result MergeError Value

-- The first loop of mergeMap: what was applied last and is no longer desired is deleted.
unfoldable pub delete_unwanted : Dict Value → Dict Value → Dict Value → Dict Value
delete_unwanted [] desired dest = dest
delete_unwanted ((k, v) ∷ last) desired dest =
    delete_unwanted last desired (if has k desired then dest else remove k dest)

-- The second loop of mergeMap: each desired field is merged into the destination.
unfoldable pub merge_entries :
    Merger → Dict Value → Dict Value → Dict Value → Result MergeError (Dict Value)
merge_entries rec last [] dest = ok dest
merge_entries rec last ((k, v) ∷ desired) dest = do
  merged ← rec (or_null (lookup k dest)) (or_null (lookup k last)) v
  merge_entries rec last desired (insert k merged dest)

unfoldable pub merge_map :
    Merger → Dict Value → Dict Value → Dict Value → Result MergeError (Dict Value)
merge_map rec observed last desired =
    merge_entries rec last desired (delete_unwanted last desired observed)

unfoldable pub string_merge_key : Value → String
string_merge_key (str s) = s
string_merge_key v = format v

-- stringMergeKey(item.(map[string]interface{})[mergeKey])
unfoldable pub item_key : String → Value → Result MergeError String
unfolding as_map string_merge_key
item_key key (obj fs) = ok (string_merge_key (or_null (lookup key (to_dict fs))))
item_key key _ = err not_a_map

unfoldable pub add_items : String → List Value → Dict Value → Result MergeError (Dict Value)
add_items key [] res = ok res
add_items key (item ∷ items) res = do k ← item_key key item; add_items key items (insert k item res)

unfoldable pub make_map_from_list : String → List Value → Result MergeError (Dict Value)
unfolding add_items
make_map_from_list key items = add_items key items []

-- The list under construction, and the keys that it holds.
abbrev pub Taken : Type 0
Taken = List Value × List String

abbrev pub take_item : String → Option Value → Taken → Taken
take_item k none taken = taken
take_item k (some v) (out, added) = (out ++ v ∷ [], k ∷ added)

-- The merge keeps the text of a scalar merge key, so that it may be read before the merge.
unfoldable pub take_observed : String → Dict Value → List Value → Taken → Result MergeError Taken
take_observed key merged [] taken = ok taken
take_observed key merged (item ∷ items) taken = do
  k ← item_key key item
  take_observed key merged items (take_item k (lookup k merged) taken)

abbrev pub take_new : String → Value → Taken → Taken
take_new k v (out, added) = if contains k added then (out, added) else (out ++ v ∷ [], k ∷ added)

unfoldable pub take_desired : String → Dict Value → List Value → Taken → Result MergeError Taken
take_desired key merged [] taken = ok taken
take_desired key merged (item ∷ items) taken = do
  k ← item_key key item
  take_desired key merged items (take_new k (or_null (lookup k merged)) taken)

unfoldable pub merge_list_map :
    Merger → String → List Value → List Value → List Value → Result MergeError (List Value)
merge_list_map rec key observed last desired = do
  observed_map ← make_map_from_list key observed
  last_map ← make_map_from_list key last
  desired_map ← make_map_from_list key desired
  merged ← merge_map rec observed_map last_map desired_map
  taken ← take_observed key merged observed ([], [])
  all ← take_desired key merged desired taken
  ok all.0

abbrev pub known_merge_keys : List String
known_merge_keys = "containerPort" ∷ "port" ∷ "name" ∷ "uid" ∷ "ip" ∷ []

unfoldable pub keep_common : Dict Value → List String → List String
keep_common m [] = []
keep_common m (k ∷ ks) = let rest = keep_common m ks in if has k m then k ∷ rest else rest

-- commonKeys, which is nil before the first item.
abbrev pub narrow : Dict Value → Option (List String) → List String
narrow m none = keys m
narrow m (some ks) = keep_common m ks

-- `none` is the early return: an item that is no map.
unfoldable pub scan_items : List Value → Option (List String) → Option (Option (List String))
unfolding keep_common
scan_items [] common = some common
scan_items (obj fs ∷ items) common = scan_items items (some (narrow (to_dict fs) common))
scan_items (_ ∷ items) common = none

unfoldable pub scan_lists : List (List Value) → Option (List String) → Option (Option (List String))
unfolding scan_items
scan_lists [] common = some common
scan_lists (items ∷ lists) common = elim (scan_items items common) [
  | none ↦ none
  | some common' ↦ scan_lists lists common'
]

-- The first known key that every item has.
unfoldable pub first_known : List String → List String → String
unfolding contains
first_known [] common = ""
first_known (k ∷ known) common = if contains k common then k else first_known known common

unfoldable pub detect_list_map_key : List (List Value) → String
unfolding scan_lists first_known
detect_list_map_key lists = elim (scan_lists lists none) [
  | none ↦ ""
  | some common ↦ first_known known_merge_keys (entries common)
]

unfoldable pub merge_array :
    Merger
    → Option (List Value)
    → Option (List Value)
    → Option (List Value)
    → Result MergeError Value
merge_array rec observed last desired =
    let key = detect_list_map_key (entries observed ∷ entries last ∷ entries desired ∷ []) in
    if key == "" then ok (array desired) else do
      merged ← merge_list_map rec key (entries observed) (entries last) (entries desired)
      ok (arr (of_list merged))

-- `if !ok && val != nil`
unfoldable pub expect {ℓ} :
    {A : Type ℓ} → Option A × Bool → MergeError → Result MergeError (Unit {0})
expect (val, asserted) e = if not asserted && is_some val then err e else ok tt

-- merge, with the merge of what nests one level deeper as an argument.
unfoldable pub merge_step : Merger → Value → Value → Value → Result MergeError Value
unfolding expect as_map as_array
merge_step rec (obj fs) last desired = do
  expect (as_map last) bad_last_applied
  expect (as_map desired) bad_desired
  merged ← merge_map rec (to_dict fs) (entries (as_map last).0) (entries (as_map desired).0)
  ok (object merged)
merge_step rec (arr xs) last desired = do
  expect (as_array last) bad_last_applied
  expect (as_array desired) bad_desired
  merge_array rec (some (to_list xs)) (as_array last).0 (as_array desired).0
merge_step rec nil_arr last desired = do
  expect (as_array last) bad_last_applied
  expect (as_array desired) bad_desired
  merge_array rec none (as_array last).0 (as_array desired).0
merge_step rec _ last desired = ok desired

-- The recursion, on fuel.
unfoldable pub merge : ℕ → Value → Value → Value → Result MergeError Value
merge zero observed last desired = err out_of_fuel
merge (suc fuel) observed last desired = merge_step (merge fuel) observed last desired

-- Merge, for an observed map that is not nil. Each call descends into the desired value.
unfoldable pub merge_objects : Dict Value → Dict Value → Dict Value → Result MergeError (Dict Value)
merge_objects observed last desired = do
  merged ← merge (suc (depth (object desired))) (object observed) (object last) (object desired)
  ok (entries (as_map merged).0)

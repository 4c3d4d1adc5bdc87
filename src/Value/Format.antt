-- ===== src/Value/Format.antt =====
-- fmt.Sprintf("%v", val), which prints the entries of a map in the order of the keys.
use text.Mathlib.Text.{is_le}
use Prim.Native.String.{compare}
use metac.Prelude.{suc, String, true, false, ◌≡◌, refl, List, [], ◌∷◌, Dict, if◌then◌else◌}
use metac.Prelude.Int.{ℤ, pos, negsuc}
use metac.Prelude.Text.{concat, join, decimal}
use metac.Value.{
  Value, null, bool, int, float, str, nil_arr, arr, obj, Items, nil, cons, Fields, end, field,
}

insert_sorted : String → String → Dict String → Dict String
insert_sorted k t [] = (k, t) ∷ []
insert_sorted k t ((j, u) ∷ m) =
    if is_le (compare k j) then (k, t) ∷ (j, u) ∷ m else (j, u) ∷ insert_sorted k t m

sort_keys : Dict String → Dict String
unfolding insert_sorted
sort_keys [] = []
sort_keys ((k, t) ∷ m) = insert_sorted k t (sort_keys m)

pairs : Dict String → List String
unfolding concat
pairs [] = []
pairs ((k, t) ∷ m) = concat (k ∷ ":" ∷ t ∷ []) ∷ pairs m

format_int : ℤ → String
unfolding concat decimal
format_int (pos n) = decimal n
format_int (negsuc n) = concat ("-" ∷ decimal (suc n) ∷ [])

format_map : Dict String → String
unfolding sort_keys pairs concat join
format_map m = concat ("map[" ∷ join " " (pairs (sort_keys m)) ∷ "]" ∷ [])

format_array : List String → String
unfolding concat join
format_array xs = concat ("[" ∷ join " " xs ∷ "]" ∷ [])

unfoldable mutual
  unfolding format_int format_map format_array

  pub format : Value → String
  format null = "<nil>"
  format (bool true) = "true"
  format (bool false) = "false"
  format (int n) = format_int n
  format (float t) = t
  format (str s) = s
  format nil_arr = "[]"
  format (arr xs) = format_array (format_items xs)
  format (obj fs) = format_map (format_fields fs)

  pub format_items : Items → List String
  format_items nil = []
  format_items (cons v xs) = format v ∷ format_items xs

  pub format_fields : Fields → Dict String
  format_fields end = []
  format_fields (field k v fs) = (k, format v) ∷ format_fields fs

format_nested :
    format (obj (field "b" (int (negsuc 4)) (field "a" (arr (cons null (cons (str "x") nil))) end)))
    ≡ "map[a:[<nil> x] b:-5]"
unfolding format
format_nested = refl

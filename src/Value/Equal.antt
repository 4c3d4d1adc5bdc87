-- ===== src/Value/Equal.antt =====
-- reflect.DeepEqual on values: a map without regard to the order of its entries.
use metac.Prelude.{ℕ, zero, suc, Bool, true, false, ◌&&◌, none, some, Dict, lookup, ◌==◌, nat_eq}
use metac.Prelude.Int.{ℤ, pos_part, neg_part}
use metac.Value.{
  Value, null, bool, int, float, str, nil_arr, arr, obj, Items, nil, cons, Fields, end, field,
  to_dict, object,
}

abbrev same_bool : Bool → Bool → Bool
same_bool true b = b
same_bool false true = false
same_bool false false = true

abbrev same_int : ℤ → ℤ → Bool
same_int a b = nat_eq (pos_part a) (pos_part b) && nat_eq (neg_part a) (neg_part b)

abbrev count_fields : Fields → ℕ
count_fields end = zero
count_fields (field k v fs) = suc (count_fields fs)

unfoldable mutual
  pub equal : Value → Value → Bool
  equal null null = true
  equal (bool a) (bool b) = same_bool a b
  equal (int a) (int b) = same_int a b
  equal (float a) (float b) = a == b
  equal (str a) (str b) = a == b
  equal nil_arr nil_arr = true
  equal (arr xs) (arr ys) = equal_items xs ys
  equal (obj fs) (obj gs) =
      nat_eq (count_fields fs) (count_fields gs) && equal_fields fs (to_dict gs)
  equal _ _ = false

  pub equal_items : Items → Items → Bool
  equal_items nil nil = true
  equal_items (cons v xs) (cons w ys) = equal v w && equal_items xs ys
  equal_items _ _ = false

  pub equal_fields : Fields → Dict Value → Bool
  equal_fields end m = true
  equal_fields (field k v fs) m = elim (lookup k m) [
    | none ↦ false
    | some w ↦ equal v w && equal_fields fs m
  ]

unfoldable pub deep_equal : Dict Value → Dict Value → Bool
deep_equal a b = equal (object a) (object b)

-- ===== src/Value.antt =====
-- interface{} as JSON decoding and the apply code produce it: the content of an unstructured object.
pub mod Format
pub mod Depth
pub mod Equal
use metac.Prelude.{
  String, Bool, true, false, ◌≡◌, refl, ap, Option, none, some, List, [], ◌∷◌, Dict,
}
use metac.Prelude.Int.{ℤ}

-- A float64 is kept as the shortest decimal text that %v prints, which identifies it.
-- `nil_arr` is a nil []interface{} in an interface{}, which is no nil interface{}.
mutual
  pub data Value : Type 0 where
    null : Value
    bool : Bool → Value
    int : ℤ → Value
    float : String → Value
    str : String → Value
    nil_arr : Value
    obj : Fields → Value
    arr : Items → Value

  pub data Items : Type 0 where
    nil : Items
    cons : Value → Items → Items

  pub data Fields : Type 0 where
    end : Fields
    field : String → Value → Fields → Fields

abbrev pub to_list : Items → List Value
to_list nil = []
to_list (cons v xs) = v ∷ to_list xs

abbrev pub of_list : List Value → Items
of_list [] = nil
of_list (v ∷ xs) = cons v (of_list xs)

-- map[string]interface{}
abbrev pub to_dict : Fields → Dict Value
to_dict end = []
to_dict (field k v fs) = (k, v) ∷ to_dict fs

abbrev pub of_dict : Dict Value → Fields
of_dict [] = end
of_dict ((k, v) ∷ m) = field k v (of_dict m)

pub to_dict-of_dict : (m : Dict Value) → to_dict (of_dict m) ≡ m
to_dict-of_dict [] = refl
to_dict-of_dict ((k, v) ∷ m) = ap (◌∷◌ (k, v)) (to_dict-of_dict m)

pub of_dict-to_dict : (fs : Fields) → of_dict (to_dict fs) ≡ fs
of_dict-to_dict end = refl
of_dict-to_dict (field k v fs) = ap (field k v) (of_dict-to_dict fs)

pub to_list-of_list : (xs : List Value) → to_list (of_list xs) ≡ xs
to_list-of_list [] = refl
to_list-of_list (v ∷ xs) = ap (◌∷◌ v) (to_list-of_list xs)

pub of_list-to_list : (xs : Items) → of_list (to_list xs) ≡ xs
of_list-to_list nil = refl
of_list-to_list (cons v xs) = ap (cons v) (of_list-to_list xs)

abbrev pub object : Dict Value → Value
object m = obj (of_dict m)

-- A []interface{} put into an interface{}; `none` is the nil slice.
abbrev pub array : Option (List Value) → Value
array none = nil_arr
array (some xs) = arr (of_list xs)

-- val, ok := v.(map[string]interface{}), with the val that a failed assertion leaves
unfoldable pub as_map : Value → Option (Dict Value) × Bool
as_map (obj fs) = (some (to_dict fs), true)
as_map _ = (none, false)

-- val, ok := v.([]interface{})
unfoldable pub as_array : Value → Option (List Value) × Bool
as_array (arr xs) = (some (to_list xs), true)
as_array nil_arr = (none, true)
as_array _ = (none, false)

-- val, ok := v.(string)
unfoldable pub as_string : Value → Option String
as_string (str s) = some s
as_string _ = none

-- A nil map or slice has no entries.
abbrev pub entries {ℓ} : {A : Type ℓ} → Option (List A) → List A
entries none = []
entries (some xs) = xs

abbrev pub or_null : Option Value → Value
or_null none = null
or_null (some v) = v

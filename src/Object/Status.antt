-- ===== src/Object/Status.antt =====
-- dynamic/object/status.go: the conditions of a status.
use metac.Prelude.{
  String, Bool, false, Option, none, some, List, [], ◌∷◌, Dict, lookup, insert, ◌==◌, if◌then◌else◌,
}
use metac.Prelude.Int.{ℤ}
use metac.Value.{Value, str, arr, obj, of_list, to_dict, object, as_string, entries, or_null}
use metac.Api.{Object, Nested}

pub record StatusCondition : Type 0 where
  pub type : String
  pub status : String
  pub reason : String
  pub message : String

-- obj[key] = text, if the text is not empty
abbrev put_text : String → String → Dict Value → Dict Value
put_text key text m = if text == "" then m else insert key (str text) m

unfoldable pub condition_object : StatusCondition → Dict Value
condition_object c =
    put_text "message" c.message
      (put_text "reason" c.reason (("type", str c.type) ∷ ("status", str c.status) ∷ []))

-- val, ok := obj[key].(string), with the empty text where that fails
unfoldable pub text_at : String → Dict Value → String
unfolding as_string
text_at key m = elim (as_string (or_null (lookup key m))) [ none ↦ "" | some s ↦ s ]

unfoldable pub new_status_condition : Dict Value → StatusCondition
unfolding text_at
new_status_condition m = record {
  type = text_at "type" m;
  status = text_at "status" m;
  reason = text_at "reason" m;
  message = text_at "message" m;
}

abbrev pub is_text : String → Option String → Bool
is_text text none = false
is_text text (some s) = s == text

-- The item is a map whose type is a text, the given one.
unfoldable pub has_type : String → Value → Bool
unfolding as_string
has_type type (obj fs) = is_text type (as_string (or_null (lookup "type" (to_dict fs))))
has_type type _ = false

-- The loop of GetStatusCondition.
unfoldable pub find_condition : String → List Value → Option StatusCondition
unfolding new_status_condition
find_condition type [] = none
find_condition type (obj fs ∷ items) =
    let rest = find_condition type items in
    if has_type type (obj fs) then some (new_status_condition (to_dict fs)) else rest
find_condition type (_ ∷ items) = find_condition type items

-- The loop of SetCondition: the first condition of the type is replaced, or the new one appended.
unfoldable pub update_conditions : StatusCondition → List Value → List Value
unfolding condition_object
update_conditions c [] = object (condition_object c) ∷ []
update_conditions c (item ∷ items) =
    let rest = update_conditions c items in
    if has_type c.type item then object (condition_object c) ∷ items else item ∷ rest

module _ (nested : Nested) where
  unfoldable pub get_status_condition : Object → String → Option StatusCondition
  get_status_condition o type =
      find_condition type (entries (nested.get_nested_array o ("status" ∷ "conditions" ∷ [])))

  -- A replacement in place is a write of the updated array, which the status holds.
  unfoldable pub set_condition : Object → StatusCondition → Object
  set_condition status c =
      nested.set_nested_field status
        (arr (
          of_list
            (update_conditions c (entries (nested.get_nested_array status ("conditions" ∷ []))))))
        ("conditions" ∷ [])

  unfoldable pub set_status_condition : Object → StatusCondition → Object
  unfolding set_condition
  set_status_condition o c =
      nested.set_nested_field o
        (object (set_condition (entries (nested.get_nested_object o ("status" ∷ []))) c))
        ("status" ∷ [])

  unfoldable pub get_observed_generation : Object → ℤ
  get_observed_generation o = nested.get_nested_int64 o ("status" ∷ "observedGeneration" ∷ [])

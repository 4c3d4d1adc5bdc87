-- ===== src/Object/Conditions.antt =====
-- Conditions in their map form, and in a status.
use metac.Prelude.{
  String, true, false, ◌≡◌, refl, sym, ◌∙◌, ap, Option, none, some, List, [], ◌∷◌, lookup, insert,
  ◌==◌, if◌then◌else◌, arith, eq_iff, inl, inr, Bool-cases,
}
use mathlib.Core.Path.{ap₂}
use metac.Value.{Value, str, obj, to_dict, object, as_string, entries, or_null, to_dict-of_dict}
use metac.Api.{Object, Nested, NestedLaws}
use metac.Object.Status.{
  StatusCondition, is_text, condition_object, new_status_condition, has_type, find_condition,
  update_conditions, get_status_condition, set_condition, set_status_condition,
}

abbrev texts : String → String → String → String → StatusCondition
texts t s r m = record { type = t; status = s; reason = r; message = m }

-- A condition is read back from its map form.
pub new-condition_object : (c : StatusCondition) → new_status_condition (condition_object c) ≡ c
unfolding new_status_condition condition_object lookup insert
new-condition_object c = elim (Bool-cases (c.reason == "")) [
  | inl r ↦ elim (Bool-cases (c.message == "")) [
    | inl m ↦
        rw (r, m)
          (ap₂ (λ a b. texts c.type c.status a b) (sym ((eq_iff c.reason "").0 r))
            (sym ((eq_iff c.message "").0 m)))
    | inr m ↦
        rw (r, m) (ap (λ a. texts c.type c.status a c.message) (sym ((eq_iff c.reason "").0 r)))
  ]
  | inr r ↦ elim (Bool-cases (c.message == "")) [
    | inl m ↦
        rw (r, m) (ap (λ b. texts c.type c.status c.reason b) (sym ((eq_iff c.message "").0 m)))
    | inr m ↦ rw (r, m)
  ]
]

type-condition_object :
    (c : StatusCondition) → lookup "type" (condition_object c) ≡ some (str c.type)
unfolding condition_object lookup insert
type-condition_object c = ground arith

has_type-condition_object :
    (type : String) (c : StatusCondition)
    → has_type type (object (condition_object c)) ≡ (c.type == type)
unfolding has_type
has_type-condition_object type c =
    rw (to_dict-of_dict (condition_object c), type-condition_object c)

is_text_unique :
    (s t : String) (o : Option String) → is_text s o ≡ true → is_text t o ≡ true → s ≡ t
is_text_unique s t none p q = cc
is_text_unique s t (some u) p q = sym ((eq_iff u s).0 p) ∙ (eq_iff u t).0 q

-- An item has one type.
has_type_unique :
    (s t : String) (item : Value) → has_type s item ≡ true → has_type t item ≡ true → s ≡ t
unfolding has_type
has_type_unique s t (obj fs) p q =
    is_text_unique s t (as_string (or_null (lookup "type" (to_dict fs)))) p q
has_type_unique s t _ p q = cc

find_other :
    (type : String) (item : Value) (items : List Value)
    → has_type type item ≡ false
    → find_condition type (item ∷ items) ≡ find_condition type items
unfolding find_condition
find_other type (obj fs) items h = rw h
find_other type _ items h = refl

find_head :
    (type : String) (item : Value) (xs ys : List Value)
    → has_type type item ≡ true
    → find_condition type (item ∷ xs) ≡ find_condition type (item ∷ ys)
unfolding find_condition has_type
find_head type (obj fs) xs ys h = rw h
find_head type _ xs ys h = cc

found_condition :
    (type : String) (c : StatusCondition) (items : List Value)
    → find_condition type (object (condition_object c) ∷ items)
      ≡ (if c.type == type then some c else find_condition type items)
unfolding find_condition
found_condition type c items =
    rw (
      has_type-condition_object type c,
      to_dict-of_dict (condition_object c),
      new-condition_object c,
    )

-- After an update the conditions have the given one under its type, and under every other type what
-- they had.
pub find-update_conditions :
    (c : StatusCondition) (type : String) (items : List Value)
    → find_condition type (update_conditions c items)
      ≡ (if c.type == type then some c else find_condition type items)
unfolding update_conditions
find-update_conditions c type [] = found_condition type c []
find-update_conditions c type (item ∷ items) = elim (Bool-cases (has_type c.type item)) [
  | inl old ↦ rw old (
      found_condition type c items
      ∙ ground (
        arith,
        find_other type item items,
        has_type_unique c.type type item,
        eq_iff c.type type,
        Bool-cases (has_type type item),
      ))
  | inr new ↦ elim (Bool-cases (has_type type item)) [
    | inl here ↦ rw new (
        find_head type item (update_conditions c items) items here
        ∙ ground (arith, eq_iff c.type type))
    | inr there ↦
        rw
          (
            new,
            find_other type item (update_conditions c items) there,
            find_other type item items there,
          )
          (find-update_conditions c type items)
  ]
]

module _ (nested : Nested) (laws : NestedLaws nested) where
  -- A condition that was set on an object is the one that is got for its type; for any other type
  -- the object's status gives what it gave before.
  pub get-set_status_condition :
      (o status : Object) (c : StatusCondition) (type : String)
      → nested.get_nested_object o ("status" ∷ []) ≡ some status
      → get_status_condition nested (set_status_condition nested o c) type
        ≡ (if c.type == type then some c else get_status_condition nested o type)
  unfolding get_status_condition set_status_condition
  get-set_status_condition o status c type h =
      let s' = set_condition nested status c in
      let whole : set_status_condition nested o c
          ≡ nested.set_nested_field o (object s') ("status" ∷ []) =
        ap
          (λ m.
            nested.set_nested_field o (object (set_condition nested (entries m) c)) ("status" ∷ []))
          h in
      let set : nested.get_nested_array (set_status_condition nested o c)
            ("status" ∷ "conditions" ∷ [])
          ≡ some
              (update_conditions c (entries (nested.get_nested_array status ("conditions" ∷ [])))) =
        ap (λ m. nested.get_nested_array m ("status" ∷ "conditions" ∷ [])) whole
        ∙ laws.array-path _ s' "status" "conditions" (laws.object-set o s' "status")
        ∙ laws.array-set status _ "conditions" in
      let got = laws.array-path o status "status" "conditions" h in
      ap (λ xs. find_condition type (entries xs)) set
      ∙ find-update_conditions c type (entries (nested.get_nested_array status ("conditions" ∷ [])))
      ∙ ap (λ xs. if c.type == type then some c else find_condition type (entries xs)) (sym got)

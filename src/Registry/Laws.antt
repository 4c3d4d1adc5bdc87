-- ===== src/Registry/Laws.antt =====
-- What the registry holds at each key and name after an insertion or a replacement, and what a
-- search finds.
use metac.Prelude.{
  ℕ, suc, String, true, false, ◌≡◌, refl, ◌∙◌, inl, inr, Option, none, some, [], ◌∷◌, Distinct,
  lookup, has, ◌==◌, ◌&&◌, eq_iff, eq_refl, arith, lookup-insert, has-is_some, is_some,
  if◌then◌else◌, Bool-cases, nat_eq, Option-cases, has_of_lookup,
}
use metac.Value.{entries}
use metac.Api.{Object, Api}
use metac.Registry.{
  Group, AnyUnstructRegistry, object_key, insert_named, replace_named, count_group, count_from, len,
  group_is_empty, is_empty, is_group_kind, find_by_group_kind_name,
}

-- What is stored under a key and a name.
abbrev pub stored : String → String → AnyUnstructRegistry → Option (Option Object)
stored key name m = lookup name (entries (lookup key m))

module _ (api : Api) where
  -- After an insertion the object is stored under its key and the name, and everything else is as it
  -- was.
  pub stored-insert_named :
      (name key other : String) (obj : Object) (m : AnyUnstructRegistry)
      → stored key other (insert_named api name obj m) ≡ (
          if (object_key api obj == key) && (name == other)
          then some (some obj)
          else stored key other m)
  unfolding insert_named
  stored-insert_named name key other obj m = elim (Bool-cases (object_key api obj == key)) [
    | inl same ↦ rw (lookup-insert, same, lookup-insert, (eq_iff (object_key api obj) key).0 same)
    | inr different ↦ rw (lookup-insert, different)
  ]

  -- A replacement stores the object only where its key and the name held something, and leaves
  -- everything else as it was.
  pub stored-replace_named :
      (name key other : String) (obj : Object) (m : AnyUnstructRegistry)
      → stored key other (replace_named api name obj m) ≡ (
          if ((object_key api obj == key) && (name == other)) && is_some (stored key other m)
          then some (some obj)
          else stored key other m)
  unfolding replace_named
  stored-replace_named name key other obj m = elim (Option-cases (lookup (object_key api obj) m)) [
    | inl e ↦ elim (Bool-cases (object_key api obj == key)) [
      | inl same ↦
          let here : lookup key m ≡ none = rw (← (eq_iff (object_key api obj) key).0 same) e in
          rw (e, replace_named, same, here) (unfold lookup in ground arith)
      | inr different ↦ rw (e, replace_named, different)
    ]
    | inr (children, e) ↦ elim (Bool-cases (object_key api obj == key)) [
      | inl same ↦
          let here : lookup key m ≡ some children =
            rw (← (eq_iff (object_key api obj) key).0 same) e in
          elim (Bool-cases (has name children)) [
            | inl old ↦
                rw (e, replace_named, old, lookup-insert, same, here, lookup-insert)
                  (ground (arith, has-is_some name children, eq_iff name other))
            | inr new ↦
                rw (e, replace_named, new, same, here)
                  (ground (arith, has-is_some name children, eq_iff name other))
          ]
      | inr different ↦ elim (Bool-cases (has name children)) [
        | inl old ↦ rw (e, replace_named, old, lookup-insert, different)
        | inr new ↦ rw (e, replace_named, new, different)
      ]
    ]
  ]

count_group-is_empty :
    (group : Group) (count : ℕ)
    → nat_eq (count_group group count) 0 ≡ (group_is_empty group && nat_eq count 0)
unfolding count_group group_is_empty
count_group-is_empty [] count = refl
count_group-is_empty ((name, none) ∷ group) count = count_group-is_empty group count
count_group-is_empty ((name, some obj) ∷ group) count =
    count_group-is_empty group (suc count) ∙ ground arith

count_from-is_empty :
    (m : AnyUnstructRegistry) (count : ℕ)
    → nat_eq (count_from m count) 0 ≡ (is_empty m && nat_eq count 0)
unfolding count_from is_empty
count_from-is_empty [] count = refl
count_from-is_empty ((key, group) ∷ m) count =
    ground
      (arith, count_from-is_empty m (count_group group count), count_group-is_empty group count)

-- A registry is empty exactly if it has no object.
pub is_empty-eq-len : (m : AnyUnstructRegistry) → is_empty m ≡ nat_eq (len m) 0
unfolding len
is_empty-eq-len m = ground (arith, count_from-is_empty m 0)

-- What is found under a group, a kind and a name is stored under that name, and under a key of that
-- group and kind.
pub find_by_group_kind_name-stored :
    (api_group kind name : String) (m : AnyUnstructRegistry) {obj : Object}
    → Distinct m
    → find_by_group_kind_name api_group kind name m ≡ some obj
    → (key : String) × (is_group_kind api_group kind key ≡ true)
      × (stored key name m ≡ some (some obj))
unfolding find_by_group_kind_name
find_by_group_kind_name-stored api_group kind name [] d h = cc
find_by_group_kind_name-stored api_group kind name ((key, group) ∷ m) {obj = obj} d h =
    elim (Bool-cases (is_group_kind api_group kind key)) [
      | inl e ↦ elim (Option-cases (lookup name group)) [
        | inl none_here ↦ later d (
            find_by_group_kind_name-stored api_group kind name m {obj = obj} d.1
              (rw (e, none_here, find_by_group_kind_name) at h))
        | inr (res, q) ↦
            let here : res ≡ some obj = rw (e, q, find_by_group_kind_name) at h in
            (key, e, unfold lookup in rw (eq_refl key, q, here))
      ]
      | inr e ↦ later d (
          find_by_group_kind_name-stored api_group kind name m {obj = obj} d.1
            (rw (e, find_by_group_kind_name) at h))
    ]
  where
    there :
        (k : String) (o : Option Group)
        → lookup k m ≡ o
        → lookup name (entries o) ≡ some (some obj)
        → has k m ≡ true
    there k none e q = let bad : none ≡ some (some obj) = (unfold lookup in q) in cc
    there k (some g) e q = has_of_lookup k m e

    apart :
        (k : String)
        → has k m ≡ true
        → Distinct ((key, group) ∷ m)
        → stored k name m ≡ some (some obj)
        → stored k name ((key, group) ∷ m) ≡ some (some obj)
    apart k h d q =
        let other : (key == k) ≡ false = ground (arith, eq_iff key k, Bool-cases (key == k)) in
        unfold lookup in rw other q

    later :
        Distinct ((key, group) ∷ m)
        → (k : String) × (is_group_kind api_group kind k ≡ true)
          × (stored k name m ≡ some (some obj))
        → (k : String) × (is_group_kind api_group kind k ≡ true)
          × (stored k name ((key, group) ∷ m) ≡ some (some obj))
    later d (k, e, q) = (k, e, apart k (there k (lookup k m) refl q) d q)

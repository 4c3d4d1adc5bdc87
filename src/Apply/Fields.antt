-- ===== src/Apply/Fields.antt =====
-- What a merge of maps leaves at each key: the three-way rule.
use metac.Prelude.{
  ℕ, suc, String, Bool, true, false, not, ◌&&◌, ◌≡◌, refl, ap, ◌∙◌, Option, none, some, [], ◌∷◌,
  Dict, Distinct, lookup, has, insert, remove, inl, inr, arith, ◌==◌, Bool-cases, if◌then◌else◌,
  eq_iff, lookup-insert, lookup-remove, has_of_lookup,
}
use metac.Prelude.Results.{Result, ok, err, ◌>>=◌, >>=-eq-ok}
use metac.Value.{Value, of_dict, object, as_map, entries, or_null, to_dict-of_dict}
use metac.Value.Depth.{depth, DictWithin, to_dict-DictWithin, lookup-DictWithin}
use metac.Apply.{
  MergeError, Merger, delete_unwanted, merge_entries, merge_map, merge_step, merge, merge_objects,
}
use metac.Apply.Total.{merge_map_total, merge-IsTotal}
use metac.Apply.Fuel.{merge_fuel}

pub lookup-delete_unwanted :
    (k : String) (last desired dest : Dict Value)
    → lookup k (delete_unwanted last desired dest)
      ≡ (if has k last && not (has k desired) then none else lookup k dest)
unfolding delete_unwanted has
lookup-delete_unwanted k [] desired dest = refl
lookup-delete_unwanted k ((j, v) ∷ last) desired dest = ground (
  arith,
  eq_iff j k,
  lookup-remove j k dest,
  lookup-delete_unwanted k last desired (if has j desired then dest else remove j dest),
)

and_false : (b : Bool) → (b && false) ≡ false
and_false true = refl
and_false false = refl

module _ (rec : Merger) (last : Dict Value) where
  -- A key that is not desired keeps what the destination has.
  pub lookup-merge_entries_ne :
      (k : String) (desired dest : Dict Value) {m : Dict Value}
      → has k desired ≡ false
      → merge_entries rec last desired dest ≡ ok m
      → lookup k m ≡ lookup k dest
  unfolding merge_entries has
  lookup-merge_entries_ne k [] dest h e = ground arith
  lookup-merge_entries_ne k ((j, v) ∷ desired) dest {m = m} h e =
      let (u, _, q) = >>=-eq-ok (rec (or_null (lookup j dest)) (or_null (lookup j last)) v) _ e in
      lookup-merge_entries_ne k desired (insert j u dest) (ground arith) q
      ∙ ground (arith, lookup-insert j k u dest)

  -- A desired key holds the merge of its values.
  pub lookup-merge_entries :
      (k : String) (desired dest : Dict Value) {m : Dict Value} {v : Value}
      → Distinct desired
      → lookup k desired ≡ some v
      → merge_entries rec last desired dest ≡ ok m
      → (u : Value) × (rec (or_null (lookup k dest)) (or_null (lookup k last)) v ≡ ok u)
        × (lookup k m ≡ some u)
  unfolding merge_entries lookup
  lookup-merge_entries k [] dest d h e = absurd (cc)
  lookup-merge_entries k ((j, w) ∷ desired) dest {m = m} {v = v} d h e =
      let (u, p, q) = >>=-eq-ok (rec (or_null (lookup j dest)) (or_null (lookup j last)) w) _ e in
      elim (Bool-cases (j == k)) [
        | inl same ↦
            let jk : j ≡ k = (eq_iff j k).0 same in
            let wv : w ≡ v = ground arith in
            (
              u,
              rw (← jk, ← wv) p,
              lookup-merge_entries_ne k desired (insert j u dest) (rw jk at d.0) q
                  ∙ rw (lookup-insert j k u dest, same),
            )
        | inr other ↦
            let (x, r, l) =
              lookup-merge_entries k desired (insert j u dest) d.1 (rw other at h) q in
            (x, rw (lookup-insert j k u dest, other) at r, l)
      ]

module _ (rec : Merger) (last : Dict Value) where
  pub lookup-merge_map :
      (k : String) (observed desired : Dict Value) {m : Dict Value} {v : Value}
      → Distinct desired
      → lookup k desired ≡ some v
      → merge_map rec observed last desired ≡ ok m
      → (u : Value) × (rec (or_null (lookup k observed)) (or_null (lookup k last)) v ≡ ok u)
        × (lookup k m ≡ some u)
  unfolding merge_map
  lookup-merge_map k observed desired {m = m} {v = v} d h e =
      let (u, p, q) =
        lookup-merge_entries rec last k desired (delete_unwanted last desired observed) {m = m}
          {v = v} d h e in
      (
        u,
        rw (lookup-delete_unwanted k last desired observed, has_of_lookup k desired h, and_false) at
            p,
        q,
      )

  pub lookup-merge_map_ne :
      (k : String) (observed desired : Dict Value) {m : Dict Value}
      → has k desired ≡ false
      → merge_map rec observed last desired ≡ ok m
      → lookup k m ≡ (if has k last then none else lookup k observed)
  unfolding merge_map
  lookup-merge_map_ne k observed desired {m = m} h e =
      lookup-merge_entries_ne rec last k desired (delete_unwanted last desired observed) {m = m} h e
      ∙ ground (arith, lookup-delete_unwanted k last desired observed)

object_back :
    (m : Result MergeError (Dict Value))
    → (m >>= (λ x. ok (object x)) >>= λ v. ok (entries (as_map v).0)) ≡ m
unfolding as_map
object_back (ok m) = ap ok (to_dict-of_dict m)
object_back (err e) = refl

-- A merge of objects is a merge of their maps.
pub merge_objects-eq-merge_map :
    (observed last desired : Dict Value)
    → merge_objects observed last desired
      ≡ merge_map (merge (depth (object desired))) observed last desired
unfolding merge_objects merge merge_step
merge_objects-eq-merge_map observed last desired =
    rw (to_dict-of_dict observed, to_dict-of_dict last, to_dict-of_dict desired) (object_back _)

merge-DictWithin : (desired : Dict Value) → DictWithin (depth (object desired)) desired
unfolding depth
merge-DictWithin desired =
    rw to_dict-of_dict at
      (to_dict-DictWithin (depth (object desired)) (of_dict desired) (omega arith))

-- The merge of the values at one key, with enough fuel for the desired one.
unfoldable pub merge_value : Option Value → Option Value → Value → Result MergeError Value
merge_value observed last desired =
    merge (suc (depth desired)) (or_null observed) (or_null last) desired

-- The merge of maps returns a map. At a desired key it has the merge of the values of that key. At
-- any other key it has nothing if the key was applied last, and else what was observed.
pub merge_objects_three_way :
    (observed last desired : Dict Value)
    → Distinct desired
    → (m : Dict Value) × (merge_objects observed last desired ≡ ok m)
      × ((k : String) (v : Value)
          → lookup k desired ≡ some v
          → (u : Value) × (merge_value (lookup k observed) (lookup k last) v ≡ ok u)
            × (lookup k m ≡ some u))
      × ((k : String)
          → has k desired ≡ false
          → lookup k m ≡ (if has k last then none else lookup k observed))
unfolding merge_value
merge_objects_three_way observed last desired d =
    (m, merge_objects-eq-merge_map observed last desired ∙ e, desired_key, other_key)
  where
    fuel : ℕ
    fuel = depth (object desired)

    total : (m : Dict Value) × (merge_map (merge fuel) observed last desired ≡ ok m)
    total =
        merge_map_total (merge fuel) fuel (merge-IsTotal fuel) observed last desired
          (merge-DictWithin desired)

    m : Dict Value
    m = total.0

    e : merge_map (merge fuel) observed last desired ≡ ok m
    e = total.1

    desired_key :
        (k : String) (v : Value)
        → lookup k desired ≡ some v
        → (u : Value) × (merge
              (suc (depth v))
              (or_null (lookup k observed))
              (or_null (lookup k last))
              v
            ≡ ok u)
          × (lookup k m ≡ some u)
    desired_key k v h =
        let (u, p, q) =
          lookup-merge_map (merge fuel) last k observed desired {m = m} {v = v} d h e in
        (
          u,
          merge_fuel (suc (depth v)) fuel (or_null (lookup k observed)) (or_null (lookup k last)) v
                (omega arith) (lookup-DictWithin fuel k desired (merge-DictWithin desired) h)
              ∙ p,
          q,
        )

    other_key :
        (k : String)
        → has k desired ≡ false
        → lookup k m ≡ (if has k last then none else lookup k observed)
    other_key k h = lookup-merge_map_ne (merge fuel) last k observed desired {m = m} h e

-- ===== src/Apply/ListMap.antt =====
-- What a merge of lists of maps leaves: the three-way rule at each merge key.
use metac.Prelude.{
  ℕ, String, true, false, ◌&&◌, ◌||◌, ◌≡◌, sym, ap, ◌∙◌, some, List, [], ◌++◌, Memᴰ, Dict, Distinct,
  lookup, has, contains, ◌⊎◌, inl, inr, arith, Bool-cases, has_of_lookup, lookup-eq-some,
  Memᴰ-append_left, Memᴰ-append_right, Memᴰ-append_cases,
}
use mathlib.Core.Path.{subst}
use mathlib.Core.Option.{some-injective}
use metac.Prelude.Results.{ok}
use metac.Value.{Value, or_null}
use metac.Value.Depth.{ListWithin}
use metac.Apply.{merge_map, make_map_from_list, merge_list_map, merge}
use metac.Apply.Total.{merge-IsTotal, merge_map_total}
use metac.Apply.Fuel.{add_items-DictWithin}
use metac.Apply.Fields.{lookup-merge_map, lookup-merge_map_ne}
use metac.Apply.Lists.{
  kept, fresh, add_items-Keyed, take_observed-kept, take_desired-fresh, Memᴰ-kept, kept-Memᴰ,
  Memᴰ-fresh, fresh-Memᴰ,
}

-- An item of a merged list: the merge of a desired item, or an observed one that is neither desired
-- nor was applied last.
abbrev pub IsMerged : ℕ → Dict Value → Dict Value → Dict Value → Value → Type 0
IsMerged fuel observed last desired u =
    (t : String) × (((v : Value) × (lookup t desired ≡ some v)
        × (merge fuel (or_null (lookup t observed)) (or_null (lookup t last)) v ≡ ok u))
      ⊎ (has t desired ≡ false) × (has t last ≡ false) × (lookup t observed ≡ some u))

module _ (fuel : ℕ) (key : String) (observed last desired : List Value) {om lm dm : Dict Value}
    (eo : make_map_from_list key observed ≡ ok om) (el : make_map_from_list key last ≡ ok lm)
    (ed : make_map_from_list key desired ≡ ok dm) where
  merge_list_map_run :
      (merged : Dict Value)
      → merge_map (merge fuel) om lm dm ≡ ok merged
      → (ot dt added : List String) × (merge_list_map (merge fuel) key observed last desired
          ≡ ok (kept merged ot ++ fresh merged added dt))
        × ((t : String) → has t om ≡ contains t ot)
        × ((t : String) → has t dm ≡ contains t dt)
        × ((t : String) → contains t added ≡ (contains t ot && has t merged))
  unfolding merge_list_map make_map_from_list has contains
  merge_list_map_run merged em =
      let (ot, ko, mo, _) = add_items-Keyed key observed [] {m = om} eo in
      let (dt, kd, md, _) = add_items-Keyed key desired [] {m = dm} ed in
      let (added, eko, ma) = take_observed-kept key merged ko [] [] in
      let (all, ekd) = take_desired-fresh key merged kd (kept merged ot) added in
      (
        ot,
        dt,
        added,
        rw (eo, el, ed, em, eko, ekd),
        λ t. ground (arith, mo t),
        λ t. ground (arith, md t),
        λ t. ground (arith, ma t),
      )

  -- Every item of the result is accounted for.
  result-IsMerged :
      (merged : Dict Value)
      → merge_map (merge fuel) om lm dm ≡ ok merged
      → Distinct dm
      → (t : String) {u : Value} → lookup t merged ≡ some u
      → IsMerged fuel om lm dm u
  result-IsMerged merged em d t {u = u} e = elim (Bool-cases (has t dm)) [
    | inl wanted ↦
        let (v, lv) = lookup-eq-some t dm wanted in
        let (x, p, q) = lookup-merge_map (merge fuel) lm t om dm {m = merged} {v = v} d lv em in
        (t, inl (v, lv, p ∙ ap ok (some-injective x u (sym q ∙ e))))
    | inr other ↦
        let q = lookup-merge_map_ne (merge fuel) lm t om dm {m = merged} other em in
        (t, inr (other, ground arith, ground arith))
  ]

  module _ (merged : Dict Value) (em : merge_map (merge fuel) om lm dm ≡ ok merged)
      (d : Distinct dm) (ot dt added : List String) (ho : (t : String) → has t om ≡ contains t ot)
      (hd : (t : String) → has t dm ≡ contains t dt)
      (ha : (t : String) → contains t added ≡ (contains t ot && has t merged)) where
    -- What is in the merged map under an observed or a desired key is in the result.
    result-Memᴰ :
        (t : String) {u : Value}
        → (has t om || has t dm) ≡ true
        → lookup t merged ≡ some u
        → Memᴰ u (kept merged ot ++ fresh merged added dt)
    result-Memᴰ t {u = u} h e = elim (Bool-cases (contains t ot)) [
      | inl old ↦ Memᴰ-append_left (fresh merged added dt) (Memᴰ-kept merged t ot old e)
      | inr new ↦
          let wanted : contains t dt ≡ true = ground (arith, ho t, hd t) in
          let m = Memᴰ-fresh merged t added dt wanted (ground (arith, ha t)) in
          Memᴰ-append_right (kept merged ot)
            (subst (λ o. Memᴰ (or_null o) (fresh merged added dt)) e m)
    ]

    result-wanted :
        (t : String) (v : Value)
        → lookup t dm ≡ some v
        → (u : Value) × (merge fuel (or_null (lookup t om)) (or_null (lookup t lm)) v ≡ ok u)
          × Memᴰ u (kept merged ot ++ fresh merged added dt)
    result-wanted t v e =
        let (u, p, q) = lookup-merge_map (merge fuel) lm t om dm {m = merged} {v = v} d e em in
        (u, p, result-Memᴰ t (ground (arith, has_of_lookup t dm {v = v} e)) q)

    result-untouched :
        (t : String) (v : Value)
        → has t dm ≡ false
        → has t lm ≡ false
        → lookup t om ≡ some v
        → Memᴰ v (kept merged ot ++ fresh merged added dt)
    result-untouched t v hd' hl e =
        result-Memᴰ t (ground (arith, has_of_lookup t om {v = v} e))
          (lookup-merge_map_ne (merge fuel) lm t om dm {m = merged} hd' em ∙ rw hl e)

    result-accounted :
        (u : Value) → Memᴰ u (kept merged ot ++ fresh merged added dt) → IsMerged fuel om lm dm u
    result-accounted u m = elim (Memᴰ-append_cases (kept merged ot) m) [
      | inl l ↦ let (t, e) = kept-Memᴰ merged ot l in result-IsMerged merged em d t e
      | inr r ↦
          let (t, c, e) = fresh-Memᴰ merged added dt r in
          let (v, lv) = lookup-eq-some t dm (hd t ∙ c) in
          let (x, p, q) = lookup-merge_map (merge fuel) lm t om dm {m = merged} {v = v} d lv em in
          (t, inl (v, lv, rw (e, q) p))
    ]

  -- Three lists of maps with the merge key, given the maps that they are turned into. The merge
  -- returns a list. It holds the merge of every desired item that stands last under its key, and
  -- every observed item that stands last under a key neither desired nor applied last; and every
  -- item of the list is one of these.
  pub merge_list_map_three_way :
      ListWithin fuel desired
      → (out : List Value) × (merge_list_map (merge fuel) key observed last desired ≡ ok out)
        × ((t : String) (v : Value)
            → lookup t dm ≡ some v
            → (u : Value) × (merge fuel (or_null (lookup t om)) (or_null (lookup t lm)) v ≡ ok u)
              × Memᴰ u out)
        × ((t : String) (v : Value)
            → has t dm ≡ false
            → has t lm ≡ false
            → lookup t om ≡ some v
            → Memᴰ v out)
        × ((u : Value) → Memᴰ u out → IsMerged fuel om lm dm u)
  unfolding make_map_from_list
  merge_list_map_three_way w =
      let within = add_items-DictWithin key fuel desired [] w tt ed in
      let (m, em) = merge_map_total (merge fuel) fuel (merge-IsTotal fuel) om lm dm within in
      let (ot, dt, added, run, ho, hd, ha) = merge_list_map_run m em in
      let d = (add_items-Keyed key desired [] {m = dm} ed).3 tt in
      (
        kept m ot ++ fresh m added dt,
        run,
        result-wanted m em d ot dt added ho hd ha,
        result-untouched m em d ot dt added ho hd ha,
        result-accounted m em d ot dt added ho hd ha,
      )

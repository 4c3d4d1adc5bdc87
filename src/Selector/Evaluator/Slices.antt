-- ===== src/Selector/Evaluator/Slices.antt =====
-- What the slice expressions of a term decide about the lists that the target holds.
use metac.Prelude.{
  String, Bool, true, ◌&&◌, ◌≡◌, ap, sym, ◌∙◌, refl, inl, inr, some, List, [], ◌∷◌, Dict, lookup,
  has, insert, ◌==◌, eq_iff, arith, Bool-cases, lookup-insert, has-insert, lookup-eq-some,
}
use metac.Prelude.Results.{Result, ok, err, >>=-eq-ok, ok-injective}
use metac.Api.{Object, Api}
use metac.Selector.Labels.{SelectorError, Labels}
use metac.Selector.Slice.{KeyToSlice, SliceSelectorRequirement, op_equals, new_slice_selector}
use metac.Selector.Slice.Sets.{slice_matches}
use metac.Selector.Slice.Selectors.{slices_met, all_met, selector_match-eq}
use metac.Selector.Evaluator.{
  SelectorTerm, Evaluation, both_empty, actual_values, target_of_expressions, target_of_map,
  is_slice_match,
}

-- The list that the target holds at a path; none where the path cannot be read.
abbrev list_of : Result SelectorError (List String) → List String
list_of (err e) = []
list_of (ok vals) = vals

abbrev pub list_at : Api → Object → String → List String
list_at api target key = list_of (actual_values api target key)

module _ (api : Api) (target : Object) where
  -- The target's lists meet every entry of the map, and every expression.
  abbrev pub entries_hold : Dict (List String) → Bool
  entries_hold [] = true
  entries_hold ((key, values) ∷ slices) =
      slice_matches op_equals (some (list_at api target key)) values && entries_hold slices

  abbrev pub expressions_hold : List SliceSelectorRequirement → Bool
  expressions_hold [] = true
  expressions_hold (r ∷ rs) =
      slice_matches r.operator (some (list_at api target r.key)) r.values && expressions_hold rs

  abbrev Faithful : KeyToSlice → Type 0
  Faithful m = (k : String) (v : List String) → lookup k m ≡ some v → list_at api target k ≡ v

  insert-Faithful :
      (key : String) (vals : List String) (m : KeyToSlice)
      → actual_values api target key ≡ ok vals
      → Faithful m
      → Faithful (insert key vals m)
  insert-Faithful key vals m a f k v h = elim (Bool-cases (key == k)) [
    | inl same ↦
        let name : key ≡ k = (eq_iff key k).0 same in
        let e : vals ≡ v = ground (arith, lookup-insert key k vals m) in rw (← name, a) e
    | inr other ↦ f k v (ground (arith, lookup-insert key k vals m))
  ]

  abbrev Extends : KeyToSlice → KeyToSlice → Type 0
  Extends m n = (Faithful m → Faithful n) × ((k : String) → has k m ≡ true → has k n ≡ true)

  insert-Extends :
      (key : String) (vals : List String) (m n : KeyToSlice)
      → actual_values api target key ≡ ok vals
      → Extends (insert key vals m) n
      → Extends m n × (has key n ≡ true)
  insert-Extends key vals m n a x = (
    (
      λ f. x.0 (insert-Faithful key vals m a f),
      λ k h. x.1 k (ground (arith, has-insert key k vals m)),
    ),
    x.1 key (ground (arith, has-insert key key vals m, eq_iff key key)),
  )

  abbrev HasKeys : KeyToSlice → List SliceSelectorRequirement → Type 0
  HasKeys m [] = Unit
  HasKeys m (r ∷ rs) = (has r.key m ≡ true) × HasKeys m rs

  abbrev HasEntries : KeyToSlice → Dict (List String) → Type 0
  HasEntries m [] = Unit
  HasEntries m ((key, values) ∷ slices) = (has key m ≡ true) × HasEntries m slices

  expressions-Extends :
      (exps : List SliceSelectorRequirement) (m : KeyToSlice) {n : KeyToSlice}
      → target_of_expressions api target exps m ≡ ok n
      → Extends m n × HasKeys n exps
  unfolding target_of_expressions
  expressions-Extends [] m {n = n} h =
      let same : m ≡ n = ok-injective h in rw (← same) ((λ f. f, λ k p. p), tt)
  expressions-Extends (r ∷ exps) m {n = n} h =
      let (vals, a, q) = >>=-eq-ok (actual_values api target r.key) _ h in
      let (x, keys) = expressions-Extends exps (insert r.key vals m) {n = n} q in
      let (y, here) = insert-Extends r.key vals m n a x in (y, (here, keys))

  map-Extends :
      (slices : Dict (List String)) (m : KeyToSlice) {n : KeyToSlice}
      → target_of_map api target slices m ≡ ok n
      → Extends m n × HasEntries n slices
  unfolding target_of_map
  map-Extends [] m {n = n} h =
      let same : m ≡ n = ok-injective h in rw (← same) ((λ f. f, λ k p. p), tt)
  map-Extends ((key, values) ∷ slices) m {n = n} h =
      let (vals, a, q) = >>=-eq-ok (actual_values api target key) _ h in
      let (x, keys) = map-Extends slices (insert key vals m) {n = n} q in
      let (y, here) = insert-Extends key vals m n a x in (y, (here, keys))

  at_key :
      (m : KeyToSlice) (k : String)
      → Faithful m
      → has k m ≡ true
      → lookup k m ≡ some (list_at api target k)
  at_key m k f h = let (v, q) = lookup-eq-some k m h in q ∙ ap some (sym (f k v q))

  all_met-hold :
      (m : KeyToSlice) (exps : List SliceSelectorRequirement)
      → Faithful m
      → HasKeys m exps
      → all_met m exps ≡ expressions_hold exps
  all_met-hold m [] f h = refl
  all_met-hold m (r ∷ exps) f h = rw (at_key m r.key f h.0, all_met-hold m exps f h.1)

  slices_met-hold :
      (m : KeyToSlice) (slices : Dict (List String))
      → Faithful m
      → HasEntries m slices
      → slices_met m slices ≡ entries_hold slices
  slices_met-hold m [] f h = refl
  slices_met-hold m ((k, v) ∷ slices) f h = rw (at_key m k f h.0, slices_met-hold m slices f h.1)

  HasKeys-extends :
      (m n : KeyToSlice) (exps : List SliceSelectorRequirement)
      → ((k : String) → has k m ≡ true → has k n ≡ true)
      → HasKeys m exps
      → HasKeys n exps
  HasKeys-extends m n [] x h = tt
  HasKeys-extends m n (r ∷ exps) x h = (x r.key h.0, HasKeys-extends m n exps x h.1)

  hold_empty :
      (slices : Dict (List String)) (exps : List SliceSelectorRequirement)
      → both_empty slices exps ≡ true
      → (entries_hold slices && expressions_hold exps) ≡ true
  hold_empty [] [] h = refl
  hold_empty [] (r ∷ exps) h = absurd (ground arith)
  hold_empty (s ∷ slices) exps h = absurd (ground arith)

  -- A slice match that gives an answer, about a target that is there, decides whether the lists that
  -- the target holds at the paths meet every entry of the map, by the operator Equals, and every
  -- expression, by its own operator.
  pub is_slice_match-lem :
      (labels : Labels) (e : Evaluation) (term : SelectorTerm) (b : Bool)
      → e.target ≡ some target
      → is_slice_match labels api e term ≡ ok b
      → b ≡ (entries_hold term.match_slice && expressions_hold term.match_slice_expressions)
  unfolding is_slice_match
  is_slice_match-lem labels e term b t h =
      elim (Bool-cases (both_empty term.match_slice term.match_slice_expressions)) [
        | inl empty ↦
            sym (ok-injective (rw (empty, is_slice_match) at h))
            ∙ sym (hold_empty term.match_slice term.match_slice_expressions empty)
        | inr full ↦
            let h' = rw (full, is_slice_match, t) at h in
            let (s, ps, q₁) = >>=-eq-ok (new_slice_selector labels _) _ h' in
            let (m, pm, q₂) =
              >>=-eq-ok (target_of_expressions api target term.match_slice_expressions []) _ q₁ in
            let (n, pn, q₃) = >>=-eq-ok (target_of_map api target term.match_slice m) _ q₂ in
            let (x, keys) = expressions-Extends term.match_slice_expressions [] {n = m} pm in
            let (y, slices) = map-Extends term.match_slice m {n = n} pn in
            let nothing : Faithful [] = (unfold lookup in λ k v l. cc) in
            let faithful = y.0 (x.0 nothing) in
            sym (ok-injective q₃)
            ∙ selector_match-eq labels
                (record {
                  match_slice = term.match_slice;
                  match_slice_expressions = term.match_slice_expressions;
                })
                n {s = s} ps
            ∙ rw (
              slices_met-hold n term.match_slice faithful slices,
              all_met-hold n term.match_slice_expressions faithful
                  (HasKeys-extends m n term.match_slice_expressions y.1 keys),
            )
      ]

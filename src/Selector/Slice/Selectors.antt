-- ===== src/Selector/Slice/Selectors.antt =====
-- A slice selector: which configurations are accepted, and what an accepted one matches.
use metac.Prelude.{
  ◌+◌, String, Bool, true, not, ◌&&◌, ◌≡◌, refl, sym, ap, ◌∙◌, inl, inr, none, some, List, [], ◌∷◌,
  ◌++◌, Dict, length, lookup, ◌==◌, nat_eq, arith, Bool-cases,
}
use metac.Prelude.Results.{ok, >>=-eq-ok, ok-injective}
use metac.Selector.Labels.{empty_key, empty_values, bad_operator, Labels}
use metac.Selector.Slice.{
  KeyToSlice, SliceMatcher, SliceSelectorRequirement, SliceSelector, SliceSelectorConfig, op_equals,
  validate_label_key, validate_values, is_slice_operator, ensure, new_slice_matcher, selector_add,
  add_slices, add_expressions, new_slice_selector, new_slice_selector_always_true, all_match,
  selector_match,
}
use metac.Selector.Slice.Sets.{slice_matches, matcher_match-eq}

-- A requirement is met by the observed values of its key.
abbrev pub met : KeyToSlice → SliceSelectorRequirement → Bool
met target r = slice_matches r.operator (lookup r.key target) r.values

abbrev pub all_met : KeyToSlice → List SliceSelectorRequirement → Bool
all_met target [] = true
all_met target (r ∷ rs) = met target r && all_met target rs

-- An entry of the map is a requirement with the operator Equals.
abbrev pub slices_met : KeyToSlice → Dict (List String) → Bool
slices_met target [] = true
slices_met target ((k, v) ∷ slices) =
    slice_matches op_equals (lookup k target) v && slices_met target slices

all_match-append :
    (ms ns : List SliceMatcher) (target : KeyToSlice)
    → all_match (ms ++ ns) target ≡ (all_match ms target && all_match ns target)
unfolding all_match
all_match-append [] ns target = refl
all_match-append (m ∷ ms) ns target = ground (arith, all_match-append ms ns target)

-- Nothing is asked of the target.
no_requirements :
    (target : KeyToSlice) (slices : Dict (List String)) (exprs : List SliceSelectorRequirement)
    → nat_eq (length slices + length exprs) 0 ≡ true
    → (slices_met target slices && all_met target exprs) ≡ true
no_requirements target [] [] h = refl
no_requirements target [] (r ∷ exprs) h = absurd (ground arith)
no_requirements target (e ∷ slices) exprs h = absurd (ground arith)

abbrev no_matchers : SliceSelector
no_matchers = record { matchers = []; match_fn = none }

module _ (labels : Labels) where
  -- A matcher that is built has the given key, operator and values.
  new_slice_matcher-eq :
      (key op : String) (values : List String) {m : SliceMatcher}
      → new_slice_matcher labels key op values ≡ ok m
      → record { key = key; operator = op; desired_values = values } ≡ m
  unfolding new_slice_matcher
  new_slice_matcher-eq key op values h =
      let (_, _, a) = >>=-eq-ok (ensure (not (key == "")) empty_key) _ h in
      let (_, _, b) = >>=-eq-ok (ensure (not (nat_eq (length values) 0)) empty_values) _ a in
      let (_, _, c) = >>=-eq-ok (validate_label_key labels key) _ b in
      let (_, _, d) = >>=-eq-ok (ensure (is_slice_operator op) bad_operator) _ c in
      let (_, _, e) = >>=-eq-ok (validate_values labels values) _ d in ok-injective e

  match-added :
      (s : SliceSelector) (key op : String) (values : List String) (m : SliceMatcher)
      (target : KeyToSlice)
      → record { key = key; operator = op; desired_values = values } ≡ m
      → all_match (selector_add s m).matchers target
        ≡ (all_match s.matchers target && slice_matches op (lookup key target) values)
  unfolding selector_add
  match-added s key op values m target e =
      all_match-append s.matchers (m ∷ []) target
      ∙ (unfold all_match in
          rw
            (
              ← e,
              matcher_match-eq (record { key = key; operator = op; desired_values = values })
                  target,
            )
            (ground arith))

  add_slices-match :
      (slices : Dict (List String)) (s : SliceSelector) {s' : SliceSelector} (target : KeyToSlice)
      → add_slices labels slices s ≡ ok s'
      → (s'.match_fn ≡ s.match_fn)
        × (all_match s'.matchers target ≡ (all_match s.matchers target && slices_met target slices))
  unfolding add_slices
  add_slices-match [] s {s' = s'} target h =
      let e : s ≡ s' = ok-injective h in (ap (λ x. x.match_fn) (sym e), rw (← e) (ground arith))
  add_slices-match ((k, v) ∷ slices) s {s' = s'} target h =
      let (m, p, q) = >>=-eq-ok (new_slice_matcher labels k op_equals v) _ h in
      let (fn, all) = add_slices-match slices (selector_add s m) {s' = s'} target q in
      (
        fn,
        all
            ∙ ground (
              arith,
              match-added s k op_equals v m target (new_slice_matcher-eq k op_equals v p),
            ),
      )

  add_expressions-match :
      (exprs : List SliceSelectorRequirement) (s : SliceSelector) {s' : SliceSelector}
      (target : KeyToSlice)
      → add_expressions labels exprs s ≡ ok s'
      → (s'.match_fn ≡ s.match_fn)
        × (all_match s'.matchers target ≡ (all_match s.matchers target && all_met target exprs))
  unfolding add_expressions
  add_expressions-match [] s {s' = s'} target h =
      let e : s ≡ s' = ok-injective h in (ap (λ x. x.match_fn) (sym e), rw (← e) (ground arith))
  add_expressions-match (r ∷ exprs) s {s' = s'} target h =
      let (m, p, q) = >>=-eq-ok (new_slice_matcher labels r.key r.operator r.values) _ h in
      let (fn, all) = add_expressions-match exprs (selector_add s m) {s' = s'} target q in
      (
        fn,
        all
            ∙ ground (
              arith,
              match-added s r.key r.operator r.values m target
                  (new_slice_matcher-eq r.key r.operator r.values p),
            ),
      )

  -- A selector that is built matches a target exactly if the target meets every entry of the map, by
  -- the operator Equals, and every expression, by its own operator.
  pub selector_match-eq :
      (config : SliceSelectorConfig) (target : KeyToSlice) {s : SliceSelector}
      → new_slice_selector labels config ≡ ok s
      → selector_match s target
        ≡ (slices_met target config.match_slice && all_met target config.match_slice_expressions)
  unfolding new_slice_selector selector_match
  selector_match-eq config target {s = s} h = elim (Bool-cases test) [
    | inl empty ↦
        let e : new_slice_selector_always_true ≡ s =
          ok-injective (rw (empty, new_slice_selector) at h) in
        let yes_fn : some (λ (k : KeyToSlice). true) ≡ s.match_fn =
          ap (λ x. x.match_fn) (unfold new_slice_selector_always_true in e) in
        rw (← yes_fn, selector_match)
          (sym (no_requirements target config.match_slice config.match_slice_expressions empty))
    | inr full ↦
        let h' = rw (full, new_slice_selector) at h in
        let (m, p, q) = >>=-eq-ok (add_slices labels config.match_slice no_matchers) _ h' in
        let (fn₁, all₁) = add_slices-match config.match_slice no_matchers {s' = m} target p in
        let (fn₂, all₂) =
          add_expressions-match config.match_slice_expressions m {s' = s} target q in
        rw (fn₂, fn₁, selector_match) (all₂ ∙ rw all₁ (unfold all_match in refl))
  ]
    where
      test : Bool
      test = nat_eq (length config.match_slice + length config.match_slice_expressions) 0

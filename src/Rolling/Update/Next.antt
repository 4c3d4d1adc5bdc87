-- ===== src/Rolling/Update/Next.antt =====
-- Which child is moved in a pass.
use mathlib.Core.Path.{subst}
use metac.Prelude.{
  ℕ, zero, suc, arith, String, false, ◌||◌, ◌==◌, nat_eq, map, sym, ◌∙◌, Bool, not, ◌&&◌, ◌≡◌, refl,
  Option, none, some, List, [], ◌∷◌, inl, inr, Bool-cases, if◌then◌else◌,
}
use metac.Prelude.Int.{ℤ}
use metac.Api.{Object, Api, Json, Nested}
use metac.Registry.{AnyUnstructRegistry}
use metac.Prelude.Results.{Result, ok, err}
use metac.Revision.Children.{has_child, NoRepeats, has_child-add_child, has_child-remove_child}
use metac.Rolling.{UpdateStrategyMap, is_rolling}
use metac.Rolling.Update.{
  ParentRevision, StopError, Rollout, Rolled, waiting, progressing, on_latest, drop_child, group_of,
  claim_of, is_latest, should_continue_rolling, push_or_wait, roll_next,
}

abbrev pub by_latest : Option ℕ → Bool
by_latest none = false
by_latest (some n) = nat_eq n 0

by_latest-eq : (o : Option ℕ) → by_latest o ≡ is_latest o
by_latest-eq none = refl
by_latest-eq (some zero) = refl
by_latest-eq (some (suc n)) = ground arith

-- The kind of the child has a rolling strategy, and the latest revision does not claim the child.
abbrev pub is_pending : Api → UpdateStrategyMap → Rollout → Object → Bool
is_pending api strategies st child =
    is_rolling strategies (group_of api child) (api.get_kind child)
    && not (by_latest (claim_of (group_of api child) (api.get_kind child) (api.get_name child) st))

abbrev pub first_pending : Api → UpdateStrategyMap → Rollout → List Object → Option Object
first_pending api strategies st [] = none
first_pending api strategies st (child ∷ children) =
    if is_pending api strategies st child
    then some child
    else first_pending api strategies st children

-- No revision lists a name twice in a group.
abbrev pub AllNoRepeats : List ParentRevision → Type 0
AllNoRepeats [] = Unit
AllNoRepeats (pr ∷ revisions) = NoRepeats pr.children × AllNoRepeats revisions

abbrev pub is_child : String → String → String → String → String → String → Bool
is_child g k name h l m = ((g == h) && (k == l)) && (name == m)

-- The revision has the child and what it had, and is otherwise the same.
abbrev pub Given : String → String → String → ParentRevision → ParentRevision → Type 0
Given g k name pr pr' =
    (record pr' { children = pr.children } ≡ pr)
    × ((h l m : String)
        → has_child h l m pr'.children ≡ (is_child g k name h l m || has_child h l m pr.children))

-- The revision has what it had but for the child, and is otherwise the same.
abbrev pub Taken : String → String → String → ParentRevision → ParentRevision → Type 0
Taken g k name pr pr' =
    (record pr' { children = pr.children } ≡ pr)
    × ((h l m : String)
        → has_child h l m pr'.children
          ≡ (not (is_child g k name h l m) && has_child h l m pr.children))

abbrev pub AllTaken : String → String → String → List ParentRevision → List ParentRevision → Type 0
AllTaken g k name [] [] = Unit
AllTaken g k name (pr ∷ revisions) (pr' ∷ revisions') =
    Taken g k name pr pr' × AllTaken g k name revisions revisions'
AllTaken g k name [] (pr' ∷ revisions') = ⊥
AllTaken g k name (pr ∷ revisions) [] = ⊥

abbrev pub Moved : String → String → String → Rollout → Rollout → Type 0
Moved g k name st st' =
    (st'.claims ≡ st.claims)
    × Given g k name st.latest st'.latest
    × AllTaken g k name st.others st'.others

-- What a pass does, by the first child that is to be moved and by what the checks say.
abbrev pub Outcome :
    Api → Option Object → Result StopError (Unit {0}) → Rollout → Rolled × Rollout → Type 0
Outcome api none check st r = r ≡ (on_latest, st)
Outcome api (some child) (err e) st r = r ≡ (waiting e, st)
Outcome api (some child) (ok done) st r =
    (r.0 ≡ progressing (api.get_kind child) (api.get_name child))
    × Moved (group_of api child) (api.get_kind child) (api.get_name child) st r.1

drop_child-AllTaken :
    (g k name : String) (revisions : List ParentRevision)
    → AllNoRepeats revisions
    → AllTaken g k name revisions (map (drop_child g k name) revisions)
drop_child-AllTaken g k name [] u = tt
drop_child-AllTaken g k name (pr ∷ revisions) u = (
  (refl, λ h l m. has_child-remove_child g k name h l m pr.children u.0),
  drop_child-AllTaken g k name revisions u.1,
)

module _ (api : Api) (json : Json) (nested : Nested) (get_generation : Object → ℤ)
    (strategies : UpdateStrategyMap) (observed : AnyUnstructRegistry) where
  abbrev pub roll_first : Option Object → Rollout → Rolled × Rollout
  roll_first none st = (on_latest, st)
  roll_first (some child) st =
      push_or_wait api json nested get_generation strategies observed (group_of api child)
        (api.get_kind child) (api.get_name child) st
        (should_continue_rolling api json nested get_generation strategies observed st.latest)

  roll_next-eq-roll_first :
      (children : List Object) (st : Rollout)
      → roll_next api json nested get_generation strategies observed children st
        ≡ roll_first (first_pending api strategies st children) st
  unfolding roll_next
  roll_next-eq-roll_first [] st = refl
  roll_next-eq-roll_first (child ∷ children) st =
      elim (Bool-cases (is_rolling strategies (group_of api child) (api.get_kind child))) [
        | inr fixed ↦ rw fixed (roll_next-eq-roll_first children st)
        | inl rolls ↦
            elim (Bool-cases (
              by_latest
                (claim_of (group_of api child) (api.get_kind child) (api.get_name child) st))) [
                  | inl mine ↦
                      let mine' =
                        sym (
                          by_latest-eq (
                            claim_of (group_of api child) (api.get_kind child) (api.get_name child)
                              st))
                        ∙ mine in
                      rw (rolls, mine, mine') (roll_next-eq-roll_first children st)
                  | inr other ↦
                      let other' =
                        sym (
                          by_latest-eq (
                            claim_of (group_of api child) (api.get_kind child) (api.get_name child)
                              st))
                        ∙ other in
                      rw (rolls, other, other') refl
                ]
      ]

  roll_first-Outcome :
      (o : Option Object) (st : Rollout)
      → AllNoRepeats st.others
      → Outcome api o
          (should_continue_rolling api json nested get_generation strategies observed st.latest)
          st
          (roll_first o st)
  roll_first-Outcome none st u = refl
  roll_first-Outcome (some child) st u =
      go (should_continue_rolling api json nested get_generation strategies observed st.latest)
    where
      go :
          (check : Result StopError (Unit {0}))
          → Outcome api (some child) check st (
              push_or_wait api json nested get_generation strategies observed
                (group_of api child)
                (api.get_kind child)
                (api.get_name child)
                st
                check)
      go (err e) = refl
      go (ok done) = (
        refl,
        (
          refl,
          (
            refl,
            λ h l m.
                has_child-add_child (group_of api child) (api.get_kind child) (api.get_name child) h
                  l m st.latest.children,
          ),
          drop_child-AllTaken (group_of api child) (api.get_kind child) (api.get_name child)
              st.others u,
        ),
      )

  -- Let no revision but the latest list a name twice in a group. A pass moves one child at most: the first
  -- child of the hook whose kind rolls and that the latest revision does not claim. If the checks fail, the
  -- pass waits with their error and changes nothing. Otherwise it reports the child as progressing, adds it
  -- to what the latest revision lists, and takes it out of what every other revision lists; no other child
  -- comes or goes there, and the claims stay. If there is no such child, the rollout is complete and nothing
  -- is changed.
  pub roll_next_lem :
      (children : List Object) (st : Rollout)
      → AllNoRepeats st.others
      → Outcome api
          (first_pending api strategies st children)
          (should_continue_rolling api json nested get_generation strategies observed st.latest)
          st
          (roll_next api json nested get_generation strategies observed children st)
  roll_next_lem children st u =
      subst
        (λ (r : Rolled × Rollout).
          Outcome api (first_pending api strategies st children)
            (should_continue_rolling api json nested get_generation strategies observed st.latest)
            st r)
        (sym (roll_next-eq-roll_first children st))
        ((roll_first-Outcome (first_pending api strategies st children) st u))

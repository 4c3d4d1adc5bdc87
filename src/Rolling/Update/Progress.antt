-- ===== src/Rolling/Update/Progress.antt =====
-- What a pass does for the next one.
use metac.Prelude.{
  ℕ, suc, nat_eq, Option, String, true, false, ◌≡◌, refl, ap, ◌∙◌, some, List, [], ◌∷◌, map,
  contains, eq_refl, contains-append, inl, inr, Bool-cases, arith,
}
use metac.Prelude.Int.{ℤ}
use metac.Prelude.Text.{has_byte}
use metac.Api.{Object, Api, Json, Nested}
use metac.Registry.{AnyUnstructRegistry}
use metac.Revision.{
  RevisionChildren, is_group, add_child, remove_child, keep_claiming, count_children,
}
use metac.Revision.Claims.{claimed_by}
use metac.Rolling.{UpdateStrategyMap, ClaimMap, is_rolling, is_desired}
use metac.Rolling.Claims.{DotFree, AllDotFree, listed, sync_revision_claims-lem}
use metac.Rolling.Update.{
  ParentRevision, Rollout, drop_child, take_child, push_child, numbered, claimed_rollout,
  claim_rollout, claim_of,
}

listed-add_child :
    (g k n : String) (cks : List RevisionChildren) → listed g k n (add_child g k n cks) ≡ true
unfolding add_child contains
listed-add_child g k n [] = ground (arith, eq_refl g, eq_refl k, eq_refl n)
listed-add_child g k n (ck ∷ cks) = elim (Bool-cases (is_group g k ck)) [
  | inl here ↦ elim (Bool-cases (contains n ck.names)) [
    | inl old ↦ rw (here, old) (ground (arith, here, old))
    | inr new ↦
        rw (here, new) (ground (arith, here, contains-append n ck.names (n ∷ []), eq_refl n))
  ]
  | inr there ↦ rw there (ground (arith, listed-add_child g k n cks))
]

DotFree-add_child :
    (g k n : String) (cks : List RevisionChildren)
    → has_byte b'.' k ≡ false
    → DotFree cks
    → DotFree (add_child g k n cks)
unfolding add_child
DotFree-add_child g k n [] hk d = (hk, tt)
DotFree-add_child g k n (ck ∷ cks) hk d = elim (Bool-cases (is_group g k ck)) [
  | inl here ↦ elim (Bool-cases (contains n ck.names)) [
    | inl old ↦ rw (here, old) d
    | inr new ↦ rw (here, new) d
  ]
  | inr there ↦ rw there (d.0, DotFree-add_child g k n cks hk d.1)
]

DotFree-remove_child :
    (g k n : String) (cks : List RevisionChildren) → DotFree cks → DotFree (remove_child g k n cks)
unfolding remove_child
DotFree-remove_child g k n [] d = tt
DotFree-remove_child g k n (ck ∷ cks) d = elim (Bool-cases (is_group g k ck)) [
  | inl here ↦ rw here d
  | inr there ↦ rw there (d.0, DotFree-remove_child g k n cks d.1)
]

-- The kinds of the children of all revisions have no dot.
abbrev pub AllPlain : List ParentRevision → Type 0
AllPlain [] = Unit
AllPlain (pr ∷ revisions) = DotFree pr.children × AllPlain revisions

abbrev pub children_of : ParentRevision → Option (List RevisionChildren)
children_of pr = some pr.children

AllPlain-drop_child :
    (g k n : String) (revisions : List ParentRevision)
    → AllPlain revisions
    → AllPlain (map (drop_child g k n) revisions)
AllPlain-drop_child g k n [] d = tt
AllPlain-drop_child g k n (pr ∷ revisions) d =
    (DotFree-remove_child g k n pr.children d.0, AllPlain-drop_child g k n revisions d.1)

AllPlain-keep_claiming :
    (revisions : List ParentRevision)
    → AllPlain revisions
    → AllPlain (keep_claiming children_of revisions)
unfolding keep_claiming
AllPlain-keep_claiming [] d = tt
AllPlain-keep_claiming (pr ∷ revisions) d =
    elim (Bool-cases (nat_eq (count_children (children_of pr)) 0)) [
      | inl gone ↦ rw gone (AllPlain-keep_claiming revisions d.1)
      | inr kept ↦ rw kept (d.0, AllPlain-keep_claiming revisions d.1)
    ]

AllPlain-numbered :
    (i : ℕ) (revisions : List ParentRevision)
    → AllPlain revisions
    → AllDotFree (numbered i revisions)
AllPlain-numbered i [] d = tt
AllPlain-numbered i (pr ∷ revisions) d = (d.0, AllPlain-numbered (suc i) revisions d.1)

-- The revisions that are kept after a pass are the latest and those with children.
abbrev pub next_rollout : UpdateStrategyMap → Rollout → Rollout
next_rollout strategies st =
    claim_rollout strategies st.latest (keep_claiming children_of st.others)

claims-claimed_rollout :
    (latest : ParentRevision) (others : List ParentRevision)
    (found : ClaimMap ℕ × List (ℕ × List RevisionChildren))
    → (claimed_rollout latest others found).claims ≡ found.0
claims-claimed_rollout latest others (claims, []) = refl
claims-claimed_rollout latest others (claims, (n, cks) ∷ found) = refl

module _ (api : Api) (json : Json) (nested : Nested) (get_generation : Object → ℤ)
    (strategies : UpdateStrategyMap) (observed : AnyUnstructRegistry) where
  -- Let the kinds have no dot. A child that a pass gives to the latest revision is claimed by it when the
  -- claims are next computed from what the revisions list, after those without children were pruned, if the
  -- strategy of its kind is still a rolling one and the latest revision still desires it under its name.
  pub push_child-claimed :
      (g k name : String) (st : Rollout)
      → has_byte b'.' k ≡ false
      → AllPlain (st.latest ∷ st.others)
      → is_rolling strategies g k ≡ true
      → is_desired st.latest.desired g k name ≡ true
      → claim_of g k name (
          next_rollout strategies
            (push_child api json nested get_generation strategies observed g k name st))
        ≡ some 0
  unfolding claim_rollout
  push_child-claimed g k name st hk d rolls desired =
      let latest = take_child g k name st.latest in
      let others = keep_claiming children_of (map (drop_child g k name) st.others) in
      ap (λ (c : ClaimMap ℕ). claimed_by g k name c) (claims-claimed_rollout latest others _)
      ∙ (sync_revision_claims-lem strategies st.latest.desired g k name hk 0 latest.children
            (numbered 1 others)
            (
              DotFree-add_child g k name st.latest.children hk d.0,
              AllPlain-numbered 1 others
                  (AllPlain-keep_claiming _ (AllPlain-drop_child g k name st.others d.1)),
            )).0
          rolls desired (listed-add_child g k name st.latest.children)

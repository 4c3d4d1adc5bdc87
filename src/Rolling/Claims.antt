-- ===== src/Rolling/Claims.antt =====
-- The claims that syncRevisionClaims makes, over all groups and revisions.
use metac.Prelude.{
  String, Bool, true, false, ◌&&◌, ◌||◌, ◌≡◌, ◌⊎◌, refl, sym, ap, ◌∙◌, Option, none, some, List, [],
  ◌∷◌, lookup, contains, inl, inr, arith, Bool-cases, eq_iff,
}
use metac.Prelude.Text.{has_byte}
use metac.Registry.{AnyUnstructRegistry}
use metac.Revision.{RevisionChildren, is_group, get_kind}
use metac.Revision.Claims.{claimed_by}
use metac.Rolling.{
  UpdateStrategyMap, ClaimMap, is_desired, keep_group, is_rolling, claim_names, claim_groups,
  claim_revisions, sync_revision_claims,
}
use metac.Rolling.Names.{
  Step, Step-refl, Step-trans, claim_names-Step, IsClaimed, IsClaimed-keep, claim_names-IsClaimed,
}

-- The kinds of the groups have no dot.
abbrev pub DotFree : List RevisionChildren → Type 0
DotFree [] = Unit
DotFree (ck ∷ cks) = (has_byte b'.' ck.kind ≡ false) × DotFree cks

abbrev pub AllDotFree : {P : Type 0} → List (P × List RevisionChildren) → Type 0
AllDotFree [] = Unit
AllDotFree ((pr, cks) ∷ revisions) = DotFree cks × AllDotFree revisions

-- A group of the API group and kind has the name.
abbrev pub listed : String → String → String → List RevisionChildren → Bool
listed h l m [] = false
listed h l m (ck ∷ cks) = (is_group h l ck && contains m ck.names) || listed h l m cks

no_claims : {P : Type 0} (h l m : String) → claimed_by {P = P} h l m [] ≡ none
unfolding get_kind lookup
no_claims h l m = refl

module _ {P : Type 0} (strategies : UpdateStrategyMap) (desired : AnyUnstructRegistry)
    (h l m : String) (hl : has_byte b'.' l ≡ false) where
  claim_groups-Step :
      (pr : P) (cks : List RevisionChildren) (c : ClaimMap P) (acc : List RevisionChildren)
      → DotFree cks
      → Step desired h l m hl c (claim_groups strategies desired pr cks c acc).0 pr
  unfolding claim_groups
  claim_groups-Step pr [] c acc d = Step-refl desired h l m hl c pr
  claim_groups-Step pr (ck ∷ cks) c acc d =
      elim (Bool-cases (is_rolling strategies ck.api_group ck.kind)) [
        | inr fixed ↦ rw (fixed, claim_groups) (claim_groups-Step pr cks c acc d.1)
        | inl rolling ↦
            let found = claim_names desired ck.api_group ck.kind pr ck.names c [] in
            rw (rolling, claim_groups)
              (Step-trans desired h l m hl c found.0 _ pr
                (claim_names-Step desired h l m hl ck.api_group ck.kind pr ck.names c [] d.0)
                (claim_groups-Step pr cks found.0 (keep_group ck found.1 acc) d.1))
      ]

  claim_groups-IsClaimed :
      (pr : P) (cks : List RevisionChildren) (c : ClaimMap P) (acc : List RevisionChildren)
      → DotFree cks
      → is_rolling strategies h l ≡ true
      → is_desired desired h l m ≡ true
      → listed h l m cks ≡ true
      → IsClaimed desired h l m hl (claim_groups strategies desired pr cks c acc).0
  unfolding claim_groups
  claim_groups-IsClaimed pr [] c acc d r w t = cc
  claim_groups-IsClaimed pr (ck ∷ cks) c acc d r w t =
      elim (Bool-cases (is_group h l ck && contains m ck.names)) [
        | inl here ↦
            let eg : ck.api_group ≡ h = (eq_iff ck.api_group h).0 (ground arith) in
            let ek : ck.kind ≡ l = (eq_iff ck.kind l).0 (ground arith) in
            let in_names : contains m ck.names ≡ true = ground arith in
            let rolling : is_rolling strategies ck.api_group ck.kind ≡ true = rw (eg, ek) r in
            let found = claim_names desired ck.api_group ck.kind pr ck.names c [] in
            rw (rolling, claim_groups)
              (IsClaimed-keep desired h l m hl found.0 _ pr
                (claim_groups-Step pr cks found.0 (keep_group ck found.1 acc) d.1)
                (rw (eg, ek) (claim_names-IsClaimed desired h l m hl pr ck.names c [] w in_names)))
        | inr elsewhere ↦
            let later : listed h l m cks ≡ true = ground arith in
            elim (Bool-cases (is_rolling strategies ck.api_group ck.kind)) [
              | inr fixed ↦
                  rw (fixed, claim_groups) (claim_groups-IsClaimed pr cks c acc d.1 r w later)
              | inl rolling ↦
                  rw (rolling, claim_groups) (claim_groups-IsClaimed pr cks _ _ d.1 r w later)
            ]
      ]

  -- Claims that were made stay, and new ones are of desired children alone.
  claim_revisions-keep :
      (revisions : List (P × List RevisionChildren)) (c : ClaimMap P)
      → AllDotFree revisions
      → ((p : P)
          → claimed_by h l m c ≡ some p
          → claimed_by h l m (claim_revisions strategies desired revisions c).0 ≡ some p)
        × ((p : P)
            → claimed_by h l m (claim_revisions strategies desired revisions c).0 ≡ some p
            → (claimed_by h l m c ≡ some p) ⊎ (is_desired desired h l m ≡ true))
  unfolding claim_revisions
  claim_revisions-keep [] c d = (λ p e. e, λ p e. inl e)
  claim_revisions-keep ((pr, cks) ∷ revisions) c d =
      let found = claim_groups strategies desired pr cks c [] in
      let s = claim_groups-Step pr cks c [] d.0 in
      let rest = claim_revisions-keep revisions found.0 d.1 in
      (
        λ p e. rest.0 p (s.0 p e),
        λ p e. elim (rest.1 p e) [
          | inr w ↦ inr w
          | inl q ↦ elim (s.1 p q) [ inl a ↦ inl a | inr a ↦ inr a.0 ]
        ],
      )

  -- Let the kinds have no dot. Every child that the latest revision lists, that it desires, and whose
  -- kind has a rolling strategy, is claimed by the latest revision, whatever the other revisions list;
  -- and whichever child is claimed by some revision is desired by the latest.
  pub sync_revision_claims-lem :
      (latest : P) (cks : List RevisionChildren) (others : List (P × List RevisionChildren))
      → AllDotFree ((latest, cks) ∷ others)
      → (is_rolling strategies h l ≡ true
          → is_desired desired h l m ≡ true
          → listed h l m cks ≡ true
          → claimed_by h l m (sync_revision_claims strategies desired ((latest, cks) ∷ others)).0
            ≡ some latest)
        × ((p : P)
            → claimed_by h l m (sync_revision_claims strategies desired ((latest, cks) ∷ others)).0
              ≡ some p
            → is_desired desired h l m ≡ true)
  unfolding sync_revision_claims claim_revisions
  sync_revision_claims-lem latest cks others d =
      let found = claim_groups strategies desired latest cks [] [] in
      let s = claim_groups-Step latest cks [] [] d.0 in
      let rest = claim_revisions-keep others found.0 d.1 in
      (
        λ r w t. rest.0 latest (first _ (claim_groups-IsClaimed latest cks [] [] d.0 r w t) s.1),
        λ p e. elim (rest.1 p e) [
          | inr w ↦ w
          | inl q ↦ elim (s.1 p q) [ inl a ↦ absurd (nobody p a) | inr a ↦ a.0 ]
        ],
      )
    where
      nobody : (p : P) → claimed_by h l m [] ≡ some p → ⊥
      nobody p e = cc (sym (no_claims h l m) ∙ e)

      first :
          (o : Option P)
          → (p : P) × (o ≡ some p)
          → ((p : P)
              → o ≡ some p
              → (claimed_by h l m [] ≡ some p) ⊎ ((is_desired desired h l m ≡ true) × (p ≡ latest)))
          → o ≡ some latest
      first o (p, e) back = elim (back p e) [
        | inl a ↦ absurd (nobody p a)
        | inr a ↦ e ∙ ap some a.1
      ]

-- ===== src/Rolling/Dropped.antt =====
-- Names that a revision no longer claims.
use metac.Prelude.{
  String, Bool, true, false, not, ◌||◌, ◌≡◌, refl, ap, sym, ◌∙◌, List, [], ◌∷◌, ◌++◌, has, contains,
  ◌==◌, eq_iff, eq_refl, inl, inr, Bool-cases, arith,
}
use metac.Value.{entries}
use metac.Registry.{AnyUnstructRegistry}
use metac.Revision.{RevisionChildren, is_group, get_kind, set_parent_revision}
use metac.Rolling.{
  UpdateStrategyMap, ClaimMap, is_desired, is_rolling, keep_group, claim_names, claim_groups,
}
use metac.Rolling.Claims.{listed}

abbrev is_full : List String → Bool
is_full [] = false
is_full (name ∷ names) = true

is_full-append : (xs : List String) (x : String) → is_full (xs ++ x ∷ []) ≡ true
is_full-append [] x = refl
is_full-append (y ∷ xs) x = refl

listed-append :
    (g k n : String) (cks : List RevisionChildren) (ck : RevisionChildren)
    → listed g k n cks ≡ true
    → listed g k n (cks ++ ck ∷ []) ≡ true
listed-append g k n [] ck h = cc
listed-append g k n (first ∷ cks) ck h = elim (Bool-cases (listed g k n cks)) [
  | inl later ↦ ground (arith, listed-append g k n cks ck later)
  | inr here ↦ ground (arith, here)
]

listed-last :
    (g k n : String) (cks : List RevisionChildren) (ck : RevisionChildren)
    → is_group g k ck ≡ true
    → contains n ck.names ≡ true
    → listed g k n (cks ++ ck ∷ []) ≡ true
listed-last g k n [] ck same there = ground arith
listed-last g k n (first ∷ cks) ck same there = ground (arith, listed-last g k n cks ck same there)

keep_group-listed :
    (g k n : String) (ck : RevisionChildren) (names : List String) (cks : List RevisionChildren)
    → listed g k n cks ≡ true
    → listed g k n (keep_group ck names cks) ≡ true
keep_group-listed g k n ck [] cks h = h
keep_group-listed g k n ck (name ∷ names) cks h = listed-append g k n cks ck h

keep_group-last :
    (g k n : String) (ck : RevisionChildren) (names : List String) (cks : List RevisionChildren)
    → is_full names ≡ true
    → is_group g k ck ≡ true
    → contains n ck.names ≡ true
    → listed g k n (keep_group ck names cks) ≡ true
keep_group-last g k n ck [] cks full same there = cc full
keep_group-last g k n ck (name ∷ names) cks full same there = listed-last g k n cks ck same there

module _ {P : Type 0} (strategies : UpdateStrategyMap) (desired : AnyUnstructRegistry)
    (pr : P) where
  -- A name that is not desired, or is claimed already, is passed over.
  abbrev passes : String → String → ClaimMap P → String → Bool
  passes g k c name = not (is_desired desired g k name) || has name (entries (get_kind g k c))

  claim_names-pass :
      (g k name : String) (names : List String) (c : ClaimMap P) (kept : List String)
      → passes g k c name ≡ true
      → claim_names desired g k pr (name ∷ names) c kept ≡ claim_names desired g k pr names c kept
  unfolding claim_names
  claim_names-pass g k name names c kept p =
      go (is_desired desired g k name) (has name (entries (get_kind g k c))) p
    where
      go :
          (w o : Bool)
          → (not w || o) ≡ true
          → elim w as (λ b. ClaimMap P × List String) [
            | false ↦ claim_names desired g k pr names c kept
            | true ↦ elim o as (λ b. ClaimMap P × List String) [
              | true ↦ claim_names desired g k pr names c kept
              | false ↦
                  claim_names desired g k pr names
                    (set_parent_revision g k name pr c)
                    (kept ++ name ∷ [])
            ]
          ]
            ≡ claim_names desired g k pr names c kept
      go false o q = refl
      go true true q = refl
      go true false q = cc

  claim_names-take :
      (g k name : String) (names : List String) (c : ClaimMap P) (kept : List String)
      → passes g k c name ≡ false
      → claim_names desired g k pr (name ∷ names) c kept
        ≡ claim_names desired g k pr names (set_parent_revision g k name pr c) (kept ++ name ∷ [])
  unfolding claim_names
  claim_names-take g k name names c kept p =
      go (is_desired desired g k name) (has name (entries (get_kind g k c))) p
    where
      go :
          (w o : Bool)
          → (not w || o) ≡ false
          → elim w as (λ b. ClaimMap P × List String) [
            | false ↦ claim_names desired g k pr names c kept
            | true ↦ elim o as (λ b. ClaimMap P × List String) [
              | true ↦ claim_names desired g k pr names c kept
              | false ↦
                  claim_names desired g k pr names
                    (set_parent_revision g k name pr c)
                    (kept ++ name ∷ [])
            ]
          ]
            ≡ claim_names desired g k pr names
                (set_parent_revision g k name pr c)
                (kept ++ name ∷ [])
      go false o q = cc
      go true true q = cc
      go true false q = refl

  -- Names that were kept stay kept.
  claim_names-full :
      (g k : String) (names : List String) (c : ClaimMap P) (kept : List String)
      → is_full kept ≡ true
      → is_full (claim_names desired g k pr names c kept).1 ≡ true
  claim_names-full g k [] c kept full = unfold claim_names in full
  claim_names-full g k (name ∷ names) c kept full = elim (Bool-cases (passes g k c name)) [
    | inl p ↦ rw (claim_names-pass g k name names c kept p) (claim_names-full g k names c kept full)
    | inr p ↦ rw (claim_names-take g k name names c kept p) (
        claim_names-full g k names (set_parent_revision g k name pr c) (kept ++ name ∷ [])
          (is_full-append kept name))
  ]

  -- A desired name that is free is kept, whatever stands before it.
  claim_names-kept :
      (g k : String) (names : List String) (c : ClaimMap P) (name : String)
      → contains name names ≡ true
      → passes g k c name ≡ false
      → is_full (claim_names desired g k pr names c []).1 ≡ true
  unfolding contains
  claim_names-kept g k [] c name there free = cc
  claim_names-kept g k (first ∷ names) c name there free = elim (Bool-cases (passes g k c first)) [
    | inl p ↦
        rw (claim_names-pass g k first names c [] p)
          (claim_names-kept g k names c name (later p) free)
    | inr p ↦
        rw (claim_names-take g k first names c [] p)
          (claim_names-full g k names (set_parent_revision g k first pr c) (first ∷ []) refl)
  ]
    where
      later : passes g k c first ≡ true → contains name names ≡ true
      later p = elim (Bool-cases (name == first)) [
        | inl e ↦ cc (sym (ap (passes g k c) ((eq_iff name first).0 e)) ∙ free, p)
        | inr e ↦ rest there e
      ]
        where
          rest :
              ((first == name) || contains name names) ≡ true
              → (name == first) ≡ false
              → contains name names ≡ true
          rest h e = ground (arith, eq_iff first name, eq_iff name first)

  claim_groups-skip :
      (ck : RevisionChildren) (cks : List RevisionChildren) (c : ClaimMap P)
      (children : List RevisionChildren)
      → is_rolling strategies ck.api_group ck.kind ≡ false
      → claim_groups strategies desired pr (ck ∷ cks) c children
        ≡ claim_groups strategies desired pr cks c children
  unfolding claim_groups
  claim_groups-skip ck cks c children h = rw (h, claim_groups) refl

  claim_groups-step :
      (ck : RevisionChildren) (cks : List RevisionChildren) (c : ClaimMap P)
      (children : List RevisionChildren)
      → is_rolling strategies ck.api_group ck.kind ≡ true
      → claim_groups strategies desired pr (ck ∷ cks) c children
        ≡ claim_groups strategies desired pr cks
            (claim_names desired ck.api_group ck.kind pr ck.names c []).0
            (keep_group ck (claim_names desired ck.api_group ck.kind pr ck.names c []).1 children)
  unfolding claim_groups
  claim_groups-step ck cks c children h = rw (h, claim_groups) refl

  claim_groups-listed :
      (g k n : String) (cks : List RevisionChildren) (c : ClaimMap P)
      (children : List RevisionChildren)
      → listed g k n children ≡ true
      → listed g k n (claim_groups strategies desired pr cks c children).1 ≡ true
  claim_groups-listed g k n [] c children h = unfold claim_groups in h
  claim_groups-listed g k n (ck ∷ cks) c children h =
      elim (Bool-cases (is_rolling strategies ck.api_group ck.kind)) [
        | inr fixed ↦
            ap (λ (r : ClaimMap P × List RevisionChildren). listed g k n r.1)
              (claim_groups-skip ck cks c children fixed)
            ∙ claim_groups-listed g k n cks c children h
        | inl rolls ↦
            let found = claim_names desired ck.api_group ck.kind pr ck.names c [] in
            ap (λ (r : ClaimMap P × List RevisionChildren). listed g k n r.1)
              (claim_groups-step ck cks c children rolls)
            ∙ claim_groups-listed g k n cks found.0 (keep_group ck found.1 children)
                (keep_group-listed g k n ck found.1 children h)
      ]

  -- Let a group be of a kind with a rolling strategy, and list a name that is desired and not yet claimed.
  -- Then the new groups of the revision list every name of that group, also a name that is not desired any
  -- more, whatever groups the revision has before and after it.
  pub claim_groups-keeps_dropped :
      (ck : RevisionChildren) (cks : List RevisionChildren) (c : ClaimMap P)
      (children : List RevisionChildren) (dropped kept : String)
      → is_rolling strategies ck.api_group ck.kind ≡ true
      → contains kept ck.names ≡ true
      → is_desired desired ck.api_group ck.kind kept ≡ true
      → has kept (entries (get_kind ck.api_group ck.kind c)) ≡ false
      → contains dropped ck.names ≡ true
      → listed ck.api_group ck.kind dropped
          (claim_groups strategies desired pr (ck ∷ cks) c children).1
        ≡ true
  claim_groups-keeps_dropped ck cks c children dropped kept rolls there want free old =
      let found = claim_names desired ck.api_group ck.kind pr ck.names c [] in
      ap (λ (r : ClaimMap P × List RevisionChildren). listed ck.api_group ck.kind dropped r.1)
        (claim_groups-step ck cks c children rolls)
      ∙ claim_groups-listed ck.api_group ck.kind dropped cks found.0
          (keep_group ck found.1 children)
          (keep_group-last ck.api_group ck.kind dropped ck found.1 children
            (claim_names-kept ck.api_group ck.kind ck.names c kept there (rw (want, free) refl))
            (ground (arith, eq_refl ck.api_group, eq_refl ck.kind)) old)

-- ===== src/Rolling/Names.antt =====
-- The inner loop of syncRevisionClaims: the claims of the names of one group.
use metac.Prelude.{
  String, true, false, ◌&&◌, ◌≡◌, ◌⊎◌, sym, ◌∙◌, none, some, List, [], ◌∷◌, ◌++◌, has, ◌==◌,
  contains, inl, inr, arith, Bool-cases, has-is_some, lookup-eq-some, eq_iff,
}
use metac.Prelude.Text.{has_byte}
use metac.Value.{entries}
use metac.Registry.{AnyUnstructRegistry}
use metac.Revision.{get_kind, set_parent_revision}
use metac.Revision.Claims.{claimed_by, claimed_by-set_parent_revision}
use metac.Rolling.{ClaimMap, is_desired, claim_names}

unclaimed :
    {P : Type 0} (g k n : String) (c : ClaimMap P)
    → has n (entries (get_kind g k c)) ≡ false
    → claimed_by g k n c ≡ none
unclaimed g k n c h = ground (arith, has-is_some n (entries (get_kind g k c)))

module _ {P : Type 0} (desired : AnyUnstructRegistry) (h l m : String)
    (hl : has_byte b'.' l ≡ false) where
  -- One claim, of a child that is not claimed: what becomes of the child `m`.
  abbrev pub Step : ClaimMap P → ClaimMap P → P → Type 0
  Step c d pr =
      ((p : P) → claimed_by h l m c ≡ some p → claimed_by h l m d ≡ some p)
      × ((p : P)
          → claimed_by h l m d ≡ some p
          → (claimed_by h l m c ≡ some p) ⊎ ((is_desired desired h l m ≡ true) × (p ≡ pr)))

  set_parent_revision-Step :
      (g k n : String) (pr : P) (c : ClaimMap P)
      → has_byte b'.' k ≡ false
      → is_desired desired g k n ≡ true
      → has n (entries (get_kind g k c)) ≡ false
      → Step c (set_parent_revision g k n pr c) pr
  set_parent_revision-Step g k n pr c hk w u =
      let free = unclaimed g k n c u in
      let set = claimed_by-set_parent_revision g k n h l m pr c hk hl in
      elim (Bool-cases (((g == h) && (k == l)) && (n == m))) [
        | inr other ↦
            let same : claimed_by h l m (set_parent_revision g k n pr c) ≡ claimed_by h l m c =
              set ∙ rw other in
            (λ p e. same ∙ e, λ p e. inl (sym same ∙ e))
        | inl here ↦
            let eg : g ≡ h = (eq_iff g h).0 (ground arith) in
            let ek : k ≡ l = (eq_iff k l).0 (ground arith) in
            let en : n ≡ m = (eq_iff n m).0 (ground arith) in
            let none_here : claimed_by h l m c ≡ none = rw (← eg, ← ek, ← en) free in
            let wanted : is_desired desired h l m ≡ true = rw (← eg, ← ek, ← en) w in
            let now : claimed_by h l m (set_parent_revision g k n pr c) ≡ some pr = set ∙ rw here in
            (λ p e. cc, λ p e. inr (wanted, cc))
      ]

  pub Step-refl : (c : ClaimMap P) (pr : P) → Step c c pr
  Step-refl c pr = (λ p e. e, λ p e. inl e)

  pub Step-trans : (c d e : ClaimMap P) (pr : P) → Step c d pr → Step d e pr → Step c e pr
  Step-trans c d e pr s t =
      (λ p q. t.0 p (s.0 p q), λ p q. elim (t.1 p q) [ inl r ↦ s.1 p r | inr r ↦ inr r ])

  pub claim_names-Step :
      (g k : String) (pr : P) (names : List String) (c : ClaimMap P) (acc : List String)
      → has_byte b'.' k ≡ false
      → Step c (claim_names desired g k pr names c acc).0 pr
  unfolding claim_names
  claim_names-Step g k pr [] c acc hk = Step-refl c pr
  claim_names-Step g k pr (n ∷ names) c acc hk = elim (Bool-cases (is_desired desired g k n)) [
    | inr no_want ↦ rw (no_want, claim_names) (claim_names-Step g k pr names c acc hk)
    | inl want ↦ elim (Bool-cases (has n (entries (get_kind g k c)))) [
      | inl taken ↦ rw (want, taken, claim_names) (claim_names-Step g k pr names c acc hk)
      | inr free ↦
          rw (want, free, claim_names)
            (Step-trans c (set_parent_revision g k n pr c) _ pr
              (set_parent_revision-Step g k n pr c hk want free)
              (claim_names-Step g k pr names (set_parent_revision g k n pr c) (acc ++ n ∷ []) hk))
    ]
  ]

  -- The child is claimed by someone.
  abbrev pub IsClaimed : ClaimMap P → Type 0
  IsClaimed c = (p : P) × (claimed_by h l m c ≡ some p)

  pub IsClaimed-keep : (c d : ClaimMap P) (pr : P) → Step c d pr → IsClaimed c → IsClaimed d
  IsClaimed-keep c d pr s (p, e) = (p, s.0 p e)

  pub claim_names-IsClaimed :
      (pr : P) (names : List String) (c : ClaimMap P) (acc : List String)
      → is_desired desired h l m ≡ true
      → contains m names ≡ true
      → IsClaimed (claim_names desired h l pr names c acc).0
  unfolding contains claim_names
  claim_names-IsClaimed pr [] c acc w t = cc
  claim_names-IsClaimed pr (n ∷ names) c acc w t = elim (Bool-cases (n == m)) [
    | inr other ↦
        let later : contains m names ≡ true = ground arith in
        elim (Bool-cases (is_desired desired h l n)) [
          | inr no_want ↦ rw (no_want, claim_names) (claim_names-IsClaimed pr names c acc w later)
          | inl want ↦ elim (Bool-cases (has n (entries (get_kind h l c)))) [
            | inl taken ↦
                rw (want, taken, claim_names) (claim_names-IsClaimed pr names c acc w later)
            | inr free ↦ rw (want, free, claim_names) (claim_names-IsClaimed pr names _ _ w later)
          ]
        ]
    | inl here ↦
        let en : n ≡ m = (eq_iff n m).0 here in
        let want : is_desired desired h l n ≡ true = rw en w in
        elim (Bool-cases (has n (entries (get_kind h l c)))) [
          | inl taken ↦
              rw (want, taken, claim_names)
                (IsClaimed-keep c _ pr (claim_names-Step h l pr names c acc hl)
                  (rw en at (holder n c taken)))
          | inr free ↦
              rw (want, free, claim_names)
                (IsClaimed-keep (set_parent_revision h l n pr c) _ pr
                  (claim_names-Step h l pr names (set_parent_revision h l n pr c) (acc ++ n ∷ [])
                    hl)
                  (
                    pr,
                    claimed_by-set_parent_revision h l n h l m pr c hl hl
                        ∙ ground (arith, eq_iff h h, eq_iff l l),
                  ))
        ]
  ]
    where
      holder :
          (n : String) (c : ClaimMap P)
          → has n (entries (get_kind h l c)) ≡ true
          → (p : P) × (claimed_by h l n c ≡ some p)
      holder n c e = lookup-eq-some n (entries (get_kind h l c)) e

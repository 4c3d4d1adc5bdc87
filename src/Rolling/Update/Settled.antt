-- ===== src/Rolling/Update/Settled.antt =====
-- The claims before the move of a pass: children that no revision claims, or that need no change.
use metac.Prelude.{
  ℕ, zero, suc, String, Bool, true, false, ◌&&◌, ◌||◌, ◌≡◌, ◌⊎◌, refl, ap, ◌∙◌, Option, none, some,
  [], ◌∷◌, is_some, ◌==◌, eq_refl, eq_iff, inl, inr, Bool-cases, arith, if◌then◌else◌,
}
use metac.Prelude.Int.{ℤ}
use metac.Prelude.Text.{has_byte, split_once, split_once-first}
use metac.Api.{Object, Api, Json, Nested}
use metac.Registry.{
  AnyUnstructRegistry, Group, find_by_group_kind_name, parse_key_to_api_version_kind, kind_first,
  parse_api_version_to_group_version, is_group_kind,
}
use metac.Revision.Claims.{claimed_by-set_parent_revision}
use metac.Rolling.{UpdateStrategyMap, is_rolling}
use metac.Rolling.Update.{
  Rollout, claim_of, is_no_op, settle_child, settle_group, settle_if_rolling, settle_groups,
  give_to_latest, move_to_latest,
}

-- The kind of a key has no dot.
kind-dot_free :
    (key v k : String) → parse_key_to_api_version_kind key ≡ some (v, k) → has_byte b'.' k ≡ false
unfolding parse_key_to_api_version_kind
kind-dot_free key v k h = go (split_once b'.' key) (split_once-first b'.' key) h
  where
    go :
        (p : String × Option String)
        → has_byte b'.' p.0 ≡ false
        → kind_first p ≡ some (v, k)
        → has_byte b'.' k ≡ false
    go (kind, none) d e = cc e
    go (kind, some version) d e = let same : kind ≡ k = cc e in rw (← same) d

abbrev named : String → Group → Bool
named name [] = false
named name ((n, none) ∷ group) = named name group
named name ((n, some obj) ∷ group) = n == name || named name group

-- The registry has an object of the group, kind and name.
abbrev pub wanted : String → String → String → AnyUnstructRegistry → Bool
wanted g k name [] = false
wanted g k name ((key, group) ∷ desired) =
    (is_group_kind g k key && named name group) || wanted g k name desired

module _ (api : Api) (json : Json) (nested : Nested) (get_generation : Object → ℤ)
    (strategies : UpdateStrategyMap) (observed : AnyUnstructRegistry) (h l m : String)
    (hl : has_byte b'.' l ≡ false) where
  -- The claim stays as it is, or goes to the latest revision.
  abbrev Moves : Rollout → Rollout → Type 0
  Moves st st' = (claim_of h l m st' ≡ claim_of h l m st) ⊎ (claim_of h l m st' ≡ some 0)

  Moves-trans : (s t u : Rollout) → Moves s t → Moves t u → Moves s u
  Moves-trans s t u (inl p) (inl q) = inl (q ∙ p)
  Moves-trans s t u (inr p) (inl q) = inr (q ∙ p)
  Moves-trans s t u p (inr q) = inr q

  Moves-is_some :
      (s t : Rollout)
      → Moves s t
      → is_some (claim_of h l m s) ≡ true
      → is_some (claim_of h l m t) ≡ true
  Moves-is_some s t (inl p) e = ap is_some p ∙ e
  Moves-is_some s t (inr p) e = ap is_some p

  claim-given :
      (g k name : String) (st : Rollout)
      → has_byte b'.' k ≡ false
      → claim_of h l m
          (give_to_latest api json nested get_generation strategies observed g k name st)
        ≡ (if ((g == h) && (k == l)) && (name == m) then some 0 else claim_of h l m st)
  claim-given g k name st hk = claimed_by-set_parent_revision g k name h l m 0 st.claims hk hl

  Moves-given :
      (g k name : String) (st : Rollout)
      → has_byte b'.' k ≡ false
      → Moves st (give_to_latest api json nested get_generation strategies observed g k name st)
  Moves-given g k name st hk = elim (Bool-cases (((g == h) && (k == l)) && (name == m))) [
    | inl here ↦ inr (claim-given g k name st hk ∙ rw here refl)
    | inr there ↦ inl (claim-given g k name st hk ∙ rw there refl)
  ]

  abbrev settled : String → String → String → Object → Option ℕ → Rollout → Rollout
  settled g k name obj o st =
      settle_child api json nested get_generation strategies observed g k name obj o st

  settle_child-Moves :
      (g k name : String) (obj : Object) (o : Option ℕ) (st : Rollout)
      → has_byte b'.' k ≡ false
      → Moves st (settled g k name obj o st)
  settle_child-Moves g k name obj none st hk = Moves-given g k name st hk
  settle_child-Moves g k name obj (some zero) st hk = inl refl
  settle_child-Moves g k name obj (some (suc n)) st hk =
      go (find_by_group_kind_name g k name observed)
    where
      go :
          (found : Option Object)
          → Moves st (elim found as (λ x. Rollout) [
            | none ↦ st
            | some child ↦
                if is_no_op api json nested get_generation strategies observed child obj
                then move_to_latest api json nested get_generation strategies observed g k name n st
                else st
          ])
      go none = inl refl
      go (some child) =
          elim (Bool-cases
            (is_no_op api json nested get_generation strategies observed child obj)) [
              | inl same ↦ rw same (Moves-given g k name st hk)
              | inr other ↦ rw other (inl refl)
            ]

  settle_child-claimed :
      (name : String) (obj : Object) (st : Rollout)
      → name ≡ m
      → is_some (claim_of h l m (settled h l name obj (claim_of h l name st) st)) ≡ true
  settle_child-claimed name obj st e = go (claim_of h l name st) refl
    where
      go :
          (o : Option ℕ)
          → claim_of h l name st ≡ o
          → is_some (claim_of h l m (settled h l name obj o st)) ≡ true
      go none p =
          ap is_some (claim-given h l name st hl) ∙ rw (e, eq_refl h, eq_refl l, eq_refl m) refl
      go (some n) p =
          Moves-is_some st (settled h l name obj (some n) st)
            (settle_child-Moves h l name obj (some n) st hl) (rw (← e, p) refl)

  settle_group-Moves :
      (g k : String) (group : Group) (st : Rollout)
      → has_byte b'.' k ≡ false
      → Moves st (settle_group api json nested get_generation strategies observed g k group st)
  unfolding settle_group
  settle_group-Moves g k [] st hk = inl refl
  settle_group-Moves g k ((name, none) ∷ group) st hk = settle_group-Moves g k group st hk
  settle_group-Moves g k ((name, some obj) ∷ group) st hk =
      let next = settled g k name obj (claim_of g k name st) st in
      Moves-trans st next
        (settle_group api json nested get_generation strategies observed g k group next)
        (settle_child-Moves g k name obj (claim_of g k name st) st hk)
        (settle_group-Moves g k group next hk)

  settle_group-claimed :
      (group : Group) (st : Rollout)
      → named m group ≡ true
      → is_some (
          claim_of h l m
            (settle_group api json nested get_generation strategies observed h l group st))
        ≡ true
  unfolding settle_group
  settle_group-claimed [] st t = cc t
  settle_group-claimed ((name, none) ∷ group) st t = settle_group-claimed group st t
  settle_group-claimed ((name, some obj) ∷ group) st t = elim (Bool-cases (name == m)) [
    | inl here ↦
        let next = settled h l name obj (claim_of h l name st) st in
        Moves-is_some next
          (settle_group api json nested get_generation strategies observed h l group next)
          (settle_group-Moves h l group next hl)
          (settle_child-claimed name obj st ((eq_iff name m).0 here))
    | inr there ↦
        settle_group-claimed group (settled h l name obj (claim_of h l name st) st)
          (ground (arith, there, t))
  ]

  abbrev after_key : Option (String × String) → Group → Rollout → Rollout
  after_key p group st =
      settle_if_rolling api json nested get_generation strategies observed p group st

  settle_key-Moves :
      (key : String) (group : Group) (st : Rollout)
      → Moves st (after_key (parse_key_to_api_version_kind key) group st)
  settle_key-Moves key group st = go (parse_key_to_api_version_kind key) refl
    where
      go :
          (p : Option (String × String))
          → parse_key_to_api_version_kind key ≡ p
          → Moves st (after_key p group st)
      go none e = inl refl
      go (some (v, k)) e =
          elim (Bool-cases (is_rolling strategies (parse_api_version_to_group_version v).0 k)) [
            | inl rolls ↦ rw rolls (
                settle_group-Moves (parse_api_version_to_group_version v).0 k group st
                  (kind-dot_free key v k e))
            | inr fixed ↦ rw fixed (inl refl)
          ]

  settle_key-claimed :
      (key : String) (group : Group) (st : Rollout)
      → is_rolling strategies h l ≡ true
      → is_group_kind h l key ≡ true
      → named m group ≡ true
      → is_some (claim_of h l m (after_key (parse_key_to_api_version_kind key) group st)) ≡ true
  unfolding is_group_kind
  settle_key-claimed key group st rolls of_kind t = go (parse_key_to_api_version_kind key) of_kind
    where
      go :
          (p : Option (String × String))
          → elim p as (λ x. Bool) [
            | none ↦ false
            | some (v, k) ↦ (k == l) && ((parse_api_version_to_group_version v).0 == h)
          ]
            ≡ true
          → is_some (claim_of h l m (after_key p group st)) ≡ true
      go none e = cc e
      go (some (v, k)) e =
          let kl : k ≡ l = (eq_iff k l).0 (ground arith) in
          let gh : (parse_api_version_to_group_version v).0 ≡ h =
            (eq_iff (parse_api_version_to_group_version v).0 h).0 (ground arith) in
          rw (kl, gh, rolls) (settle_group-claimed group st t)

  settle_groups-Moves :
      (desired : AnyUnstructRegistry) (st : Rollout)
      → Moves st (settle_groups api json nested get_generation strategies observed desired st)
  unfolding settle_groups
  settle_groups-Moves [] st = inl refl
  settle_groups-Moves ((key, group) ∷ desired) st =
      let next = after_key (parse_key_to_api_version_kind key) group st in
      Moves-trans st next
        (settle_groups api json nested get_generation strategies observed desired next)
        (settle_key-Moves key group st) (settle_groups-Moves desired next)

  settle_groups-is_some :
      (desired : AnyUnstructRegistry) (st : Rollout)
      → is_rolling strategies h l ≡ true
      → wanted h l m desired ≡ true
      → is_some (
          claim_of h l m
            (settle_groups api json nested get_generation strategies observed desired st))
        ≡ true
  unfolding settle_groups
  settle_groups-is_some [] st rolls t = cc t
  settle_groups-is_some ((key, group) ∷ desired) st rolls t =
      elim (Bool-cases (is_group_kind h l key && named m group)) [
        | inl here ↦
            let next = after_key (parse_key_to_api_version_kind key) group st in
            Moves-is_some next
              (settle_groups api json nested get_generation strategies observed desired next)
              (settle_groups-Moves desired next)
              (settle_key-claimed key group st rolls (ground (arith, here)) (ground (arith, here)))
        | inr there ↦
            settle_groups-is_some desired (after_key (parse_key_to_api_version_kind key) group st)
              rolls (ground (arith, there, t))
      ]

  -- Before a pass moves a child, a child that the latest revision desires, and whose kind has a rolling
  -- strategy, is claimed by some revision; and by the one that claimed it before or by the latest.
  pub settle_groups-claimed :
      (desired : AnyUnstructRegistry) (st : Rollout)
      → is_rolling strategies h l ≡ true
      → wanted h l m desired ≡ true
      → (is_some (
            claim_of h l m
              (settle_groups api json nested get_generation strategies observed desired st))
          ≡ true)
        × ((claim_of h l m
                (settle_groups api json nested get_generation strategies observed desired st)
              ≡ claim_of h l m st)
            ⊎ (claim_of h l m
                  (settle_groups api json nested get_generation strategies observed desired st)
                ≡ some 0))
  settle_groups-claimed desired st rolls t =
      (settle_groups-is_some desired st rolls t, settle_groups-Moves desired st)

-- ===== src/Revision/Claims.antt =====
-- Which parent revision claims a child.
use metac.Prelude.{
  String, Bool, false, ◌≡◌, sym, ap, ◌∙◌, Option, some, Dict, lookup, insert, ◌==◌, ◌&&◌,
  lookup-insert, if◌then◌else◌, inl, inr, Bool-cases, eq_iff,
}
use metac.Prelude.Text.{has_byte}
use metac.Value.{entries}
use metac.Registry.{make_key_from_api_version_kind}
use metac.Registry.Registrars.{key-eq}
use metac.Revision.{claim_map_key, get_kind, set_parent_revision}

abbrev pub claimed_by : {P : Type 0} → String → String → String → Dict (Dict P) → Option P
claimed_by api_group kind name m = lookup name (entries (get_kind api_group kind m))

claim_key-eq :
    (g h k l : String)
    → has_byte b'.' k ≡ false
    → has_byte b'.' l ≡ false
    → (claim_map_key g k == claim_map_key h l) ≡ ((g == h) && (k == l))
unfolding claim_map_key make_key_from_api_version_kind
claim_key-eq g h k l hk hl = key-eq g h k l hk hl

-- A claim is found under its group, kind and name, and changes no other claim, if the kinds have no
-- dot.
pub claimed_by-set_parent_revision :
    {P : Type 0} (g k n h l o : String) (pr : P) (m : Dict (Dict P))
    → has_byte b'.' k ≡ false
    → has_byte b'.' l ≡ false
    → claimed_by h l o (set_parent_revision g k n pr m)
      ≡ (if ((g == h) && (k == l)) && (n == o) then some pr else claimed_by h l o m)
unfolding get_kind set_parent_revision
claimed_by-set_parent_revision {P} g k n h l o pr m hk hl =
    ap (λ c. lookup o (entries c)) (lookup-insert _ _ (insert n pr (entries (get_kind g k m))) m)
    ∙ elim (Bool-cases (claim_map_key g k == claim_map_key h l)) [
      | inl same ↦
          rw (same, lookup-insert)
            (inner ((n == o)) ((eq_iff _ _).0 same)
              ∙ ap (λ b. if b && (n == o) then some pr else claimed_by h l o m)
                  (sym same ∙ claim_key-eq g h k l hk hl))
      | inr other ↦ rw other (
          ap (λ b. if b && (n == o) then some pr else claimed_by h l o m)
            (sym other ∙ claim_key-eq g h k l hk hl))
    ]
  where
    inner :
        (b : Bool)
        → claim_map_key g k ≡ claim_map_key h l
        → (if b then some pr else lookup o (entries (lookup (claim_map_key g k) m)))
          ≡ (if b then some pr else lookup o (entries (lookup (claim_map_key h l) m)))
    inner b e = rw e

-- ===== src/Registry/Registrars.antt =====
-- The two registrars: what is set and got.
use metac.Prelude.{
  String, false, ◌≡◌, sym, ap, ◌∙◌, some, Dict, ◌==◌, ◌&&◌, eq_iff, eq_refl, lookup-insert,
  if◌then◌else◌, inl, inr, Bool-cases,
}
use metac.Prelude.Text.{has_byte}
use metac.Registry.{
  make_key_from_api_version_kind, make_key_from_api_group_kind, make_key_from_api_version_resource,
  set_resource, get_resource, set_informer, get_informer,
}
use metac.Registry.Keys.{make_key-injective}

-- Two keys are the same text exactly if both of their parts are.
pub key-eq :
    (v w k l : String)
    → has_byte b'.' k ≡ false
    → has_byte b'.' l ≡ false
    → (make_key_from_api_version_kind v k == make_key_from_api_version_kind w l)
      ≡ ((v == w) && (k == l))
key-eq v w k l hk hl =
    elim (Bool-cases (make_key_from_api_version_kind v k == make_key_from_api_version_kind w l)) [
      | inl same ↦
          let (ev, ek) = make_key-injective v w k l hk hl ((eq_iff _ _).0 same) in
          rw (same, ev, ek, eq_refl w, eq_refl l)
      | inr different ↦ different ∙ sym (both_differ different)
    ]
  where
    both_differ :
        (make_key_from_api_version_kind v k == make_key_from_api_version_kind w l) ≡ false
        → ((v == w) && (k == l)) ≡ false
    both_differ d = elim (Bool-cases (v == w)) [
      | inr h ↦ rw h
      | inl h ↦ elim (Bool-cases (k == l)) [
        | inr g ↦ rw (h, g)
        | inl g ↦ absurd (
            cc (
              rw ((eq_iff v w).0 h, (eq_iff k l).0 g, eq_refl (make_key_from_api_version_kind w l))
                at d))
      ]
    ]

module _ {ℓ} {A : Type ℓ} where
  -- A resource that is set is got back under its group and kind, and under no other, if the kinds
  -- have no dot.
  pub get-set_resource :
      (g h k l : String) (resource : A) (m : Dict A)
      → has_byte b'.' k ≡ false
      → has_byte b'.' l ≡ false
      → get_resource h l (set_resource g k resource m)
        ≡ (if (g == h) && (k == l) then some resource else get_resource h l m)
  unfolding get_resource set_resource make_key_from_api_group_kind
  get-set_resource g h k l resource m hk hl =
      lookup-insert _ _ resource m
      ∙ ap (λ b. if b then some resource else get_resource h l m)
          (unfold make_key_from_api_version_kind in key-eq g h k l hk hl)

  -- The same of an informer, by its API version and resource.
  pub get-set_informer :
      (v w r s : String) (informer : A) (m : Dict A)
      → has_byte b'.' r ≡ false
      → has_byte b'.' s ≡ false
      → get_informer w s (set_informer v r informer m)
        ≡ (if (v == w) && (r == s) then some informer else get_informer w s m)
  unfolding get_informer set_informer make_key_from_api_version_resource
  get-set_informer v w r s informer m hr hs =
      lookup-insert _ _ informer m
      ∙ ap (λ b. if b then some informer else get_informer w s m)
          (unfold make_key_from_api_version_kind in key-eq v w r s hr hs)

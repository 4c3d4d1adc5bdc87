-- ===== src/Finalizer/Sync.antt =====
-- What the finalizer's reconciliation leaves, and when a pending deletion is acted on.
use metac.Prelude.{
  String, true, false, ◌||◌, ◌≡◌, refl, sym, List, [], ◌∷◌, ◌↔◌, ◌⊎◌, inl, inr, contains, is_some,
  arith, Bool-cases,
}
use metac.Prelude.Results.{ok, ok-injective}
use metac.Api.{Object, Api, ApiLaws}
use metac.Object.Metadata.{has_finalizer}
use metac.Client.{Server}
use metac.Client.Finalizing.{
  ServerLaws, Live, client_add_finalizer_lem, client_remove_finalizer_lem,
}
use metac.Finalizer.{Finalizer, sync_object, has_gc_item, has_gc_finalizer, should_finalize}

-- The finalizers that the returned object may have, by whether the finalizer is wanted.
abbrev pub Synced : {S : Type 0} → Api → Server S → Finalizer → Object → Object → Type 0
Synced api server m obj o =
    ((m.enabled ≡ true) × (has_finalizer api o m.name ≡ true))
    ⊎ ((m.enabled ≡ true) × (is_some (api.get_deletion_timestamp obj) ≡ true) × (o ≡ obj))
    ⊎ ((m.enabled ≡ false) × (has_finalizer api o m.name ≡ false))
    ⊎ ((m.enabled ≡ false) × Live api server m.name obj o)

module _ {S : Type 0} (api : Api) (server : Server S) (laws : ApiLaws api)
    (server_laws : ServerLaws api server) where
  -- An object that SyncObject returns has the finalizer, if that is wanted, or it is the object that
  -- was given and this is pending deletion. If the finalizer is not wanted, the object has none, or
  -- has the live object's finalizers less the first occurrence of this one.
  pub sync_object-Synced :
      (m : Finalizer) (obj : Object) (s : S) (o : Object)
      → (sync_object api server m obj s).0 ≡ ok o
      → Synced api server m obj o
  unfolding sync_object
  sync_object-Synced m obj s o e = elim (Bool-cases m.enabled) [
    | inl on ↦ elim (Bool-cases (has_finalizer api obj m.name)) [
      | inl has ↦
          let eo : obj ≡ o = ok-injective (rw (on, has, sync_object) at e) in
          inl (on, rw (← eo) has)
      | inr lacks ↦ elim (Bool-cases (is_some (api.get_deletion_timestamp obj))) [
        | inl dying ↦
            inr (inl (on, dying, sym (ok-injective (rw (on, lacks, dying, sync_object) at e))))
        | inr alive ↦ inl (
          on,
          (client_add_finalizer_lem api server laws server_laws obj m.name).0 s o
              (rw (on, lacks, alive, sync_object) at e),
        )
      ]
    ]
    | inr off ↦ elim (Bool-cases (has_finalizer api obj m.name)) [
      | inl has ↦ inr (
          inr (
            inr (
              off,
              client_remove_finalizer_lem api server laws server_laws obj m.name s o
                  (rw (off, has, sync_object) at e),
            )))
      | inr lacks ↦
          let eo : obj ≡ o = ok-injective (rw (off, lacks, sync_object) at e) in
          inr (inr (inl (off, rw (← eo) lacks)))
    ]
  ]

has_gc_item_lem :
    (api : Api) (items : List String)
    → has_gc_item api items ≡ (
        contains api.finalizer_delete_dependents items
        || contains api.finalizer_orphan_dependents items)
unfolding has_gc_item contains
has_gc_item_lem api [] = refl
has_gc_item_lem api (item ∷ items) = ground (arith, has_gc_item_lem api items)

gc_free :
    (api : Api) (parent : Object)
    → has_gc_finalizer api parent ≡ (
        contains api.finalizer_delete_dependents (api.get_finalizers parent)
        || contains api.finalizer_orphan_dependents (api.get_finalizers parent))
unfolding has_gc_finalizer
gc_free api parent = has_gc_item_lem api (api.get_finalizers parent)

-- Children of a parent are finalized exactly if the finalizer is wanted and on the parent, and no
-- finalizer of the garbage collector is.
pub should_finalize_iff :
    (api : Api) (m : Finalizer) (parent : Object)
    → (should_finalize api m parent ≡ true) ↔ (
        (m.enabled ≡ true)
        × (has_finalizer api parent m.name ≡ true)
        × (contains api.finalizer_delete_dependents (api.get_finalizers parent) ≡ false)
        × (contains api.finalizer_orphan_dependents (api.get_finalizers parent) ≡ false))
unfolding should_finalize
should_finalize_iff api m parent =
    (λ h. ground (arith, gc_free api parent), λ h. ground (arith, gc_free api parent))

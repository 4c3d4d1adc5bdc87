-- ===== src/Object/Finalizers.antt =====
-- What adding and removing a finalizer or an annotation does to the object.
use metac.Prelude.{
  String, false, ◌≡◌, List, [], ◌∷◌, ◌++◌, contains, remove_first, arith, ◌==◌, ◌||◌, inl, inr, ap,
  eq_iff, contains-append, contains-remove_first_ne, eq_refl, Bool-cases,
}
use metac.Api.{Object, Api, ApiLaws}
use metac.Object.Metadata.{has_finalizer, add_finalizer, remove_finalizer}

remove_first-append :
    (name : String) (xs : List String)
    → contains name xs ≡ false
    → remove_first name (xs ++ name ∷ []) ≡ xs
unfolding contains remove_first
remove_first-append name [] h = rw (eq_refl name)
remove_first-append name (x ∷ xs) h =
    let other : (x == name) ≡ false = ground arith in
    rw other (ap (◌∷◌ x) (remove_first-append name xs (ground arith)))

module _ (api : Api) (laws : ApiLaws api) where
  -- After an addition the object has the finalizer and those that it had, and no other.
  pub has-add_finalizer :
      (obj : Object) (name other : String)
      → has_finalizer api (add_finalizer api obj name) other
        ≡ (name == other || has_finalizer api obj other)
  unfolding has_finalizer add_finalizer contains
  has-add_finalizer obj name other = elim (Bool-cases (contains name (api.get_finalizers obj))) [
    | inl h ↦ rw h (ground (arith, eq_iff name other))
    | inr h ↦ rw (h, laws.get-set_finalizers, contains-append) (ground (arith, eq_iff name other))
  ]

  -- Removing what was added, to an object without it, restores the list of finalizers; and a
  -- removal touches no other finalizer.
  pub remove-add_finalizer :
      (obj : Object) (name : String)
      → ((other : String)
          → (name == other) ≡ false
          → has_finalizer api (remove_finalizer api obj name) other ≡ has_finalizer api obj other)
        × (has_finalizer api obj name ≡ false
            → api.get_finalizers (remove_finalizer api (add_finalizer api obj name) name)
              ≡ api.get_finalizers obj)
  unfolding has_finalizer add_finalizer remove_finalizer
  remove-add_finalizer obj name = (others, back)
    where
      others :
          (other : String)
          → (name == other) ≡ false
          → contains other (api.get_finalizers (remove_finalizer api obj name))
            ≡ contains other (api.get_finalizers obj)
      others other ne = elim (Bool-cases (contains name (api.get_finalizers obj))) [
        | inl h ↦
            rw (h, laws.get-set_finalizers)
              (contains-remove_first_ne name other (api.get_finalizers obj) ne)
        | inr h ↦ rw h
      ]

      back :
          contains name (api.get_finalizers obj) ≡ false
          → api.get_finalizers (remove_finalizer api (add_finalizer api obj name) name)
            ≡ api.get_finalizers obj
      back h =
          rw (h, laws.get-set_finalizers, contains-append, h)
            (unfold contains in
              rw (
                eq_refl name,
                laws.get-set_finalizers,
                remove_first-append name (api.get_finalizers obj) h,
              ))

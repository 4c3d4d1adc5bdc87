-- ===== src/States/Deleting.antt =====
-- Which attachments are deleted.
use metac.Prelude.{
  String, Bool, not, ◌&&◌, ◌||◌, ◌≡◌, refl, inl, inr, List, [], ◌∷◌, Dict, has, if◌then◌else◌,
  Bool-cases, arith,
}
use metac.Api.{Object, Api, Json}
use metac.Manage.{Progress, Owners}
use metac.States.{
  StatesServer, ResourceStates, flag, is_created_by, is_pending_delete, is_obsolete, is_explicit,
  delete_object, delete_where, run_delete, run_explicit_delete,
}

-- The observed objects that a Boolean description picks, in their order.
abbrev pub chosen : (String → Object → Bool) → Dict Object → List Object
chosen pick [] = []
chosen pick ((name, obj) ∷ observed) =
    if pick name obj then obj ∷ chosen pick observed else chosen pick observed

-- Not pending deletion, not desired, and created due to the watch unless any may be deleted.
abbrev pub obsolete : Api → ResourceStates → String → Object → Bool
obsolete api e name obj =
    not (is_pending_delete api obj)
    && (not (has name e.desired) && (is_created_by api e.base.watch obj || flag e.base.delete_any))

abbrev pub explicitly_deleted : Api → ResourceStates → String → Object → Bool
explicitly_deleted api e name obj = has name e.explicit_deletes && not (is_pending_delete api obj)

module _ {S : Type 0} (api : Api) (json : Json) (owners : Owners) (server : StatesServer S)
    (e : ResourceStates) where
  -- One deletion after the other; an error is noted, unless the object was not found.
  abbrev pub delete_each : List Object → Progress S → Progress S
  delete_each [] p = p
  delete_each (obj ∷ objs) p = delete_each objs (delete_object api json owners server e obj p)

  delete_where-eq :
      (test pick : String → Object → Bool)
      → ((name : String) (obj : Object) → test name obj ≡ pick name obj)
      → (observed : Dict Object) (p : Progress S)
      → delete_where api json owners server e test observed p ≡ delete_each (chosen pick observed) p
  unfolding delete_where
  delete_where-eq test pick h [] p = refl
  delete_where-eq test pick h ((name, obj) ∷ observed) p = elim (Bool-cases (pick name obj)) [
    | inl y ↦ rw (h name obj, y) (delete_where-eq test pick h observed _)
    | inr n ↦ rw (h name obj, n) (delete_where-eq test pick h observed p)
  ]

  is_obsolete-eq :
      (name : String) (obj : Object)
      → is_obsolete api json owners server e name obj ≡ obsolete api e name obj
  unfolding is_obsolete
  is_obsolete-eq name obj = ground arith

  is_explicit-eq :
      (name : String) (obj : Object)
      → is_explicit api json owners server e name obj ≡ explicitly_deleted api e name obj
  unfolding is_explicit
  is_explicit-eq name obj = ground arith

  -- The deleter of a kind deletes, in their order, exactly the observed objects that are not pending
  -- deletion, are not desired, and were created due to the watch or may be deleted whatever they are;
  -- and the explicit deleter exactly those that are listed and not pending deletion. A failure keeps
  -- none of the others from it.
  pub run_delete_lem :
      (p : Progress S)
      → (run_delete api json owners server e p ≡ delete_each (chosen (obsolete api e) e.observed) p)
        × (run_explicit_delete api json owners server e p
            ≡ delete_each (chosen (explicitly_deleted api e) e.observed) p)
  unfolding run_delete run_explicit_delete
  run_delete_lem p = (
    delete_where-eq _ (obsolete api e) is_obsolete-eq e.observed p,
    delete_where-eq _ (explicitly_deleted api e) is_explicit-eq e.observed p,
  )

-- ===== src/Generic/Watch/Updating.antt =====
-- What is written of the watch itself.
use metac.Prelude.{
  String, Bool, false, ◌&&◌, ◌≡◌, refl, ap, ◌∙◌, List, [], ◌∷◌, Dict, inl, inr, Bool-cases,
}
use metac.Prelude.Results.{Result, ok, err}
use metac.Value.{Value}
use metac.Api.{ApiError, Object, Api, Nested}
use metac.Client.{Server}
use metac.Prelude.Steps.{continue, return}
use metac.Generic.Calls.{SyncHookResponse, called, WatchSetters, WatchController}
use metac.Generic.Watch.{
  wanted_watch, is_watch_changed, is_status_changed, update_watch, finalized_watch,
}

-- The setters other than that of the finalizers leave the finalizers as they were.
pub record SettersLaws (api : Api) (nested : Nested) (setters : WatchSetters) : Type 0 where
  pub get_finalizers-set_labels :
      (o : Object) (l : Dict String)
      → api.get_finalizers (setters.set_labels o l) ≡ api.get_finalizers o
  pub get_finalizers-set_annotations :
      (o : Object) (a : Dict String)
      → api.get_finalizers (api.set_annotations o a) ≡ api.get_finalizers o
  pub get_finalizers-set_status :
      (o : Object) (v : Value)
      → api.get_finalizers (nested.set_nested_field o v ("status" ∷ [])) ≡ api.get_finalizers o
  pub get_finalizers-set_resource_version :
      (o result : Object)
      → api.get_finalizers (setters.set_resource_version_of o result) ≡ api.get_finalizers o

module _ {S : Type 0} (api : Api) (nested : Nested) (setters : WatchSetters)
    (laws : SettersLaws api nested setters) (mgr : WatchController S) (server : Server S) where
  get_finalizers-wanted_watch :
      (watch : Object) (response : SyncHookResponse)
      → api.get_finalizers (wanted_watch api nested setters mgr watch response)
        ≡ api.get_finalizers watch
  unfolding wanted_watch
  get_finalizers-wanted_watch watch response =
      laws.get_finalizers-set_status _ _
      ∙ laws.get_finalizers-set_annotations _ _
      ∙ laws.get_finalizers-set_labels _ _

  -- A write of an object with these finalizers keeps the property of the state.
  abbrev pub Keeps : List String → (S → Type 0) → Type 0
  Keeps finalizers Q =
      (o : Object) (s : S)
      → api.get_finalizers o ≡ finalizers
      → Q s
      → Q (server.update o s).1 × Q (server.update_status o s).1

  -- Unless the hook says that it has finalized the watch, the watch is only ever written with the
  -- finalizers that it has: whatever property of the server's state such writes keep, the update of the
  -- watch keeps, on errors as well.
  pub update_watch-finalizers :
      (Q : S → Type 0) (has_status : Bool) (watch : Object) (response : SyncHookResponse) (s : S)
      → Keeps (api.get_finalizers watch) Q
      → response.finalized ≡ false
      → Q s
      → Q (update_watch api nested setters mgr server has_status watch response s).1
  unfolding update_watch
  update_watch-finalizers Q has_status watch response s keep open_ q =
      elim (Bool-cases (is_watch_changed api nested setters mgr watch response)) [
        | inr same ↦ rw same q
        | inl changed ↦
            elim (Bool-cases
              (is_status_changed api nested setters mgr watch response && has_status)) [
                | inr unset ↦ rw (changed, unset) (last wanted s kept q)
                | inl both ↦
                    rw (changed, both)
                      (two (server.update_status wanted s) (keep wanted s kept q).1)
              ]
      ]
    where
      wanted : Object
      wanted = wanted_watch api nested setters mgr watch response

      kept : api.get_finalizers wanted ≡ api.get_finalizers watch
      kept = get_finalizers-wanted_watch watch response

      ended :
          (r : Result ApiError Object × S)
          → Q r.1
          → Q (continue (λ (result : Object). return {S = S} tt) (called r)).1
      ended (ok result, t) h = h
      ended (err e, t) h = h

      final : Object → Object
      final o = finalized_watch api nested setters mgr response o

      final-same : (o : Object) → final o ≡ o
      final-same o = rw open_ refl

      last :
          (o : Object) (t : S)
          → api.get_finalizers o ≡ api.get_finalizers watch
          → Q t
          → Q
              (continue
                (λ (result : Object). return {S = S} tt)
                (called (server.update (final o) t))).1
      last o t f h =
          ended (server.update (final o) t)
            (keep (final o) t (ap api.get_finalizers (final-same o) ∙ f) h).0

      two :
          (r : Result ApiError Object × S)
          → Q r.1
          → Q
              (continue
                (λ (stored : Object) t.
                  continue
                    (λ (result : Object). return {S = S} tt)
                    (called (server.update (final stored) t)))
                (continue
                  (λ result. return (setters.set_resource_version_of wanted result))
                  (called r))).1
      two (ok result, t) h =
          last (setters.set_resource_version_of wanted result) t
            (laws.get_finalizers-set_resource_version wanted result ∙ kept) h
      two (err e, t) h = h

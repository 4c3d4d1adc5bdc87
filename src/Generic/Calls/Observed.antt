-- ===== src/Generic/Calls/Observed.antt =====
-- Which attachments are observed.
use mathlib.Core.Path.{subst}
use metac.Prelude.{
  String, Bool, true, false, ◌&&◌, ◌≡◌, refl, sym, ap, ◌∙◌, Option, none, some, List, [], ◌∷◌,
  lookup, ◌==◌, lookup-insert, inl, inr, Bool-cases, if◌then◌else◌,
}
use metac.Prelude.Results.{Result, ok, err}
use metac.Value.{entries}
use metac.Api.{ApiError, Object, Api}
use metac.Selector.Labels.{Labels}
use metac.Registry.{
  AnyUnstructRegistry, init, insert_object, object_key, namespace_name_or_name,
  make_key_from_api_version_kind, insert_named,
}
use metac.Registry.Laws.{stored, stored-insert_named}
use metac.UpdateStrategy.{Attachment}
use metac.Generic.Selection.{SelectionError, match_attachment_against_watch}
use metac.Generic.Calls.{
  WatchError, match_failed, call_failed, no_informer, WatchWorld, WatchController, add_if,
  observe_objects, observe_listed, observe_kind, observe_kinds, get_observed_attachments,
}

-- Every object that is stored matches the selector of the attachments for this watch.
abbrev pub AllMatch :
    {S : Type 0} → Labels → Api → WatchController S → Object → AnyUnstructRegistry → Type 0
AllMatch labels api mgr watch m =
    (key name : String) (obj : Object)
    → stored key name m ≡ some (some obj)
    → match_attachment_against_watch labels api mgr.attachment_selector obj watch ≡ ok true

stored-init :
    (api_version kind key name : String) (m : AnyUnstructRegistry) {o : Option Object}
    → stored key name (init api_version kind m) ≡ some o
    → stored key name m ≡ some o
unfolding init
stored-init api_version kind key name m h =
    elim (Bool-cases (make_key_from_api_version_kind api_version kind == key)) [
      | inl same ↦ absurd (empty (sym (ap (λ o. lookup name (entries o)) (group true same)) ∙ h))
      | inr other ↦ sym (ap (λ o. lookup name (entries o)) (group false other)) ∙ h
    ]
  where
    group :
        (b : Bool)
        → (make_key_from_api_version_kind api_version kind == key) ≡ b
        → lookup key (init api_version kind m) ≡ (if b then some [] else lookup key m)
    group b e = lookup-insert _ key [] m ∙ rw e refl

    empty : {o : Option Object} → lookup name [] ≡ some o → ⊥
    empty {o} q = let bad : none ≡ some o = (unfold lookup in q) in cc

module _ {S : Type 0} (api : Api) (labels : Labels) (world : WatchWorld S) (mgr : WatchController S)
    (watch : Object) where
  insert_object-AllMatch :
      (obj : Object) (m : AnyUnstructRegistry)
      → match_attachment_against_watch labels api mgr.attachment_selector obj watch ≡ ok true
      → AllMatch labels api mgr watch m
      → AllMatch labels api mgr watch (insert_object api obj m)
  unfolding insert_object
  insert_object-AllMatch obj m matched all key name other h =
      elim (Bool-cases ((object_key api obj == key) && (namespace_name_or_name api obj == name))) [
        | inl here ↦
            let same : some (some obj) ≡ some (some other) = sym (found true here) ∙ h in
            let e : obj ≡ other = cc in rw (← e) matched
        | inr there ↦ all key name other (sym (found false there) ∙ h)
      ]
    where
      found :
          (b : Bool)
          → ((object_key api obj == key) && (namespace_name_or_name api obj == name)) ≡ b
          → stored key name (insert_named api (namespace_name_or_name api obj) obj m)
            ≡ (if b then some (some obj) else stored key name m)
      found b e =
          stored-insert_named api (namespace_name_or_name api obj) key name obj m ∙ rw e refl

  observe_objects-AllMatch :
      (objs : List Object) (m : AnyUnstructRegistry) {found : AnyUnstructRegistry}
      → observe_objects api labels world mgr watch objs m ≡ ok found
      → AllMatch labels api mgr watch m
      → AllMatch labels api mgr watch found
  unfolding observe_objects
  observe_objects-AllMatch [] m h all = subst (AllMatch labels api mgr watch) (cc h) all
  observe_objects-AllMatch (obj ∷ objs) m {found = found} h all =
      go (match_attachment_against_watch labels api mgr.attachment_selector obj watch) refl h
        (observe_objects-AllMatch objs m) (observe_objects-AllMatch objs (insert_object api obj m))
    where
      go :
          (r : Result SelectionError Bool)
          → match_attachment_against_watch labels api mgr.attachment_selector obj watch ≡ r
          → elim r as (λ x. Result SelectionError AnyUnstructRegistry) [
            | err e ↦ err e
            | ok is_match ↦
                observe_objects api labels world mgr watch objs
                  (add_if api labels world mgr is_match obj m)
          ]
            ≡ ok found
          → (observe_objects api labels world mgr watch objs m ≡ ok found
              → AllMatch labels api mgr watch m
              → AllMatch labels api mgr watch found)
          → (observe_objects api labels world mgr watch objs (insert_object api obj m) ≡ ok found
              → AllMatch labels api mgr watch (insert_object api obj m)
              → AllMatch labels api mgr watch found)
          → AllMatch labels api mgr watch found
      go (err e) q h skip store = cc h
      go (ok false) q h skip store = skip h all
      go (ok true) q h skip store = store h (insert_object-AllMatch obj m q all)

  observe_kind-AllMatch :
      (a : Attachment) (m : AnyUnstructRegistry) {found : AnyUnstructRegistry}
      → observe_kind api labels world mgr watch a m ≡ ok found
      → AllMatch labels api mgr watch m
      → AllMatch labels api mgr watch found
  observe_kind-AllMatch a m {found = found} h all =
      go (world.list_attachments a.api_version a.resource) h
    where
      started : (kind : String) → AllMatch labels api mgr watch (init a.api_version kind m)
      started kind key name obj e = all key name obj (stored-init a.api_version kind key name m e)

      filled :
          (kind : String) (r : Result SelectionError AnyUnstructRegistry)
          → (r ≡ ok found → AllMatch labels api mgr watch found)
          → elim r as (λ x. Result WatchError AnyUnstructRegistry) [
            | err e ↦ err (match_failed e)
            | ok registry ↦ ok registry
          ]
            ≡ ok found
          → AllMatch labels api mgr watch found
      filled kind (err e) k q = cc q
      filled kind (ok registry) k q = k (cc q)

      listed :
          (objs : List Object) (kind : Option String)
          → elim kind as (λ x. Result WatchError AnyUnstructRegistry) [
            | none ↦ ok m
            | some kind ↦
                elim (observe_objects api labels world mgr watch objs (init a.api_version kind m)) [
                  | err e ↦ err (match_failed e)
                  | ok registry ↦ ok registry
                ]
          ]
            ≡ ok found
          → AllMatch labels api mgr watch found
      listed objs none q = subst (AllMatch labels api mgr watch) (cc q) all
      listed objs (some kind) q =
          filled kind _
            (λ e. observe_objects-AllMatch objs (init a.api_version kind m) e (started kind)) q

      go :
          (r : Option (Result ApiError (List Object)))
          → elim r as (λ x. Result WatchError AnyUnstructRegistry) [
            | none ↦ err no_informer
            | some (err e) ↦ err (call_failed e)
            | some (ok objs) ↦ observe_listed api labels world mgr watch a objs m
          ]
            ≡ ok found
          → AllMatch labels api mgr watch found
      go none q = cc q
      go (some (err e)) q = cc q
      go (some (ok objs)) q = listed objs (world.kind_of a.api_version a.resource) q

  observe_kinds-AllMatch :
      (attachments : List Attachment) (m : AnyUnstructRegistry) {found : AnyUnstructRegistry}
      → observe_kinds api labels world mgr watch attachments m ≡ ok found
      → AllMatch labels api mgr watch m
      → AllMatch labels api mgr watch found
  unfolding observe_kinds
  observe_kinds-AllMatch [] m h all = subst (AllMatch labels api mgr watch) (cc h) all
  observe_kinds-AllMatch (a ∷ attachments) m {found = found} h all =
      go (observe_kind api labels world mgr watch a m) refl h
        (λ n p q. observe_kinds-AllMatch attachments n q (observe_kind-AllMatch a m p all))
    where
      go :
          (r : Result WatchError AnyUnstructRegistry)
          → observe_kind api labels world mgr watch a m ≡ r
          → elim r as (λ x. Result WatchError AnyUnstructRegistry) [
            | err e ↦ err e
            | ok n ↦ observe_kinds api labels world mgr watch attachments n
          ]
            ≡ ok found
          → ((n : AnyUnstructRegistry)
              → observe_kind api labels world mgr watch a m ≡ ok n
              → observe_kinds api labels world mgr watch attachments n ≡ ok found
              → AllMatch labels api mgr watch found)
          → AllMatch labels api mgr watch found
      go (err e) p q k = cc q
      go (ok n) p q k = k n p q

  -- Every attachment that is observed for a watch, under whichever key and name, matches the selector of
  -- the attachments for that watch.
  pub get_observed_attachments-AllMatch :
      {found : AnyUnstructRegistry}
      → get_observed_attachments api labels world mgr watch ≡ ok found
      → (key name : String) (obj : Object) → stored key name found ≡ some (some obj)
      → match_attachment_against_watch labels api mgr.attachment_selector obj watch ≡ ok true
  unfolding get_observed_attachments
  get_observed_attachments-AllMatch h =
      observe_kinds-AllMatch mgr.attachments [] h (λ key name obj e. absurd (nothing key name e))
    where
      nothing : (key name : String) {o : Option Object} → stored key name [] ≡ some o → ⊥
      nothing key name {o} q = let bad : none ≡ some o = (unfold lookup in q) in cc

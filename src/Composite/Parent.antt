-- ===== src/Composite/Parent.antt =====
-- controller/composite/controller.go: the reconciliation of one parent.
pub mod Reporting
use metac.Prelude.{
  ℕ, String, Bool, true, false, not, ◌&&◌, ◌||◌, Option, none, some, List, [], ◌∷◌, Dict, insert,
  lookup, is_some, nat_eq, if◌then◌else◌,
}
use metac.Prelude.Results.{Result, ok, err}
use metac.Prelude.Steps.{Step, continue, ◌>>=◌, ◌>>◌, return, returned, failing_as}
use metac.Value.{Value, int, object, entries}
use metac.Value.Equal.{equal}
use metac.Api.{ApiError, not_found, Object, Api, Json, Nested}
use metac.Client.{Call, Server, atomic_status_update, client_remove_finalizer}
use metac.Finalizer.{sync_object, should_finalize}
use metac.Selector.Labels.{Labels}
use metac.Registry.{AnyUnstructRegistry, make_any_unstruct_registry_by_reference}
use metac.Manage.{ManageError, Progress, Owners, manage_children}
use metac.Rolling.{get_method}
use metac.Generic.Watch.{objects_of}
use metac.Composite.{
  CompositeError, call_failed, manage_failed, Sync, SyncHookResponse, ParentController, ParentWorld,
  ParentLibrary, make_selector,
}
use metac.Composite.Children.{claim_children}
use metac.Composite.Labelled.{enforce_groups}
use metac.Composite.Rollouts.{RevisionWorld, sync_revisions}

abbrev pub of_call : {S A : Type 0} → Call S A → Sync S A
of_call call s = failing_as call_failed (call s)

module _ {S : Type 0} (api : Api) (json : Json) (nested : Nested) (labels : Labels)
    (owners : Owners) (lib : ParentLibrary) (world : ParentWorld S) (revisions : RevisionWorld S)
    (pc : ParentController S) where
  abbrev pub server_of : Object → Server S
  server_of parent = world.parent_server (api.get_namespace parent)

  abbrev pub observed_status : Object → Option Object → Object
  observed_status parent status =
      insert "observedGeneration" (int (lib.get_generation parent)) (entries status)

  abbrev pub is_status : Option Value → Object → Bool
  is_status none status = false
  is_status (some v) status = equal v (object status)

  abbrev pub with_status : Object → Object → Option Object
  with_status status obj =
      if is_status (lookup "status" obj) status
      then none
      else some (insert "status" (object status) obj)

  unfoldable pub update_parent_status : Object → Option Object → Call S Object
  update_parent_status parent status s =
      atomic_status_update api (server_of parent) world.parent_has_status parent
        (with_status (observed_status parent status)) s

  -- The errors of the children are told after the status was written.
  abbrev pub report :
      List ManageError → Result ApiError Object × S → Result CompositeError (Unit {0}) × S
  report errs (err e, s) = (err (call_failed e), s)
  report [] (ok obj, s) = (ok tt, s)
  report (e ∷ errs) (ok obj, s) = (err (manage_failed (e ∷ errs)), s)

  abbrev pub then_status :
      Object → Option Object → Progress S → Result CompositeError (Unit {0}) × S
  then_status parent status (errs, s) = report errs (update_parent_status parent status s)

  -- Children are managed while the parent is alive, or to be finalized.
  unfoldable pub is_managed : Object → Bool
  is_managed parent =
      not (is_some (api.get_deletion_timestamp parent)) || should_finalize api pc.finalizer parent

  abbrev pub managed : Object → AnyUnstructRegistry → Dict (Dict Object) → S → Progress S
  managed parent observed desired s =
      if is_managed parent
      then manage_children api json owners world.child_server (get_method pc.update_strategy) parent
          (objects_of observed) desired s
      else ([], s)

  unfoldable pub finish :
      Object → AnyUnstructRegistry → Dict (Dict Object) → Option Object → Sync S (Unit {0})
  finish parent observed desired status s =
      then_status parent status (managed parent observed desired s)

  unfoldable pub resync_after : Object → SyncHookResponse → Sync S (Unit {0})
  resync_after parent response s =
      if nat_eq response.resync_after_seconds 0
      then (ok tt, s)
      else (ok tt, world.add_after parent response.resync_after_seconds s)

  abbrev pub finalized_parent : Object → SyncHookResponse → Sync S Object
  finalized_parent parent response =
      if response.finalized
      then of_call (client_remove_finalizer api (server_of parent) parent pc.finalizer.name)
      else return parent

  -- The desired children are named relative to the parent as it was before it was finalized.
  unfoldable pub sync_parent_object : Object → Sync S (Unit {0})
  sync_parent_object given = do
    parent ← of_call (sync_object api (server_of given) pc.finalizer given)
    observed ← claim_children api labels owners lib world pc parent
    response ← sync_revisions api json nested labels owners lib world revisions pc parent observed
    resync_after parent response
    final ← finalized_parent parent response
    selector ← returned (make_selector api labels lib pc final [])
    desired ← returned (
        enforce_groups api lib pc selector final
          (objects_of (make_any_unstruct_registry_by_reference api parent response.children)))
    finish final observed desired response.status

  -- A key is split by the library, and the parent is listed under what it has.
  unfoldable pub sync :
      (String → Result ApiError (String × String))
      → (String → String → Result ApiError Object)
      → String
      → Sync S (Unit {0})
  sync split_key get_parent key s = elim (split_key key) [
    | err e ↦ (err (call_failed e), s)
    | ok (namespace, name) ↦ elim (get_parent namespace name) [
      | ok parent ↦ sync_parent_object parent s
      | err not_found ↦ (ok tt, s)
      | err e ↦ (err (call_failed e), s)
    ]
  ]

-- ===== src/Generic/Calls.antt =====
-- controller/generic/controller.go and hooks.go: what a watch controller observes, and what it asks its hooks.
-- The informers, the discovery, the hooks, the queue and the server are parameters, and the state behind
-- them is passed on by each call. An error is its kind, without its text.
pub mod Observed
use metac.Prelude.{
  ℕ, String, Bool, true, false, not, ◌&&◌, ◌||◌, Option, none, some, List, [], ◌∷◌, ◌++◌, Dict,
  lookup, ◌==◌, is_some, nat_eq, if◌then◌else◌,
}
use metac.Prelude.Results.{Result, ok, err}
use metac.Prelude.Steps.{Step, continue, ◌>>=◌, ◌>>◌, return, fail, returned}
use metac.Value.{Value, null, object, entries}
use metac.Value.Equal.{deep_equal}
use metac.Api.{ApiError, not_found, Object, Api, Json, Nested}
use metac.Object.Metadata.{has_finalizer}
use metac.Client.{Call, Server}
use metac.Finalizer.{Finalizer, sync_object, should_finalize, finalizer_remove}
use metac.Selector.Labels.{Labels}
use metac.Registry.{AnyUnstructRegistry, init, insert_object, make_any_unstruct_registry}
use metac.Manage.{ManageError, Owners}
use metac.States.{StatesBase, StatesServer, flag}
use metac.States.Cluster.{ClusterStates, apply}
use metac.UpdateStrategy.{
  Attachment, new_attachment_update_strategy_manager, get_strategy_by_gk_or_default, is_patch_by_gk,
}
use metac.Generic.Selection.{
  SelectionError, Selection, match_lan, match_attachment_against_watch, GenericResource,
}
use metac.Generic.Queue.{update_string_map}

pub data WatchError : Type 0 where
  call_failed : ApiError → WatchError
  match_failed : SelectionError → WatchError
  states_failed : List ManageError → WatchError
  no_informer missing_hooks hook_failed : WatchError

pub record SyncHookRequest : Type 0 where
  pub watch : Object
  pub attachments : AnyUnstructRegistry
  pub finalizing : Bool

-- The float64 of seconds is counted in 2 ^ -1074, of which each positive float64 is a whole number; one that
-- is not positive is 0. What turns it into a duration is in the parameter that takes it.
pub record SyncHookResponse : Type 0 where
  pub labels : Dict (Option String)
  pub annotations : Dict (Option String)
  pub status : Option Object
  pub attachments : List Object
  pub explicit_updates : List Object
  pub explicit_deletes : List Object
  pub resync_after_seconds : ℕ
  pub skip_reconcile : Bool
  pub finalized : Bool

-- A step that may fail, on the state of what the controller calls.
abbrev pub Sync : Type 0 → Type 0 → Type 0
Sync S A = Step WatchError S A

abbrev pub called : {S A : Type 0} → Result ApiError A × S → Result WatchError A × S
called (ok a, s) = (ok a, s)
called (err e, s) = (err (call_failed e), s)

abbrev pub of_call : {S A : Type 0} → Call S A → Sync S A
of_call call s = called (call s)

abbrev pub of_match : {S A : Type 0} → Result SelectionError A → Sync S A
of_match (ok a) s = (ok a, s)
of_match (err e) s = (err (match_failed e), s)

abbrev pub Hook : Type 0 → Type 0
Hook S = SyncHookRequest → Sync S SyncHookResponse

-- What the setters of an unstructured object give that Api has not.
pub record WatchSetters : Type 0 where
  pub set_labels : Object → Dict String → Object
  pub set_resource_version_of : Object → Object → Object

-- WatchController and its GenericController
pub record WatchController (S : Type 0) : Type 0 where
  pub watch_selector : Selection
  pub attachment_selector : Selection
  pub finalizer : Finalizer
  pub sync_hook : Option (Hook S)
  pub finalize_hook : Option (Hook S)
  pub attachments : List Attachment
  pub read_only : Option Bool
  pub update_any : Option Bool
  pub delete_any : Option Bool

-- What the controller calls. An informer that is not there is none, and a kind that is not discovered.
pub record WatchWorld (S : Type 0) : Type 0 where
  pub watch_client : String → String → Result ApiError (Server S × Bool)
  pub list_attachments : String → String → Option (Result ApiError (List Object))
  pub kind_of : String → String → Option String
  pub add_after : Object → ℕ → S → S
  pub states : StatesServer S

module _ {S : Type 0} (api : Api) (labels : Labels) (world : WatchWorld S)
    (mgr : WatchController S) where
  abbrev pub add_if : Bool → Object → AnyUnstructRegistry → AnyUnstructRegistry
  add_if b obj m = if b then insert_object api obj m else m

  -- The listed objects that the selector of the attachments matches are stored.
  unfoldable pub observe_objects :
      Object → List Object → AnyUnstructRegistry → Result SelectionError AnyUnstructRegistry
  observe_objects watch [] m = ok m
  observe_objects watch (obj ∷ objs) m =
      elim (match_attachment_against_watch labels api mgr.attachment_selector obj watch) [
        | err e ↦ err e
        | ok is_match ↦ observe_objects watch objs (add_if is_match obj m)
      ]

  -- A kind that is not discovered is left out.
  abbrev pub observe_listed :
      Object
      → Attachment
      → List Object
      → AnyUnstructRegistry
      → Result WatchError AnyUnstructRegistry
  observe_listed watch a objs m = elim (world.kind_of a.api_version a.resource) [
    | none ↦ ok m
    | some kind ↦ elim (observe_objects watch objs (init a.api_version kind m)) [
      | err e ↦ err (match_failed e)
      | ok found ↦ ok found
    ]
  ]

  abbrev pub observe_kind :
      Object → Attachment → AnyUnstructRegistry → Result WatchError AnyUnstructRegistry
  observe_kind watch a m = elim (world.list_attachments a.api_version a.resource) [
    | none ↦ err no_informer
    | some (err e) ↦ err (call_failed e)
    | some (ok objs) ↦ observe_listed watch a objs m
  ]

  unfoldable pub observe_kinds :
      Object → List Attachment → AnyUnstructRegistry → Result WatchError AnyUnstructRegistry
  observe_kinds watch [] m = ok m
  observe_kinds watch (a ∷ attachments) m = elim (observe_kind watch a m) [
    | err e ↦ err e
    | ok found ↦ observe_kinds watch attachments found
  ]

  unfoldable pub get_observed_attachments : Object → Result WatchError AnyUnstructRegistry
  get_observed_attachments watch = observe_kinds watch mgr.attachments []

  -- The response of the hook, and whether it was the finalize hook; none if no hook is to be called.
  unfoldable pub call_matched_hook :
      Bool → Object → AnyUnstructRegistry → Sync S (Option (SyncHookResponse × Bool))
  call_matched_hook is_match watch observed =
      if is_some mgr.finalize_hook && (is_some (api.get_deletion_timestamp watch) || not is_match)
      then elim mgr.finalize_hook [
        | none ↦ return none
        | some hook ↦
            hook (record { watch = watch; attachments = observed; finalizing = true })
            >>= λ response. return (some (response, true))
      ]
      else elim mgr.sync_hook [
        | none ↦ return none
        | some hook ↦
            hook (record { watch = watch; attachments = observed; finalizing = false })
            >>= λ response. return (some (response, false))
      ]

  unfoldable pub call_sync_hook :
      Object → AnyUnstructRegistry → Sync S (Option (SyncHookResponse × Bool))
  call_sync_hook watch observed =
      if is_some mgr.finalize_hook || is_some mgr.sync_hook
      then (of_match (match_lan labels api mgr.watch_selector watch) >>= λ is_match.
          call_matched_hook is_match watch observed)
      else fail missing_hooks

  unfoldable pub is_reconcile_attachments : Object → SyncHookResponse → Bool → Bool
  is_reconcile_attachments watch response finalizing =
      not (is_some (api.get_deletion_timestamp watch))
      || (should_finalize api mgr.finalizer watch
          || (is_some (api.get_deletion_timestamp watch) && (finalizing && not response.finalized)))

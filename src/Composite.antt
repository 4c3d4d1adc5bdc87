-- ===== src/Composite.antt =====
-- controller/composite: the controller of a parent and its children. This file has controller/composite/hooks.go
-- and the selectors of controller/composite/controller.go. Informers, the discovery, the queue, hooks and
-- the server are parameters, and the state behind them is passed on by each call.
pub mod Children
pub mod Labelled
pub mod Revisions
pub mod Rollouts
pub mod Parent
pub mod Events
use metac.Prelude.{
  ℕ, String, Bool, true, false, ◌&&◌, Option, none, some, List, [], ◌∷◌, Dict, insert, is_some,
  ◌==◌, if◌then◌else◌,
}
use metac.Prelude.Int.{ℤ}
use metac.Prelude.Results.{Result, ok, err, ◌>>=◌}
use metac.Prelude.Steps.{Step, returned, fail, wrapped}
use metac.Api.{ApiError, Object, Api}
use metac.Client.{Server}
use metac.Finalizer.{Finalizer}
use metac.Selector.Labels.{LabelSelector, SelectorError, Labels}
use metac.Registry.{AnyUnstructRegistry}
use metac.Manage.{ManageError, ChildServer}
use metac.Rolling.{ChildResource, UpdateStrategyMap}
use metac.States.{flag}
use metac.Claiming.{Claim}

pub data CompositeError : Type 0 where
  call_failed : ApiError → CompositeError
  selector_failed : SelectorError → CompositeError
  claims_failed : List ApiError → CompositeError
  manage_failed : List ManageError → CompositeError
  empty_selector nil_hooks no_sync_hook hook_failed no_informer labels_mismatch panicked :
      CompositeError

pub record SyncHookRequest : Type 0 where
  pub parent : Object
  pub children : AnyUnstructRegistry
  pub finalizing : Bool

-- The float64 of seconds is counted in 2 ^ -1074, of which each positive float64 is a whole number; one that
-- is not positive is 0. What turns it into a duration is in the parameter that takes it.
pub record SyncHookResponse : Type 0 where
  pub status : Option Object
  pub children : List Object
  pub resync_after_seconds : ℕ
  pub finalized : Bool

abbrev pub Sync : Type 0 → Type 0 → Type 0
Sync S A = Step CompositeError S A

abbrev pub Hook : Type 0 → Type 0
Hook S = SyncHookRequest → Sync S SyncHookResponse

pub record Hooks (S : Type 0) : Type 0 where
  pub sync : Option (Hook S)
  pub finalize : Option (Hook S)

-- parentController, with what it takes of the spec of its CompositeController.
pub record ParentController (S : Type 0) : Type 0 where
  pub generate_selector : Option Bool
  pub hooks : Option (Hooks S)
  pub child_resources : List ChildResource
  pub update_strategy : UpdateStrategyMap
  pub finalizer : Finalizer
  pub parent_namespaced : Bool
  pub parent_group : String
  pub parent_kind : String
  pub parent_api_version : String

-- What is called of the library on an object, beside Api: the label selector at spec.selector, the labels
-- with the error of a conversion, and the setter of labels.
pub record ParentLibrary : Type 0 where
  pub get_label_selector : Object → Result ApiError LabelSelector
  pub nested_labels : Object → Result ApiError (Option (Dict String))
  pub set_labels : Object → Dict String → Object
  pub get_generation : Object → ℤ

-- A child client is its kind and the server of a namespace; a list is that of a namespace or of all.
pub record ParentWorld (S : Type 0) : Type 0 where
  pub parent_server : String → Server S
  pub parent_has_status : Bool
  pub child_server : ChildServer S
  pub child_client : String → String → Result ApiError (String × (String → Server S))
  pub list_children : String → String → Option (Option String → Result ApiError (List Object))
  pub claim : Object → Claim S Object
  pub add_after : Object → ℕ → S → S

module _ {S : Type 0} (api : Api) (hooks : Hooks S) where
  abbrev pub run_sync : Option (Hook S) → Object → AnyUnstructRegistry → Sync S SyncHookResponse
  run_sync none parent children = fail no_sync_hook
  run_sync (some hook) parent children =
      hook (record { parent = parent; children = children; finalizing = false })

  -- The finalize hook is called in place of the sync hook while the parent is pending deletion.
  abbrev pub run_hooks :
      Bool → Option (Hook S) → Object → AnyUnstructRegistry → Sync S SyncHookResponse
  run_hooks true (some hook) parent children =
      hook (record { parent = parent; children = children; finalizing = true })
  run_hooks true none parent children = run_sync hooks.sync parent children
  run_hooks false finalize parent children = run_sync hooks.sync parent children

-- callSyncHook, Execute
unfoldable pub call_sync_hook :
    {S : Type 0} → Api → ParentController S → Object → AnyUnstructRegistry → Sync S SyncHookResponse
call_sync_hook api pc parent children = elim pc.hooks [
  | none ↦ fail nil_hooks
  | some hooks ↦
      run_hooks api hooks (is_some (api.get_deletion_timestamp parent)) hooks.finalize parent
        children
]

abbrev pub add_labels : Dict String → Dict String → Dict String
add_labels [] match_labels = match_labels
add_labels ((k, v) ∷ extra) match_labels = add_labels extra (insert k v match_labels)

abbrev pub is_empty_selector : LabelSelector → Bool
is_empty_selector selector = elim selector.match_labels [
  | [] ↦ elim selector.match_expressions [ [] ↦ true | r ∷ rs ↦ false ]
  | e ∷ labels ↦ false
]

module _ {S : Type 0} (api : Api) (labels : Labels) (lib : ParentLibrary)
    (pc : ParentController S) where
  unfoldable pub parent_selector : Object → Result CompositeError LabelSelector
  parent_selector parent =
      if flag pc.generate_selector
      then ok (record {
        match_labels = ("controller-uid", api.get_uid parent) ∷ [];
        match_expressions = [];
      })
      else elim (lib.get_label_selector parent) [
        | err e ↦ err (call_failed e)
        | ok selector ↦ if is_empty_selector selector then err empty_selector else ok selector
      ]

  -- A selector is used through what it matches.
  unfoldable pub make_selector : Object → Dict String → Result CompositeError (Dict String → Bool)
  make_selector parent extra_match_labels = do
    selector ← parent_selector parent
    wrapped selector_failed (
        labels.as_selector
          (record selector { match_labels = add_labels extra_match_labels selector.match_labels }))

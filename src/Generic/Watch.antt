-- ===== src/Generic/Watch.antt =====
-- controller/generic/controller.go: the reconciliation of one watch, with what Calls observes and asks.
pub mod Updating
pub mod ReadOnly
use metac.Prelude.{
  ℕ, String, Bool, true, false, not, ◌&&◌, ◌||◌, Option, none, some, List, [], ◌∷◌, ◌++◌, Dict,
  lookup, ◌==◌, is_some, nat_eq, if◌then◌else◌,
}
use metac.Prelude.Results.{Result, ok, err}
use metac.Prelude.Steps.{Step, continue, ◌>>=◌, ◌>>◌, return, fail, returned}
use metac.Value.{Value, null, object, entries}
use metac.Value.Equal.{deep_equal}
use metac.Api.{ApiError, not_found, Object, Api, Json, Nested}
use metac.Object.Metadata.{has_finalizer}
use metac.Client.{Call, Server}
use metac.Finalizer.{Finalizer, sync_object, should_finalize, finalizer_remove}
use metac.Selector.Labels.{Labels}
use metac.Registry.{AnyUnstructRegistry, init, insert_object, make_any_unstruct_registry}
use metac.Manage.{ManageError, Owners}
use metac.States.{StatesBase, StatesServer, flag}
use metac.States.Cluster.{ClusterStates, apply}
use metac.UpdateStrategy.{
  Attachment, new_attachment_update_strategy_manager, get_strategy_by_gk_or_default, is_patch_by_gk,
}
use metac.Generic.Selection.{
  SelectionError, Selection, match_lan, match_attachment_against_watch, GenericResource,
}
use metac.Generic.Queue.{update_string_map}
use metac.Generic.Calls.{
  WatchError, call_failed, match_failed, states_failed, no_informer, missing_hooks, SyncHookRequest,
  SyncHookResponse, Sync, called, of_call, of_match, Hook, WatchSetters, WatchController,
  WatchWorld, add_if, observe_objects, observe_listed, observe_kind, observe_kinds,
  get_observed_attachments, call_matched_hook, call_sync_hook, is_reconcile_attachments,
}

-- reflect.DeepEqual of two maps that may be nil
abbrev pub same_status : Option Object → Option Object → Bool
same_status none none = true
same_status (some a) (some b) = deep_equal a b
same_status _ _ = false

abbrev pub status_value : Option Object → Value
status_value none = null
status_value (some m) = object m

abbrev pub wanted_status : SyncHookResponse → Option Object → Option Object
wanted_status response old = elim response.status [ none ↦ old | some status ↦ some status ]

module _ {S : Type 0} (api : Api) (nested : Nested) (setters : WatchSetters)
    (mgr : WatchController S) where
  -- The watch with the labels, annotations and status that the hook wants.
  unfoldable pub wanted_watch : Object → SyncHookResponse → Object
  wanted_watch watch response =
      let labelled =
        setters.set_labels watch (update_string_map (api.get_labels watch) response.labels).0 in
      let annotated =
        api.set_annotations labelled
          (update_string_map (entries (api.get_annotations watch)) response.annotations).0 in
      nested.set_nested_field annotated
        (status_value (wanted_status response (nested.get_nested_object watch ("status" ∷ []))))
        ("status" ∷ [])

  unfoldable pub is_status_changed : Object → SyncHookResponse → Bool
  is_status_changed watch response =
      let old = nested.get_nested_object watch ("status" ∷ []) in
      not (same_status old (wanted_status response old))

  unfoldable pub is_watch_changed : Object → SyncHookResponse → Bool
  is_watch_changed watch response =
      (update_string_map (api.get_labels watch) response.labels).1
      || ((update_string_map (entries (api.get_annotations watch)) response.annotations).1
          || (is_status_changed watch response
              || (response.finalized && has_finalizer api watch mgr.finalizer.name)))

  -- The finalizer goes with the last write.
  abbrev pub finalized_watch : SyncHookResponse → Object → Object
  finalized_watch response watch =
      if response.finalized then finalizer_remove api mgr.finalizer watch else watch

  abbrev pub write_status : Server S → Bool → Object → Sync S Object
  write_status server needed watch =
      if needed
      then (of_call (server.update_status watch) >>= λ result.
          return (setters.set_resource_version_of watch result))
      else return watch

  unfoldable pub update_watch : Server S → Bool → Object → SyncHookResponse → Sync S (Unit {0})
  update_watch server has_status watch response =
      if is_watch_changed watch response
      then (write_status server (is_status_changed watch response && has_status)
            (wanted_watch watch response)
          >>= λ stored.
              of_call (server.update (finalized_watch response stored)) >>= λ result. return tt)
      else return tt

-- The objects of a registry; those that are nil, of which there are none here, are left out.
abbrev pub present : Dict (Option Object) → Dict Object
present [] = []
present ((name, none) ∷ group) = present group
present ((name, some obj) ∷ group) = (name, obj) ∷ present group

abbrev pub objects_of : AnyUnstructRegistry → Dict (Dict Object)
objects_of [] = []
objects_of ((key, group) ∷ m) = (key, present group) ∷ objects_of m

abbrev pub of_states : {S : Type 0} → List ManageError × S → Result WatchError (Unit {0}) × S
of_states ([], s) = (ok tt, s)
of_states (e ∷ errs, s) = (err (states_failed (e ∷ errs)), s)

module _ {S : Type 0} (api : Api) (json : Json) (nested : Nested) (labels : Labels)
    (owners : Owners) (setters : WatchSetters) (world : WatchWorld S)
    (mgr : WatchController S) where
  abbrev pub cluster_states : Object → AnyUnstructRegistry → SyncHookResponse → Bool → ClusterStates
  cluster_states watch observed response finalizing =
      let strategies = new_attachment_update_strategy_manager world.kind_of mgr.attachments in
      record {
        base = record {
          strategy_by_gk = get_strategy_by_gk_or_default strategies;
          is_patch_by_gk = is_patch_by_gk strategies;
          watch = watch;
          is_watch_owner = none;
          update_any = mgr.update_any;
          delete_any = mgr.delete_any;
          update_during_pending_delete = some finalizing;
        };
        observed = objects_of observed;
        desired = objects_of (make_any_unstruct_registry api response.attachments);
        explicit_deletes = objects_of (make_any_unstruct_registry api response.explicit_deletes);
        explicit_updates = objects_of (make_any_unstruct_registry api response.explicit_updates);
      }

  -- The attachments are left alone if the hook skips them, if the controller only reads, or if the watch
  -- is pending deletion and no longer to be finalized.
  unfoldable pub apply_attachments :
      Object → AnyUnstructRegistry → SyncHookResponse → Bool → Sync S (Unit {0})
  apply_attachments watch observed response finalizing s =
      if response.skip_reconcile
      then (ok tt, s)
      else if flag mgr.read_only
      then (ok tt, s)
      else if not (is_reconcile_attachments api labels world mgr watch response finalizing)
      then (ok tt, s)
      else of_states
          (apply api json owners world.states (cluster_states watch observed response finalizing) s)

  unfoldable pub resync_after : Object → SyncHookResponse → Sync S (Unit {0})
  resync_after watch response s =
      if nat_eq response.resync_after_seconds 0
      then (ok tt, s)
      else (ok tt, world.add_after watch response.resync_after_seconds s)

  abbrev pub respond :
      Server S
      → Bool
      → Object
      → AnyUnstructRegistry
      → Option (SyncHookResponse × Bool)
      → Sync S (Unit {0})
  respond server has_status watch observed none = return tt
  respond server has_status watch observed (some (response, finalizing)) = do
    resync_after watch response
    update_watch api nested setters mgr server has_status watch response
    apply_attachments watch observed response finalizing

  unfoldable pub is_relevant : Bool → Object → Bool
  is_relevant is_match watch = is_match || has_finalizer api watch mgr.finalizer.name

  abbrev pub reconcile_watch : Server S → Bool → Object → Sync S (Unit {0})
  reconcile_watch server has_status watch = do
    observed ← returned (get_observed_attachments api labels world mgr watch)
    answer ← call_sync_hook api labels world mgr watch observed
    respond server has_status watch observed answer

  unfoldable pub sync_client : Object → Sync S (Server S × Bool)
  sync_client watch s = elim (world.watch_client (api.get_api_version watch) (api.get_kind watch)) [
    | err e ↦ (err (call_failed e), s)
    | ok client ↦ (ok client, s)
  ]

  -- The match is made again after the finalizer was added or removed.
  abbrev pub sync_with_client : Object → Server S × Bool → Sync S (Unit {0})
  sync_with_client watch (server, has_status) = do
    synced ← of_call (sync_object api server mgr.finalizer watch)
    is_match ← of_match (match_lan labels api mgr.watch_selector synced)
    if is_relevant is_match synced then reconcile_watch server has_status synced else return tt

  unfoldable pub sync_watch_obj : Object → Sync S (Unit {0})
  sync_watch_obj watch = do
    is_match ← of_match (match_lan labels api mgr.watch_selector watch)
    if is_relevant is_match watch then (sync_client watch >>= sync_with_client watch) else return tt

-- ===== src/Generic/Watch/ReadOnly.antt =====
-- A controller that only reads.
use mathlib.Core.Path.{fun_ext}
use metac.Prelude.{
  Bool, true, ◌≡◌, refl, Option, none, some, List, [], ◌∷◌, if◌then◌else◌, inl, inr, Bool-cases,
}
use metac.Prelude.Results.{ok, err}
use metac.Api.{Object, Api, Json, Nested}
use metac.Client.{Server}
use metac.Manage.{Owners}
use metac.States.{StatesServer, flag}
use metac.Selector.Labels.{Labels}
use metac.Registry.{AnyUnstructRegistry, init}
use metac.Finalizer.{sync_object}
use metac.UpdateStrategy.{Attachment}
use metac.Generic.Selection.{match_attachment_against_watch, match_lan}
use metac.Prelude.Steps.{◌>>=◌, ◌>>◌, return, returned}
use metac.Generic.Calls.{
  match_failed, call_failed, no_informer, SyncHookResponse, of_call, of_match, WatchSetters,
  WatchController, WatchWorld, observe_objects, observe_kind, observe_kinds, add_if,
  get_observed_attachments, call_sync_hook, call_matched_hook,
}
use metac.Generic.Watch.{
  apply_attachments, resync_after, respond, reconcile_watch, sync_client, sync_with_client,
  sync_watch_obj, update_watch, is_relevant,
}

module _ {S : Type 0} (api : Api) (json : Json) (nested : Nested) (labels : Labels)
    (owners : Owners) (setters : WatchSetters) (world : WatchWorld S) (other : StatesServer S)
    (mgr : WatchController S) (reads : flag mgr.read_only ≡ true) where
  abbrev world' : WatchWorld S
  world' = record world { states = other }

  observe_objects-same :
      (watch : Object) (objs : List Object) (m : AnyUnstructRegistry)
      → observe_objects api labels world' mgr watch objs m
        ≡ observe_objects api labels world mgr watch objs m
  unfolding observe_objects
  observe_objects-same watch [] m = refl
  observe_objects-same watch (obj ∷ objs) m = λ i.
      elim (match_attachment_against_watch labels api mgr.attachment_selector obj watch) [
        | err e ↦ err e
        | ok is_match ↦
            observe_objects-same watch objs (add_if api labels world mgr is_match obj m) i
      ]

  observe_kind-same :
      (watch : Object) (a : Attachment) (m : AnyUnstructRegistry)
      → observe_kind api labels world' mgr watch a m ≡ observe_kind api labels world mgr watch a m
  observe_kind-same watch a m = λ i. elim (world.list_attachments a.api_version a.resource) [
    | none ↦ err no_informer
    | some (err e) ↦ err (call_failed e)
    | some (ok objs) ↦ elim (world.kind_of a.api_version a.resource) [
      | none ↦ ok m
      | some kind ↦ elim (observe_objects-same watch objs (init a.api_version kind m) i) [
        | err e ↦ err (match_failed e)
        | ok found ↦ ok found
      ]
    ]
  ]

  observe_kinds-same :
      (watch : Object) (attachments : List Attachment) (m : AnyUnstructRegistry)
      → observe_kinds api labels world' mgr watch attachments m
        ≡ observe_kinds api labels world mgr watch attachments m
  unfolding observe_kinds
  observe_kinds-same watch [] m = refl
  observe_kinds-same watch (a ∷ attachments) m = λ i. elim (observe_kind-same watch a m i) [
    | err e ↦ err e
    | ok found ↦ observe_kinds-same watch attachments found i
  ]

  apply_attachments-same :
      (watch : Object) (observed : AnyUnstructRegistry) (response : SyncHookResponse)
      (finalizing : Bool) (s : S)
      → apply_attachments api json nested labels owners setters world' mgr watch observed response
          finalizing s
        ≡ apply_attachments api json nested labels owners setters world mgr watch observed response
            finalizing s
  unfolding apply_attachments
  apply_attachments-same watch observed response finalizing s =
      elim (Bool-cases response.skip_reconcile) [
        | inl skips ↦ rw skips refl
        | inr goes ↦ rw (goes, reads) refl
      ]

  respond-same :
      (server : Server S) (has_status : Bool) (watch : Object) (observed : AnyUnstructRegistry)
      (answer : Option (SyncHookResponse × Bool))
      → respond api json nested labels owners setters world' mgr server has_status watch observed
          answer
        ≡ respond api json nested labels owners setters world mgr server has_status watch observed
            answer
  unfolding resync_after
  respond-same server has_status watch observed none = refl
  respond-same server has_status watch observed (some (response, finalizing)) = λ i. do
    resync_after api json nested labels owners setters world mgr watch response
    update_watch api nested setters mgr server has_status watch response
    fun_ext (apply_attachments-same watch observed response finalizing) i

  reconcile_watch-same :
      (server : Server S) (has_status : Bool) (watch : Object)
      → reconcile_watch api json nested labels owners setters world' mgr server has_status watch
        ≡ reconcile_watch api json nested labels owners setters world mgr server has_status watch
  unfolding get_observed_attachments call_sync_hook call_matched_hook
  reconcile_watch-same server has_status watch = λ i. do
    observed ← returned (observe_kinds-same watch mgr.attachments [] i)
    answer ← call_sync_hook api labels world mgr watch observed
    respond-same server has_status watch observed answer i

  sync_with_client-same :
      (watch : Object) (client : Server S × Bool)
      → sync_with_client api json nested labels owners setters world' mgr watch client
        ≡ sync_with_client api json nested labels owners setters world mgr watch client
  unfolding is_relevant
  sync_with_client-same watch (server, has_status) = λ i. do
    synced ← of_call (sync_object api server mgr.finalizer watch)
    is_match ← of_match (match_lan labels api mgr.watch_selector synced)
    (if is_relevant api json nested labels owners setters world mgr is_match synced
        then reconcile_watch-same server has_status synced i
        else return tt)

  -- A controller that only reads makes no call to the clients of the attachments: put any others in their
  -- place, and the reconciliation of every watch gives the same result and leaves the same state.
  pub sync_watch_obj-read_only :
      (watch : Object)
      → sync_watch_obj api json nested labels owners setters
          (record world { states = other })
          mgr
          watch
        ≡ sync_watch_obj api json nested labels owners setters world mgr watch
  unfolding sync_watch_obj is_relevant sync_client
  sync_watch_obj-read_only watch = λ i. do
    is_match ← of_match (match_lan labels api mgr.watch_selector watch)
    (if is_relevant api json nested labels owners setters world mgr is_match watch
        then (sync_client api json nested labels owners setters world mgr watch >>= λ client.
            sync_with_client-same watch client i)
        else return tt)

-- ===== src/States.antt =====
-- controller/common/controller.go, ResourceStatesController: the writes that bring the attachments of
-- one API version and kind to what the hooks of a watch want. Registries are built from lists of
-- objects, so that none of their objects is nil. The server is a parameter, and its state is passed on.
pub mod Cluster
pub mod Deleting
pub mod Updating
pub mod Unowned
pub mod Failing
use Prim.Native.String.{◌++◌ as append}
use metac.Prelude.{
  String, Bool, true, false, not, ◌&&◌, ◌||◌, Option, none, some, List, [], ◌∷◌, ◌++◌, Dict, lookup,
  has, insert, ◌==◌, is_some, if◌then◌else◌,
}
use metac.Prelude.Results.{Result, ok, err, ◌>>=◌}
use metac.Value.{entries}
use metac.Value.Equal.{deep_equal}
use metac.Api.{ApiError, not_found, Object, Api, Json}
use metac.Apply.{merge_objects}
use metac.Apply.LastApplied.{
  text_or_empty, set_last_applied_by_ann_key, get_last_applied_by_ann_key,
  sanitize_last_applied_by_ann_key,
}
use metac.Client.{Call}
use metac.Manage.{
  ManageError, api_failed, unknown_method, Progress, Owners, note, of_api, of_merge, make_owner_ref,
  value_or, revert_field, revert_object_meta_system_fields,
}
use metac.Registry.{desc_object_as_sanitised_key}
use metac.Rolling.{rolling_in_place, rolling_recreate}
use metac.UpdateStrategy.{child_update_on_delete}

abbrev pub attachment_create_annotation_key : String
attachment_create_annotation_key = "metac.openebs.io/created-due-to-watch"

abbrev pub attachment_update_annotation_key_suffix : String
attachment_update_annotation_key_suffix = "/updated-due-to-watch"

abbrev pub gctl_last_applied_annotation_key_suffix : String
gctl_last_applied_annotation_key_suffix = "/gctl-last-applied"

-- A pointer to a Boolean; nil counts as false.
abbrev pub flag : Option Bool → Bool
flag none = false
flag (some b) = b

-- ClusterStatesControllerBase
pub record StatesBase : Type 0 where
  pub strategy_by_gk : String → String → String
  pub is_patch_by_gk : String → String → Bool
  pub watch : Object
  pub is_watch_owner : Option Bool
  pub update_any : Option Bool
  pub delete_any : Option Bool
  pub update_during_pending_delete : Option Bool

-- dynamicclientset.ResourceClient
pub record DynamicClient : Type 0 where
  pub group : String
  pub kind : String

-- A call takes the client and a namespace first. A deletion is on the condition of a uid, and leaves
-- the objects that the deleted one owns to the garbage collector.
pub record StatesServer (S : Type 0) : Type 0 where
  pub client_for : String → String → Result ApiError DynamicClient
  pub delete : DynamicClient → String → String → String → Call S (Unit {0})
  pub update : DynamicClient → String → Object → Call S Object
  pub create : DynamicClient → String → Object → Call S Object

pub record ResourceStates : Type 0 where
  pub base : StatesBase
  pub client : DynamicClient
  pub observed : Dict Object
  pub desired : Dict Object
  pub explicit_deletes : Dict Object
  pub explicit_updates : Dict Object

-- A deletion whose object is not there is no error.
abbrev pub note_found :
    {S : Type 0} → List ManageError → Result ApiError (Unit {0}) × S → Progress S
note_found errs (ok done, s) = (errs, s)
note_found errs (err not_found, s) = (errs, s)
note_found errs (err e, s) = (errs ++ api_failed e ∷ [], s)

-- What a write returns that was made.
abbrev pub written : {S A : Type 0} → Result ApiError A × S → Result ManageError Bool × S
written (ok a, s) = (ok true, s)
written (err e, s) = (err (api_failed e), s)

-- The error of a write is noted, whether it was made is not.
abbrev pub note_write : {S : Type 0} → List ManageError → Result ManageError Bool × S → Progress S
note_write errs (ok done, s) = (errs, s)
note_write errs (err e, s) = (errs ++ e ∷ [], s)

module _ (api : Api) where
  abbrev pub annotation : String → Object → String
  annotation key obj = text_or_empty (lookup key (entries (api.get_annotations obj)))

  abbrev pub annotate : String → String → Object → Object
  annotate key value obj =
      api.set_annotations obj (insert key value (entries (api.get_annotations obj)))

  -- The attachment was created due to this watch.
  unfoldable pub is_created_by : Object → Object → Bool
  is_created_by watch obj = annotation attachment_create_annotation_key obj == api.get_uid watch

  abbrev pub is_pending_delete : Object → Bool
  is_pending_delete obj = is_some (api.get_deletion_timestamp obj)

  unfoldable pub namespace_or_watch : StatesBase → Object → String
  namespace_or_watch base obj =
      if api.get_namespace obj == "" then api.get_namespace base.watch else api.get_namespace obj

  abbrev pub last_applied_key : StatesBase → String
  last_applied_key base = append (api.get_uid base.watch) gctl_last_applied_annotation_key_suffix

module _ (api : Api) (json : Json) where
  -- Apply.Merge with the functions of NewApplyFromAnnKey, and what HasMergeDiff then says. An error of
  -- the last step is dropped: the merged object then stays without the annotation.
  unfoldable pub merge_by_ann_key : String → Object → Object → Result ManageError (Object × Bool)
  merge_by_ann_key key observed desired = do
    last ← of_api (get_last_applied_by_ann_key api json observed key)
    merged ← of_merge (merge_objects observed (entries last) desired)
    reverted ← of_api (revert_object_meta_system_fields api json merged observed)
    final ← of_api (revert_field api json reverted observed ("status" ∷ []))
    ok (
      value_or final (
          set_last_applied_by_ann_key api json final
            (sanitize_last_applied_by_ann_key api json desired key) key),
      not (deep_equal final observed),
    )

  -- A patch takes all of the observed object for what was last applied.
  unfoldable pub patch_observed : ResourceStates → Object → Result ManageError Object
  patch_observed e observed =
      if e.base.is_patch_by_gk e.client.group e.client.kind
      then of_api
          (set_last_applied_by_ann_key api json observed observed (last_applied_key api e.base))
      else ok observed

  unfoldable pub merge_update :
      ResourceStates → Object → Object → Result ManageError (Object × Bool)
  merge_update e observed desired = do
    marked ← patch_observed e observed
    merge_by_ann_key (last_applied_key api e.base) marked desired

module _ {S : Type 0} (api : Api) (json : Json) (owners : Owners) (server : StatesServer S)
    (e : ResourceStates) where
  abbrev pub mark_updated : Object → Object
  mark_updated obj =
      annotate api (append (api.get_uid e.base.watch) attachment_update_annotation_key_suffix)
        (desc_object_as_sanitised_key api e.base.watch) obj

  -- The write of a merged object that differs from the observed one.
  unfoldable pub write_merged : String → Object → Object → Object → S → Result ManageError Bool × S
  write_merged method observed desired merged s =
      if method == "Recreate" || method == rolling_recreate
      then written (
          server.delete e.client (namespace_or_watch api e.base desired) (api.get_name desired)
            (api.get_uid observed) s)
      else if method == "InPlace" || method == rolling_in_place
      then written
          (server.update e.client (namespace_or_watch api e.base desired) (mark_updated merged) s)
      else (err unknown_method, s)

  unfoldable pub update_by_strategy : String → Object → Object → S → Result ManageError Bool × S
  update_by_strategy method observed desired s =
      if method == child_update_on_delete || method == ""
      then (ok false, s)
      else elim (merge_update api json e observed desired) [
        | err failure ↦ (err failure, s)
        | ok (merged, is_diff) ↦
            if is_diff then write_merged method observed desired merged s else (ok false, s)
      ]

  -- Whether the object was written; it is left alone if it is pending deletion, or if it was created
  -- due to another watch, unless the flags allow it.
  unfoldable pub update : Object → Object → S → Result ManageError Bool × S
  update observed desired s =
      if is_pending_delete api observed && not (flag e.base.update_during_pending_delete)
      then (ok false, s)
      else if not (is_created_by api e.base.watch observed) && not (flag e.base.update_any)
      then (ok false, s)
      else update_by_strategy (e.base.strategy_by_gk e.client.group e.client.kind) observed desired
          s

  abbrev pub add_owner : Object → Object
  add_owner obj =
      if flag e.base.is_watch_owner
      then owners.set_owner_references obj
          (owners.get_owner_references obj ++ make_owner_ref api e.base.watch ∷ [])
      else obj

  -- What is sent for a new object that has its last applied state.
  unfoldable pub creation : Object → Object
  creation saved =
      add_owner (annotate api attachment_create_annotation_key (api.get_uid e.base.watch) saved)

  unfoldable pub create : Object → S → Result ManageError Bool × S
  create desired s =
      elim (set_last_applied_by_ann_key api json desired desired (last_applied_key api e.base)) [
        | err failure ↦ (err (api_failed failure), s)
        | ok saved ↦
            written
              (server.create e.client (namespace_or_watch api e.base desired) (creation saved) s)
      ]

  abbrev pub create_or_update_one : String → Object → Progress S → Progress S
  create_or_update_one name obj (errs, s) = elim (lookup name e.observed) [
    | some old ↦ note_write errs (update old obj s)
    | none ↦ note_write errs (create obj s)
  ]

  unfoldable pub create_or_update_all : Dict Object → Progress S → Progress S
  create_or_update_all [] p = p
  create_or_update_all ((name, obj) ∷ desired) p =
      create_or_update_all desired (create_or_update_one name obj p)

  abbrev pub explicit_update_one : String → Object → Progress S → Progress S
  explicit_update_one name obj (errs, s) = elim (lookup name e.observed) [
    | some old ↦ note_write errs (update old obj s)
    | none ↦ (errs, s)
  ]

  -- With nothing observed each update would be skipped, and all of them are.
  unfoldable pub explicit_update_all : Dict Object → Progress S → Progress S
  explicit_update_all [] p = p
  explicit_update_all ((name, obj) ∷ updates) p =
      explicit_update_all updates (explicit_update_one name obj p)

  abbrev pub delete_object : Object → Progress S → Progress S
  delete_object obj (errs, s) =
      note_found errs
        (server.delete e.client (api.get_namespace obj) (api.get_name obj) (api.get_uid obj) s)

  -- What is neither desired nor pending deletion, and was created due to the watch.
  unfoldable pub is_obsolete : String → Object → Bool
  is_obsolete name obj =
      if is_pending_delete api obj
      then false
      else if has name e.desired
      then false
      else is_created_by api e.base.watch obj || flag e.base.delete_any

  unfoldable pub is_explicit : String → Object → Bool
  is_explicit name obj =
      if has name e.explicit_deletes then not (is_pending_delete api obj) else false

  -- The loops of Delete and ExplicitDelete over the observed objects.
  unfoldable pub delete_where : (String → Object → Bool) → Dict Object → Progress S → Progress S
  delete_where test [] p = p
  delete_where test ((name, obj) ∷ observed) p =
      delete_where test observed (if test name obj then delete_object obj p else p)

unfoldable pub run_create_or_update :
    {S : Type 0} → Api → Json → Owners → StatesServer S → ResourceStates → Progress S → Progress S
run_create_or_update api json owners server e p =
    create_or_update_all api json owners server e e.desired p

unfoldable pub run_explicit_update :
    {S : Type 0} → Api → Json → Owners → StatesServer S → ResourceStates → Progress S → Progress S
run_explicit_update api json owners server e p =
    explicit_update_all api json owners server e e.explicit_updates p

unfoldable pub run_delete :
    {S : Type 0} → Api → Json → Owners → StatesServer S → ResourceStates → Progress S → Progress S
run_delete api json owners server e p =
    delete_where api json owners server e (is_obsolete api json owners server e) e.observed p

unfoldable pub run_explicit_delete :
    {S : Type 0} → Api → Json → Owners → StatesServer S → ResourceStates → Progress S → Progress S
run_explicit_delete api json owners server e p =
    delete_where api json owners server e (is_explicit api json owners server e) e.observed p

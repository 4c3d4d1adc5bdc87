-- ===== src/Manage.antt =====
-- controller/common/manage_children.go: the merge of one child, and the writes that bring the children
-- of a parent to what is desired. The registries are built from lists of objects, so that none of
-- their objects is nil. An observed child has metadata, and keys have a dot. The server is a
-- parameter, and its state is passed on by each call.
pub mod Deleting
pub mod Updating
pub mod Reverting
use metac.Prelude.{
  String, Bool, true, false, not, ◌||◌, Option, none, some, List, [], ◌∷◌, ◌++◌, Dict, lookup, has,
  ◌==◌, is_some, if◌then◌else◌,
}
use metac.Prelude.Results.{Result, ok, err, ◌>>=◌}
use metac.Value.{entries}
use metac.Value.Equal.{deep_equal}
use metac.Api.{ApiError, Object, Api, Json}
use metac.Apply.{MergeError, merge_objects}
use metac.Apply.LastApplied.{set_last_applied, get_last_applied}
use metac.Client.{Call}
use metac.Registry.{parse_key_to_api_version_kind}
use metac.UpdateStrategy.{child_update_on_delete}
use metac.Rolling.{rolling_in_place, rolling_recreate}

pub data ManageError : Type 0 where
  api_failed : ApiError → ManageError
  merge_failed : MergeError → ManageError
  bad_key unknown_method : ManageError

abbrev pub of_api : {A : Type 0} → Result ApiError A → Result ManageError A
of_api (ok a) = ok a
of_api (err e) = err (api_failed e)

abbrev pub of_merge : {A : Type 0} → Result MergeError A → Result ManageError A
of_merge (ok a) = ok a
of_merge (err e) = err (merge_failed e)

abbrev pub object_meta_system_fields : List String
object_meta_system_fields =
    "selfLink" ∷ "uid" ∷ "resourceVersion" ∷ "generation" ∷ "creationTimestamp"
    ∷ "deletionTimestamp" ∷ []

abbrev pub value_or : {A : Type 0} → A → Result ApiError A → A
value_or old (err e) = old
value_or old (ok new) = new

module _ (api : Api) (json : Json) where
  unfoldable pub revert_field : Object → Object → List String → Result ApiError Object
  revert_field new_obj orig path = elim (api.nested_field orig path) [
    | err e ↦ err e
    | ok none ↦ ok (api.remove_nested_field new_obj path)
    | ok (some value) ↦ api.set_nested_field new_obj value path
  ]

  unfoldable pub revert_fields : Object → Object → List String → Result ApiError Object
  revert_fields new_obj orig [] = ok new_obj
  revert_fields new_obj orig (name ∷ names) = do
    reverted ← revert_field new_obj orig ("metadata" ∷ name ∷ [])
    revert_fields reverted orig names

  unfoldable pub revert_object_meta_system_fields : Object → Object → Result ApiError Object
  revert_object_meta_system_fields new_obj orig =
      revert_fields new_obj orig object_meta_system_fields

  -- Apply.Merge with the functions that it has by default. An error of the last step is dropped: the
  -- merged object then stays without the annotation.
  unfoldable pub apply_merge : Object → Object → Result ManageError Object
  apply_merge observed desired = do
    last ← of_api (get_last_applied api json observed)
    merged ← of_merge (merge_objects observed (entries last) desired)
    reverted ← of_api (revert_object_meta_system_fields merged observed)
    final ← of_api (revert_field reverted observed ("status" ∷ []))
    ok (value_or final (set_last_applied api json final desired))

-- metav1.OwnerReference
pub record OwnerReference : Type 0 where
  pub api_version : String
  pub kind : String
  pub name : String
  pub uid : String
  pub controller : Bool
  pub block_owner_deletion : Bool

pub record Owners : Type 0 where
  pub get_owner_references : Object → List OwnerReference
  pub set_owner_references : Object → List OwnerReference → Object

unfoldable pub make_owner_ref : Api → Object → OwnerReference
make_owner_ref api obj = record {
  api_version = api.get_api_version obj;
  kind = api.get_kind obj;
  name = api.get_name obj;
  uid = api.get_uid obj;
  controller = true;
  block_owner_deletion = true;
}

-- What GetClientForAPIVersionAndKind gives is used through its group and kind, and by these calls,
-- which take a namespace first. A deletion is on the condition of a uid.
pub record ChildServer (S : Type 0) : Type 0 where
  pub client_for : String → String → Result ApiError (String × String)
  pub delete : String → String → String → Call S (Unit {0})
  pub update : String → Object → Call S Object
  pub create : String → Object → Call S Object

-- The errors so far, those of one group among the others, and the state.
abbrev pub Progress : Type 0 → Type 0
Progress S = List ManageError × S

abbrev pub note : {S A : Type 0} → List ManageError → Result ApiError A × S → Progress S
note errs (ok a, s) = (errs, s)
note errs (err e, s) = (errs ++ api_failed e ∷ [], s)

module _ {S : Type 0} (api : Api) (server : ChildServer S) where
  abbrev pub delete_object : String → Object → Progress S → Progress S
  delete_object namespace obj (errs, s) =
      note errs (server.delete namespace (api.get_name obj) (api.get_uid obj) s)

  unfoldable pub delete_children : Dict Object → Dict Object → Progress S → Progress S
  delete_children desired [] p = p
  delete_children desired ((name, obj) ∷ observed) p = delete_children desired observed (
      if is_some (api.get_deletion_timestamp obj)
      then p
      else if not (has name desired)
      then delete_object (api.get_namespace obj) obj p
      else p)

module _ {S : Type 0} (api : Api) (json : Json) (owners : Owners) (server : ChildServer S)
    (method_of : String → String → String) where
  -- What is done with a merged child that differs from the observed one.
  unfoldable pub update_by_method :
      String → String → Object → Object → Object → Progress S → Progress S
  update_by_method method namespace old obj new (errs, s) =
      if method == child_update_on_delete || method == ""
      then (errs, s)
      else if method == "Recreate" || method == rolling_recreate
      then note errs (server.delete namespace (api.get_name obj) (api.get_uid old) s)
      else if method == "InPlace" || method == rolling_in_place
      then note errs (server.update namespace new s)
      else (errs ++ unknown_method ∷ [], s)

  unfoldable pub update_existing : String → String → Object → Object → Progress S → Progress S
  update_existing method namespace old obj p = elim (apply_merge api json old obj) [
    | err e ↦ (p.0 ++ e ∷ [], p.1)
    | ok new ↦
        if deep_equal new old
        then p
        else if is_some (api.get_deletion_timestamp old)
        then p
        else update_by_method method namespace old obj new p
  ]

  unfoldable pub create_child : Object → String → Object → Progress S → Progress S
  create_child parent namespace obj (errs, s) = elim (set_last_applied api json obj obj) [
    | err e ↦ (errs ++ api_failed e ∷ [], s)
    | ok saved ↦ note errs (
        server.create namespace
          (owners.set_owner_references saved
            (owners.get_owner_references saved ++ make_owner_ref api parent ∷ []))
          s)
  ]

  abbrev pub namespace_of : Object → Object → String
  namespace_of parent obj =
      if api.get_namespace obj == "" then api.get_namespace parent else api.get_namespace obj

  unfoldable pub update_child :
      Object → String → Dict Object → String → Object → Progress S → Progress S
  update_child parent method observed name obj p = elim (lookup name observed) [
    | some old ↦ update_existing method (namespace_of parent obj) old obj p
    | none ↦ create_child parent (namespace_of parent obj) obj p
  ]

  unfoldable pub update_children :
      Object → String → Dict Object → Dict Object → Progress S → Progress S
  update_children parent method observed [] p = p
  update_children parent method observed ((name, obj) ∷ desired) p =
      update_children parent method observed desired
        (update_child parent method observed name obj p)

  abbrev pub client_of : String → Result ManageError (String × String)
  client_of key = elim (parse_key_to_api_version_kind key) [
    | none ↦ err bad_key
    | some (api_version, kind) ↦ of_api (server.client_for api_version kind)
  ]

  unfoldable pub delete_groups : Dict (Dict Object) → Dict (Dict Object) → Progress S → Progress S
  delete_groups desired [] p = p
  delete_groups desired ((key, objects) ∷ observed) p =
      delete_groups desired observed (elim (client_of key) [
        | err e ↦ (p.0 ++ e ∷ [], p.1)
        | ok client ↦ delete_children api server (entries (lookup key desired)) objects p
      ])

  unfoldable pub update_groups :
      Object → Dict (Dict Object) → Dict (Dict Object) → Progress S → Progress S
  update_groups parent observed [] p = p
  update_groups parent observed ((key, objects) ∷ desired) p =
      update_groups parent observed desired (elim (client_of key) [
        | err e ↦ (p.0 ++ e ∷ [], p.1)
        | ok (group, kind) ↦
            update_children parent (method_of group kind) (entries (lookup key observed)) objects p
      ])

  unfoldable pub manage_children : Object → Dict (Dict Object) → Dict (Dict Object) → S → Progress S
  manage_children parent observed desired s =
      update_groups parent observed desired (delete_groups desired observed ([], s))

-- ===== src/Composite/Revisions.antt =====
-- controller/composite/controller_revision.go: the revisions of a parent, their hooks, and what follows
-- from all of them. The hooks of the revisions are called one after the other.
pub mod Same
pub mod Managing
pub mod Aggregate
use metac.Prelude.{
  ℕ, zero, suc, String, Bool, true, false, not, ◌&&◌, ◌||◌, Option, none, some, List, [], ◌∷◌, ◌++◌,
  Dict, lookup, has, insert, contains, ◌==◌, nat_eq, ltb, is_some, map, length, if◌then◌else◌,
}
use metac.Prelude.Int.{ℤ}
use metac.Prelude.Results.{Result, ok, err}
use metac.Prelude.Steps.{Step, continue, ◌>>=◌, ◌>>◌, return, fail, returned, failing_as, wrapped}
use metac.Value.{entries}
use metac.Value.Equal.{deep_equal}
use metac.Api.{ApiError, Object, Api, Json, Nested}
use metac.Client.{Call}
use metac.Finalizer.{should_finalize}
use metac.Selector.Labels.{Labels}
use metac.Registry.{
  AnyUnstructRegistry, find_by_group_kind_name, replace_by_reference, list,
  make_any_unstruct_registry_by_reference,
}
use metac.Manage.{OwnerReference, make_owner_ref}
use metac.Revision.{RevisionChildren, make_patch, apply_patch, prune_parent_revisions}
use metac.Revision.Naming.{controller_revision_name}
use metac.Rolling.{any_rolling}
use metac.Rolling.Update.{ParentRevision, Rollout, Rolled, StopError, sync_rolling_update}
use metac.Composite.{
  CompositeError, call_failed, Sync, SyncHookResponse, ParentController, ParentWorld, ParentLibrary,
  call_sync_hook, make_selector,
}

-- v1alpha1.ControllerRevision; the patch is its JSON text. Nil children, which a stored revision without
-- children comes back with, are `none`.
pub record ControllerRevision : Type 0 where
  pub name : String
  pub namespace : String
  pub uid : String
  pub labels : Dict String
  pub owner_references : List OwnerReference
  pub parent_patch : String
  pub children : Option (List RevisionChildren)

-- The client of the revisions of a namespace. A deletion is on the condition of a uid.
pub record RevisionServer (S : Type 0) : Type 0 where
  pub delete : String → String → Call S (Unit {0})
  pub update : ControllerRevision → Call S ControllerRevision
  pub create : ControllerRevision → Call S ControllerRevision

-- a == b on booleans
abbrev pub same_flag : Bool → Bool → Bool
same_flag true b = b
same_flag false b = not b

abbrev pub is_text : String → String → Dict String → Bool
is_text k v m = elim (lookup k m) [ none ↦ false | some w ↦ v == w ]

-- reflect.DeepEqual on revisions. It tells nil children from an empty list. The other lists and maps are
-- compared as they came from the server or as this controller made them, never one nil and the other empty.
abbrev pub same_names : List String → List String → Bool
same_names [] [] = true
same_names (a ∷ as_) (b ∷ bs) = a == b && same_names as_ bs
same_names _ _ = false

abbrev pub same_children : List RevisionChildren → List RevisionChildren → Bool
same_children [] [] = true
same_children (a ∷ as_) (b ∷ bs) =
    ((a.api_group == b.api_group) && ((a.kind == b.kind) && same_names a.names b.names))
    && same_children as_ bs
same_children _ _ = false

abbrev pub same_children_or_nil :
    Option (List RevisionChildren) → Option (List RevisionChildren) → Bool
same_children_or_nil none none = true
same_children_or_nil (some a) (some b) = same_children a b
same_children_or_nil none (some b) = false
same_children_or_nil (some a) none = false

abbrev pub same_owner : OwnerReference → OwnerReference → Bool
same_owner a b =
    (a.api_version == b.api_version)
    && ((a.kind == b.kind)
        && ((a.name == b.name)
            && ((a.uid == b.uid)
                && (same_flag a.controller b.controller
                    && same_flag a.block_owner_deletion b.block_owner_deletion))))

abbrev pub same_owners : List OwnerReference → List OwnerReference → Bool
same_owners [] [] = true
same_owners (a ∷ as_) (b ∷ bs) = same_owner a b && same_owners as_ bs
same_owners _ _ = false

abbrev pub has_labels : Dict String → Dict String → Bool
has_labels [] m = true
has_labels ((k, v) ∷ labels) m = is_text k v m && has_labels labels m

unfoldable pub same_revision : ControllerRevision → ControllerRevision → Bool
same_revision a b =
    (a.name == b.name)
    && ((a.namespace == b.namespace)
        && ((a.uid == b.uid)
            && ((a.parent_patch == b.parent_patch)
                && (same_children_or_nil a.children b.children
                    && (same_owners a.owner_references b.owner_references
                        && (nat_eq (length a.labels) (length b.labels)
                            && has_labels a.labels b.labels))))))

abbrev pub called : {S A : Type 0} → Result ApiError A × S → Result CompositeError (Unit {0}) × S
called (ok a, s) = (ok tt, s)
called (err e, s) = (err (call_failed e), s)

abbrev pub names_of : List ControllerRevision → List String
names_of revisions = map (λ (r : ControllerRevision). r.name) revisions

-- observedMap[name], where the last revision of a name counts
unfoldable pub find_revision : String → List ControllerRevision → Option ControllerRevision
find_revision name [] = none
find_revision name (r ∷ revisions) = elim (find_revision name revisions) [
  | some later ↦ some later
  | none ↦ if r.name == name then some r else none
]

module _ {S : Type 0} (api : Api) (server : RevisionServer S) (parent : Object) where
  -- Observed revisions that are not desired are deleted.
  unfoldable pub delete_revisions :
      List ControllerRevision → List ControllerRevision → Sync S (Unit {0})
  delete_revisions desired [] = return tt
  delete_revisions desired (r ∷ observed) =
      if not (contains r.name (names_of desired))
      then (do (λ s. called (server.delete r.name r.uid s)); delete_revisions desired observed)
      else delete_revisions desired observed

  abbrev pub owned : ControllerRevision → ControllerRevision
  owned r = record r { owner_references = r.owner_references ++ make_owner_ref api parent ∷ [] }

  abbrev pub write_revision : Option ControllerRevision → ControllerRevision → Sync S (Unit {0})
  write_revision none r = λ s. called (server.create (owned r) s)
  write_revision (some old) r =
      if same_revision old r then return tt else (λ s. called (server.update r s))

  unfoldable pub write_revisions :
      List ControllerRevision → List ControllerRevision → Sync S (Unit {0})
  write_revisions observed [] = return tt
  write_revisions observed (r ∷ desired) = do
    write_revision (find_revision r.name observed) r
    write_revisions observed desired

  unfoldable pub manage_revisions :
      List ControllerRevision → List ControllerRevision → Sync S (Unit {0})
  manage_revisions observed desired = do
    delete_revisions desired observed
    write_revisions observed desired

-- The smallest positive number wins.
unfoldable pub aggregate_resync : ℕ → List SyncHookResponse → ℕ
aggregate_resync acc [] = acc
aggregate_resync acc (r ∷ results) =
    aggregate_resync
      (if ltb 0 r.resync_after_seconds && (nat_eq acc 0 || ltb r.resync_after_seconds acc)
        then r.resync_after_seconds
        else acc)
      results

unfoldable pub aggregate_finalized : List SyncHookResponse → Bool
aggregate_finalized [] = true
aggregate_finalized (r ∷ results) =
    let rest = aggregate_finalized results in if not r.finalized then false else rest

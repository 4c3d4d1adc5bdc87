-- ===== src/Composite/Rollouts.antt =====
-- controller/composite/controller_revision.go, syncRevisions: the sync hook for every revision of the
-- parent, the rollout, and the result of all of them.
use metac.Prelude.{
  ℕ, String, not, ◌&&◌, ◌||◌, Option, none, some, List, [], ◌∷◌, ◌++◌, Dict, insert, ◌==◌, is_some,
  map, if◌then◌else◌,
}
use metac.Prelude.Results.{Result, ok, err}
use metac.Prelude.Steps.{continue, ◌>>=◌, ◌>>◌, return, fail, returned, wrapped}
use metac.Value.{entries}
use metac.Value.Equal.{deep_equal}
use metac.Api.{ApiError, not_found, Object, Api, Json, Nested}
use metac.Client.{Call, and_then}
use metac.Finalizer.{should_finalize}
use metac.Selector.Labels.{Labels}
use metac.Registry.{
  AnyUnstructRegistry, find_by_group_kind_name, replace_by_reference, list,
  make_any_unstruct_registry_by_reference,
}
use metac.Manage.{Owners}
use metac.Revision.{RevisionChildren, make_patch, apply_patch, prune_parent_revisions}
use metac.Revision.Naming.{controller_revision_name}
use metac.Rolling.{any_rolling}
use metac.Rolling.Update.{ParentRevision, StopError, sync_rolling_update}
use metac.Claiming.{Claim, Claims, done, gone_is_fine, bulk_claim}
use metac.Composite.{
  CompositeError, call_failed, claims_failed, panicked, Sync, SyncHookResponse, ParentController,
  ParentWorld, ParentLibrary, call_sync_hook, make_selector,
}
use metac.Composite.Children.{can_adopt_func}
use metac.Composite.Revisions.{
  ControllerRevision, RevisionServer, manage_revisions, aggregate_resync, aggregate_finalized,
}

abbrev pub label_key_api_group : String
label_key_api_group = "metac.openebs.io/apiGroup"

abbrev pub label_key_resource : String
label_key_resource = "metac.openebs.io/resource"

-- What the revisions need: their server, their lister, and ClaimManager.Claim for them; the field paths of the
-- revision history; the labels of the template of a parent, and the text of an error.
pub record RevisionWorld (S : Type 0) : Type 0 where
  pub revision_server : String → RevisionServer S
  pub get_revision : String → String → Call S ControllerRevision
  pub retry_on_conflict : Call S ControllerRevision → Call S ControllerRevision
  pub list_revisions : String → Result ApiError (List ControllerRevision)
  pub claim_revision : Object → Claim S ControllerRevision
  pub history_field_paths : List String
  pub parent_resource : String
  pub template_labels : Object → Option (Dict String)
  pub describe : StopError → String
  pub sha1_sum : String → List ℕ

-- A revision of the parent: the parent as it was, its record, and what its hook returned.
pub record Materialised : Type 0 where
  pub parent : Object
  pub revision : ControllerRevision

abbrev pub Hooked : Type 0
Hooked = Materialised × SyncHookResponse

module _ {S : Type 0} (api : Api) (json : Json) (nested : Nested) (labels : Labels)
    (owners : Owners) (lib : ParentLibrary) (world : ParentWorld S) (revisions : RevisionWorld S)
    (pc : ParentController S) where
  abbrev pub same_object : ControllerRevision → ControllerRevision → Call S ControllerRevision
  same_object orig current s =
      if not (current.uid == orig.uid) then (err not_found, s) else (ok current, s)

  -- updateWithRetries: the changed revision is not sent to the server.
  unfoldable pub update_with_retries : ControllerRevision → Call S (Unit {0})
  update_with_retries orig s = done (
      revisions.retry_on_conflict
        (λ t. and_then (revisions.get_revision orig.namespace orig.name t) (same_object orig)) s)

  unfoldable pub adopt_revision : Object → ControllerRevision → Call S (Unit {0})
  adopt_revision parent revision s =
      and_then (can_adopt_func api labels owners lib world pc parent s)
        (λ allowed. update_with_retries revision)

  unfoldable pub release_revision : ControllerRevision → Call S (Unit {0})
  release_revision revision s = gone_is_fine (update_with_retries revision s)

  abbrev pub claimed_revisions :
      Claims S ControllerRevision → Result CompositeError (List ControllerRevision) × S
  claimed_revisions (claimed, [], s) = (ok claimed, s)
  claimed_revisions (claimed, e ∷ errlist, s) = (err (claims_failed (e ∷ errlist)), s)

  -- Labels keep the revisions of different types of parents apart.
  unfoldable pub claim_revisions : Object → Sync S (List ControllerRevision)
  claim_revisions parent = do
    selector ← returned (
        make_selector api labels lib pc parent (
          (label_key_api_group, pc.parent_group)
          ∷ (label_key_resource, revisions.parent_resource)
          ∷ []))
    all ← returned (wrapped call_failed (revisions.list_revisions (api.get_namespace parent)))
    (λ s. claimed_revisions (
        bulk_claim (revisions.claim_revision parent) (λ r. selector r.labels)
          (adopt_revision parent) release_revision all s))

  -- The whole spec, where no field paths are given.
  abbrev pub field_paths : List String
  field_paths = elim revisions.history_field_paths [
    | [] ↦ "spec" ∷ []
    | path ∷ paths ↦ path ∷ paths
  ]

  abbrev pub Found : Type 0
  Found = Option ControllerRevision × List Materialised

  -- A revision with the latest patch is the latest; the patch of another is applied to the parent.
  abbrev pub materialise_one : Object → Object → ControllerRevision → Object → Found → Found
  materialise_one parent latest_patch r patch (latest, others) =
      if deep_equal patch latest_patch then (some r, others) else (
        latest,
        others
            ++ record { parent = apply_patch nested parent patch field_paths; revision = r } ∷ [],
      )

  unfoldable pub materialise :
      Object → Object → List ControllerRevision → Found → Result CompositeError Found
  materialise parent latest_patch [] found = ok found
  materialise parent latest_patch (r ∷ observed) found = elim (json.unmarshal r.parent_patch) [
    | err e ↦ err (call_failed e)
    | ok patch ↦
        materialise parent latest_patch observed (materialise_one parent latest_patch r patch found)
  ]

  unfoldable pub new_controller_revision :
      Object → Object → Result CompositeError ControllerRevision
  new_controller_revision parent patch = elim (json.marshal patch) [
    | err e ↦ err (call_failed e)
    | ok patch_data ↦ ok (record {
      name =
          controller_revision_name revisions.sha1_sum revisions.parent_resource pc.parent_group
            (api.get_uid parent) patch_data;
      namespace = api.get_namespace parent;
      uid = "";
      labels =
          insert label_key_resource revisions.parent_resource (
            insert label_key_api_group pc.parent_group
              (entries (revisions.template_labels parent)));
      owner_references = [];
      parent_patch = patch_data;
      children = none;
    })
  ]

  abbrev pub latest_or_new :
      Object → Object → Option ControllerRevision → Result CompositeError ControllerRevision
  latest_or_new parent patch (some r) = ok r
  latest_or_new parent patch none = new_controller_revision parent patch

  abbrev pub add_answer :
      Materialised
      → (S → Result CompositeError (List Hooked) × S)
      → Result CompositeError SyncHookResponse × S
      → Result CompositeError (List Hooked) × S
  add_answer rev rest (ok response, s) =
      continue (λ answers. return ((rev, response) ∷ answers)) (rest s)
  add_answer rev rest (err e, s) = (err e, (rest s).1)

  -- The hooks run at the same time in the source; here in the order of the revisions. All are called, and the
  -- first error counts.
  unfoldable pub call_hooks : AnyUnstructRegistry → List Materialised → Sync S (List Hooked)
  call_hooks observed [] s = (ok [], s)
  call_hooks observed (rev ∷ revs) s =
      add_answer rev (call_hooks observed revs) (call_sync_hook api pc rev.parent observed s)

  abbrev pub parent_revision : Object → Hooked → ParentRevision
  parent_revision parent (rev, response) = record {
    name = rev.revision.name;
    children = entries rev.revision.children;
    desired = make_any_unstruct_registry_by_reference api parent response.children;
    sync_children = response.children;
    status = response.status;
  }

  -- What is kept of the others: their records and answers stand beside them.
  abbrev pub Kept : Type 0
  Kept = ParentRevision × Hooked

  abbrev pub beside : List ParentRevision → List Hooked → List Kept
  beside [] hooked = []
  beside (pr ∷ prs) [] = []
  beside (pr ∷ prs) (h ∷ hooked) = (pr, h) ∷ beside prs hooked

  abbrev pub desired_revision : Kept → ControllerRevision
  desired_revision (pr, (rev, response)) = record rev.revision { children = some pr.children }

  abbrev pub answer_of : Kept → SyncHookResponse
  answer_of (pr, (rev, response)) = response

  abbrev pub replace_found : Object → Option Object → AnyUnstructRegistry → AnyUnstructRegistry
  replace_found parent none desired = desired
  replace_found parent (some child) desired = replace_by_reference api parent child desired

  -- The children that another revision still claims are those that it desires.
  unfoldable pub overwrite_names :
      Object
      → AnyUnstructRegistry
      → String
      → String
      → List String
      → AnyUnstructRegistry
      → AnyUnstructRegistry
  overwrite_names parent from g k [] desired = desired
  overwrite_names parent from g k (name ∷ names) desired =
      overwrite_names parent from g k names
        (replace_found parent (find_by_group_kind_name g k name from) desired)

  unfoldable pub overwrite_groups :
      Object
      → AnyUnstructRegistry
      → List RevisionChildren
      → AnyUnstructRegistry
      → AnyUnstructRegistry
  overwrite_groups parent from [] desired = desired
  overwrite_groups parent from (ck ∷ cks) desired =
      overwrite_groups parent from cks
        (overwrite_names parent from ck.api_group ck.kind ck.names desired)

  unfoldable pub overwrite : Object → List Kept → AnyUnstructRegistry → AnyUnstructRegistry
  overwrite parent [] desired = desired
  overwrite parent ((pr, h) ∷ others) desired =
      overwrite parent others (overwrite_groups parent pr.desired pr.children desired)

  abbrev pub objects : List (Option Object) → List Object
  objects [] = []
  objects (none ∷ rest) = objects rest
  objects (some obj ∷ rest) = obj ∷ objects rest

  unfoldable pub aggregate : Object → Kept → List Kept → SyncHookResponse
  aggregate parent latest others = record {
    status = latest.0.status;
    children = objects (list (overwrite parent others latest.0.desired));
    resync_after_seconds = aggregate_resync 0 (map answer_of (latest ∷ others));
    finalized = aggregate_finalized (map answer_of (latest ∷ others));
  }

  abbrev pub persist : Object → List ControllerRevision → Kept → List Kept → Sync S SyncHookResponse
  persist parent observed latest others = do
    manage_revisions api (revisions.revision_server (api.get_namespace parent)) parent observed
        (map desired_revision (latest ∷ others))
    return (aggregate parent latest others)

  abbrev pub pruned : Kept → List Kept → List Kept
  pruned latest others =
      elim (prune_parent_revisions (λ (p : Kept). some p.0.children) latest others) [
        | [] ↦ []
        | first ∷ rest ↦ rest
      ]

  abbrev pub roll_out :
      Object
      → AnyUnstructRegistry
      → List ControllerRevision
      → Hooked
      → List Hooked
      → Sync S SyncHookResponse
  roll_out parent children observed latest others =
      elim (sync_rolling_update api json nested lib.get_generation revisions.describe
        pc.update_strategy (parent_revision parent latest) (map (parent_revision parent) others)
        children) [
          | none ↦ fail panicked
          | some (rolled, rollout) ↦
              persist parent observed (rollout.latest, latest)
                (pruned (rollout.latest, latest) (beside rollout.others others))
        ]

  abbrev pub roll_hooked :
      Object → AnyUnstructRegistry → List ControllerRevision → List Hooked → Sync S SyncHookResponse
  roll_hooked parent children observed [] = fail panicked
  roll_hooked parent children observed (latest ∷ others) =
      roll_out parent children observed latest others

  unfoldable pub sync_all_revisions : Object → AnyUnstructRegistry → Sync S SyncHookResponse
  sync_all_revisions parent children = do
    observed ← claim_revisions parent
    found ← returned (materialise parent (make_patch nested parent field_paths) observed (none, []))
    latest ← returned (latest_or_new parent (make_patch nested parent field_paths) found.0)
    hooked ← call_hooks children (record { parent = parent; revision = latest } ∷ found.1)
    roll_hooked parent children observed hooked

  -- The hook is called once where no kind of children has a rolling strategy, and where the parent is
  -- pending deletion and not to be finalized.
  unfoldable pub sync_revisions : Object → AnyUnstructRegistry → Sync S SyncHookResponse
  sync_revisions parent children =
      if not (any_rolling pc.update_strategy)
        || (is_some (api.get_deletion_timestamp parent)
            && not (should_finalize api pc.finalizer parent))
      then call_sync_hook api pc parent children
      else sync_all_revisions parent children

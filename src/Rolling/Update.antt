-- ===== src/Rolling/Update.antt =====
-- controller/composite/rolling_update.go: the move of the children of a parent to its latest revision, at
-- most one in a pass beside those that need no change. A revision other than the latest is known by its
-- position. The keys of a registry have a dot, and its objects are not nil.
pub mod Next
pub mod Settled
pub mod Progress
use metac.Prelude.{
  ℕ, zero, suc, String, Bool, true, false, not, ◌&&◌, Option, none, some, List, [], ◌∷◌, Dict,
  lookup, modify_at, map, ◌==◌, if◌then◌else◌,
}
use metac.Prelude.Int.{ℤ, pos, lt_int}
use metac.Prelude.Text.{concat}
use metac.Prelude.Results.{Result, ok, err, ◌>>=◌, ◌>>◌}
use metac.Value.{entries}
use metac.Value.Equal.{deep_equal}
use metac.Api.{Object, Api, Json, Nested}
use metac.Object.Status.{StatusCondition, set_condition, get_observed_generation}
use metac.Registry.{
  AnyUnstructRegistry, Group, find_by_group_kind_name, parse_key_to_api_version_kind,
  parse_api_version_to_group_version,
}
use metac.Revision.{RevisionChildren, add_child, remove_child, get_kind, set_parent_revision}
use metac.Apply.LastApplied.{get_last_applied}
use metac.Manage.{ManageError, api_failed, apply_merge}
use metac.Rolling.{
  ChildUpdateStrategy, UpdateStrategyMap, ClaimMap, CheckError, get_strategy, is_rolling,
  is_rolling_strategy, child_status_check, rolling_in_place, sync_revision_claims,
}

-- parentRevision, with what its sync hook returned.
pub record ParentRevision : Type 0 where
  pub name : String
  pub children : List RevisionChildren
  pub desired : AnyUnstructRegistry
  pub sync_children : List Object
  pub status : Option Object

-- Why a rollout waits. To merge a child that the latest revision does not desire is a panic.
pub data StopError : Type 0 where
  missing_child not_updated not_observed nil_desired : String → String → StopError
  cannot_check : String → String → ManageError → StopError
  failed_status : String → String → CheckError → StopError

-- The latest revision, the others, and which of them claims a child: 0 is the latest.
pub record Rollout : Type 0 where
  pub latest : ParentRevision
  pub others : List ParentRevision
  pub claims : ClaimMap ℕ

pub data Rolled : Type 0 where
  waiting : StopError → Rolled
  progressing : String → String → Rolled
  on_latest : Rolled

abbrev pub drop_child : String → String → String → ParentRevision → ParentRevision
drop_child g k name pr = record pr { children = remove_child g k name pr.children }

abbrev pub take_child : String → String → String → ParentRevision → ParentRevision
take_child g k name pr = record pr { children = add_child g k name pr.children }

abbrev pub group_of : Api → Object → String
group_of api child = (parse_api_version_to_group_version (api.get_api_version child)).0

abbrev pub claim_of : String → String → String → Rollout → Option ℕ
claim_of g k name st = lookup name (entries (get_kind g k st.claims))

-- pr == latest
abbrev pub is_latest : Option ℕ → Bool
is_latest (some zero) = true
is_latest _ = false

module _ (api : Api) (json : Json) (nested : Nested) (get_generation : Object → ℤ)
    (strategies : UpdateStrategyMap) (observed : AnyUnstructRegistry) where
  -- The merge succeeds and changes nothing.
  abbrev pub is_no_op : Object → Object → Bool
  is_no_op child desired = elim (apply_merge api json child desired) [
    | err e ↦ false
    | ok updated ↦ deep_equal child updated
  ]

  abbrev pub move_to_latest : String → String → String → ℕ → Rollout → Rollout
  move_to_latest g k name n st = record {
    latest = take_child g k name st.latest;
    others = modify_at (drop_child g k name) st.others n;
    claims = set_parent_revision g k name 0 st.claims;
  }

  abbrev pub give_to_latest : String → String → String → Rollout → Rollout
  give_to_latest g k name st = record st {
    latest = take_child g k name st.latest;
    claims = set_parent_revision g k name 0 st.claims;
  }

  abbrev pub settle_claimed : String → String → String → Object → ℕ → Rollout → Rollout
  settle_claimed g k name desired n st = elim (find_by_group_kind_name g k name observed) [
    | none ↦ st
    | some child ↦ if is_no_op child desired then move_to_latest g k name n st else st
  ]

  abbrev pub settle_child : String → String → String → Object → Option ℕ → Rollout → Rollout
  settle_child g k name desired none st = give_to_latest g k name st
  settle_child g k name desired (some zero) st = st
  settle_child g k name desired (some (suc n)) st = settle_claimed g k name desired n st

  unfoldable pub settle_group : String → String → Group → Rollout → Rollout
  settle_group g k [] st = st
  settle_group g k ((name, none) ∷ group) st = settle_group g k group st
  settle_group g k ((name, some desired) ∷ group) st =
      settle_group g k group (settle_child g k name desired (claim_of g k name st) st)

  abbrev pub settle_if_rolling : Option (String × String) → Group → Rollout → Rollout
  settle_if_rolling none group st = st
  settle_if_rolling (some (api_version, kind)) group st =
      if is_rolling strategies (parse_api_version_to_group_version api_version).0 kind
      then settle_group (parse_api_version_to_group_version api_version).0 kind group st
      else st

  -- Children that no revision claims, and those that the latest revision would not change, are given to it.
  unfoldable pub settle_groups : AnyUnstructRegistry → Rollout → Rollout
  settle_groups [] st = st
  settle_groups ((key, group) ∷ desired) st =
      settle_groups desired (settle_if_rolling (parse_key_to_api_version_kind key) group st)

  -- The latest generation was observed, or the child does not say which was.
  abbrev pub has_observed : String → Object → Bool
  has_observed method child = not (
      (method == rolling_in_place)
      && (lt_int (pos 0) (get_observed_generation nested child)
          && lt_int (get_observed_generation nested child) (get_generation child)))

  abbrev pub check_merged :
      ChildUpdateStrategy
      → String
      → String
      → Object
      → Result ManageError Object
      → Result StopError (Unit {0})
  check_merged strategy kind name child (err e) = err (cannot_check kind name e)
  check_merged strategy kind name child (ok updated) =
      if not (deep_equal child updated)
      then err (not_updated kind name)
      else if not (has_observed strategy.method child)
      then err (not_observed kind name)
      else elim (child_status_check nested strategy.conditions child) [
        | err e ↦ err (failed_status kind name e)
        | ok done ↦ ok tt
      ]

  abbrev pub check_child :
      ChildUpdateStrategy
      → String
      → String
      → Option Object
      → Option Object
      → Result StopError (Unit {0})
  check_child strategy kind name none update = err (missing_child kind name)
  check_child strategy kind name (some child) none = elim (get_last_applied api json child) [
    | err e ↦ err (cannot_check kind name (api_failed e))
    | ok last ↦ err (nil_desired kind name)
  ]
  check_child strategy kind name (some child) (some update) =
      check_merged strategy kind name child (apply_merge api json child update)

  unfoldable pub check_names :
      AnyUnstructRegistry
      → ChildUpdateStrategy
      → String
      → String
      → List String
      → Result StopError (Unit {0})
  check_names desired strategy g k [] = ok tt
  check_names desired strategy g k (name ∷ names) = do
    check_child strategy k name (find_by_group_kind_name g k name observed)
        (find_by_group_kind_name g k name desired)
    check_names desired strategy g k names

  abbrev pub check_group :
      AnyUnstructRegistry
      → RevisionChildren
      → Option ChildUpdateStrategy
      → Result StopError (Unit {0})
  check_group desired ck none = ok tt
  check_group desired ck (some strategy) =
      if is_rolling_strategy (some strategy)
      then check_names desired strategy ck.api_group ck.kind ck.names
      else ok tt

  unfoldable pub check_groups :
      AnyUnstructRegistry → List RevisionChildren → Result StopError (Unit {0})
  check_groups desired [] = ok tt
  check_groups desired (ck ∷ cks) = do
    check_group desired ck (get_strategy strategies ck.api_group ck.kind)
    check_groups desired cks

  unfoldable pub should_continue_rolling : ParentRevision → Result StopError (Unit {0})
  should_continue_rolling latest = check_groups latest.desired latest.children

  abbrev pub push_child : String → String → String → Rollout → Rollout
  push_child g k name st = record st {
    latest = take_child g k name st.latest;
    others = map (drop_child g k name) st.others;
  }

  abbrev pub push_or_wait :
      String → String → String → Rollout → Result StopError (Unit {0}) → Rolled × Rollout
  push_or_wait g k name st (err e) = (waiting e, st)
  push_or_wait g k name st (ok done) = (progressing k name, push_child g k name st)

  -- The first child in the order of the hook that the latest revision does not claim is moved to it.
  unfoldable pub roll_next : List Object → Rollout → Rolled × Rollout
  roll_next [] st = (on_latest, st)
  roll_next (child ∷ children) st =
      let rest = roll_next children st in
      if not (is_rolling strategies (group_of api child) (api.get_kind child))
      then rest
      else if is_latest (claim_of (group_of api child) (api.get_kind child) (api.get_name child) st)
      then rest
      else push_or_wait (group_of api child) (api.get_kind child) (api.get_name child) st
          (should_continue_rolling st.latest)

-- The revisions with their positions, as syncRevisionClaims goes through them.
abbrev pub numbered : ℕ → List ParentRevision → List (ℕ × List RevisionChildren)
numbered n [] = []
numbered n (pr ∷ revisions) = (n, pr.children) ∷ numbered (suc n) revisions

abbrev pub with_children :
    List ParentRevision → List (ℕ × List RevisionChildren) → List ParentRevision
with_children [] found = []
with_children (pr ∷ revisions) [] = []
with_children (pr ∷ revisions) ((n, cks) ∷ found) =
    record pr { children = cks } ∷ with_children revisions found

abbrev pub claimed_rollout :
    ParentRevision → List ParentRevision → ClaimMap ℕ × List (ℕ × List RevisionChildren) → Rollout
claimed_rollout latest others (claims, []) = record {
  latest = latest;
  others = others;
  claims = claims;
}
claimed_rollout latest others (claims, (n, cks) ∷ found) = record {
  latest = record latest { children = cks };
  others = with_children others found;
  claims = claims;
}

unfoldable pub claim_rollout : UpdateStrategyMap → ParentRevision → List ParentRevision → Rollout
claim_rollout strategies latest others =
    claimed_rollout latest others
      (sync_revision_claims strategies latest.desired (numbered 0 (latest ∷ others)))

-- The condition that explains the rollout, with the text of an error.
abbrev pub rolled_condition : (StopError → String) → String → Rolled → StatusCondition
rolled_condition describe revision (waiting e) = record {
  type = "Updated";
  status = "False";
  reason = "RolloutWaiting";
  message = describe e;
}
rolled_condition describe revision (progressing kind name) = record {
  type = "Updated";
  status = "False";
  reason = "RolloutProgressing";
  message = concat ("updating " ∷ kind ∷ " " ∷ name ∷ []);
}
rolled_condition describe revision on_latest = record {
  type = "Updated";
  status = "True";
  reason = "OnLatestRevision";
  message = concat ("latest ControllerRevision: " ∷ revision ∷ []);
}

module _ (api : Api) (json : Json) (nested : Nested) (get_generation : Object → ℤ)
    (describe : StopError → String) (strategies : UpdateStrategyMap) where
  -- A write into a nil status is a panic.
  abbrev pub put_status : Rolled × Rollout → Option (Rolled × Rollout)
  put_status (waiting (nil_desired kind name), st) = none
  put_status (rolled, st) = elim st.latest.status [
    | none ↦ none
    | some status ↦ some (
      rolled,
      record st {
        latest = record st.latest {
          status =
              some (set_condition nested status (rolled_condition describe st.latest.name rolled));
        };
      },
    )
  ]

  unfoldable pub sync_rolling_update :
      ParentRevision → List ParentRevision → AnyUnstructRegistry → Option (Rolled × Rollout)
  sync_rolling_update latest others observed = put_status (
      roll_next api json nested get_generation strategies observed latest.sync_children (
        settle_groups api json nested get_generation strategies observed latest.desired
          (claim_rollout strategies latest others)))

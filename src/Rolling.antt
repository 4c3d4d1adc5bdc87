-- ===== src/Rolling.antt =====
-- controller/composite/rolling_update.go: the strategies of the kinds of children, the checks of their
-- status, and the claims of the revisions of a parent.
pub mod Checks
pub mod Names
pub mod Claims
pub mod Dropped
pub mod Update
use metac.Prelude.{
  ℕ, suc, String, Bool, true, false, not, ◌||◌, Option, none, some, List, [], ◌∷◌, ◌++◌, Dict,
  lookup, has, insert, ◌==◌, is_some, if◌then◌else◌,
}
use metac.Prelude.Results.{Result, ok, err, ◌>>=◌, ◌>>◌}
use metac.Value.{entries}
use metac.Api.{Object, Nested}
use metac.Object.Status.{StatusCondition, get_status_condition}
use metac.Registry.{
  AnyUnstructRegistry, find_by_group_kind_name, parse_api_version_to_group_version,
}
use metac.Revision.{RevisionChildren, claim_map_key, get_kind, set_parent_revision}
use metac.UpdateStrategy.{child_update_on_delete}

abbrev pub rolling_in_place : String
rolling_in_place = "RollingInPlace"

abbrev pub rolling_recreate : String
rolling_recreate = "RollingRecreate"

-- v1alpha1.StatusConditionCheck; a nil status or reason is `none`.
pub record StatusConditionCheck : Type 0 where
  pub type : String
  pub status : Option String
  pub reason : Option String

-- v1alpha1.CompositeControllerChildUpdateStrategy, its status checks given by their conditions.
pub record ChildUpdateStrategy : Type 0 where
  pub method : String
  pub conditions : List StatusConditionCheck

abbrev pub UpdateStrategyMap : Type 0
UpdateStrategyMap = Dict ChildUpdateStrategy

unfoldable pub get_strategy : UpdateStrategyMap → String → String → Option ChildUpdateStrategy
get_strategy m api_group kind = lookup (claim_map_key api_group kind) m

unfoldable pub is_rolling_strategy : Option ChildUpdateStrategy → Bool
is_rolling_strategy none = false
is_rolling_strategy (some strategy) =
    strategy.method == rolling_in_place || strategy.method == rolling_recreate

abbrev pub child_method : Option ChildUpdateStrategy → String
child_method none = child_update_on_delete
child_method (some strategy) =
    if strategy.method == "" then child_update_on_delete else strategy.method

unfoldable pub get_method : UpdateStrategyMap → String → String → String
get_method m api_group kind = child_method (get_strategy m api_group kind)

unfoldable pub is_rolling : UpdateStrategyMap → String → String → Bool
is_rolling m api_group kind = is_rolling_strategy (get_strategy m api_group kind)

unfoldable pub any_rolling : UpdateStrategyMap → Bool
any_rolling [] = false
any_rolling ((key, strategy) ∷ m) =
    let rest = any_rolling m in if is_rolling_strategy (some strategy) then true else rest

pub record ChildResource : Type 0 where
  pub api_version : String
  pub resource : String
  pub update_strategy : Option ChildUpdateStrategy

pub data StrategyError : Type 0 where
  no_resource : StrategyError

-- A resource that is not known is an error here.
module _ (kind_of : String → String → Option String) where
  unfoldable pub child_strategy :
      ChildResource → Result StrategyError (Option (String × ChildUpdateStrategy))
  child_strategy child = elim child.update_strategy [
    | none ↦ ok none
    | some strategy ↦
        if strategy.method == child_update_on_delete
        then ok none
        else elim (kind_of child.api_version child.resource) [
          | none ↦ err no_resource
          | some kind ↦ ok (
              some (
                claim_map_key (parse_api_version_to_group_version child.api_version).0 kind,
                strategy,
              ))
        ]
  ]

  abbrev store_child : Option (String × ChildUpdateStrategy) → UpdateStrategyMap → UpdateStrategyMap
  store_child none m = m
  store_child (some (key, strategy)) m = insert key strategy m

  unfoldable pub add_children :
      List ChildResource → UpdateStrategyMap → Result StrategyError UpdateStrategyMap
  add_children [] m = ok m
  add_children (child ∷ children) m = do
    found ← child_strategy child
    add_children children (store_child found m)

  unfoldable pub make_update_strategy_map :
      List ChildResource → Result StrategyError UpdateStrategyMap
  make_update_strategy_map children = add_children children []

pub data CheckError : Type 0 where
  condition_missing wrong_status wrong_reason : CheckError

-- want != nil && got != *want
abbrev pub differs : Option String → String → Bool
differs none got = false
differs (some want) got = not (got == want)

abbrev pub check_condition :
    StatusConditionCheck → Option StatusCondition → Result CheckError (Unit {0})
check_condition check none = err condition_missing
check_condition check (some cond) =
    if differs check.status cond.status
    then err wrong_status
    else if differs check.reason cond.reason
    then err wrong_reason
    else ok tt

unfoldable pub child_status_check :
    Nested → List StatusConditionCheck → Object → Result CheckError (Unit {0})
child_status_check nested [] child = ok tt
child_status_check nested (check ∷ checks) child = do
  check_condition check (get_status_condition nested child check.type)
  child_status_check nested checks child

-- childClaimMap
abbrev pub ClaimMap : Type 0 → Type 0
ClaimMap P = Dict (Dict P)

abbrev pub is_desired : AnyUnstructRegistry → String → String → String → Bool
is_desired desired api_group kind name =
    is_some (find_by_group_kind_name api_group kind name desired)

-- The group is kept as it was, with all of its names, if one of them was claimed.
abbrev pub keep_group :
    RevisionChildren → List String → List RevisionChildren → List RevisionChildren
keep_group ck [] children = children
keep_group ck (name ∷ names) children = children ++ ck ∷ []

module _ {P : Type 0} (desired : AnyUnstructRegistry) where
  -- The loop over the names of a group.
  unfoldable pub claim_names :
      String → String → P → List String → ClaimMap P → List String → ClaimMap P × List String
  claim_names g k pr [] claimed names = (claimed, names)
  claim_names g k pr (name ∷ rest) claimed names = elim (is_desired desired g k name) [
    | false ↦ claim_names g k pr rest claimed names
    | true ↦ elim (has name (entries (get_kind g k claimed))) [
      | true ↦ claim_names g k pr rest claimed names
      | false ↦
          claim_names g k pr rest (set_parent_revision g k name pr claimed) (names ++ name ∷ [])
    ]
  ]

module _ {P : Type 0} (strategies : UpdateStrategyMap) (desired : AnyUnstructRegistry) where
  -- The loop over the groups of a parent revision.
  unfoldable pub claim_groups :
      P
      → List RevisionChildren
      → ClaimMap P
      → List RevisionChildren
      → ClaimMap P × List RevisionChildren
  claim_groups pr [] claimed children = (claimed, children)
  claim_groups pr (ck ∷ cks) claimed children = elim (is_rolling strategies ck.api_group ck.kind) [
    | false ↦ claim_groups pr cks claimed children
    | true ↦
        let found = claim_names desired ck.api_group ck.kind pr ck.names claimed [] in
        claim_groups pr cks found.0 (keep_group ck found.1 children)
  ]

  -- The loop over the parent revisions, which gives each its new children.
  unfoldable pub claim_revisions :
      List (P × List RevisionChildren) → ClaimMap P → ClaimMap P × List (P × List RevisionChildren)
  claim_revisions [] claimed = (claimed, [])
  claim_revisions ((pr, cks) ∷ revisions) claimed =
      let found = claim_groups pr cks claimed [] in
      let rest = claim_revisions revisions found.0 in (rest.0, (pr, found.1) ∷ rest.1)

  -- syncRevisionClaims; `desired` is the map of the latest parent revision, the first of the list.
  unfoldable pub sync_revision_claims :
      List (P × List RevisionChildren) → ClaimMap P × List (P × List RevisionChildren)
  sync_revision_claims revisions = claim_revisions revisions []

-- ===== src/Examples/RollingOut.antt =====
-- Runs of the claims of revisions.
use metac.Prelude.{ℕ, String, true, false, ◌≡◌, refl, some, List, [], ◌∷◌, lookup, has, contains}
use metac.Prelude.Text.{has_byte, split_once}
use metac.Value.{str, entries}
use metac.Api.{Object}
use metac.Registry.{
  AnyUnstructRegistry, find_by_group_kind_name, is_group_kind, parse_key_to_api_version_kind,
  parse_api_version_to_group_version,
}
use metac.Revision.{RevisionChildren, claim_map_key, get_kind}
use metac.Revision.Claims.{claimed_by}
use metac.Rolling.{
  UpdateStrategyMap, ClaimMap, is_desired, is_rolling, get_strategy, is_rolling_strategy,
  claim_groups, sync_revision_claims,
}
use metac.Rolling.Claims.{AllDotFree, listed, sync_revision_claims-lem}
use metac.Rolling.Dropped.{claim_groups-keeps_dropped}

abbrev pub strategies : UpdateStrategyMap
strategies = ("Pod.", record { method = "RollingInPlace"; conditions = [] }) ∷ []

abbrev pub web : Object
web = ("apiVersion", str "v1") ∷ ("kind", str "Pod") ∷ ("name", str "web") ∷ []

abbrev pub desired : AnyUnstructRegistry
desired = ("Pod.v1", ("web", some web) ∷ []) ∷ []

abbrev pub pods : List String → List RevisionChildren
pods names = record { api_group = ""; kind = "Pod"; names = names } ∷ []

-- The latest revision is number 0.
abbrev others : List (ℕ × List RevisionChildren)
others = (1, pods ("web" ∷ [])) ∷ []

all_dot_free : AllDotFree ((0, pods ("web" ∷ [])) ∷ others)
unfolding has_byte
all_dot_free = ((refl, tt), ((refl, tt), tt))

sync_revision_claims_example :
    (is_rolling strategies "" "Pod" ≡ true
      → is_desired desired "" "Pod" "web" ≡ true
      → listed "" "Pod" "web" (pods ("web" ∷ [])) ≡ true
      → claimed_by "" "Pod" "web"
          (sync_revision_claims strategies desired ((0, pods ("web" ∷ [])) ∷ others)).0
        ≡ some 0)
    × ((p : ℕ)
        → claimed_by "" "Pod" "web"
            (sync_revision_claims strategies desired ((0, pods ("web" ∷ [])) ∷ others)).0
          ≡ some p
        → is_desired desired "" "Pod" "web" ≡ true)
sync_revision_claims_example =
    sync_revision_claims-lem strategies desired "" "Pod" "web" (unfold has_byte in refl) 0
      (pods ("web" ∷ [])) others all_dot_free

pub pods_roll : is_rolling strategies "" "Pod" ≡ true
unfolding is_rolling get_strategy is_rolling_strategy claim_map_key lookup
pods_roll = refl

pub web_desired : is_desired desired "" "Pod" "web" ≡ true
unfolding find_by_group_kind_name is_group_kind parse_key_to_api_version_kind
    parse_api_version_to_group_version split_once lookup
web_desired = refl

abbrev unclaimed : ClaimMap ℕ
unclaimed = []

web_free : has "web" (entries (get_kind "" "Pod" unclaimed)) ≡ false
unfolding get_kind has lookup
web_free = refl

-- No object is desired under the name old.
claim_groups-keeps_dropped_example :
    listed "" "Pod" "old"
      (claim_groups strategies desired 1 (pods ("old" ∷ "web" ∷ [])) unclaimed []).1
    ≡ true
claim_groups-keeps_dropped_example =
    claim_groups-keeps_dropped strategies desired 1
      (record { api_group = ""; kind = "Pod"; names = "old" ∷ "web" ∷ [] }) [] unclaimed [] "old"
      "web" pods_roll (unfold contains in refl) web_desired web_free (unfold contains in refl)

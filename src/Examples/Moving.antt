-- ===== src/Examples/Moving.antt =====
-- Runs of a pass of a rolling update.
use metac.Prelude.{contains, true, ◌≡◌, ◌⊎◌, refl, some, [], ◌∷◌, is_some}
use metac.Prelude.Int.{ℤ, pos}
use metac.Prelude.Text.{has_byte, split_once}
use metac.Api.{Object}
use metac.Registry.{
  is_group_kind, parse_key_to_api_version_kind, parse_api_version_to_group_version,
}
use metac.Rolling.Update.{
  should_continue_rolling, ParentRevision, Rollout, claim_of, roll_next, push_child, settle_groups,
}
use metac.Rolling.Update.Next.{AllNoRepeats, Outcome, first_pending, roll_next_lem}
use metac.Rolling.Update.Progress.{AllPlain, next_rollout, push_child-claimed}
use metac.Rolling.Update.Settled.{settle_groups-claimed}
use metac.Examples.{small_api, small_json, small_nested}
use metac.Examples.RollingOut.{strategies, desired, pods, web, pods_roll, web_desired}

abbrev generation_of : Object → ℤ
generation_of o = pos 1

abbrev latest : ParentRevision
latest = record {
  name = "new";
  children = [];
  desired = desired;
  sync_children = web ∷ [];
  status = some [];
}

abbrev old : ParentRevision
old = record {
  name = "old";
  children = pods ("web" ∷ []);
  desired = desired;
  sync_children = web ∷ [];
  status = some [];
}

abbrev before : Rollout
before = record { latest = latest; others = old ∷ []; claims = ("Pod.", ("web", 1) ∷ []) ∷ [] }

abbrev unclaimed : Rollout
unclaimed = record { latest = latest; others = []; claims = [] }

old_unrepeated : AllNoRepeats (old ∷ [])
unfolding contains
old_unrepeated = (((refl, tt), tt), tt)

roll_next_example :
    Outcome small_api
      (first_pending small_api strategies before (web ∷ []))
      (should_continue_rolling small_api small_json small_nested generation_of strategies [] latest)
      before
      (roll_next small_api small_json small_nested generation_of strategies [] (web ∷ []) before)
roll_next_example =
    roll_next_lem small_api small_json small_nested generation_of strategies [] (web ∷ []) before
      old_unrepeated

all_plain : AllPlain (latest ∷ old ∷ [])
unfolding has_byte
all_plain = (tt, ((refl, tt), tt))

push_child-claimed_example :
    claim_of "" "Pod" "web" (
      next_rollout strategies (
        push_child small_api small_json small_nested generation_of strategies [] "" "Pod" "web"
          before))
    ≡ some 0
push_child-claimed_example =
    push_child-claimed small_api small_json small_nested generation_of strategies [] "" "Pod" "web"
      before (unfold has_byte in refl) all_plain pods_roll web_desired

settle_groups-claimed_example :
    (is_some (
        claim_of "" "Pod" "web" (
          settle_groups small_api small_json small_nested generation_of strategies [] desired
            unclaimed))
      ≡ true)
    × ((claim_of "" "Pod" "web" (
            settle_groups small_api small_json small_nested generation_of strategies [] desired
              unclaimed)
          ≡ claim_of "" "Pod" "web" unclaimed)
        ⊎ (claim_of "" "Pod" "web" (
              settle_groups small_api small_json small_nested generation_of strategies [] desired
                unclaimed)
            ≡ some 0))
settle_groups-claimed_example =
    settle_groups-claimed small_api small_json small_nested generation_of strategies [] "" "Pod"
      "web" (unfold has_byte in refl) desired unclaimed pods_roll
      (unfold is_group_kind parse_key_to_api_version_kind parse_api_version_to_group_version
          split_once in
        refl)

-- ===== src/Examples/Attaching.antt =====
-- Runs of the writes of attachments.
use metac.Prelude.{
  String, true, false, ◌≡◌, ◌≢◌, refl, none, some, List, [], ◌∷◌, has, lookup, ◌==◌, if◌then◌else◌,
}
use metac.Prelude.Results.{ok, err}
use metac.Prelude.Text.{split_once}
use metac.Value.{entries, str, obj, of_dict}
use metac.Api.{not_found, Object}
use metac.Registry.{parse_key_to_api_version_kind}
use metac.Manage.{api_failed}
use metac.States.{
  create, written, namespace_or_watch, StatesBase, StatesServer, ResourceStates, update,
  merge_update, last_applied_key, is_created_by, run_delete, run_explicit_delete,
}
use metac.States.Cluster.{ClusterStates, client_of_key, apply}
use metac.States.Deleting.{chosen, obsolete, explicitly_deleted, delete_each, run_delete_lem}
use metac.States.Updating.{may_update, after_merge, OwnersLaws, update_lem, create-own}
use metac.States.Failing.{apply-no_client}
use metac.Examples.{small_api, small_api_laws, small_json}
use metac.Examples.Managing.{no_owners, web}

-- A server that keeps the names that it was asked to delete or was sent, and knows no version but v1.
abbrev pub pods_server : StatesServer (List String)
pods_server = record {
  client_for = λ v k. (if v == "v1" then ok (record { group = ""; kind = k }) else err not_found);
  delete = λ c ns name uid s. (ok tt, name ∷ s);
  update = λ c ns o s. (ok o, small_api.get_name o ∷ s);
  create = λ c ns o s. (ok o, small_api.get_name o ∷ s);
}

abbrev in_place : StatesBase
in_place = record {
  strategy_by_gk = λ g k. "InPlace";
  is_patch_by_gk = λ g k. false;
  watch = web;
  is_watch_owner = none;
  update_any = none;
  delete_any = none;
  update_during_pending_delete = none;
}

-- An object that was created due to the watch.
abbrev made_pod : Object
made_pod =
    ("annotations", obj (of_dict (("metac.openebs.io/created-due-to-watch", str "u1") ∷ [])))
    ∷ ("name", str "pod")
    ∷ []

abbrev wanted_pod : Object
wanted_pod = ("replicas", str "2") ∷ []

abbrev pods : ResourceStates
pods = record {
  base = in_place;
  client = record { group = ""; kind = "Pod" };
  observed = ("pod", made_pod) ∷ [];
  desired = [];
  explicit_deletes = [];
  explicit_updates = [];
}

run_delete_example :
    (run_delete small_api small_json no_owners pods_server pods ([], [])
      ≡ delete_each small_api small_json no_owners pods_server pods
          (chosen (obsolete small_api pods) pods.observed)
          ([], []))
    × (run_explicit_delete small_api small_json no_owners pods_server pods ([], [])
        ≡ delete_each small_api small_json no_owners pods_server pods
            (chosen (explicitly_deleted small_api pods) pods.observed)
            ([], []))
run_delete_example = run_delete_lem small_api small_json no_owners pods_server pods ([], [])

update_example : update small_api small_json no_owners pods_server pods made_pod wanted_pod [] ≡ (
    if may_update small_api pods made_pod
    then after_merge small_api small_json no_owners pods_server pods made_pod wanted_pod
        (merge_update small_api small_json pods made_pod wanted_pod)
        []
    else (ok false, []))
update_example = update_lem small_api small_json no_owners pods_server pods made_pod wanted_pod []

no_owners_laws : OwnersLaws small_api no_owners
no_owners_laws = record { get_annotations-set_owners = λ o refs. refl }

create-own_example :
    (sent : Object) × (create small_api small_json no_owners pods_server pods wanted_pod []
      ≡ written (
          pods_server.create pods.client
            (namespace_or_watch small_api pods.base wanted_pod)
            sent
            []))
    × (is_created_by small_api pods.base.watch sent ≡ true)
    × (lookup (last_applied_key small_api pods.base) (entries (small_api.get_annotations sent))
        ≡ some "=2")
create-own_example =
    create-own small_api small_json no_owners pods_server pods small_api_laws no_owners_laws
      (unfold lookup in refl) wanted_pod [] refl (λ e. cc)

abbrev pods_and_others : ClusterStates
pods_and_others = record {
  base = in_place;
  observed = ("Pod.v1", ("pod", made_pod) ∷ []) ∷ ("Job.v2", []) ∷ [];
  desired = ("Pod.v1", ("pod", wanted_pod) ∷ []) ∷ [];
  explicit_deletes = [];
  explicit_updates = [];
}

jobs_unknown : client_of_key pods_server "Job.v2" ≡ err (api_failed not_found)
unfolding client_of_key parse_key_to_api_version_kind split_once
jobs_unknown = refl

apply-no_client_example :
    ((apply small_api small_json no_owners pods_server pods_and_others []).1 ≡ [])
    × ((apply small_api small_json no_owners pods_server pods_and_others []).0 ≢ [])
apply-no_client_example =
    apply-no_client small_api small_json no_owners pods_server pods_and_others [] "Job.v2"
      (api_failed not_found) jobs_unknown (unfold has lookup in refl)

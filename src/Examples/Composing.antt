-- ===== src/Examples/Composing.antt =====
-- Runs of the claims, of the revisions, and of the reconciliation of a parent.
use metac.Prelude.{
  map, if◌then◌else◌, ℕ, suc, ◌≤◌, String, Bool, true, false, ◌≡◌, ◌⊎◌, refl, ap, none, some, List,
  [], ◌∷◌, ◌++◌, Dict, has, insert, lookup, lookup-insert, All, ◌==◌,
}
use metac.Prelude.Int.{pos}
use metac.Prelude.Results.{ok}
use metac.Value.{str, obj}
use metac.Api.{Object}
use metac.Client.{Call}
use metac.Client.Finalizing.{Ensures}
use metac.Manage.{OwnerReference, ChildServer}
use metac.Claiming.{Claim, add_owner_reference, remove_owner_reference, bulk_claim}
use metac.Claiming.References.{refs_to, renewed, owner_references_lem}
use metac.Claiming.Bulk.{claimed_of, errors_of, outcomes, bulk_claim_lem}
use metac.Revision.Naming.{text_length, controller_revision_name}
use metac.Revision.Naming.Length.{length-controller_revision_name}
use metac.Composite.{ParentController, ParentLibrary, ParentWorld, SyncHookResponse}
use metac.Composite.Labelled.{enforce_child, enforce_group, enforce_groups}
use metac.Composite.Labelled.Matching.{LibraryLaws, Meets, enforce_groups-Meets}
use metac.Composite.Revisions.{
  ControllerRevision, RevisionServer, aggregate_resync, aggregate_finalized, manage_revisions,
}
use metac.Composite.Revisions.Aggregate.{InTime, asks_for, all_finalized, aggregate_lem}
use metac.Composite.Revisions.Managing.{
  RevisionCall, Wanted, stale, make_calls, manage_revisions_lem,
}
use metac.Composite.Rollouts.{RevisionWorld}
use metac.Composite.Parent.{update_parent_status}
use metac.Composite.Parent.Reporting.{
  RetryLaws, final_status, Written, update_parent_status-Written,
}
use metac.Examples.{
  small_api, small_json, small_nested, small_labels, small_server, strings_at, of_strings,
  string_fields-of_strings,
}
use metac.Examples.Managing.{no_owners, web}

abbrev owner : String → OwnerReference
owner uid = record {
  api_version = "v1";
  kind = "App";
  name = "app";
  uid = uid;
  controller = true;
  block_owner_deletion = true;
}

owner_references_example :
    (more : List OwnerReference) × (add_owner_reference (owner "u1" ∷ owner "u2" ∷ []) (owner "u2")
      ≡ map
          (λ (ref : OwnerReference). if ref.uid == "u2" then owner "u2" else ref)
          (owner "u1" ∷ owner "u2" ∷ [])
        ++ more)
    × (refs_to "u2" (add_owner_reference (owner "u1" ∷ owner "u2" ∷ []) (owner "u2"))
        ≡ renewed (owner "u2") (owner "u2" ∷ []))
    × (refs_to "u2" (remove_owner_reference (owner "u1" ∷ owner "u2" ∷ []) "u1") ≡ owner "u2" ∷ [])
owner_references_example =
    owner_references_lem (owner "u1" ∷ owner "u2" ∷ []) (owner "u2") "u1" "u2"

-- An object is claimed if it matches.
abbrev claim_if : Claim ℕ Object
claim_if o matches adopt_it release_it s = (ok (matches o), suc s)

abbrev named_web : Object → Bool
named_web o = small_api.get_name o == "web"

abbrev nothing : Object → Call ℕ (Unit {0})
nothing o s = (ok tt, s)

bulk_claim_example : bulk_claim claim_if named_web nothing nothing (web ∷ [] ∷ []) 0 ≡ (
  claimed_of (outcomes claim_if named_web nothing nothing (web ∷ [] ∷ []) 0).0,
  errors_of (outcomes claim_if named_web nothing nothing (web ∷ [] ∷ []) 0).0,
  (outcomes claim_if named_web nothing nothing (web ∷ [] ∷ []) 0).1,
)
bulk_claim_example = bulk_claim_lem claim_if named_web nothing nothing (web ∷ [] ∷ []) 0

abbrev zeros : String → List ℕ
zeros text = 0 ∷ 0 ∷ 0 ∷ 0 ∷ 0 ∷ 0 ∷ 0 ∷ 0 ∷ 0 ∷ 0 ∷ 0 ∷ 0 ∷ 0 ∷ 0 ∷ 0 ∷ 0 ∷ 0 ∷ 0 ∷ 0 ∷ 0 ∷ []

length-controller_revision_name_example :
    (text_length (controller_revision_name zeros "apps" "example.com" "u1" "{}") ≤ 253)
    × (41 ≤ text_length (controller_revision_name zeros "apps" "example.com" "u1" "{}"))
length-controller_revision_name_example =
    length-controller_revision_name zeros (λ text. refl) "apps" "example.com" "u1" "{}"

abbrev lib : ParentLibrary
lib = record {
  get_label_selector = λ o. ok (record { match_labels = []; match_expressions = [] });
  nested_labels = λ o. ok (strings_at (lookup "labels" o));
  set_labels = λ o l. insert "labels" (obj (of_strings l)) o;
  get_generation = λ o. pos 3;
}

lib_laws : LibraryLaws lib
lib_laws = record {
  labels-set_labels = λ o l. rw lookup-insert (ap (λ m. ok (some m)) (string_fields-of_strings l));
}

abbrev apps : ParentController Object
apps = record {
  generate_selector = some true;
  hooks = none;
  child_resources = [];
  update_strategy = [];
  finalizer = record { name = "metac"; enabled = false };
  parent_namespaced = true;
  parent_group = "example.com";
  parent_kind = "App";
  parent_api_version = "example.com/v1";
}

abbrev by_uid : Dict String → Bool
by_uid l = has "controller-uid" l

abbrev bare : Object
bare = ("name", str "a") ∷ []

abbrev labelled_bare : Object
labelled_bare =
    ("name", str "a") ∷ ("labels", obj (of_strings (("controller-uid", "u1") ∷ []))) ∷ []

bare_enforced :
    enforce_groups small_api lib apps by_uid web (("Pod.v1", ("a", bare) ∷ []) ∷ [])
    ≡ ok (("Pod.v1", ("a", labelled_bare) ∷ []) ∷ [])
unfolding enforce_groups enforce_group enforce_child has lookup insert
bare_enforced = refl

enforce_groups-Meets_example :
    All
      (λ (g : String × Dict Object). All (λ (e : String × Object). Meets lib by_uid e.1) g.1)
      (("Pod.v1", ("a", labelled_bare) ∷ []) ∷ [])
enforce_groups-Meets_example =
    enforce_groups-Meets small_api lib lib_laws apps by_uid web (("Pod.v1", ("a", bare) ∷ []) ∷ [])
      bare_enforced

abbrev response : ℕ → Bool → SyncHookResponse
response n finalized = record {
  status = none;
  children = [];
  resync_after_seconds = n;
  finalized = finalized;
}

abbrev responses : List SyncHookResponse
responses = response 0 true ∷ response 9 true ∷ response 5 false ∷ []

aggregate_example :
    ((aggregate_resync 0 responses ≡ 0)
      ⊎ (asks_for (aggregate_resync 0 responses) responses ≡ true))
    × All (InTime (aggregate_resync 0 responses)) responses
    × (aggregate_finalized responses ≡ all_finalized responses)
aggregate_example = aggregate_lem responses

abbrev revision : String → ControllerRevision
revision name = record {
  name = name;
  namespace = "";
  uid = "u3";
  labels = [];
  owner_references = [];
  parent_patch = "{}";
  children = none;
}

-- A server that keeps the names in the order of the calls.
abbrev log : RevisionServer (List String)
log = record {
  delete = λ name uid s. (ok tt, name ∷ s);
  update = λ r s. (ok r, r.name ∷ s);
  create = λ r s. (ok r, r.name ∷ s);
}

manage_revisions_example :
    (calls : List RevisionCall) × Wanted (revision "old" ∷ []) (revision "new" ∷ []) calls
    × ((s : List String)
        → manage_revisions small_api log web (revision "old" ∷ []) (revision "new" ∷ []) s
          ≡ make_calls small_api log web
              (stale (revision "new" ∷ []) (revision "old" ∷ []) ++ calls)
              s)
manage_revisions_example =
    manage_revisions_lem small_api log web (revision "old" ∷ []) (revision "new" ∷ [])

abbrev stored : RevisionServer Object
stored = record {
  delete = λ name uid s. (ok tt, s);
  update = λ r s. (ok r, s);
  create = λ r s. (ok r, s);
}

abbrev no_children : ChildServer Object
no_children = record {
  client_for = λ v k. ok (v, k);
  delete = λ ns name uid s. (ok tt, s);
  update = λ ns o s. (ok o, s);
  create = λ ns o s. (ok o, s);
}

abbrev world : ParentWorld Object
world = record {
  parent_server = λ ns. small_server;
  parent_has_status = true;
  child_server = no_children;
  child_client = λ v r. ok ("Pod", λ ns. small_server);
  list_children = λ v r. none;
  claim = λ parent o matches adopt_it release_it s. (ok (matches o), s);
  add_after = λ parent n s. s;
}

abbrev revisions : RevisionWorld Object
revisions = record {
  revision_server = λ ns. stored;
  get_revision = λ ns name s. (ok (revision name), s);
  retry_on_conflict = λ call. call;
  list_revisions = λ ns. ok [];
  claim_revision = λ parent r matches adopt_it release_it s. (ok (matches r), s);
  history_field_paths = [];
  parent_resource = "apps";
  template_labels = λ parent. none;
  describe = λ e. "waiting";
  sha1_sum = zeros;
}

retries : RetryLaws small_server
retries = record { retried = λ Q call h. h }

update_parent_status-Written_example :
    Ensures (Written small_api small_server true web (final_status lib web none)) (
      update_parent_status small_api small_json small_nested small_labels no_owners lib world
        revisions apps web none)
update_parent_status-Written_example =
    update_parent_status-Written small_api small_json small_nested small_labels no_owners lib world
      revisions apps web none retries

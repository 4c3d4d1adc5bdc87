-- ===== src/Examples/Managing.antt =====
-- Runs of the management of children.
use metac.Prelude.{String, ◌≡◌, refl, List, [], ◌∷◌, Dict, contains, has, insert, remove, lookup}
use metac.Prelude.Results.{ok}
use metac.Value.{object, as_map, str}
use metac.Api.{Object}
use metac.Manage.{Owners, ChildServer, Progress, delete_children}
use metac.Manage.Deleting.{doomed, delete_all, delete_children-eq-delete_all}
use metac.Manage.Reverting.{meta_field, field_at, apply_merge-field_at}
use metac.Examples.FieldWrites.{field_api, field_api_laws}
use metac.Apply.{
  merge_objects, merge, merge_step, merge_map, merge_entries, delete_unwanted, expect,
}
use metac.Apply.LastApplied.{
  get_last_applied, get_last_applied_by_ann_key, set_last_applied, set_last_applied_by_ann_key,
}
use metac.Value.Depth.{depth}
use metac.Manage.{apply_merge, revert_object_meta_system_fields, revert_fields, revert_field}
use metac.Examples.{small_api, small_json}

-- A server that keeps the names that it was asked to delete or was sent.
abbrev log_server : ChildServer (List String)
log_server = record {
  client_for = λ v k. ok (v, k);
  delete = λ ns name uid s. (ok tt, name ∷ s);
  update = λ ns o s. (ok o, small_api.get_name o ∷ s);
  create = λ ns o s. (ok o, small_api.get_name o ∷ s);
}

abbrev pub no_owners : Owners
no_owners = record { get_owner_references = λ o. []; set_owner_references = λ o refs. o }

abbrev pub web : Object
web = ("name", str "web") ∷ ("uid", str "u1") ∷ []

abbrev dying : Object
dying = ("deletionTimestamp", str "now") ∷ ("name", str "db") ∷ ("uid", str "u2") ∷ []

abbrev observed : Dict Object
observed = ("web", web) ∷ ("db", dying) ∷ []

abbrev nothing_done : Progress (List String)
nothing_done = ([], [])

delete_children-eq-delete_all_example :
    delete_children small_api log_server [] observed nothing_done
    ≡ delete_all small_api log_server (doomed small_api [] observed) nothing_done
delete_children-eq-delete_all_example =
    delete_children-eq-delete_all small_api log_server [] observed nothing_done

abbrev observed_pod : Object
observed_pod = ("metadata", object (("uid", str "u1") ∷ [])) ∷ []

abbrev desired_pod : Object
desired_pod =
    ("metadata", object (("uid", str "u9") ∷ []))
    ∷ ("spec", object (("replicas", str "2") ∷ []))
    ∷ []

abbrev merged_pod : Object
merged_pod =
    ("metadata", object (("uid", str "u1") ∷ []))
    ∷ ("spec", object (("replicas", str "2") ∷ []))
    ∷ []

pod_merged : apply_merge field_api small_json observed_pod desired_pod ≡ ok merged_pod
unfolding apply_merge revert_object_meta_system_fields revert_fields revert_field get_last_applied
    get_last_applied_by_ann_key set_last_applied set_last_applied_by_ann_key merge_objects merge
    merge_step merge_map merge_entries delete_unwanted depth expect as_map lookup has insert remove
pod_merged = refl

apply_merge-field_at_example :
    field_at field_api merged_pod (meta_field "uid")
    ≡ field_at field_api observed_pod (meta_field "uid")
apply_merge-field_at_example =
    apply_merge-field_at field_api small_json field_api_laws observed_pod desired_pod merged_pod
      (meta_field "uid") pod_merged (unfold contains in refl)

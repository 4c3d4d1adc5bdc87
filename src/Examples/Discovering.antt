-- ===== src/Examples/Discovering.antt =====
-- Runs of the discovery of resources.
use metac.Prelude.{String, false, ◌≡◌, refl, Option, none, some, [], ◌∷◌, insert, lookup}
use metac.Prelude.Results.{ok}
use metac.Prelude.Text.{has_byte, split}
use metac.Discovery.{
  ResourceList, ApiResource, ApiResourceRegistry, Discovered, add_resource, add_resources, sub_path,
  flag_subresource, flag_subresources, discover_list, discover_lists, refresh, has_subresource,
  get_api_for_api_version_and_resource, get_api_for_api_version_and_kind,
}
use metac.Discovery.Finding.{Found, refresh-finds}
use metac.Discovery.Subresources.{listed, discover_list-has_subresource}

abbrev v1 : ResourceList
v1 = record {
  group_version = "v1";
  resources =
      record { name = "pods"; kind = "Pod"; group = ""; version = "" }
      ∷ record { name = "pods/status"; kind = "Pod"; group = ""; version = "" }
      ∷ [];
}

abbrev core : String × String
core = ("", "v1")

abbrev parse : String → Option (String × String)
parse v = some core

abbrev pods : ApiResource
pods = record {
  name = "pods";
  kind = "Pod";
  group = "";
  version = "v1";
  api_version = "v1";
  supported_sub_resources = "status" ∷ [];
}

abbrev pods_status : ApiResource
pods_status = record {
  name = "pods/status";
  kind = "Pod";
  group = "";
  version = "v1";
  api_version = "v1";
  supported_sub_resources = [];
}

abbrev v1_registry : ApiResourceRegistry
v1_registry = record {
  heap = pods ∷ pods_status ∷ [];
  resources = ("pods", 0) ∷ ("pods/status", 1) ∷ [];
  kinds = ("Pod", 0) ∷ [];
  subresources = ("pods/status", 1) ∷ [];
}

abbrev discovered : Discovered
discovered = some (("v1", v1_registry) ∷ [])

refreshed : refresh parse (ok (v1 ∷ [])) none ≡ some discovered
unfolding refresh discover_lists discover_list add_resources add_resource flag_subresources
    flag_subresource sub_path split has_byte insert lookup
refreshed = refl

refresh-finds_example :
    Found
      (get_api_for_api_version_and_resource discovered "v1" "pods")
      (λ r. (r.api_version ≡ "v1") × (r.name ≡ "pods"))
    × Found
        (get_api_for_api_version_and_kind discovered "v1" "Pod")
        (λ r. (r.api_version ≡ "v1") × (r.kind ≡ "Pod") × (has_byte b'/' r.name ≡ false))
refresh-finds_example = refresh-finds parse (v1 ∷ []) none refreshed "v1" "pods" "Pod"

discover_list-has_subresource_example :
    has_subresource pods "status" ≡ listed "pods" "status" v1.resources
discover_list-has_subresource_example =
    discover_list-has_subresource core v1 "pods" "status" 0 pods
      (unfold discover_list add_resources add_resource flag_subresources flag_subresource sub_path
          split has_byte insert lookup in
        refl)
      (unfold discover_list add_resources add_resource flag_subresources flag_subresource sub_path
          split has_byte insert lookup in
        refl)

-- ===== src/Discovery.antt =====
-- dynamic/discovery/discovery.go: the resources that the API server supports. A resource is shared by the
-- maps of its group version, and marked through one of them: the maps hold positions in a list of
-- resources. The server and the parser of group versions are parameters.
pub mod Registered
pub mod Finding
pub mod Subresources
use metac.Prelude.{
  ℕ, String, Bool, true, false, ◌||◌, Option, none, some, List, [], ◌∷◌, ◌++◌, Dict, lookup, insert,
  contains, length, elem_at, modify_at, map, ◌==◌, is_some, if◌then◌else◌,
}
use metac.Prelude.Text.{split, has_byte}
use metac.Prelude.Results.{Result, ok, err}
use metac.Api.{ApiError}

-- metav1.ApiResource, as the server lists it.
pub record ServerResource : Type 0 where
  pub name : String
  pub kind : String
  pub group : String
  pub version : String

pub record ResourceList : Type 0 where
  pub group_version : String
  pub resources : List ServerResource

-- The supported subresources are a set of texts.
pub record ApiResource : Type 0 where
  pub name : String
  pub kind : String
  pub group : String
  pub version : String
  pub api_version : String
  pub supported_sub_resources : List String

-- The subresources are kept by their names alone.
pub record ApiResourceRegistry : Type 0 where
  pub heap : List ApiResource
  pub resources : Dict ℕ
  pub kinds : Dict ℕ
  pub subresources : Dict ℕ

abbrev pub Discovered : Type 0
Discovered = Option (Dict ApiResourceRegistry)

abbrev pub or_default : String → String → String
or_default s default = if s == "" then default else s

unfoldable pub has_subresource : ApiResource → String → Bool
has_subresource r sub = contains sub r.supported_sub_resources

abbrev pub empty_registry : ApiResourceRegistry
empty_registry = record { heap = []; resources = []; kinds = []; subresources = [] }

abbrev pub materialise : String → String × String → ServerResource → ApiResource
materialise group_version gv r = record {
  name = r.name;
  kind = r.kind;
  group = or_default r.group gv.0;
  version = or_default r.version gv.1;
  api_version = group_version;
  supported_sub_resources = [];
}

-- A resource whose name has a slash is a subresource.
unfoldable pub add_resource :
    String → String × String → ServerResource → ApiResourceRegistry → ApiResourceRegistry
add_resource group_version gv r reg = record {
  heap = reg.heap ++ materialise group_version gv r ∷ [];
  resources = insert r.name (length reg.heap) reg.resources;
  kinds = if has_byte b'/' r.name then reg.kinds else insert r.kind (length reg.heap) reg.kinds;
  subresources =
      if has_byte b'/' r.name
      then insert r.name (length reg.heap) reg.subresources
      else reg.subresources;
}

unfoldable pub add_resources :
    String → String × String → List ServerResource → ApiResourceRegistry → ApiResourceRegistry
add_resources group_version gv [] reg = reg
add_resources group_version gv (r ∷ rs) reg =
    add_resources group_version gv rs (add_resource group_version gv r reg)

abbrev pub support : String → ApiResource → ApiResource
support sub r = record r { supported_sub_resources = sub ∷ r.supported_sub_resources }

-- The resource and the subresource that a name stands for.
abbrev pub first_two : List String → Option (String × String)
first_two (a ∷ b ∷ rest) = some (a, b)
first_two _ = none

unfoldable pub sub_path : String → Option (String × String)
sub_path name = first_two (split b'/' name)

abbrev pub mark : Option ℕ → String → ApiResourceRegistry → ApiResourceRegistry
mark none sub reg = reg
mark (some i) sub reg = record reg { heap = modify_at (support sub) reg.heap i }

unfoldable pub flag_subresource : String → ApiResourceRegistry → ApiResourceRegistry
flag_subresource name reg = elim (sub_path name) [
  | none ↦ reg
  | some (resource, sub) ↦ mark (lookup resource reg.resources) sub reg
]

unfoldable pub flag_subresources : List String → ApiResourceRegistry → ApiResourceRegistry
flag_subresources [] reg = reg
flag_subresources (name ∷ names) reg = flag_subresources names (flag_subresource name reg)

unfoldable pub discover_list : String × String → ResourceList → ApiResourceRegistry
discover_list gv list =
    let reg = add_resources list.group_version gv list.resources empty_registry in
    flag_subresources (map (λ e. e.0) reg.subresources) reg

module _ (parse_group_version : String → Option (String × String)) where
  -- A group version that cannot be parsed is a panic.
  unfoldable pub discover_lists :
      List ResourceList → Dict ApiResourceRegistry → Option (Dict ApiResourceRegistry)
  discover_lists [] found = some found
  discover_lists (list ∷ lists) found = elim (parse_group_version list.group_version) [
    | none ↦ none
    | some gv ↦ discover_lists lists (insert list.group_version (discover_list gv list) found)
  ]

  -- What was discovered before stays if the server returns an error.
  unfoldable pub refresh : Result ApiError (List ResourceList) → Discovered → Option Discovered
  refresh (err e) d = some d
  refresh (ok lists) d = elim (discover_lists lists []) [
    | none ↦ none
    | some found ↦ some (some found)
  ]

abbrev pub registry_of : Discovered → String → Option ApiResourceRegistry
registry_of none api_version = none
registry_of (some found) api_version = lookup api_version found

abbrev pub in_heap : List ApiResource → Option ℕ → Option ApiResource
in_heap heap none = none
in_heap heap (some i) = elem_at heap i

unfoldable pub get_api_for_api_version_and_resource :
    Discovered → String → String → Option ApiResource
get_api_for_api_version_and_resource d api_version resource = elim (registry_of d api_version) [
  | none ↦ none
  | some reg ↦ in_heap reg.heap (lookup resource reg.resources)
]

unfoldable pub get_api_for_api_version_and_kind : Discovered → String → String → Option ApiResource
get_api_for_api_version_and_kind d api_version kind = elim (registry_of d api_version) [
  | none ↦ none
  | some reg ↦ in_heap reg.heap (lookup kind reg.kinds)
]

unfoldable pub has_synced : Discovered → Bool
has_synced d = is_some d

abbrev pub found_kind : Option ApiResource → List ApiResource → List ApiResource
found_kind none rest = rest
found_kind (some r) rest = r ∷ rest

unfoldable pub kind_in : String → Dict ApiResourceRegistry → List ApiResource
kind_in kind [] = []
kind_in kind ((api_version, reg) ∷ found) =
    found_kind (in_heap reg.heap (lookup kind reg.kinds)) (kind_in kind found)

unfoldable pub get_api_resources_for_kind : Discovered → String → List ApiResource
get_api_resources_for_kind none kind = []
get_api_resources_for_kind (some found) kind = kind_in kind found

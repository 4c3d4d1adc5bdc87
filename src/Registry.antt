-- ===== src/Registry.antt =====
-- controller/common/common.go: objects grouped by kind and API version, and the keys of the maps.
-- A nil object, or one with nil content, is `none`. The calls that store an object are given one.
pub mod Keys
pub mod Laws
pub mod Registrars
use Prim.Native.String.{◌++◌ as append}
use metac.Prelude.{
  ℕ, ◌+◌, suc, String, Bool, true, false, not, ◌&&◌, Option, none, some, List, [], ◌∷◌, ◌++◌, Dict,
  lookup, has, insert, ◌==◌, is_some, if◌then◌else◌,
}
use metac.Prelude.Text.{concat, split_once, replace_all}
use metac.Value.{entries}
use metac.Api.{Object, Api}

abbrev pub Group : Type 0
Group = Dict (Option Object)

abbrev pub AnyUnstructRegistry : Type 0
AnyUnstructRegistry = Dict Group

unfoldable pub make_key_from_api_version_kind : String → String → String
make_key_from_api_version_kind api_version kind = append kind (append "." api_version)

abbrev pub kind_first : String × Option String → Option (String × String)
kind_first (kind, none) = none
kind_first (kind, some api_version) = some (api_version, kind)

-- The API version and the kind; a key without a dot is a panic.
unfoldable pub parse_key_to_api_version_kind : String → Option (String × String)
parse_key_to_api_version_kind key = kind_first (split_once b'.' key)

abbrev pub group_first : String × Option String → String × String
group_first (version, none) = ("", version)
group_first (group, some version) = (group, version)

unfoldable pub parse_api_version_to_group_version : String → String × String
parse_api_version_to_group_version api_version = group_first (split_once b'/' api_version)

unfoldable pub make_key_from_api_group_kind : String → String → String
make_key_from_api_group_kind api_group kind = append kind (append "." api_group)

unfoldable pub make_key_from_api_version_resource : String → String → String
make_key_from_api_version_resource api_version resource = append resource (append "." api_version)

unfoldable pub count_group : Group → ℕ → ℕ
count_group [] count = count
count_group ((name, obj) ∷ group) count =
    count_group group (if is_some obj then suc count else count)

-- Len
unfoldable pub count_from : AnyUnstructRegistry → ℕ → ℕ
count_from [] count = count
count_from ((key, group) ∷ m) count = count_from m (count_group group count)

unfoldable pub len : AnyUnstructRegistry → ℕ
len m = count_from m 0

unfoldable pub group_is_empty : Group → Bool
group_is_empty [] = true
group_is_empty ((name, obj) ∷ group) =
    let rest = group_is_empty group in if is_some obj then false else rest

unfoldable pub is_empty : AnyUnstructRegistry → Bool
is_empty [] = true
is_empty ((key, group) ∷ m) =
    let rest = is_empty m in if not (group_is_empty group) then false else rest

unfoldable pub list_group : Group → List (Option Object) → List (Option Object)
list_group [] list = list
list_group ((name, obj) ∷ group) list = list_group group (list ++ obj ∷ [])

-- List
unfoldable pub list_from : AnyUnstructRegistry → List (Option Object) → List (Option Object)
list_from [] list = list
list_from ((key, group) ∷ m) list = list_from m (list_group group list)

unfoldable pub list : AnyUnstructRegistry → List (Option Object)
list m = list_from m []

unfoldable pub init : String → String → AnyUnstructRegistry → AnyUnstructRegistry
init api_version kind m = insert (make_key_from_api_version_kind api_version kind) [] m

module _ (api : Api) where
  -- The namespace and the name, or the name alone.
  unfoldable pub namespace_name_or_name : Object → String
  namespace_name_or_name obj =
      if not (api.get_namespace obj == "")
      then append (api.get_namespace obj) (append "/" (api.get_name obj))
      else api.get_name obj

  unfoldable pub relative_name : Object → Object → String
  relative_name reference obj =
      if (api.get_namespace reference == "") && not (api.get_namespace obj == "")
      then append (api.get_namespace obj) (append "/" (api.get_name obj))
      else api.get_name obj

  unfoldable pub object_key : Object → String
  object_key obj = make_key_from_api_version_kind (api.get_api_version obj) (api.get_kind obj)

  -- What both insertions do, once the name is known.
  unfoldable pub insert_named : String → Object → AnyUnstructRegistry → AnyUnstructRegistry
  insert_named name obj m =
      insert (object_key obj) (insert name (some obj) (entries (lookup (object_key obj) m))) m

  unfoldable pub insert_by_reference : Object → Object → AnyUnstructRegistry → AnyUnstructRegistry
  insert_by_reference reference obj m = insert_named (relative_name reference obj) obj m

  unfoldable pub insert_object : Object → AnyUnstructRegistry → AnyUnstructRegistry
  insert_object obj m = insert_named (namespace_name_or_name obj) obj m

  -- What both replacements do, once the name is known.
  unfoldable pub replace_named : String → Object → AnyUnstructRegistry → AnyUnstructRegistry
  replace_named name obj m = elim (lookup (object_key obj) m) [
    | none ↦ m
    | some children ↦
        if has name children then insert (object_key obj) (insert name (some obj) children) m else m
  ]

  unfoldable pub replace_by_reference : Object → Object → AnyUnstructRegistry → AnyUnstructRegistry
  replace_by_reference reference obj m = replace_named (relative_name reference obj) obj m

  unfoldable pub replace : Object → AnyUnstructRegistry → AnyUnstructRegistry
  replace obj m = replace_named (namespace_name_or_name obj) obj m

  unfoldable pub insert_all_by_reference :
      Object → List Object → AnyUnstructRegistry → AnyUnstructRegistry
  insert_all_by_reference reference [] m = m
  insert_all_by_reference reference (obj ∷ objects) m =
      insert_all_by_reference reference objects (insert_by_reference reference obj m)

  unfoldable pub make_any_unstruct_registry_by_reference :
      Object → List Object → AnyUnstructRegistry
  make_any_unstruct_registry_by_reference reference objects =
      insert_all_by_reference reference objects []

  unfoldable pub insert_all : List Object → AnyUnstructRegistry → AnyUnstructRegistry
  insert_all [] m = m
  insert_all (obj ∷ objects) m = insert_all objects (insert_object obj m)

  unfoldable pub make_any_unstruct_registry : List Object → AnyUnstructRegistry
  make_any_unstruct_registry objects = insert_all objects []

  unfoldable pub describe_object : Object → String
  describe_object obj =
      if not (api.get_namespace obj == "")
      then concat
          (api.get_namespace obj ∷ "/" ∷ api.get_name obj ∷ " of kind " ∷ api.get_kind obj ∷ [])
      else concat (api.get_name obj ∷ " of kind " ∷ api.get_kind obj ∷ [])

  unfoldable pub desc_obj_as_sanitised_ns_name : Object → String
  desc_obj_as_sanitised_ns_name obj = replace_all b'/' "-" (namespace_name_or_name obj)

  unfoldable pub desc_object_as_key : Object → String
  desc_object_as_key obj =
      if not (api.get_namespace obj == "")
      then concat (
          api.get_api_version obj
          ∷ ":"
          ∷ api.get_kind obj
          ∷ ":"
          ∷ api.get_namespace obj
          ∷ ":"
          ∷ api.get_name obj
          ∷ [])
      else concat (api.get_api_version obj ∷ ":" ∷ api.get_kind obj ∷ ":" ∷ api.get_name obj ∷ [])

  unfoldable pub desc_object_as_sanitised_key : Object → String
  desc_object_as_sanitised_key obj =
      let version = replace_all b'/' "-" (api.get_api_version obj) in
      if not (api.get_namespace obj == "")
      then concat (
          version
          ∷ "-"
          ∷ api.get_kind obj
          ∷ "-"
          ∷ api.get_namespace obj
          ∷ "-"
          ∷ api.get_name obj
          ∷ [])
      else concat (version ∷ "-" ∷ api.get_kind obj ∷ "-" ∷ api.get_name obj ∷ [])

-- A key without a dot, which no call stores, would be a panic of the source.
unfoldable pub is_group_kind : String → String → String → Bool
is_group_kind api_group kind key = elim (parse_key_to_api_version_kind key) [
  | none ↦ false
  | some (api_version, k) ↦
      (k == kind) && ((parse_api_version_to_group_version api_version).0 == api_group)
]

-- The groups are tried in the order of the map, which is the order of the list here. The inner loop
-- is a lookup: a map has each name once.
unfoldable pub find_by_group_kind_name :
    String → String → String → AnyUnstructRegistry → Option Object
find_by_group_kind_name api_group kind name [] = none
find_by_group_kind_name api_group kind name ((key, group) ∷ m) =
    elim (is_group_kind api_group kind key) [
      | false ↦ find_by_group_kind_name api_group kind name m
      | true ↦ elim (lookup name group) [
        | some res ↦ res
        | none ↦ find_by_group_kind_name api_group kind name m
      ]
    ]

-- ResourceRegistrar and ResourceInformerRegistrar: maps of what is registered by a pair of texts.
module _ {ℓ} {A : Type ℓ} where
  unfoldable pub set_resource : String → String → A → Dict A → Dict A
  set_resource api_group kind resource m =
      insert (make_key_from_api_group_kind api_group kind) resource m

  unfoldable pub get_resource : String → String → Dict A → Option A
  get_resource api_group kind m = lookup (make_key_from_api_group_kind api_group kind) m

  unfoldable pub set_informer : String → String → A → Dict A → Dict A
  set_informer api_version resource informer m =
      insert (make_key_from_api_version_resource api_version resource) informer m

  unfoldable pub get_informer : String → String → Dict A → Option A
  get_informer api_version resource m =
      lookup (make_key_from_api_version_resource api_version resource) m

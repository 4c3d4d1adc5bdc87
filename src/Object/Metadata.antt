-- ===== src/Object/Metadata.antt =====
-- dynamic/object/metadata.go: finalizers and annotations of an object. A setter returns the object.
use metac.Prelude.{
  String, Bool, false, Option, none, some, [], ◌∷◌, ◌++◌, lookup, insert, contains, remove_first,
  ◌==◌, if◌then◌else◌,
}
use metac.Value.{entries}
use metac.Api.{Object, Api}

module _ (api : Api) where
  unfoldable pub has_finalizer : Object → String → Bool
  has_finalizer obj name = contains name (api.get_finalizers obj)

  unfoldable pub add_finalizer : Object → String → Object
  unfolding has_finalizer
  add_finalizer obj name =
      if has_finalizer obj name
      then obj
      else api.set_finalizers obj (api.get_finalizers obj ++ name ∷ [])

  -- The first occurrence is cut out, if there is one.
  unfoldable pub remove_finalizer : Object → String → Object
  remove_finalizer obj name =
      if contains name (api.get_finalizers obj)
      then api.set_finalizers obj (remove_first name (api.get_finalizers obj))
      else obj

  abbrev value_of : Option String → String
  value_of none = ""
  value_of (some v) = v

  unfoldable pub has_annotation : Object → String → String → Bool
  has_annotation obj key value = elim (api.get_annotations obj) [
    | none ↦ false
    | some anns ↦ value_of (lookup key anns) == value
  ]

  unfoldable pub add_annotation : Object → String → String → Object
  unfolding has_annotation
  add_annotation obj key value =
      if has_annotation obj key value
      then obj
      else api.set_annotations obj (insert key value (entries (api.get_annotations obj)))

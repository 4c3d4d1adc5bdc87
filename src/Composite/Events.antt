-- ===== src/Composite/Events.antt =====
-- controller/composite/controller.go: which parents are to be seen again after an event of a child. The
-- queue is the list of the parents that are put into it.
pub mod Resolving
use metac.Prelude.{
  String, Bool, true, false, not, ◌&&◌, ◌||◌, Option, none, some, List, [], ◌∷◌, Dict, ◌==◌,
  is_some, if◌then◌else◌,
}
use metac.Prelude.Results.{Result, ok, err}
use metac.Api.{ApiError, Object, Api}
use metac.Selector.Labels.{Labels, LabelSelector}
use metac.Registry.{parse_api_version_to_group_version}
use metac.Manage.{OwnerReference}
use metac.Composite.{
  CompositeError, ParentController, ParentLibrary, parent_selector, is_empty_selector,
  make_selector,
}

-- The lister of parents: one by its namespace and name, those of a namespace, and all.
pub record ParentLister : Type 0 where
  pub get : String → String → Result ApiError Object
  pub list_namespace : String → Result ApiError (List Object)
  pub list : Result ApiError (List Object)

-- What else is called on an object: the owner that controls it, and its resource version.
pub record ChildLibrary : Type 0 where
  pub get_controller_of : Object → Option OwnerReference
  pub get_resource_version : Object → String

-- What an informer hands over when an object is deleted.
pub data Deleted : Type 0 where
  unstructured tombstone : Object → Deleted
  other_tombstone other_type : Deleted

module _ {S : Type 0} (api : Api) (labels : Labels) (lib : ParentLibrary) (pc : ParentController S)
    (lister : ParentLister) (children : ChildLibrary) where
  abbrev pub if_uid : OwnerReference → Result ApiError Object → Option Object
  if_uid ref (err e) = none
  if_uid ref (ok parent) = if not (api.get_uid parent == ref.uid) then none else some parent

  -- The parent is looked up by its name, and known by its uid.
  unfoldable pub resolve_controller_ref : String → OwnerReference → Option Object
  resolve_controller_ref child_namespace ref =
      if not ((parse_api_version_to_group_version ref.api_version).0 == pc.parent_group)
      then none
      else if not (ref.kind == pc.parent_kind)
      then none
      else if_uid ref (lister.get (if pc.parent_namespaced then child_namespace else "") ref.name)

  abbrev pub selects : Object → Result CompositeError (Dict String → Bool) → Bool
  selects child (err e) = false
  selects child (ok selector) = selector (api.get_labels child)

  -- makeSelector refuses an empty selector, and the generated one is not empty: Empty is false after it.
  unfoldable pub matching_parents : Object → List Object → List Object
  matching_parents child [] = []
  matching_parents child (parent ∷ parents) =
      let rest = matching_parents child parents in
      if selects child (make_selector api labels lib pc parent []) then parent ∷ rest else rest

  abbrev pub listed : Object → Result ApiError (List Object)
  listed child =
      if pc.parent_namespaced then lister.list_namespace (api.get_namespace child) else lister.list

  unfoldable pub find_potential_parents : Object → List Object
  find_potential_parents child = elim (listed child) [
    | err e ↦ []
    | ok parents ↦ matching_parents child parents
  ]

  abbrev pub parent_of : Option Object → List Object
  parent_of none = []
  parent_of (some parent) = parent ∷ []

  unfoldable pub on_deleted_child : Object → List Object
  on_deleted_child child = elim (children.get_controller_of child) [
    | none ↦ []
    | some ref ↦ parent_of (resolve_controller_ref (api.get_namespace child) ref)
  ]

  unfoldable pub on_child_delete : Deleted → List Object
  on_child_delete (unstructured child) = on_deleted_child child
  on_child_delete (tombstone child) = on_deleted_child child
  on_child_delete other_tombstone = []
  on_child_delete other_type = []

  unfoldable pub on_child_add : Object → List Object
  on_child_add child =
      if is_some (api.get_deletion_timestamp child)
      then on_child_delete (unstructured child)
      else elim (children.get_controller_of child) [
        | some ref ↦ parent_of (resolve_controller_ref (api.get_namespace child) ref)
        | none ↦ find_potential_parents child
      ]

  -- A resync of the informer is no event.
  unfoldable pub on_child_update : Object → Object → List Object
  on_child_update old cur =
      if children.get_resource_version old == children.get_resource_version cur
      then []
      else on_child_add cur

-- ===== src/Composite/Events/Resolving.antt =====
-- Which parents an event of a child is about.
use metac.Prelude.{
  String, ◌≡◌, refl, some, List, ◌==◌, eq_iff, All, is_some, inl, inr, Bool-cases, if◌then◌else◌,
}
use metac.Prelude.Results.{Result, ok, err}
use metac.Api.{ApiError, Object, Api}
use metac.Selector.Labels.{Labels}
use metac.Registry.{parse_api_version_to_group_version}
use metac.Manage.{OwnerReference}
use metac.Composite.{ParentController, ParentLibrary}
use metac.Composite.Events.{
  ParentLister, ChildLibrary, unstructured, if_uid, parent_of, resolve_controller_ref,
  on_deleted_child, on_child_delete, on_child_add,
}

module _ {S : Type 0} (api : Api) (labels : Labels) (lib : ParentLibrary) (pc : ParentController S)
    (lister : ParentLister) (children : ChildLibrary) where
  abbrev Owned : OwnerReference → List Object → Type 0
  Owned ref parents = All (λ (p : Object). api.get_uid p ≡ ref.uid) parents

  if_uid-Owned :
      (ref : OwnerReference) (r : Result ApiError Object)
      → Owned ref (
          parent_of api labels lib pc lister children
            (if_uid api labels lib pc lister children ref r))
  if_uid-Owned ref (err e) = tt
  if_uid-Owned ref (ok parent) = elim (Bool-cases (api.get_uid parent == ref.uid)) [
    | inl y ↦ rw y ((eq_iff (api.get_uid parent) ref.uid).0 y, tt)
    | inr n ↦ rw n tt
  ]

  resolve-Owned :
      (namespace : String) (ref : OwnerReference)
      → Owned ref (
          parent_of api labels lib pc lister children
            (resolve_controller_ref api labels lib pc lister children namespace ref))
  unfolding resolve_controller_ref
  resolve-Owned namespace ref =
      elim (Bool-cases
        ((parse_api_version_to_group_version ref.api_version).0 == pc.parent_group)) [
          | inr other ↦ rw other tt
          | inl same_group ↦ elim (Bool-cases (ref.kind == pc.parent_kind)) [
            | inr other ↦ rw (same_group, other) tt
            | inl same_kind ↦
                rw (same_group, same_kind)
                  (if_uid-Owned ref
                    (lister.get (if pc.parent_namespaced then namespace else "") ref.name))
          ]
        ]

  -- For a child that has a controller, the events of its creation and of its deletion are about the same parents,
  -- and each of them has the uid that the controller reference of the child names.
  pub on_child_add-Owned :
      (child : Object) (ref : OwnerReference)
      → children.get_controller_of child ≡ some ref
      → (on_child_add api labels lib pc lister children child
          ≡ on_child_delete api labels lib pc lister children (unstructured child))
        × All
            (λ (p : Object). api.get_uid p ≡ ref.uid)
            (on_child_add api labels lib pc lister children child)
  unfolding on_child_add on_child_delete on_deleted_child
  on_child_add-Owned child ref h = elim (Bool-cases (is_some (api.get_deletion_timestamp child))) [
    | inl dying ↦ (
      rw dying refl,
      rw (dying, on_deleted_child, h) (resolve-Owned (api.get_namespace child) ref),
    )
    | inr alive ↦ (
      rw (alive, on_deleted_child, h) refl,
      rw (alive, h) (resolve-Owned (api.get_namespace child) ref),
    )
  ]

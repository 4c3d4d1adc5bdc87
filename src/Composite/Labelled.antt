-- ===== src/Composite/Labelled.antt =====
-- controller/composite/controller.go: the labels of the children that a parent desires. The registry is
-- built from a list of objects, so that none of its objects is nil.
pub mod Matching
use metac.Prelude.{
  String, Bool, true, false, not, ◌&&◌, Option, none, some, List, [], ◌∷◌, Dict, has, insert,
  if◌then◌else◌,
}
use metac.Prelude.Results.{Result, ok, err, ◌>>=◌}
use metac.Prelude.Steps.{wrapped}
use metac.Value.{entries}
use metac.Api.{Object, Api}
use metac.States.{flag}
use metac.Composite.{CompositeError, call_failed, labels_mismatch, ParentController, ParentLibrary}

abbrev pub controller_uid : String
controller_uid = "controller-uid"

module _ {S : Type 0} (api : Api) (lib : ParentLibrary) (pc : ParentController S)
    (selector : Dict String → Bool) (parent : Object) where
  -- The label of the parent is missing, and is to be there.
  abbrev pub needs_label : Dict String → Bool
  needs_label labels = flag pc.generate_selector && not (has controller_uid labels)

  abbrev pub labelled : Object → Dict String → Object × Dict String
  labelled child labels =
      if needs_label labels
      then (
        lib.set_labels child (insert controller_uid (api.get_uid parent) labels),
        insert controller_uid (api.get_uid parent) labels,
      )
      else (child, labels)

  abbrev pub checked : Object × Dict String → Result CompositeError Object
  checked (child, labels) = if not (selector labels) then err labels_mismatch else ok child

  unfoldable pub enforce_child : Object → Result CompositeError Object
  enforce_child child = elim (lib.nested_labels child) [
    | err e ↦ err (call_failed e)
    | ok labels ↦ checked (labelled child (entries labels))
  ]

  unfoldable pub enforce_group : Dict Object → Result CompositeError (Dict Object)
  enforce_group [] = ok []
  enforce_group ((name, child) ∷ group) = do
    first ← enforce_child child
    rest ← enforce_group group
    ok ((name, first) ∷ rest)

  -- Every desired child matches the selector of the parent, with the label that was added.
  unfoldable pub enforce_groups : Dict (Dict Object) → Result CompositeError (Dict (Dict Object))
  enforce_groups [] = ok []
  enforce_groups ((key, group) ∷ desired) = do
    first ← enforce_group group
    rest ← enforce_groups desired
    ok ((key, first) ∷ rest)

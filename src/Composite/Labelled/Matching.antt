-- ===== src/Composite/Labelled/Matching.antt =====
-- The children that pass.
use metac.Prelude.{
  String, Bool, true, ◌≡◌, refl, sym, ap, ◌∙◌, Option, some, [], ◌∷◌, Dict, insert, All, inl, inr,
  Bool-cases,
}
use metac.Prelude.Results.{Result, ok, err, >>=-eq-ok, ok-injective}
use mathlib.Core.Path.{subst}
use metac.Value.{entries}
use metac.Api.{ApiError, Object, Api}
use metac.Composite.{CompositeError, ParentController, ParentLibrary}
use metac.Composite.Labelled.{
  controller_uid, needs_label, labelled, checked, enforce_child, enforce_group, enforce_groups,
}

-- The labels that are set are read.
pub record LibraryLaws (lib : ParentLibrary) : Type 0 where
  pub labels-set_labels :
      (o : Object) (l : Dict String) → lib.nested_labels (lib.set_labels o l) ≡ ok (some l)

-- The labels of an object can be read, and meet the selector.
abbrev pub Meets : ParentLibrary → (Dict String → Bool) → Object → Type 0
Meets lib selector obj =
    (l : Option (Dict String)) × (lib.nested_labels obj ≡ ok l) × (selector (entries l) ≡ true)

module _ {S : Type 0} (api : Api) (lib : ParentLibrary) (laws : LibraryLaws lib)
    (pc : ParentController S) (selector : Dict String → Bool) (parent : Object) where
  checked-true :
      (child : Object) (labels : Dict String) {obj : Object}
      → checked api lib pc selector parent (child, labels) ≡ ok obj
      → (selector labels ≡ true) × (child ≡ obj)
  checked-true child labels h = elim (Bool-cases (selector labels)) [
    | inl y ↦ (y, ok-injective (rw y at h))
    | inr n ↦ cc (rw n at h)
  ]

  enforce_child-Meets :
      (child : Object) {obj : Object}
      → enforce_child api lib pc selector parent child ≡ ok obj
      → Meets lib selector obj
  unfolding enforce_child
  enforce_child-Meets child {obj = obj} h = go (lib.nested_labels child) refl h
    where
      go :
          (r : Result ApiError (Option (Dict String)))
          → lib.nested_labels child ≡ r
          → elim r as (λ x. Result CompositeError Object) [
            | err e ↦ err (CompositeError.call_failed e)
            | ok labels ↦
                checked api lib pc selector parent
                  (labelled api lib pc selector parent child (entries labels))
          ]
            ≡ ok obj
          → Meets lib selector obj
      go (err e) p q = cc q
      go (ok labels) p q =
          elim (Bool-cases (needs_label api lib pc selector parent (entries labels))) [
            | inl y ↦
                let (met, same) = checked-true _ _ (rw y at q) in
                (
                  some (insert controller_uid (api.get_uid parent) (entries labels)),
                  ap lib.nested_labels (sym same) ∙ laws.labels-set_labels child _,
                  met,
                )
            | inr n ↦
                let (met, same) = checked-true _ _ (rw n at q) in
                (labels, ap lib.nested_labels (sym same) ∙ p, met)
          ]

  enforce_group-Meets :
      (group : Dict Object) {found : Dict Object}
      → enforce_group api lib pc selector parent group ≡ ok found
      → All (λ e. Meets lib selector e.1) found
  unfolding enforce_group
  enforce_group-Meets [] h =
      subst (λ (g : Dict Object). All (λ e. Meets lib selector e.1) g) (ok-injective h) tt
  enforce_group-Meets ((name, child) ∷ group) h =
      let (first, p, q) = >>=-eq-ok (enforce_child api lib pc selector parent child) _ h in
      let (rest, p', q') = >>=-eq-ok (enforce_group api lib pc selector parent group) _ q in
      subst (λ (g : Dict Object). All (λ e. Meets lib selector e.1) g) (ok-injective q')
        (enforce_child-Meets child p, enforce_group-Meets group p')

  -- If the check of the desired children passes, then the labels of every child that is handed on meet the
  -- selector of the parent, also where the label of the parent was added.
  pub enforce_groups-Meets :
      (desired : Dict (Dict Object)) {found : Dict (Dict Object)}
      → enforce_groups api lib pc selector parent desired ≡ ok found
      → All
          (λ (g : String × Dict Object). All (λ (e : String × Object). Meets lib selector e.1) g.1)
          found
  unfolding enforce_groups
  enforce_groups-Meets [] h =
      subst (λ (m : Dict (Dict Object)). All (λ g. All (λ e. Meets lib selector e.1) g.1) m)
        (ok-injective h) tt
  enforce_groups-Meets ((key, group) ∷ desired) h =
      let (first, p, q) = >>=-eq-ok (enforce_group api lib pc selector parent group) _ h in
      let (rest, p', q') = >>=-eq-ok (enforce_groups api lib pc selector parent desired) _ q in
      subst (λ (m : Dict (Dict Object)). All (λ g. All (λ e. Meets lib selector e.1) g.1) m)
        (ok-injective q') (enforce_group-Meets group p, enforce_groups-Meets desired p')

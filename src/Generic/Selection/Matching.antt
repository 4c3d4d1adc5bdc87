-- ===== src/Generic/Selection/Matching.antt =====
-- What a selection matches, and that its four maps have the same keys.
use mathlib.Core.Path.{subst}
use metac.Prelude.{
  nat_eq, arith, length, contains, String, Bool, true, ◌&&◌, ◌||◌, ◌≡◌, ◌≢◌, refl, sym, ap, ◌∙◌,
  Option, none, some, List, [], ◌∷◌, Dict, lookup, has, insert, ◌==◌, eq_refl, lookup-insert,
  has-insert, has-is_some, inl, inr, Bool-cases, Option-cases, is_some,
}
use metac.Prelude.Results.{Result, ok, err, >>=-eq-ok, ok-injective}
use metac.Value.{entries}
use metac.Api.{Object, Api}
use metac.Selector.Labels.{SelectorError, LabelSelector, Labels}
use metac.Generic.Selection.{
  of_selector, nil_selector, GenericResource, ApiKind, Selection, key_of, selector_or_everything,
  set_label_selector, set_annotation_selector, set_name_selector, set_advanced_selector,
  set_selectors, register, register_all, new_selector_for_watch, new_selector_for_attachments,
  empty_selection, contains_or_true, match_lan, object_avk, is_duplicate_resource, match_selectors,
}

-- What set_selectors makes of the two selectors of the library.
abbrev with_selectors :
    GenericResource → ApiKind → (Dict String → Bool) → (Dict String → Bool) → Selection → Selection
with_selectors r a by_labels by_annotations s = record {
  name_selectors = insert (key_of a) (entries r.name_selector) s.name_selectors;
  label_selectors = insert (key_of a) by_labels s.label_selectors;
  annotation_selectors = insert (key_of a) by_annotations s.annotation_selectors;
  advanced_selectors = insert (key_of a) (entries r.advanced_selector) s.advanced_selectors;
}

-- The test of a selector that is given is what the library makes of it; where none is given, anything passes.
abbrev pub IsTest : Labels → Option LabelSelector → (Dict String → Bool) → Type 0
IsTest labels none f = (set : Dict String) → f set ≡ true
IsTest labels (some selector) f = labels.as_selector selector ≡ ok f

-- A list of names that is missing or empty has every name.
abbrev pub is_named : Option (List String) → String → Bool
is_named none name = true
is_named (some names) name = nat_eq (length names) 0 || contains name names

contains_or_true-eq :
    (names : Option (List String)) (name : String)
    → contains_or_true (entries names) name ≡ is_named names name
unfolding contains_or_true
contains_or_true-eq none name = refl
contains_or_true-eq (some []) name = refl
contains_or_true-eq (some (first ∷ names)) name = ground arith

-- The four maps have the same keys.
abbrev pub Aligned : Selection → Type 0
Aligned s =
    (key : String)
    → (has key s.label_selectors ≡ has key s.name_selectors)
      × (has key s.annotation_selectors ≡ has key s.name_selectors)
      × (has key s.advanced_selectors ≡ has key s.name_selectors)

has-insert_both :
    {A B : Type 0} (k key : String) (v : A) (w : B) (m : Dict A) (n : Dict B)
    → has key m ≡ has key n
    → has key (insert k v m) ≡ has key (insert k w n)
has-insert_both k key v w m n e =
    has-insert k key v m ∙ ap (λ (b : Bool). k == key || b) e ∙ sym (has-insert k key w n)

with_selectors-Aligned :
    (r : GenericResource) (a : ApiKind) (f g : Dict String → Bool) (s : Selection)
    → Aligned s
    → Aligned (with_selectors r a f g s)
with_selectors-Aligned r a f g s al key = (
  has-insert_both (key_of a) key f (entries r.name_selector) s.label_selectors s.name_selectors
      (al key).0,
  has-insert_both (key_of a) key g (entries r.name_selector) s.annotation_selectors s.name_selectors
      (al key).1,
  has-insert_both (key_of a) key (entries r.advanced_selector) (entries r.name_selector)
      s.advanced_selectors s.name_selectors (al key).2,
)

lookup-insert_self :
    {A : Type 0} (k : String) (v : A) (m : Dict A) → lookup k (insert k v m) ≡ some v
lookup-insert_self k v m = rw (lookup-insert, eq_refl k) refl

module _ (labels : Labels) (api_of : String → String → Option ApiKind) where
  selector_or_everything-IsTest :
      (selector : Option LabelSelector) (f : Dict String → Bool)
      → selector_or_everything labels api_of selector ≡ ok f
      → IsTest labels selector f
  selector_or_everything-IsTest none f h =
      λ set. ap (λ (g : Dict String → Bool). g set) (sym (ok-injective h))
  selector_or_everything-IsTest (some selector) f h = go (labels.as_selector selector) h
    where
      go : (r : Result SelectorError (Dict String → Bool)) → of_selector r ≡ ok f → r ≡ ok f
      go (ok g) q = ap ok (ok-injective q)
      go (err e) q = cc

  set_selectors-ok :
      (r : GenericResource) (a : ApiKind) (s : Selection) {s' : Selection}
      → set_selectors labels api_of r a s ≡ ok s'
      → (f : Dict String → Bool) × (g : Dict String → Bool) × (selector_or_everything labels api_of
            r.label_selector
          ≡ ok f)
        × (selector_or_everything labels api_of r.annotation_selector ≡ ok g)
        × (s' ≡ with_selectors r a f g s)
  unfolding set_selectors set_label_selector set_annotation_selector set_name_selector
      set_advanced_selector
  set_selectors-ok r a s h =
      let (labelled, p, q) = >>=-eq-ok (set_label_selector labels api_of r a s) _ h in
      let (annotated, p', q') =
        >>=-eq-ok (set_annotation_selector labels api_of r a labelled) _ q in
      let (f, hf, ef) = >>=-eq-ok (selector_or_everything labels api_of r.label_selector) _ p in
      let (g, hg, eg) =
        >>=-eq-ok (selector_or_everything labels api_of r.annotation_selector) _ p' in
      (
        f,
        g,
        hf,
        hg,
        sym (ok-injective q')
            ∙ ap
                (λ (t : Selection). record t {
                  name_selectors = insert (key_of a) (entries r.name_selector) t.name_selectors;
                  advanced_selectors =
                      insert (key_of a) (entries r.advanced_selector) t.advanced_selectors;
                })
                (sym (ok-injective eg))
            ∙ ap
                (λ (t : Selection). record t {
                  name_selectors = insert (key_of a) (entries r.name_selector) t.name_selectors;
                  advanced_selectors =
                      insert (key_of a) (entries r.advanced_selector) t.advanced_selectors;
                  annotation_selectors = insert (key_of a) g t.annotation_selectors;
                })
                (sym (ok-injective ef)),
      )

  -- A registration names a discovered resource, and sets its selectors.
  register-ok :
      (r : GenericResource) (s : Selection) {s' : Selection}
      → register labels api_of r s ≡ ok s'
      → (a : ApiKind) × (api_of r.api_version r.resource ≡ some a)
        × (set_selectors labels api_of r a s ≡ ok s')
  unfolding register
  register-ok r s {s' = s'} h = elim (Bool-cases (r.api_version == "")) [
    | inl y ↦ cc (rw y at h)
    | inr n ↦ elim (Bool-cases (r.resource == "")) [
      | inl y' ↦ cc (rw (n, y') at h)
      | inr n' ↦ elim (Option-cases (api_of r.api_version r.resource)) [
        | inl e ↦ cc (rw (n, n', e) at h)
        | inr (a, e) ↦ elim (Bool-cases (is_duplicate_resource s a)) [
          | inl d ↦ cc (rw (n, n', e, d) at h)
          | inr d ↦ (a, e, rw (n, n', e, d) at h)
        ]
      ]
    ]
  ]

  register-Aligned :
      (r : GenericResource) (s : Selection) {s' : Selection}
      → register labels api_of r s ≡ ok s'
      → Aligned s
      → Aligned s'
  register-Aligned r s {s' = s'} h al =
      let (a, e, q) = register-ok r s h in
      let (f, g, hf, hg, same) = set_selectors-ok r a s q in
      subst (λ (x : Selection). Aligned x) (sym same) ((with_selectors-Aligned r a f g s al))

  register_all-Aligned :
      (rs : List GenericResource) (s : Selection) {s' : Selection}
      → register_all labels api_of rs s ≡ ok s'
      → Aligned s
      → Aligned s'
  unfolding register_all
  register_all-Aligned [] s h al = subst (λ (x : Selection). Aligned x) (ok-injective h) (al)
  register_all-Aligned (r ∷ rs) s h al =
      let (t, p, q) = >>=-eq-ok (register labels api_of r s) _ h in
      register_all-Aligned rs t q (register-Aligned r s p al)

module _ (labels : Labels) (api : Api) (api_of : String → String → Option ApiKind) where
  -- A match by labels, annotations and name of an object whose kind is registered calls no nil
  -- selector, for all lists of attachments that are accepted.
  pub match_lan-registered :
      (attachments : List GenericResource) {s : Selection} (obj : Object)
      → new_selector_for_attachments labels api_of attachments ≡ ok s
      → has (object_avk labels api obj) s.name_selectors ≡ true
      → match_lan labels api s obj ≢ err nil_selector
  unfolding match_lan new_selector_for_attachments
  match_lan-registered attachments {s = s} obj h t =
      let al =
        register_all-Aligned labels api_of attachments empty_selection h
          (λ key. unfold has in (refl, refl, refl)) (object_avk labels api obj) in
      go _ _ (sym (has-is_some (object_avk labels api obj) s.label_selectors) ∙ al.0 ∙ t)
        (sym (has-is_some (object_avk labels api obj) s.annotation_selectors) ∙ al.1 ∙ t)
    where
      go :
          (by_labels by_annotations : Option (Dict String → Bool))
          → is_some by_labels ≡ true
          → is_some by_annotations ≡ true
          → match_selectors labels api by_labels by_annotations
              (entries (lookup (object_avk labels api obj) s.name_selectors))
              obj
            ≢ err nil_selector
      go none o p q = absurd (cc p)
      go (some f) none p q = absurd (cc q)
      go (some f) (some g) p q = λ e. cc

  -- The selection of a watch matches an object of the kind of the watch if the object's labels meet the
  -- label selector, its annotations the annotation selector, and its name is listed; where the watch has
  -- no selector of one sort, or an empty list of names, anything does.
  pub match_lan-watch :
      (watch : GenericResource) {s : Selection} (a : ApiKind) (obj : Object)
      → new_selector_for_watch labels api_of watch ≡ ok s
      → api_of watch.api_version watch.resource ≡ some a
      → api.get_api_version obj ≡ a.api_version
      → api.get_kind obj ≡ a.kind
      → (f : Dict String → Bool) × (g : Dict String → Bool) × IsTest labels watch.label_selector f
        × IsTest labels watch.annotation_selector g
        × (match_lan labels api s obj
            ≡ ok (
                f (api.get_labels obj)
                && (g (entries (api.get_annotations obj))
                    && is_named watch.name_selector (api.get_name obj))))
  unfolding match_lan new_selector_for_watch
  match_lan-watch watch {s = s} a obj h known hv hk =
      let (b, e, q) = register-ok labels api_of watch empty_selection h in
      let same : b ≡ a = some_injective (sym e ∙ known) in
      let (f, g, hf, hg, made) = set_selectors-ok labels api_of watch b empty_selection q in
      (
        f,
        g,
        selector_or_everything-IsTest labels api_of watch.label_selector f hf,
        selector_or_everything-IsTest labels api_of watch.annotation_selector g hg,
        match_with f g
            (found (λ (x : Selection). x.label_selectors) made
              (rw (same, hv, hk) (lookup-insert_self (key_of a) f [])))
            (found (λ (x : Selection). x.annotation_selectors) made
              (rw (same, hv, hk) (lookup-insert_self (key_of a) g [])))
            (found (λ (x : Selection). x.name_selectors) made
              (rw (same, hv, hk) (lookup-insert_self (key_of a) (entries watch.name_selector) []))),
      )
    where
      some_injective : {x y : ApiKind} → some x ≡ some y → x ≡ y
      some_injective p = cc

      found :
          {V : Type 0} (map_of : Selection → Dict V) {x : Selection} {v : V}
          → s ≡ x
          → lookup (object_avk labels api obj) (map_of x) ≡ some v
          → lookup (object_avk labels api obj) (map_of s) ≡ some v
      found map_of e h = ap (λ (y : Selection). lookup (object_avk labels api obj) (map_of y)) e ∙ h

      match_with :
          (f g : Dict String → Bool)
          → lookup (object_avk labels api obj) s.label_selectors ≡ some f
          → lookup (object_avk labels api obj) s.annotation_selectors ≡ some g
          → lookup (object_avk labels api obj) s.name_selectors ≡ some (entries watch.name_selector)
          → match_lan labels api s obj
            ≡ ok (
                f (api.get_labels obj)
                && (g (entries (api.get_annotations obj))
                    && is_named watch.name_selector (api.get_name obj)))
      match_with f g p q r =
          rw (p, q, r)
            (ap
              (λ (b : Bool).
                ok (f (api.get_labels obj) && (g (entries (api.get_annotations obj)) && b)))
              (contains_or_true-eq watch.name_selector (api.get_name obj)))

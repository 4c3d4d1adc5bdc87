-- ===== src/Composite/Revisions/Same.antt =====
-- controller/composite/controller_revision.go: when two revisions are deeply equal.
use mathlib.Core.Path.{ap₂}
use metac.Prelude.{
  String, Bool, true, false, ◌&&◌, ◌≡◌, refl, sym, ap, ◌∙◌, Option, none, some, List, [], ◌∷◌, Dict,
  lookup, length, nat_eq, ◌==◌, eq_iff, All, arith,
}
use metac.Revision.{RevisionChildren}
use metac.Manage.{OwnerReference}
use metac.Composite.Revisions.{
  ControllerRevision, same_flag, is_text, same_names, same_children, same_children_or_nil,
  same_owner, same_owners, has_labels, same_revision,
}

-- The revisions agree in everything; their labels have the same number, and each of the first is one of the
-- second.
abbrev pub Same : ControllerRevision → ControllerRevision → Type 0
Same a b =
    (a.name ≡ b.name)
    × (a.namespace ≡ b.namespace)
    × (a.uid ≡ b.uid)
    × (a.parent_patch ≡ b.parent_patch)
    × (a.children ≡ b.children)
    × (a.owner_references ≡ b.owner_references)
    × (length a.labels ≡ length b.labels)
    × All (λ (e : String × String). lookup e.0 b.labels ≡ some e.1) a.labels

both : (a b : Bool) → (a && b) ≡ true → (a ≡ true) × (b ≡ true)
both true true h = (refl, refl)
both true false h = cc
both false b h = cc

both_true : (a b : Bool) → a ≡ true → b ≡ true → (a && b) ≡ true
both_true a b p q = rw (p, q) refl

-- A test of equality on one type that decides its paths.
abbrev Decides : {A : Type 0} → (A → A → Bool) → Type 0
Decides {A} test = (a b : A) → ((test a b ≡ true) → a ≡ b) × (a ≡ b → test a b ≡ true)

same_flag-Decides : Decides same_flag
same_flag-Decides true b = (λ h. sym h, λ e. sym e)
same_flag-Decides false true = (λ h. cc, λ e. cc)
same_flag-Decides false false = (λ h. refl, λ e. refl)

same_names-eq : (as_ bs : List String) → same_names as_ bs ≡ true → as_ ≡ bs
same_names-eq [] [] h = refl
same_names-eq [] (b ∷ bs) h = cc
same_names-eq (a ∷ as_) [] h = cc
same_names-eq (a ∷ as_) (b ∷ bs) h =
    let (p, q) = both (a == b) (same_names as_ bs) h in
    ap₂ ◌∷◌ ((eq_iff a b).0 p) (same_names-eq as_ bs q)

same_names_refl : (as_ : List String) → same_names as_ as_ ≡ true
same_names_refl [] = refl
same_names_refl (a ∷ as_) =
    both_true (a == a) (same_names as_ as_) ((eq_iff a a).1 refl) (same_names_refl as_)

same_children-eq : (as_ bs : List RevisionChildren) → same_children as_ bs ≡ true → as_ ≡ bs
same_children-eq [] [] h = refl
same_children-eq [] (b ∷ bs) h = cc
same_children-eq (a ∷ as_) [] h = cc
same_children-eq (a ∷ as_) (b ∷ bs) h =
    let (p, rest) =
      both ((a.api_group == b.api_group) && ((a.kind == b.kind) && same_names a.names b.names))
        (same_children as_ bs) h in
    let (g, p') =
      both (a.api_group == b.api_group) ((a.kind == b.kind) && same_names a.names b.names) p in
    let (k, n) = both (a.kind == b.kind) (same_names a.names b.names) p' in
    ap₂ ◌∷◌
      (same_fields ((eq_iff a.api_group b.api_group).0 g) ((eq_iff a.kind b.kind).0 k)
        (same_names-eq a.names b.names n))
      (same_children-eq as_ bs rest)
  where
    same_fields : a.api_group ≡ b.api_group → a.kind ≡ b.kind → a.names ≡ b.names → a ≡ b
    same_fields g k n = λ i. record { api_group = g i; kind = k i; names = n i }

same_children_refl : (as_ : List RevisionChildren) → same_children as_ as_ ≡ true
same_children_refl [] = refl
same_children_refl (a ∷ as_) =
    rw
      (
        (eq_iff a.api_group a.api_group).1 refl,
        (eq_iff a.kind a.kind).1 refl,
        same_names_refl a.names,
      )
      (same_children_refl as_)

same_children_or_nil-eq :
    (a b : Option (List RevisionChildren)) → same_children_or_nil a b ≡ true → a ≡ b
same_children_or_nil-eq none none h = refl
same_children_or_nil-eq none (some b) h = cc
same_children_or_nil-eq (some a) none h = cc
same_children_or_nil-eq (some a) (some b) h = ap some (same_children-eq a b h)

same_children_or_nil_refl : (a : Option (List RevisionChildren)) → same_children_or_nil a a ≡ true
same_children_or_nil_refl none = refl
same_children_or_nil_refl (some a) = same_children_refl a

same_owner-eq : (a b : OwnerReference) → same_owner a b ≡ true → a ≡ b
same_owner-eq a b h =
    let (v, h1) = both (a.api_version == b.api_version) _ h in
    let (k, h2) = both (a.kind == b.kind) _ h1 in
    let (n, h3) = both (a.name == b.name) _ h2 in
    let (u, h4) = both (a.uid == b.uid) _ h3 in
    let (c, d) = both (same_flag a.controller b.controller) _ h4 in
    same_fields ((eq_iff a.api_version b.api_version).0 v) ((eq_iff a.kind b.kind).0 k)
      ((eq_iff a.name b.name).0 n) ((eq_iff a.uid b.uid).0 u)
      ((same_flag-Decides a.controller b.controller).0 c)
      ((same_flag-Decides a.block_owner_deletion b.block_owner_deletion).0 d)
  where
    same_fields :
        a.api_version ≡ b.api_version
        → a.kind ≡ b.kind
        → a.name ≡ b.name
        → a.uid ≡ b.uid
        → a.controller ≡ b.controller
        → a.block_owner_deletion ≡ b.block_owner_deletion
        → a ≡ b
    same_fields v k n u c d = λ i. record {
      api_version = v i;
      kind = k i;
      name = n i;
      uid = u i;
      controller = c i;
      block_owner_deletion = d i;
    }

same_owner_refl : (a : OwnerReference) → same_owner a a ≡ true
same_owner_refl a =
    rw
      (
        (eq_iff a.api_version a.api_version).1 refl,
        (eq_iff a.kind a.kind).1 refl,
        (eq_iff a.name a.name).1 refl,
        (eq_iff a.uid a.uid).1 refl,
        (same_flag-Decides a.controller a.controller).1 refl,
      )
      ((same_flag-Decides a.block_owner_deletion a.block_owner_deletion).1 refl)

same_owners-eq : (as_ bs : List OwnerReference) → same_owners as_ bs ≡ true → as_ ≡ bs
same_owners-eq [] [] h = refl
same_owners-eq [] (b ∷ bs) h = cc
same_owners-eq (a ∷ as_) [] h = cc
same_owners-eq (a ∷ as_) (b ∷ bs) h =
    let (p, q) = both (same_owner a b) (same_owners as_ bs) h in
    ap₂ ◌∷◌ (same_owner-eq a b p) (same_owners-eq as_ bs q)

same_owners_refl : (as_ : List OwnerReference) → same_owners as_ as_ ≡ true
same_owners_refl [] = refl
same_owners_refl (a ∷ as_) =
    both_true (same_owner a a) (same_owners as_ as_) (same_owner_refl a) (same_owners_refl as_)

some_injective : {a b : String} → some a ≡ some b → a ≡ b
some_injective e = cc

is_text-lookup :
    (k v : String) (m : Dict String)
    → (is_text k v m ≡ true → lookup k m ≡ some v) × (lookup k m ≡ some v → is_text k v m ≡ true)
is_text-lookup k v m = go (lookup k m)
  where
    go :
        (o : Option String)
        → (elim o as (λ x. Bool) [ none ↦ false | some w ↦ v == w ] ≡ true → o ≡ some v)
          × (o ≡ some v → elim o as (λ x. Bool) [ none ↦ false | some w ↦ v == w ] ≡ true)
    go none = (λ h. cc, λ e. cc)
    go (some w) =
        (λ h. ap some (sym ((eq_iff v w).0 h)), λ e. (eq_iff v w).1 (sym (some_injective e)))

has_labels-All :
    (labels m : Dict String)
    → has_labels labels m ≡ true
    → All (λ (e : String × String). lookup e.0 m ≡ some e.1) labels
has_labels-All [] m h = tt
has_labels-All ((k, v) ∷ labels) m h =
    let (p, q) = both (is_text k v m) (has_labels labels m) h in
    ((is_text-lookup k v m).0 p, has_labels-All labels m q)

All-has_labels :
    (labels m : Dict String)
    → All (λ (e : String × String). lookup e.0 m ≡ some e.1) labels
    → has_labels labels m ≡ true
All-has_labels [] m a = refl
All-has_labels ((k, v) ∷ labels) m a =
    both_true (is_text k v m) (has_labels labels m) ((is_text-lookup k v m).1 a.0)
      (All-has_labels labels m a.1)

pub same_revision-Same : (a b : ControllerRevision) → same_revision a b ≡ true → Same a b
unfolding same_revision
same_revision-Same a b h =
    let (n, h1) = both (a.name == b.name) _ h in
    let (ns, h2) = both (a.namespace == b.namespace) _ h1 in
    let (u, h3) = both (a.uid == b.uid) _ h2 in
    let (p, h4) = both (a.parent_patch == b.parent_patch) _ h3 in
    let (c, h5) = both (same_children_or_nil a.children b.children) _ h4 in
    let (o, h6) = both (same_owners a.owner_references b.owner_references) _ h5 in
    let (l, m) = both (nat_eq (length a.labels) (length b.labels)) _ h6 in
    (
      (eq_iff a.name b.name).0 n,
      (eq_iff a.namespace b.namespace).0 ns,
      (eq_iff a.uid b.uid).0 u,
      (eq_iff a.parent_patch b.parent_patch).0 p,
      same_children_or_nil-eq a.children b.children c,
      same_owners-eq a.owner_references b.owner_references o,
      ground (arith, l),
      has_labels-All a.labels b.labels m,
    )

pub Same-same_revision : (a b : ControllerRevision) → Same a b → same_revision a b ≡ true
unfolding same_revision
Same-same_revision a b (n, ns, u, p, c, o, l, m) =
    rw
      (
        (eq_iff a.name b.name).1 n,
        (eq_iff a.namespace b.namespace).1 ns,
        (eq_iff a.uid b.uid).1 u,
        (eq_iff a.parent_patch b.parent_patch).1 p,
        same_kids,
        same_refs,
        same_number,
      )
      (All-has_labels a.labels b.labels m)
  where
    same_kids : same_children_or_nil a.children b.children ≡ true
    same_kids =
        ap (λ (x : Option (List RevisionChildren)). same_children_or_nil a.children x) (sym c)
        ∙ same_children_or_nil_refl a.children

    same_refs : same_owners a.owner_references b.owner_references ≡ true
    same_refs =
        ap (λ (x : List OwnerReference). same_owners a.owner_references x) (sym o)
        ∙ same_owners_refl a.owner_references

    same_number : nat_eq (length a.labels) (length b.labels) ≡ true
    same_number = ground (arith, l)

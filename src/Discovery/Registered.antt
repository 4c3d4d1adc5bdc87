-- ===== src/Discovery/Registered.antt =====
-- The maps of a registry lead to resources with the name, or the kind, and the API version.
use mathlib.Core.Path.{subst}
use metac.Prelude.{
  ℕ, String, Bool, true, false, ◌≡◌, refl, sym, ◌∙◌, Option, none, some, List, [], ◌∷◌, ◌++◌, Dict,
  lookup, insert, lookup-insert, length, elem_at, modify_at, nat_eq, elem_at-append_last,
  elem_at-append_left, elem_at-modify_at, ◌==◌, eq_iff, inl, inr, Bool-cases, if◌then◌else◌,
}
use metac.Prelude.Text.{has_byte}
use metac.Discovery.{
  ServerResource, ApiResource, ApiResourceRegistry, empty_registry, materialise, add_resource,
  add_resources, support, sub_path, mark, flag_subresource, flag_subresources,
}

-- A position holds a resource of the API version with the property.
abbrev pub Holds : String → (ApiResource → Type 0) → List ApiResource → ℕ → Type 0
Holds api_version P heap i =
    (r : ApiResource) × (elem_at heap i ≡ some r) × (r.api_version ≡ api_version) × P r

abbrev pub Named : String → ApiResource → Type 0
Named name r = r.name ≡ name

-- A resource of the kind that is no subresource.
abbrev pub OfKind : String → ApiResource → Type 0
OfKind kind r = (r.kind ≡ kind) × (has_byte b'/' r.name ≡ false)

pub record IsRegistry (api_version : String) (reg : ApiResourceRegistry) : Type 0 where
  pub by_name :
      (name : String) (i : ℕ)
      → lookup name reg.resources ≡ some i
      → Holds api_version (Named name) reg.heap i
  pub by_kind :
      (kind : String) (i : ℕ)
      → lookup kind reg.kinds ≡ some i
      → Holds api_version (OfKind kind) reg.heap i

Holds-append :
    (v : String) (P : ApiResource → Type 0) (heap : List ApiResource) (r : ApiResource) (i : ℕ)
    → Holds v P heap i
    → Holds v P (heap ++ r ∷ []) i
Holds-append v P heap r i (x, e, q, p) = (x, elem_at-append_left heap (r ∷ []) i e, q, p)

-- A new entry of a map, beside those that hold.
insert-Holds :
    (v : String) (P : String → ApiResource → Type 0) (heap : List ApiResource) (r : ApiResource)
    (m : Dict ℕ) (key : String)
    → r.api_version ≡ v
    → P key r
    → ((k : String) (i : ℕ) → lookup k m ≡ some i → Holds v (P k) heap i)
    → (k : String) (i : ℕ) → lookup k (insert key (length heap) m) ≡ some i
    → Holds v (P k) (heap ++ r ∷ []) i
insert-Holds v P heap r m key hv hp old k i h = elim (Bool-cases (key == k)) [
  | inl same ↦
      let here : length heap ≡ i = injective (sym (found true same) ∙ h) in
      subst (λ (j : ℕ). Holds v (P k) (heap ++ r ∷ []) j) here
        ((
          r,
          elem_at-append_last heap r,
          hv,
          subst (λ (s : String). P s r) ((eq_iff key k).0 same) (hp),
        ))
  | inr different ↦ Holds-append v (P k) heap r i (old k i (sym (found false different) ∙ h))
]
  where
    injective : {a b : ℕ} → some a ≡ some b → a ≡ b
    injective e = cc

    found :
        (b : Bool)
        → (key == k) ≡ b
        → lookup k (insert key (length heap) m) ≡ (if b then some (length heap) else lookup k m)
    found b e = rw lookup-insert (rw e refl)

add_resource-IsRegistry :
    (v : String) (gv : String × String) (r : ServerResource) (reg : ApiResourceRegistry)
    → IsRegistry v reg
    → IsRegistry v (add_resource v gv r reg)
unfolding add_resource
add_resource-IsRegistry v gv r reg w = record {
  by_name =
      insert-Holds v Named reg.heap (materialise v gv r) reg.resources r.name refl refl w.by_name;
  by_kind = λ kind i h. elim (Bool-cases (has_byte b'/' r.name)) [
    | inl sub ↦
        Holds-append v (OfKind kind) reg.heap (materialise v gv r) i
          (w.by_kind kind i (sym (unchanged kind sub) ∙ h))
    | inr main ↦
        insert-Holds v OfKind reg.heap (materialise v gv r) reg.kinds r.kind refl (refl, main)
          w.by_kind kind i (sym (changed kind main) ∙ h)
  ];
}
  where
    kinds : Dict ℕ
    kinds = if has_byte b'/' r.name then reg.kinds else insert r.kind (length reg.heap) reg.kinds

    unchanged :
        (kind : String) → has_byte b'/' r.name ≡ true → lookup kind kinds ≡ lookup kind reg.kinds
    unchanged kind e = rw e refl

    changed :
        (kind : String)
        → has_byte b'/' r.name ≡ false
        → lookup kind kinds ≡ lookup kind (insert r.kind (length reg.heap) reg.kinds)
    changed kind e = rw e refl

pub add_resources-IsRegistry :
    (v : String) (gv : String × String) (rs : List ServerResource) (reg : ApiResourceRegistry)
    → IsRegistry v reg
    → IsRegistry v (add_resources v gv rs reg)
unfolding add_resources
add_resources-IsRegistry v gv [] reg w = w
add_resources-IsRegistry v gv (r ∷ rs) reg w =
    add_resources-IsRegistry v gv rs (add_resource v gv r reg)
      (add_resource-IsRegistry v gv r reg w)

-- A mark leaves the name, the kind and the API version.
Holds-modify :
    (v : String) (P : ApiResource → Type 0) (heap : List ApiResource) (n i : ℕ) (sub : String)
    → ((r : ApiResource) → P r → P (support sub r))
    → Holds v P heap i
    → Holds v P (modify_at (support sub) heap n) i
Holds-modify v P heap n i sub keep (r, e, q, p) = elim (Bool-cases (nat_eq n i)) [
  | inl here ↦
      (support sub r, elem_at-modify_at (support sub) heap n i ∙ rw (here, e) refl, q, keep r p)
  | inr there ↦ (r, elem_at-modify_at (support sub) heap n i ∙ rw (there, e) refl, q, p)
]

pub mark-IsRegistry :
    (v : String) (o : Option ℕ) (sub : String) (reg : ApiResourceRegistry)
    → IsRegistry v reg
    → IsRegistry v (mark o sub reg)
mark-IsRegistry v none sub reg w = w
mark-IsRegistry v (some n) sub reg w = record {
  by_name =
      λ name i h. Holds-modify v (Named name) reg.heap n i sub (λ r p. p) (w.by_name name i h);
  by_kind =
      λ kind i h. Holds-modify v (OfKind kind) reg.heap n i sub (λ r p. p) (w.by_kind kind i h);
}

pub flag_subresources-IsRegistry :
    (v : String) (names : List String) (reg : ApiResourceRegistry)
    → IsRegistry v reg
    → IsRegistry v (flag_subresources names reg)
unfolding flag_subresources flag_subresource
flag_subresources-IsRegistry v [] reg w = w
flag_subresources-IsRegistry v (name ∷ names) reg w =
    flag_subresources-IsRegistry v names (flag_subresource name reg) (go (sub_path name))
  where
    go :
        (p : Option (String × String))
        → IsRegistry v (elim p as (λ x. ApiResourceRegistry) [
          | none ↦ reg
          | some (resource, sub) ↦ mark (lookup resource reg.resources) sub reg
        ])
    go none = w
    go (some (resource, sub)) = mark-IsRegistry v (lookup resource reg.resources) sub reg w

pub listed-IsRegistry :
    (v : String) (gv : String × String) (rs : List ServerResource)
    → IsRegistry v (add_resources v gv rs empty_registry)
listed-IsRegistry v gv rs = add_resources-IsRegistry v gv rs empty_registry (record {
  by_name = λ name i h. absurd (nothing name i h);
  by_kind = λ kind i h. absurd (nothing kind i h);
})
  where
    nothing : (k : String) (i : ℕ) → lookup k [] ≡ some i → ⊥
    nothing k i h = let bad : none ≡ some i = (unfold lookup in h) in cc

-- ===== src/Discovery/Subresources.antt =====
-- Which subresources a resource supports.
use metac.Prelude.{
  ℕ, String, Bool, true, false, ◌&&◌, ◌||◌, ◌≡◌, refl, sym, ap, ◌∙◌, Option, none, some, List, [],
  ◌∷◌, Dict, keys, zero, suc, ◌++◌, lookup, insert, contains, elem_at, elem_at-modify_at, nat_eq,
  ◌==◌, eq_iff, inl, inr, Bool-cases, arith,
}
use metac.Prelude.Text.{has_byte}
use metac.Discovery.{
  ServerResource, ResourceList, ApiResource, ApiResourceRegistry, empty_registry, add_resource,
  add_resources, support, sub_path, mark, flag_subresource, flag_subresources, discover_list,
  has_subresource,
}
use metac.Discovery.Registered.{IsRegistry, listed-IsRegistry, mark-IsRegistry}

-- The name of a subresource stands for this subresource of this resource.
abbrev pub stands_for : String → String → Option (String × String) → Bool
stands_for name sub none = false
stands_for name sub (some (resource, s)) = (resource == name) && (s == sub)

abbrev any_name : (String → Bool) → List String → Bool
any_name p [] = false
any_name p (n ∷ ns) = p n || any_name p ns

-- The server lists a subresource of the resource.
abbrev pub listed : String → String → List ServerResource → Bool
listed name sub [] = false
listed name sub (r ∷ rs) =
    (has_byte b'/' r.name && stands_for name sub (sub_path r.name)) || listed name sub rs

any_name-insert :
    (p : String → Bool) (k : String) (v : ℕ) (m : Dict ℕ)
    → any_name p (keys (insert k v m)) ≡ (p k || any_name p (keys m))
unfolding insert
any_name-insert p k v [] = refl
any_name-insert p k v ((j, w) ∷ m) = elim (Bool-cases (j == k)) [
  | inl same ↦ let e : j ≡ k = (eq_iff j k).0 same in rw (same, e) (ground arith)
  | inr different ↦ rw different (ground (arith, any_name-insert p k v m))
]

or_shuffle : (a b c : Bool) → ((a || b) || c) ≡ (b || ((true && a) || c))
or_shuffle a b c = ground arith

-- The names of the subresources are those that are listed.
any_name-add_resources :
    (name sub v : String) (gv : String × String) (rs : List ServerResource)
    (reg : ApiResourceRegistry)
    → any_name
        (λ n. stands_for name sub (sub_path n))
        (keys (add_resources v gv rs reg).subresources)
      ≡ (any_name (λ n. stands_for name sub (sub_path n)) (keys reg.subresources)
          || listed name sub rs)
unfolding add_resources add_resource
any_name-add_resources name sub v gv [] reg = ground arith
any_name-add_resources name sub v gv (r ∷ rs) reg =
    any_name-add_resources name sub v gv rs (add_resource v gv r reg)
    ∙ elim (Bool-cases (has_byte b'/' r.name)) [
      | inl slash ↦ rw slash (
          ap (λ (b : Bool). b || listed name sub rs)
            (any_name-insert (λ n. stands_for name sub (sub_path n)) r.name _ reg.subresources)
          ∙ or_shuffle (stands_for name sub (sub_path r.name)) _ (listed name sub rs))
      | inr plain ↦ rw plain (ground arith)
    ]

abbrev supports : String → Option ApiResource → Bool
supports sub none = false
supports sub (some r) = has_subresource r sub

-- How a resource at a position is marked by the names of the subresources.
module _ (name sub v : String) (i : ℕ) where
  -- The resource of the name is at the position, and the names point at resources of their own.
  abbrev AtPosition : ApiResourceRegistry → Type 0
  AtPosition reg = (lookup name reg.resources ≡ some i) × IsRegistry v reg

  abbrev supports_at : ApiResourceRegistry → Bool
  supports_at reg = supports sub (elem_at reg.heap i)

  mark-supports :
      (reg : ApiResourceRegistry) (o : Option ℕ) (resource s : String)
      → AtPosition reg
      → lookup resource reg.resources ≡ o
      → supports_at (mark o s reg) ≡ (stands_for name sub (some (resource, s)) || supports_at reg)
  mark-supports reg none resource s at h = elim (Bool-cases (resource == name)) [
    | inl same ↦
        let e : resource ≡ name = (eq_iff resource name).0 same in
        cc (sym h ∙ ap (λ k. lookup k reg.resources) e ∙ at.0)
    | inr different ↦ rw different refl
  ]
  mark-supports reg (some j) resource s at h =
      let (x, at_i, vx, nx) = at.1.by_name name i at.0 in
      let (y, at_j, vy, ny) = at.1.by_name resource j h in
      elim (Bool-cases (resource == name)) [
        | inl same ↦
            let e : resource ≡ name = (eq_iff resource name).0 same in
            let q : some j ≡ some i = sym h ∙ ap (λ k. lookup k reg.resources) e ∙ at.0 in
            let ji : nat_eq j i ≡ true = ground arith in
            ap (supports sub) (elem_at-modify_at (support s) reg.heap j i)
            ∙ rw (ji, at_i, same) (more x)
        | inr different ↦
            let ji : nat_eq j i ≡ false = elim (Bool-cases (nat_eq j i)) [
              | inr apart ↦ apart
              | inl meet ↦
                  let q : j ≡ i = ground arith in
                  let z : some y ≡ some x = sym at_j ∙ ap (elem_at reg.heap) q ∙ at_i in
                  let n : resource ≡ name = sym ny ∙ ap name_of (injective z) ∙ nx in
                  cc (sym different ∙ (eq_iff resource name).1 n)
            ] in
            ap (supports sub) (elem_at-modify_at (support s) reg.heap j i) ∙ rw (ji, different) refl
      ]
    where
      injective : {a b : ApiResource} → some a ≡ some b → a ≡ b
      injective p = cc

      more :
          (r : ApiResource)
          → has_subresource (support s r) sub ≡ (s == sub || has_subresource r sub)
      more r = unfold has_subresource contains in refl

      name_of : ApiResource → String
      name_of r = r.name

  flag_subresource-supports :
      (reg : ApiResourceRegistry) (n : String)
      → AtPosition reg
      → (supports_at (flag_subresource n reg)
          ≡ (stands_for name sub (sub_path n) || supports_at reg))
        × AtPosition (flag_subresource n reg)
  unfolding flag_subresource
  flag_subresource-supports reg n at = go (sub_path n)
    where
      flagged : Option (String × String) → ApiResourceRegistry
      flagged p = elim p [
        | none ↦ reg
        | some (resource, s) ↦ mark (lookup resource reg.resources) s reg
      ]

      kept : (o : Option ℕ) (s : String) → lookup name (mark o s reg).resources ≡ some i
      kept none s = at.0
      kept (some j) s = at.0

      go :
          (p : Option (String × String))
          → (supports_at (flagged p) ≡ (stands_for name sub p || supports_at reg))
            × AtPosition (flagged p)
      go none = (refl, at)
      go (some (resource, s)) = (
        mark-supports reg (lookup resource reg.resources) resource s at refl,
        (
          kept (lookup resource reg.resources) s,
          mark-IsRegistry v (lookup resource reg.resources) s reg at.1,
        ),
      )

  flag_subresources-supports :
      (reg : ApiResourceRegistry) (ns : List String)
      → AtPosition reg
      → (supports_at (flag_subresources ns reg)
          ≡ (any_name (λ n. stands_for name sub (sub_path n)) ns || supports_at reg))
        × AtPosition (flag_subresources ns reg)
  unfolding flag_subresources
  flag_subresources-supports reg [] at = (refl, at)
  flag_subresources-supports reg (n ∷ ns) at =
      let one = flag_subresource-supports reg n at in
      let rest = flag_subresources-supports (flag_subresource n reg) ns one.1 in
      (ground (arith, one.0, rest.0), rest.1)

mark-resources :
    (o : Option ℕ) (s : String) (reg : ApiResourceRegistry)
    → (mark o s reg).resources ≡ reg.resources
mark-resources none s reg = refl
mark-resources (some j) s reg = refl

flag_subresources-resources :
    (ns : List String) (reg : ApiResourceRegistry)
    → (flag_subresources ns reg).resources ≡ reg.resources
unfolding flag_subresources flag_subresource
flag_subresources-resources [] reg = refl
flag_subresources-resources (n ∷ ns) reg =
    flag_subresources-resources ns (flag_subresource n reg) ∙ go (sub_path n)
  where
    go :
        (p : Option (String × String))
        → ◌≡◌ {A = Dict ℕ}
            (elim p as (λ x. ApiResourceRegistry) [
              | none ↦ reg
              | some (resource, s) ↦ mark (lookup resource reg.resources) s reg
            ]).resources
            reg.resources
    go none = refl
    go (some (resource, s)) = mark-resources (lookup resource reg.resources) s reg

or_false : (b : Bool) → (b || false) ≡ b
or_false true = refl
or_false false = refl

unmarked-append :
    (sub : String) (heap : List ApiResource) (r : ApiResource) (i : ℕ)
    → has_subresource r sub ≡ false
    → ((n : ℕ) → supports sub (elem_at heap n) ≡ false)
    → supports sub (elem_at (heap ++ r ∷ []) i) ≡ false
unmarked-append sub [] r zero h all = h
unmarked-append sub [] r (suc i) h all = refl
unmarked-append sub (x ∷ heap) r zero h all = all zero
unmarked-append sub (x ∷ heap) r (suc i) h all = unmarked-append sub heap r i h (λ n. all (suc n))

add_resources-unmarked :
    (sub v : String) (gv : String × String) (rs : List ServerResource) (reg : ApiResourceRegistry)
    → ((n : ℕ) → supports sub (elem_at reg.heap n) ≡ false)
    → (n : ℕ) → supports sub (elem_at (add_resources v gv rs reg).heap n) ≡ false
unfolding add_resources add_resource
add_resources-unmarked sub v gv [] reg all n = all n
add_resources-unmarked sub v gv (r ∷ rs) reg all n =
    add_resources-unmarked sub v gv rs (add_resource v gv r reg)
      (λ m. unmarked-append sub reg.heap _ m (unfold has_subresource contains in refl) all) n

-- In a list of the server, a resource that is found by its name supports a subresource exactly if the
-- list has a name with a slash whose first two parts are the resource and the subresource.
pub discover_list-has_subresource :
    (gv : String × String) (list : ResourceList) (name sub : String) (i : ℕ) (r : ApiResource)
    → lookup name (discover_list gv list).resources ≡ some i
    → elem_at (discover_list gv list).heap i ≡ some r
    → has_subresource r sub ≡ listed name sub list.resources
unfolding discover_list
discover_list-has_subresource gv list name sub i r found at =
    let base = add_resources list.group_version gv list.resources empty_registry in
    let marked =
      flag_subresources-supports name sub list.group_version i base (keys base.subresources) (
        sym (ap (lookup name) (flag_subresources-resources (keys base.subresources) base)) ∙ found,
        listed-IsRegistry list.group_version gv list.resources,
      ) in
    sym (ap (supports sub) at)
    ∙ marked.0
    ∙ ap
        (λ (b : Bool).
          any_name (λ n. stands_for name sub (sub_path n)) (keys base.subresources) || b)
        (add_resources-unmarked sub list.group_version gv list.resources empty_registry (λ n. refl)
          i)
    ∙ or_false _
    ∙ any_name-add_resources name sub list.group_version gv list.resources empty_registry

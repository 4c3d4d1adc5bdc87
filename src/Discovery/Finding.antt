-- ===== src/Discovery/Finding.antt =====
-- What is found under an API version and a kind or a resource name.
use mathlib.Core.Path.{subst}
use metac.Prelude.{
  ℕ, String, Bool, true, false, ◌≡◌, refl, sym, ap, ◌∙◌, Option, none, some, List, [], ◌∷◌, Dict,
  lookup, insert, lookup-insert, ◌==◌, eq_iff, inl, inr, Bool-cases, Option-cases, if◌then◌else◌,
}
use metac.Prelude.Text.{has_byte}
use metac.Prelude.Results.{ok}
use metac.Discovery.{
  ResourceList, ApiResource, ApiResourceRegistry, Discovered, discover_list, discover_lists,
  refresh, registry_of, in_heap, get_api_for_api_version_and_resource,
  get_api_for_api_version_and_kind,
}
use metac.Discovery.Registered.{
  Holds, Named, OfKind, IsRegistry, listed-IsRegistry, flag_subresources-IsRegistry,
}

discover_list-IsRegistry :
    (gv : String × String) (list : ResourceList)
    → IsRegistry list.group_version (discover_list gv list)
unfolding discover_list
discover_list-IsRegistry gv list =
    flag_subresources-IsRegistry list.group_version _ _
      (listed-IsRegistry list.group_version gv list.resources)

abbrev pub AllRegistries : Dict ApiResourceRegistry → Type 0
AllRegistries found =
    (v : String) (reg : ApiResourceRegistry) → lookup v found ≡ some reg → IsRegistry v reg

discover_lists-AllRegistries :
    (parse : String → Option (String × String)) (lists : List ResourceList)
    (found : Dict ApiResourceRegistry) {result : Dict ApiResourceRegistry}
    → AllRegistries found
    → discover_lists parse lists found ≡ some result
    → AllRegistries result
unfolding discover_lists
discover_lists-AllRegistries parse [] found all h = subst AllRegistries (cc h) all
discover_lists-AllRegistries parse (list ∷ lists) found {result = result} all h =
    go (parse list.group_version) h (λ gv.
      discover_lists-AllRegistries parse lists
        (insert list.group_version (discover_list gv list) found) (more gv))
  where
    more :
        (gv : String × String)
        → AllRegistries (insert list.group_version (discover_list gv list) found)
    more gv v reg e = elim (Bool-cases (list.group_version == v)) [
      | inl same ↦
          let q : discover_list gv list ≡ reg = injective (sym (at true same) ∙ e) in
          subst (λ (x : ApiResourceRegistry). IsRegistry v x) q
            ((subst (λ (s : String). IsRegistry s (discover_list gv list))
              ((eq_iff list.group_version v).0 same) ((discover_list-IsRegistry gv list))))
      | inr different ↦ all v reg (sym (at false different) ∙ e)
    ]
      where
        injective : {a b : ApiResourceRegistry} → some a ≡ some b → a ≡ b
        injective p = cc

        at :
            (b : Bool)
            → (list.group_version == v) ≡ b
            → lookup v (insert list.group_version (discover_list gv list) found)
              ≡ (if b then some (discover_list gv list) else lookup v found)
        at b p = rw lookup-insert (rw p refl)

    go :
        (p : Option (String × String))
        → elim p as (λ x. Option (Dict ApiResourceRegistry)) [
          | none ↦ none
          | some gv ↦
              discover_lists parse lists (insert list.group_version (discover_list gv list) found)
        ]
          ≡ some result
        → ((gv : String × String)
            → discover_lists parse lists (insert list.group_version (discover_list gv list) found)
              ≡ some result
            → AllRegistries result)
        → AllRegistries result
    go none q k = cc q
    go (some gv) q k = k gv q

-- What is found, if anything, has the property.
abbrev pub Found : Option ApiResource → (ApiResource → Type 0) → Type 0
Found none P = Unit
Found (some r) P = P r

found_if :
    (o : Option ApiResource) (P : ApiResource → Type 0)
    → ((r : ApiResource) → o ≡ some r → P r)
    → Found o P
found_if none P h = tt
found_if (some r) P h = h r refl

-- An entry of a map of a registry leads to a resource with the property of its key.
found_entry :
    (v : String) (P : String → ApiResource → Type 0) (heap : List ApiResource) (m : Dict ℕ)
    (key : String) {r : ApiResource}
    → ((k : String) (i : ℕ) → lookup k m ≡ some i → Holds v (P k) heap i)
    → in_heap heap (lookup key m) ≡ some r
    → (r.api_version ≡ v) × P key r
found_entry v P heap m key {r = r} held e = elim (Option-cases (lookup key m)) [
  | inl q ↦ cc (sym (ap (in_heap heap) q) ∙ e)
  | inr (i, q) ↦
      let (x, at_i, hv, hp) = held key i q in
      let same : x ≡ r = cc (sym at_i ∙ sym (ap (in_heap heap) q) ∙ e) in
      subst (λ (y : ApiResource). (y.api_version ≡ v) × P key y) {x = x} same ((hv, hp))
]

module _ (parse : String → Option (String × String)) where
  refresh-AllRegistries :
      (lists : List ResourceList) (before : Discovered) {d : Discovered}
      → refresh parse (ok lists) before ≡ some d
      → (v : String) (reg : ApiResourceRegistry) → registry_of d v ≡ some reg
      → IsRegistry v reg
  unfolding refresh
  refresh-AllRegistries lists before {d = d} h = go (discover_lists parse lists []) refl h
    where
      go :
          (o : Option (Dict ApiResourceRegistry))
          → discover_lists parse lists [] ≡ o
          → elim o as (λ x. Option Discovered) [ none ↦ none | some found ↦ some (some found) ]
            ≡ some d
          → (v : String) (reg : ApiResourceRegistry) → registry_of d v ≡ some reg
          → IsRegistry v reg
      go none p q v reg e = cc q
      go (some found) p q v reg e =
          let same : some found ≡ d = cc q in
          discover_lists-AllRegistries parse lists [] (λ w x b. absurd (nothing w x b)) p v reg
            (ap (λ (x : Discovered). registry_of x v) same ∙ e)
        where
          nothing : (w : String) (x : ApiResourceRegistry) → lookup w [] ≡ some x → ⊥
          nothing w x b = let bad : none ≡ some x = (unfold lookup in b) in cc

  -- After a refresh that succeeds, what is found under an API version and a resource name has that name,
  -- what is found under an API version and a kind has that kind and is no subresource, and both belong to
  -- the API version.
  pub refresh-finds :
      (lists : List ResourceList) (before : Discovered) {d : Discovered}
      → refresh parse (ok lists) before ≡ some d
      → (v name kind : String)
      → Found
          (get_api_for_api_version_and_resource d v name)
          (λ r. (r.api_version ≡ v) × (r.name ≡ name))
        × Found
            (get_api_for_api_version_and_kind d v kind)
            (λ r. (r.api_version ≡ v) × (r.kind ≡ kind) × (has_byte b'/' r.name ≡ false))
  unfolding refresh get_api_for_api_version_and_resource get_api_for_api_version_and_kind
  refresh-finds lists before {d = d} h v name kind = (
    found_if (get_api_for_api_version_and_resource d v name) _
        (λ r e. found_by_name (registry_of d v) refl e),
    found_if (get_api_for_api_version_and_kind d v kind) _
        (λ r e. found_by_kind (registry_of d v) refl e),
  )
    where
      found_by_name :
          (o : Option ApiResourceRegistry)
          → registry_of d v ≡ o
          → {r : ApiResource}
          → elim o as (λ x. Option ApiResource) [
            | none ↦ none
            | some reg ↦ in_heap reg.heap (lookup name reg.resources)
          ]
            ≡ some r
          → (r.api_version ≡ v) × (r.name ≡ name)
      found_by_name none p {r} e = cc e
      found_by_name (some reg) p {r} e =
          found_entry v Named reg.heap reg.resources name
            (refresh-AllRegistries lists before h v reg p).by_name e

      found_by_kind :
          (o : Option ApiResourceRegistry)
          → registry_of d v ≡ o
          → {r : ApiResource}
          → elim o as (λ x. Option ApiResource) [
            | none ↦ none
            | some reg ↦ in_heap reg.heap (lookup kind reg.kinds)
          ]
            ≡ some r
          → (r.api_version ≡ v) × (r.kind ≡ kind) × (has_byte b'/' r.name ≡ false)
      found_by_kind none p {r} e = cc e
      found_by_kind (some reg) p {r} e =
          let (hv, kept) =
            found_entry v OfKind reg.heap reg.kinds kind
              (refresh-AllRegistries lists before h v reg p).by_kind e in
          (hv, kept.0, kept.1)

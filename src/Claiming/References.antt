-- ===== src/Claiming/References.antt =====
-- Who owns an object after it was adopted or released.
use mathlib.Core.List.{append-nil}
use metac.Prelude.{
  Bool, ◌⊎◌, String, false, true, ◌≡◌, refl, sym, ap, ◌∙◌, List, [], ◌∷◌, ◌++◌, ◌==◌, eq_iff,
  eq_refl, map, inl, inr, Bool-cases, arith, if◌then◌else◌,
}
use metac.Manage.{OwnerReference}
use metac.Claiming.{has_owner, replace_owners, add_owner_reference, remove_owner_reference}

-- All references to an owner, in their order.
abbrev pub refs_to : String → List OwnerReference → List OwnerReference
refs_to uid [] = []
refs_to uid (ref ∷ refs) = if ref.uid == uid then ref ∷ refs_to uid refs else refs_to uid refs

-- As many copies as there were references, and one if there was none.
abbrev pub renewed : OwnerReference → List OwnerReference → List OwnerReference
renewed add [] = add ∷ []
renewed add (ref ∷ refs) = map (λ (r : OwnerReference). add) (ref ∷ refs)

other_owner : (a b c : String) → (a == b) ≡ true → (b == c) ≡ false → (a == c) ≡ false
other_owner a b c same ne = ap (λ (u : String). u == c) ((eq_iff a b).0 same) ∙ ne

refs_to-replace :
    (uid : String) (add : OwnerReference) (refs : List OwnerReference)
    → (add.uid == uid) ≡ false
    → refs_to uid (replace_owners add refs) ≡ refs_to uid refs
refs_to-replace uid add [] ne = refl
refs_to-replace uid add (ref ∷ refs) ne = elim (Bool-cases (ref.uid == add.uid)) [
  | inl same ↦
      rw (same, ne, other_owner ref.uid add.uid uid same ne) (refs_to-replace uid add refs ne)
  | inr different ↦ elim (Bool-cases (ref.uid == uid)) [
    | inl here ↦ rw (different, here) (ap (◌∷◌ ref) (refs_to-replace uid add refs ne))
    | inr there ↦ rw (different, there) (refs_to-replace uid add refs ne)
  ]
]

refs_to-replace_self :
    (add : OwnerReference) (refs : List OwnerReference)
    → refs_to add.uid (replace_owners add refs)
      ≡ map (λ (r : OwnerReference). add) (refs_to add.uid refs)
refs_to-replace_self add [] = refl
refs_to-replace_self add (ref ∷ refs) = elim (Bool-cases (ref.uid == add.uid)) [
  | inl same ↦ rw (same, eq_refl add.uid) (ap (◌∷◌ add) (refs_to-replace_self add refs))
  | inr different ↦ rw (different, different) (refs_to-replace_self add refs)
]

refs_to-append :
    (uid : String) (refs : List OwnerReference) (add : OwnerReference)
    → refs_to uid (refs ++ add ∷ [])
      ≡ (if add.uid == uid then refs_to uid refs ++ add ∷ [] else refs_to uid refs)
refs_to-append uid [] add = refl
refs_to-append uid (ref ∷ refs) add = elim (Bool-cases (ref.uid == uid)) [
  | inl here ↦ rw (here, refs_to-append uid refs add) (pulled (add.uid == uid))
  | inr there ↦ rw there (refs_to-append uid refs add)
]
  where
    pulled :
        (b : Bool)
        → ref ∷ (if b then refs_to uid refs ++ add ∷ [] else refs_to uid refs)
          ≡ (if b then ref ∷ refs_to uid refs ++ add ∷ [] else ref ∷ refs_to uid refs)
    pulled true = refl
    pulled false = refl

refs_to-none :
    (uid : String) (refs : List OwnerReference) → has_owner uid refs ≡ false → refs_to uid refs ≡ []
refs_to-none uid [] h = refl
refs_to-none uid (ref ∷ refs) h =
    let first : (ref.uid == uid) ≡ false = ground arith in
    rw first (refs_to-none uid refs (ground arith))

renewed-some :
    (add : OwnerReference) (refs : List OwnerReference)
    → has_owner add.uid refs ≡ true
    → renewed add (refs_to add.uid refs) ≡ map (λ (r : OwnerReference). add) (refs_to add.uid refs)
renewed-some add [] h = cc
renewed-some add (ref ∷ refs) h = elim (Bool-cases (ref.uid == add.uid)) [
  | inl here ↦ rw here refl
  | inr there ↦ rw there (renewed-some add refs (ground (arith, there)))
]

refs_to-add :
    (uid : String) (add : OwnerReference) (refs : List OwnerReference)
    → refs_to uid (add_owner_reference refs add)
      ≡ (if add.uid == uid then renewed add (refs_to uid refs) else refs_to uid refs)
unfolding add_owner_reference
refs_to-add uid add refs = elim (Bool-cases (add.uid == uid)) [
  | inr there ↦ elim (Bool-cases (has_owner add.uid refs)) [
    | inl old ↦ rw (there, old) (refs_to-replace uid add refs there)
    | inr new ↦
        rw (there, new)
          (refs_to-append uid (replace_owners add refs) add
            ∙ rw there (refs_to-replace uid add refs there))
  ]
  | inl here ↦ rw (here, ← (eq_iff add.uid uid).0 here) (own (Bool-cases (has_owner add.uid refs)))
]
  where
    own :
        (has_owner add.uid refs ≡ true) ⊎ (has_owner add.uid refs ≡ false)
        → refs_to add.uid (add_owner_reference refs add) ≡ renewed add (refs_to add.uid refs)
    own (inl old) = rw old (refs_to-replace_self add refs ∙ sym (renewed-some add refs old))
    own (inr new) = rw new (
        refs_to-append add.uid (replace_owners add refs) add
        ∙ rw (eq_refl add.uid, refs_to-replace_self add refs, refs_to-none add.uid refs new) refl)

refs_to-remove :
    (uid removed : String) (refs : List OwnerReference)
    → refs_to uid (remove_owner_reference refs removed)
      ≡ (if removed == uid then [] else refs_to uid refs)
unfolding remove_owner_reference
refs_to-remove uid removed [] = elim (Bool-cases (removed == uid)) [
  | inl e ↦ rw e refl
  | inr e ↦ rw e refl
]
refs_to-remove uid removed (ref ∷ refs) = elim (Bool-cases (ref.uid == removed)) [
  | inl cut ↦ elim (Bool-cases (removed == uid)) [
    | inl here ↦ rw (cut, here) (refs_to-remove uid removed refs ∙ rw here refl)
    | inr there ↦
        rw (cut, there, other_owner ref.uid removed uid cut there)
          (refs_to-remove uid removed refs ∙ rw there refl)
  ]
  | inr kept ↦ elim (Bool-cases (removed == uid)) [
    | inl here ↦
        let other : (ref.uid == uid) ≡ false =
          ap (λ (u : String). ref.uid == u) (sym ((eq_iff removed uid).0 here)) ∙ kept in
        rw (kept, here, other) (refs_to-remove uid removed refs ∙ rw here refl)
    | inr there ↦ elim (Bool-cases (ref.uid == uid)) [
      | inl found ↦
          rw (kept, there, found) (ap (◌∷◌ ref) (refs_to-remove uid removed refs ∙ rw there refl))
      | inr next ↦ rw (kept, there, next) (refs_to-remove uid removed refs ∙ rw there refl)
    ]
  ]
]

replace_owners-map :
    (add : OwnerReference) (refs : List OwnerReference)
    → replace_owners add refs
      ≡ map (λ (ref : OwnerReference). if ref.uid == add.uid then add else ref) refs
replace_owners-map add [] = refl
replace_owners-map add (ref ∷ refs) =
    ap (◌∷◌ (if ref.uid == add.uid then add else ref)) (replace_owners-map add refs)

-- An adopted object has its new owner's reference at each place where it had a reference to that owner, and
-- once, at the end, if it had none; a released one has no reference to the owner. The references to every
-- other owner stay, an adoption keeps their places and a release their order.
pub owner_references_lem :
    (refs : List OwnerReference) (add : OwnerReference) (removed uid : String)
    → (more : List OwnerReference) × (add_owner_reference refs add
        ≡ map (λ (ref : OwnerReference). if ref.uid == add.uid then add else ref) refs ++ more)
      × (refs_to uid (add_owner_reference refs add)
          ≡ (if add.uid == uid then renewed add (refs_to uid refs) else refs_to uid refs))
      × (refs_to uid (remove_owner_reference refs removed)
          ≡ (if removed == uid then [] else refs_to uid refs))
unfolding add_owner_reference
owner_references_lem refs add removed uid =
    let (more, same) = places in
    (more, same, refs_to-add uid add refs, refs_to-remove uid removed refs)
  where
    places :
        (more : List OwnerReference) × (add_owner_reference refs add
          ≡ map (λ (ref : OwnerReference). if ref.uid == add.uid then add else ref) refs ++ more)
    places = elim (Bool-cases (has_owner add.uid refs)) [
      | inl old ↦ ([], rw old (replace_owners-map add refs ∙ sym (append-nil _)))
      | inr new ↦ (
        add ∷ [],
        rw new (ap (λ (xs : List OwnerReference). xs ++ add ∷ []) (replace_owners-map add refs)),
      )
    ]

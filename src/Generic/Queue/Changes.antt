-- ===== src/Generic/Queue/Changes.antt =====
-- What the updates of a hook make of a map, and when a change is reported.
use metac.Prelude.{
  ◌⊎◌, String, Bool, true, false, ◌≡◌, ◌≢◌, refl, sym, ap, ◌∙◌, Option, none, some, [], ◌∷◌, Dict,
  lookup, has, Distinct, ◌==◌, eq_iff, eq_refl, lookup-insert, lookup-remove, has-is_some,
  if◌then◌else◌, inl, inr, Bool-cases, Option-cases, arith,
}
use metac.Generic.Queue.{update_one, update_all, update_string_map}

-- The value of a key after an update of it, by its value before.
abbrev pub updated : Option (Option String) → Option String → Option String
updated none old = old
updated (some wanted) old = wanted

lookup-update_one :
    (k key : String) (v : Option String) (dest : Dict String) (changed : Bool)
    → lookup key (update_one k v (dest, changed)).0 ≡ (if k == key then v else lookup key dest)
lookup-update_one k key none dest changed =
    ground (arith, lookup-remove k key dest, has-is_some k dest, eq_iff k key)
lookup-update_one k key (some v) dest changed = elim (Option-cases (lookup k dest)) [
  | inl e ↦ rw (e, update_one) (lookup-insert k key v dest)
  | inr (old, e) ↦ elim (Bool-cases (old == v)) [
    | inl same ↦
        rw (e, update_one, same)
          (elim (Bool-cases (k == key)) [
            | inl here ↦
                rw here (rw (← (eq_iff k key).0 here) (rw e (ap some ((eq_iff old v).0 same))))
            | inr there ↦ rw there refl
          ])
    | inr other ↦ rw (e, update_one, other) (lookup-insert k key v dest)
  ]
]

-- An update that reports no change makes none, and one that reports it changes its key.
update_one-same :
    (k : String) (v : Option String) (dest : Dict String) (changed : Bool)
    → (update_one k v (dest, changed) ≡ (dest, changed))
      ⊎ (((update_one k v (dest, changed)).1 ≡ true) × (lookup k dest ≢ v))
update_one-same k none dest changed = elim (Bool-cases (has k dest)) [
  | inl here ↦ inr (rw here refl, λ e. cc (sym (rw e at (has-is_some k dest)) ∙ here))
  | inr absent ↦ inl (rw absent refl)
]
update_one-same k (some v) dest changed = elim (Option-cases (lookup k dest)) [
  | inl e ↦ inr (rw (e, update_one) refl, λ q. cc (sym e ∙ q))
  | inr (old, e) ↦ elim (Bool-cases (old == v)) [
    | inl same ↦ inl (rw (e, update_one, same) refl)
    | inr other ↦ inr (
      rw (e, update_one, other) refl,
      λ q. let p : old ≡ v = cc (sym e ∙ q) in cc (sym other ∙ (eq_iff old v).1 p),
    )
  ]
]

update_all-true :
    (updates : Dict (Option String)) (dest : Dict String)
    → (update_all updates (dest, true)).1 ≡ true
unfolding update_all
update_all-true [] dest = refl
update_all-true ((k, v) ∷ updates) dest = elim (update_one-same k v dest true) [
  | inl e ↦ ap (λ r. (update_all updates r).1) e ∙ update_all-true updates dest
  | inr (e, ne) ↦
      ap (λ (b : Bool). (update_all updates ((update_one k v (dest, true)).0, b)).1) e
      ∙ update_all-true updates (update_one k v (dest, true)).0
]

lookup_first : {A : Type 0} (k : String) (v : A) (m : Dict A) → lookup k ((k, v) ∷ m) ≡ some v
unfolding lookup
lookup_first k v m = rw (eq_refl k) refl

lookup-update_all :
    (updates : Dict (Option String)) (dest : Dict String) (changed : Bool) (key : String)
    → Distinct updates
    → lookup key (update_all updates (dest, changed)).0
      ≡ updated (lookup key updates) (lookup key dest)
unfolding update_all lookup
lookup-update_all [] dest changed key d = refl
lookup-update_all ((k, v) ∷ updates) dest changed key d =
    let next = update_one k v (dest, changed) in
    lookup-update_all updates next.0 next.1 key d.1 ∙ elim (Bool-cases (k == key)) [
      | inl here ↦
          let q : k ≡ key = (eq_iff k key).0 here in
          rw (here, ← q, absent k updates d.0)
            (lookup-update_one k k v dest changed ∙ rw (eq_refl k) refl)
      | inr there ↦ rw there (
          ap (updated (lookup key updates))
            (lookup-update_one k key v dest changed ∙ rw there refl))
    ]
  where
    absent : (k : String) (m : Dict (Option String)) → has k m ≡ false → lookup k m ≡ none
    absent k m h = ground (arith, has-is_some k m)

update_all-false :
    (updates : Dict (Option String)) (dest : Dict String)
    → (update_all updates (dest, false)).1 ≡ false
    → (update_all updates (dest, false)).0 ≡ dest
unfolding update_all
update_all-false [] dest h = refl
update_all-false ((k, v) ∷ updates) dest h = elim (update_one-same k v dest false) [
  | inl e ↦
      ap (λ r. (update_all updates r).0) e
      ∙ update_all-false updates dest (sym (ap (λ r. (update_all updates r).1) e) ∙ h)
  | inr (e, ne) ↦
      let changed =
        ap (λ (b : Bool). (update_all updates ((update_one k v (dest, false)).0, b)).1) e
        ∙ update_all-true updates (update_one k v (dest, false)).0 in
      absurd (cc (sym h ∙ changed))
]

update_all-differs :
    (updates : Dict (Option String)) (dest : Dict String)
    → Distinct updates
    → (update_all updates (dest, false)).1 ≡ true
    → (key : String) × (lookup key (update_all updates (dest, false)).0 ≢ lookup key dest)
unfolding update_all
update_all-differs [] dest d h = absurd (cc h)
update_all-differs ((k, v) ∷ updates) dest d h = elim (update_one-same k v dest false) [
  | inl e ↦
      let rest =
        update_all-differs updates dest d.1 (sym (ap (λ r. (update_all updates r).1) e) ∙ h) in
      (rest.0, λ q. rest.1 (sym (ap (λ r. lookup rest.0 (update_all updates r).0) e) ∙ q))
  | inr (e, ne) ↦ (
    k,
    λ q. ne (sym q ∙ lookup-update_all ((k, v) ∷ updates) dest false k d ∙ first k v updates dest),
  )
]
  where
    first :
        (k : String) (v : Option String) (updates : Dict (Option String)) (dest : Dict String)
        → updated (lookup k ((k, v) ∷ updates)) (lookup k dest) ≡ v
    first k v updates dest = rw (lookup_first k v updates) refl

-- Let no key be updated twice. Then the updated keys have their new values, where none deletes a key,
-- and the others keep theirs; and either no change is reported and the map is as it was, or one is reported
-- and some key has another value.
pub update_string_map_lem :
    (dest : Dict String) (updates : Dict (Option String))
    → Distinct updates
    → ((key : String)
        → lookup key (update_string_map dest updates).0
          ≡ updated (lookup key updates) (lookup key dest))
      × (((update_string_map dest updates).1 ≡ false) × ((update_string_map dest updates).0 ≡ dest)
          ⊎ ((update_string_map dest updates).1 ≡ true)
            × ((key : String) × (lookup key (update_string_map dest updates).0 ≢ lookup key dest)))
unfolding update_string_map
update_string_map_lem dest updates d = (
  λ key. lookup-update_all updates dest false key d,
  elim (Bool-cases (update_all updates (dest, false)).1) [
    | inl e ↦ inr (e, update_all-differs updates dest d e)
    | inr e ↦ inl (e, update_all-false updates dest e)
  ],
)

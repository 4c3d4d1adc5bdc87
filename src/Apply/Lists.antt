-- ===== src/Apply/Lists.antt =====
-- The lists that a merge of lists of maps takes from the merged map.
use mathlib.Core.List.{append-nil, append_assoc}
use metac.Prelude.{
  String, true, false, ◌&&◌, ◌||◌, ◌≡◌, refl, sym, ap, ◌∙◌, Option, none, some, List, [], ◌∷◌, ◌++◌,
  Memᴰ, Dict, Distinct, lookup, has, insert, contains, inl, inr, arith, ◌==◌, eq_refl, Bool-cases,
  if◌then◌else◌, eq_iff, has-is_some, has-insert, Option-cases, insert-Distinct, Memᴰ-cons_cases,
}
use mathlib.Core.Path.{subst}
use metac.Prelude.Results.{ok, >>=-eq-ok, ok-injective}
use metac.Value.{Value, or_null}
use metac.Apply.{item_key, add_items, take_observed, take_desired}

-- The items have these merge keys, in order.
pub data Keyed (key : String) : List Value → List String → Type 0 where
  nil : Keyed key [] []
  cons :
      {item : Value} {items : List Value} {t : String} {ts : List String}
      → item_key key item ≡ ok t
      → Keyed key items ts
      → Keyed key (item ∷ items) (t ∷ ts)

pub add_items-Keyed :
    (key : String) (items : List Value) (res : Dict Value) {m : Dict Value}
    → add_items key items res ≡ ok m
    → (ts : List String) × Keyed key items ts
      × ((t : String) → has t m ≡ (contains t ts || has t res))
      × (Distinct res → Distinct m)
unfolding add_items contains
add_items-Keyed key [] res e = ([], nil, λ t. ground arith, λ d. subst Distinct (ok-injective e) d)
add_items-Keyed key (item ∷ items) res {m = m} e =
    let (k, p, q) =
      >>=-eq-ok (item_key key item) (λ k. add_items key items (insert k item res)) e in
    let (ts, keyed, member, distinct) = add_items-Keyed key items (insert k item res) {m = m} q in
    (
      k ∷ ts,
      cons p keyed,
      λ t. ground (arith, member t, has-insert k t item res),
      λ d. distinct (insert-Distinct k item res d),
    )

-- The observed items that are left, and the desired items that are new.
abbrev keep : Option Value → List Value → List Value
keep none rest = rest
keep (some v) rest = v ∷ rest

pub kept : Dict Value → List String → List Value
kept merged [] = []
kept merged (t ∷ ts) = keep (lookup t merged) (kept merged ts)

pub fresh : Dict Value → List String → List String → List Value
fresh merged added [] = []
fresh merged added (t ∷ ts) =
    let old = fresh merged added ts in
    let new = or_null (lookup t merged) ∷ fresh merged (t ∷ added) ts in
    if contains t added then old else new

pub take_observed-kept :
    (key : String) (merged : Dict Value) {items : List Value} {ts : List String}
    → Keyed key items ts
    → (out : List Value) (added : List String)
    → (ks : List String) × (take_observed key merged items (out, added)
        ≡ ok (out ++ kept merged ts, ks))
      × ((t : String) → contains t ks ≡ (contains t added || (contains t ts && has t merged)))
unfolding take_observed kept contains
take_observed-kept key merged nil out added = (added, rw (append-nil out), λ t. ground arith)
take_observed-kept key merged (cons {t = t} {ts = ts} p keyed) out added =
    elim (Option-cases (lookup t merged)) [
      | inl e ↦
          let (ks, q, member) = take_observed-kept key merged keyed out added in
          (ks, rw (p, e, q), λ s. ground (arith, member s, eq_iff t s, has-is_some s merged))
      | inr (v, e) ↦
          let (ks, q, member) = take_observed-kept key merged keyed (out ++ v ∷ []) (t ∷ added) in
          (
            ks,
            rw (p, e, q, append_assoc out (v ∷ []) (kept merged ts)),
            λ s. ground (arith, member s, eq_iff t s, has-is_some s merged),
          )
    ]

pub take_desired-fresh :
    (key : String) (merged : Dict Value) {items : List Value} {ts : List String}
    → Keyed key items ts
    → (out : List Value) (added : List String)
    → (ks : List String) × (take_desired key merged items (out, added)
        ≡ ok (out ++ fresh merged added ts, ks))
unfolding take_desired fresh
take_desired-fresh key merged nil out added = (added, rw (append-nil out))
take_desired-fresh key merged (cons {t = t} {ts = ts} p keyed) out added =
    elim (Bool-cases (contains t added)) [
      | inl e ↦ let (ks, q) = take_desired-fresh key merged keyed out added in (ks, rw (p, e, q))
      | inr e ↦
          let v = or_null (lookup t merged) in
          let (ks, q) = take_desired-fresh key merged keyed (out ++ v ∷ []) (t ∷ added) in
          (ks, rw (p, e, q, append_assoc out (v ∷ []) (fresh merged (t ∷ added) ts)))
    ]

pub Memᴰ-kept :
    (merged : Dict Value) (t : String) (ts : List String) {v : Value}
    → contains t ts ≡ true
    → lookup t merged ≡ some v
    → Memᴰ v (kept merged ts)
unfolding kept contains
Memᴰ-kept merged t [] c e = absurd (cc)
Memᴰ-kept merged t (s ∷ ts) {v = v} c e = elim (Bool-cases (s == t)) [
  | inl same ↦ rw ((eq_iff s t).0 same, e) (Memᴰ.head refl)
  | inr other ↦ keep-Memᴰ (lookup s merged) (Memᴰ-kept merged t ts (rw other at c) e)
]
  where
    keep-Memᴰ : (o : Option Value) {r : List Value} → Memᴰ v r → Memᴰ v (keep o r)
    keep-Memᴰ none m = m
    keep-Memᴰ (some w) m = Memᴰ.tail m

pub kept-Memᴰ :
    (merged : Dict Value) (ts : List String) {v : Value}
    → Memᴰ v (kept merged ts)
    → (t : String) × (lookup t merged ≡ some v)
unfolding kept
kept-Memᴰ merged [] m = elim m [ ]
kept-Memᴰ merged (t ∷ ts) {v = v} m =
    keep-cases (lookup t merged) refl m (λ r. kept-Memᴰ merged ts r)
  where
    keep-cases :
        (o : Option Value)
        → lookup t merged ≡ o
        → Memᴰ v (keep o (kept merged ts))
        → (Memᴰ v (kept merged ts) → (t : String) × (lookup t merged ≡ some v))
        → (t : String) × (lookup t merged ≡ some v)
    keep-cases none e r rest = rest r
    keep-cases (some w) e (Memᴰ.head same) rest = (t, e ∙ ap some (sym same))
    keep-cases (some w) e (Memᴰ.tail r) rest = rest r

pub Memᴰ-fresh :
    (merged : Dict Value) (t : String) (added ts : List String)
    → contains t ts ≡ true
    → contains t added ≡ false
    → Memᴰ (or_null (lookup t merged)) (fresh merged added ts)
unfolding fresh contains
Memᴰ-fresh merged t added [] c a = absurd (cc)
Memᴰ-fresh merged t added (s ∷ ts) c a = elim (Bool-cases (s == t)) [
  | inl same ↦ let st : s ≡ t = (eq_iff s t).0 same in rw (st, a) (Memᴰ.head refl)
  | inr other ↦ elim (Bool-cases (contains s added)) [
    | inl old ↦ rw old (Memᴰ-fresh merged t added ts (rw other at c) a)
    | inr new ↦
        rw new
          (Memᴰ.tail (Memᴰ-fresh merged t (s ∷ added) ts (rw other at c) (rw (other, contains) a)))
  ]
]

pub fresh-Memᴰ :
    (merged : Dict Value) (added ts : List String) {v : Value}
    → Memᴰ v (fresh merged added ts)
    → (t : String) × (contains t ts ≡ true) × (v ≡ or_null (lookup t merged))
unfolding fresh contains
fresh-Memᴰ merged added [] m = elim m [ ]
fresh-Memᴰ merged added (s ∷ ts) {v = v} m = elim (Bool-cases (contains s added)) [
  | inl old ↦
      let (t, c, e) = fresh-Memᴰ merged added ts {v = v} (rw (old, fresh) at m) in
      (t, ground arith, e)
  | inr new ↦ elim (Memᴰ-cons_cases (rw (new, fresh) at m)) [
    | inl e ↦ (s, rw (eq_refl s), e)
    | inr r ↦ let (t, c, e) = fresh-Memᴰ merged (s ∷ added) ts {v = v} r in (t, ground arith, e)
  ]
]

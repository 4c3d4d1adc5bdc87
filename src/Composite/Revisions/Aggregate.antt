-- ===== src/Composite/Revisions/Aggregate.antt =====
-- The delay and the finalization in the aggregate of the answers of all revisions.
use mathlib.Core.Path.{subst}
use metac.Prelude.{
  sym, ap, ℕ, ◌≤◌, ◌<◌, Bool, true, false, ◌&&◌, ◌||◌, ◌≡◌, refl, ◌⊎◌, List, [], ◌∷◌, All, nat_eq,
  ltb, inl, inr, Bool-cases, arith, if◌then◌else◌,
}
use metac.Composite.{SyncHookResponse}
use metac.Composite.Revisions.{aggregate_resync, aggregate_finalized}

-- Not later than the response asks for, if it asks.
abbrev pub InTime : ℕ → SyncHookResponse → Type 0
InTime n r = (r.resync_after_seconds ≡ 0) ⊎ ((n ≤ r.resync_after_seconds) × (0 < n))

abbrev pub asks_for : ℕ → List SyncHookResponse → Bool
asks_for n [] = false
asks_for n (r ∷ results) = nat_eq r.resync_after_seconds n || asks_for n results

abbrev pub all_finalized : List SyncHookResponse → Bool
all_finalized [] = true
all_finalized (r ∷ results) = r.finalized && all_finalized results

-- The accumulator is one of the numbers from before, or 0.
abbrev Best : ℕ → List SyncHookResponse → ℕ → Type 0
Best acc results n =
    ((n ≡ acc) ⊎ (asks_for n results ≡ true))
    × ((acc ≡ 0) ⊎ ((n ≤ acc) × (0 < n)))
    × All (InTime n) results

abbrev takes : ℕ → SyncHookResponse → Bool
takes acc r = ltb 0 r.resync_after_seconds && (nat_eq acc 0 || ltb r.resync_after_seconds acc)

-- The response is taken.
Best-take :
    (acc n : ℕ) (r : SyncHookResponse) (results : List SyncHookResponse)
    → takes acc r ≡ true
    → Best r.resync_after_seconds results n
    → Best acc (r ∷ results) n
Best-take acc n r results t (a, b, c) = elim b [
  | inl zero_ ↦ absurd (ground (arith, zero_, t))
  | inr (le, positive) ↦ (
    inr (elim a [ inl same ↦ ground (arith, same) | inr later ↦ ground (arith, later) ]),
    elim (Bool-cases (nat_eq acc 0)) [
      | inl none_ ↦ inl (ground (arith, none_))
      | inr some_ ↦
          let less : r.resync_after_seconds < acc = ground (arith, some_, t) in
          inr (omega arith, positive)
    ],
    (inr (le, positive), c),
  )
]

Best-keep :
    (acc n : ℕ) (r : SyncHookResponse) (results : List SyncHookResponse)
    → takes acc r ≡ false
    → Best acc results n
    → Best acc (r ∷ results) n
Best-keep acc n r results t (a, b, c) = (
  elim a [ inl same ↦ inl same | inr later ↦ inr (ground (arith, later)) ],
  b,
  (
    elim (Bool-cases (ltb 0 r.resync_after_seconds)) [
      | inr none_ ↦ inl (ground (arith, none_))
      | inl asks ↦ elim b [
        | inl zero_ ↦ absurd (ground (arith, zero_, t, asks))
        | inr (le, positive) ↦
            let more : acc ≤ r.resync_after_seconds = ground (arith, t, asks) in
            inr (omega arith, positive)
      ]
    ],
    c,
  ),
)

aggregate_resync-Best :
    (acc : ℕ) (results : List SyncHookResponse) → Best acc results (aggregate_resync acc results)
unfolding aggregate_resync
aggregate_resync-Best acc [] = (
  inl refl,
  elim (Bool-cases (nat_eq acc 0)) [
    | inl none_ ↦ inl (ground (arith, none_))
    | inr some_ ↦ inr (omega arith, ground (arith, some_))
  ],
  tt,
)
aggregate_resync-Best acc (r ∷ results) = elim (Bool-cases (takes acc r)) [
  | inl y ↦
      subst (λ (n : ℕ). Best acc (r ∷ results) n) (sym (next acc r results true y))
        (Best-take acc _ r results y (aggregate_resync-Best r.resync_after_seconds results))
  | inr n ↦
      subst (λ (n : ℕ). Best acc (r ∷ results) n) (sym (next acc r results false n))
        (Best-keep acc _ r results n (aggregate_resync-Best acc results))
]
  where
    next :
        (acc : ℕ) (r : SyncHookResponse) (results : List SyncHookResponse) (b : Bool)
        → takes acc r ≡ b
        → aggregate_resync (if takes acc r then r.resync_after_seconds else acc) results
          ≡ aggregate_resync (if b then r.resync_after_seconds else acc) results
    next acc r results b e =
        ap (λ (t : Bool). aggregate_resync (if t then r.resync_after_seconds else acc) results) e

aggregate_finalized-all :
    (results : List SyncHookResponse) → aggregate_finalized results ≡ all_finalized results
unfolding aggregate_finalized
aggregate_finalized-all [] = refl
aggregate_finalized-all (r ∷ results) = elim (Bool-cases r.finalized) [
  | inl y ↦ rw y (aggregate_finalized-all results)
  | inr n ↦ rw n refl
]

-- Of all answers, the delay of the aggregate is the least positive one that a revision asks for, and it is 0
-- only if no revision asks for one; and the aggregate is finalized exactly if all revisions say so.
pub aggregate_lem :
    (results : List SyncHookResponse)
    → ((aggregate_resync 0 results ≡ 0) ⊎ (asks_for (aggregate_resync 0 results) results ≡ true))
      × All (InTime (aggregate_resync 0 results)) results
      × (aggregate_finalized results ≡ all_finalized results)
aggregate_lem results =
    let (a, b, c) = aggregate_resync-Best 0 results in (a, c, aggregate_finalized-all results)

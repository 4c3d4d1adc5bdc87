-- ===== src/Informer/Starting.antt =====
-- dynamic/informer/factory.go: the first subscription to a key, which starts a new informer.
use metac.Prelude.{
  Dict, ◌⊎◌, ℕ, ◌+◌, ◌<◌, String, Bool, true, false, ◌≡◌, refl, sym, ap, ◌∙◌, none, some, List, ◌∷◌,
  lookup, insert, lookup-insert, ltb, ◌==◌, eq_iff, eq_refl, arith, inl, inr, Bool-cases, is_some,
  if◌then◌else◌,
}
use metac.Informer.{Factory, ResourceInformer, count_or_zero, has_stopped}
use metac.Informer.Counting.{count_key, one_if, All-other_keys}
use metac.Informer.Sharing.{informer_of, Tracks, Refers}

-- No subscription is open to a key that has no informer.
none_open :
    (f : Factory) (open_ : List ResourceInformer) (key : String)
    → Tracks f open_
    → informer_of key f ≡ none
    → count_key key open_ ≡ 0
none_open f open_ key t h =
    let e : false ≡ ltb 0 (count_key key open_) = sym (ap is_some h) ∙ t.shared key in ground arith

has_stopped-created :
    (f : Factory) (open_ : List ResourceInformer)
    → Tracks f open_
    → has_stopped f.created f.stopped ≡ false
has_stopped-created f open_ t = elim (Bool-cases (has_stopped f.created f.stopped)) [
  | inl y ↦ absurd (omega (arith, t.made_stopped f.created y))
  | inr n ↦ n
]

module _ (f : Factory) (open_ : List ResourceInformer) (key : String) (t : Tracks f open_)
    (h : informer_of key f ≡ none) where
  abbrev started : Dict ℕ
  started = insert key f.created f.shared_informers

  lookup-started :
      (b : Bool) (other : String)
      → (key == other) ≡ b
      → lookup other started ≡ (if b then some f.created else informer_of other f)
  lookup-started b other e = rw lookup-insert (rw e refl)

  -- What runs under a key is the new informer, or ran before.
  started_cases :
      (other : String) (n : ℕ)
      → lookup other started ≡ some n
      → ((key ≡ other) × (n ≡ f.created)) ⊎ (informer_of other f ≡ some n)
  started_cases other n e = elim (Bool-cases (key == other)) [
    | inl same ↦ inl ((eq_iff key other).0 same, cc (sym (lookup-started true other same) ∙ e))
    | inr different ↦ inr (sym (lookup-started false other different) ∙ e)
  ]

  started-running :
      (other : String) (n : ℕ) → lookup other started ≡ some n → has_stopped n f.stopped ≡ false
  started-running other n e = elim (started_cases other n e) [
    | inl (_, q) ↦ rw q (has_stopped-created f open_ t)
    | inr before ↦ t.running other n before
  ]

  started-made : (other : String) (n : ℕ) → lookup other started ≡ some n → n < f.created + 1
  started-made other n e = elim (started_cases other n e) [
    | inl (_, q) ↦ omega arith
    | inr before ↦ omega (arith, t.made other n before)
  ]

  started-apart :
      (k j : String) (n : ℕ) → lookup k started ≡ some n → lookup j started ≡ some n → k ≡ j
  started-apart k j n p q = elim (started_cases k n p) [
    | inl (here, a) ↦ elim (started_cases j n q) [
      | inl (too, b) ↦ sym here ∙ too
      | inr before ↦ absurd (omega (arith, t.made j n before))
    ]
    | inr before ↦ elim (started_cases j n q) [
      | inl (too, b) ↦ absurd (omega (arith, t.made k n before))
      | inr also ↦ t.apart k j n before also
    ]
  ]

  started-kept :
      (r : ResourceInformer)
      → (r.key == key) ≡ false
      → informer_of r.key f ≡ some r.informer
      → lookup r.key started ≡ some r.informer
  started-kept r ne e =
      lookup-started false r.key (ground (arith, eq_iff r.key key, eq_iff key r.key)) ∙ e

  started-counted :
      (other : String)
      → count_or_zero (lookup other (insert key 1 f.ref_count))
        ≡ one_if (key == other) + count_key other open_
  started-counted other = elim (Bool-cases (key == other)) [
    | inl same ↦
        let e : key ≡ other = (eq_iff key other).0 same in
        rw (lookup-insert, same)
          (omega (arith, none_open f open_ key t h, ap (λ k. count_key k open_) e))
    | inr different ↦ rw (lookup-insert, different) (omega (arith, t.counted other))
  ]

  started-shared :
      (other : String)
      → is_some (lookup other started) ≡ ltb 0 (one_if (key == other) + count_key other open_)
  started-shared other = elim (Bool-cases (key == other)) [
    | inl same ↦ ap is_some (lookup-started true other same) ∙ rw same (ground arith)
    | inr different ↦
        ap is_some (lookup-started false other different)
        ∙ rw different (t.shared other ∙ ground arith)
  ]

  pub start-Tracks :
      Tracks
        (record f {
          shared_informers = insert key f.created f.shared_informers;
          ref_count = insert key 1 f.ref_count;
          created = f.created + 1;
        })
        (record { key = key; informer = f.created } ∷ open_)
  unfolding count_key
  start-Tracks = record {
    counted = started-counted;
    shared = started-shared;
    same_informer = (
      lookup-started true key (eq_refl key),
      All-other_keys (Refers f) _ key open_ (none_open f open_ key t h) started-kept
          t.same_informer,
    );
    running = started-running;
    made = started-made;
    made_stopped = λ n e. let below = t.made_stopped n e in omega arith;
    apart = started-apart;
  }

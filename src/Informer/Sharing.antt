-- ===== src/Informer/Sharing.antt =====
-- The factory against the list of the subscriptions that are open, which is what its users know of it.
use metac.Prelude.{
  ℕ, ◌+◌, ◌-◌, ◌<◌, String, true, false, ◌≡◌, refl, ap, ◌∙◌, Option, some, List, [], ◌∷◌, lookup,
  insert, lookup-insert, ltb, ◌==◌, eq_iff, elem_at, All, arith, inl, inr, Bool-cases, is_some,
}
use metac.Informer.{
  Factory, ResourceInformer, new_shared_informer_factory, count_or_zero, count_of, has_stopped,
}
use metac.Informer.Counting.{count_key, one_if, remove_at, count_key-remove_at, All-remove_at}

abbrev pub informer_of : String → Factory → Option ℕ
informer_of key f = lookup key f.shared_informers

-- The factory keeps exactly what the open subscriptions need.
pub record Tracks (f : Factory) (open_ : List ResourceInformer) : Type 0 where
  pub counted : (key : String) → count_of key f ≡ count_key key open_
  pub shared : (key : String) → is_some (informer_of key f) ≡ ltb 0 (count_key key open_)
  pub same_informer : All (λ r. informer_of r.key f ≡ some r.informer) open_
  pub running :
      (key : String) (n : ℕ) → informer_of key f ≡ some n → has_stopped n f.stopped ≡ false
  pub made : (key : String) (n : ℕ) → informer_of key f ≡ some n → n < f.created
  pub made_stopped : (n : ℕ) → has_stopped n f.stopped ≡ true → n < f.created
  pub apart :
      (key other : String) (n : ℕ)
      → informer_of key f ≡ some n
      → informer_of other f ≡ some n
      → key ≡ other

pub new-Tracks : Tracks new_shared_informer_factory []
unfolding lookup count_key
new-Tracks = record {
  counted = λ key. refl;
  shared = λ key. refl;
  same_informer = tt;
  running = λ key n h. cc;
  made = λ key n h. cc;
  made_stopped = λ n h. cc;
  apart = λ key other n h k. cc;
}

-- One more subscription to an informer that runs.
pub again-Tracks :
    (f : Factory) (open_ : List ResourceInformer) (key : String) (n : ℕ)
    → Tracks f open_
    → informer_of key f ≡ some n
    → Tracks
        (record f { ref_count = insert key (count_of key f + 1) f.ref_count })
        (record { key = key; informer = n } ∷ open_)
unfolding count_key
again-Tracks f open_ key n t h = record {
  counted = λ other. counts other;
  shared = λ other. there other;
  same_informer = (h, t.same_informer);
  running = t.running;
  made = t.made;
  made_stopped = t.made_stopped;
  apart = t.apart;
}
  where
    counts :
        (other : String)
        → count_or_zero (lookup other (insert key (count_of key f + 1) f.ref_count))
          ≡ one_if (key == other) + count_key other open_
    counts other = elim (Bool-cases (key == other)) [
      | inl same ↦
          let e : key ≡ other = (eq_iff key other).0 same in
          rw (lookup-insert, same) (omega (arith, t.counted key, ap (λ k. count_key k open_) e))
      | inr different ↦ rw (lookup-insert, different) (omega (arith, t.counted other))
    ]

    there :
        (other : String)
        → is_some (informer_of other f) ≡ ltb 0 (one_if (key == other) + count_key other open_)
    there other = elim (Bool-cases (key == other)) [
      | inl same ↦
          let e : key ≡ other = (eq_iff key other).0 same in rw (same, ← e, h) (ground arith)
      | inr different ↦ rw different (t.shared other ∙ ground arith)
    ]

abbrev pub Refers : Factory → ResourceInformer → Type 0
Refers f r = informer_of r.key f ≡ some r.informer

-- One subscription of several is closed.
pub drop-Tracks :
    (f : Factory) (open_ : List ResourceInformer) (n : ℕ) (r : ResourceInformer)
    → Tracks f open_
    → elem_at open_ n ≡ some r
    → ltb 1 (count_of r.key f) ≡ true
    → Tracks
        (record f { ref_count = insert r.key (count_of r.key f - 1) f.ref_count })
        (remove_at open_ n)
drop-Tracks f open_ n r t at_n more = record {
  counted = λ key. counts key;
  shared = λ key. there key;
  same_informer = All-remove_at (Refers f) open_ n t.same_informer;
  running = t.running;
  made = t.made;
  made_stopped = t.made_stopped;
  apart = t.apart;
}
  where
    counts :
        (key : String)
        → count_or_zero (lookup key (insert r.key (count_of r.key f - 1) f.ref_count))
          ≡ count_key key (remove_at open_ n)
    counts key = elim (Bool-cases (r.key == key)) [
      | inl same ↦
          let e : r.key ≡ key = (eq_iff r.key key).0 same in
          let split_ = count_key-remove_at key open_ n at_n in
          rw (lookup-insert, same)
            (ground (arith, t.counted key, split_, ap (λ k. count_of k f) e, same))
      | inr different ↦
          let split_ = count_key-remove_at key open_ n at_n in
          rw (lookup-insert, different) (ground (arith, t.counted key, split_, different))
    ]

    there : (key : String) → is_some (informer_of key f) ≡ ltb 0 (count_key key (remove_at open_ n))
    there key = elim (Bool-cases (r.key == key)) [
      | inl same ↦
          let e : r.key ≡ key = (eq_iff r.key key).0 same in
          let split_ = count_key-remove_at key open_ n at_n in
          t.shared key ∙ ground (arith, t.counted key, split_, ap (λ k. count_of k f) e, same, more)
      | inr different ↦
          let split_ = count_key-remove_at key open_ n at_n in
          t.shared key ∙ ground (arith, split_, different)
    ]

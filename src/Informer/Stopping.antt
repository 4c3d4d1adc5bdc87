-- ===== src/Informer/Stopping.antt =====
-- dynamic/informer/factory.go: the last subscription to a key is closed, and its informer is stopped.
use metac.Prelude.{
  Dict, ◌<◌, ℕ, String, Bool, true, false, ◌≡◌, refl, sym, ap, ◌∙◌, none, some, List, ◌∷◌, lookup,
  remove, lookup-remove, ltb, nat_eq, ◌==◌, eq_iff, eq_refl, elem_at, arith, inl, inr, Bool-cases,
  is_some, if◌then◌else◌,
}
use metac.Informer.{Factory, ResourceInformer, count_or_zero, count_of, has_stopped}
use metac.Informer.Counting.{
  count_key, remove_at, count_key-remove_at, All-get, All-remove_at, All-other_keys,
}
use metac.Informer.Sharing.{Tracks, Refers, informer_of}

module _ (f : Factory) (open_ : List ResourceInformer) (n : ℕ) (r : ResourceInformer)
    (t : Tracks f open_) (at_n : elem_at open_ n ≡ some r)
    (last : ltb 1 (count_of r.key f) ≡ false) where
  abbrev left : Dict ℕ
  left = remove r.key f.shared_informers

  refers_to : informer_of r.key f ≡ some r.informer
  refers_to = All-get (Refers f) open_ n t.same_informer at_n

  none_left : count_key r.key (remove_at open_ n) ≡ 0
  none_left =
      let split_ = count_key-remove_at r.key open_ n at_n in
      ground (arith, t.counted r.key, split_, eq_refl r.key)

  lookup-left :
      (b : Bool) (key : String)
      → (r.key == key) ≡ b
      → lookup key left ≡ (if b then none else informer_of key f)
  lookup-left b key e = rw lookup-remove (rw e refl)

  -- What is still there has another key, and was there before.
  left_before :
      (key : String) (m : ℕ)
      → lookup key left ≡ some m
      → ((r.key == key) ≡ false) × (informer_of key f ≡ some m)
  left_before key m e = elim (Bool-cases (r.key == key)) [
    | inl same ↦ cc (sym (lookup-left true key same) ∙ e)
    | inr different ↦ (different, sym (lookup-left false key different) ∙ e)
  ]

  left-running :
      (key : String) (m : ℕ)
      → lookup key left ≡ some m
      → has_stopped m (r.informer ∷ f.stopped) ≡ false
  left-running key m e =
      let (ne, before) = left_before key m e in
      elim (Bool-cases (nat_eq r.informer m)) [
        | inl same ↦
            let q : r.informer ≡ m = ground arith in
            let k : r.key ≡ key = t.apart r.key key m (refers_to ∙ ap some q) before in
            cc (sym ne ∙ (eq_iff r.key key).1 k)
        | inr different ↦ rw different (t.running key m before)
      ]

  left-made_stopped : (m : ℕ) → has_stopped m (r.informer ∷ f.stopped) ≡ true → m < f.created
  left-made_stopped m e = elim (Bool-cases (nat_eq r.informer m)) [
    | inl same ↦
        let q : r.informer ≡ m = ground arith in
        let below = t.made r.key r.informer refers_to in omega arith
    | inr different ↦ t.made_stopped m (ground arith)
  ]

  left-kept :
      (x : ResourceInformer)
      → (x.key == r.key) ≡ false
      → informer_of x.key f ≡ some x.informer
      → lookup x.key left ≡ some x.informer
  left-kept x ne e =
      lookup-left false x.key (ground (arith, eq_iff x.key r.key, eq_iff r.key x.key)) ∙ e

  left-counted :
      (key : String)
      → count_or_zero (lookup key (remove r.key f.ref_count)) ≡ count_key key (remove_at open_ n)
  left-counted key = elim (Bool-cases (r.key == key)) [
    | inl same ↦
        let e : r.key ≡ key = (eq_iff r.key key).0 same in
        rw (lookup-remove, same) (sym none_left ∙ ap (λ k. count_key k (remove_at open_ n)) e)
    | inr different ↦
        let split_ = count_key-remove_at key open_ n at_n in
        rw (lookup-remove, different) (ground (arith, t.counted key, split_, different))
  ]

  left-shared :
      (key : String) → is_some (lookup key left) ≡ ltb 0 (count_key key (remove_at open_ n))
  left-shared key = elim (Bool-cases (r.key == key)) [
    | inl same ↦
        let e : r.key ≡ key = (eq_iff r.key key).0 same in
        ap is_some (lookup-left true key same)
        ∙ ground (arith, none_left, ap (λ k. count_key k (remove_at open_ n)) e)
    | inr different ↦
        let split_ = count_key-remove_at key open_ n at_n in
        ap is_some (lookup-left false key different)
        ∙ t.shared key
        ∙ ground (arith, split_, different)
  ]

  pub stop-Tracks :
      Tracks
        (record f {
          stopped = r.informer ∷ f.stopped;
          ref_count = remove r.key f.ref_count;
          shared_informers = remove r.key f.shared_informers;
        })
        (remove_at open_ n)
  stop-Tracks = record {
    counted = left-counted;
    shared = left-shared;
    same_informer =
        All-other_keys (Refers f) _ r.key (remove_at open_ n) none_left left-kept
          (All-remove_at (Refers f) open_ n t.same_informer);
    running = left-running;
    made = λ key m e. t.made key m (left_before key m e).1;
    made_stopped = left-made_stopped;
    apart = λ k j m p q. t.apart k j m (left_before k m p).1 (left_before j m q).1;
  }

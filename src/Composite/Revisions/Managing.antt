-- ===== src/Composite/Revisions/Managing.antt =====
-- Which calls bring the revisions to what is desired.
use metac.Prelude.{
  String, Bool, true, false, ◌==◌, eq_iff, arith, ◌⊎◌, ◌≡◌, refl, sym, ap, ◌∙◌, Option, none, some,
  List, [], ◌∷◌, ◌++◌, contains, inl, inr, Bool-cases, if◌then◌else◌,
}
use metac.Prelude.Results.{Result, ok, err}
use metac.Prelude.Steps.{continue}
use metac.Api.{Object, Api}
use metac.Manage.{make_owner_ref}
use metac.Composite.Revisions.Same.{Same, same_revision-Same, Same-same_revision}
use metac.Composite.{CompositeError, Sync}
use metac.Composite.Revisions.{
  ControllerRevision, RevisionServer, called, names_of, find_revision, owned, same_revision,
  delete_revisions, write_revision, write_revisions, manage_revisions,
}

-- A call of the server of revisions.
pub data RevisionCall : Type 0 where
  deletes creates updates : ControllerRevision → RevisionCall

-- The observed revisions whose name is not desired.
abbrev pub stale : List ControllerRevision → List ControllerRevision → List RevisionCall
stale desired [] = []
stale desired (r ∷ observed) =
    if contains r.name (names_of desired)
    then stale desired observed
    else deletes r ∷ stale desired observed

-- The last of the revisions with this name.
abbrev pub LastNamed : String → List ControllerRevision → ControllerRevision → Type 0
LastNamed name revisions r =
    (before : List ControllerRevision) × ((after : List ControllerRevision) × (revisions
        ≡ before ++ r ∷ after)
      × (r.name ≡ name)
      × (contains name (names_of after) ≡ false))

-- The calls for the desired revisions, in their order: a revision whose name was not observed is created, one
-- that differs from the last observed one of its name is updated, and one that does not is left.
pub data Wanted (observed : List ControllerRevision)
    : List ControllerRevision → List RevisionCall → Type 0 where
  all_done : Wanted observed [] []
  created :
      {r : ControllerRevision} {desired : List ControllerRevision} {calls : List RevisionCall}
      → contains r.name (names_of observed) ≡ false
      → Wanted observed desired calls
      → Wanted observed (r ∷ desired) (creates r ∷ calls)
  updated :
      {r : ControllerRevision} {desired : List ControllerRevision} {calls : List RevisionCall}
      (old : ControllerRevision)
      → LastNamed r.name observed old
      → ¬ Same old r
      → Wanted observed desired calls
      → Wanted observed (r ∷ desired) (updates r ∷ calls)
  unchanged :
      {r : ControllerRevision} {desired : List ControllerRevision} {calls : List RevisionCall}
      (old : ControllerRevision)
      → LastNamed r.name observed old
      → Same old r
      → Wanted observed desired calls
      → Wanted observed (r ∷ desired) calls

find_revision-cases :
    (name : String) (revisions : List ControllerRevision)
    → ((find_revision name revisions ≡ none) × (contains name (names_of revisions) ≡ false))
      ⊎ ((r : ControllerRevision) × (find_revision name revisions ≡ some r)
          × LastNamed name revisions r)
unfolding find_revision contains
find_revision-cases name [] = inl (refl, refl)
find_revision-cases name (first ∷ revisions) = elim (find_revision-cases name revisions) [
  | inr (r, found, (before, (after, split_, named, absent))) ↦
      inr (r, found_later found, (first ∷ before, (after, ap (◌∷◌ first) split_, named, absent)))
  | inl (missing, absent) ↦ elim (Bool-cases (first.name == name)) [
    | inl here ↦ inr (
      first,
      found_here missing true here,
      ([], (revisions, refl, (eq_iff first.name name).0 here, absent)),
    )
    | inr there ↦ inl (
      found_here missing false there,
      ground (arith, absent, there, eq_iff first.name name, eq_iff name first.name),
    )
  ]
]
  where
    found_later :
        {r : ControllerRevision}
        → find_revision name revisions ≡ some r
        → find_revision name (first ∷ revisions) ≡ some r
    found_later h = rw h refl

    found_here :
        find_revision name revisions ≡ none
        → (b : Bool) → (first.name == name) ≡ b
        → find_revision name (first ∷ revisions) ≡ (if b then some first else none)
    found_here h b e = rw (h, e) refl

-- What the source computes: the call for one desired revision.
abbrev pub wanted_call : Option ControllerRevision → ControllerRevision → List RevisionCall
wanted_call none r = creates r ∷ []
wanted_call (some old) r = if same_revision old r then [] else updates r ∷ []

abbrev pub wanted_calls : List ControllerRevision → List ControllerRevision → List RevisionCall
wanted_calls observed [] = []
wanted_calls observed (r ∷ desired) =
    wanted_call (find_revision r.name observed) r ++ wanted_calls observed desired

wanted_calls-Wanted :
    (observed desired : List ControllerRevision)
    → Wanted observed desired (wanted_calls observed desired)
wanted_calls-Wanted observed [] = all_done
wanted_calls-Wanted observed (r ∷ desired) = elim (find_revision-cases r.name observed) [
  | inl (missing, absent) ↦ rw missing (created absent (wanted_calls-Wanted observed desired))
  | inr (old, found, last) ↦ elim (Bool-cases (same_revision old r)) [
    | inl same ↦
        rw (found, same)
          (unchanged old last (same_revision-Same old r same)
            (wanted_calls-Wanted observed desired))
    | inr different ↦
        rw (found, different)
          (updated old last (λ s. let e = Same-same_revision old r s in cc)
            (wanted_calls-Wanted observed desired))
  ]
]

module _ {S : Type 0} (api : Api) (server : RevisionServer S) (parent : Object) where
  abbrev pub make_call : RevisionCall → Sync S (Unit {0})
  make_call (deletes r) s = called (server.delete r.name r.uid s)
  make_call (creates r) s = called (
      server.create
        (record r { owner_references = r.owner_references ++ make_owner_ref api parent ∷ [] }) s)
  make_call (updates r) s = called (server.update r s)

  -- The calls are made in their order, until one fails.
  abbrev pub make_calls : List RevisionCall → Sync S (Unit {0})
  make_calls [] s = (ok tt, s)
  make_calls (c ∷ cs) s = continue (λ done. make_calls cs) (make_call c s)

  delete_revisions-stale :
      (desired observed : List ControllerRevision) (s : S)
      → delete_revisions api server parent desired observed s
        ≡ make_calls (stale desired observed) s
  unfolding delete_revisions
  delete_revisions-stale desired [] s = refl
  delete_revisions-stale desired (r ∷ observed) s =
      elim (Bool-cases (contains r.name (names_of desired))) [
        | inl y ↦ rw y (delete_revisions-stale desired observed s)
        | inr n ↦
            rw n
              (go (delete_revisions-stale desired observed) (called (server.delete r.name r.uid s)))
      ]
    where
      go :
          ((s : S)
            → delete_revisions api server parent desired observed s
              ≡ make_calls (stale desired observed) s)
          → (result : Result CompositeError (Unit {0}) × S)
          → continue (λ done. delete_revisions api server parent desired observed) result
            ≡ continue (λ done. make_calls (stale desired observed)) result
      go next (ok done, t) = next t
      go next (err e, t) = refl

  write_revisions-wanted :
      (observed desired : List ControllerRevision) (s : S)
      → write_revisions api server parent observed desired s
        ≡ make_calls (wanted_calls observed desired) s
  unfolding write_revisions
  write_revisions-wanted observed [] s = refl
  write_revisions-wanted observed (r ∷ desired) s =
      go (write_revisions-wanted observed desired) (find_revision r.name observed)
    where
      after :
          ((s : S)
            → write_revisions api server parent observed desired s
              ≡ make_calls (wanted_calls observed desired) s)
          → (result : Result CompositeError (Unit {0}) × S)
          → continue (λ done. write_revisions api server parent observed desired) result
            ≡ continue (λ done. make_calls (wanted_calls observed desired)) result
      after next (ok done, t) = next t
      after next (err e, t) = refl

      go :
          ((s : S)
            → write_revisions api server parent observed desired s
              ≡ make_calls (wanted_calls observed desired) s)
          → (old : Option ControllerRevision)
          → continue
              (λ done. write_revisions api server parent observed desired)
              (write_revision api server parent old r s)
            ≡ make_calls (wanted_call old r ++ wanted_calls observed desired) s
      go next none = after next (called (server.create (owned api server parent r) s))
      go next (some old) = elim (Bool-cases (same_revision old r)) [
        | inl y ↦ rw y (next s)
        | inr n ↦ rw n (after next (called (server.update r s)))
      ]

  make_calls-append :
      (cs ds : List RevisionCall) (s : S)
      → make_calls (cs ++ ds) s ≡ continue (λ done. make_calls ds) (make_calls cs s)
  make_calls-append [] ds s = refl
  make_calls-append (c ∷ cs) ds s = go (make_calls-append cs ds) (make_call c s)
    where
      go :
          ((s : S) → make_calls (cs ++ ds) s ≡ continue (λ done. make_calls ds) (make_calls cs s))
          → (result : Result CompositeError (Unit {0}) × S)
          → continue (λ done. make_calls (cs ++ ds)) result
            ≡ continue (λ done. make_calls ds) (continue (λ done. make_calls cs) result)
      go next (ok done, t) = next t
      go next (err e, t) = refl

  manage_revisions-calls :
      (observed desired : List ControllerRevision) (s : S)
      → manage_revisions api server parent observed desired s
        ≡ make_calls (stale desired observed ++ wanted_calls observed desired) s
  unfolding manage_revisions
  manage_revisions-calls observed desired s =
      ap (continue (λ done. write_revisions api server parent observed desired))
        (delete_revisions-stale desired observed s)
      ∙ go (make_calls (stale desired observed) s)
      ∙ sym (make_calls-append (stale desired observed) (wanted_calls observed desired) s)
    where
      go :
          (result : Result CompositeError (Unit {0}) × S)
          → continue (λ done. write_revisions api server parent observed desired) result
            ≡ continue (λ done. make_calls (wanted_calls observed desired)) result
      go (ok done, t) = write_revisions-wanted observed desired t
      go (err e, t) = refl

  -- The revisions are brought to the desired ones by these calls, in this order, until one fails: the observed
  -- revisions whose names are not desired are deleted, and then each desired one is created, with the parent
  -- as an owner, if its name was not observed, and updated if it differs from the last one that was observed
  -- with its name, be it only that one has nil children and the other an empty list of them. A revision that
  -- does not differ is left alone.
  pub manage_revisions_lem :
      (observed desired : List ControllerRevision)
      → (calls : List RevisionCall) × Wanted observed desired calls
        × ((s : S)
            → manage_revisions api server parent observed desired s
              ≡ make_calls (stale desired observed ++ calls) s)
  manage_revisions_lem observed desired = (
    wanted_calls observed desired,
    wanted_calls-Wanted observed desired,
    manage_revisions-calls observed desired,
  )

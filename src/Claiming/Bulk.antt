-- ===== src/Claiming/Bulk.antt =====
-- Which objects of a list are claimed.
use metac.Prelude.{Bool, true, false, ◌≡◌, refl, ◌∙◌, List, [], ◌∷◌, ◌++◌, append_assoc, append-nil}
use metac.Prelude.Results.{Result, ok, err}
use metac.Api.{ApiError}
use metac.Client.{Call}
use metac.Claiming.{Claim, Claims, claim_one, note_claim, claim_all, bulk_claim}

-- What became of each object, in their order.
abbrev pub Outcomes : Type 0 → Type 0
Outcomes X = List (X × Result ApiError Bool)

abbrev pub claimed_of : {X : Type 0} → Outcomes X → List X
claimed_of [] = []
claimed_of ((obj, ok true) ∷ rs) = obj ∷ claimed_of rs
claimed_of ((obj, ok false) ∷ rs) = claimed_of rs
claimed_of ((obj, err e) ∷ rs) = claimed_of rs

abbrev pub errors_of : {X : Type 0} → Outcomes X → List ApiError
errors_of [] = []
errors_of ((obj, ok b) ∷ rs) = errors_of rs
errors_of ((obj, err e) ∷ rs) = e ∷ errors_of rs

module _ {S X : Type 0} (claim : Claim S X) (matches : X → Bool)
    (adopt_it release_it : X → Call S (Unit {0})) where
  abbrev pub record_outcome : X → (S → Outcomes X × S) → Result ApiError Bool × S → Outcomes X × S
  record_outcome obj rest (r, s) = ((obj, r) ∷ (rest s).0, (rest s).1)

  -- The claims of all objects, one after the other, whatever becomes of those before.
  abbrev pub outcomes : List X → S → Outcomes X × S
  outcomes [] s = ([], s)
  outcomes (obj ∷ objs) s =
      record_outcome obj (outcomes objs) (claim_one claim matches adopt_it release_it obj s)

  abbrev after : List X → List ApiError → Outcomes X × S → Claims S X
  after claimed errlist (rs, s) = (claimed ++ claimed_of rs, errlist ++ errors_of rs, s)

  claim_all-after :
      (objs claimed : List X) (errlist : List ApiError) (s : S)
      → claim_all claim matches adopt_it release_it objs (claimed, errlist, s)
        ≡ after claimed errlist (outcomes objs s)
  unfolding claim_all
  claim_all-after [] claimed errlist s = rw (append-nil claimed, append-nil errlist) refl
  claim_all-after (obj ∷ objs) claimed errlist s =
      go (claim_all-after objs) (claim_one claim matches adopt_it release_it obj s)
    where
      go :
          ((claimed : List X) (errlist : List ApiError) (s : S)
            → claim_all claim matches adopt_it release_it objs (claimed, errlist, s)
              ≡ after claimed errlist (outcomes objs s))
          → (r : Result ApiError Bool × S)
          → claim_all claim matches adopt_it release_it objs
              (note_claim claim matches adopt_it release_it obj claimed errlist r)
            ≡ after claimed errlist (record_outcome obj (outcomes objs) r)
      go next (ok true, t) =
          next (claimed ++ obj ∷ []) errlist t
          ∙ rw (append_assoc claimed (obj ∷ []) (claimed_of (outcomes objs t).0)) refl
      go next (ok false, t) = next claimed errlist t
      go next (err e, t) =
          next claimed (errlist ++ e ∷ []) t
          ∙ rw (append_assoc errlist (e ∷ []) (errors_of (outcomes objs t).0)) refl

  -- Each object is claimed once, in the order of the list, and a failure keeps none of the others from it: the
  -- claimed objects are those for which the claim says so, and the errors are those of the claims that failed.
  pub bulk_claim_lem :
      (attachments : List X) (s : S)
      → bulk_claim claim matches adopt_it release_it attachments s ≡ (
        claimed_of (outcomes attachments s).0,
        errors_of (outcomes attachments s).0,
        (outcomes attachments s).1,
      )
  unfolding bulk_claim
  bulk_claim_lem attachments s = claim_all-after attachments [] [] s

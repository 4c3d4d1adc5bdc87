-- ===== src/Claiming.antt =====
-- dynamic/controllerref: the owner references by which an object is adopted and released, and the claims
-- of a list of objects. ClaimManager.Claim, which is a copy of code of Kubernetes, is a parameter.
pub mod References
pub mod Bulk
use metac.Prelude.{
  String, Bool, true, false, ◌||◌, Option, none, some, List, [], ◌∷◌, ◌++◌, ◌==◌, if◌then◌else◌,
}
use metac.Prelude.Results.{Result, ok, err}
use metac.Api.{ApiError, not_found, gone, Object, Api}
use metac.Client.{Call, Server, and_then, atomic_update}
use metac.Manage.{OwnerReference, Owners}

abbrev pub has_owner : String → List OwnerReference → Bool
has_owner uid [] = false
has_owner uid (ref ∷ refs) = ref.uid == uid || has_owner uid refs

-- The loop of addOwnerReference: its flag `found` is has_owner.
abbrev pub replace_owners : OwnerReference → List OwnerReference → List OwnerReference
replace_owners add [] = []
replace_owners add (ref ∷ refs) =
    (if ref.uid == add.uid then add else ref) ∷ replace_owners add refs

unfoldable pub add_owner_reference : List OwnerReference → OwnerReference → List OwnerReference
add_owner_reference refs add =
    if has_owner add.uid refs then replace_owners add refs else replace_owners add refs ++ add ∷ []

unfoldable pub remove_owner_reference : List OwnerReference → String → List OwnerReference
remove_owner_reference [] uid = []
remove_owner_reference (ref ∷ refs) uid =
    let rest = remove_owner_reference refs uid in if ref.uid == uid then rest else ref ∷ rest

abbrev pub done : {S A : Type 0} → Result ApiError A × S → Result ApiError (Unit {0}) × S
done (ok a, s) = (ok tt, s)
done (err e, s) = (err e, s)

-- The claim manager of a watched object. The server is that of a namespace.
pub record UnstructClaimManager (S : Type 0) : Type 0 where
  pub server : String → Server S
  pub can_adopt : Call S (Unit {0})
  pub watched : Object
  pub watched_api_version : String
  pub watched_kind : String

abbrev pub gone_is_fine :
    {S : Type 0} → Result ApiError (Unit {0}) × S → Result ApiError (Unit {0}) × S
gone_is_fine (err not_found, s) = (ok tt, s)
gone_is_fine (err gone, s) = (ok tt, s)
gone_is_fine (r, s) = (r, s)

module _ {S : Type 0} (api : Api) (owners : Owners) (m : UnstructClaimManager S) where
  unfoldable pub controller_ref : OwnerReference
  controller_ref = record {
    api_version = m.watched_api_version;
    kind = m.watched_kind;
    name = api.get_name m.watched;
    uid = api.get_uid m.watched;
    controller = true;
    block_owner_deletion = true;
  }

  abbrev pub adopted : Object → Object
  adopted obj =
      owners.set_owner_references obj
        (add_owner_reference (owners.get_owner_references obj) controller_ref)

  abbrev pub released : Object → Object
  released obj =
      owners.set_owner_references obj
        (remove_owner_reference (owners.get_owner_references obj) (api.get_uid m.watched))

  -- The update function says each time that the object has changed.
  abbrev pub update_owners : Object → (Object → Object) → Call S (Unit {0})
  update_owners obj change s =
      done (atomic_update api (m.server (api.get_namespace obj)) obj (λ live. some (change live)) s)

  unfoldable pub adopt : Object → Call S (Unit {0})
  adopt attachment s = and_then (m.can_adopt s) (λ allowed. update_owners attachment adopted)

  -- That the object is not there any more is no error.
  unfoldable pub release : Object → Call S (Unit {0})
  release attachment s = gone_is_fine (update_owners attachment released s)

-- k8s.ClaimManager.Claim: with the test whether the object matches, and the calls that adopt and release.
abbrev pub Claim : Type 0 → Type 0 → Type 0
Claim S X = X → (X → Bool) → (X → Call S (Unit {0})) → (X → Call S (Unit {0})) → Call S Bool

-- The claimed objects, the errors, and the state.
abbrev pub Claims : Type 0 → Type 0 → Type 0
Claims S X = List X × List ApiError × S

abbrev pub add_claim : {S X : Type 0} → X → Result ApiError Bool → Claims S X → Claims S X
add_claim obj (ok true) (claimed, errlist, s) = (claimed ++ obj ∷ [], errlist, s)
add_claim obj (ok false) (claimed, errlist, s) = (claimed, errlist, s)
add_claim obj (err e) (claimed, errlist, s) = (claimed, errlist ++ e ∷ [], s)

-- BulkClaim is the same for unstructured objects and for revisions.
module _ {S X : Type 0} (claim : Claim S X) (matches : X → Bool)
    (adopt_it release_it : X → Call S (Unit {0})) where
  abbrev pub claim_one : X → Call S Bool
  claim_one attachment s = claim attachment matches adopt_it release_it s

  abbrev pub note_claim : X → List X → List ApiError → Result ApiError Bool × S → Claims S X
  note_claim obj claimed errlist (r, s) = add_claim obj r (claimed, errlist, s)

  unfoldable pub claim_all : List X → Claims S X → Claims S X
  claim_all [] c = c
  claim_all (obj ∷ attachments) (claimed, errlist, s) =
      claim_all attachments (note_claim obj claimed errlist (claim_one obj s))

  unfoldable pub bulk_claim : List X → S → Claims S X
  bulk_claim attachments s = claim_all attachments ([], [], s)

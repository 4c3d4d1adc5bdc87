-- ===== src/Composite/Parent/Reporting.antt =====
-- controller/composite/controller.go: what is written of the status of a parent.
use mathlib.Core.Path.{subst}
use metac.Prelude.{
  Bool, true, false, ◌≡◌, refl, sym, ◌∙◌, ◌⊎◌, Option, none, some, [], lookup, insert, inl, inr,
  Bool-cases, if◌then◌else◌,
}
use metac.Prelude.Results.{ok}
use metac.Value.{Value, int, object}
use metac.Value.Equal.{equal}
use metac.Api.{Object, Api}
use metac.Client.{Call, Server, write_live, atomic_status_update}
use metac.Client.Finalizing.{Ensures, attempt-Ensures, write_live_inv}
use metac.Api.{Json, Nested}
use metac.Manage.{Owners}
use metac.Selector.Labels.{Labels}
use metac.Composite.{ParentController, ParentWorld, ParentLibrary}
use metac.Composite.Rollouts.{RevisionWorld}
use metac.Composite.Parent.{observed_status, is_status, with_status, update_parent_status}

-- What is relied on: a retried call ends as one of its attempts did.
pub record RetryLaws {S : Type 0} (server : Server S) : Type 1 where
  pub retried :
      (Q : Object → Type 0) (call : Call S Object)
      → Ensures Q call
      → Ensures Q (server.retry_on_conflict call)

-- The status of the hook, with the generation of the parent as the observed one.
abbrev pub final_status : ParentLibrary → Object → Option Object → Object
final_status lib parent none = insert "observedGeneration" (int (lib.get_generation parent)) []
final_status lib parent (some status) =
    insert "observedGeneration" (int (lib.get_generation parent)) status

-- The object has a status that is deeply equal to this one.
abbrev pub equals_status : Object → Option Value → Bool
equals_status status none = false
equals_status status (some v) = equal v (object status)

abbrev pub has_status : Object → Object → Bool
has_status status o = equals_status status (lookup "status" o)

-- What comes back: an object with the uid of the parent, where it has the status; and else what a call of the
-- server, at its endpoint of the status if there is one, answers to that object with this status in place of
-- its own.
abbrev pub Written : {S : Type 0} → Api → Server S → Bool → Object → Object → Object → Type 0
Written {S} api server has_endpoint parent status o =
    (live : Object) × (api.get_uid live ≡ api.get_uid parent)
    × (((has_status status live ≡ true) × (o ≡ live))
        ⊎ ((s : S) × (has_status status live ≡ false)
            × (((if has_endpoint then server.update_status else server.update)
                  (insert "status" (object status) live) s).0
                ≡ ok o)))

some_injective : {a b : Object} → some a ≡ some b → a ≡ b
some_injective p = cc

module _ {S : Type 0} (api : Api) (json : Json) (nested : Nested) (labels : Labels)
    (owners : Owners) (lib : ParentLibrary) (world : ParentWorld S) (revisions : RevisionWorld S)
    (pc : ParentController S) where
  abbrev changes : Object → Object → Option Object
  changes status obj = with_status api json nested labels owners lib world revisions pc status obj

  -- A change is made exactly where the object does not have the status.
  with_status-cases :
      (status obj : Object)
      → ((has_status status obj ≡ true) × (changes status obj ≡ none))
        ⊎ ((has_status status obj ≡ false)
            × (changes status obj ≡ some (insert "status" (object status) obj)))
  with_status-cases status obj = go (lookup "status" obj)
    where
      put : Option Object
      put = some (insert "status" (object status) obj)

      tells : Option Value → Bool
      tells c = is_status api json nested labels owners lib world revisions pc c status

      go :
          (c : Option Value)
          → ((equals_status status c ≡ true) × ((if tells c then none else put) ≡ none))
            ⊎ ((equals_status status c ≡ false) × ((if tells c then none else put) ≡ put))
      go none = inr (refl, refl)
      go (some v) = elim (Bool-cases (equal v (object status))) [
        | inl same ↦ inl (same, rw same refl)
        | inr different ↦ inr (different, rw different refl)
      ]

  observed_status-final :
      (parent : Object) (status : Option Object)
      → observed_status api json nested labels owners lib world revisions pc parent status
        ≡ final_status lib parent status
  observed_status-final parent none = refl
  observed_status-final parent (some status) = refl

  -- When the status of a parent was updated, what comes back is the object with the uid of the parent, as it
  -- is, if its status is deeply equal to the status of the hook with the generation of the parent as the
  -- observed one; and otherwise the server's answer to that object with this status in place of its own, at
  -- the endpoint of the status if the resource has one.
  pub update_parent_status-Written :
      (parent : Object) (status : Option Object)
      → RetryLaws (world.parent_server (api.get_namespace parent))
      → Ensures
          (Written api
            (world.parent_server (api.get_namespace parent))
            world.parent_has_status
            parent
            (final_status lib parent status))
          (update_parent_status api json nested labels owners lib world revisions pc parent status)
  unfolding update_parent_status atomic_status_update
  update_parent_status-Written parent status laws = laws.retried (Result_ final) _ (
      attempt-Ensures api server (Result_ final) write parent
        (changes
          (observed_status api json nested labels owners lib world revisions pc parent status))
        live)
    where
      server : Server S
      server = world.parent_server (api.get_namespace parent)

      write : Object → Call S Object
      write = if world.parent_has_status then server.update_status else server.update

      final : Object
      final = final_status lib parent status

      Result_ : Object → Object → Type 0
      Result_ st o = Written api server world.parent_has_status parent st o

      live :
          (current : Object) (s : S) (o : Object)
          → (write_live api server write parent
              (changes (
                observed_status api json nested labels owners lib world revisions pc parent status))
              current
              s).0
            ≡ ok o
          → Result_ final o
      live current s o e =
          let e' =
            subst
              (λ (st : Object).
                (write_live api server write parent (changes st) current s).0 ≡ ok o)
              (observed_status-final parent status) ((e)) in
          let (uid, found) =
            write_live_inv api server write parent (changes final) current s o e' in
          (
            current,
            uid,
            elim (with_status-cases final current) [
              | inl (has, same) ↦ elim found [
                | inl (unchanged, back) ↦ inl (has, sym back)
                | inr (changed, q, written) ↦ absurd (cc (sym same ∙ q))
              ]
              | inr (lacks, put) ↦ elim found [
                | inl (unchanged, back) ↦ absurd (cc (sym put ∙ unchanged))
                | inr (changed, q, written) ↦
                    let same : insert "status" (object final) current ≡ changed =
                      some_injective (sym put ∙ q) in
                    inr (
                      s,
                      lacks,
                      subst (λ (x : Object). (write x s).0 ≡ ok o) (sym same) ((written)),
                    )
              ]
            ],
          )

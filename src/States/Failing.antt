-- ===== src/States/Failing.antt =====
-- The kinds that the server has no client for.
use metac.Prelude.{
  String, true, ◌||◌, ◌≡◌, ◌≢◌, refl, inl, inr, List, [], ◌∷◌, ◌++◌, Dict, has, ◌==◌, eq_iff,
  Bool-cases, arith,
}
use metac.Prelude.Results.{Result, ok, err}
use metac.Api.{Object, Api, Json}
use metac.Manage.{ManageError, Owners}
use metac.States.{DynamicClient, StatesServer, ResourceStates}
use metac.States.Cluster.{
  ClusterStates, Inits, add_init, Bound, client_of_key, init_groups, deleter, create_updater,
  init_deleter, init_create_updater, init_errors, apply_unless, apply,
}

append-ne-left : {A : Type 0} (xs ys : List A) → xs ≢ [] → (xs ++ ys) ≢ []
append-ne-left [] ys h = absurd (h refl)
append-ne-left (x ∷ xs) ys h = λ e. cc

append-ne-right : {A : Type 0} (xs ys : List A) → ys ≢ [] → (xs ++ ys) ≢ []
append-ne-right [] ys h = h
append-ne-right (x ∷ xs) ys h = λ e. cc

add_init-errors :
    (make : DynamicClient → ResourceStates) (client : Result ManageError DynamicClient)
    (rest : Inits)
    → rest.0 ≢ []
    → (add_init make client rest).0 ≢ []
add_init-errors make (err e) rest h = λ q. cc
add_init-errors make (ok client) rest h = h

module _ {S : Type 0} (api : Api) (json : Json) (owners : Owners) (server : StatesServer S) where
  init_groups-errors :
      (make : String → Dict Object → DynamicClient → ResourceStates) (groups : Dict (Dict Object))
      (key : String) (e : ManageError)
      → client_of_key server key ≡ err e
      → has key groups ≡ true
      → (init_groups server make groups).0 ≢ []
  unfolding init_groups has
  init_groups-errors make [] key e h t = absurd (cc t)
  init_groups-errors make ((k, objs) ∷ groups) key e h t = elim (Bool-cases (k == key)) [
    | inl same ↦ let q : k ≡ key = (eq_iff k key).0 same in rw (q, h) (λ z. cc)
    | inr other ↦
        add_init-errors _ (client_of_key server k) _
          (init_groups-errors make groups key e h (ground arith))
  ]

  apply_unless-errors :
      (errs : List ManageError) (fns : Bound) (s : S)
      → errs ≢ []
      → ((apply_unless api json owners server errs fns s).1 ≡ s)
        × ((apply_unless api json owners server errs fns s).0 ≢ [])
  apply_unless-errors [] fns s h = absurd (h refl)
  apply_unless-errors (e ∷ errs) fns s h = (refl, h)

  -- All kinds or none: if the server gives no client for one key of the observed or of the desired
  -- attachments, an error is returned and the server is left as it is, whatever the other kinds want.
  pub apply-no_client :
      (m : ClusterStates) (s : S) (key : String) (e : ManageError)
      → client_of_key server key ≡ err e
      → (has key m.observed || has key m.desired) ≡ true
      → ((apply api json owners server m s).1 ≡ s) × ((apply api json owners server m s).0 ≢ [])
  unfolding apply init_errors init_deleter init_create_updater
  apply-no_client m s key e h t =
      apply_unless-errors _ _ s (elim (Bool-cases (has key m.observed)) [
        | inl seen ↦
            append-ne-left _ _ (init_groups-errors (deleter server m) m.observed key e h seen)
        | inr unseen ↦ append-ne-right (init_deleter server m).0 _ (
            append-ne-left _ _
              (init_groups-errors (create_updater server m) m.desired key e h (ground arith)))
      ])

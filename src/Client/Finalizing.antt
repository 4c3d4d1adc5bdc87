-- ===== src/Client/Finalizing.antt =====
-- What holds of the object that an atomic update returns.
use metac.Prelude.{
  String, Bool, true, false, not, ◌≡◌, refl, Option, none, some, List, [], ◌∷◌, ◌⊎◌, sym, ap, ◌∙◌,
  ◌==◌, contains, remove_first, if◌then◌else◌, arith, inl, inr, Bool-cases, eq_iff, eq_refl,
}
use mathlib.Core.Path.{subst}
use metac.Prelude.Results.{Result, ok, err, ok-injective}
use metac.Api.{ApiError, not_found, Object, Api, ApiLaws}
use metac.Object.Metadata.{has_finalizer, add_finalizer, remove_finalizer}
use metac.Object.Finalizers.{has-add_finalizer}
use metac.Client.{
  Call, Server, and_then, write_live, attempt, atomic_update, adding, removing,
  client_add_finalizer, client_remove_finalizer,
}

-- `Q` holds of what the call returns, if it returns an object.
abbrev pub Ensures : {S : Type 0} → (Object → Type 0) → Call S Object → Type 0
Ensures {S} Q call = (s : S) (o : Object) → (call s).0 ≡ ok o → Q o

-- What the program relies on: a retried call ends as one of its attempts did, and as the first one
-- if that succeeds; and the server returns the finalizers that it was sent.
pub record ServerLaws {S : Type 0} (api : Api) (server : Server S) : Type 1 where
  pub retried :
      (Q : Object → Type 0) (call : Call S Object)
      → Ensures Q call
      → Ensures Q (server.retry_on_conflict call)
  pub first_try :
      (call : Call S Object) (s : S) (o : Object) (t : S)
      → call s ≡ (ok o, t)
      → server.retry_on_conflict call s ≡ (ok o, t)
  pub update-get_finalizers :
      (o : Object) (s : S) (o' : Object)
      → (server.update o s).0 ≡ ok o'
      → api.get_finalizers o' ≡ api.get_finalizers o

module _ {S : Type 0} (api : Api) (server : Server S) where
  pub attempt-Ensures :
      (Q : Object → Type 0) (write : Object → Call S Object) (orig : Object)
      (change : Object → Option Object)
      → ((current : Object) (s : S) (o : Object)
          → (write_live api server write orig change current s).0 ≡ ok o
          → Q o)
      → Ensures Q (attempt api server write orig change)
  unfolding attempt
  attempt-Ensures Q write orig change live s o e =
      go (server.get (api.get_name orig) s) (λ c t. live c t o) e
    where
      go :
          (r : Result ApiError Object × S)
          → ((current : Object) (t : S)
              → (write_live api server write orig change current t).0 ≡ ok o
              → Q o)
          → (and_then r (write_live api server write orig change)).0 ≡ ok o
          → Q o
      go (ok current, t) k h = k current t h
      go (err x, t) k h = cc

abbrev pub Live : {S : Type 0} → Api → Server S → String → Object → Object → Type 0
Live api server name orig o =
    (live : Object) × (api.get_uid live ≡ api.get_uid orig)
    × (api.get_finalizers o ≡ remove_first name (api.get_finalizers live))

remove_first_absent :
    (name : String) (xs : List String) → contains name xs ≡ false → remove_first name xs ≡ xs
unfolding contains remove_first
remove_first_absent name [] h = refl
remove_first_absent name (x ∷ xs) h = ground (arith, remove_first_absent name xs)

-- An attempt that returns an object found the live object by its uid, and left it or wrote it.
pub write_live_inv :
    {S : Type 0} (api : Api) (server : Server S) (write : Object → Call S Object) (orig : Object)
    (change : Object → Option Object) (current : Object) (s : S) (o : Object)
    → (write_live api server write orig change current s).0 ≡ ok o
    → (api.get_uid current ≡ api.get_uid orig)
      × ((change current ≡ none) × (current ≡ o)
          ⊎ ((changed : Object) × (change current ≡ some changed) × ((write changed s).0 ≡ ok o)))
unfolding write_live
write_live_inv {S} api server write orig change current s o =
    go (api.get_uid current == api.get_uid orig) refl (change current) refl
  where
    go :
        (b : Bool)
        → (api.get_uid current == api.get_uid orig) ≡ b
        → (c : Option Object) → change current ≡ c
        → (if◌then◌else◌ {A = Result ApiError Object × S}
            (not b)
            (err not_found, s)
            (elim c [ none ↦ (ok current, s) | some changed ↦ write changed s ])).0
          ≡ ok o
        → (api.get_uid current ≡ api.get_uid orig)
          × ((change current ≡ none) × (current ≡ o)
              ⊎ ((changed : Object) × (change current ≡ some changed)
                  × ((write changed s).0 ≡ ok o)))
    go false eb c ec e = cc
    go true eb none ec e = ((eq_iff _ _).0 eb, inl (ec, ok-injective e))
    go true eb (some changed) ec e = ((eq_iff _ _).0 eb, inr (changed, ec, e))

module _ {S : Type 0} (api : Api) (server : Server S) (laws : ApiLaws api)
    (server_laws : ServerLaws api server) where
  add_live :
      (orig : Object) (name : String) (current : Object) (s : S) (o : Object)
      → (write_live api server server.update orig (adding api server name) current s).0 ≡ ok o
      → has_finalizer api o name ≡ true
  unfolding adding
  add_live orig name current s o e =
      elim (write_live_inv api server server.update orig (adding api server name) current s o e).1 [
        | inl (same, eo) ↦
            subst (λ x. has_finalizer api x name ≡ true) eo
              (ground (arith, Bool-cases (has_finalizer api current name)))
        | inr (changed, ec, eu) ↦
            let added : add_finalizer api current name ≡ changed =
              ground (arith, Bool-cases (has_finalizer api current name)) in
            let has : has_finalizer api changed name ≡ true =
              subst (λ x. has_finalizer api x name ≡ true) added
                (ground (arith, has-add_finalizer api laws current name name, eq_refl name)) in
            unfold has_finalizer in
            rw (server_laws.update-get_finalizers changed s o eu) (unfold has_finalizer in has)
      ]

  remove-Live :
      (orig : Object) (name : String) (current : Object) (s : S) (o : Object)
      → (write_live api server server.update orig (removing api server name) current s).0 ≡ ok o
      → Live api server name orig o
  unfolding removing has_finalizer remove_finalizer
  remove-Live orig name current s o e =
      let (uid, rest) =
        write_live_inv api server server.update orig (removing api server name) current s o e in
      elim rest [
        | inl (same, eo) ↦ (
          current,
          uid,
          rw (← eo) (sym (remove_first_absent name (api.get_finalizers current) (ground arith))),
        )
        | inr (changed, ec, eu) ↦
            let there : contains name (api.get_finalizers current) ≡ true = ground arith in
            let removed : api.set_finalizers current
                  (remove_first name (api.get_finalizers current))
                ≡ changed =
              ground arith in
            (
              current,
              uid,
              server_laws.update-get_finalizers changed s o eu
                  ∙ sym (ap api.get_finalizers removed)
                  ∙ laws.get-set_finalizers current _,
            )
      ]

  client_add_finalizer-Ensures :
      (orig : Object) (name : String)
      → Ensures (λ o. has_finalizer api o name ≡ true) (client_add_finalizer api server orig name)
  unfolding client_add_finalizer atomic_update
  client_add_finalizer-Ensures orig name =
      server_laws.retried (λ o. has_finalizer api o name ≡ true)
        (attempt api server server.update orig (adding api server name))
        (attempt-Ensures api server (λ o. has_finalizer api o name ≡ true) server.update orig
          (adding api server name) (add_live orig name))

  client_add_finalizer_succeeds :
      (orig live o : Object) (name : String) (s t u : S)
      → server.get (api.get_name orig) s ≡ (ok live, t)
      → api.get_uid live ≡ api.get_uid orig
      → server.update (add_finalizer api live name) t ≡ (ok o, u)
      → client_add_finalizer api server orig name s
        ≡ (if has_finalizer api live name then (ok live, t) else (ok o, u))
  unfolding client_add_finalizer atomic_update
  client_add_finalizer_succeeds orig live o name s t u g i w =
      elim (Bool-cases (has_finalizer api live name)) [
        | inl old ↦ rw old (
            server_laws.first_try (attempt api server server.update orig (adding api server name)) s
              live t
              (unfold attempt in
                unfold write_live in unfold adding in rw (g, i, eq_refl (api.get_uid orig), old)))
        | inr new ↦ rw new (
            server_laws.first_try (attempt api server server.update orig (adding api server name)) s
              o u
              (unfold attempt in
                unfold write_live in
                unfold adding in rw (g, i, eq_refl (api.get_uid orig), new, w)))
      ]

  -- An object that the client returns after adding a finalizer has it. And the client does return
  -- one, if the server gives a live object with the uid and takes the change: the live object if that
  -- has the finalizer, and else what the update gave.
  pub client_add_finalizer_lem :
      (orig : Object) (name : String)
      → Ensures (λ o. has_finalizer api o name ≡ true) (client_add_finalizer api server orig name)
        × ((live o : Object) (s t u : S)
            → server.get (api.get_name orig) s ≡ (ok live, t)
            → api.get_uid live ≡ api.get_uid orig
            → server.update (add_finalizer api live name) t ≡ (ok o, u)
            → client_add_finalizer api server orig name s
              ≡ (if has_finalizer api live name then (ok live, t) else (ok o, u)))
  client_add_finalizer_lem orig name = (
    client_add_finalizer-Ensures orig name,
    λ live o s t u. client_add_finalizer_succeeds orig live o name s t u,
  )

  -- An object that the client returns after removing a finalizer has the finalizers of the live
  -- object with this uid, less the first occurrence of the one that was to go.
  pub client_remove_finalizer_lem :
      (orig : Object) (name : String)
      → Ensures (Live api server name orig) (client_remove_finalizer api server orig name)
  unfolding client_remove_finalizer atomic_update
  client_remove_finalizer_lem orig name =
      server_laws.retried (Live api server name orig)
        (attempt api server server.update orig (removing api server name))
        (attempt-Ensures api server (Live api server name orig) server.update orig
          (removing api server name) (remove-Live orig name))

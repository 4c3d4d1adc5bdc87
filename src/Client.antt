-- ===== src/Client.antt =====
-- dynamic/clientset/clientset.go: writes to the API server that retry on a conflict.
-- The server is a parameter, and its state is passed on by each call.
pub mod Finalizing
use metac.Prelude.{
  String, Bool, true, false, not, ◌≡◌, Option, none, some, List, ◌==◌, contains, if◌then◌else◌,
}
use metac.Prelude.Results.{Result, ok, err}
use metac.Api.{ApiError, not_found, Object, Api}
use metac.Object.Metadata.{has_finalizer, add_finalizer, remove_finalizer}

-- A call of the server: its result, and the state that it leaves.
abbrev pub Call {ℓ} : Type 0 → Type ℓ → Type ℓ
Call S A = S → Result ApiError A × S

pub record Server (S : Type 0) : Type 0 where
  pub get : String → Call S Object
  pub update : Object → Call S Object
  pub update_status : Object → Call S Object
  -- retry.RetryOnConflict with the default backoff
  pub retry_on_conflict : Call S Object → Call S Object

-- The result of a call is passed on with the state, or stops the sequence.
abbrev pub and_then :
    {S A B : Type 0} → Result ApiError A × S → (A → Call S B) → Result ApiError B × S
and_then (ok a, s) f = f a s
and_then (err e, s) f = (err e, s)

module _ {S : Type 0} (api : Api) (server : Server S) where
  -- What one attempt does with the live object: `change` gives none if no update is required.
  unfoldable pub write_live :
      (Object → Call S Object) → Object → (Object → Option Object) → Object → Call S Object
  write_live write orig change current s =
      if not (api.get_uid current == api.get_uid orig)
      then (err not_found, s)
      else elim (change current) [ none ↦ (ok current, s) | some changed ↦ write changed s ]

  unfoldable pub attempt :
      (Object → Call S Object) → Object → (Object → Option Object) → Call S Object
  attempt write orig change s =
      and_then (server.get (api.get_name orig) s) (write_live write orig change)

  unfoldable pub atomic_update : Object → (Object → Option Object) → Call S Object
  atomic_update orig change s = server.retry_on_conflict (attempt server.update orig change) s

  -- The status subresource is written if the resource has one.
  unfoldable pub atomic_status_update : Bool → Object → (Object → Option Object) → Call S Object
  atomic_status_update has_status orig change s =
      server.retry_on_conflict
        (attempt (if has_status then server.update_status else server.update) orig change) s

  unfoldable pub adding : String → Object → Option Object
  adding name obj = if has_finalizer api obj name then none else some (add_finalizer api obj name)

  unfoldable pub removing : String → Object → Option Object
  removing name obj =
      if not (has_finalizer api obj name) then none else some (remove_finalizer api obj name)

  unfoldable pub client_add_finalizer : Object → String → Call S Object
  client_add_finalizer orig name s = atomic_update orig (adding name) s

  unfoldable pub client_remove_finalizer : Object → String → Call S Object
  client_remove_finalizer orig name s = atomic_update orig (removing name) s

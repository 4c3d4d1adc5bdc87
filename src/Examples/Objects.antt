-- ===== src/Examples/Objects.antt =====
-- Runs of the finalizers of an object, and of the client.
use metac.Prelude.{true, ◌≡◌, refl, [], ◌∷◌, lookup, insert, contains, if◌then◌else◌}
use metac.Prelude.Results.{ok}
use metac.Value.{str}
use metac.Api.{Object}
use metac.Object.Metadata.{has_finalizer, add_finalizer}
use metac.Client.{client_add_finalizer, atomic_update, attempt, write_live, adding}
use metac.Client.Finalizing.{Ensures, client_add_finalizer_lem}
use metac.Finalizer.{Finalizer, sync_object}
use metac.Finalizer.Sync.{Synced, sync_object-Synced}
use metac.Examples.{small_api, small_api_laws, small_server, small_server_laws}

abbrev pod : Object
pod = ("name", str "web") ∷ ("uid", str "u1") ∷ []

client_add_finalizer_example :
    Ensures
      (λ o. has_finalizer small_api o "metac/gc" ≡ true)
      (client_add_finalizer small_api small_server pod "metac/gc")
    × ((live o s t u : Object)
        → small_server.get (small_api.get_name pod) s ≡ (ok live, t)
        → small_api.get_uid live ≡ small_api.get_uid pod
        → small_server.update (add_finalizer small_api live "metac/gc") t ≡ (ok o, u)
        → client_add_finalizer small_api small_server pod "metac/gc" s
          ≡ (if has_finalizer small_api live "metac/gc" then (ok live, t) else (ok o, u)))
client_add_finalizer_example =
    client_add_finalizer_lem small_api small_server small_api_laws small_server_laws pod "metac/gc"

abbrev wanted : Finalizer
wanted = record { name = "metac/gc"; enabled = true }

abbrev synced_pod : Object
synced_pod = small_api.set_finalizers pod ("metac/gc" ∷ [])

sync_pod : (sync_object small_api small_server wanted pod pod).0 ≡ ok synced_pod
unfolding sync_object has_finalizer client_add_finalizer atomic_update attempt write_live adding
    add_finalizer contains lookup insert
sync_pod = refl

sync_object-Synced_example : Synced small_api small_server wanted pod synced_pod
sync_object-Synced_example =
    sync_object-Synced small_api small_server small_api_laws small_server_laws wanted pod pod
      synced_pod sync_pod

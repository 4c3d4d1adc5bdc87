-- ===== src/Finalizer.antt =====
-- controller/common/finalizer/finalizer.go: the finalizer that a controller keeps on its parent.

pub mod Sync
use metac.Prelude.{
  String, Bool, true, false, not, ◌&&◌, ◌||◌, ◌≡◌, Option, none, some, List, [], ◌∷◌, ◌==◌,
  contains, is_some, if◌then◌else◌,
}
use metac.Prelude.Results.{Result, ok, err}
use metac.Api.{ApiError, Object, Api}
use metac.Object.Metadata.{has_finalizer, remove_finalizer}
use metac.Client.{Call, Server, client_add_finalizer, client_remove_finalizer}

pub record Finalizer : Type 0 where
  pub name : String
  pub enabled : Bool

-- a == b on booleans
abbrev pub same : Bool → Bool → Bool
same true b = b
same false b = not b

-- The scope of the client, which is the namespace of the object, is left out.
unfoldable pub sync_object : {S : Type 0} → Api → Server S → Finalizer → Object → Call S Object
sync_object api server m obj s =
    if same (has_finalizer api obj m.name) m.enabled
    then (ok obj, s)
    else if m.enabled
    then (if is_some (api.get_deletion_timestamp obj)
        then (ok obj, s)
        else client_add_finalizer api server obj m.name s)
    else client_remove_finalizer api server obj m.name s

unfoldable pub has_gc_item : Api → List String → Bool
has_gc_item api [] = false
has_gc_item api (item ∷ items) =
    (item == api.finalizer_delete_dependents || item == api.finalizer_orphan_dependents)
    || has_gc_item api items

unfoldable pub has_gc_finalizer : Api → Object → Bool
unfolding has_gc_item
has_gc_finalizer api obj = has_gc_item api (api.get_finalizers obj)

unfoldable pub should_finalize : Api → Finalizer → Object → Bool
should_finalize api m parent =
    if has_gc_finalizer api parent
    then false
    else if not (has_finalizer api parent m.name)
    then false
    else m.enabled

unfoldable pub finalizer_remove : Api → Finalizer → Object → Object
finalizer_remove api m obj = remove_finalizer api obj m.name

-- ===== src/Composite/Children.antt =====
-- controller/composite/controller.go: the children that a parent claims.
use metac.Prelude.{
  String, Bool, not, Option, none, some, List, [], ◌∷◌, Dict, is_some, ◌==◌, if◌then◌else◌,
}
use metac.Prelude.Results.{Result, ok, err}
use metac.Prelude.Steps.{◌>>=◌, return, fail, returned, wrapped}
use metac.Api.{ApiError, other_error, Object, Api}
use metac.Client.{Call, Server, and_then}
use metac.Selector.Labels.{Labels}
use metac.Registry.{AnyUnstructRegistry, init, insert_all_by_reference}
use metac.Manage.{Owners}
use metac.Rolling.{ChildResource}
use metac.Claiming.{UnstructClaimManager, Claims, adopt, release, bulk_claim}
use metac.Composite.{
  CompositeError, call_failed, claims_failed, no_informer, Sync, ParentController, ParentLibrary,
  ParentWorld, make_selector,
}

module _ {S : Type 0} (api : Api) (labels : Labels) (owners : Owners) (lib : ParentLibrary)
    (world : ParentWorld S) (pc : ParentController S) where
  abbrev pub checked_fresh : Object → Object → Result ApiError (Unit {0})
  checked_fresh parent fresh =
      if not (api.get_uid fresh == api.get_uid parent)
      then err other_error
      else if is_some (api.get_deletion_timestamp fresh)
      then err other_error
      else ok tt

  -- An uncached read says that the parent is still there, and not pending deletion.
  unfoldable pub can_adopt_func : Object → Call S (Unit {0})
  can_adopt_func parent s =
      and_then ((world.parent_server (api.get_namespace parent)).get (api.get_name parent) s)
        (λ fresh t. (checked_fresh parent fresh, t))

  abbrev pub claim_manager : Object → (String → Server S) → UnstructClaimManager S
  claim_manager parent client = record {
    server = client;
    can_adopt = can_adopt_func parent;
    watched = parent;
    watched_api_version = pc.parent_api_version;
    watched_kind = pc.parent_kind;
  }

  abbrev pub claimed_or_failed : Claims S Object → Result CompositeError (List Object) × S
  claimed_or_failed (claimed, [], s) = (ok claimed, s)
  claimed_or_failed (claimed, e ∷ errlist, s) = (err (claims_failed (e ∷ errlist)), s)

  abbrev pub claim_objects :
      Object → (Dict String → Bool) → (String → Server S) → List Object → Sync S (List Object)
  claim_objects parent selector client all s =
      let m = claim_manager parent client in
      claimed_or_failed (
        bulk_claim (world.claim parent) (λ obj. selector (api.get_labels obj)) (adopt api owners m)
          (release api owners m) all s)

  abbrev pub list_scope : Object → Option String
  list_scope parent = if pc.parent_namespaced then some (api.get_namespace parent) else none

  abbrev pub listed :
      Object → Option (Option String → Result ApiError (List Object)) → Sync S (List Object)
  listed parent none = fail no_informer
  listed parent (some list) = returned (wrapped call_failed (list (list_scope parent)))

  -- The group of a kind is there even if it has no entries.
  unfoldable pub claim_kind :
      Object
      → (Dict String → Bool)
      → ChildResource
      → AnyUnstructRegistry
      → Sync S AnyUnstructRegistry
  claim_kind parent selector child child_map = do
    client ← returned (wrapped call_failed (world.child_client child.api_version child.resource))
    all ← listed parent (world.list_children child.api_version child.resource)
    claimed ← claim_objects parent selector client.1 all
    return (insert_all_by_reference api parent claimed (init child.api_version client.0 child_map))

  unfoldable pub claim_kinds :
      Object
      → (Dict String → Bool)
      → List ChildResource
      → AnyUnstructRegistry
      → Sync S AnyUnstructRegistry
  claim_kinds parent selector [] child_map = return child_map
  claim_kinds parent selector (child ∷ children) child_map = do
    found ← claim_kind parent selector child child_map
    claim_kinds parent selector children found

  unfoldable pub claim_children : Object → Sync S AnyUnstructRegistry
  claim_children parent = do
    selector ← returned (make_selector api labels lib pc parent [])
    claim_kinds parent selector pc.child_resources []

-- ===== src/States/Cluster.antt =====
-- controller/common/controller.go, ClusterStatesController: the attachments of all kinds. The functions
-- that a test may set in place of the defaults are nil.
use metac.Prelude.{
  String, true, none, some, List, [], ◌∷◌, ◌++◌, Dict, lookup, is_some, if◌then◌else◌,
}
use metac.Prelude.Results.{Result, ok, err}
use metac.Value.{entries}
use metac.Api.{Api, Json, Object}
use metac.Registry.{parse_key_to_api_version_kind}
use metac.Manage.{ManageError, bad_key, Progress, Owners, of_api}
use metac.States.{
  StatesBase, DynamicClient, StatesServer, ResourceStates, run_create_or_update,
  run_explicit_update, run_delete, run_explicit_delete,
}

pub record ClusterStates : Type 0 where
  pub base : StatesBase
  pub observed : Dict (Dict Object)
  pub desired : Dict (Dict Object)
  pub explicit_deletes : Dict (Dict Object)
  pub explicit_updates : Dict (Dict Object)

-- The errors of an init function, and the list that it binds to the function of the controller.
abbrev pub Inits : Type 0
Inits = List ManageError × List ResourceStates

abbrev pub add_init :
    (DynamicClient → ResourceStates) → Result ManageError DynamicClient → Inits → Inits
add_init make (err e) (errs, list) = (e ∷ errs, list)
add_init make (ok client) (errs, list) = (errs, make client ∷ list)

abbrev pub observed_with : Dict (Dict Object) → Dict (Dict Object) → Dict (Dict Object)
observed_with observed [] = []
observed_with observed ((key, objects) ∷ groups) =
    let rest = observed_with observed groups in
    elim (entries (lookup key observed)) [ [] ↦ rest | first ∷ others ↦ (key, objects) ∷ rest ]

module _ {S : Type 0} (server : StatesServer S) where
  unfoldable pub client_of_key : String → Result ManageError DynamicClient
  client_of_key key = elim (parse_key_to_api_version_kind key) [
    | none ↦ err bad_key
    | some (api_version, kind) ↦ of_api (server.client_for api_version kind)
  ]

  -- The loop of an init function over the groups of a registry.
  unfoldable pub init_groups :
      (String → Dict Object → DynamicClient → ResourceStates) → Dict (Dict Object) → Inits
  init_groups make [] = ([], [])
  init_groups make ((key, objects) ∷ groups) =
      add_init (make key objects) (client_of_key key) (init_groups make groups)

  module _ (m : ClusterStates) where
    abbrev pub deleter : String → Dict Object → DynamicClient → ResourceStates
    deleter key objects client = record {
      base = m.base;
      client = client;
      observed = objects;
      desired = entries (lookup key m.desired);
      explicit_deletes = [];
      explicit_updates = [];
    }

    unfoldable pub init_deleter : Inits
    init_deleter = init_groups deleter m.observed

    abbrev pub explicit_deleter : String → Dict Object → DynamicClient → ResourceStates
    explicit_deleter key objects client = record {
      base = m.base;
      client = client;
      observed = objects;
      desired = [];
      explicit_deletes = entries (lookup key m.explicit_deletes);
      explicit_updates = [];
    }

    unfoldable pub init_explicit_deleter : Inits
    init_explicit_deleter = init_groups explicit_deleter m.observed

    abbrev pub create_updater : String → Dict Object → DynamicClient → ResourceStates
    create_updater key objects client = record {
      base = m.base;
      client = client;
      observed = entries (lookup key m.observed);
      desired = objects;
      explicit_deletes = [];
      explicit_updates = [];
    }

    unfoldable pub init_create_updater : Inits
    init_create_updater = init_groups create_updater m.desired

    -- Whatever was created may be updated explicitly.
    abbrev pub explicit_updater : String → Dict Object → DynamicClient → ResourceStates
    explicit_updater key objects client = record {
      base = record m.base { update_any = some true };
      client = client;
      observed = entries (lookup key m.observed);
      desired = [];
      explicit_deletes = [];
      explicit_updates = objects;
    }

    unfoldable pub init_explicit_updater : Inits
    init_explicit_updater =
        init_groups explicit_updater (observed_with m.observed m.explicit_updates)

abbrev pub own_by_default : ClusterStates → ClusterStates
own_by_default m =
    if is_some m.base.is_watch_owner
    then m
    else record m { base = record m.base { is_watch_owner = some true } }

-- The functions that initIfNil binds, each as the list that it runs over.
pub record Bound : Type 0 where
  pub delete_fn : List ResourceStates
  pub create_or_update_fn : List ResourceStates
  pub explicit_update_fn : List ResourceStates
  pub explicit_delete_fn : List ResourceStates

module _ {S : Type 0} (server : StatesServer S) where
  -- The errors in the order in which the functions are called.
  unfoldable pub init_errors : ClusterStates → List ManageError
  init_errors m =
      (init_deleter server m).0
      ++ ((init_create_updater server m).0
          ++ ((init_explicit_deleter server m).0 ++ (init_explicit_updater server m).0))

  -- The lists are built before the owner gets its default.
  unfoldable pub init_if_nil : ClusterStates → Bound × ClusterStates
  init_if_nil m = (
    record {
      delete_fn = (init_deleter server m).1;
      create_or_update_fn = (init_create_updater server m).1;
      explicit_update_fn = (init_explicit_updater server m).1;
      explicit_delete_fn = (init_explicit_deleter server m).1;
    },
    own_by_default m,
  )

-- The Delete, CreateOrUpdate and Update functions of the lists.
unfoldable pub run_list :
    {S : Type 0}
    → (ResourceStates → Progress S → Progress S)
    → List ResourceStates
    → Progress S
    → Progress S
run_list step [] p = p
run_list step (e ∷ list) p = run_list step list (step e p)

module _ {S : Type 0} (api : Api) (json : Json) (owners : Owners) (server : StatesServer S) where
  unfoldable pub run_bound : Bound → Progress S → Progress S
  run_bound fns p = run_list (run_explicit_delete api json owners server) fns.explicit_delete_fn (
      run_list (run_explicit_update api json owners server) fns.explicit_update_fn (
        run_list (run_create_or_update api json owners server) fns.create_or_update_fn
          (run_list (run_delete api json owners server) fns.delete_fn p)))

  abbrev pub apply_unless : List ManageError → Bound → S → Progress S
  apply_unless [] fns s = run_bound fns ([], s)
  apply_unless (e ∷ errs) fns s = (e ∷ errs, s)

  unfoldable pub apply : ClusterStates → S → Progress S
  apply m s = apply_unless (init_errors server m) (init_if_nil server m).0 s

-- ===== src/States/Unowned.antt =====
-- The owner of the attachments that are created, where the controller does not set it.
use metac.Prelude.{Bool, false, ◌≡◌, ◌++◌, Option, none, some, map}
use metac.Api.{Api, Json}
use metac.Manage.{Progress, Owners}
use metac.States.{StatesServer, ResourceStates}
use metac.States.Cluster.{ClusterStates, Inits, Bound, apply_unless}

abbrev pub owned_by : Option Bool → ResourceStates → ResourceStates
owned_by o e = record e { base = record e.base { is_watch_owner = o } }

abbrev pub all_owned_by : Option Bool → ClusterStates → ClusterStates
all_owned_by o m = record m { base = record m.base { is_watch_owner = o } }

module _ {S : Type 0} (api : Api) (json : Json) (owners : Owners) (server : StatesServer S) where
  abbrev Unread : (ResourceStates → Progress S → Progress S) → Type 0
  Unread step =
      (e : ResourceStates) (p : Progress S)
      → step (owned_by none e) p ≡ step (owned_by (some false) e) p

  abbrev owned_inits : Option Bool → Inits → Inits
  owned_inits o (errs, list) = (errs, map (owned_by o) list)

  abbrev plan : Inits → Inits → Inits → Inits → S → Progress S
  plan d c x u s =
      apply_unless api json owners server (d.0 ++ (c.0 ++ (x.0 ++ u.0)))
        (record {
          delete_fn = d.1;
          create_or_update_fn = c.1;
          explicit_update_fn = u.1;
          explicit_delete_fn = x.1;
        })
        s

  abbrev owned_bound : Option Bool → Bound → Bound
  owned_bound o fns = record {
    delete_fn = map (owned_by o) fns.delete_fn;
    create_or_update_fn = map (owned_by o) fns.create_or_update_fn;
    explicit_update_fn = map (owned_by o) fns.explicit_update_fn;
    explicit_delete_fn = map (owned_by o) fns.explicit_delete_fn;
  }

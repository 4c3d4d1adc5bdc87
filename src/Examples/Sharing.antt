-- ===== src/Examples/Sharing.antt =====
-- Runs of the shared informers.
use metac.Prelude.{String, [], ◌∷◌}
use metac.Prelude.Results.{Result, ok}
use metac.Api.{ApiError}
use metac.Informer.{Factory, ResourceInformer}

abbrev any_client : String → String → Result ApiError (String × String)
any_client v r = ok (v, r)

abbrev on_pods : ResourceInformer
on_pods = record { key = "pods.v1"; informer = 0 }

abbrev once : Factory
once = record {
  ref_count = ("pods.v1", 1) ∷ [];
  shared_informers = ("pods.v1", 0) ∷ [];
  stopped = [];
  created = 1;
}

abbrev twice : Factory
twice = record {
  ref_count = ("pods.v1", 2) ∷ [];
  shared_informers = ("pods.v1", 0) ∷ [];
  stopped = [];
  created = 1;
}

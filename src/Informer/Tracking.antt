-- ===== src/Informer/Tracking.antt =====
-- The factory against the list of the subscriptions that are open, which is what its users know of it,
-- along the steps of the factory's users.
use metac.Prelude.{ℕ, String, false, ◌≡◌, some, List, [], ◌∷◌, elem_at}
use metac.Prelude.Results.{Result, ok, err}
use metac.Api.{ApiError}
use metac.Informer.{
  Factory, ResourceInformer, new_shared_informer_factory, has_stopped, get_or_create, close,
}
use metac.Informer.Counting.{remove_at}
use metac.Informer.Sharing.{informer_of}

-- The steps of the users of a factory, each with the subscriptions that are then open.
pub data Step (client_for : String → String → Result ApiError (String × String))
    : Factory → List ResourceInformer → Factory → List ResourceInformer → Type 0 where
  subscribed :
      (api_version resource : String) (f f' : Factory) (open_ : List ResourceInformer)
      (r : ResourceInformer)
      → get_or_create client_for api_version resource f ≡ (ok r, f')
      → Step client_for f open_ f' (r ∷ open_)
  refused :
      (api_version resource : String) (f f' : Factory) (open_ : List ResourceInformer)
      (e : ApiError)
      → get_or_create client_for api_version resource f ≡ (err e, f')
      → Step client_for f open_ f' open_
  closed :
      (n : ℕ) (r : ResourceInformer) (f f' : Factory) (open_ : List ResourceInformer)
      → elem_at open_ n ≡ some r
      → close r f ≡ some f'
      → Step client_for f open_ f' (remove_at open_ n)

pub data Reach (client_for : String → String → Result ApiError (String × String))
    : Factory → List ResourceInformer → Type 0 where
  start : Reach client_for new_shared_informer_factory []
  next :
      {f f' : Factory} {open_ open' : List ResourceInformer}
      → Reach client_for f open_
      → Step client_for f open_ f' open'
      → Reach client_for f' open'

-- The subscription refers to the informer of its key, which runs, and can be closed.
abbrev pub Serves : Factory → ResourceInformer → Type 0
Serves f r =
    (informer_of r.key f ≡ some r.informer)
    × (has_stopped r.informer f.stopped ≡ false)
    × ((f' : Factory) × (close r f ≡ some f'))

-- ===== src/Informer.antt =====
-- dynamic/informer/factory.go: informers that are shared and counted. An informer is known by the number
-- of informers made before it; its stop channel is closed once its number is among the stopped ones.
pub mod Counting
pub mod Sharing
pub mod Starting
pub mod Stopping
pub mod Tracking
use Prim.Native.String.{◌++◌ as append}
use metac.Prelude.{
  ℕ, suc, ◌+◌, ◌-◌, String, Bool, true, false, ◌||◌, Option, none, some, List, [], ◌∷◌, Dict,
  lookup, insert, remove, ltb, nat_eq, if◌then◌else◌,
}
use metac.Prelude.Results.{Result, ok, err}
use metac.Api.{ApiError}

-- SharedInformerFactory
pub record Factory : Type 0 where
  pub ref_count : Dict ℕ
  pub shared_informers : Dict ℕ
  pub stopped : List ℕ
  pub created : ℕ

-- ResourceInformer: a subscription to a shared informer, and the key that its close function is about.
pub record ResourceInformer : Type 0 where
  pub key : String
  pub informer : ℕ

abbrev pub new_shared_informer_factory : Factory
new_shared_informer_factory = record {
  ref_count = [];
  shared_informers = [];
  stopped = [];
  created = 0;
}

unfoldable pub resource_key : String → String → String
resource_key api_version resource = append resource (append "." api_version)

-- f.refCount[key], which is 0 for a key that is not there
abbrev pub count_or_zero : Option ℕ → ℕ
count_or_zero none = 0
count_or_zero (some n) = n

abbrev pub count_of : String → Factory → ℕ
count_of key f = count_or_zero (lookup key f.ref_count)

abbrev pub has_stopped : ℕ → List ℕ → Bool
has_stopped n [] = false
has_stopped n (m ∷ ms) = nat_eq m n || has_stopped n ms

abbrev pub subscribe_new :
    String
    → Result ApiError (String × String)
    → Factory
    → Result ApiError ResourceInformer × Factory
subscribe_new key (err e) f = (err e, f)
subscribe_new key (ok client) f = (
  ok (record { key = key; informer = f.created }),
  record f {
    shared_informers = insert key f.created f.shared_informers;
    ref_count = insert key 1 f.ref_count;
    created = f.created + 1;
  },
)

abbrev pub subscribe :
    String
    → Result ApiError (String × String)
    → Option ℕ
    → Factory
    → Result ApiError ResourceInformer × Factory
subscribe key client (some informer) f = (
  ok (record { key = key; informer = informer }),
  record f { ref_count = insert key (count_of key f + 1) f.ref_count },
)
subscribe key client none f = subscribe_new key client f

-- The client is asked for if there is no informer yet.
unfoldable pub get_or_create :
    (String → String → Result ApiError (String × String))
    → String
    → String
    → Factory
    → Result ApiError ResourceInformer × Factory
get_or_create client_for api_version resource f =
    subscribe (resource_key api_version resource) (client_for api_version resource)
      (lookup (resource_key api_version resource) f.shared_informers) f

-- Close. The last subscription stops the informer; to close a channel twice is a panic.
unfoldable pub close : ResourceInformer → Factory → Option Factory
close r f =
    if ltb 1 (count_of r.key f)
    then some (record f { ref_count = insert r.key (count_of r.key f - 1) f.ref_count })
    else if has_stopped r.informer f.stopped
    then none
    else some (record f {
      stopped = r.informer ∷ f.stopped;
      ref_count = remove r.key f.ref_count;
      shared_informers = remove r.key f.shared_informers;
    })

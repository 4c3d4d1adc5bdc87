-- ===== src/Generic/Queue.antt =====
-- controller/generic/controller.go: the keys of the queue of watches, and the labels and annotations that
-- a hook changes.
pub mod Keys
pub mod Changes
use metac.Prelude.{
  ℕ, zero, suc, String, Bool, true, false, not, Option, none, some, List, [], ◌∷◌, Dict, lookup,
  has, insert, remove, ◌==◌, if◌then◌else◌,
}
use metac.Prelude.Text.{concat, split_once}
use metac.Api.{Object, Api}

-- What an informer hands to its handlers.
pub data Notified : Type 0 where
  deleted_final_state_unknown explicit_key : String → Notified
  unstructured : Object → Notified
  other_type : Notified

unfoldable pub make_watch_queue_key : Api → Notified → Option String
make_watch_queue_key api (deleted_final_state_unknown key) = some key
make_watch_queue_key api (explicit_key key) = some key
make_watch_queue_key api (unstructured o) = some (
    concat (
      api.get_api_version o
      ∷ ":"
      ∷ api.get_kind o
      ∷ ":"
      ∷ api.get_namespace o
      ∷ ":"
      ∷ api.get_name o
      ∷ []))
make_watch_queue_key api other_type = none

abbrev pub then_pieces : (String → List String) → String × Option String → List String
then_pieces pieces (first, none) = first ∷ []
then_pieces pieces (first, some rest) = first ∷ pieces rest

-- strings.SplitN by a separator of one byte, into at most `n` pieces
unfoldable pub split_n : ℕ → ℕ → String → List String
split_n zero sep s = []
split_n (suc zero) sep s = s ∷ []
split_n (suc (suc n)) sep s = then_pieces (split_n (suc n) sep) (split_once sep s)

-- API version, kind, namespace and name
pub record QueueKey : Type 0 where
  pub api_version : String
  pub kind : String
  pub namespace : String
  pub name : String

abbrev pub four_parts : List String → Option QueueKey
four_parts (v ∷ k ∷ ns ∷ n ∷ []) =
    some (record { api_version = v; kind = k; namespace = ns; name = n })
four_parts _ = none

unfoldable pub split_watch_queue_key : String → Option QueueKey
split_watch_queue_key key = four_parts (split_n 4 b':' key)

-- One update: none deletes the key.
abbrev pub update_one : String → Option String → Dict String × Bool → Dict String × Bool
update_one k none (dest, changed) = if has k dest then (remove k dest, true) else (dest, changed)
update_one k (some v) (dest, changed) = elim (lookup k dest) [
  | none ↦ (insert k v dest, true)
  | some old ↦ if old == v then (dest, changed) else (insert k v dest, true)
]

unfoldable pub update_all : Dict (Option String) → Dict String × Bool → Dict String × Bool
update_all [] result = result
update_all ((k, v) ∷ updates) result = update_all updates (update_one k v result)

-- The changed map, and whether it changed. The callers pass no nil map.
unfoldable pub update_string_map : Dict String → Dict (Option String) → Dict String × Bool
update_string_map dest updates = update_all updates (dest, false)

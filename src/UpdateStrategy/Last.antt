-- ===== src/UpdateStrategy/Last.antt =====
-- Which attachment's strategy a kind has.
use metac.Prelude.{
  String, Bool, true, false, ◌&&◌, ◌≡◌, refl, ap, ◌∙◌, Option, none, some, List, [], ◌∷◌, lookup,
  lookup-insert, ◌==◌, if◌then◌else◌,
}
use metac.Prelude.Text.{has_byte}
use metac.Registry.{make_key_from_api_version_kind}
use metac.Registry.Registrars.{key-eq}
use metac.UpdateStrategy.{
  AttachmentUpdateStrategy, Attachment, Strategies, make_update_strategy_key_from_gk, strategy_of,
  store, add_strategies, new_attachment_update_strategy_manager, get_strategy_by_gk,
  get_strategy_by_gk_or_default, is_patch_by_gk, method_or_default, patch_or_false,
}

-- The strategy, if it is for that group and kind.
abbrev pub for_gk :
    String
    → String
    → Option ((String × String) × AttachmentUpdateStrategy)
    → Option AttachmentUpdateStrategy
for_gk api_group kind none = none
for_gk api_group kind (some ((g, k), strategy)) =
    if (g == api_group) && (k == kind) then some strategy else none

abbrev pub or_later :
    Option AttachmentUpdateStrategy
    → Option AttachmentUpdateStrategy
    → Option AttachmentUpdateStrategy
or_later first none = first
or_later first (some later) = some later

abbrev pub last_set :
    (String → String → Option String)
    → String
    → String
    → List Attachment
    → Option AttachmentUpdateStrategy
    → Option AttachmentUpdateStrategy
last_set kind_of api_group kind [] so_far = so_far
last_set kind_of api_group kind (a ∷ attachments) so_far =
    last_set kind_of api_group kind attachments
      (or_later so_far (for_gk api_group kind (strategy_of kind_of a)))

abbrev NoDot : Option ((String × String) × AttachmentUpdateStrategy) → Type 0
NoDot none = Unit
NoDot (some ((g, k), strategy)) = has_byte b'.' k ≡ false

-- The kinds that the attachments set strategies for have no dot.
abbrev pub DotFree : (String → String → Option String) → List Attachment → Type 0
DotFree kind_of [] = Unit
DotFree kind_of (a ∷ attachments) = NoDot (strategy_of kind_of a) × DotFree kind_of attachments

strategy_key-eq :
    (g h k l : String)
    → has_byte b'.' k ≡ false
    → has_byte b'.' l ≡ false
    → (make_update_strategy_key_from_gk g k == make_update_strategy_key_from_gk h l)
      ≡ ((g == h) && (k == l))
unfolding make_update_strategy_key_from_gk make_key_from_api_version_kind
strategy_key-eq g h k l hk hl = key-eq g h k l hk hl

module _ (kind_of : String → String → Option String) where
  lookup-store :
      (g k : String) (o : Option ((String × String) × AttachmentUpdateStrategy)) (m : Strategies)
      → has_byte b'.' k ≡ false
      → NoDot o
      → lookup (make_update_strategy_key_from_gk g k) (store kind_of o m)
        ≡ or_later (lookup (make_update_strategy_key_from_gk g k) m) (for_gk g k o)
  lookup-store g k none m hk d = refl
  lookup-store g k (some ((h, l), strategy)) m hk d =
      lookup-insert _ _ strategy m
      ∙ ap (λ b. if b then some strategy else lookup (make_update_strategy_key_from_gk g k) m)
          (strategy_key-eq h g l k d hk)
      ∙ choose ((h == g) && (l == k))
    where
      choose :
          (b : Bool)
          → (if b then some strategy else lookup (make_update_strategy_key_from_gk g k) m)
            ≡ or_later
                (lookup (make_update_strategy_key_from_gk g k) m)
                (if b then some strategy else none)
      choose true = refl
      choose false = refl

  lookup-add_strategies :
      (g k : String) (attachments : List Attachment) (m : Strategies)
      → has_byte b'.' k ≡ false
      → DotFree kind_of attachments
      → lookup (make_update_strategy_key_from_gk g k) (add_strategies kind_of attachments m)
        ≡ last_set kind_of g k attachments (lookup (make_update_strategy_key_from_gk g k) m)
  unfolding add_strategies
  lookup-add_strategies g k [] m hk d = refl
  lookup-add_strategies g k (a ∷ attachments) m hk d =
      lookup-add_strategies g k attachments (store kind_of (strategy_of kind_of a) m) hk d.1
      ∙ ap (last_set kind_of g k attachments) (lookup-store g k (strategy_of kind_of a) m hk d.0)

  -- The method and the patch flag of a kind without a dot are those of the last attachment that sets a
  -- strategy for it, or the defaults, where no kind that they set has a dot.
  pub strategy-last_set :
      (g k : String) (attachments : List Attachment)
      → has_byte b'.' k ≡ false
      → DotFree kind_of attachments
      → (get_strategy_by_gk_or_default
            (new_attachment_update_strategy_manager kind_of attachments)
            g
            k
          ≡ method_or_default (last_set kind_of g k attachments none))
        × (is_patch_by_gk (new_attachment_update_strategy_manager kind_of attachments) g k
            ≡ patch_or_false (last_set kind_of g k attachments none))
  unfolding get_strategy_by_gk get_strategy_by_gk_or_default is_patch_by_gk
      new_attachment_update_strategy_manager lookup
  strategy-last_set g k attachments hk d = (
    ap method_or_default (lookup-add_strategies g k attachments [] hk d),
    ap patch_or_false (lookup-add_strategies g k attachments [] hk d),
  )

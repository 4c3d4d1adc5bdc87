-- ===== src/UpdateStrategy.antt =====
-- controller/generic/updatestrategy.go: how the attachments of a kind are updated.
pub mod Last
use Prim.Native.String.{◌++◌ as append}
use metac.Prelude.{
  String, Bool, true, false, not, ◌||◌, Option, none, some, List, [], ◌∷◌, Dict, lookup, insert,
  ◌==◌, if◌then◌else◌,
}
use metac.Registry.{parse_api_version_to_group_version}

-- v1alpha1.ChildUpdateMethod is a text.
abbrev pub child_update_on_delete : String
child_update_on_delete = "OnDelete"

-- v1alpha1.GenericControllerAttachmentUpdateStrategy, less its status checks; a nil patch is `none`.
pub record AttachmentUpdateStrategy : Type 0 where
  pub method : String
  pub patch : Option Bool

pub record Attachment : Type 0 where
  pub api_version : String
  pub resource : String
  pub update_strategy : Option AttachmentUpdateStrategy

-- The default method is a constant of the manager.
abbrev pub Strategies : Type 0
Strategies = Dict AttachmentUpdateStrategy

unfoldable pub make_update_strategy_key_from_gk : String → String → String
make_update_strategy_key_from_gk api_group kind = append kind (append "." api_group)

-- GetAPIForAPIVersionAndResource, of which the kind is used; `none` is a resource that is not known.
module _ (kind_of : String → String → Option String) where
  -- The group, the kind and the strategy that an attachment sets, if it sets one.
  unfoldable pub strategy_of : Attachment → Option ((String × String) × AttachmentUpdateStrategy)
  strategy_of a = elim a.update_strategy [
    | none ↦ none
    | some strategy ↦
        if strategy.method == child_update_on_delete
        then none
        else elim (kind_of a.api_version a.resource) [
          | none ↦ none
          | some kind ↦
              some (((parse_api_version_to_group_version a.api_version).0, kind), strategy)
        ]
  ]

  abbrev pub store : Option ((String × String) × AttachmentUpdateStrategy) → Strategies → Strategies
  store none m = m
  store (some ((api_group, kind), strategy)) m =
      insert (make_update_strategy_key_from_gk api_group kind) strategy m

  unfoldable pub add_strategies : List Attachment → Strategies → Strategies
  add_strategies [] m = m
  add_strategies (a ∷ attachments) m = add_strategies attachments (store (strategy_of a) m)

  unfoldable pub new_attachment_update_strategy_manager : List Attachment → Strategies
  new_attachment_update_strategy_manager attachments = add_strategies attachments []

unfoldable pub get_strategy_by_gk : Strategies → String → String → Option AttachmentUpdateStrategy
get_strategy_by_gk mgr api_group kind = lookup (make_update_strategy_key_from_gk api_group kind) mgr

abbrev pub method_or_default : Option AttachmentUpdateStrategy → String
method_or_default none = child_update_on_delete
method_or_default (some strategy) =
    if strategy.method == "" then child_update_on_delete else strategy.method

unfoldable pub get_strategy_by_gk_or_default : Strategies → String → String → String
get_strategy_by_gk_or_default mgr api_group kind =
    method_or_default (get_strategy_by_gk mgr api_group kind)

abbrev pub patch_or_false : Option AttachmentUpdateStrategy → Bool
patch_or_false none = false
patch_or_false (some strategy) = elim strategy.patch [ none ↦ false | some patch ↦ patch ]

unfoldable pub is_patch_by_gk : Strategies → String → String → Bool
is_patch_by_gk mgr api_group kind = patch_or_false (get_strategy_by_gk mgr api_group kind)

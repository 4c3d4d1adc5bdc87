-- ===== src/Revision.antt =====
-- controller/composite/controller_revision.go: which children a revision of a parent claims, and the
-- patch that a revision stores.
pub mod Children
pub mod Claims
pub mod Naming
use Prim.Native.String.{◌++◌ as append}
use metac.Prelude.{
  ℕ, ◌+◌, ◌-◌, suc, String, Bool, true, false, not, ◌&&◌, Option, none, some, List, [], ◌∷◌, ◌++◌,
  Dict, lookup, insert, contains, remove_first, length, ◌==◌, nat_eq, if◌then◌else◌,
}
use metac.Prelude.Text.{split}
use metac.Value.{Value, null, entries}
use metac.Api.{Object, Nested}

-- v1alpha1.ControllerRevisionChildren
pub record RevisionChildren : Type 0 where
  pub api_group : String
  pub kind : String
  pub names : List String

abbrev pub is_group : String → String → RevisionChildren → Bool
is_group api_group kind ch = (ch.api_group == api_group) && (ch.kind == kind)

abbrev pub add_name : String → RevisionChildren → RevisionChildren
add_name name ch =
    if contains name ch.names then ch else record ch { names = ch.names ++ name ∷ [] }

abbrev pub remove_name : String → RevisionChildren → RevisionChildren
remove_name name ch = record ch { names = remove_first name ch.names }

-- The first matching group is changed; without one, a new group is put at the end.
unfoldable pub add_child : String → String → String → List RevisionChildren → List RevisionChildren
add_child api_group kind name [] =
    record { api_group = api_group; kind = kind; names = name ∷ [] } ∷ []
add_child api_group kind name (ch ∷ children) =
    let rest = add_child api_group kind name children in
    if is_group api_group kind ch then add_name name ch ∷ children else ch ∷ rest

-- The first occurrence of the name is cut out of the first matching group.
unfoldable pub remove_child :
    String → String → String → List RevisionChildren → List RevisionChildren
remove_child api_group kind name [] = []
remove_child api_group kind name (ch ∷ children) =
    let rest = remove_child api_group kind name children in
    if is_group api_group kind ch then remove_name name ch ∷ children else ch ∷ rest

unfoldable pub count_from : List RevisionChildren → ℕ → ℕ
count_from [] count = count
count_from (ch ∷ children) count = count_from children (count + length ch.names)

-- A parent revision without a revision has no children.
unfoldable pub count_children : Option (List RevisionChildren) → ℕ
unfolding count_from
count_children none = 0
count_children (some children) = count_from children 0

module _ {P : Type 0} (children_of : P → Option (List RevisionChildren)) where
  unfoldable pub keep_claiming : List P → List P
  keep_claiming [] = []
  keep_claiming (pr ∷ rest) =
      let kept = keep_claiming rest in
      if nat_eq (count_children (children_of pr)) 0 then kept else pr ∷ kept

  -- The first parent revision is always there.
  unfoldable pub prune_parent_revisions : P → List P → List P
  prune_parent_revisions latest rest = latest ∷ keep_claiming rest

module _ (nested : Nested) where
  -- A missing field and one that is nil are left out of the patch.
  abbrev copy_field : Object → Object → String → Object
  copy_field src dest path = elim (nested.get_nested_field src (split b'.' path)) [
    | null ↦ dest
    | value ↦ nested.set_nested_field dest value (split b'.' path)
  ]

  unfoldable pub apply_patch : Object → Object → List String → Object
  apply_patch dest patch [] = dest
  apply_patch dest patch (path ∷ paths) = apply_patch (copy_field patch dest path) patch paths

  unfoldable pub copy_fields : Object → List String → Object → Object
  copy_fields src [] patch = patch
  copy_fields src (path ∷ paths) patch = copy_fields src paths (copy_field src patch path)

  unfoldable pub make_patch : Object → List String → Object
  make_patch src paths = copy_fields src paths []

unfoldable pub claim_map_key : String → String → String
claim_map_key api_group kind = append kind (append "." api_group)

-- childClaimMap: the parent revision that claims a child.
module _ {P : Type 0} where
  unfoldable pub get_kind : String → String → Dict (Dict P) → Option (Dict P)
  get_kind api_group kind m = lookup (claim_map_key api_group kind) m

  unfoldable pub set_parent_revision : String → String → String → P → Dict (Dict P) → Dict (Dict P)
  set_parent_revision api_group kind name pr m =
      insert (claim_map_key api_group kind)
        (insert name pr (entries (lookup (claim_map_key api_group kind) m))) m

-- ===== src/Registry/Keys.antt =====
-- The keys of the registry, as they are made and read.
use Prim.Native.String.{◌++◌ as append}
use Prim.Native.String.append.{nil as append_nil, cons as append_cons}
use metac.Prelude.{String, false, ◌≡◌, sym, ap, ◌∙◌, Option, none, some}
use metac.Prelude.Text.{split_once, has_byte, split_once-concat, split_once-none}
use metac.Registry.{
  kind_first, group_first, make_key_from_api_version_kind, parse_key_to_api_version_kind,
  parse_api_version_to_group_version,
}

dot_first : (s : String) → split_once b'.' (append "." s) ≡ ("", some s)
unfolding split_once
dot_first s = rw (append_cons "." "" s, append_nil s)

slash_first : (s : String) → split_once b'/' (append "/" s) ≡ ("", some s)
unfolding split_once
slash_first s = rw (append_cons "/" "" s, append_nil s)

-- A key is read back as the API version and the kind that it was made of, if the kind has no dot.
pub parse-make_key :
    (api_version kind : String)
    → has_byte b'.' kind ≡ false
    → parse_key_to_api_version_kind (make_key_from_api_version_kind api_version kind)
      ≡ some (api_version, kind)
unfolding parse_key_to_api_version_kind make_key_from_api_version_kind
parse-make_key api_version kind h =
    ap kind_first
      (split_once-concat b'.' kind (append "." api_version) api_version h (dot_first api_version))

-- The group and version of an API version: the text before the first slash and the one after it, or,
-- without a slash, the core group and the whole text.
pub parse_api_version-cases :
    (group version : String)
    → has_byte b'/' group ≡ false
    → (parse_api_version_to_group_version (append group (append "/" version)) ≡ (group, version))
      × (parse_api_version_to_group_version group ≡ ("", group))
unfolding parse_api_version_to_group_version
parse_api_version-cases group version h = (
  ap group_first
      (split_once-concat b'/' group (append "/" version) version h (slash_first version)),
  ap group_first (split_once-none b'/' group h),
)

-- Keys of kinds without dots are different if a kind or a version is.
pub make_key-injective :
    (v w k l : String)
    → has_byte b'.' k ≡ false
    → has_byte b'.' l ≡ false
    → make_key_from_api_version_kind v k ≡ make_key_from_api_version_kind w l
    → (v ≡ w) × (k ≡ l)
make_key-injective v w k l hk hl e =
    let both : some (v, k) ≡ some (w, l) =
      sym (parse-make_key v k hk) ∙ ap parse_key_to_api_version_kind e ∙ parse-make_key w l hl in
    (ap (λ p. (pair p).0) both, ap (λ p. (pair p).1) both)
  where
    pair : Option (String × String) → String × String
    pair none = (v, k)
    pair (some p) = p

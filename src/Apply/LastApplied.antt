-- ===== src/Apply/LastApplied.antt =====
-- dynamic/apply/apply.go, the last applied state, which an annotation stores as JSON.
use metac.Prelude.{
  String, false, ◌≡◌, Option, none, some, [], ◌∷◌, lookup, insert, ◌==◌, lookup-insert,
  if◌then◌else◌,
}
use metac.Prelude.Results.{Result, ok, ◌>>=◌, >>=-eq-ok, ok-injective}
use metac.Value.{entries}
use metac.Api.{ApiError, Object, Api, ApiLaws, Json}

abbrev pub last_applied_annotation : String
last_applied_annotation = "metac.openebs.io/last-applied-configuration"

abbrev pub text_or_empty : Option String → String
text_or_empty none = ""
text_or_empty (some s) = s

module _ (api : Api) (json : Json) where
  unfoldable pub set_last_applied_by_ann_key : Object → Object → String → Result ApiError Object
  set_last_applied_by_ann_key obj [] key = ok obj
  set_last_applied_by_ann_key obj (e ∷ last) key = do
    text ← json.marshal (e ∷ last)
    ok (api.set_annotations obj (insert key text (entries (api.get_annotations obj))))

  unfoldable pub set_last_applied : Object → Object → Result ApiError Object
  set_last_applied obj last = set_last_applied_by_ann_key obj last last_applied_annotation

  -- The decoded state; `none` is the nil map of an object that has none.
  unfoldable pub get_last_applied_by_ann_key : Object → String → Result ApiError (Option Object)
  get_last_applied_by_ann_key obj key =
      let text = text_or_empty (lookup key (entries (api.get_annotations obj))) in
      if text == "" then ok none else do last ← json.unmarshal text; ok (some last)

  unfoldable pub get_last_applied : Object → Result ApiError (Option Object)
  get_last_applied obj = get_last_applied_by_ann_key obj last_applied_annotation

  unfoldable pub sanitize_last_applied_by_ann_key : Object → String → Object
  sanitize_last_applied_by_ann_key [] key = []
  sanitize_last_applied_by_ann_key (e ∷ last) key =
      api.remove_nested_field (e ∷ last) ("metadata" ∷ "annotations" ∷ key ∷ [])

module _ (api : Api) (json : Json) (laws : ApiLaws api) where
  -- Storing one key's state leaves every other annotation as it was.
  pub set_last_applied-other :
      (obj last : Object) (key other : String) {obj' : Object}
      → set_last_applied_by_ann_key api json obj last key ≡ ok obj'
      → (key == other) ≡ false
      → lookup other (entries (api.get_annotations obj'))
        ≡ lookup other (entries (api.get_annotations obj))
  unfolding set_last_applied_by_ann_key
  set_last_applied-other obj [] key other h ne = rw (← ok-injective h)
  set_last_applied-other obj (e ∷ last) key other {obj' = obj'} h ne =
      let (text, p, q) = >>=-eq-ok (json.marshal (e ∷ last)) _ h in
      rw (← ok-injective q, laws.get-set_annotations, lookup-insert, ne)

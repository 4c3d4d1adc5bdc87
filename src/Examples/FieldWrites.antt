-- ===== src/Examples/FieldWrites.antt =====
-- Calls that set and remove fields of the metadata and the status, and their laws.
use metac.Prelude.{
  String, false, ◌≡◌, refl, sym, ap, ◌∙◌, Option, none, some, List, [], ◌∷◌, Dict, lookup, insert,
  remove, lookup-insert, lookup-remove, if◌then◌else◌, ◌==◌,
}
use metac.Prelude.Results.{ok, ok-injective}
use metac.Value.{Value, obj, object, entries, to_dict-of_dict}
use metac.Api.{Object, Api}
use metac.Manage.Reverting.{
  Place, meta_field, status_field, path_of, same_place, field_at, FieldLaws,
}
use metac.Examples.{at, fields_at, small_api, of_strings}

abbrev fields_in : String → Object → Object
fields_in k o = entries (fields_at (lookup k o))

abbrev set_path : Object → Value → List String → Object
set_path o v [] = o
set_path o v (k ∷ []) = insert k v o
set_path o v (k ∷ j ∷ path) = insert k (object (insert j v (fields_in k o))) o

abbrev remove_path : Object → List String → Object
remove_path o [] = o
remove_path o (k ∷ []) = remove k o
remove_path o (k ∷ j ∷ path) = insert k (object (remove j (fields_in k o))) o

-- The same library, whose calls set and remove fields.
abbrev pub field_api : Api
field_api = record small_api {
  set_nested_field = λ o v path. ok (set_path o v path);
  remove_nested_field = λ o path. remove_path o path;
}

at_field : (o : Object) (k j : String) → at (lookup k o) (j ∷ []) ≡ lookup j (fields_in k o)
at_field o k j = go (lookup k o)
  where
    go : (v : Option Value) → at v (j ∷ []) ≡ lookup j (entries (fields_at v))
    go none = unfold lookup in refl
    go (some (obj fs)) = refl
    go (some _) = unfold lookup in refl

at_meta :
    (o : Object) (b : String)
    → field_at field_api o (meta_field b) ≡ lookup b (fields_in "metadata" o)
at_meta o b =
    ap (λ m. at (lookup "metadata" m) (b ∷ [])) (to_dict-of_dict o) ∙ at_field o "metadata" b

at_status : (o : Object) → field_at field_api o status_field ≡ lookup "status" o
at_status o = ap (λ m. lookup "status" m) (to_dict-of_dict o)

fields_in-insert : (m o : Object) → fields_in "metadata" (insert "metadata" (object m) o) ≡ m
fields_in-insert m o = rw lookup-insert (to_dict-of_dict m)

fields_in-insert_ne :
    (k : String) (v : Value) (o : Object)
    → (k == "metadata") ≡ false
    → fields_in "metadata" (insert k v o) ≡ fields_in "metadata" o
fields_in-insert_ne k v o h = rw (lookup-insert, h)

fields_in-remove_ne :
    (k : String) (o : Object)
    → (k == "metadata") ≡ false
    → fields_in "metadata" (remove k o) ≡ fields_in "metadata" o
fields_in-remove_ne k o h = rw (lookup-remove, h)

set_lem :
    (o : Object) (v : Value) (p q : Place)
    → field_at field_api (set_path o v (path_of p)) q
      ≡ (if same_place p q then some v else field_at field_api o q)
set_lem o v (meta_field a) (meta_field b) =
    at_meta (set_path o v (path_of (meta_field a))) b
    ∙ ap (lookup b) (fields_in-insert (insert a v (fields_in "metadata" o)) o)
    ∙ lookup-insert a b v (fields_in "metadata" o)
    ∙ ap (λ x. if a == b then some v else x) (sym (at_meta o b))
set_lem o v (meta_field a) status_field =
    at_status (set_path o v (path_of (meta_field a))) ∙ rw lookup-insert (sym (at_status o))
set_lem o v status_field (meta_field b) =
    at_meta (insert "status" v o) b
    ∙ ap (lookup b) (fields_in-insert_ne "status" v o refl)
    ∙ sym (at_meta o b)
set_lem o v status_field status_field = at_status (insert "status" v o) ∙ rw lookup-insert

remove_lem :
    (o : Object) (p q : Place)
    → field_at field_api (remove_path o (path_of p)) q
      ≡ (if same_place p q then none else field_at field_api o q)
remove_lem o (meta_field a) (meta_field b) =
    at_meta (remove_path o (path_of (meta_field a))) b
    ∙ ap (lookup b) (fields_in-insert (remove a (fields_in "metadata" o)) o)
    ∙ lookup-remove a b (fields_in "metadata" o)
    ∙ ap (λ x. if a == b then none else x) (sym (at_meta o b))
remove_lem o (meta_field a) status_field =
    at_status (remove_path o (path_of (meta_field a))) ∙ rw lookup-insert (sym (at_status o))
remove_lem o status_field (meta_field b) =
    at_meta (remove "status" o) b
    ∙ ap (lookup b) (fields_in-remove_ne "status" o refl)
    ∙ sym (at_meta o b)
remove_lem o status_field status_field = at_status (remove "status" o) ∙ rw lookup-remove

annotate_lem :
    (o : Object) (a : Dict String) (q : Place)
    → field_at field_api (field_api.set_annotations o a) q ≡ field_at field_api o q
annotate_lem o a (meta_field b) =
    at_meta (field_api.set_annotations o a) b
    ∙ ap (lookup b) (fields_in-insert_ne "annotations" (obj (of_strings a)) o refl)
    ∙ sym (at_meta o b)
annotate_lem o a status_field =
    at_status (field_api.set_annotations o a) ∙ rw lookup-insert (sym (at_status o))

pub field_api_laws : FieldLaws field_api
field_api_laws = record {
  set_at =
      λ o new v p q e. ap (λ x. field_at field_api x q) (sym (ok-injective e)) ∙ set_lem o v p q;
  remove_at = λ o p q. remove_lem o p q;
  annotate_at = λ o a q n. annotate_lem o a q;
}

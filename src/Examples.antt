-- ===== src/Examples.antt =====
-- A library, a codec and a server for concrete runs, which satisfy the laws that are assumed of them.
mod Merging
mod Objects
mod RollingOut
mod FieldWrites
mod Managing
mod Selecting
mod Attaching
mod Watching
mod Reconciling
mod Sharing
mod Discovering
mod Moving
mod Composing
use metac.Prelude.{
  String, Bool, true, false, not, ◌&&◌, ◌≡◌, refl, sym, ap, ◌∙◌, Option, none, some, List, [], ◌∷◌,
  Dict, lookup, insert, lookup-insert, eq_refl, eq_iff, arith, inl, inr, Bool-cases, if◌then◌else◌,
  ◌==◌,
}
use metac.Prelude.Int.{ℤ, pos}
use metac.Prelude.Results.{Result, ok, err, ok-injective}
use metac.Value.{
  Value, null, str, arr, nil_arr, obj, Items, nil, cons, Fields, end, field, to_list, of_list,
  to_dict, of_dict, object, or_null, to_dict-of_dict, to_list-of_list,
}
use metac.Api.{ApiError, other_error, Object, Api, ApiLaws, Json, Nested, NestedLaws}
use metac.Object.Status.{is_text}
use metac.Client.{Call, Server}
use metac.Client.Finalizing.{ServerLaws}
use metac.Selector.Labels.{LabelSelectorRequirement, LabelSelector, meet_all, Labels, LabelsLaws}

abbrev pub at : Option Value → List String → Option Value
at v [] = v
at none (k ∷ path) = none
at (some (obj fs)) (k ∷ path) = at (lookup k (to_dict fs)) path
at (some _) (k ∷ path) = none

abbrev pub fields_at : Option Value → Option Object
fields_at (some (obj fs)) = some (to_dict fs)
fields_at _ = none

abbrev pub items_at : Option Value → Option (List Value)
items_at (some (arr xs)) = some (to_list xs)
items_at _ = none

abbrev pub text_of : Value → String
text_of (str s) = s
text_of _ = ""

abbrev pub string_at : Option Value → Result ApiError (Option String)
string_at none = ok none
string_at (some (str s)) = ok (some s)
string_at (some _) = err other_error

abbrev pub texts_of : Items → List String
texts_of nil = []
texts_of (cons v xs) = text_of v ∷ texts_of xs

abbrev pub of_texts : List String → Items
of_texts [] = nil
of_texts (s ∷ ss) = cons (str s) (of_texts ss)

abbrev pub string_fields : Fields → Dict String
string_fields end = []
string_fields (field k v fs) = (k, text_of v) ∷ string_fields fs

abbrev pub of_strings : Dict String → Fields
of_strings [] = end
of_strings ((k, s) ∷ m) = field k (str s) (of_strings m)

texts_of-of_texts : (ss : List String) → texts_of (of_texts ss) ≡ ss
texts_of-of_texts [] = refl
texts_of-of_texts (s ∷ ss) = ap (◌∷◌ s) (texts_of-of_texts ss)

string_fields-of_strings : (m : Dict String) → string_fields (of_strings m) ≡ m
string_fields-of_strings [] = refl
string_fields-of_strings ((k, s) ∷ m) = ap (◌∷◌ (k, s)) (string_fields-of_strings m)

abbrev pub strings_at : Option Value → Option (Dict String)
strings_at (some (obj fs)) = some (string_fields fs)
strings_at _ = none

abbrev pub list_at : Option Value → List String
list_at (some (arr xs)) = texts_of xs
list_at _ = []

abbrev pub dict_or_empty : Option (Dict String) → Dict String
dict_or_empty none = []
dict_or_empty (some m) = m

abbrev pub text_or_none : Option Value → Option String
text_or_none (some (str s)) = some s
text_or_none _ = none

abbrev pub text_or_empty : Option Value → String
text_or_empty (some (str s)) = s
text_or_empty _ = ""

-- The metadata stands at the top of the objects here.
abbrev pub small_api : Api
small_api = record {
  nested_field = λ o path. ok (at (some (object o)) path);
  nested_string = λ o path. string_at (at (some (object o)) path);
  nested_string_slice = λ o path. ok (some (list_at (at (some (object o)) path)));
  set_nested_field = λ o v path. ok o;
  remove_nested_field = λ o path. o;
  get_annotations = λ o. strings_at (lookup "annotations" o);
  set_annotations = λ o a. insert "annotations" (obj (of_strings a)) o;
  get_labels = λ o. dict_or_empty (strings_at (lookup "labels" o));
  get_finalizers = λ o. list_at (lookup "finalizers" o);
  set_finalizers = λ o f. insert "finalizers" (arr (of_texts f)) o;
  finalizer_delete_dependents = "foregroundDeletion";
  finalizer_orphan_dependents = "orphan";
  get_deletion_timestamp = λ o. text_or_none (lookup "deletionTimestamp" o);
  get_api_version = λ o. text_or_empty (lookup "apiVersion" o);
  get_kind = λ o. text_or_empty (lookup "kind" o);
  get_namespace = λ o. text_or_empty (lookup "namespace" o);
  get_name = λ o. text_or_empty (lookup "name" o);
  get_uid = λ o. text_or_empty (lookup "uid" o);
}

pub small_api_laws : ApiLaws small_api
small_api_laws = record {
  get-set_annotations = λ o a. rw (
    lookup-insert "annotations" "annotations" (obj (of_strings a)) o,
    string_fields-of_strings a,
  );
  get-set_finalizers =
      λ o f. rw (lookup-insert "finalizers" "finalizers" (arr (of_texts f)) o, texts_of-of_texts f);
}

abbrev pub small_nested : Nested
small_nested = record {
  get_nested_array = λ o path. items_at (at (some (object o)) path);
  get_nested_object = λ o path. fields_at (at (some (object o)) path);
  get_nested_field = λ o path. or_null (at (some (object o)) path);
  get_nested_int64 = λ o path. pos 0;
  set_nested_field = λ o v path. elim path [ [] ↦ o | k ∷ _ ↦ insert k v o ];
}

pub small_nested_laws : NestedLaws small_nested
small_nested_laws = record {
  array-set = λ o xs k. rw (
    to_dict-of_dict (insert k (arr (of_list xs)) o),
    lookup-insert,
    eq_refl k,
    to_list-of_list xs,
  );
  object-set = λ o m k.
      rw (to_dict-of_dict (insert k (object m) o), lookup-insert, eq_refl k, to_dict-of_dict m);
  array-path = λ o m k rest h. sub_path o m k rest h;
}
  where
    sub_path :
        (o m : Object) (k rest : String)
        → fields_at (at (some (object o)) (k ∷ [])) ≡ some m
        → items_at (at (some (object o)) (k ∷ rest ∷ []))
          ≡ items_at (at (some (object m)) (rest ∷ []))
    sub_path o m k rest h = go (lookup k (to_dict (of_dict o))) h
      where
        go :
            (v : Option Value)
            → fields_at v ≡ some m
            → items_at (at v (rest ∷ [])) ≡ items_at (at (some (object m)) (rest ∷ []))
        go none h = cc
        go (some (obj fs)) h = let e : to_dict fs ≡ m = cc in rw (to_dict-of_dict m, e)
        go (some _) h = cc

-- Objects of one field, which is a text, have a text form.
abbrev pub small_json : Json
small_json = record {
  marshal = λ o. elim o [
    | (k, str s) ∷ [] ↦ (if k == "replicas" then ok (String.◌∷◌ "=" s) else err other_error)
    | _ ↦ err other_error
  ];
  unmarshal = λ s. elim s [
    | String.[] ↦ err other_error
    | String.◌∷◌ c rest ↦ ok (("replicas", str rest) ∷ [])
  ];
}

abbrev pub keeping : {A : Type 0} → A → Object → Result ApiError A × Object
keeping a s = (ok a, s)

-- A server of one object, whose calls do not fail.
abbrev pub small_server : Server Object
small_server = record {
  get = λ name s. (ok s, s);
  update = λ o s. (ok o, o);
  update_status = λ o s. (ok o, s);
  retry_on_conflict = λ call. call;
}

pub small_server_laws : ServerLaws small_api small_server
small_server_laws = record {
  retried = λ Q call h. h;
  first_try = λ call s o t h. h;
  update-get_finalizers = λ o s o' e. ap small_api.get_finalizers (sym (ok-injective e));
}

abbrev pub labels_met : Dict String → Dict String → Bool
labels_met [] l = true
labels_met ((k, v) ∷ m) l = is_text v (lookup k l) && labels_met m l

abbrev pub small_labels : Labels
small_labels = record {
  as_selector = λ sel. ok (λ l. labels_met sel.match_labels l && meet_all sel.match_expressions l);
  is_qualified_name = λ s. [];
  is_valid_label_value = λ s. [];
}

pub small_labels_laws : LabelsLaws small_labels
small_labels_laws = record { expressions_only = λ rs f h e l. ap (λ g. g l) (sym (ok-injective e)) }

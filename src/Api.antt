-- ===== src/Api.antt =====
-- What the program calls of k8s.io/apimachinery, client-go and encoding/json on the content of an
-- object. The content is a map; a call that changes it returns the new content.
use metac.Prelude.{String, ◌≡◌, Option, some, List, [], ◌∷◌, Dict}
use metac.Prelude.Results.{Result}
use metac.Prelude.Int.{ℤ}
use metac.Value.{Value, arr, of_list, object}

-- The kinds of API errors that the program tells apart.
pub data ApiError : Type 0 where
  not_found gone conflict other_error : ApiError

-- The content of an *unstructured.Unstructured
abbrev pub Object : Type 0
Object = Dict Value

pub record Api : Type 0 where
  pub nested_field : Object → List String → Result ApiError (Option Value)
  pub nested_string : Object → List String → Result ApiError (Option String)
  pub nested_string_slice : Object → List String → Result ApiError (Option (List String))
  pub set_nested_field : Object → Value → List String → Result ApiError Object
  pub remove_nested_field : Object → List String → Object
  pub get_annotations : Object → Option (Dict String)
  pub set_annotations : Object → Dict String → Object
  pub get_labels : Object → Dict String
  pub get_finalizers : Object → List String
  pub set_finalizers : Object → List String → Object
  -- metav1.FinalizerDeleteDependents, metav1.FinalizerOrphanDependents
  pub finalizer_delete_dependents : String
  pub finalizer_orphan_dependents : String
  pub get_deletion_timestamp : Object → Option String
  pub get_api_version : Object → String
  pub get_kind : Object → String
  pub get_namespace : Object → String
  pub get_name : Object → String
  pub get_uid : Object → String

-- What the getters return after the setters.
pub record ApiLaws (api : Api) : Type 0 where
  pub get-set_annotations :
      (o : Object) (a : Dict String) → api.get_annotations (api.set_annotations o a) ≡ some a
  pub get-set_finalizers :
      (o : Object) (f : List String) → api.get_finalizers (api.set_finalizers o f) ≡ f

-- encoding/json on a map
pub record Json : Type 0 where
  pub marshal : Object → Result ApiError String
  pub unmarshal : String → Result ApiError Object

-- The helpers of third_party/kubernetes/unstructured.go, a copy of apimachinery's. `none` is nil.
pub record Nested : Type 0 where
  pub get_nested_array : Object → List String → Option (List Value)
  pub get_nested_object : Object → List String → Option Object
  pub get_nested_field : Object → List String → Value
  pub get_nested_int64 : Object → List String → ℤ
  pub set_nested_field : Object → Value → List String → Object

pub record NestedLaws (nested : Nested) : Type 0 where
  pub array-set :
      (o : Object) (xs : List Value) (field : String)
      → nested.get_nested_array
          (nested.set_nested_field o (arr (of_list xs)) (field ∷ []))
          (field ∷ [])
        ≡ some xs
  pub object-set :
      (o m : Object) (field : String)
      → nested.get_nested_object (nested.set_nested_field o (object m) (field ∷ [])) (field ∷ [])
        ≡ some m
  pub array-path :
      (o m : Object) (field rest : String)
      → nested.get_nested_object o (field ∷ []) ≡ some m
      → nested.get_nested_array o (field ∷ rest ∷ []) ≡ nested.get_nested_array m (rest ∷ [])

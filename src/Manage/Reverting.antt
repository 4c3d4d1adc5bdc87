-- ===== src/Manage/Reverting.antt =====
-- The fields of a merged child that its merge reverts: the system fields of its metadata, and status.
use metac.Prelude.{
  String, Bool, true, false, ◌≡◌, refl, sym, ap, ◌∙◌, inl, inr, Option, some, none, List, [], ◌∷◌,
  contains, insert, ◌==◌, if◌then◌else◌, Bool-cases, arith, eq_iff,
}
use mathlib.Core.Path.{subst}
use metac.Prelude.Results.{Result, ok, err, ◌>>=◌, >>=-eq-ok, ok-injective}
use metac.Value.{Value, entries}
use metac.Api.{ApiError, Object, Api, Json}
use metac.Apply.{merge_objects}
use metac.Apply.LastApplied.{
  set_last_applied, set_last_applied_by_ann_key, get_last_applied, last_applied_annotation,
}
use metac.Manage.{
  of_api, of_merge, object_meta_system_fields, value_or, revert_field, revert_fields,
  revert_object_meta_system_fields, apply_merge,
}

-- A field of the metadata, or the status.
pub data Place : Type 0 where
  meta_field : String → Place
  status_field : Place

abbrev pub path_of : Place → List String
path_of (meta_field name) = "metadata" ∷ name ∷ []
path_of status_field = "status" ∷ []

abbrev pub same_place : Place → Place → Bool
same_place (meta_field a) (meta_field b) = a == b
same_place status_field status_field = true
same_place _ _ = false

abbrev found : Result ApiError (Option Value) → Option Value
found (err e) = none
found (ok v) = v

abbrev pub field_at : Api → Object → Place → Option Value
field_at api o p = found (api.nested_field o (path_of p))

-- What is relied on of the calls that set and remove a field: each touches its own field alone.
pub record FieldLaws (api : Api) : Type 0 where
  pub set_at :
      (o new : Object) (v : Value) (p q : Place)
      → api.set_nested_field o v (path_of p) ≡ ok new
      → field_at api new q ≡ (if same_place p q then some v else field_at api o q)
  pub remove_at :
      (o : Object) (p q : Place)
      → field_at api (api.remove_nested_field o (path_of p)) q
        ≡ (if same_place p q then none else field_at api o q)
  pub annotate_at :
      (o : Object) (a : List (String × String)) (q : Place)
      → same_place (meta_field "annotations") q ≡ false
      → field_at api (api.set_annotations o a) q ≡ field_at api o q

same_place-eq : (p q : Place) → same_place p q ≡ true → p ≡ q
same_place-eq (meta_field a) (meta_field b) h = ap meta_field ((eq_iff a b).0 h)
same_place-eq status_field status_field h = refl
same_place-eq (meta_field a) status_field h = cc
same_place-eq status_field (meta_field b) h = cc

annotations_differ :
    (a : String) → contains a object_meta_system_fields ≡ true → ("annotations" == a) ≡ false
unfolding contains
annotations_differ a k = elim (Bool-cases ("annotations" == a)) [
  | inr other ↦ other
  | inl same ↦
      let name : "annotations" ≡ a = (eq_iff "annotations" a).0 same in
      let listed : false ≡ true =
        subst (λ x. contains x object_meta_system_fields ≡ true) (sym name) k in
      absurd (cc (listed))
]

module _ (api : Api) (json : Json) (laws : FieldLaws api) where
  at_revert_field :
      (new orig r : Object) (p q : Place)
      → revert_field api json new orig (path_of p) ≡ ok r
      → field_at api r q ≡ (if same_place p q then field_at api orig q else field_at api new q)
  unfolding revert_field
  at_revert_field new orig r p q e = go (api.nested_field orig (path_of p)) refl e
    where
      here :
          (o : Option Value)
          → field_at api orig p ≡ o
          → (if same_place p q then o else field_at api new q)
            ≡ (if same_place p q then field_at api orig q else field_at api new q)
      here o h = elim (Bool-cases (same_place p q)) [
        | inl same ↦ rw same (sym h ∙ ap (field_at api orig) (same_place-eq p q same))
        | inr other ↦ rw other
      ]

      go :
          (f : Result ApiError (Option Value))
          → api.nested_field orig (path_of p) ≡ f
          → (elim f [
            | err e ↦ err e
            | ok none ↦ ok (api.remove_nested_field new (path_of p))
            | ok (some value) ↦ api.set_nested_field new value (path_of p)
          ])
            ≡ ok r
          → field_at api r q ≡ (if same_place p q then field_at api orig q else field_at api new q)
      go (err x) h e = cc
      go (ok none) h e =
          ap (λ o. field_at api o q) (sym (ok-injective e))
          ∙ laws.remove_at new p q
          ∙ here none (ap found h)
      go (ok (some v)) h e = laws.set_at new r v p q e ∙ here (some v) (ap found h)

  abbrev pub is_reverted : List String → Place → Bool
  is_reverted names status_field = false
  is_reverted names (meta_field a) = contains a names

  at_revert_fields :
      (names : List String) (new orig r : Object) (q : Place)
      → revert_fields api json new orig names ≡ ok r
      → field_at api r q ≡ (if is_reverted names q then field_at api orig q else field_at api new q)
  unfolding revert_fields contains
  at_revert_fields [] new orig r status_field e =
      ap (λ o. field_at api o status_field) (sym (ok-injective e))
  at_revert_fields [] new orig r (meta_field a) e =
      ap (λ o. field_at api o (meta_field a)) (sym (ok-injective e))
  at_revert_fields (n ∷ names) new orig r q e =
      let (mid, a, b) = >>=-eq-ok (revert_field api json new orig ("metadata" ∷ n ∷ [])) _ e in
      let first = at_revert_field new orig mid (meta_field n) q a in
      let rest = at_revert_fields names mid orig r q b in rest ∙ combine mid q first
    where
      combine :
          (mid : Object) (q : Place)
          → field_at api mid q
            ≡ (if same_place (meta_field n) q then field_at api orig q else field_at api new q)
          → (if is_reverted names q then field_at api orig q else field_at api mid q)
            ≡ (if is_reverted (n ∷ names) q then field_at api orig q else field_at api new q)
      combine mid status_field h = h
      combine mid (meta_field a) h = ground arith

  -- The fields that a merge keeps as they were observed.
  abbrev pub is_kept : Place → Bool
  is_kept status_field = true
  is_kept (meta_field a) = contains a object_meta_system_fields

  at_set_last_applied :
      (o last : Object) (q : Place)
      → same_place (meta_field "annotations") q ≡ false
      → field_at api (value_or o (set_last_applied api json o last)) q ≡ field_at api o q
  unfolding set_last_applied set_last_applied_by_ann_key
  at_set_last_applied o [] q n = refl
  at_set_last_applied o (e ∷ last) q n = go (json.marshal (e ∷ last))
    where
      go :
          (r : Result ApiError String)
          → field_at api
              (value_or o (
                r >>= λ text. ok (
                  api.set_annotations o
                    (insert last_applied_annotation text (entries (api.get_annotations o))))))
              q
            ≡ field_at api o q
      go (err x) = refl
      go (ok text) = laws.annotate_at o _ q n

  of_api-eq : {A : Type 0} (r : Result ApiError A) {a : A} → of_api r ≡ ok a → r ≡ ok a
  of_api-eq (ok b) h = cc
  of_api-eq (err e) h = cc

  -- A merged child has the observed system fields of its metadata and the observed status, each with
  -- the observed value or, where none is observed, absent; whatever is desired.
  pub apply_merge-field_at :
      (observed desired m : Object) (q : Place)
      → apply_merge api json observed desired ≡ ok m
      → is_kept q ≡ true
      → field_at api m q ≡ field_at api observed q
  unfolding apply_merge revert_object_meta_system_fields
  apply_merge-field_at observed desired m q e k =
      let (last, _, e₁) = >>=-eq-ok (of_api (get_last_applied api json observed)) _ e in
      let (merged, _, e₂) =
        >>=-eq-ok (of_merge (merge_objects observed (entries last) desired)) _ e₁ in
      let (reverted, r, e₃) =
        >>=-eq-ok (of_api (revert_fields api json merged observed object_meta_system_fields)) _
          e₂ in
      let (final, f, e₄) =
        >>=-eq-ok (of_api (revert_field api json reverted observed ("status" ∷ []))) _ e₃ in
      let done : value_or final (set_last_applied api json final desired) ≡ m = ok-injective e₄ in
      ap (λ o. field_at api o q) (sym done)
      ∙ at_set_last_applied final desired q (not_annotations q k)
      ∙ at_revert_field reverted observed final status_field q (of_api-eq _ f)
      ∙ finish q reverted merged k
          (at_revert_fields object_meta_system_fields merged observed reverted q (of_api-eq _ r))
    where
      finish :
          (q : Place) (reverted merged : Object)
          → is_kept q ≡ true
          → field_at api reverted q ≡ (
              if is_reverted object_meta_system_fields q
              then field_at api observed q
              else field_at api merged q)
          → (if same_place status_field q then field_at api observed q else field_at api reverted q)
            ≡ field_at api observed q
      finish status_field reverted merged k h = refl
      finish (meta_field a) reverted merged k h = h ∙ rw k

      not_annotations :
          (q : Place) → is_kept q ≡ true → same_place (meta_field "annotations") q ≡ false
      not_annotations status_field k = refl
      not_annotations (meta_field a) k = annotations_differ a k

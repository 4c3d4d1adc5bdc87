-- ===== src/Apply/Stable.antt =====
-- A second merge, with what was desired as the last applied state.
use metac.Prelude.{
  ℕ, zero, suc, ◌<◌, String, ◌≡◌, refl, sym, ap, ◌∙◌, none, some, [], Dict, Distinct, lookup, inl,
  inr, arith, ◌==◌, Bool-cases, eq_iff,
}
use mathlib.Core.Path.{subst₂}
use metac.Prelude.Results.{ok, >>=-eq-ok, ok-injective}
use metac.Value.{
  Value, null, bool, int, float, str, nil_arr, arr, obj, Items, Fields, end, field, to_list,
  of_dict, to_dict, object, array, as_map, entries, or_null, to_dict-of_dict, of_dict-to_dict,
}
use metac.Value.Depth.{depth, to_dict-DictWithin, lookup-DictWithin}
use metac.Apply.{
  Merger, delete_unwanted, merge_entries, merge_map, expect, merge_step, merge, merge_objects,
  bad_last_applied, bad_desired,
}
use metac.Apply.Total.{expect_map}
use metac.Apply.Fields.{lookup-merge_map}
use metac.Apply.Plain.{
  NotMap, IsScalarList, Plain, PlainFields-lookup, obj_step, arr_step, merge_refl,
}

abbrev pub NotArray : Value → Type 0
NotArray (arr xs) = ⊥
NotArray nil_arr = ⊥
NotArray _ = Unit

abbrev pub fields_of : Value → Dict Value
fields_of (obj fs) = to_dict fs
fields_of _ = []

-- Where a list is observed, no map and no scalar is desired.
unfoldable mutual
  pub SameShape : Value → Value → Type 0
  SameShape o (obj fs) = NotArray o × FieldsShape (fields_of o) fs
  SameShape o (arr xs) = Unit
  SameShape o _ = NotArray o

  pub FieldsShape : Dict Value → Fields → Type 0
  FieldsShape os end = Unit
  FieldsShape os (field k v fs) = SameShape (or_null (lookup k os)) v × FieldsShape os fs

FieldsShape-lookup :
    (os : Dict Value) (k : String) (fs : Fields) {v : Value}
    → FieldsShape os fs
    → lookup k (to_dict fs) ≡ some v
    → SameShape (or_null (lookup k os)) v
unfolding lookup SameShape
FieldsShape-lookup os k end p e = absurd (cc)
FieldsShape-lookup os k (field j w fs) {v = v} p e = elim (Bool-cases (j == k)) [
  | inl same ↦
      subst₂ (λ i x. SameShape (or_null (lookup i os)) x) ((eq_iff j k).0 same) (ground arith) p.0
  | inr other ↦ FieldsShape-lookup os k fs {v = v} p.1 (rw other at e)
]

-- A merge that gave `m` gives it again, from `m` itself.
abbrev pub IsStable : ℕ → Value → Value → Value → Type 0
IsStable n observed last desired =
    (m : Value) → merge n observed last desired ≡ ok m → merge n m desired desired ≡ ok m

module _ (n : ℕ) (observed : Fields) (last : Dict Value) (desired : Fields) where
  stable_obj :
      Distinct (to_dict desired)
      → ((k : String) (v : Value)
          → lookup k (to_dict desired) ≡ some v
          → IsStable n (or_null (lookup k (to_dict observed))) (or_null (lookup k last)) v)
      → (m : Dict Value) → merge_map (merge n) (to_dict observed) last (to_dict desired) ≡ ok m
      → merge_step (merge n) (object m) (obj desired) (obj desired) ≡ ok (object m)
  stable_obj d ih m e = obj_step (merge n) (of_dict m) desired d λ k v l.
      let (u, p, q) =
        lookup-merge_map (merge n) last k (to_dict observed) (to_dict desired) {m = m} {v = v} d l
          e in
      (u, rw (to_dict-of_dict m) q, rw l (ih k v l u p))

-- With no desired map, an observed map stays a map, and a second merge keeps it.
keep_map :
    (rec : Merger) (observed : Fields) (desired : Value)
    → (as_map desired).0 ≡ none
    → merge_step rec (obj observed) desired desired ≡ ok (obj observed)
unfolding merge_step merge_map merge_entries delete_unwanted
keep_map rec observed desired e = rw (
  expect_map desired bad_last_applied,
  expect_map desired bad_desired,
  e,
  of_dict-to_dict observed,
)

-- The merge into an observed map is a map.
merge_step_obj :
    (rec : Merger) (observed : Fields) (last desired : Value) {m : Value}
    → merge_step rec (obj observed) last desired ≡ ok m
    → (out : Dict Value) × (merge_map rec
          (to_dict observed)
          (entries (as_map last).0)
          (entries (as_map desired).0)
        ≡ ok out)
      × (object out ≡ m)
unfolding merge_step
merge_step_obj rec observed last desired {m = m} h =
    let (x, _, h') = >>=-eq-ok (expect (as_map last) bad_last_applied) _ h in
    let (y, _, h'') = >>=-eq-ok (expect (as_map desired) bad_desired) _ h' in
    let (out, p, q) =
      >>=-eq-ok
        (merge_map rec (to_dict observed) (entries (as_map last).0) (entries (as_map desired).0)) _
        h'' in
    (out, p, ground arith)

IsStable-keep :
    (n : ℕ) (observed : Fields) (last desired : Value)
    → (as_map desired).0 ≡ none
    → IsStable (suc n) (obj observed) last desired
unfolding merge
IsStable-keep n observed last desired e m h =
    let (out, _, q) = merge_step_obj (merge n) observed last desired {m = m} h in
    rw (← q) (keep_map (merge n) (of_dict out) desired e)

merge_step_scalar :
    (rec : Merger) (observed last desired : Value)
    → NotMap observed
    → NotArray observed
    → merge_step rec observed last desired ≡ ok desired
unfolding merge_step
merge_step_scalar rec (obj fs) last desired nm na = absurd nm
merge_step_scalar rec (arr xs) last desired nm na = absurd na
merge_step_scalar rec nil_arr last desired nm na = absurd na
merge_step_scalar rec _ last desired nm na = refl

-- An observed scalar is replaced, and what replaced it is kept.
IsStable-scalar :
    (n : ℕ) (observed last desired : Value)
    → Plain desired
    → depth desired < n
    → NotMap observed
    → NotArray observed
    → IsStable n observed last desired
unfolding merge
IsStable-scalar zero observed last desired p h nm na m e = elim h [ ]
IsStable-scalar (suc n) observed last desired p h nm na m e =
    let same : desired ≡ m =
      ok-injective (sym (merge_step_scalar (merge n) observed last desired nm na) ∙ e) in
    rw (← same) (merge_refl (suc n) desired p h)

IsStable-list :
    (n : ℕ) (observed last : Value) (desired : Items)
    → IsScalarList (to_list desired)
    → NotMap observed
    → IsStable (suc n) observed last (arr desired)
unfolding merge
IsStable-list n observed last desired p nm m e =
    let same : arr desired ≡ m =
      ok-injective (sym (arr_step (merge n) observed last desired nm p) ∙ e) in
    rw (← same) (arr_step (merge n) (arr desired) (arr desired) desired tt p)

IsStable-at_list :
    (n : ℕ) (observed last desired : Value)
    → (NotArray observed → ⊥)
    → NotMap observed
    → Plain desired
    → SameShape observed desired
    → IsStable (suc n) observed last desired
unfolding Plain SameShape
IsStable-at_list n observed last (obj fs) array nm p s m e = absurd (array s.0)
IsStable-at_list n observed last (arr xs) array nm p s m e =
    IsStable-list n observed last xs p nm m e
IsStable-at_list n observed last nil_arr array nm p s m e = absurd p
IsStable-at_list n observed last _ array nm p s m e = absurd (array s)

-- Let a plain value be desired, of a shape that fits what is observed. Merging it again into the
-- result, with it as the last applied state, gives the result back.
pub merge_stable :
    (n : ℕ) (observed last desired m : Value)
    → Plain desired
    → SameShape observed desired
    → depth desired < n
    → merge n observed last desired ≡ ok m
    → merge n m desired desired ≡ ok m
unfolding merge Plain SameShape depth as_map
merge_stable zero observed last desired m p s h e = elim h [ ]
merge_stable (suc n) (obj os) last (obj fs) m p s h e =
    let (out, q, r) = merge_step_obj (merge n) os last (obj fs) {m = m} e in
    rw (← r) (
      stable_obj n os (entries (as_map last).0) fs p.0
        (λ k v l x.
          merge_stable n (or_null (lookup k (to_dict os)))
            (or_null (lookup k (entries (as_map last).0))) v x
            (PlainFields-lookup k fs {v = v} p.1 l)
            (FieldsShape-lookup (to_dict os) k fs {v = v} s.1 l)
            (lookup-DictWithin n k (to_dict fs) {v = v} (to_dict-DictWithin n fs (omega arith)) l))
        out q)
merge_stable (suc n) (obj os) last (arr xs) m p s h e = IsStable-keep n os last (arr xs) refl m e
merge_stable (suc n) (obj os) last nil_arr m p s h e = absurd p
merge_stable (suc n) (obj os) last null m p s h e = IsStable-keep n os last null refl m e
merge_stable (suc n) (obj os) last (bool b) m p s h e = IsStable-keep n os last (bool b) refl m e
merge_stable (suc n) (obj os) last (int i) m p s h e = IsStable-keep n os last (int i) refl m e
merge_stable (suc n) (obj os) last (float t) m p s h e = IsStable-keep n os last (float t) refl m e
merge_stable (suc n) (obj os) last (str t) m p s h e = IsStable-keep n os last (str t) refl m e
merge_stable (suc n) (arr os) last desired m p s h e =
    IsStable-at_list n (arr os) last desired (λ x. x) tt p s m e
merge_stable (suc n) nil_arr last desired m p s h e =
    IsStable-at_list n nil_arr last desired (λ x. x) tt p s m e
merge_stable (suc n) null last desired m p s h e =
    IsStable-scalar (suc n) null last desired p h tt tt m e
merge_stable (suc n) (bool b) last desired m p s h e =
    IsStable-scalar (suc n) (bool b) last desired p h tt tt m e
merge_stable (suc n) (int i) last desired m p s h e =
    IsStable-scalar (suc n) (int i) last desired p h tt tt m e
merge_stable (suc n) (float t) last desired m p s h e =
    IsStable-scalar (suc n) (float t) last desired p h tt tt m e
merge_stable (suc n) (str t) last desired m p s h e =
    IsStable-scalar (suc n) (str t) last desired p h tt tt m e

-- Let a desired map be plain at every level, and fit what is observed. A merge with it as the last
-- applied state, of the result of a merge, gives this result back.
pub merge_objects_stable :
    (observed last desired m : Dict Value)
    → Plain (object desired)
    → SameShape (object observed) (object desired)
    → merge_objects observed last desired ≡ ok m
    → merge_objects m desired desired ≡ ok m
unfolding merge_objects as_map
merge_objects_stable observed last desired m p s e =
    let (v, a, b) = >>=-eq-ok (merge n (object observed) (object last) (object desired)) _ e in
    let (out, _, q) =
      merge_step_obj (merge (depth (object desired))) (of_dict observed) (object last)
        (object desired) {m = v} (unfold merge in a) in
    let om : out ≡ m = sym (to_dict-of_dict out) ∙ ground (arith) in
    let vm : object m ≡ v = rw om at q in
    let again : merge n (object m) (object desired) (object desired) ≡ ok (object m) =
      rw vm
        (merge_stable n (object observed) (object last) (object desired) v p s (omega arith) a) in
    rw again (ap ok (to_dict-of_dict m))
  where
    n : ℕ
    n = suc (depth (object desired))

-- ===== src/Manage/Updating.antt =====
-- Which observed children are left alone.
use metac.Prelude.{
  String, Bool, true, false, ◌||◌, ◌≡◌, refl, inl, inr, some, [], ◌∷◌, ◌++◌, Dict, lookup, ◌==◌,
  is_some, if◌then◌else◌, Bool-cases, arith,
}
use metac.Prelude.Results.{Result, ok, err}
use metac.Value.Equal.{deep_equal}
use metac.Api.{Object, Api, Json}
use metac.UpdateStrategy.{child_update_on_delete}
use metac.Manage.{
  ManageError, Owners, ChildServer, Progress, apply_merge, update_by_method, update_existing,
  update_child, namespace_of,
}

-- The merge changes nothing.
abbrev pub unchanged : Result ManageError Object → Object → Bool
unchanged (err e) old = false
unchanged (ok new) old = deep_equal new old

-- An observed child is not written to the server, whose state stays as it was, if it is pending
-- deletion, if the method is OnDelete or none, or if the merge changes nothing.
pub update_child-untouched :
    {S : Type 0} (api : Api) (json : Json) (owners : Owners) (server : ChildServer S)
    (method_of : String → String → String) (parent obj old : Object) (method name : String)
    (observed : Dict Object) (p : Progress S)
    → lookup name observed ≡ some old
    → ((is_some (api.get_deletion_timestamp old)
          || (method == child_update_on_delete || method == ""))
        || unchanged (apply_merge api json old obj) old)
      ≡ true
    → (update_child api json owners server method_of parent method observed name obj p).1 ≡ p.1
unfolding update_child update_existing update_by_method
update_child-untouched {S} api json owners server method_of parent obj old method name observed p l
      h =
    rw (l, update_child, update_existing) (go (apply_merge api json old obj) h)
  where
    go :
        (r : Result ManageError Object)
        → ((is_some (api.get_deletion_timestamp old)
              || (method == child_update_on_delete || method == ""))
            || unchanged r old)
          ≡ true
        → (◌≡◌ {A = S}
            (elim r as (λ x. Progress S) [
              | err e ↦ (p.0 ++ e ∷ [], p.1)
              | ok new ↦
                  if deep_equal new old
                  then p
                  else if is_some (api.get_deletion_timestamp old)
                  then p
                  else update_by_method api json owners server method_of method
                      (namespace_of api json owners server method_of parent obj)
                      old
                      obj
                      new
                      p
            ]).1
            p.1)
    go (err e) h = refl
    go (ok new) h = elim (Bool-cases (deep_equal new old)) [
      | inl same ↦ rw same
      | inr changed ↦ elim (Bool-cases (is_some (api.get_deletion_timestamp old))) [
        | inl pending ↦ rw (changed, pending)
        | inr live ↦
            let kept : (method == child_update_on_delete || method == "") ≡ true = ground arith in
            rw (changed, live, update_by_method, kept)
      ]
    ]

-- ===== src/Manage/Deleting.antt =====
-- Which observed children are deleted.
use metac.Prelude.{
  not, ◌&&◌, ◌≡◌, refl, inl, inr, List, [], ◌∷◌, Dict, has, is_some, if◌then◌else◌, Bool-cases,
}
use metac.Api.{Object, Api}
use metac.Manage.{ChildServer, Progress, delete_object, delete_children}

-- The observed children that are not pending deletion and not desired.
abbrev pub doomed : Api → Dict Object → Dict Object → List Object
doomed api desired [] = []
doomed api desired ((name, obj) ∷ observed) =
    if not (is_some (api.get_deletion_timestamp obj)) && not (has name desired)
    then obj ∷ doomed api desired observed
    else doomed api desired observed

-- Each object is deleted once, by its namespace, name and uid; an error is noted, and stops nothing.
abbrev pub delete_all : {S : Type 0} → Api → ChildServer S → List Object → Progress S → Progress S
delete_all api server [] p = p
delete_all api server (obj ∷ objs) p =
    delete_all api server objs (delete_object api server (api.get_namespace obj) obj p)

-- Exactly the observed children that are not pending deletion and not desired are deleted, in their
-- order, and a failure does not keep the others from it.
pub delete_children-eq-delete_all :
    {S : Type 0} (api : Api) (server : ChildServer S) (desired observed : Dict Object)
    (p : Progress S)
    → delete_children api server desired observed p
      ≡ delete_all api server (doomed api desired observed) p
unfolding delete_children
delete_children-eq-delete_all api server desired [] p = refl
delete_children-eq-delete_all api server desired ((name, obj) ∷ observed) p =
    elim (Bool-cases (is_some (api.get_deletion_timestamp obj))) [
      | inl pending ↦
          rw (pending, delete_children)
            (delete_children-eq-delete_all api server desired observed p)
      | inr live ↦ elim (Bool-cases (has name desired)) [
        | inl wanted ↦
            rw (live, wanted, delete_children)
              (delete_children-eq-delete_all api server desired observed p)
        | inr unwanted ↦
            rw (live, unwanted, delete_children)
              (delete_children-eq-delete_all api server desired observed
                (delete_object api server (api.get_namespace obj) obj p))
      ]
    ]

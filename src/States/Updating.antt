-- ===== src/States/Updating.antt =====
-- Which attachments are updated and by which call, and what a creation sends.
use Prim.Native.String.{◌++◌ as append}
use metac.Prelude.{
  String, Bool, true, false, not, ◌&&◌, ◌||◌, ◌≡◌, ◌≢◌, refl, inl, inr, some, [], ◌∷◌, ◌==◌,
  eq_refl, eq_iff, lookup, lookup-insert, insert, if◌then◌else◌, Bool-cases, arith, List,
}
use metac.Prelude.Results.{Result, ok, err}
use metac.Value.{entries}
use metac.Api.{Object, Api, ApiLaws, Json}
use metac.Apply.LastApplied.{set_last_applied_by_ann_key}
use metac.UpdateStrategy.{child_update_on_delete}
use metac.Manage.{ManageError, Owners, OwnerReference}
use metac.States.{
  written, unknown_method, create, namespace_or_watch, attachment_update_annotation_key_suffix,
  desc_object_as_sanitised_key, StatesServer, ResourceStates, flag, is_created_by,
  is_pending_delete, merge_update, write_merged, update_by_strategy, update, creation,
  last_applied_key, attachment_create_annotation_key,
}

-- The object is not pending deletion, was created due to the watch, and its kind has a method that
-- updates; the first two may be waived.
abbrev pub may_update : Api → ResourceStates → Object → Bool
may_update api e observed =
    (not (is_pending_delete api observed) || flag e.base.update_during_pending_delete)
    && ((is_created_by api e.base.watch observed || flag e.base.update_any)
        && (not (e.base.strategy_by_gk e.client.group e.client.kind == child_update_on_delete)
            && not (e.base.strategy_by_gk e.client.group e.client.kind == "")))

-- What the setter of the owners leaves as it was.
pub record OwnersLaws (api : Api) (owners : Owners) : Type 0 where
  pub get_annotations-set_owners :
      (o : Object) (refs : List OwnerReference)
      → api.get_annotations (owners.set_owner_references o refs) ≡ api.get_annotations o

module _ {S : Type 0} (api : Api) (json : Json) (owners : Owners) (server : StatesServer S)
    (e : ResourceStates) where
  -- The one call that writes an object by a method: one that recreates deletes it, so that a later run
  -- creates it anew, and one that works in place sends the merged object with the note that the watch has
  -- updated it.
  abbrev pub write_by : String → Object → Object → Object → S → Result ManageError Bool × S
  write_by method observed desired merged s =
      if method == "Recreate" || method == "RollingRecreate"
      then written (
          server.delete e.client (namespace_or_watch api e.base desired) (api.get_name desired)
            (api.get_uid observed) s)
      else if method == "InPlace" || method == "RollingInPlace"
      then written (
          server.update e.client (namespace_or_watch api e.base desired)
            (api.set_annotations merged (
              insert (append (api.get_uid e.base.watch) attachment_update_annotation_key_suffix)
                (desc_object_as_sanitised_key api e.base.watch)
                (entries (api.get_annotations merged))))
            s)
      else (err unknown_method, s)

  -- What happens to an object that may be updated, by the result of the merge.
  abbrev pub after_merge :
      Object → Object → Result ManageError (Object × Bool) → S → Result ManageError Bool × S
  after_merge observed desired (err failure) s = (err failure, s)
  after_merge observed desired (ok (merged, false)) s = (ok false, s)
  after_merge observed desired (ok (merged, true)) s =
      write_by (e.base.strategy_by_gk e.client.group e.client.kind) observed desired merged s

  update_by_strategy-eq :
      (observed desired : Object) (s : S) (m : Result ManageError (Object × Bool))
      → merge_update api json e observed desired ≡ m
      → (method : String) → method ≡ e.base.strategy_by_gk e.client.group e.client.kind
      → update_by_strategy api json owners server e method observed desired s ≡ (
          if method == child_update_on_delete || method == ""
          then (ok false, s)
          else after_merge observed desired m s)
  unfolding update_by_strategy write_merged
  update_by_strategy-eq observed desired s (err failure) h method k = rw h
  update_by_strategy-eq observed desired s (ok (merged, false)) h method k = rw h
  update_by_strategy-eq observed desired s (ok (merged, true)) h method k = rw (h, k)

  -- An observed object is written only if it is not pending deletion, was created due to the watch, and
  -- the method of its kind is not OnDelete or missing, where the flags for objects pending deletion and
  -- for any object waive the first two; otherwise the server is left as it is. If it may be written, an
  -- error of the merge and a merge without a difference leave the server as it is too. Otherwise, for the
  -- methods Recreate and RollingRecreate the observed object is deleted, for InPlace and RollingInPlace the
  -- merged object is sent with the annotation of an update due to the watch, and any other method is an
  -- error without a call.
  pub update_lem :
      (observed desired : Object) (s : S)
      → update api json owners server e observed desired s ≡ (
          if may_update api e observed
          then after_merge observed desired (merge_update api json e observed desired) s
          else (ok false, s))
  unfolding update
  update_lem observed desired s =
      rw
        (update_by_strategy-eq observed desired s (merge_update api json e observed desired) refl _
          refl)
        (go (is_pending_delete api observed) (flag e.base.update_during_pending_delete)
          (is_created_by api e.base.watch observed) (flag e.base.update_any)
          (e.base.strategy_by_gk e.client.group e.client.kind == child_update_on_delete)
          (e.base.strategy_by_gk e.client.group e.client.kind == "")
          (after_merge observed desired (merge_update api json e observed desired) s))
    where
      go :
          (pending during mine any_one on_delete unset : Bool) (x : Result ManageError Bool × S)
          → (if pending && not during
              then (ok false, s)
              else if not mine && not any_one
              then (ok false, s)
              else if on_delete || unset
              then (ok false, s)
              else x)
            ≡ (if (not pending || during) && ((mine || any_one) && (not on_delete && not unset))
                then x
                else (ok false, s))
      go true false mine any_one on_delete unset x = refl
      go true true false false on_delete unset x = refl
      go true true true any_one true unset x = refl
      go true true true any_one false true x = refl
      go true true true any_one false false x = refl
      go true true false true true unset x = refl
      go true true false true false true x = refl
      go true true false true false false x = refl
      go false during false false on_delete unset x = refl
      go false during true any_one true unset x = refl
      go false during true any_one false true x = refl
      go false during true any_one false false x = refl
      go false during false true true unset x = refl
      go false during false true false true x = refl
      go false during false true false false x = refl

  create-saved :
      (desired : Object) (s : S) {saved : Object}
      → set_last_applied_by_ann_key api json desired desired (last_applied_key api e.base)
        ≡ ok saved
      → create api json owners server e desired s
        ≡ written (
            server.create e.client
              (namespace_or_watch api e.base desired)
              (creation api json owners server e saved)
              s)
  unfolding create
  create-saved desired s h = rw (h, create)

  -- An object that is not empty is created by one call, and what is sent carries the uid of the watch, so that
  -- later runs find it created due to the watch, and under the key of the watch the JSON text of the desired
  -- object.
  pub create-own :
      ApiLaws api
      → OwnersLaws api owners
      → (last_applied_key api e.base == attachment_create_annotation_key) ≡ false
      → (desired : Object) {text : String} (s : S) → json.marshal desired ≡ ok text
      → desired ≢ []
      → (sent : Object) × (create api json owners server e desired s
          ≡ written (server.create e.client (namespace_or_watch api e.base desired) sent s))
        × (is_created_by api e.base.watch sent ≡ true)
        × (lookup (last_applied_key api e.base) (entries (api.get_annotations sent)) ≡ some text)
  unfolding creation is_created_by set_last_applied_by_ann_key
  create-own laws owner_laws apart [] s h full = absurd (full refl)
  create-own laws owner_laws apart (first ∷ desired) {text = text} s h full = (
    creation api json owners server e saved,
    create-saved (first ∷ desired) s (rw h refl),
    rw (annotations, lookup-insert, eq_refl attachment_create_annotation_key)
        (eq_refl (api.get_uid e.base.watch)),
    rw (annotations, lookup-insert, other, laws.get-set_annotations, lookup-insert, eq_refl key)
        refl,
  )
    where
      key : String
      key = last_applied_key api e.base

      saved : Object
      saved = api.set_annotations (first ∷ desired) (
          insert (last_applied_key api e.base) text
            (entries (api.get_annotations (first ∷ desired))))

      annotations :
          api.get_annotations (creation api json owners server e saved)
          ≡ some (
              insert attachment_create_annotation_key
                (api.get_uid e.base.watch)
                (entries (api.get_annotations saved)))
      annotations = elim (Bool-cases (flag e.base.is_watch_owner)) [
        | inl y ↦ rw (y, owner_laws.get_annotations-set_owners) (laws.get-set_annotations saved _)
        | inr n ↦ rw n (laws.get-set_annotations saved _)
      ]

      other : (attachment_create_annotation_key == last_applied_key api e.base) ≡ false
      other = ground (
        arith,
        eq_iff attachment_create_annotation_key (last_applied_key api e.base),
        eq_iff (last_applied_key api e.base) attachment_create_annotation_key,
      )

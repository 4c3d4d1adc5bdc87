-- ===== src/Selector/Reference/Paths.antt =====
-- What a reference selector over paths decides.
use metac.Prelude.{
  String, Bool, true, false, ◌&&◌, ◌≡◌, ap, ◌∙◌, refl, inl, Option, none, some, List, [], ◌∷◌, ◌++◌,
  Dict, lookup, insert, contains, ◌==◌, eq_refl, eq_iff, lookup-insert, arith,
}
use mathlib.Core.List.{append_assoc, append-nil}
use metac.Prelude.Results.{Result, ok, err}
use metac.Api.{ApiError, Object, Api}
use metac.Selector.Labels.{
  LabelSelectorRequirement, label_in, meet_all, InOrNotIn, Labels, LabelsLaws,
}
use metac.Selector.Reference.{
  Selection, new_selection, pair_key, path_to_fields, target_value, reference_value,
  add_target_expression_from_path, add_reference_pair_from_path, walk_expressions, walk_paths,
  match_selection, reference_match,
}

abbrev found : Result ApiError (Option String) → Option String
found (err e) = none
found (ok v) = v

-- The text of an object at a path.
abbrev pub text_at : Api → Object → String → Option String
text_at api o path = found (api.nested_string o (path_to_fields path))

-- At every path, none of them empty, an object holds nothing or a text.
abbrev pub Readable : Api → Object → List String → Type 0
Readable api o [] = Unit
Readable api o (path ∷ paths) =
    ((path == "") ≡ false)
    × (api.nested_string o (path_to_fields path) ≡ ok (text_at api o path))
    × Readable api o paths

abbrev pair_keys : List String → List String
pair_keys [] = []
pair_keys (path ∷ paths) = pair_key path ∷ pair_keys paths

-- No two paths have the same key.
abbrev pub Apart : List String → Type 0
Apart [] = Unit
Apart (path ∷ paths) = (contains (pair_key path) (pair_keys paths) ≡ false) × Apart paths

-- A text against a text; a text of the target against no text of the reference, where it has to be empty;
-- and no text of the target, where that of the reference has to be the one that no object should have.
abbrev pub agree : Option String → Option String → Bool
agree (some t) (some r) = t == r
agree (some t) none = t == ""
agree none (some r) = r == "some-value-that-should-never-be-used"
agree none none = false

values-agree : (t r : Option String) → (target_value t == reference_value r) ≡ agree t r
values-agree (some t) (some r) = refl
values-agree (some t) none = refl
values-agree none (some r) = ground (
  arith,
  eq_iff "some-value-that-should-never-be-used" r,
  eq_iff r "some-value-that-should-never-be-used",
)
values-agree none none = refl

-- The texts of the target and of the reference agree at every path.
abbrev pub texts_agree : Api → Object → Object → List String → Bool
texts_agree api target reference [] = true
texts_agree api target reference (path ∷ paths) =
    agree (text_at api target path) (text_at api reference path)
    && texts_agree api target reference paths

abbrev selection : List LabelSelectorRequirement → Dict String → Selection
selection exprs acc = record { target_expressions = exprs; reference_pairs = acc; error = none }

module _ (api : Api) (target reference : Object) where
  expressions : List String → List LabelSelectorRequirement
  expressions [] = []
  expressions (path ∷ paths) =
      record {
        key = pair_key path;
        operator = label_in;
        values = target_value (text_at api target path) ∷ [];
      }
      ∷ expressions paths

  pairs : List String → Dict String → Dict String
  pairs [] acc = acc
  pairs (path ∷ paths) acc =
      pairs paths (insert (pair_key path) (reference_value (text_at api reference path)) acc)

  pair_step :
      (path : String) (exprs : List LabelSelectorRequirement) (acc : Dict String)
      → api.nested_string reference (path_to_fields path) ≡ ok (text_at api reference path)
      → add_reference_pair_from_path api reference path (selection exprs acc)
        ≡ selection exprs
            (insert (pair_key path) (reference_value (text_at api reference path)) acc)
  unfolding add_reference_pair_from_path
  pair_step path exprs acc h = rw h

  expression_step :
      (path : String) (exprs : List LabelSelectorRequirement) (acc : Dict String)
      → api.nested_string target (path_to_fields path) ≡ ok (text_at api target path)
      → add_target_expression_from_path api target path (selection exprs acc)
        ≡ selection
            (exprs
              ++ record {
                key = pair_key path;
                operator = label_in;
                values = target_value (text_at api target path) ∷ [];
              }
                ∷ [])
            acc
  unfolding add_target_expression_from_path
  expression_step path exprs acc h = rw h

  walk_paths-eq :
      (paths : List String) (exprs : List LabelSelectorRequirement) (acc : Dict String)
      → Readable api target paths
      → Readable api reference paths
      → walk_paths api target reference paths (selection exprs acc)
        ≡ selection (exprs ++ expressions paths) (pairs paths acc)
  unfolding walk_paths expressions pairs
  walk_paths-eq [] exprs acc t r = rw (append-nil exprs)
  walk_paths-eq (path ∷ paths) exprs acc t r =
      let e : LabelSelectorRequirement = record {
        key = pair_key path;
        operator = label_in;
        values = target_value (text_at api target path) ∷ [];
      } in
      let added = insert (pair_key path) (reference_value (text_at api reference path)) acc in
      rw (t.0, walk_paths)
        (ap (walk_paths api target reference paths) (
            ap (add_target_expression_from_path api target path) (pair_step path exprs acc r.1)
            ∙ expression_step path exprs added t.1)
          ∙ walk_paths-eq paths (exprs ++ e ∷ []) added t.2 r.2
          ∙ ap (λ x. selection x (pairs paths added))
              (append_assoc exprs (e ∷ []) (expressions paths)))

  Stored : Dict String → List String → Type 0
  Stored d [] = Unit
  Stored d (path ∷ paths) =
      (lookup (pair_key path) d ≡ some (reference_value (text_at api reference path)))
      × Stored d paths

  lookup-pairs_ne :
      (k : String) (paths : List String) (acc : Dict String)
      → contains k (pair_keys paths) ≡ false
      → lookup k (pairs paths acc) ≡ lookup k acc
  unfolding pairs contains
  lookup-pairs_ne k [] acc h = refl
  lookup-pairs_ne k (path ∷ paths) acc h =
      lookup-pairs_ne k paths
        (insert (pair_key path) (reference_value (text_at api reference path)) acc) (ground (arith))
      ∙ ground (
        arith,
        lookup-insert (pair_key path) k (reference_value (text_at api reference path)) acc,
      )

  pairs-Stored :
      (paths : List String) (acc : Dict String) → Apart paths → Stored (pairs paths acc) paths
  unfolding pairs Stored
  pairs-Stored [] acc a = tt
  pairs-Stored (path ∷ paths) acc a = (
    lookup-pairs_ne (pair_key path) paths _ a.0 ∙ rw (lookup-insert, eq_refl (pair_key path)),
    pairs-Stored paths _ a.1,
  )

  meet_all-texts_agree :
      (d : Dict String) (paths : List String)
      → Stored d paths
      → meet_all (expressions paths) d ≡ texts_agree api target reference paths
  unfolding expressions Stored contains
  meet_all-texts_agree d [] s = refl
  meet_all-texts_agree d (path ∷ paths) s =
      rw
        (
          s.0,
          meet_all-texts_agree d paths s.1,
          ← values-agree (text_at api target path) (text_at api reference path),
        )
        (ground arith)

  expressions-InOrNotIn : (paths : List String) → InOrNotIn (expressions paths)
  unfolding expressions
  expressions-InOrNotIn [] = tt
  expressions-InOrNotIn (path ∷ paths) = (inl refl, expressions-InOrNotIn paths)

-- Let a configuration have paths alone, none of them empty and no two with the same key, let target
-- and reference hold nothing or texts there, and let the library accept the selector. The target
-- matches exactly if at every path both have the same text, or the reference has none and that of the
-- target is empty, or the target has none and that of the reference is the text that stands for a missing
-- one; where both have none, the target does not match.
pub reference_match-paths :
    (labels : Labels) (laws : LabelsLaws labels) (api : Api) (target reference : Object)
    (paths : List String) (f : Dict String → Bool)
    → Apart paths
    → Readable api target paths
    → Readable api reference paths
    → labels.as_selector (record {
      match_labels = [];
      match_expressions = (walk_paths api target reference paths new_selection).target_expressions;
    })
      ≡ ok f
    → reference_match labels api
        (record { match_reference = paths; match_reference_expressions = [] })
        (some target)
        (some reference)
      ≡ ok (texts_agree api target reference paths)
unfolding reference_match walk_expressions match_selection
reference_match-paths labels laws api target reference paths f apart t r a =
    let walked = walk_paths-eq api target reference paths [] [] t r in
    let a' = rw walked at a in
    rw (walked, a')
      (ap ok (
        laws.expressions_only (expressions api target reference paths) f
          (expressions-InOrNotIn api target reference paths) a'
          (pairs api target reference paths [])
        ∙ meet_all-texts_agree api target reference (pairs api target reference paths []) paths
            (pairs-Stored api target reference paths [] apart)))

-- ===== src/Selector/Evaluator/Terms.antt =====
-- How the terms of an evaluation, and the matches of a term, combine.
use metac.Prelude.{
  ℕ, suc, ◌+◌, Bool, true, false, ◌≡◌, ◌≢◌, ap, ◌∙◌, refl, Option, none, some, List, [], ◌∷◌,
  length, nat_eq, arith,
}
use metac.Prelude.Results.{Result, ok, err, ◌>>=◌}
use metac.Api.{Object, Api}
use metac.Selector.Labels.{SelectorError, Labels}
use metac.Selector.Evaluator.{
  SelectorTerm, Evaluation, MatchFn, count_matches, run_terms, run_match, match_fns, on_target,
  is_field_match, is_annotation_match, is_label_match, is_slice_match, is_reference_match,
}

-- Both, from left to right; an error or a failed first operand ends it.
infixr 3 ◌and_also◌
abbrev pub ◌and_also◌ :
    Result SelectorError Bool → Result SelectorError Bool → Result SelectorError Bool
err e and_also y = err e
ok true and_also y = y
ok false and_also y = ok false

-- Either, from left to right; an error or a successful first operand ends it.
infixr 2 ◌or_else◌
abbrev pub ◌or_else◌ :
    Result SelectorError Bool → Result SelectorError Bool → Result SelectorError Bool
err e or_else y = err e
ok true or_else y = ok true
ok false or_else y = y

abbrev pub all_of : List MatchFn → SelectorTerm → Result SelectorError Bool
all_of [] term = ok true
all_of (fn ∷ fns) term = fn term and_also all_of fns term

abbrev pub some_term : MatchFn → List (Option SelectorTerm) → Result SelectorError Bool
some_term p [] = ok false
some_term p (none ∷ terms) = some_term p terms
some_term p (some term ∷ terms) = p term or_else some_term p terms

-- The five matches of a term, in the order of the code.
abbrev pub term_matches : Labels → Api → Evaluation → MatchFn
term_matches labels api e term =
    is_field_match labels api e term
    and_also is_annotation_match labels api e term
    and_also is_label_match labels api e term
    and_also is_slice_match labels api e term
    and_also is_reference_match labels api e term
    and_also ok true

-- Counting up to the length is asking for all, with `count` matches done and `length fns` to go.
count_matches-lem :
    (fns : List MatchFn) (term : SelectorTerm) (count total : ℕ)
    → count + length fns ≡ total
    → (count_matches fns term count >>= λ n. ok (nat_eq n total)) ≡ all_of fns term
unfolding count_matches
count_matches-lem [] term count total h = ap ok (ground arith)
count_matches-lem (fn ∷ fns) term count total h =
    go (fn term) (count_matches-lem fns term (suc count) total (ground arith))
  where
    go :
        (r : Result SelectorError Bool)
        → (count_matches fns term (suc count) >>= λ n. ok (nat_eq n total)) ≡ all_of fns term
        → ((r >>= λ b. elim b [ true ↦ count_matches fns term (suc count) | false ↦ ok count ])
            >>= λ n. ok (nat_eq n total))
          ≡ (r and_also all_of fns term)
    go (err e) rest = refl
    go (ok true) rest = rest
    go (ok false) rest = ap ok (ground arith)

run_terms-eq-some_term :
    (fns : List MatchFn) (terms : List (Option SelectorTerm))
    → run_terms fns terms ≡ some_term (all_of fns) terms
unfolding run_terms
run_terms-eq-some_term fns [] = refl
run_terms-eq-some_term fns (none ∷ terms) = run_terms-eq-some_term fns terms
run_terms-eq-some_term fns (some term ∷ terms) =
    rw (← count_matches-lem fns term 0 (length fns) (omega arith))
      (go (count_matches fns term 0) (run_terms-eq-some_term fns terms))
  where
    decide :
        (b : Bool)
        → run_terms fns terms ≡ some_term (all_of fns) terms
        → (elim b [ true ↦ ok true | false ↦ run_terms fns terms ])
          ≡ (ok b or_else some_term (all_of fns) terms)
    decide true rest = refl
    decide false rest = rest

    go :
        (r : Result SelectorError ℕ)
        → run_terms fns terms ≡ some_term (all_of fns) terms
        → (r >>= λ n. elim (nat_eq n (length fns)) [ true ↦ ok true | false ↦ run_terms fns terms ])
          ≡ ((r >>= λ n. ok (nat_eq n (length fns))) or_else some_term (all_of fns) terms)
    go (err e) rest = refl
    go (ok n) rest = decide (nat_eq n (length fns)) rest

-- An evaluation of a target, with at least one term, matches as some term does, and a term as all of
-- its five matches do. Terms and matches are tried in order up to the first that decides or fails.
pub run_match-eq-some_term :
    (labels : Labels) (api : Api) (e : Evaluation) (target : Object)
    → e.target ≡ some target
    → e.terms ≢ []
    → run_match labels api e ≡ some_term (term_matches labels api e) e.terms
unfolding run_match
run_match-eq-some_term labels api e target t n =
    let full : nat_eq (length e.terms) 0 ≡ false = nonempty e.terms n in
    rw full (on_target-eq e.target _ t ∙ run_terms-eq-some_term (match_fns labels api e) e.terms)
  where
    on_target-eq :
        (o : Option Object) (f : Object → Result SelectorError Bool)
        → o ≡ some target
        → on_target o f ≡ f target
    on_target-eq o f h = rw h

    nonempty : (xs : List (Option SelectorTerm)) → xs ≢ [] → nat_eq (length xs) 0 ≡ false
    nonempty [] n = absurd (n refl)
    nonempty (x ∷ xs) n = ground arith

-- ===== src/Rolling/Checks.antt =====
-- What the checks of a child's status accept.
use metac.Prelude.{
  Bool, true, false, not, ◌&&◌, ◌≡◌, refl, Option, none, some, List, [], ◌∷◌, if◌then◌else◌,
}
use metac.Prelude.Results.{Result, ok, err, ◌>>◌}
use metac.Api.{Object, Nested}
use metac.Object.Status.{StatusCondition, get_status_condition}
use metac.Rolling.{
  StatusConditionCheck, CheckError, wrong_status, wrong_reason, differs, check_condition,
  child_status_check,
}

-- The condition is there, and has the status and the reason that are asked for.
abbrev pub satisfies : Option StatusCondition → StatusConditionCheck → Bool
satisfies none check = false
satisfies (some cond) check =
    not (differs check.status cond.status) && not (differs check.reason cond.reason)

abbrev pub all_satisfied : Nested → Object → List StatusConditionCheck → Bool
all_satisfied nested child [] = true
all_satisfied nested child (check ∷ checks) =
    satisfies (get_status_condition nested child check.type) check
    && all_satisfied nested child checks

abbrev pub succeeds : Result CheckError (Unit {0}) → Bool
succeeds (ok u) = true
succeeds (err e) = false

-- The status check succeeds exactly if the child has every condition that is asked for, with the
-- status and the reason that are asked for.
pub child_status_check-eq :
    (nested : Nested) (checks : List StatusConditionCheck) (child : Object)
    → succeeds (child_status_check nested checks child) ≡ all_satisfied nested child checks
unfolding child_status_check
child_status_check-eq nested [] child = refl
child_status_check-eq nested (check ∷ checks) child =
    go (get_status_condition nested child check.type) (child_status_check-eq nested checks child)
  where
    go :
        (o : Option StatusCondition)
        → succeeds (child_status_check nested checks child) ≡ all_satisfied nested child checks
        → succeeds (check_condition check o >> child_status_check nested checks child)
          ≡ (satisfies o check && all_satisfied nested child checks)
    go none rest = refl
    go (some cond) rest =
        decide (differs check.status cond.status) (differs check.reason cond.reason)
      where
        decide :
            (a b : Bool)
            → succeeds (
                (if a then err wrong_status else if b then err wrong_reason else ok tt)
                >> child_status_check nested checks child)
              ≡ ((not a && not b) && all_satisfied nested child checks)
        decide true b = refl
        decide false true = refl
        decide false false = rest

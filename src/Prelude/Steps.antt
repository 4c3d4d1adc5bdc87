-- ===== src/Prelude/Steps.antt =====
-- Steps that may fail, on a state that they pass on.
use metac.Prelude.Results.{Result, ok, err}

abbrev pub Step : Type 0 → Type 0 → Type 0 → Type 0
Step E S A = S → Result E A × S

abbrev pub continue : {E S A B : Type 0} → (A → Step E S B) → Result E A × S → Result E B × S
continue next (ok a, s) = next a s
continue next (err e, s) = (err e, s)

infixl 5 ◌>>=◌ ◌>>◌
abbrev pub ◌>>=◌ : {E S A B : Type 0} → Step E S A → (A → Step E S B) → Step E S B
◌>>=◌ m next s = continue next (m s)

abbrev pub ◌>>◌ : {E S B : Type 0} → Step E S (Unit {0}) → Step E S B → Step E S B
m >> next = m >>= λ done. next

abbrev pub return : {E S A : Type 0} → A → Step E S A
return a s = (ok a, s)

abbrev pub fail : {E S A : Type 0} → E → Step E S A
fail e s = (err e, s)

abbrev pub returned : {E S A : Type 0} → Result E A → Step E S A
returned r s = (r, s)

-- The error of what is called becomes one of the caller.
abbrev pub failing_as : {E F S A : Type 0} → (E → F) → Result E A × S → Result F A × S
failing_as wrap (ok a, s) = (ok a, s)
failing_as wrap (err e, s) = (err (wrap e), s)

abbrev pub wrapped : {E F A : Type 0} → (E → F) → Result E A → Result F A
wrapped wrap (ok a) = ok a
wrapped wrap (err e) = err (wrap e)

-- ===== src/Prelude/Text.antt =====
-- The functions of Go's `strings` and `strconv` that the program calls.
use Prim.Native.Nat.{ℕ, zero, suc, ◌/◌, ◌%◌}
use Prim.Native.Char.{code}
use Prim.Native.String.{String, ◌++◌ as append}
use Prim.Native.String.append.{nil as append_nil, cons as append_cons}
use mathlib.Core.Path.{◌≡◌, refl}
use mathlib.Core.Bool.{Bool, true, false, ◌||◌}
use mathlib.Core.Logic.{inl, inr}
use mathlib.Core.Option.{Option, none, some}
use native.Mathlib.Omega.{arith}
use mathlib.Core.List.{List, [], ◌∷◌}
use metac.Prelude.Tests.{ltb, nat_eq, Bool-cases, if◌then◌else◌}

-- Sprintf of a row of texts
unfoldable pub concat : List String → String
concat [] = ""
concat (s ∷ ss) = append s (concat ss)

-- strings.Join
unfoldable pub join : String → List String → String
join sep [] = ""
join sep (s ∷ []) = s
join sep (s ∷ t ∷ ss) = append s (append sep (join sep (t ∷ ss)))

-- A character is put in front of the first piece.
abbrev pub prepend : String → List String → List String
prepend c [] = c ∷ []
prepend c (p ∷ ps) = append c p ∷ ps

-- strings.Split by a separator of one byte
unfoldable pub split : ℕ → String → List String
split sep String.[] = "" ∷ []
split sep (String.◌∷◌ c s) =
    let rest = split sep s in
    if nat_eq (code c) sep then "" ∷ rest else prepend (String.◌∷◌ c String.[]) rest

-- strings.ReplaceAll of one byte
unfoldable pub replace_all : ℕ → String → String → String
replace_all old new String.[] = ""
replace_all old new (String.◌∷◌ c s) =
    let rest = replace_all old new s in
    if nat_eq (code c) old then append new rest else String.◌∷◌ c rest

abbrev digit : ℕ → String
digit zero = "0"
digit (suc zero) = "1"
digit (suc (suc zero)) = "2"
digit (suc (suc (suc zero))) = "3"
digit (suc (suc (suc (suc zero)))) = "4"
digit (suc (suc (suc (suc (suc zero))))) = "5"
digit (suc (suc (suc (suc (suc (suc zero)))))) = "6"
digit (suc (suc (suc (suc (suc (suc (suc zero))))))) = "7"
digit (suc (suc (suc (suc (suc (suc (suc (suc zero)))))))) = "8"
digit _ = "9"

-- A number above 9 has fewer tenths than itself, so `suc n` rounds are enough for `n`.
decimal_rounds : ℕ → ℕ → String
decimal_rounds zero n = ""
decimal_rounds (suc fuel) n = elim (ltb n 10) [
  | true ↦ digit n
  | false ↦ append (decimal_rounds fuel (n / 10)) (digit (n % 10))
]

unfoldable pub decimal : ℕ → String
unfolding decimal_rounds
decimal n = decimal_rounds (suc n) n

decimal_port : decimal 8080 ≡ "8080"
unfolding decimal
decimal_port = refl

split_path : split b'.' "metadata.labels.app" ≡ "metadata" ∷ "labels" ∷ "app" ∷ []
unfolding split
split_path = refl

abbrev pred : ℕ → ℕ
pred zero = 0
pred (suc n) = n

abbrev char_count : String → ℕ
char_count String.[] = 0
char_count (String.◌∷◌ c s) = suc (char_count s)

abbrev is_prefix : String → String → Bool
is_prefix String.[] s = true
is_prefix (String.◌∷◌ c p) String.[] = false
is_prefix (String.◌∷◌ c p) (String.◌∷◌ d s) =
    if nat_eq (code c) (code d) then is_prefix p s else false

-- The replacement with the number of characters that are still to be skipped.
unfoldable pub replace_from : String → String → ℕ → String → String
replace_from old new skip String.[] = ""
replace_from old new (suc skip) (String.◌∷◌ c s) = replace_from old new skip s
replace_from old new zero (String.◌∷◌ c s) = elim (is_prefix old (String.◌∷◌ c s)) [
  | true ↦ append new (replace_from old new (pred (char_count old)) s)
  | false ↦ String.◌∷◌ c (replace_from old new 0 s)
]

-- strings.ReplaceAll of a text that is not empty
unfoldable pub replace_text : String → String → String → String
replace_text old new s = replace_from old new 0 s

replace_escape : replace_text "\\." "-@@-" "a\\.b.c" ≡ "a-@@-b.c"
unfolding replace_text replace_from
replace_escape = refl

-- The text up to a separator of one byte, and what follows it: strings.SplitN(s, sep, 2).
unfoldable pub split_once : ℕ → String → String × Option String
split_once sep String.[] = ("", none)
split_once sep (String.◌∷◌ c s) =
    let rest = split_once sep s in
    if nat_eq (code c) sep then ("", some s) else (String.◌∷◌ c rest.0, rest.1)

unfoldable pub has_byte : ℕ → String → Bool
has_byte sep String.[] = false
has_byte sep (String.◌∷◌ c s) = nat_eq (code c) sep || has_byte sep s

pub split_once-first : (sep : ℕ) (s : String) → has_byte sep (split_once sep s).0 ≡ false
unfolding split_once has_byte
split_once-first sep String.[] = refl
split_once-first sep (String.◌∷◌ c s) = elim (Bool-cases (nat_eq (code c) sep)) [
  | inl e ↦ rw e refl
  | inr e ↦ rw e (rw e (split_once-first sep s))
]

pub split_once-concat :
    (sep : ℕ) (a c b : String)
    → has_byte sep a ≡ false
    → split_once sep c ≡ ("", some b)
    → split_once sep (append a c) ≡ (a, some b)
unfolding split_once has_byte
split_once-concat sep String.[] c b h e = rw (append_nil c) e
split_once-concat sep (String.◌∷◌ d a) c b h e =
    let other : nat_eq (code d) sep ≡ false = ground arith in
    let rest : has_byte sep a ≡ false = ground arith in
    rw (append_cons d a c, other, split_once-concat sep a c b rest e)

pub split_once-none : (sep : ℕ) (a : String) → has_byte sep a ≡ false → split_once sep a ≡ (a, none)
unfolding split_once has_byte
split_once-none sep String.[] h = refl
split_once-none sep (String.◌∷◌ d a) h =
    let other : nat_eq (code d) sep ≡ false = ground arith in
    let rest : has_byte sep a ≡ false = ground arith in rw (other, split_once-none sep a rest)

-- ===== src/Base/Int.antt =====
-- Python's `int` as the integers over the native naturals.
use hpc_client_gui.Base.{
  ℕ, ◌-◌, [], ◌∷◌, Bool, true, false, ◌&&◌, ◌==◌, leb, ltb, if◌then◌else◌, Option, none, some,
}
use hpc_client_gui.Base.Text.{Text, strip}
use hpc_client_gui.Base.Digits.{is_decimal, int_of}

-- `negsuc n` is -(n + 1).
pub data ℤ : Type 0 where
  pos negsuc : ℕ → ℤ

abbrev pub negate : ℕ → ℤ
negate n = if n == 0 then pos 0 else negsuc (n - 1)

abbrev pub int_lt : ℤ → ℤ → Bool
int_lt (pos m) (pos n) = ltb m n
int_lt (pos m) (negsuc n) = false
int_lt (negsuc m) (pos n) = true
int_lt (negsuc m) (negsuc n) = ltb n m

abbrev pub int_eq : ℤ → ℤ → Bool
int_eq (pos m) (pos n) = m == n
int_eq (pos m) (negsuc n) = false
int_eq (negsuc m) (pos n) = false
int_eq (negsuc m) (negsuc n) = m == n

abbrev pub is_within : ℕ → ℕ → ℤ → Bool
is_within low high (pos n) = leb low n && leb n high
is_within low high (negsuc n) = false

-- The digits of a text in which single underscores may stand between two of them; whether a digit
-- stands in front is told.
unfoldable pub plain_digits : Bool → Text → Option Text
plain_digits before [] = if before then some [] else none
plain_digits before (c ∷ s) =
    let rest = plain_digits true s in
    let behind = plain_digits false s in
    if is_decimal c
    then (elim rest [ none ↦ none | some ds ↦ some (c ∷ ds) ])
    else if c == b'_' && before
    then behind
    else none

unfoldable pub unsigned : Text → Option ℕ
unsigned t = elim (plain_digits false t) [ none ↦ none | some ds ↦ int_of ds ]

-- `int(text)`; `none` for a ValueError.
unfoldable pub signed : Text → Option ℤ
signed [] = none
signed (c ∷ s) =
    if c == b'-'
    then (elim (unsigned s) [ none ↦ none | some n ↦ some (negate n) ])
    else if c == b'+'
    then (elim (unsigned s) [ none ↦ none | some n ↦ some (pos n) ])
    else (elim (unsigned (c ∷ s)) [ none ↦ none | some n ↦ some (pos n) ])

unfoldable pub parse_int : Text → Option ℤ
parse_int t = signed (strip t)

-- ===== src/Base/Digits.antt =====
-- Python's digits, of Unicode 14, and `int` of a text of digits.
use hpc_client_gui.Base.{
  ℕ, ◌+◌, ◌-◌, ◌*◌, List, [], ◌∷◌, Bool, true, false, not, ◌&&◌, ◌||◌, leb, if◌then◌else◌, length,
  all, any, is_empty, Option, none, some,
}
use hpc_client_gui.Base.Text.{Text}

-- The zero of each run of ten decimal digits.
abbrev pub zeros : List ℕ
zeros =
    48 ∷ 1632 ∷ 1776 ∷ 1984 ∷ 2406 ∷ 2534 ∷ 2662 ∷ 2790 ∷ 2918 ∷ 3046 ∷ 3174 ∷ 3302 ∷ 3430 ∷ 3558
    ∷ 3664 ∷ 3792 ∷ 3872 ∷ 4160 ∷ 4240 ∷ 6112 ∷ 6160 ∷ 6470 ∷ 6608 ∷ 6784 ∷ 6800 ∷ 6992 ∷ 7088
    ∷ 7232 ∷ 7248 ∷ 42528 ∷ 43216 ∷ 43264 ∷ 43472 ∷ 43504 ∷ 43600 ∷ 44016 ∷ 65296 ∷ 66720 ∷ 68912
    ∷ 69734 ∷ 69872 ∷ 69942 ∷ 70096 ∷ 70384 ∷ 70736 ∷ 70864 ∷ 71248 ∷ 71360 ∷ 71472 ∷ 71904 ∷ 72016
    ∷ 72784 ∷ 73040 ∷ 73120 ∷ 92768 ∷ 92864 ∷ 93008 ∷ 120782 ∷ 120792 ∷ 120802 ∷ 120812 ∷ 120822
    ∷ 123200 ∷ 123632 ∷ 125264 ∷ 130032 ∷ []

-- The digits that are not decimal: the first and the last of each run.
abbrev pub other_digits : List (ℕ × ℕ)
other_digits =
    (178, 179)
    ∷ (185, 185)
    ∷ (4969, 4977)
    ∷ (6618, 6618)
    ∷ (8304, 8304)
    ∷ (8308, 8313)
    ∷ (8320, 8329)
    ∷ (9312, 9320)
    ∷ (9332, 9340)
    ∷ (9352, 9360)
    ∷ (9450, 9450)
    ∷ (9461, 9469)
    ∷ (9471, 9471)
    ∷ (10102, 10110)
    ∷ (10112, 10120)
    ∷ (10122, 10130)
    ∷ (68160, 68163)
    ∷ (69216, 69224)
    ∷ (69714, 69722)
    ∷ (127232, 127242)
    ∷ []

abbrev pub value_in : List ℕ → ℕ → Option ℕ
value_in [] c = none
value_in (z ∷ zs) c = if leb z c && leb c (z + 9) then some (c - z) else value_in zs c

-- `unicodedata.decimal`
unfoldable pub digit_value : ℕ → Option ℕ
digit_value c = value_in zeros c

abbrev pub is_decimal : ℕ → Bool
is_decimal c = elim (digit_value c) [ none ↦ false | some n ↦ true ]

unfoldable pub is_other_digit : ℕ → Bool
is_other_digit c = any (λ run. leb run.0 c && leb c run.1) other_digits

-- `str.isdigit`
unfoldable pub is_digit_text : Text → Bool
unfolding is_other_digit
is_digit_text t = not (is_empty t) && all (λ c. is_decimal c || is_other_digit c) t

-- The pattern `\d+`, on the whole text.
unfoldable pub is_decimal_text : Text → Bool
is_decimal_text t = not (is_empty t) && all is_decimal t

unfoldable pub value_from : ℕ → Text → ℕ
value_from n [] = n
value_from n (c ∷ s) = value_from (n * 10 + (elim (digit_value c) [ none ↦ 0 | some d ↦ d ])) s

-- `int`, of a text without signs, spaces and underscores; `none` for a ValueError, which a text of
-- more than 4300 digits gives too.
unfoldable pub int_of : Text → Option ℕ
unfolding is_decimal_text value_from
int_of t = if is_decimal_text t && leb (length t) 4300 then some (value_from 0 t) else none

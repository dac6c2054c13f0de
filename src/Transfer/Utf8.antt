-- ===== src/Transfer/Utf8.antt =====
-- `bytes.decode("utf-8")` of the language, and src/hpc_gui/services/transfer_mode.py:
-- `_is_utf8_prefix` and `_utf8_carry_split`.
pub mod Prefix
pub mod Join
pub mod Carry
pub mod Split
use Prim.Native.Nat.{bit_and}
use hpc_client_gui.Base.{
  ℕ, ◌+◌, ◌-◌, ◌*◌, List, [], ◌∷◌, ◌++◌, Bool, true, false, not, ◌&&◌, ◌||◌, ltb, leb, ◌==◌,
  if◌then◌else◌, length, all, Option, none, some,
}
use hpc_client_gui.Base.Text.{Text}

-- What the decoder waits for: nothing, the last byte of a code point, or one of the two or three
-- last bytes with its range; with the bits that are read so far.
pub data Need : Type 0 where
  idle : Need
  one : ℕ → Need
  two three : ℕ → ℕ → ℕ → Need

pub data Move : Type 0 where
  point : ℕ → Move
  more : Need → Move
  bad : Move

-- A first byte.
lead : ℕ → Move
lead b =
    if ltb b 0x80
    then point b
    else if ltb b 0xC2
    then bad
    else if ltb b 0xE0
    then more (one (b - 0xC0))
    else if b == 0xE0
    then more (two 0xA0 0xBF 0)
    else if b == 0xED
    then more (two 0x80 0x9F 13)
    else if ltb b 0xF0
    then more (two 0x80 0xBF (b - 0xE0))
    else if b == 0xF0
    then more (three 0x90 0xBF 0)
    else if ltb b 0xF4
    then more (three 0x80 0xBF (b - 0xF0))
    else if b == 0xF4
    then more (three 0x80 0x8F 4)
    else bad

unfoldable pub step : Need → ℕ → Move
unfolding lead
step idle b = lead b
step (one acc) b = if leb 0x80 b && leb b 0xBF then point (acc * 64 + (b - 0x80)) else bad
step (two lo hi acc) b = if leb lo b && leb b hi then more (one (acc * 64 + (b - 0x80))) else bad
step (three lo hi acc) b =
    if leb lo b && leb b hi then more (two 0x80 0xBF (acc * 64 + (b - 0x80))) else bad

-- The text, or a `UnicodeDecodeError`: the text in front of `exc.start`, the bytes from there
-- on, and `exc.end - exc.start`.
pub data Decoded : Type 0 where
  text : Text → Decoded
  fault : Text → List ℕ → ℕ → Decoded

abbrev pub prepend : Text → Decoded → Decoded
prepend s (text t) = text (s ++ t)
prepend s (fault t tail span) = fault (s ++ t) tail span

-- The end of the bytes: inside a code point the error spans all that is held.
abbrev pub at_end : Need → List ℕ → Decoded
at_end idle held = text []
at_end _ held = fault [] held (length held)

-- An error at a byte spans that byte, or the start of a code point in front of it.
abbrev pub span : Need → List ℕ → ℕ
span idle held = 1
span _ held = length held

-- The bytes held are those of the code point that has begun.
unfoldable pub decode_from : Need → List ℕ → List ℕ → Decoded
decode_from n held [] = at_end n held
decode_from n held (b ∷ bs) = elim (step n b) [
  | point c ↦ prepend (c ∷ []) (decode_from idle [] bs)
  | more n' ↦ decode_from n' (held ++ (b ∷ [])) bs
  | bad ↦ fault [] (held ++ (b ∷ bs)) (span n held)
]

unfoldable pub decode : List ℕ → Decoded
unfolding decode_from step
decode bytes = decode_from idle [] bytes

-- `_is_utf8_prefix`
unfoldable pub is_utf8_prefix : List ℕ → Bool
is_utf8_prefix [] = false
is_utf8_prefix (b ∷ tail) =
    let fits = λ (needed : ℕ).
      leb (length (b ∷ tail)) (needed + 1) && all (λ c. bit_and c 0xC0 == 0x80) tail in
    if bit_and b 0x80 == 0
    then true
    else if bit_and b 0xE0 == 0xC0
    then fits 1
    else if bit_and b 0xF0 == 0xE0
    then fits 2
    else if bit_and b 0xF8 == 0xF0
    then fits 3
    else false

-- `_utf8_carry_split`; `none` is the `ValueError`.
unfoldable pub carry_split : List ℕ → Option (Text × List ℕ)
unfolding decode is_utf8_prefix
carry_split bytes = elim (decode bytes) [
  | text t ↦ some (t, [])
  | fault t tail n ↦
      if not (is_utf8_prefix tail) || not (n == length tail) then none else some (t, tail)
]

-- ===== src/Lint/Index/Position.antt =====
-- The search in the line index finds the line and the column.
use hpc_client_gui.Base.{
  ℕ, zero, suc, ◌+◌, ◌-◌, ◌/◌, ◌≤◌, ◌<◌, ◌≡◌, refl, List, [], ◌∷◌, ◌==◌, leb, ltb, if◌then◌else◌,
  length, take, min, All, arith, Bool-cases, inl, inr,
}
use hpc_client_gui.Base.Text.{Text}
use hpc_client_gui.Lint.Index.{newline_ends, line_index, offset_at, search, position}

-- How many offsets at the start of the list are no greater than the given one.
count_upto : ℕ → List ℕ → ℕ
count_upto offset [] = 0
count_upto offset (o ∷ os) = let rest = count_upto offset os in if leb o offset then suc rest else 0

abbrev Ascending : List ℕ → Type 0
Ascending [] = Unit
Ascending (o ∷ os) = All (λ p. o < p) os × Ascending os

count_upto-none : (offset : ℕ) (os : List ℕ) → All (λ p. offset < p) os → count_upto offset os ≡ 0
unfolding count_upto
count_upto-none offset [] h = refl
count_upto-none offset (o ∷ os) h = ground arith

count_upto-le : (offset : ℕ) (os : List ℕ) → count_upto offset os ≤ length os
unfolding count_upto
count_upto-le offset [] = omega arith
count_upto-le offset (o ∷ os) = ground (arith, count_upto-le offset os)

above-All : (o : ℕ) (os : List ℕ) (i : ℕ) → All (λ p. o < p) os → i < length os → o < offset_at os i
above-All o [] i h l = absurd (omega arith)
above-All o (p ∷ os) zero h l = h.0
above-All o (p ∷ os) (suc i) h l = above-All o os i h.1 (omega arith)

-- In an ascending list the test of the loop says on which side of the count an index is.
leb-offset_at :
    (offset : ℕ) (os : List ℕ) (i : ℕ)
    → Ascending os
    → i < length os
    → leb (offset_at os i) offset ≡ ltb i (count_upto offset os)
unfolding count_upto
leb-offset_at offset [] i a l = absurd (omega arith)
leb-offset_at offset (o ∷ os) zero a l = ground arith
leb-offset_at offset (o ∷ os) (suc i) a l =
    ground (arith, leb-offset_at offset os i, above-All o os i)

middle : (low high : ℕ) → low < high → (low < (low + high + 1) / 2) × ((low + high + 1) / 2 ≤ high)
middle low high h = (omega arith, omega arith)

module _ (os : List ℕ) (offset : ℕ) (a : Ascending os) where
  search_finds :
      (fuel low high : ℕ)
      → high ≤ low + fuel
      → high < length os
      → low < count_upto offset os
      → count_upto offset os ≤ high + 1
      → low ≤ high
      → search fuel os offset low high + 1 ≡ count_upto offset os
  unfolding search
  search_finds zero low high f r l u d = ground arith
  search_finds (suc fuel) low high f r l u d =
      let mid = (low + high + 1) / 2 in
      ground (
        arith,
        middle low high,
        leb-offset_at offset os mid a,
        search_finds fuel mid high,
        search_finds fuel low (mid - 1),
      )

-- The line and the column behind a text, by walking over it.
pub walk : Text → ℕ × ℕ → ℕ × ℕ
walk [] p = p
walk (c ∷ s) (line, column) = walk s (if c == 10 then (line + 1, 1) else (line, column + 1))

newline_ends-above : (at : ℕ) (s : Text) (o : ℕ) → o ≤ at → All (λ p. o < p) (newline_ends at s)
unfolding newline_ends
newline_ends-above at [] o h = tt
newline_ends-above at (c ∷ s) o h = ground (arith, newline_ends-above (at + 1) s o)

newline_ends-Ascending : (at : ℕ) (s : Text) → Ascending (newline_ends at s)
unfolding newline_ends
newline_ends-Ascending at [] = tt
newline_ends-Ascending at (c ∷ s) =
    ground (arith, newline_ends-Ascending (at + 1) s, newline_ends-above (at + 1) s (at + 1))

-- A walk of some characters from an offset on a line that starts at another one.
walk-newline_ends :
    (n at start line column offset : ℕ) (s : Text)
    → n ≤ length s
    → start ≤ at
    → at + n ≡ offset
    → column ≡ at - start + 1
    → let k = count_upto offset (newline_ends at s) in
      walk (take n s) (line, column)
      ≡ (line + k, offset - offset_at (start ∷ newline_ends at s) k + 1)
unfolding newline_ends count_upto walk
walk-newline_ends zero at start line column offset s h d e f = ground (
  arith,
  count_upto-none offset (newline_ends at s) (newline_ends-above at s offset (omega arith)),
)
walk-newline_ends (suc n) at start line column offset [] h d e f = absurd (omega arith)
walk-newline_ends (suc n) at start line column offset (c ∷ s) h d e f =
    elim (Bool-cases (c == 10)) [
      | inl feed ↦ ground (
        arith,
        feed,
        walk-newline_ends n (at + 1) (at + 1) (line + 1) 1 offset s (omega arith) (omega arith)
            (omega arith) (omega arith),
      )
      | inr other ↦ ground (
        arith,
        other,
        walk-newline_ends n (at + 1) start line (column + 1) offset s (omega arith) (omega arith)
            (omega arith) (omega arith),
      )
    ]

take-min : (n : ℕ) (s : Text) → take (min n (length s)) s ≡ take n s
take-min zero s = ground arith
take-min (suc n) [] = ground arith
take-min (suc n) (c ∷ s) = ground (arith, take-min n s)

abbrev line_starts : Text → List ℕ
line_starts text = 0 ∷ newline_ends 0 text

count_upto-first :
    (offset : ℕ) (os : List ℕ) → count_upto offset (0 ∷ os) ≡ suc (count_upto offset os)
unfolding count_upto
count_upto-first offset os = ground arith

search-line_starts :
    (text : Text) (offset : ℕ)
    → search (length (line_starts text)) (line_starts text) offset 0 (length (line_starts text) - 1)
      ≡ count_upto offset (newline_ends 0 text)
search-line_starts text offset =
    let os = line_starts text in
    let ends = newline_ends 0 text in
    omega (
      arith,
      count_upto-first offset ends,
      search_finds os offset
          (newline_ends-above 0 text 0 (omega arith), newline_ends-Ascending 0 text) (length os) 0
          (length os - 1) (omega arith) (omega arith) (omega (arith, count_upto-first offset ends))
          (omega (arith, count_upto-first offset ends, count_upto-le offset ends)) (omega arith),
    )

-- For every text and offset the search gives the line and the column that walking over the text
-- up to the offset, or over all of it where it is shorter, gives.
pub position-walk :
    (text : Text) (offset : ℕ) → position (line_index text) offset ≡ walk (take offset text) (1, 1)
unfolding position line_index
position-walk text offset =
    let at = min offset (length text) in
    ground (
      arith,
      take-min offset text,
      search-line_starts text at,
      walk-newline_ends at 0 0 1 1 at text (omega arith) (omega arith) (omega arith) (omega arith),
    )

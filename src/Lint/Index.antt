-- ===== src/Lint/Index.antt =====
-- src/hpc_gui/lint/engine.py: `_LineIndex`.
pub mod Position
use hpc_client_gui.Base.{
  ℕ, zero, suc, ◌+◌, ◌-◌, ◌/◌, List, [], ◌∷◌, Bool, true, false, ◌==◌, leb, ltb, if◌then◌else◌,
  length, min,
}
use hpc_client_gui.Base.Text.{Text}

pub record LineIndex : Type 0 where
  pub offsets : List ℕ
  pub text_length : ℕ

-- The ends of the matches of the line feed, in a text that starts at the given offset.
unfoldable pub newline_ends : ℕ → Text → List ℕ
newline_ends at [] = []
newline_ends at (c ∷ s) =
    let rest = newline_ends (at + 1) s in if c == 10 then (at + 1) ∷ rest else rest

unfoldable pub line_index : Text → LineIndex
line_index text = record { offsets = 0 ∷ newline_ends 0 text; text_length = length text }

-- `offsets[i]`, for an index in range.
abbrev pub offset_at : List ℕ → ℕ → ℕ
offset_at [] i = 0
offset_at (o ∷ os) zero = o
offset_at (o ∷ os) (suc i) = offset_at os i

-- The loop of the search, with as many rounds as there are offsets.
unfoldable pub search : ℕ → List ℕ → ℕ → ℕ → ℕ → ℕ
search zero offsets offset low high = low
search (suc fuel) offsets offset low high =
    let mid = (low + high + 1) / 2 in
    let right = search fuel offsets offset mid high in
    let left = search fuel offsets offset low (mid - 1) in
    if ltb low high then (if leb (offset_at offsets mid) offset then right else left) else low

-- `position`; a negative offset is given as zero, which the code treats alike.
unfoldable pub position : LineIndex → ℕ → ℕ × ℕ
position index offset =
    let offset = min offset index.text_length in
    let low = search (length index.offsets) index.offsets offset 0 (length index.offsets - 1) in
    (low + 1, offset - offset_at index.offsets low + 1)

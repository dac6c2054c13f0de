-- ===== src/Transfer/Lines.antt =====
-- src/hpc_gui/services/transfer_mode.py: `_flush_normalized_lines`, and the whole-file
-- normalisation of `_ascii_bytes_for_remote` and `_ascii_bytes_for_local`.
pub mod Machine
pub mod Whole
use hpc_client_gui.Base.{ℕ, List, [], ◌∷◌, ◌++◌, Bool, true, false, ◌==◌}
use hpc_client_gui.Base.Text.{Text, starts_with, replace}

abbrev pub cr : ℕ
cr = 13

abbrev pub lf : ℕ
lf = 10

-- The `while index < length` loop: the parts appended from here on, and the final `pending_cr`.
unfoldable pub flush_loop : Text → Text → Text × Bool
flush_loop newline [] = ([], false)
flush_loop newline (c ∷ []) = elim (c == cr) [
  | true ↦ ([], true)
  | false ↦ elim (c == lf) [ true ↦ (newline ++ [], false) | false ↦ (c ∷ [], false) ]
]
flush_loop newline (c ∷ d ∷ s) = elim (c == cr) [
  | true ↦ elim (d == lf) [
    | true ↦ let (out, pending) = flush_loop newline s in (newline ++ out, pending)
    | false ↦ let (out, pending) = flush_loop newline (d ∷ s) in (newline ++ out, pending)
  ]
  | false ↦
      let (out, pending) = flush_loop newline (d ∷ s) in
      elim (c == lf) [ true ↦ (newline ++ out, pending) | false ↦ (c ∷ out, pending) ]
]

-- `text[1:]` where the text starts with a line feed.
unfoldable pub skip_lf : Text → Text
skip_lf [] = []
skip_lf (c ∷ s) = elim (c == lf) [ true ↦ s | false ↦ c ∷ s ]

unfoldable pub flush : Text → Text → Bool → Text × Bool
unfolding flush_loop skip_lf
flush text newline false = flush_loop newline text
flush text newline true =
    let (out, pending) = flush_loop newline (skip_lf text) in (newline ++ out, pending)

-- `text.replace("\r\n", "\n").replace("\r", "\n")`
unfoldable pub to_unix : Text → Text
unfolding replace
to_unix text = replace (replace text (cr ∷ lf ∷ []) (lf ∷ [])) (cr ∷ []) (lf ∷ [])

-- The text that `_ascii_bytes_for_local` encodes, with the platform's `os.linesep`.
unfoldable pub to_local : Text → Text → Text
unfolding to_unix replace
to_local linesep text = replace (to_unix text) (lf ∷ []) linesep

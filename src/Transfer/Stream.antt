-- ===== src/Transfer/Stream.antt =====
-- src/hpc_gui/services/transfer_mode.py: `_stream_utf8_lines`, `_ascii_bytes_for_remote` and
-- `_ascii_bytes_for_local`. A file written is the text that is encoded into it; `none` is the
-- `ValueError`, after which both callers delete the file.
pub mod Laws
use mathlib.Core.Option
use hpc_client_gui.Base.{
  ℕ, List, [], ◌∷◌, ◌++◌, Bool, true, false, if◌then◌else◌, Option, none, some,
}
use hpc_client_gui.Base.Text.{Text}
use hpc_client_gui.Transfer.Lines.{lf, flush, to_unix, to_local}
use hpc_client_gui.Transfer.Utf8.{Decoded, text, fault, decode, carry_split}

-- Behind the loop: the checks on `carry` and `pending_cr`.
unfoldable pub stream_end : Text → List ℕ → Bool → Option Text
stream_end newline [] pending = some (if pending then newline else [])
stream_end newline (b ∷ carry) pending = none

-- The `while True` loop over the chunks that `source.read` returns, the first empty one ending
-- it; the result is what is written from here on.
unfoldable pub stream_loop : Text → List ℕ → Bool → List (List ℕ) → Option Text
unfolding stream_end
stream_loop newline carry pending [] = stream_end newline carry pending
stream_loop newline carry pending ([] ∷ chunks) = stream_end newline carry pending
stream_loop newline carry pending ((b ∷ bs) ∷ chunks) = elim (carry_split (carry ++ (b ∷ bs))) [
  | none ↦ none
  | some (t, carry') ↦
      let (flushed, pending') = flush t newline pending in
      Option.map (λ rest. flushed ++ rest) (stream_loop newline carry' pending' chunks)
]

unfoldable pub stream_lines : Text → List (List ℕ) → Option Text
unfolding stream_loop carry_split flush
stream_lines newline chunks = stream_loop newline [] false chunks

-- `_ascii_bytes_for_remote`, less the `encode` of its result.
unfoldable pub ascii_for_remote : List ℕ → Option Text
unfolding to_unix
ascii_for_remote bytes = elim (decode bytes) [ text t ↦ some (to_unix t) | fault _ _ _ ↦ none ]

-- `_ascii_bytes_for_local`, less the `encode` of its result.
unfoldable pub ascii_for_local : Text → List ℕ → Option Text
unfolding to_local
ascii_for_local linesep bytes = elim (decode bytes) [
  | text t ↦ some (to_local linesep t)
  | fault _ _ _ ↦ none
]

-- ===== src/Transfer/Tests.antt =====
-- Runs of the transfer services, and their theorems at concrete inputs.
use hpc_client_gui.Base.{◌≡◌, refl, List, [], ◌∷◌, ◌++◌, some, inr, replicate, any, false, ◌==◌, ℕ}
use mathlib.Core.List.{flatten}
use hpc_client_gui.Base.Text.{codes}
use hpc_client_gui.Transfer.Utf8.{text, decode}
use hpc_client_gui.Transfer.Mode.{
  binary, ascii, mode, value_error, looks_binary, is_crowded, is_known_text_path,
  normalize_transfer_mode, resolve_transfer_mode,
}
use hpc_client_gui.Transfer.Mode.Laws.{
  resolve_transfer_mode_cases, looks_binary-false, resolve_transfer_mode-cut,
}
use hpc_client_gui.Transfer.Lines.{lf}
use hpc_client_gui.Transfer.Stream.{stream_lines, ascii_for_local, ascii_for_remote}
use hpc_client_gui.Transfer.Stream.Laws.{
  stream_lines-ascii_for_local, stream_lines-ascii_for_remote,
}

-- "é", then a carriage return and a line feed: both pairs of bytes are split by the chunks.
abbrev chunks : List (List ℕ)
chunks = (0xC3 ∷ []) ∷ (0xA9 ∷ 13 ∷ []) ∷ (10 ∷ b'x' ∷ 13 ∷ []) ∷ []

split_pairs : stream_lines (10 ∷ []) chunks ≡ some (0xE9 ∷ 10 ∷ b'x' ∷ 10 ∷ [])
unfolding stream_lines
split_pairs = refl

stream_lines-ascii_for_local_example :
    stream_lines (13 ∷ 10 ∷ []) chunks ≡ ascii_for_local (13 ∷ 10 ∷ []) (flatten chunks)
stream_lines-ascii_for_local_example =
    stream_lines-ascii_for_local (13 ∷ 10 ∷ []) chunks (λ e. cc, (λ e. cc, (λ e. cc, tt)))

stream_lines-ascii_for_remote_example :
    stream_lines (lf ∷ []) chunks ≡ ascii_for_remote (flatten chunks)
stream_lines-ascii_for_remote_example =
    stream_lines-ascii_for_remote chunks (λ e. cc, (λ e. cc, (λ e. cc, tt)))

mode_tests :
    (resolve_transfer_mode (codes "run/job.slurm") (codes " Auto ") (some (b'a' ∷ 10 ∷ []))
      ≡ mode ascii)
    × (resolve_transfer_mode (codes "run/.bashrc") (codes "auto") (some (b'a' ∷ [])) ≡ mode binary)
    × (resolve_transfer_mode (codes "a.txt") (codes "auto") (some (0 ∷ [])) ≡ mode binary)
    × (resolve_transfer_mode (codes "a.dat") (codes "ascii") (some (0 ∷ [])) ≡ value_error)
unfolding resolve_transfer_mode looks_binary decode is_crowded normalize_transfer_mode
    is_known_text_path
mode_tests = (refl, refl, refl, refl)

resolve_transfer_mode_cases_example :
    resolve_transfer_mode (codes "a.txt") (codes "auto") (some (b'a' ∷ [])) ≡ mode ascii
unfolding looks_binary decode is_crowded normalize_transfer_mode is_known_text_path
resolve_transfer_mode_cases_example =
    (resolve_transfer_mode_cases (codes "a.txt") (codes "auto") (b'a' ∷ [])).1.1
      (refl, inr (refl, refl))

abbrev filler : List ℕ
filler = replicate 8191 b'a'

filler_text : decode filler ≡ text filler
unfolding decode
filler_text = refl

resolve_transfer_mode-cut_example :
    resolve_transfer_mode (codes "a.txt") (codes "ascii") (some (filler ++ (0xC3 ∷ [])))
    ≡ value_error
resolve_transfer_mode-cut_example =
    (resolve_transfer_mode-cut (codes "a.txt") filler refl filler_text).1

looks_binary-false_example : any (λ b. b == 0) (b'a' ∷ 9 ∷ []) ≡ false
unfolding looks_binary decode is_crowded
looks_binary-false_example = (looks_binary-false (b'a' ∷ 9 ∷ []) refl).0

-- ===== src/Transfer/Upload/Laws.antt =====
-- What arrives of a file that is uploaded in a mode.
use mathlib.Core.List.{flatten}
use hpc_client_gui.Base.{
  ℕ, zero, suc, ◌≡◌, ◌≢◌, ◌≤◌, refl, ap, ◌∙◌, List, [], ◌∷◌, ◌++◌, Bool, true, All, all, length,
  length-drop, take, drop, Option, none, some, arith,
}
use hpc_client_gui.Base.Text.{Text}
use hpc_client_gui.Transfer.Stream.{ascii_for_remote}
use hpc_client_gui.Transfer.Stream.Laws.{stream_lines-ascii_for_remote}
use hpc_client_gui.Transfer.Mode.{
  Mode, auto, binary, ascii, mode, sample_size, resolve_transfer_mode,
}
use hpc_client_gui.Transfer.Partial.{Store, Answers, Outcome, store_of, is_finished, upload_remote}
use hpc_client_gui.Transfer.Partial.Prepare.{is_resumable, is_capable}
use hpc_client_gui.Transfer.Partial.Retry.{no_faults, attempts, retry_succeeds}
use hpc_client_gui.Transfer.Upload.{encode, chunks_of, attempted, payload, upload_with_mode}

take-append-drop : (n : ℕ) (bytes : List ℕ) → take n bytes ++ drop n bytes ≡ bytes
take-append-drop zero bytes = refl
take-append-drop (suc n) [] = refl
take-append-drop (suc n) (b ∷ bytes) = ap (λ r. b ∷ r) (take-append-drop n bytes)

cons-ne-nil : (b : ℕ) (bytes : List ℕ) → (b ∷ bytes) ≢ []
cons-ne-nil b bytes e = ground (arith, e)

-- The chunks make up the file, whatever their size.
pub flatten-chunks_of :
    (fuel : ℕ) (bytes : List ℕ) → length bytes ≤ fuel → flatten (chunks_of fuel bytes) ≡ bytes
unfolding chunks_of flatten
flatten-chunks_of zero [] h = refl
flatten-chunks_of zero (b ∷ bytes) h = ground (arith, h)
flatten-chunks_of (suc fuel) [] h = refl
flatten-chunks_of (suc fuel) (b ∷ bytes) h =
    ap (λ r. take sample_size (b ∷ bytes) ++ r)
      (flatten-chunks_of fuel (drop sample_size (b ∷ bytes))
        (ground (arith, h, length-drop sample_size (b ∷ bytes))))
    ∙ take-append-drop sample_size (b ∷ bytes)

pub chunks_of-All : (fuel : ℕ) (bytes : List ℕ) → All (λ chunk. chunk ≢ []) (chunks_of fuel bytes)
unfolding chunks_of
chunks_of-All zero bytes = tt
chunks_of-All (suc fuel) [] = tt
chunks_of-All (suc fuel) (b ∷ bytes) =
    (cons-ne-nil b _, chunks_of-All fuel (drop sample_size (b ∷ bytes)))

-- The bytes to arrive: the file as it is, or its text with line feeds.
abbrev pub encoded : Option Text → Option (List ℕ)
encoded none = none
encoded (some t) = some (encode t)

abbrev pub expected : Mode → List ℕ → Option (List ℕ)
expected binary bytes = some bytes
expected auto bytes = some bytes
expected ascii bytes = encoded (ascii_for_remote bytes)

payload-expected : (m : Mode) (bytes : List ℕ) → payload m bytes ≡ expected m bytes
unfolding payload
payload-expected binary bytes = refl
payload-expected auto bytes = refl
payload-expected ascii bytes = ap encoded (
    stream_lines-ascii_for_remote (chunks_of (length bytes) bytes)
      (chunks_of-All (length bytes) bytes)
    ∙ ap ascii_for_remote (flatten-chunks_of (length bytes) bytes (omega arith)))

-- A file that is fit for its mode arrives, after any attempts that were cut off, once no call of
-- the server raises: in binary as it is, in ASCII mode as the UTF-8 of its whole
-- text with every line end a line feed, wherever the chunks that are read end. The backend renames
-- and has the calls that the description of a partial file needs, and its `exists` never says no of
-- a partial file that is there; a partial file of this description was at first a prefix of the
-- bytes to arrive.
pub upload_with_mode-expected :
    (local requested remote identity : Text) (bytes sent : List ℕ) (m : Mode) (envs : List Answers)
    (hides : Bool) (s : Store)
    → resolve_transfer_mode local requested (some (take sample_size bytes)) ≡ mode m
    → expected m bytes ≡ some sent
    → all is_capable envs ≡ true
    → is_resumable remote identity sent s ≡ true
    → (o : Outcome) × (upload_with_mode local requested remote identity bytes
          (no_faults hides)
          (attempts remote identity sent envs s)
        ≡ attempted m o)
      × (is_finished o ≡ true)
      × (store_of o remote ≡ some sent)
unfolding upload_with_mode
upload_with_mode-expected local requested remote identity bytes sent m envs hides s resolved fit
      able resumable =
    let before = attempts remote identity sent envs s in
    let done = retry_succeeds remote identity sent envs hides s able resumable in
    (
      upload_remote remote identity sent (no_faults hides) before,
      ground (arith, resolved, payload-expected m bytes ∙ fit),
      done.1,
      done.2,
    )

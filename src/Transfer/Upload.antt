-- ===== src/Transfer/Upload.antt =====
-- src/hpc_gui/services/transfer_mode.py: `upload_with_mode`. The local file is there and can be
-- read; `identity` is the JSON of the path, the size and the time of the local file.
pub mod Laws
mod Tests
use hpc_client_gui.Base.{
  ℕ, zero, suc, ◌+◌, ◌*◌, ◌/◌, ◌%◌, List, [], ◌∷◌, ◌++◌, Bool, true, false, ltb, if◌then◌else◌,
  length, take, drop, Option, none, some,
}
use hpc_client_gui.Base.Text.{Text}
use hpc_client_gui.Transfer.Lines.{lf}
use hpc_client_gui.Transfer.Stream.{stream_lines}
use hpc_client_gui.Transfer.Mode.{
  Mode, auto, binary, ascii, Resolved, mode, value_error, sample_size, resolve_transfer_mode,
}
use hpc_client_gui.Transfer.Partial.{Store, Answers, Outcome, upload_remote}

-- `str.encode("utf-8")`
unfoldable pub encode_point : ℕ → List ℕ
encode_point c =
    if ltb c 0x80
    then c ∷ []
    else if ltb c 0x800
    then (0xC0 + c / 64) ∷ (0x80 + c % 64) ∷ []
    else if ltb c 0x10000
    then (0xE0 + c / 4096) ∷ (0x80 + (c / 64) % 64) ∷ (0x80 + c % 64) ∷ []
    else (0xF0 + c / 262144)
      ∷ (0x80 + (c / 4096) % 64)
      ∷ (0x80 + (c / 64) % 64)
      ∷ (0x80 + c % 64)
      ∷ []

unfoldable pub encode : Text → List ℕ
unfolding encode_point
encode [] = []
encode (c ∷ t) = encode_point c ++ encode t

-- What `source.read(CHUNK_SIZE)` returns up to the end of the file, which has at most as many
-- chunks as bytes.
unfoldable pub chunks_of : ℕ → List ℕ → List (List ℕ)
chunks_of zero bytes = []
chunks_of (suc fuel) [] = []
chunks_of (suc fuel) (b ∷ bytes) =
    take sample_size (b ∷ bytes) ∷ chunks_of fuel (drop sample_size (b ∷ bytes))

-- An attempt with the mode it returns, or the ValueError of a file that is not fit for the mode,
-- before which no call of the server is made.
pub data Uploaded : Type 0 where
  unfit : Uploaded
  attempted : Mode → Outcome → Uploaded

-- The bytes that are uploaded.
unfoldable pub payload : Mode → List ℕ → Option (List ℕ)
payload binary bytes = some bytes
payload auto bytes = some bytes
payload ascii bytes = elim (stream_lines (lf ∷ []) (chunks_of (length bytes) bytes)) [
  | none ↦ none
  | some t ↦ some (encode t)
]

-- `upload_with_mode`
unfoldable pub upload_with_mode : Text → Text → Text → Text → List ℕ → Answers → Store → Uploaded
upload_with_mode local requested remote identity bytes env s =
    elim (resolve_transfer_mode local requested (some (take sample_size bytes))) [
      | value_error ↦ unfit
      | mode m ↦ elim (payload m bytes) [
        | none ↦ unfit
        | some sent ↦ attempted m (upload_remote remote identity sent env s)
      ]
    ]

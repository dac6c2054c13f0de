-- ===== src/Transfer/Upload/Tests.antt =====
-- Uploads at concrete files.
use hpc_client_gui.Base.{
  ℕ, ◌≡◌, ◌⊎◌, refl, List, [], ◌∷◌, true, false, take, none, some, if◌then◌else◌,
}
use hpc_client_gui.Base.Text.{Text, codes, text_eq}
use hpc_client_gui.Transfer.Mode.{
  ascii, mode, sample_size, resolve_transfer_mode, looks_binary, is_crowded,
  normalize_transfer_mode,
}
use hpc_client_gui.Transfer.Utf8.{decode}
use hpc_client_gui.Transfer.Stream.{ascii_for_remote}
use hpc_client_gui.Transfer.Partial.{
  move, Store, broken, Answers, Outcome, store_of, is_finished, uploaded, prepare, upload_to,
  upload_remote,
}
use hpc_client_gui.Transfer.Partial.Retry.{no_faults, attempts, retry_succeeds}
use hpc_client_gui.Transfer.Upload.{encode, attempted, upload_with_mode}
use hpc_client_gui.Transfer.Upload.Laws.{expected, upload_with_mode-expected}

abbrev fresh_store : Store
fresh_store path = none

-- The connection breaks when three bytes are written.
abbrev cut_off : Answers
cut_off = record {
  renames = true;
  exists_fault = none;
  read_fault = none;
  remove_fault = none;
  remove_again_fault = none;
  write_fault = none;
  hides_size = false;
  hides_size_again = false;
  upload_fault = some (broken, some 3);
  rename_fault = none;
  misses_partial = false;
  upload_again_fault = none;
  clean_fault = none;
}

abbrev target : Text
target = codes "/t"

abbrev description : Text
description = codes "id"

-- Three lines with the ends of Windows, and their form with line feeds.
abbrev windows_bytes : List ℕ
windows_bytes = 97 ∷ 13 ∷ 10 ∷ 98 ∷ 13 ∷ 10 ∷ 99 ∷ []

abbrev unix_bytes : List ℕ
unix_bytes = 97 ∷ 10 ∷ 98 ∷ 10 ∷ 99 ∷ []

-- The description does not have the mode: an upload in ASCII mode goes on behind the bytes that
-- a binary upload of the same file has left, and returns with a file that is neither.
modes_are_mixed :
    store_of
      (upload_remote target description unix_bytes
        (no_faults false)
        (attempts target description windows_bytes (cut_off ∷ []) fresh_store))
      target
    ≡ some (97 ∷ 13 ∷ 10 ∷ 10 ∷ 99 ∷ [])
unfolding upload_remote attempts prepare upload_to move uploaded text_eq
modes_are_mixed = refl

-- A partial file of something else, which `exists` misses: the upload goes on behind its bytes and
-- returns, and the target is neither.
abbrev foreign_store : Store
foreign_store path = if text_eq path (codes "/t.part") then some (120 ∷ 121 ∷ []) else none

missed_partial_is_kept :
    store_of
      (upload_remote target description unix_bytes
        (record (no_faults false) { misses_partial = true })
        foreign_store)
      target
    ≡ some (120 ∷ 121 ∷ 98 ∷ 10 ∷ 99 ∷ [])
unfolding upload_remote prepare upload_to move uploaded text_eq
missed_partial_is_kept = refl

retry_succeeds_example :
    let before = attempts target description windows_bytes (cut_off ∷ []) fresh_store in
    let o = upload_remote target description windows_bytes (no_faults false) before in
    ((before target ≡ fresh_store target) ⊎ (before target ≡ some windows_bytes))
    × (is_finished o ≡ true)
    × (store_of o target ≡ some windows_bytes)
retry_succeeds_example =
    retry_succeeds target description windows_bytes (cut_off ∷ []) false fresh_store refl refl

is_ascii :
    resolve_transfer_mode (codes "a.txt") (codes "ascii") (some (take sample_size windows_bytes))
    ≡ mode ascii
unfolding resolve_transfer_mode looks_binary decode is_crowded normalize_transfer_mode
is_ascii = refl

is_converted : expected ascii windows_bytes ≡ some unix_bytes
unfolding ascii_for_remote decode encode
is_converted = refl

upload_with_mode-expected_example :
    (o : Outcome) × (upload_with_mode
        (codes "a.txt")
        (codes "ascii")
        target
        description
        windows_bytes
        (no_faults false)
        (attempts target description unix_bytes (cut_off ∷ []) fresh_store)
      ≡ attempted ascii o)
    × (is_finished o ≡ true)
    × (store_of o target ≡ some unix_bytes)
upload_with_mode-expected_example =
    upload_with_mode-expected (codes "a.txt") (codes "ascii") target description windows_bytes
      unix_bytes ascii (cut_off ∷ []) false fresh_store is_ascii is_converted refl refl

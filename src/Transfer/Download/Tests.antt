-- ===== src/Transfer/Download/Tests.antt =====
-- Downloads at concrete files.
use hpc_client_gui.Base.{ℕ, ◌≡◌, refl, List, [], ◌∷◌, true, false, if◌then◌else◌, take, none, some}
use hpc_client_gui.Base.Text.{Text, codes}
use hpc_client_gui.Transfer.Mode.{
  ascii, mode, sample_size, resolve_transfer_mode, looks_binary, is_crowded,
  normalize_transfer_mode,
}
use hpc_client_gui.Transfer.Utf8.{decode}
use hpc_client_gui.Transfer.Stream.{ascii_for_local}
use hpc_client_gui.Transfer.Partial.{Store, broken}
use hpc_client_gui.Transfer.Upload.{encode}
use hpc_client_gui.Transfer.Download.{Replies, files_of, is_received, download_with_mode}
use hpc_client_gui.Transfer.Download.Arrival.{expected, Arrives, download_with_mode_again}

abbrev target : Text
target = codes "/t"

abbrev description : Text
description = codes "id"

abbrev unix_bytes : List ℕ
unix_bytes = 97 ∷ 10 ∷ 98 ∷ []

abbrev windows_bytes : List ℕ
windows_bytes = 97 ∷ 13 ∷ 10 ∷ 98 ∷ []

abbrev windows_end : Text
windows_end = 13 ∷ 10 ∷ []

abbrev fresh_store : Store
fresh_store path = none

abbrev cut_off : Replies
cut_off = record {
  has_stat = true;
  stat_fault = none;
  hides_size = false;
  hides_size_again = false;
  download_fault = some (broken, some 2);
  download_again_fault = none;
}

is_ascii :
    resolve_transfer_mode (codes "a.txt") (codes "ascii") (some (take sample_size unix_bytes))
    ≡ mode ascii
unfolding resolve_transfer_mode looks_binary decode is_crowded normalize_transfer_mode
is_ascii = refl

is_converted : expected windows_end ascii unix_bytes ≡ some windows_bytes
unfolding ascii_for_local decode encode
is_converted = refl

download_with_mode_again_example :
    let o =
      download_with_mode target description windows_end
        (codes "a.txt")
        (codes "ascii")
        unix_bytes
        cut_off
        fresh_store in
    ((if is_received o then fresh_store target else files_of o target) ≡ fresh_store target)
    × Arrives target description unix_bytes windows_end
        (codes "a.txt")
        (codes "ascii")
        ascii
        windows_bytes
        (download_with_mode target description windows_end
          (codes "a.txt")
          (codes "ascii")
          unix_bytes
          (record {
            has_stat = true;
            stat_fault = none;
            hides_size = false;
            download_fault = none;
            hides_size_again = false;
            download_again_fault = none;
          })
          (files_of o))
download_with_mode_again_example =
    download_with_mode_again target description unix_bytes windows_end (codes "a.txt")
      (codes "ascii") ascii windows_bytes cut_off false fresh_store refl is_ascii is_converted refl

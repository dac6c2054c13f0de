-- ===== src/Transfer/Download.antt =====
-- src/hpc_gui/services/transfer_mode.py: `download_with_mode`, over the `download` of
-- src/hpc_gui/services/files_ssh.py. Local files can be read and written; the description of a
-- partial file is compared as the text that this function writes.
pub mod Laws
pub mod Arrival
mod Tests
use hpc_client_gui.Base.{
  ℕ, List, [], ◌∷◌, ◌++◌, Bool, true, false, not, ◌&&◌, if◌then◌else◌, length, take, Option, none,
  some,
}
use hpc_client_gui.Base.Text.{Text, codes, text_eq}
use hpc_client_gui.Transfer.Stream.{stream_lines}
use hpc_client_gui.Transfer.Mode.{
  Mode, auto, binary, ascii, Resolved, mode, value_error, sample_size, resolve_transfer_mode,
}
use hpc_client_gui.Transfer.Partial.{
  Store, set_file, Fault, Outcome, finished, raised, contents_of, move, once_more, partial_path,
  meta_path,
}
use hpc_client_gui.Transfer.Upload.{encode, chunks_of}

-- What the environment answers: whether the backend has `stat`, and what the calls raise; the second
-- download is the one after a TypeError or ValueError of the first.
pub record Replies : Type 0 where
  pub has_stat : Bool
  pub stat_fault : Option Fault
  pub hides_size : Bool
  pub download_fault : Option (Fault × Option ℕ)
  pub hides_size_again : Bool
  pub download_again_fault : Option (Fault × Option ℕ)

-- `unfit` is the ValueError of a file that is not fit for the mode.
pub data Downloaded : Type 0 where
  received : Mode → Store → Downloaded
  interrupted : Fault → Store → Downloaded
  unfit : Store → Downloaded

abbrev pub files_of : Downloaded → Store
files_of (received m s) = s
files_of (interrupted e s) = s
files_of (unfit s) = s

abbrev pub is_received : Downloaded → Bool
is_received (received m s) = true
is_received (interrupted e s) = false
is_received (unfit s) = false

abbrev pub converted_path : Text → Text
converted_path destination = destination ++ codes ".tmp"

abbrev pub is_file_text : Text → Option Text → Bool
is_file_text identity none = false
is_file_text identity (some said) = text_eq said identity

module _ (destination identity : Text) where
  -- A partial file of something else is deleted, and the description written.
  abbrev pub describe : Store → Store
  describe s =
      let same = is_file_text identity (s (meta_path destination)) in
      set_file (meta_path destination) (some identity) (
        set_file (partial_path destination) (if same then s (partial_path destination) else none) s)

  -- The partial file takes the place of the destination.
  abbrev pub replace_whole : Store → Store
  replace_whole s = set_file (meta_path destination) none (
      set_file (partial_path destination) none
        (set_file destination (s (partial_path destination)) s))

  -- The converted text does, by way of the `.tmp` file, which is gone in any case.
  abbrev pub replace_converted : Text → Store → Store
  replace_converted t s = set_file (meta_path destination) none (
      set_file (partial_path destination) none
        (set_file (converted_path destination) none (set_file destination (some (encode t)) s)))

  abbrev pub finish : Text → Mode → Store → Downloaded
  finish linesep binary s = received binary (replace_whole s)
  finish linesep auto s = received auto (replace_whole s)
  finish linesep ascii s =
      let part = contents_of (s (partial_path destination)) in
      elim (stream_lines linesep (chunks_of (length part) part)) [
        | none ↦ unfit (set_file (converted_path destination) none s)
        | some t ↦ received ascii (replace_converted t s)
      ]

  abbrev pub convert : Text → Text → Text → Store → Downloaded
  convert linesep remote requested s =
      elim (resolve_transfer_mode remote requested
        (some (take sample_size (contents_of (s (partial_path destination)))))) [
          | value_error ↦ unfit s
          | mode m ↦ finish linesep m s
        ]

  -- What follows `_download_file`.
  abbrev pub conclude : Text → Text → Text → Outcome → Downloaded
  conclude linesep remote requested (finished s) = convert linesep remote requested s
  conclude linesep remote requested (raised e s) = interrupted e s

  -- `_download_file` into the partial file, and what follows.
  abbrev pub download_part : Text → Text → Text → Text → Replies → Store → Downloaded
  download_part linesep remote requested source replies s = conclude linesep remote requested (
      once_more (move source replies.hides_size replies.download_fault (partial_path destination) s)
        (move source replies.hides_size_again replies.download_again_fault
          (partial_path destination)))

  -- `download_with_mode`
  unfoldable pub download_with_mode : Text → Text → Text → Text → Replies → Store → Downloaded
  download_with_mode linesep remote requested source replies s =
      if not replies.has_stat
      then download_part linesep remote requested source replies s
      else (elim replies.stat_fault [
        | some e ↦ interrupted e s
        | none ↦ download_part linesep remote requested source replies (describe s)
      ])

-- ===== src/Transfer/Partial.antt =====
-- src/hpc_gui/services/transfer_mode.py: `_upload_remote`, over the `upload` of
-- src/hpc_gui/services/files_ssh.py, which goes on where a partial file ends. The calls of the
-- server are answered by the environment, and each may raise; the `exists` of files_ssh.py raises
-- nothing, and says that a file is not there where the server does not answer.
pub mod Prefix
pub mod Prepare
pub mod Safe
pub mod Retry
use hpc_client_gui.Base.{
  ℕ, List, [], ◌∷◌, ◌++◌, Bool, true, false, not, ◌&&◌, ltb, ◌==◌, if◌then◌else◌, length, take,
  drop, Option, none, some,
}
use hpc_client_gui.Base.Text.{Text, codes, text_eq}

-- The files of the server by their paths.
abbrev pub Store : Type 0
Store = Text → Option Text

-- A file with other contents, or none.
abbrev pub set_file : Text → Option Text → Store → Store
set_file path contents s other = if text_eq other path then contents else s other

-- The exceptions that `_upload_remote` and `_upload_file` tell apart: AttributeError and
-- NotImplementedError, a FileNotFoundError, TypeError and ValueError, any other.
pub data Fault : Type 0 where
  unsupported not_found mistyped broken : Fault

-- What the environment answers to the calls of one attempt, in their order; a call that raises
-- may leave a part of its work done; an upload that raises before it opens the file has no cut.
-- `misses_partial` tells that `exists` says no of a partial file that is there; the second upload is
-- the one after a TypeError or ValueError of the first.
pub record Answers : Type 0 where
  pub renames : Bool
  pub exists_fault : Option Fault
  pub misses_partial : Bool
  pub read_fault : Option Fault
  pub remove_fault : Option Fault
  pub remove_again_fault : Option Fault
  pub write_fault : Option (Fault × Option Text)
  pub hides_size : Bool
  pub upload_fault : Option (Fault × Option ℕ)
  pub hides_size_again : Bool
  pub upload_again_fault : Option (Fault × Option ℕ)
  pub rename_fault : Option Fault
  pub clean_fault : Option Fault

pub data Outcome : Type 0 where
  finished : Store → Outcome
  raised : Fault → Store → Outcome

abbrev pub store_of : Outcome → Store
store_of (finished s) = s
store_of (raised e s) = s

abbrev pub is_finished : Outcome → Bool
is_finished (finished s) = true
is_finished (raised e s) = false

abbrev pub then_with : Outcome → (Store → Outcome) → Outcome
then_with (finished s) next = next s
then_with (raised e s) next = raised e s

abbrev pub contents_of : Option Text → Text
contents_of none = []
contents_of (some t) = t

abbrev pub sent : Option ℕ → Text → Text
sent none bytes = bytes
sent (some n) bytes = take n bytes

-- `upload` of files_ssh.py: what the remote file is afterwards. `hidden` tells that its size cannot
-- be asked for; a cut is the number of bytes that are written before an exception.
unfoldable pub uploaded : Text → Bool → Option ℕ → Text → Text
uploaded source hidden cut old =
    let local_size = length source in
    let remote_size = if hidden then 0 else length old in
    if remote_size == local_size && ltb 0 local_size
    then old
    else if ltb 0 remote_size && ltb remote_size local_size
    then old ++ sent cut (drop remote_size source)
    else sent cut source

-- An exception that `except (AttributeError, NotImplementedError): pass` takes.
abbrev pub absorb : Outcome → Outcome
absorb (finished s) = finished s
absorb (raised unsupported s) = finished s
absorb (raised not_found s) = raised not_found s
absorb (raised mistyped s) = raised mistyped s
absorb (raised broken s) = raised broken s

-- The last one, which takes a FileNotFoundError too.
abbrev pub absorb_missing : Outcome → Outcome
absorb_missing (finished s) = finished s
absorb_missing (raised unsupported s) = finished s
absorb_missing (raised not_found s) = finished s
absorb_missing (raised mistyped s) = raised mistyped s
absorb_missing (raised broken s) = raised broken s

-- One call of `upload`, or of `download`, that moves the source to a path.
unfoldable pub move : Text → Bool → Option (Fault × Option ℕ) → Text → Store → Outcome
move source hidden fault path s =
    let at : Option ℕ → Store =
      λ cut. set_file path (some (uploaded source hidden cut (contents_of (s path)))) s in
    elim fault [
      | none ↦ finished (at none)
      | some (e, none) ↦ raised e s
      | some (e, some n) ↦ raised e (at (some n))
    ]

-- `except (TypeError, ValueError): pass`, and the call behind it.
abbrev pub once_more : Outcome → (Store → Outcome) → Outcome
once_more (finished s) again = finished s
once_more (raised unsupported s) again = raised unsupported s
once_more (raised not_found s) again = raised not_found s
once_more (raised mistyped s) again = again s
once_more (raised broken s) again = raised broken s

abbrev pub partial_path : Text → Text
partial_path remote = remote ++ codes ".part"

abbrev pub meta_path : Text → Text
meta_path remote = partial_path remote ++ codes ".meta"

-- A call that does its work or raises and leaves the files as they are.
abbrev pub call : Option Fault → Store → Store → Outcome
call none before after = finished after
call (some e) before after = raised e before

module _ (remote identity source : Text) where
  abbrev pub without_partial : Store → Store
  without_partial s = set_file (partial_path remote) none s

  -- The `except Exception` of the inner `try`.
  abbrev pub remove_again : Answers → Store → Outcome
  remove_again env s = call env.remove_again_fault s (without_partial s)

  -- A partial file that is there is kept where its description is the identity.
  abbrev pub judge : Answers → Option Text → Store → Outcome
  judge env none s = remove_again env s
  judge env (some said) s = if text_eq said identity then finished s else (elim env.remove_fault [
    | none ↦ finished (without_partial s)
    | some e ↦ remove_again env s
  ])

  abbrev pub inspect : Answers → Store → Outcome
  inspect env s = elim (s (partial_path remote)) [
    | none ↦ finished s
    | some old ↦ if env.misses_partial then finished s else (elim env.read_fault [
      | none ↦ judge env (s (meta_path remote)) s
      | some e ↦ remove_again env s
    ])
  ]

  abbrev pub write_meta : Answers → Store → Outcome
  write_meta env s = elim env.write_fault [
    | none ↦ finished (set_file (meta_path remote) (some identity) s)
    | some (e, left) ↦ raised e (set_file (meta_path remote) left s)
  ]

  -- The outer `try`.
  unfoldable pub prepare : Answers → Store → Outcome
  prepare env s =
      absorb
        (then_with (call env.exists_fault s s) (λ s. then_with (inspect env s) (write_meta env)))

  -- `_upload_file` to a path.
  unfoldable pub upload_to : Answers → Text → Store → Outcome
  upload_to env path s =
      once_more (move source env.hides_size env.upload_fault path s)
        (move source env.hides_size_again env.upload_again_fault path)

  abbrev pub rename_partial : Answers → Store → Outcome
  rename_partial env s =
      call env.rename_fault s (without_partial (set_file remote (s (partial_path remote)) s))

  abbrev pub clean : Answers → Store → Outcome
  clean env s = absorb_missing (call env.clean_fault s (set_file (meta_path remote) none s))

  -- `_upload_remote`
  unfoldable pub upload_remote : Answers → Store → Outcome
  upload_remote env s =
      if not env.renames
      then upload_to env remote s
      else then_with (prepare env s) (λ s.
        then_with (upload_to env (partial_path remote) s)
          (λ s. then_with (rename_partial env s) (clean env)))

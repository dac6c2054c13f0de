-- ===== src/History/Tests.antt =====
-- A short history, with the commands themselves behind a mark for the lines of the file.
use Prim.Native.String.{String}
use hpc_client_gui.Base.{
  ℕ, ◌≤◌, ◌≡◌, refl, ap, List, [], ◌∷◌, ◌++◌, Bool, true, false, length, All, Option, none, some,
  arith,
}
use hpc_client_gui.Base.Text.{
  Text, codes, is_space, strip, lstrip_by, rstrip_by, starts_with, lower, text_eq,
}
use hpc_client_gui.History.{
  Call, call_add, is_sensitive_command, open_history, add, run, load_items, append_disk,
  any_pattern,
}
use hpc_client_gui.History.Recent.{NoRepeat}
use hpc_client_gui.History.Reload.{Reads, succeeding, reopened_history}
use hpc_client_gui.History.Safe.{IsPlain, history_safe}
use hpc_client_gui.History.Tidy.{history_tidy}

-- A search that finds only the word `token` at the start.
abbrev find_token : String → Text → Option Bool
find_token pattern low = some (starts_with low (codes "token"))

-- A line has a bracket on both sides of the command.
abbrev bracketed : Text → Text
bracketed cmd = b'[' ∷ (cmd ++ (b']' ∷ []))

abbrev without_last : Text → Text
without_last [] = []
without_last (c ∷ []) = []
without_last (c ∷ d ∷ s) = c ∷ without_last (d ∷ s)

abbrev unbracketed : Text → Option Text
unbracketed [] = none
unbracketed (c ∷ s) = some (without_last s)

without_last-snoc : (s : Text) (c : ℕ) → without_last (s ++ (c ∷ [])) ≡ s
without_last-snoc [] c = refl
without_last-snoc (d ∷ []) c = refl
without_last-snoc (d ∷ e ∷ s) c = ground (arith, without_last-snoc (e ∷ s) c)

rstrip_by-bracket : (s : Text) → rstrip_by is_space (s ++ (b']' ∷ [])) ≡ s ++ (b']' ∷ [])
unfolding rstrip_by is_space
rstrip_by-bracket [] = refl
rstrip_by-bracket (c ∷ []) = refl
rstrip_by-bracket (c ∷ d ∷ s) = ground (arith, rstrip_by-bracket (d ∷ s))

strip-bracketed : (cmd : Text) → strip (bracketed cmd) ≡ bracketed cmd
unfolding strip lstrip_by is_space
strip-bracketed cmd = rstrip_by-bracket (b'[' ∷ cmd)

bracketed-Reads : Reads find_token bracketed unbracketed
bracketed-Reads cmd = (strip-bracketed cmd, refl, ap some (without_last-snoc cmd b']'))

abbrev session : List (Call)
session =
    call_add (codes " ls ")
    ∷ call_add (codes "ls")
    ∷ call_add (codes "token=1")
    ∷ call_add (codes "pwd")
    ∷ []

reopened_history_example :
    let s =
      run find_token bracketed unbracketed
        (succeeding find_token bracketed unbracketed session)
        (open_history find_token bracketed unbracketed 2 none) in
    (open_history find_token bracketed unbracketed 2 s.file).items ≡ s.items
reopened_history_example =
    reopened_history find_token bracketed unbracketed 2 session (omega arith) bracketed-Reads

history_tidy_example :
    let s =
      run find_token bracketed unbracketed
        ((call_add (codes "ls"), false) ∷ [])
        (open_history find_token bracketed unbracketed 2 (some (codes "[ls]" ∷ []))) in
    (length s.items ≤ 2) × NoRepeat s.items
history_tidy_example =
    history_tidy find_token bracketed unbracketed 2 (some (codes "[ls]" ∷ []))
      ((call_add (codes "ls"), false) ∷ []) (omega arith)

history_safe_example :
    let s =
      run find_token bracketed unbracketed
        ((call_add (codes "token"), true) ∷ (call_add (codes "ls"), true) ∷ [])
        (open_history find_token bracketed unbracketed 2 none) in
    All (IsPlain find_token bracketed unbracketed) s.items
history_safe_example =
    (history_safe find_token bracketed unbracketed 2
      ((call_add (codes "token"), true) ∷ (call_add (codes "ls"), true) ∷ [])).0

sensitive_token : is_sensitive_command find_token (codes " TOKEN=1") ≡ true
unfolding is_sensitive_command any_pattern strip starts_with lower
sensitive_token = refl

kept_of_session :
    (run find_token bracketed unbracketed
      (succeeding find_token bracketed unbracketed session)
      (open_history find_token bracketed unbracketed 2 none)).items
    ≡ codes "ls" ∷ codes "pwd" ∷ []
unfolding run add append_disk open_history load_items is_sensitive_command any_pattern strip
    starts_with lower text_eq
kept_of_session = refl

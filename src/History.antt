-- ===== src/History.antt =====
-- src/hpc_gui/services/command_history_store.py: the history of commands and its file, whose lines are
-- given without their line feeds.
pub mod Strip
pub mod Recent
pub mod Reload
pub mod Tidy
pub mod Safe
mod Tests
use Prim.Native.String.{String}
use hpc_client_gui.Base.{
  ℕ, ◌+◌, ◌-◌, List, [], ◌∷◌, ◌++◌, Bool, true, false, not, ◌&&◌, ◌||◌, ◌==◌, ltb, if◌then◌else◌,
  length, drop, get_last?, is_empty, Option, none, some,
}
use hpc_client_gui.Base.Text.{Text, text_eq, strip, lower}

-- `_SENSITIVE_PATTERNS`, with the backslashes that the text of a pattern has.
abbrev pub sensitive_patterns : List String
sensitive_patterns =
    "\\b(pass(word|wd)?|parola|sifre|secret|token|apikey|api[_-]?key|bearer)\\b"
    ∷ "\\b(pass(word|wd)?|parola|sifre|secret|token|apikey|api[_-]?key)\\s*[:=]"
    ∷ "authorization\\s*:\\s*bearer\\s+" ∷ "\\bsshpass\\b" ∷ "\\b(-pw|--pw)\\b" ∷ []

-- `items[-n:]`, which for a zero is the whole list.
abbrev pub last_items : ℕ → List Text → List Text
last_items n items = if n == 0 then items else drop (length items - n) items

abbrev pub ends_with_command : List Text → Text → Bool
ends_with_command items cmd = elim (get_last? items) [ none ↦ false | some c ↦ text_eq c cmd ]

-- The loop that removes consecutive duplicates.
unfoldable pub clean_loop : List Text → List Text → List Text
clean_loop cleaned [] = cleaned
clean_loop cleaned (c ∷ cs) =
    let same = clean_loop cleaned cs in
    let more = clean_loop (cleaned ++ (c ∷ [])) cs in
    if ends_with_command cleaned c then same else more

pub record HistoryStore : Type 0 where
  pub max_items : ℕ
  pub items : List Text
  pub file : Option (List Text)

abbrev pub lines_of : Option (List Text) → List Text
lines_of none = []
lines_of (some lines) = lines

-- `clear_disk`
unfoldable pub clear_disk : Bool → HistoryStore → HistoryStore
clear_disk removes s = record s { items = []; file = if removes then none else s.file }

pub data Call : Type 0 where
  call_add : Text → Call
  call_clear : Call

-- `re.search`, `none` for an `re.error`.
module _ (search : String → Text → Option Bool) where
  unfoldable pub any_pattern : List String → Text → Bool
  any_pattern [] low = false
  any_pattern (p ∷ ps) low =
      let rest = any_pattern ps low in
      elim (search p low) [ none ↦ rest | some found ↦ if found then true else rest ]

  unfoldable pub is_sensitive_command : Text → Bool
  is_sensitive_command cmd =
      let s = strip cmd in if is_empty s then false else any_pattern sensitive_patterns (lower s)

  -- `dump` is `json.dumps({"cmd": cmd})`; `parse` is `json.loads(line).get("cmd") or ""`, `none`
  -- where that raises.
  module _ (dump : Text → Text) (parse : Text → Option Text) where
    -- The loop over the lines of the file.
    unfoldable pub read_lines : List Text → List Text
    read_lines [] = []
    read_lines (line ∷ lines) =
        let rest = read_lines lines in
        let line = strip line in
        if is_empty line then rest else elim (parse line) [
          | none ↦ rest
          | some cmd ↦ if is_empty (strip cmd) then rest else strip cmd ∷ rest
        ]

    -- `_load_from_disk`
    unfoldable pub load_items : ℕ → Option (List Text) → List Text
    load_items limit none = []
    load_items limit (some lines) = clean_loop [] (last_items limit (read_lines lines))

    unfoldable pub open_history : ℕ → Option (List Text) → HistoryStore
    open_history limit file = record {
      max_items = limit;
      items = load_items limit file;
      file = file;
    }

    -- `_append_disk`, which does nothing where writing fails.
    unfoldable pub append_disk : Bool → Text → HistoryStore → HistoryStore
    append_disk writes cmd s =
        if writes then record s { file = some (lines_of s.file ++ (dump cmd ∷ [])) } else s

    unfoldable pub add : Bool → Text → HistoryStore → HistoryStore
    add writes cmd s =
        let cmd = strip cmd in
        let more = s.items ++ (cmd ∷ []) in
        if is_empty cmd
        then s
        else if is_sensitive_command cmd
        then s
        else if ends_with_command s.items cmd
        then s
        else append_disk writes cmd (record s {
          items = if ltb s.max_items (length more) then last_items s.max_items more else more;
        })

    -- Calls of which each finds the file writable or not.
    unfoldable pub run : List (Call × Bool) → HistoryStore → HistoryStore
    run [] s = s
    run ((call_add cmd, writes) ∷ calls) s = run calls (add writes cmd s)
    run ((call_clear, removes) ∷ calls) s = run calls (clear_disk removes s)

-- ===== src/History/Reload.antt =====
-- A store that is opened again has the history of the one before.
use Prim.Native.String.{String}
use hpc_client_gui.Base.{
  ℕ, ◌≤◌, ◌≡◌, refl, sym, ap, List, [], ◌∷◌, ◌++◌, Bool, true, false, ◌||◌, if◌then◌else◌, is_empty,
  All, Option, none, some, arith, Option-cases, inl, inr,
}
use hpc_client_gui.Base.Text.{Text, strip}
use hpc_client_gui.History.{
  HistoryStore, Call, call_add, call_clear, is_sensitive_command, read_lines, load_items,
  open_history, append_disk, add, clear_disk, run, last_items, ends_with_command, lines_of,
}
use hpc_client_gui.History.Strip.{strip_idem}
use hpc_client_gui.History.Recent.{
  NoRepeat, NoRepeat-snoc, NoRepeat-last_items, last_items-snoc, ends_with_command-last_items,
  clean_loop-same,
}

module _ (search : String → Text → Option Bool) (dump : Text → Text)
    (parse : Text → Option Text) where
  -- A line has no space around it and is not empty, and it is read as the command.
  abbrev pub Reads : Type 0
  Reads =
      (cmd : Text)
      → (strip (dump cmd) ≡ dump cmd)
        × (is_empty (dump cmd) ≡ false)
        × (parse (dump cmd) ≡ some cmd)

  -- A command that `add` would write.
  abbrev pub IsKept : Text → Type 0
  IsKept c = (strip c ≡ c) × (is_empty c ≡ false) × (is_sensitive_command search c ≡ false)

  abbrev pub dumped : List Text → List Text
  dumped [] = []
  dumped (c ∷ cs) = dump c ∷ dumped cs

  read_lines-dumped :
      (cs : List Text) → Reads → All IsKept cs → read_lines search dump parse (dumped cs) ≡ cs
  unfolding read_lines
  read_lines-dumped [] reads k = refl
  read_lines-dumped (c ∷ cs) reads k = ground (arith, reads c, read_lines-dumped cs reads k.1, k.0)

  dumped-snoc : (cs : List Text) (c : Text) → dumped cs ++ (dump c ∷ []) ≡ dumped (cs ++ (c ∷ []))
  dumped-snoc [] c = refl
  dumped-snoc (d ∷ cs) c = ap (λ t. dump d ∷ t) (dumped-snoc cs c)

  IsKept-snoc : (cs : List Text) (c : Text) → All IsKept cs → IsKept c → All IsKept (cs ++ (c ∷ []))
  IsKept-snoc [] c k h = (h, tt)
  IsKept-snoc (d ∷ cs) c k h = (k.0, IsKept-snoc cs c k.1 h)

  -- The store after the commands that have been kept since the file was last removed.
  pub record Holds (limit : ℕ) (cs : List Text) (s : HistoryStore) : Type 0 where
    pub limit_same : s.max_items ≡ limit
    pub recent : s.items ≡ last_items limit cs
    pub written : lines_of s.file ≡ dumped cs
    pub kept : All IsKept cs
    pub no_repeat : NoRepeat cs

  -- The commands kept behind a call of `add`.
  next : List Text → Text → List Text
  next cs cmd =
      if is_empty (strip cmd)
        || is_sensitive_command search (strip cmd)
        || ends_with_command cs (strip cmd)
      then cs
      else cs ++ (strip cmd ∷ [])

  Holds-add :
      (limit : ℕ) (cs : List Text) (s : HistoryStore) (cmd : Text)
      → 1 ≤ limit
      → Holds limit cs s
      → Holds limit (next cs cmd) (add search dump parse true cmd s)
  unfolding add append_disk next
  Holds-add limit cs s cmd l h =
      let c = strip cmd in
      ground (
        arith,
        strip_idem cmd,
        last_items-snoc limit cs c l,
        ends_with_command-last_items limit cs c l,
        dumped-snoc cs c,
        IsKept-snoc cs c h.kept,
        NoRepeat-snoc cs c h.no_repeat,
      )

  Holds-clear :
      (limit : ℕ) (cs : List Text) (s : HistoryStore)
      → Holds limit cs s
      → Holds limit [] (clear_disk true s)
  unfolding clear_disk
  Holds-clear limit cs s h = ground (arith, h.limit_same)

  -- Calls that all find the file writable.
  abbrev pub succeeding : List (Call) → List (Call × Bool)
  succeeding [] = []
  succeeding (c ∷ calls) = (c, true) ∷ succeeding calls

  commands : List (Call) → List Text → List Text
  commands [] cs = cs
  commands (call_add cmd ∷ calls) cs = commands calls (next cs cmd)
  commands (call_clear ∷ calls) cs = commands calls []

  Holds-run :
      (limit : ℕ) (calls : List (Call)) (cs : List Text) (s : HistoryStore)
      → 1 ≤ limit
      → Holds limit cs s
      → Holds limit (commands calls cs) (run search dump parse (succeeding calls) s)
  unfolding run commands
  Holds-run limit [] cs s l h = h
  Holds-run limit (call_add cmd ∷ calls) cs s l h =
      Holds-run limit calls (next cs cmd) (add search dump parse true cmd s) l
        (Holds-add limit cs s cmd l h)
  Holds-run limit (call_clear ∷ calls) cs s l h =
      Holds-run limit calls [] (clear_disk true s) l (Holds-clear limit cs s h)

  Holds-open : (limit : ℕ) → Holds limit [] (open_history search dump parse limit none)
  unfolding open_history load_items
  Holds-open limit = ground arith

  dumped-nil : (cs : List Text) → [] ≡ dumped cs → cs ≡ []
  dumped-nil [] e = refl
  dumped-nil (c ∷ cs) e = ground (arith, sym e)

  load_items-Holds :
      (limit : ℕ) (cs : List Text) (s : HistoryStore)
      → Reads
      → Holds limit cs s
      → load_items search dump parse limit s.file ≡ s.items
  unfolding load_items
  load_items-Holds limit cs s reads h = elim (Option-cases s.file) [
    | inl missing ↦ ground (arith, dumped-nil cs)
    | inr (lines, there) ↦ ground (
      arith,
      read_lines-dumped cs reads h.kept,
      clean_loop-same (last_items limit cs) (NoRepeat-last_items limit cs h.no_repeat),
    )
  ]

  -- From a missing file, whatever commands are added and however often the history is cleared,
  -- where each write succeeds, each line is read as the command it was written for and at least
  -- one command is kept: a store opened on the file that is left has the same history.
  pub reopened_history :
      (limit : ℕ) (calls : List (Call))
      → 1 ≤ limit
      → Reads
      → let s =
          run search dump parse (succeeding calls) (open_history search dump parse limit none) in
        (open_history search dump parse limit s.file).items ≡ s.items
  unfolding open_history
  reopened_history limit calls l reads =
      load_items-Holds limit (commands calls []) _ reads
        (Holds-run limit calls [] _ l (Holds-open limit))

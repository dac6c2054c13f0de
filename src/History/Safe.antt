-- ===== src/History/Safe.antt =====
-- No command that is taken for sensitive is kept or written.
use Prim.Native.String.{String}
use hpc_client_gui.Base.{
  ℕ, zero, suc, ◌-◌, ◌≡◌, refl, List, [], ◌∷◌, ◌++◌, Bool, true, false, length, drop, All, Option,
  none, arith,
}
use hpc_client_gui.Base.Text.{Text, strip}
use hpc_client_gui.History.{
  HistoryStore, Call, call_add, call_clear, is_sensitive_command, load_items, open_history,
  append_disk, add, clear_disk, run, last_items, lines_of,
}

module _ (search : String → Text → Option Bool) (dump : Text → Text)
    (parse : Text → Option Text) where
  abbrev pub IsPlain : Text → Type 0
  IsPlain c = is_sensitive_command search c ≡ false

  -- A line that a plain command was written as.
  abbrev pub IsPlainLine : Text → Type 0
  IsPlainLine line = (cmd : Text) × (line ≡ dump cmd) × IsPlain cmd

  IsPlain-snoc :
      (cs : List Text) (c : Text) → All IsPlain cs → IsPlain c → All IsPlain (cs ++ (c ∷ []))
  IsPlain-snoc [] c k h = (h, tt)
  IsPlain-snoc (d ∷ cs) c k h = (k.0, IsPlain-snoc cs c k.1 h)

  IsPlainLine-snoc :
      (cs : List Text) (c : Text)
      → All IsPlainLine cs
      → IsPlainLine c
      → All IsPlainLine (cs ++ (c ∷ []))
  IsPlainLine-snoc [] c k h = (h, tt)
  IsPlainLine-snoc (d ∷ cs) c k h = (k.0, IsPlainLine-snoc cs c k.1 h)

  IsPlain-drop : (n : ℕ) (cs : List Text) → All IsPlain cs → All IsPlain (drop n cs)
  IsPlain-drop zero cs k = k
  IsPlain-drop (suc n) [] k = tt
  IsPlain-drop (suc n) (c ∷ cs) k = IsPlain-drop n cs k.1

  IsPlain-last_items :
      (limit : ℕ) (cs : List Text) → All IsPlain cs → All IsPlain (last_items limit cs)
  IsPlain-last_items limit cs k = ground (arith, IsPlain-drop (length cs - limit) cs k)

  abbrev pub IsSafe : HistoryStore → Type 0
  IsSafe s = All IsPlain s.items × All IsPlainLine (lines_of s.file)

  IsSafe-add :
      (writes : Bool) (cmd : Text) (s : HistoryStore)
      → IsSafe s
      → IsSafe (add search dump parse writes cmd s)
  unfolding add append_disk
  IsSafe-add writes cmd s (items, lines) =
      let more = s.items ++ (strip cmd ∷ []) in
      ground (
        arith,
        IsPlain-snoc s.items (strip cmd) items,
        IsPlain-last_items s.max_items more,
        IsPlainLine-snoc (lines_of s.file) (dump (strip cmd)) lines,
        written (strip cmd),
      )
    where
      written : (cmd : Text) → is_sensitive_command search cmd ≡ false → IsPlainLine (dump cmd)
      written cmd h = (cmd, refl, h)

  IsSafe-clear : (removes : Bool) (s : HistoryStore) → IsSafe s → IsSafe (clear_disk removes s)
  unfolding clear_disk
  IsSafe-clear true s h = (tt, tt)
  IsSafe-clear false s h = (tt, h.1)

  IsSafe-run :
      (calls : List (Call × Bool)) (s : HistoryStore)
      → IsSafe s
      → IsSafe (run search dump parse calls s)
  unfolding run
  IsSafe-run [] s h = h
  IsSafe-run ((call_add cmd, writes) ∷ calls) s h =
      IsSafe-run calls (add search dump parse writes cmd s) (IsSafe-add writes cmd s h)
  IsSafe-run ((call_clear, removes) ∷ calls) s h =
      IsSafe-run calls (clear_disk removes s) (IsSafe-clear removes s h)

  IsSafe-open : (limit : ℕ) → IsSafe (open_history search dump parse limit none)
  unfolding open_history load_items
  IsSafe-open limit = (tt, tt)

  -- From a missing file, whatever is called and whichever writes fail: no command in memory is
  -- taken for sensitive, and each line of the file was written for a command that is not.
  pub history_safe :
      (limit : ℕ) (calls : List (Call × Bool))
      → let s = run search dump parse calls (open_history search dump parse limit none) in
        All IsPlain s.items × All IsPlainLine (lines_of s.file)
  history_safe limit calls = IsSafe-run calls _ (IsSafe-open limit)

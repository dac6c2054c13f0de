-- ===== src/History/Tidy.antt =====
-- The commands in memory, whatever the file has and whichever writes fail.
use Prim.Native.String.{String}
use hpc_client_gui.Base.{ℕ, ◌≤◌, ◌≡◌, List, [], ◌∷◌, ◌++◌, Bool, length, Option, none, some, arith}
use hpc_client_gui.Base.Text.{Text, strip}
use hpc_client_gui.History.{
  HistoryStore, Call, call_add, call_clear, read_lines, load_items, open_history, append_disk, add,
  clear_disk, run, last_items,
}
use hpc_client_gui.History.Recent.{
  NoRepeat, NoRepeat-snoc, NoRepeat-last_items, clean_loop-NoRepeat, length-last_items-le,
  length-clean_last-le,
}

module _ (search : String → Text → Option Bool) (dump : Text → Text)
    (parse : Text → Option Text) where
  pub record IsTidy (limit : ℕ) (s : HistoryStore) : Type 0 where
    pub limit_same : s.max_items ≡ limit
    pub bounded : length s.items ≤ limit
    pub no_repeat : NoRepeat s.items

  IsTidy-open :
      (limit : ℕ) (file : Option (List Text))
      → 1 ≤ limit
      → IsTidy limit (open_history search dump parse limit file)
  unfolding open_history load_items
  IsTidy-open limit none l = ground arith
  IsTidy-open limit (some lines) l =
      let cs = read_lines search dump parse lines in
      ground
        (arith, length-clean_last-le limit cs l, clean_loop-NoRepeat [] (last_items limit cs) tt)

  IsTidy-add :
      (limit : ℕ) (writes : Bool) (cmd : Text) (s : HistoryStore)
      → 1 ≤ limit
      → IsTidy limit s
      → IsTidy limit (add search dump parse writes cmd s)
  unfolding add append_disk
  IsTidy-add limit writes cmd s l t =
      let more = s.items ++ (strip cmd ∷ []) in
      ground (
        arith,
        NoRepeat-snoc s.items (strip cmd) t.no_repeat,
        NoRepeat-last_items limit more,
        length-last_items-le limit more l,
      )

  IsTidy-clear :
      (limit : ℕ) (removes : Bool) (s : HistoryStore)
      → IsTidy limit s
      → IsTidy limit (clear_disk removes s)
  unfolding clear_disk
  IsTidy-clear limit removes s t = ground (arith, t.limit_same)

  IsTidy-run :
      (limit : ℕ) (calls : List (Call × Bool)) (s : HistoryStore)
      → 1 ≤ limit
      → IsTidy limit s
      → IsTidy limit (run search dump parse calls s)
  unfolding run
  IsTidy-run limit [] s l t = t
  IsTidy-run limit ((call_add cmd, writes) ∷ calls) s l t =
      IsTidy-run limit calls (add search dump parse writes cmd s) l
        (IsTidy-add limit writes cmd s l t)
  IsTidy-run limit ((call_clear, removes) ∷ calls) s l t =
      IsTidy-run limit calls (clear_disk removes s) l (IsTidy-clear limit removes s t)

  -- Whatever the file has, whatever is called and whichever writes fail, where at least one
  -- command is kept: there are no more commands than the limit, and none stands twice in a row.
  pub history_tidy :
      (limit : ℕ) (file : Option (List Text)) (calls : List (Call × Bool))
      → 1 ≤ limit
      → let s = run search dump parse calls (open_history search dump parse limit file) in
        (length s.items ≤ limit) × NoRepeat s.items
  history_tidy limit file calls l =
      let t = IsTidy-run limit calls _ l (IsTidy-open limit file l) in (t.bounded, t.no_repeat)

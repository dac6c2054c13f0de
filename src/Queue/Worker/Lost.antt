-- ===== src/Queue/Worker/Lost.antt =====
-- When an item of a batch can be lost: the worker reads an item behind the end of the list only
-- after `retry_failed` has replaced the list.
use Prim.Native.String.{String}
use hpc_client_gui.Base.{
  ℕ, zero, suc, ◌+◌, ◌≤◌, ◌≡◌, refl, List, [], ◌∷◌, Bool, true, false, ltb, any, if◌then◌else◌,
  length, length-append, get_elem?, Option, none, arith, inl, inr, Option-cases, Bool-cases,
}
use hpc_client_gui.Queue.{Ref, TransferItem, started, completed, failed, init, enqueue}
use hpc_client_gui.Queue.Worker.{
  Phase, top, top_cancel, top_read, top_start, single, batch_begin, fill, fill_stop, fill_op,
  fill_read, fill_start, waiting, finished, Run, work_top, work_top_cancel, work_top_read,
  work_top_start, work_begin, work_fill, work_fill_stop, work_fill_op, work_fill_read,
  work_fill_start, next_item, work_waiting, work_single, work_at, start, Action, step, call_start,
  call_cancel, call_stop, call_retry, call_clear, call_enqueue, call_remove, call_priorities,
  perform, run,
}
use hpc_client_gui.Queue.Worker.Counts.{times, occurrences, in_flight}
use hpc_client_gui.Queue.Worker.Bounds.{boot}
use hpc_client_gui.Queue.Worker.Accounts.{Accounts-begun}

-- The worker has passed a test of the length for the item at `next_index`.
abbrev has_tested : Phase → Bool
has_tested top_cancel = true
has_tested top_read = true
has_tested batch_begin = true
has_tested (fill_stop limit batch) = true
has_tested (fill_op limit batch) = true
has_tested (fill_read limit batch) = true
has_tested _ = false

abbrev within : Phase → Run → Bool
within p w = if has_tested p then ltb w.next_index (length w.ctl.items) else true

abbrev Keeps : Run → Type 0
Keeps w = (within w.phase w ≡ true) × (w.lost ≡ [])

get_elem?-none : (xs : List Ref) (i : ℕ) → get_elem? xs i ≡ none → length xs ≤ i
get_elem?-none [] i h = omega arith
get_elem?-none (x ∷ xs) zero h = ground arith
get_elem?-none (x ∷ xs) (suc i) h = omega (arith, get_elem?-none xs i h)

module _ (w : Run) (h : Keeps w) where
  Keeps-work_top : Keeps (work_top w)
  unfolding work_top
  Keeps-work_top = (ground arith, ground (arith, h.1))

  Keeps-work_top_cancel : w.phase ≡ top_cancel → Keeps (work_top_cancel w)
  unfolding work_top_cancel
  Keeps-work_top_cancel p = (ground (arith, p, h.0), ground (arith, h.1))

  Keeps-work_top_read : w.phase ≡ top_read → Keeps (work_top_read w)
  unfolding work_top_read
  Keeps-work_top_read p = elim (Option-cases (next_item w)) [
    | inl e ↦ absurd (ground (arith, p, h.0, get_elem?-none w.ctl.items w.next_index e))
    | inr (s, e) ↦ (ground (arith, e, p, h.0), ground (arith, e, h.1))
  ]

  Keeps-work_begin : (i : ℕ) → w.phase ≡ batch_begin → w.next_index ≡ i → Keeps (work_begin i w)
  unfolding work_begin
  Keeps-work_begin zero p same = (refl, h.1)
  Keeps-work_begin (suc i) p same = elim (Option-cases (get_elem? w.ctl.items i)) [
    | inl e ↦ absurd (ground (arith, p, same, h.0, get_elem?-none w.ctl.items i e))
    | inr (s, e) ↦ (ground (arith, e), ground (arith, e, h.1))
  ]

  module _ (limit : ℕ) (batch : List Ref) where
    Keeps-work_fill : Keeps (work_fill limit batch w)
    unfolding work_fill
    Keeps-work_fill = (ground arith, ground (arith, h.1))

    Keeps-work_fill_stop : w.phase ≡ fill_stop limit batch → Keeps (work_fill_stop limit batch w)
    unfolding work_fill_stop
    Keeps-work_fill_stop p = (ground (arith, p, h.0), ground (arith, h.1))

    Keeps-work_fill_op : w.phase ≡ fill_op limit batch → Keeps (work_fill_op limit batch w)
    unfolding work_fill_op
    Keeps-work_fill_op p = elim (Option-cases (next_item w)) [
      | inl e ↦ absurd (ground (arith, p, h.0, get_elem?-none w.ctl.items w.next_index e))
      | inr (s, e) ↦ (ground (arith, e, p, h.0), ground (arith, e, h.1))
    ]

    Keeps-work_fill_read : w.phase ≡ fill_read limit batch → Keeps (work_fill_read limit batch w)
    unfolding work_fill_read
    Keeps-work_fill_read p = elim (Option-cases (next_item w)) [
      | inl e ↦ absurd (ground (arith, p, h.0, get_elem?-none w.ctl.items w.next_index e))
      | inr (s, e) ↦ (ground (arith, e), ground (arith, e, h.1))
    ]

  Keeps-work_waiting :
      (pick : ℕ) (error : Option String) (futures : List Ref)
      → w.phase ≡ waiting futures
      → Keeps (work_waiting pick error futures w)
  unfolding work_waiting
  Keeps-work_waiting pick error [] p = (ground arith, ground (arith, h.1))
  Keeps-work_waiting pick error (f ∷ fs) p = elim (Option-cases (get_elem? (f ∷ fs) pick)) [
    | inl e ↦ (ground (arith, e, p), ground (arith, e, h.1))
    | inr (s, e) ↦ (ground (arith, e), ground (arith, e, h.1))
  ]

  Keeps-work_single : (s : Ref) (error : Option String) → Keeps (work_single s error w)
  unfolding work_single
  Keeps-work_single s error = (ground arith, ground (arith, h.1))

Keeps-work_at :
    (p : Phase) (pick : ℕ) (error : Option String) (w : Run)
    → w.phase ≡ p
    → Keeps w
    → Keeps (work_at p pick error w)
unfolding work_at work_top_start work_fill_start
Keeps-work_at top pick error w e h = Keeps-work_top w h
Keeps-work_at top_cancel pick error w e h = Keeps-work_top_cancel w h e
Keeps-work_at top_read pick error w e h = Keeps-work_top_read w h e
Keeps-work_at (top_start s) pick error w e h = (refl, h.1)
Keeps-work_at (single s) pick error w e h = Keeps-work_single w h s error
Keeps-work_at batch_begin pick error w e h = Keeps-work_begin w h w.next_index e refl
Keeps-work_at (fill limit batch) pick error w e h = Keeps-work_fill w h limit batch
Keeps-work_at (fill_stop limit batch) pick error w e h = Keeps-work_fill_stop w h limit batch e
Keeps-work_at (fill_op limit batch) pick error w e h = Keeps-work_fill_op w h limit batch e
Keeps-work_at (fill_read limit batch) pick error w e h = Keeps-work_fill_read w h limit batch e
Keeps-work_at (fill_start limit batch s) pick error w e h = (refl, h.1)
Keeps-work_at (waiting futures) pick error w e h = Keeps-work_waiting w h pick error futures e
Keeps-work_at finished pick error w e h = h

abbrev pub is_retry : Action → Bool
is_retry call_retry = true
is_retry _ = false

Keeps-enqueue :
    (rs : List Ref) (w : Run) → Keeps w → Keeps (record w { ctl = (enqueue rs w.ctl).0 })
unfolding enqueue
Keeps-enqueue [] w h = h
Keeps-enqueue (r ∷ rs) w h =
    (ground (arith, h.0, length-append w.ctl.items (r ∷ rs)), ground (arith, h.1))

Keeps-start : (w : Run) → Keeps w → Keeps (start w)
unfolding start
Keeps-start w h = (ground (arith, h.0), ground (arith, h.1))

Keeps-perform : (a : Action) (w : Run) → is_retry a ≡ false → Keeps w → Keeps (perform a w)
unfolding perform
Keeps-perform (step pick error) w n h = Keeps-work_at w.phase pick error w refl h
Keeps-perform call_start w n h = Keeps-start w h
Keeps-perform (call_enqueue rs) w n h = Keeps-enqueue rs w h
Keeps-perform call_cancel w n h = h
Keeps-perform call_stop w n h = h
Keeps-perform call_retry w n h = ground (arith, n)
Keeps-perform call_clear w n h = h
Keeps-perform (call_remove rs) w n h = h
Keeps-perform (call_priorities rs p) w n h = h

Keeps-run :
    (actions : List Action) (w : Run)
    → any is_retry actions ≡ false
    → Keeps w
    → Keeps (run actions w)
unfolding run
Keeps-run [] w n h = h
Keeps-run (a ∷ actions) w n h =
    Keeps-run actions (perform a w) (ground (arith, n)) (Keeps-perform a w (ground (arith, n)) h)

Keeps-boot :
    (heap : Ref → TransferItem) (items : List Ref) (limit history : ℕ)
    → Keeps (boot (init heap items limit history))
unfolding boot
Keeps-boot heap items limit history = (refl, refl)

-- Whatever the worker and the other threads do, in any order, also after a cancel: an item has
-- been reported as started as often as it has been reported as completed or failed, is in flight,
-- or was lost in a batch that an IndexError has left; and where `retry_failed` was not called,
-- none was lost.
pub starts_are_reported :
    (heap : Ref → TransferItem) (items : List Ref) (limit history : ℕ) (actions : List Action)
    (r : Ref)
    → let w = run actions (boot (init heap items limit history)) in
      let log = w.ctl.on_queue in
      (times started r log
        ≡ times completed r log
          + times failed r log
          + occurrences r (in_flight w.phase)
          + occurrences r w.lost)
      × ((if any is_retry actions then [] else w.lost) ≡ [])
starts_are_reported heap items limit history actions r = (
  Accounts-begun r heap items limit history actions,
  elim (Bool-cases (any is_retry actions)) [
    | inl retried ↦ ground (arith, retried)
    | inr never ↦ ground (
      arith,
      never,
      (Keeps-run actions (boot (init heap items limit history)) never
          (Keeps-boot heap items limit history)).1,
    )
  ],
)

-- ===== src/Queue/Worker/Bounds.antt =====
-- The sizes of the queue, between any two steps.
use hpc_client_gui.Base.{
  ℕ, zero, suc, ◌+◌, ◌-◌, ◌≤◌, ◌≡◌, refl, List, [], ◌∷◌, ◌++◌, false, length, length-drop,
  get_elem?, length-append, Option, arith, inl, inr, Option-cases,
}
use Prim.Native.String.{String}
use hpc_client_gui.Queue.{
  Ref, TransferItem, TransferController, start_item, finish_item, push_bounded, init, enqueue,
}
use hpc_client_gui.Queue.Worker.{
  Phase, top, top_cancel, top_read, top_start, single, batch_begin, fill, fill_stop, fill_op,
  fill_read, fill_start, waiting, finished, Run, finish_run, work_top, work_top_cancel,
  work_top_read, work_top_start, work_begin, work_fill, work_fill_stop, work_fill_op,
  work_fill_read, work_fill_start, raise_in, next_item, work_waiting, work_single, work_at, start,
  Action, step, call_start, call_cancel, call_stop, call_retry, call_clear, call_enqueue,
  call_remove, call_priorities, perform, run,
}
use hpc_client_gui.Queue.Worker.Counts.{in_flight, length-remove_at, limit_of, room_of}

-- The sizes of the queue.
pub record IsBounded (w : Run) : Type 0 where
  pub one_at_least : 1 ≤ w.ctl.parallel_limit
  pub ten_at_most : w.ctl.parallel_limit ≤ 10
  pub some_history : 1 ≤ w.ctl.history_limit
  pub history_kept : length w.ctl.completed_items ≤ w.ctl.history_limit
  pub flight_kept : length (in_flight w.phase) ≤ w.ctl.parallel_limit
  pub idle : w.ctl.alive ≡ false → w.phase ≡ finished
  pub batch_kept : limit_of w.phase ≤ w.ctl.parallel_limit
  pub room_kept : room_of w.phase ≤ limit_of w.phase

length-push_bounded :
    (limit : ℕ) (rs : List Ref) (r : Ref) → 1 ≤ limit → length (push_bounded limit rs r) ≤ limit
unfolding push_bounded
length-push_bounded limit rs r h =
    omega (arith, length-drop (length rs + 1 - limit) (rs ++ (r ∷ [])), length-append rs (r ∷ []))

IsBounded-finish_run : (w : Run) → IsBounded w → IsBounded (finish_run w)
IsBounded-finish_run w b = ground arith

IsBounded-raise_in : (batch : List Ref) (w : Run) → IsBounded w → IsBounded (raise_in batch w)
IsBounded-raise_in batch w b = ground arith

IsBounded-work_top : (w : Run) → w.phase ≡ top → IsBounded w → IsBounded (work_top w)
unfolding work_top
IsBounded-work_top w p b = ground arith

IsBounded-work_top_cancel :
    (w : Run) → w.phase ≡ top_cancel → IsBounded w → IsBounded (work_top_cancel w)
unfolding work_top_cancel
IsBounded-work_top_cancel w p b = ground arith

IsBounded-work_top_read : (w : Run) → w.phase ≡ top_read → IsBounded w → IsBounded (work_top_read w)
unfolding work_top_read
IsBounded-work_top_read w p b = elim (Option-cases (next_item w)) [
  | inl e ↦ ground arith
  | inr (s, e) ↦ ground arith
]

IsBounded-work_top_start :
    (r : Ref) (w : Run) → w.phase ≡ top_start r → IsBounded w → IsBounded (work_top_start r w)
unfolding work_top_start start_item
IsBounded-work_top_start r w p b = ground arith

IsBounded-work_begin :
    (i : ℕ) (w : Run) → w.phase ≡ batch_begin → IsBounded w → IsBounded (work_begin i w)
unfolding work_begin
IsBounded-work_begin zero w p b = ground arith
IsBounded-work_begin (suc i) w p b = elim (Option-cases (get_elem? w.ctl.items i)) [
  | inl e ↦ ground arith
  | inr (s, e) ↦ ground arith
]

module _ (limit : ℕ) (batch : List Ref) (w : Run) (b : IsBounded w) where
  IsBounded-work_fill : w.phase ≡ fill limit batch → IsBounded (work_fill limit batch w)
  unfolding work_fill
  IsBounded-work_fill p = ground arith

  IsBounded-work_fill_stop :
      w.phase ≡ fill_stop limit batch → IsBounded (work_fill_stop limit batch w)
  unfolding work_fill_stop
  IsBounded-work_fill_stop p = ground arith

  IsBounded-work_fill_op : w.phase ≡ fill_op limit batch → IsBounded (work_fill_op limit batch w)
  unfolding work_fill_op
  IsBounded-work_fill_op p = elim (Option-cases (next_item w)) [
    | inl e ↦ ground arith
    | inr (s, e) ↦ ground arith
  ]

  IsBounded-work_fill_read :
      w.phase ≡ fill_read limit batch → IsBounded (work_fill_read limit batch w)
  unfolding work_fill_read
  IsBounded-work_fill_read p = elim (Option-cases (next_item w)) [
    | inl e ↦ ground arith
    | inr (s, e) ↦ ground arith
  ]

  IsBounded-work_fill_start :
      (r : Ref) → w.phase ≡ fill_start limit batch r → IsBounded (work_fill_start limit batch r w)
  unfolding work_fill_start start_item
  IsBounded-work_fill_start r p = ground (arith, length-append batch (r ∷ []))

IsBounded-work_waiting :
    (pick : ℕ) (error : Option String) (futures : List Ref) (w : Run)
    → w.phase ≡ waiting futures
    → IsBounded w
    → IsBounded (work_waiting pick error futures w)
unfolding work_waiting finish_item
IsBounded-work_waiting pick error [] w p b = ground arith
IsBounded-work_waiting pick error (f ∷ fs) w p b = elim (Option-cases (get_elem? (f ∷ fs) pick)) [
  | inl e ↦ ground arith
  | inr (s, e) ↦ ground (
    arith,
    length-remove_at pick (f ∷ fs),
    length-push_bounded w.ctl.history_limit w.ctl.completed_items s,
  )
]

IsBounded-work_single :
    (s : Ref) (error : Option String) (w : Run)
    → w.phase ≡ single s
    → IsBounded w
    → IsBounded (work_single s error w)
unfolding work_single finish_item
IsBounded-work_single s error w p b =
    ground (arith, length-push_bounded w.ctl.history_limit w.ctl.completed_items s)

IsBounded-work_at :
    (p : Phase) (pick : ℕ) (error : Option String) (w : Run)
    → w.phase ≡ p
    → IsBounded w
    → IsBounded (work_at p pick error w)
unfolding work_at
IsBounded-work_at top pick error w e b = IsBounded-work_top w e b
IsBounded-work_at top_cancel pick error w e b = IsBounded-work_top_cancel w e b
IsBounded-work_at top_read pick error w e b = IsBounded-work_top_read w e b
IsBounded-work_at (top_start s) pick error w e b = IsBounded-work_top_start s w e b
IsBounded-work_at (single s) pick error w e b = IsBounded-work_single s error w e b
IsBounded-work_at batch_begin pick error w e b = IsBounded-work_begin w.next_index w e b
IsBounded-work_at (fill limit batch) pick error w e b = IsBounded-work_fill limit batch w b e
IsBounded-work_at (fill_stop limit batch) pick error w e b =
    IsBounded-work_fill_stop limit batch w b e
IsBounded-work_at (fill_op limit batch) pick error w e b = IsBounded-work_fill_op limit batch w b e
IsBounded-work_at (fill_read limit batch) pick error w e b =
    IsBounded-work_fill_read limit batch w b e
IsBounded-work_at (fill_start limit batch s) pick error w e b =
    IsBounded-work_fill_start limit batch w b s e
IsBounded-work_at (waiting futures) pick error w e b =
    IsBounded-work_waiting pick error futures w e b
IsBounded-work_at finished pick error w e b = b

IsBounded-enqueue :
    (rs : List Ref) (w : Run) → IsBounded w → IsBounded (record w { ctl = (enqueue rs w.ctl).0 })
unfolding enqueue
IsBounded-enqueue [] w b = b
IsBounded-enqueue (s ∷ rs) w b = ground arith

IsBounded-start : (w : Run) → IsBounded w → IsBounded (start w)
unfolding start
IsBounded-start w b = ground arith

pub IsBounded-perform : (a : Action) (w : Run) → IsBounded w → IsBounded (perform a w)
unfolding perform
IsBounded-perform (step pick error) w b = IsBounded-work_at w.phase pick error w refl b
IsBounded-perform call_start w b = IsBounded-start w b
IsBounded-perform (call_enqueue rs) w b = IsBounded-enqueue rs w b
IsBounded-perform call_cancel w b = ground arith
IsBounded-perform call_stop w b = ground arith
IsBounded-perform call_retry w b = ground arith
IsBounded-perform call_clear w b = ground arith
IsBounded-perform (call_remove rs) w b = ground arith
IsBounded-perform (call_priorities rs p) w b = ground arith

pub IsBounded-run : (actions : List Action) (w : Run) → IsBounded w → IsBounded (run actions w)
unfolding run
IsBounded-run [] w b = b
IsBounded-run (a ∷ actions) w b = IsBounded-run actions (perform a w) (IsBounded-perform a w b)

-- A controller whose thread has not been started.
unfoldable pub boot : TransferController → Run
boot c = record { ctl = c; next_index = 0; phase = finished; lost = [] }

pub IsBounded-init :
    (heap : Ref → TransferItem) (items : List Ref) (limit history : ℕ)
    → IsBounded (boot (init heap items limit history))
unfolding init boot
IsBounded-init heap items limit history = ground arith

-- Whatever the worker and the other threads do, in any order, at most `parallel_limit` items,
-- which is between one and ten, are in flight, and the history keeps to its limit.
pub flight_bounded :
    (heap : Ref → TransferItem) (items : List Ref) (limit history : ℕ) (actions : List Action)
    → let w = run actions (boot (init heap items limit history)) in
      (length (in_flight w.phase) ≤ 10)
      × (length (in_flight w.phase) ≤ w.ctl.parallel_limit)
      × (length w.ctl.completed_items ≤ w.ctl.history_limit)
flight_bounded heap items limit history actions =
    let b = IsBounded-run actions _ (IsBounded-init heap items limit history) in
    (omega arith, b.flight_kept, b.history_kept)

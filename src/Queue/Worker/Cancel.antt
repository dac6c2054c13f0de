-- ===== src/Queue/Worker/Cancel.antt =====
-- What `cancel_all` does to a running queue.
use Prim.Native.String.{String}
use hpc_client_gui.Base.{
  ℕ, zero, suc, length-append, ◌+◌, ◌-◌, ◌≤◌, ◌≡◌, refl, ap, List, [], ◌∷◌, map, true, length,
  get_elem?, Option, arith, Option-cases, inl, inr,
}
use hpc_client_gui.Queue.{Ref, TransferController, start_item, finish_item}
use hpc_client_gui.Queue.Worker.{
  Phase, top, top_cancel, top_read, top_start, single, batch_begin, fill, fill_stop, fill_op,
  fill_read, fill_start, waiting, finished, Run, work_top, work_top_cancel, work_top_read,
  work_top_start, work_begin, work_fill, work_fill_stop, work_fill_op, work_fill_read,
  work_fill_start, next_item, work_waiting, work_single, work_at, Action, step, call_cancel,
  perform, run,
}
use hpc_client_gui.Queue.Worker.Counts.{in_flight, room_of, limit_of}
use hpc_client_gui.Queue.Worker.Starts.{
  starts, starts-start_item, starts-finish_item, starts-emit_all,
}
use hpc_client_gui.Queue.Worker.Bounds.{IsBounded, IsBounded-perform}

-- Both flags of `cancel_all` are set.
abbrev IsCancelled : Run → Type 0
IsCancelled w = (w.ctl.cancel ≡ true) × (w.ctl.stop ≡ true)

-- The worker has passed the tests of the flags for an item that it has not started yet.
abbrev pub is_committed : Phase → ℕ
is_committed top_read = 1
is_committed (top_start r) = 1
is_committed (fill_op limit batch) = 1
is_committed (fill_read limit batch) = 1
is_committed (fill_start limit batch r) = 1
is_committed _ = 0

-- How many steps the worker may still take.
abbrev left : Phase → ℕ
left top = 2
left top_cancel = 1
left top_read = 5
left (top_start r) = 4
left (single r) = 3
left batch_begin = 4
left (fill limit batch) = 3 + length batch
left (fill_stop limit batch) = 2 + length batch
left (fill_op limit batch) = 7 + length batch
left (fill_read limit batch) = 6 + length batch
left (fill_start limit batch r) = 5 + length batch
left (waiting futures) = 1 + length futures
left finished = 0

-- A step keeps the flags, starts no item but one it is committed to and, if a future has completed
-- where it waits for one, comes nearer to the end.
abbrev Ends : ℕ → Run → Run → Type 0
Ends pick w w' =
    IsCancelled w'
    × (starts w'.ctl.on_queue + is_committed w'.phase
        ≤ starts w.ctl.on_queue + is_committed w.phase)
    × (pick ≡ 0 → left w'.phase ≤ left w.phase - 1)

start_item_flags :
    (s : Ref) (c : TransferController)
    → ((start_item s c).cancel ≡ c.cancel) × ((start_item s c).stop ≡ c.stop)
unfolding start_item
start_item_flags s c = (refl, refl)

finish_item_flags :
    (s : Ref) (error : Option String) (c : TransferController)
    → ((finish_item s error c).cancel ≡ c.cancel) × ((finish_item s error c).stop ≡ c.stop)
unfolding finish_item
finish_item_flags s error c = ground arith

module _ (pick : ℕ) (w : Run) (h : IsCancelled w) where
  Ends-work_top : w.phase ≡ top → Ends pick w (work_top w)
  unfolding work_top
  Ends-work_top e = ground (arith, e, starts-emit_all w.ctl.pending w.ctl)

  Ends-work_top_cancel : w.phase ≡ top_cancel → Ends pick w (work_top_cancel w)
  unfolding work_top_cancel
  Ends-work_top_cancel e = ground (arith, e, starts-emit_all w.ctl.pending w.ctl)

  Ends-work_top_read : w.phase ≡ top_read → Ends pick w (work_top_read w)
  unfolding work_top_read
  Ends-work_top_read e = elim (Option-cases (next_item w)) [
    | inl p ↦ ground (arith, p, e, starts-emit_all w.ctl.pending w.ctl)
    | inr (s, p) ↦ ground (arith, p, e)
  ]

  Ends-work_top_start : (r : Ref) → w.phase ≡ top_start r → Ends pick w (work_top_start r w)
  unfolding work_top_start
  Ends-work_top_start r e = ground (arith, e, starts-start_item r w.ctl, start_item_flags r w.ctl)

  Ends-work_begin : (i : ℕ) → w.phase ≡ batch_begin → Ends pick w (work_begin i w)
  unfolding work_begin
  Ends-work_begin zero e = ground (arith, e)
  Ends-work_begin (suc i) e = elim (Option-cases (get_elem? w.ctl.items i)) [
    | inl p ↦ ground (arith, p, e, starts-emit_all w.ctl.pending w.ctl)
    | inr (s, p) ↦ ground (arith, p, e)
  ]

  module _ (limit : ℕ) (batch : List Ref) where
    Ends-work_fill : w.phase ≡ fill limit batch → Ends pick w (work_fill limit batch w)
    unfolding work_fill
    Ends-work_fill e = ground (arith, e)

    Ends-work_fill_stop :
        w.phase ≡ fill_stop limit batch → Ends pick w (work_fill_stop limit batch w)
    unfolding work_fill_stop
    Ends-work_fill_stop e = ground (arith, e)

    Ends-work_fill_op : w.phase ≡ fill_op limit batch → Ends pick w (work_fill_op limit batch w)
    unfolding work_fill_op
    Ends-work_fill_op e = elim (Option-cases (next_item w)) [
      | inl p ↦ ground (arith, p, e, starts-emit_all w.ctl.pending w.ctl)
      | inr (s, p) ↦ ground (arith, p, e)
    ]

    Ends-work_fill_read :
        w.phase ≡ fill_read limit batch → Ends pick w (work_fill_read limit batch w)
    unfolding work_fill_read
    Ends-work_fill_read e = elim (Option-cases (next_item w)) [
      | inl p ↦ ground (arith, p, e, starts-emit_all w.ctl.pending w.ctl)
      | inr (s, p) ↦ ground (arith, p, e)
    ]

    Ends-work_fill_start :
        (r : Ref)
        → w.phase ≡ fill_start limit batch r
        → Ends pick w (work_fill_start limit batch r w)
    unfolding work_fill_start
    Ends-work_fill_start r e = ground (
      arith,
      e,
      length-append batch (r ∷ []),
      starts-start_item r w.ctl,
      start_item_flags r w.ctl,
    )

  Ends-work_single :
      (s : Ref) (error : Option String) → w.phase ≡ single s → Ends pick w (work_single s error w)
  unfolding work_single
  Ends-work_single s error e = ground (
    arith,
    e,
    starts-finish_item s error w.ctl,
    finish_item_flags s error w.ctl,
    starts-emit_all (finish_item s error w.ctl).pending (finish_item s error w.ctl),
  )

Ends-work_waiting :
    (pick : ℕ) (error : Option String) (futures : List Ref) (w : Run)
    → w.phase ≡ waiting futures
    → IsCancelled w
    → Ends pick w (work_waiting pick error futures w)
unfolding work_waiting
Ends-work_waiting pick error [] w e h = ground (arith, e, starts-emit_all w.ctl.pending w.ctl)
Ends-work_waiting zero error (f ∷ fs) w e h =
    ground (arith, e, starts-finish_item f error w.ctl, finish_item_flags f error w.ctl)
Ends-work_waiting (suc pick) error (f ∷ fs) w e h = elim (Option-cases (get_elem? fs pick)) [
  | inl p ↦ ground (arith, e, p)
  | inr (s, p) ↦
      ground (arith, e, p, starts-finish_item s error w.ctl, finish_item_flags s error w.ctl)
]

Ends-work_at :
    (p : Phase) (pick : ℕ) (error : Option String) (w : Run)
    → w.phase ≡ p
    → IsCancelled w
    → Ends pick w (work_at p pick error w)
unfolding work_at
Ends-work_at top pick error w e h = Ends-work_top pick w h e
Ends-work_at top_cancel pick error w e h = Ends-work_top_cancel pick w h e
Ends-work_at top_read pick error w e h = Ends-work_top_read pick w h e
Ends-work_at (top_start s) pick error w e h = Ends-work_top_start pick w h s e
Ends-work_at (single s) pick error w e h = Ends-work_single pick w h s error e
Ends-work_at batch_begin pick error w e h = Ends-work_begin pick w h w.next_index e
Ends-work_at (fill limit batch) pick error w e h = Ends-work_fill pick w h limit batch e
Ends-work_at (fill_stop limit batch) pick error w e h = Ends-work_fill_stop pick w h limit batch e
Ends-work_at (fill_op limit batch) pick error w e h = Ends-work_fill_op pick w h limit batch e
Ends-work_at (fill_read limit batch) pick error w e h = Ends-work_fill_read pick w h limit batch e
Ends-work_at (fill_start limit batch s) pick error w e h =
    Ends-work_fill_start pick w h limit batch s e
Ends-work_at (waiting futures) pick error w e h = Ends-work_waiting pick error futures w e h
Ends-work_at finished pick error w e h = (h, ground (arith, e), λ z. ground (arith, e))

Ends-perform :
    (pick : ℕ) (error : Option String) (w : Run)
    → IsCancelled w
    → Ends pick w (perform (step pick error) w)
unfolding perform
Ends-perform pick error w h = Ends-work_at w.phase pick error w refl h

-- The steps of the worker alone.
abbrev pub steps : List (ℕ × Option String) → List Action
steps [] = []
steps ((pick, error) ∷ picks) = step pick error ∷ steps picks

starts_committed :
    (picks : List (ℕ × Option String)) (w : Run)
    → IsCancelled w
    → starts (run (steps picks) w).ctl.on_queue ≤ starts w.ctl.on_queue + is_committed w.phase
unfolding run
starts_committed [] w h = omega arith
starts_committed ((pick, error) ∷ picks) w h =
    let e = Ends-perform pick error w h in through (starts_committed picks _ e.0) e.1
  where
    through : {a b c : ℕ} → a ≤ b → b ≤ c → a ≤ c
    through first second = omega arith

ends :
    (errors : List (Option String)) (w : Run)
    → IsCancelled w
    → left w.phase ≤ length errors
    → left (run (steps (map (λ error. (0, error)) errors)) w).phase ≡ 0
unfolding run
ends [] w h m = omega arith
ends (error ∷ errors) w h m =
    let e = Ends-perform 0 error w h in ends errors _ e.0 (omega (arith, e.2 refl))

left-zero : (p : Phase) → left p ≡ 0 → p ≡ finished
left-zero p h = ground (arith, h)

left-bounded : (w : Run) → IsBounded w → left w.phase ≤ 16
left-bounded w b = bound w.phase refl
  where
    bound : (p : Phase) → w.phase ≡ p → left p ≤ 16
    bound p e = ground (
      arith,
      ap (λ q. length (in_flight q)) e,
      ap room_of e,
      ap limit_of e,
      b.room_kept,
      b.batch_kept,
      b.flight_kept,
      b.ten_at_most,
    )

IsCancelled-call_cancel : (w : Run) → IsCancelled (perform call_cancel w)
unfolding perform
IsCancelled-call_cancel w = (refl, refl)

on_queue-call_cancel :
    (w : Run)
    → ((perform call_cancel w).ctl.on_queue ≡ w.ctl.on_queue)
      × ((perform call_cancel w).phase ≡ w.phase)
unfolding perform
on_queue-call_cancel w = (refl, refl)

-- After `cancel_all` the worker starts no item but one that it had passed the tests of both flags
-- for when it was called, whatever completes and however, and it has finished after sixteen steps in
-- which nothing is waited for in vain. The queue keeps to its sizes.
pub cancel_all_ends :
    (w : Run) (picks : List (ℕ × Option String)) (errors : List (Option String))
    → IsBounded w
    → 16 ≤ length errors
    → let w' = perform call_cancel w in
      (starts (run (steps picks) w').ctl.on_queue ≤ starts w.ctl.on_queue + is_committed w.phase)
      × ((run (steps (map (λ error. (0, error)) errors)) w').phase ≡ finished)
cancel_all_ends w picks errors b m =
    let w' = perform call_cancel w in
    let h = IsCancelled-call_cancel w in
    let same = on_queue-call_cancel w in
    (
      omega (arith, starts_committed picks w' h, ap starts same.0, ap is_committed same.1),
      left-zero _
          (ends errors w' h (omega (arith, left-bounded w' (IsBounded-perform call_cancel w b)))),
    )

-- ===== src/Queue/Worker/Accounts.antt =====
-- What becomes of every item that starts.
use hpc_client_gui.Base.{
  ℕ, zero, suc, ap, ◌+◌, ◌≡◌, refl, List, [], ◌∷◌, ◌++◌, map, Bool, false, ◌&&◌, ◌==◌,
  if◌then◌else◌, get_elem?, Option, none, some, arith, inl, inr, Option-cases,
}
use Prim.Native.String.{String}
use hpc_client_gui.Queue.{
  Ref, TransferItem, QueueEvent, queued, started, completed, failed, TransferController, emit_all,
  start_item, finish_item, init, enqueue,
}
use hpc_client_gui.Queue.Worker.{
  Phase, top, top_cancel, top_read, top_start, single, batch_begin, fill, fill_stop, fill_op,
  fill_read, fill_start, waiting, finished, Run, finish_run, work_top, work_top_cancel,
  work_top_read, work_top_start, work_begin, work_fill, work_fill_stop, work_fill_op,
  work_fill_read, work_fill_start, raise_in, next_item, work_waiting, work_single, work_at,
  remove_at, is_cancelled, set_cancel, start, Action, step, call_start, call_cancel, call_stop,
  call_retry, call_clear, call_enqueue, call_remove, call_priorities, perform, run,
}
use hpc_client_gui.Queue.Worker.Counts.{
  in_flight, same_event, times, occurrences, times-append, occurrences-append,
  occurrences-remove_at, queued_only,
}
use hpc_client_gui.Queue.Worker.Bounds.{IsBounded, IsBounded-perform, IsBounded-init, boot}

module _ (r : Ref) where
  -- Each start of the item is answered by a report, or it is still in flight.
  abbrev pub Accounts : Run → Type 0
  Accounts w =
      times started r w.ctl.on_queue
      ≡ times completed r w.ctl.on_queue
        + times failed r w.ctl.on_queue
        + occurrences r (in_flight w.phase)
        + occurrences r w.lost

  pub times-start_item :
      (event : QueueEvent) (s : Ref) (c : TransferController)
      → times event r (start_item s c).on_queue
        ≡ times event r c.on_queue + (if same_event started event && s == r then 1 else 0)
  unfolding start_item times
  times-start_item event s c = omega (arith, times-append event r c.on_queue ((started, s) ∷ []))

  abbrev pub report : Option String → QueueEvent
  report none = completed
  report (some error) = failed

  pub times-finish_item :
      (event : QueueEvent) (s : Ref) (error : Option String) (c : TransferController)
      → times event r (finish_item s error c).on_queue
        ≡ times event r c.on_queue + (if same_event (report error) event && s == r then 1 else 0)
  unfolding finish_item times
  times-finish_item event s none c =
      omega (arith, times-append event r c.on_queue ((completed, s) ∷ []))
  times-finish_item event s (some e) c =
      omega (arith, times-append event r c.on_queue ((failed, s) ∷ []))

  pub times-emit_all :
      (event : QueueEvent) (rs : List Ref) (c : TransferController)
      → same_event queued event ≡ false
      → times event r (emit_all rs c).on_queue ≡ times event r c.on_queue
  times-emit_all event rs c h =
      omega (
        arith,
        times-append event r c.on_queue (map (λ s. (queued, s)) rs),
        queued_only event r rs h,
      )

  -- Emitting that items are queued changes no account.
  Accounts-emit_all :
      (rs : List Ref) (c : TransferController) (w : Run)
      → w.ctl.on_queue ≡ c.on_queue
      → Accounts w
      → Accounts (record w { ctl = emit_all rs c })
  Accounts-emit_all rs c w e h = ground (
    arith,
    times-emit_all started rs c refl,
    times-emit_all completed rs c refl,
    times-emit_all failed rs c refl,
  )

  -- Nor does a change of the phase that keeps what is in flight.
  Accounts-to :
      (p : Phase) (i : ℕ) (w : Run)
      → in_flight p ≡ in_flight w.phase
      → Accounts w
      → Accounts (record w { next_index = i; phase = p })
  Accounts-to p i w e h = ground (arith, ap (occurrences r) e)

  Accounts-finish_run :
      (w : Run) → occurrences r (in_flight w.phase) ≡ 0 → Accounts w → Accounts (finish_run w)
  unfolding occurrences
  Accounts-finish_run w e h = omega (
    arith,
    times-emit_all started w.ctl.pending w.ctl refl,
    times-emit_all completed w.ctl.pending w.ctl refl,
    times-emit_all failed w.ctl.pending w.ctl refl,
  )

  -- The items of the batch are lost.
  Accounts-raise_in :
      (batch : List Ref) (w : Run)
      → in_flight w.phase ≡ batch
      → Accounts w
      → Accounts (raise_in batch w)
  unfolding occurrences
  Accounts-raise_in batch w e h = omega (
    arith,
    ap (occurrences r) e,
    occurrences-append r batch w.lost,
    times-emit_all started w.ctl.pending w.ctl refl,
    times-emit_all completed w.ctl.pending w.ctl refl,
    times-emit_all failed w.ctl.pending w.ctl refl,
  )

  Accounts-start_item :
      (s : Ref) (i : ℕ) (w : Run) (p : Phase)
      → occurrences r (in_flight p) ≡ occurrences r (in_flight w.phase) + (if s == r then 1 else 0)
      → Accounts w
      → Accounts (record w { ctl = start_item s w.ctl; next_index = i; phase = p })
  Accounts-start_item s i w p e h = omega (
    arith,
    times-start_item started s w.ctl,
    times-start_item completed s w.ctl,
    times-start_item failed s w.ctl,
  )

  Accounts-finish_item :
      (s : Ref) (error : Option String) (w : Run) (p : Phase) (flag : Bool)
      → occurrences r (in_flight w.phase) ≡ occurrences r (in_flight p) + (if s == r then 1 else 0)
      → Accounts w
      → Accounts (record w { ctl = set_cancel flag (finish_item s error w.ctl); phase = p })
  Accounts-finish_item s error w p flag e h = ground (
    arith,
    times-finish_item started s error w.ctl,
    times-finish_item completed s error w.ctl,
    times-finish_item failed s error w.ctl,
  )

  Accounts-work_top : (w : Run) → w.phase ≡ top → Accounts w → Accounts (work_top w)
  unfolding work_top occurrences
  Accounts-work_top w p h =
      ground
        (arith, p, ap in_flight p, Accounts-finish_run w, Accounts-to top_cancel w.next_index w)

  Accounts-work_top_cancel :
      (w : Run) → w.phase ≡ top_cancel → Accounts w → Accounts (work_top_cancel w)
  unfolding work_top_cancel occurrences
  Accounts-work_top_cancel w p h =
      ground (arith, p, ap in_flight p, Accounts-finish_run w, Accounts-to top_read w.next_index w)

  Accounts-work_top_read : (w : Run) → w.phase ≡ top_read → Accounts w → Accounts (work_top_read w)
  unfolding work_top_read
  Accounts-work_top_read w p h = elim (Option-cases (next_item w)) [
    | inl e ↦ ground (arith, e, ap in_flight p, Accounts-raise_in [] w)
    | inr (s, e) ↦ ground (
      arith,
      e,
      ap in_flight p,
      Accounts-to batch_begin w.next_index w,
      Accounts-to (top_start s) w.next_index w,
    )
  ]

  Accounts-work_top_start :
      (s : Ref) (w : Run) → w.phase ≡ top_start s → Accounts w → Accounts (work_top_start s w)
  unfolding work_top_start occurrences
  Accounts-work_top_start s w p h =
      Accounts-start_item s (w.next_index + 1) w (single s) (ground (arith, ap in_flight p)) h

  Accounts-work_begin :
      (i : ℕ) (w : Run) → w.phase ≡ batch_begin → Accounts w → Accounts (work_begin i w)
  unfolding work_begin
  Accounts-work_begin zero w p h =
      Accounts-to (fill w.ctl.parallel_limit []) w.next_index w (ground (arith, ap in_flight p)) h
  Accounts-work_begin (suc i) w p h = elim (Option-cases (get_elem? w.ctl.items i)) [
    | inl e ↦ ground (arith, e, ap in_flight p, Accounts-raise_in [] w)
    | inr (s, e) ↦ ground (
      arith,
      e,
      ap in_flight p,
      Accounts-to (fill 1 []) w.next_index w,
      Accounts-to (fill w.ctl.parallel_limit []) w.next_index w,
    )
  ]

  module _ (limit : ℕ) (batch : List Ref) (w : Run) (h : Accounts w) where
    Accounts-work_fill : w.phase ≡ fill limit batch → Accounts (work_fill limit batch w)
    unfolding work_fill
    Accounts-work_fill p = ground (
      arith,
      ap in_flight p,
      Accounts-to (fill_stop limit batch) w.next_index w,
      Accounts-to (waiting batch) w.next_index w,
    )

    Accounts-work_fill_stop :
        w.phase ≡ fill_stop limit batch → Accounts (work_fill_stop limit batch w)
    unfolding work_fill_stop
    Accounts-work_fill_stop p = ground (
      arith,
      ap in_flight p,
      Accounts-to (fill_op limit batch) w.next_index w,
      Accounts-to (waiting batch) w.next_index w,
    )

    Accounts-work_fill_op : w.phase ≡ fill_op limit batch → Accounts (work_fill_op limit batch w)
    unfolding work_fill_op
    Accounts-work_fill_op p = elim (Option-cases (next_item w)) [
      | inl e ↦ ground (arith, e, ap in_flight p, Accounts-raise_in batch w)
      | inr (s, e) ↦ ground (
        arith,
        e,
        ap in_flight p,
        Accounts-to (fill_read limit batch) w.next_index w,
        Accounts-to (waiting batch) w.next_index w,
      )
    ]

    Accounts-work_fill_read :
        w.phase ≡ fill_read limit batch → Accounts (work_fill_read limit batch w)
    unfolding work_fill_read
    Accounts-work_fill_read p = elim (Option-cases (next_item w)) [
      | inl e ↦ ground (arith, e, ap in_flight p, Accounts-raise_in batch w)
      | inr (s, e) ↦
          ground
            (arith, e, ap in_flight p, Accounts-to (fill_start limit batch s) (w.next_index + 1) w)
    ]

    Accounts-work_fill_start :
        (s : Ref) → w.phase ≡ fill_start limit batch s → Accounts (work_fill_start limit batch s w)
    unfolding work_fill_start occurrences
    Accounts-work_fill_start s p =
        Accounts-start_item s w.next_index w (fill limit (batch ++ (s ∷ [])))
          (ground (arith, ap in_flight p, occurrences-append r batch (s ∷ []))) h

  Accounts-work_waiting :
      (pick : ℕ) (error : Option String) (futures : List Ref) (w : Run)
      → w.phase ≡ waiting futures
      → Accounts w
      → Accounts (work_waiting pick error futures w)
  unfolding work_waiting occurrences
  Accounts-work_waiting pick error [] w p h = ground (arith, Accounts-finish_run w)
  Accounts-work_waiting pick error (f ∷ fs) w p h = elim (Option-cases (get_elem? (f ∷ fs) pick)) [
    | inl e ↦ ground arith
    | inr (s, e) ↦ ground (
      arith,
      occurrences-remove_at r s pick (f ∷ fs) e,
      Accounts-finish_item s error w (waiting (remove_at pick (f ∷ fs))) (is_cancelled error),
    )
  ]

  Accounts-work_single :
      (s : Ref) (error : Option String) (w : Run)
      → w.phase ≡ single s
      → Accounts w
      → Accounts (work_single s error w)
  unfolding work_single occurrences
  Accounts-work_single s error w p h = ground (
    arith,
    Accounts-finish_item s error w top false,
    Accounts-finish_run (record w { ctl = finish_item s error w.ctl; phase = top }),
  )

  Accounts-work_at :
      (p : Phase) (pick : ℕ) (error : Option String) (w : Run)
      → w.phase ≡ p
      → Accounts w
      → Accounts (work_at p pick error w)
  unfolding work_at
  Accounts-work_at top pick error w e h = Accounts-work_top w e h
  Accounts-work_at top_cancel pick error w e h = Accounts-work_top_cancel w e h
  Accounts-work_at top_read pick error w e h = Accounts-work_top_read w e h
  Accounts-work_at (top_start s) pick error w e h = Accounts-work_top_start s w e h
  Accounts-work_at (single s) pick error w e h = Accounts-work_single s error w e h
  Accounts-work_at batch_begin pick error w e h = Accounts-work_begin w.next_index w e h
  Accounts-work_at (fill limit batch) pick error w e h = Accounts-work_fill limit batch w h e
  Accounts-work_at (fill_stop limit batch) pick error w e h =
      Accounts-work_fill_stop limit batch w h e
  Accounts-work_at (fill_op limit batch) pick error w e h = Accounts-work_fill_op limit batch w h e
  Accounts-work_at (fill_read limit batch) pick error w e h =
      Accounts-work_fill_read limit batch w h e
  Accounts-work_at (fill_start limit batch s) pick error w e h =
      Accounts-work_fill_start limit batch w h s e
  Accounts-work_at (waiting futures) pick error w e h =
      Accounts-work_waiting pick error futures w e h
  Accounts-work_at finished pick error w e h = h

  Accounts-enqueue :
      (rs : List Ref) (w : Run) → Accounts w → Accounts (record w { ctl = (enqueue rs w.ctl).0 })
  unfolding enqueue
  Accounts-enqueue [] w h = h
  Accounts-enqueue (s ∷ rs) w h = ground (
    arith,
    Accounts-emit_all (s ∷ rs)
        (record (w.ctl) { items = w.ctl.items ++ (s ∷ rs); pending = w.ctl.pending ++ (s ∷ rs) }) w
        refl h,
  )

  Accounts-start : (w : Run) → IsBounded w → Accounts w → Accounts (start w)
  unfolding start
  Accounts-start w b h = ground (arith, b.idle)

  Accounts-perform : (a : Action) (w : Run) → IsBounded w → Accounts w → Accounts (perform a w)
  unfolding perform
  Accounts-perform (step pick error) w b h = Accounts-work_at w.phase pick error w refl h
  Accounts-perform call_start w b h = Accounts-start w b h
  Accounts-perform (call_enqueue rs) w b h = Accounts-enqueue rs w h
  Accounts-perform call_cancel w b h = h
  Accounts-perform call_stop w b h = h
  Accounts-perform call_retry w b h = h
  Accounts-perform call_clear w b h = h
  Accounts-perform (call_remove rs) w b h = h
  Accounts-perform (call_priorities rs p) w b h = h

  Accounts-run :
      (actions : List Action) (w : Run) → IsBounded w → Accounts w → Accounts (run actions w)
  unfolding run
  Accounts-run [] w b h = h
  Accounts-run (a ∷ actions) w b h =
      Accounts-run actions (perform a w) (IsBounded-perform a w b) (Accounts-perform a w b h)

  Accounts-init :
      (heap : Ref → TransferItem) (items : List Ref) (limit history : ℕ)
      → Accounts (boot (init heap items limit history))
  unfolding init boot times occurrences
  Accounts-init heap items limit history = refl

  pub Accounts-begun :
      (heap : Ref → TransferItem) (items : List Ref) (limit history : ℕ) (actions : List Action)
      → Accounts (run actions (boot (init heap items limit history)))
  Accounts-begun heap items limit history actions =
      Accounts-run actions _ (IsBounded-init heap items limit history)
        (Accounts-init heap items limit history)

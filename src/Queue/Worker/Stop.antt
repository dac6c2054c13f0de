-- ===== src/Queue/Worker/Stop.antt =====
-- What `stop_after_current` and the removal of pending items do to a running queue.
use Prim.Native.String.{String}
use hpc_client_gui.Base.{
  ℕ, zero, suc, ◌<◌, ◌≤◌, none, replicate, Option-cases, inl, inr, ◌≡◌, refl, ◌∙◌, ◌≢◌, List, [],
  ◌∷◌, ◌++◌, true, false, length, get_elem?, Option, some, arith,
}
use hpc_client_gui.Queue.{Ref, started, start_item, remove_pending_items}
use hpc_client_gui.Queue.Worker.{
  Phase, top, top_cancel, top_read, top_start, single, batch_begin, fill, fill_stop, fill_op,
  fill_read, fill_start, waiting, finished, Run, op_at, work_top, work_top_cancel, work_top_read,
  work_begin, work_fill, work_fill_stop, work_fill_op, work_fill_read, work_fill_start,
  work_waiting, work_at, work, call_remove, perform, run,
}
use hpc_client_gui.Queue.Worker.Cancel.{steps}

-- The worker is to start a transfer next, and is asked to stop but not cancelled.
abbrev pub IsStopped : Run → Ref → Type 0
IsStopped w r =
    (w.ctl.stop ≡ true)
    × (w.ctl.cancel ≡ false)
    × (get_elem? w.ctl.items w.next_index ≡ some r)
    × (op_at w.ctl r ≡ true)

abbrev IsSpinning : Phase → Type 0
IsSpinning top = Unit
IsSpinning top_cancel = Unit
IsSpinning top_read = Unit
IsSpinning batch_begin = Unit
IsSpinning (fill limit []) = Unit
IsSpinning (fill_stop limit []) = Unit
IsSpinning (waiting []) = Unit
IsSpinning _ = ⊥

abbrev Stays : Run → Run → Type 0
Stays w w' = (w'.ctl ≡ w.ctl) × (w'.next_index ≡ w.next_index) × IsSpinning w'.phase

get_elem?-some : (xs : List Ref) (i : ℕ) (r : Ref) → get_elem? xs i ≡ some r → i < length xs
get_elem?-some [] i r h = ground (arith, h)
get_elem?-some (x ∷ xs) zero r h = omega arith
get_elem?-some (x ∷ xs) (suc i) r h = omega (arith, get_elem?-some xs i r h)

get_elem?-before : (xs : List Ref) (i : ℕ) → get_elem? xs i ≡ none → length xs ≤ i
get_elem?-before [] i h = omega arith
get_elem?-before (x ∷ xs) zero h = ground (arith, h)
get_elem?-before (x ∷ xs) (suc i) h = omega (arith, get_elem?-before xs i h)

Stays-work_begin :
    (i : ℕ) (w : Run) (r : Ref) → w.next_index ≡ i → IsStopped w r → Stays w (work_begin i w)
unfolding work_begin
Stays-work_begin zero w r e h = (refl, refl, tt)
Stays-work_begin (suc i) w r e h = elim (Option-cases (get_elem? w.ctl.items i)) [
  | inl p ↦ absurd (
      omega
        (arith, e, get_elem?-before w.ctl.items i p, get_elem?-some w.ctl.items w.next_index r h.2))
  | inr (s, p) ↦ ground (arith, p)
]

Stays-work_at :
    (p : Phase) (pick : ℕ) (error : Option String) (w : Run) (r : Ref)
    → IsStopped w r
    → IsSpinning p
    → Stays w (work_at p pick error w)
unfolding work_at work_top work_top_cancel work_top_read work_fill work_fill_stop work_waiting
Stays-work_at top pick error w r h s = ground (arith, get_elem?-some w.ctl.items w.next_index r h.2)
Stays-work_at top_cancel pick error w r h s = ground arith
Stays-work_at top_read pick error w r h s = ground arith
Stays-work_at batch_begin pick error w r h s = Stays-work_begin w.next_index w r refl h
Stays-work_at (fill limit []) pick error w r h s = ground arith
Stays-work_at (fill limit (b ∷ bs)) pick error w r h s = absurd s
Stays-work_at (fill_stop limit []) pick error w r h s = ground arith
Stays-work_at (fill_stop limit (b ∷ bs)) pick error w r h s = absurd s
Stays-work_at (waiting []) pick error w r h s = ground arith
Stays-work_at (waiting (f ∷ fs)) pick error w r h s = absurd s
Stays-work_at (top_start q) pick error w r h s = absurd s
Stays-work_at (single q) pick error w r h s = absurd s
Stays-work_at (fill_op limit batch) pick error w r h s = absurd s
Stays-work_at (fill_read limit batch) pick error w r h s = absurd s
Stays-work_at (fill_start limit batch q) pick error w r h s = absurd s
Stays-work_at finished pick error w r h s = absurd s

IsStopped-Stays : (w v : Run) (r : Ref) → IsStopped w r → Stays w v → IsStopped v r
IsStopped-Stays w v r h s = ground arith

Stays-work :
    (v : Run) (pick : ℕ) (error : Option String) (r : Ref)
    → IsStopped v r
    → IsSpinning v.phase
    → Stays v (work pick error v)
unfolding work
Stays-work v pick error r h s = Stays-work_at v.phase pick error v r h s

Stays-steps :
    (picks : List (ℕ × Option String)) (w v : Run) (r : Ref)
    → IsStopped w r
    → Stays w v
    → Stays w (run (steps picks) v)
unfolding run perform
Stays-steps [] w v r h s = s
Stays-steps ((pick, error) ∷ picks) w v r h s =
    let next = Stays-work v pick error r (IsStopped-Stays w v r h s) s.2 in
    Stays-steps picks w _ r h (next.0 ∙ s.0, next.1 ∙ s.1, next.2)

not-IsSpinning : (p : Phase) → IsSpinning p → p ≢ finished
not-IsSpinning p s e = ground arith

-- A worker that is asked to stop in front of a transfer, and not cancelled, never finishes by
-- itself: after any number of its steps it has changed nothing and goes on.
pub stop_never_ends :
    (w : Run) (r : Ref) (picks : List (ℕ × Option String))
    → w.phase ≡ top
    → w.ctl.stop ≡ true
    → w.ctl.cancel ≡ false
    → get_elem? w.ctl.items w.next_index ≡ some r
    → op_at w.ctl r ≡ true
    → let v = run (steps picks) w in
      (v.phase ≢ finished) × (v.ctl ≡ w.ctl) × (v.next_index ≡ w.next_index)
stop_never_ends w r picks p stop cancel item transfer =
    let s = Stays-steps picks w w r (stop, cancel, item, transfer) (refl, refl, rw p tt) in
    (not-IsSpinning _ s.2, s.0, s.1)

-- While the worker fills a batch that has room and is not asked to stop, a transfer whose turn it
-- is, and that is then removed from the pending items, is started all the same, in the five steps
-- of the loop's next pass.
pub removed_is_started :
    (limit : ℕ) (batch : List Ref) (rs : List Ref) (w : Run) (r : Ref) (pick : ℕ)
    (error : Option String)
    → w.phase ≡ fill limit batch
    → length batch < limit
    → w.ctl.stop ≡ false
    → get_elem? w.ctl.items w.next_index ≡ some r
    → op_at w.ctl r ≡ true
    → let v = run (steps (replicate 5 (pick, error))) (perform (call_remove (r ∷ rs)) w) in
      (v.phase ≡ fill limit (batch ++ (r ∷ [])))
      × (v.ctl.on_queue ≡ w.ctl.on_queue ++ ((started, r) ∷ []))
unfolding run perform work work_at work_fill work_fill_stop work_fill_op work_fill_read
    work_fill_start remove_pending_items start_item
removed_is_started limit batch rs w r pick error p room stop item transfer =
    ground (arith, get_elem?-some w.ctl.items w.next_index r item)

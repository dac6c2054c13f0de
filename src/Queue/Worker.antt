-- ===== src/Queue/Worker.antt =====
-- src/hpc_gui/services/transfer_controller.py: `_run` as the steps of a worker thread, between which
-- the other threads call the controller's methods.
pub mod Counts
pub mod Bounds
pub mod Accounts
pub mod Lost
pub mod Starts
pub mod Cancel
pub mod Stop
use Prim.Native.String.{String}
use text.Mathlib.Text.{◌==◌ as str_eq}
use hpc_client_gui.Base.{
  ℕ, zero, suc, ◌+◌, ◌-◌, List, [], ◌∷◌, ◌++◌, Bool, true, false, not, ◌&&◌, ltb, if◌then◌else◌,
  get_elem?, length, is_empty, Option, none, some,
}
use hpc_client_gui.Queue.{
  Ref, TransferController, is_transfer, is_delete, emit_all, enqueue, cancel_all,
  stop_after_current, retry_failed, clear_pending, remove_pending_items, set_pending_priorities,
  start_item, finish_item,
}

-- Where the worker stands, between any two of its reads and writes of what the threads share: at
-- the outer loop's test of the length, at its test of `_cancel`, in front of `self.items[next_index]`,
-- in front of `_start_item` for an item that is no transfer, in its `_one`, in front of
-- `force_single`; in the inner loop of a batch of at most so many items at the tests of the lengths,
-- of `_stop_after_current` and of the operation, in front of the item's read and in front of its
-- `_start_item`; in the loop that waits for the futures, or behind the `finally`.
pub data Phase : Type 0 where
  top top_cancel top_read : Phase
  top_start single : Ref → Phase
  batch_begin : Phase
  fill fill_stop fill_op fill_read : ℕ → List Ref → Phase
  fill_start : ℕ → List Ref → Ref → Phase
  waiting : List Ref → Phase
  finished : Phase

-- `lost` are the items of the batches that an IndexError has left before they were submitted.
pub record Run : Type 0 where
  pub ctl : TransferController
  pub next_index : ℕ
  pub phase : Phase
  pub lost : List Ref

abbrev pub op_at : TransferController → Ref → Bool
op_at c r = is_transfer (c.store r).op

-- The `finally`.
abbrev pub finish_run : Run → Run
finish_run w = record w {
  ctl = emit_all w.ctl.pending (record (w.ctl) { done = true; alive = false });
  phase = finished;
}

-- `self.items` has been replaced by a shorter list: the IndexError, which only the `finally` sees.
abbrev pub raise_in : List Ref → Run → Run
raise_in batch w = finish_run (record w { lost = batch ++ w.lost })

abbrev pub next_item : Run → Option Ref
next_item w = get_elem? w.ctl.items w.next_index

abbrev pub to : Phase → Run → Run
to p w = record w { phase = p }

-- `while next_index < len(self.items)`
unfoldable pub work_top : Run → Run
work_top w = if ltb w.next_index (length w.ctl.items) then to top_cancel w else finish_run w

-- `if self._cancel.is_set(): break`
unfoldable pub work_top_cancel : Run → Run
work_top_cancel w = if w.ctl.cancel then finish_run w else to top_read w

-- `item = self.items[next_index]`, and the test of its operation.
unfoldable pub work_top_read : Run → Run
work_top_read w = elim (next_item w) [
  | none ↦ raise_in [] w
  | some r ↦ to (if op_at w.ctl r then batch_begin else top_start r) w
]

-- `_start_item`, for an item that is no transfer.
unfoldable pub work_top_start : Ref → Run → Run
work_top_start r w = record w {
  ctl = start_item r w.ctl;
  next_index = w.next_index + 1;
  phase = single r;
}

-- `force_single`: `next_index > 0 and self.items[next_index - 1].op in {"delete", "delete_local"}`,
-- and the limit of the batch.
unfoldable pub work_begin : ℕ → Run → Run
work_begin zero w = to (fill w.ctl.parallel_limit []) w
work_begin (suc i) w = elim (get_elem? w.ctl.items i) [
  | none ↦ raise_in [] w
  | some r ↦ to (fill (if is_delete (w.ctl.store r).op then 1 else w.ctl.parallel_limit) []) w
]

-- The tests of the two lengths.
unfoldable pub work_fill : ℕ → List Ref → Run → Run
work_fill limit batch w =
    if ltb w.next_index (length w.ctl.items) && ltb (length batch) limit
    then to (fill_stop limit batch) w
    else to (waiting batch) w

-- `not self._stop_after_current.is_set()`
unfoldable pub work_fill_stop : ℕ → List Ref → Run → Run
work_fill_stop limit batch w =
    if w.ctl.stop then to (waiting batch) w else to (fill_op limit batch) w

-- `self.items[next_index].op in {"upload", "download"}`
unfoldable pub work_fill_op : ℕ → List Ref → Run → Run
work_fill_op limit batch w = elim (next_item w) [
  | none ↦ raise_in batch w
  | some r ↦ to (if op_at w.ctl r then fill_read limit batch else waiting batch) w
]

-- `item = self.items[next_index]` in the inner loop, read again.
unfoldable pub work_fill_read : ℕ → List Ref → Run → Run
work_fill_read limit batch w = elim (next_item w) [
  | none ↦ raise_in batch w
  | some r ↦ record w { next_index = w.next_index + 1; phase = fill_start limit batch r }
]

-- `_start_item` in the inner loop.
unfoldable pub work_fill_start : ℕ → List Ref → Ref → Run → Run
work_fill_start limit batch r w = record w {
  ctl = start_item r w.ctl;
  phase = fill limit (batch ++ (r ∷ []));
}

abbrev pub is_cancelled : Option String → Bool
is_cancelled none = false
is_cancelled (some error) = str_eq error "cancelled"

abbrev pub remove_at : ℕ → List Ref → List Ref
remove_at i [] = []
remove_at zero (r ∷ rs) = rs
remove_at (suc i) (r ∷ rs) = r ∷ remove_at i rs

abbrev pub set_cancel : Bool → TransferController → TransferController
set_cancel flag c = if flag then record c { cancel = true } else c

-- The loop that waits: the future at the given place has completed with this error, if there is
-- such a future; behind the loop, the test of `_cancel`.
unfoldable pub work_waiting : ℕ → Option String → List Ref → Run → Run
work_waiting pick error [] w = if w.ctl.cancel then finish_run w else record w { phase = top }
work_waiting pick error (r ∷ rs) w = elim (get_elem? (r ∷ rs) pick) [
  | none ↦ w
  | some s ↦ record w {
    ctl = set_cancel (is_cancelled error) (finish_item s error w.ctl);
    phase = waiting (remove_at pick (r ∷ rs));
  }
]

unfoldable pub work_single : Ref → Option String → Run → Run
work_single r error w =
    let w' = record w { ctl = finish_item r error w.ctl; phase = top } in
    if is_cancelled error then finish_run w' else w'

-- One step of the worker. The environment picks the future that completes, and the error of the
-- item that ends in the step, if one does.
unfoldable pub work_at : Phase → ℕ → Option String → Run → Run
work_at top pick error w = work_top w
work_at top_cancel pick error w = work_top_cancel w
work_at top_read pick error w = work_top_read w
work_at (top_start r) pick error w = work_top_start r w
work_at (single r) pick error w = work_single r error w
work_at batch_begin pick error w = work_begin w.next_index w
work_at (fill limit batch) pick error w = work_fill limit batch w
work_at (fill_stop limit batch) pick error w = work_fill_stop limit batch w
work_at (fill_op limit batch) pick error w = work_fill_op limit batch w
work_at (fill_read limit batch) pick error w = work_fill_read limit batch w
work_at (fill_start limit batch r) pick error w = work_fill_start limit batch r w
work_at (waiting futures) pick error w = work_waiting pick error futures w
work_at finished pick error w = w

unfoldable pub work : ℕ → Option String → Run → Run
work pick error w = work_at w.phase pick error w

-- `start`, for a thread that is not alive.
unfoldable pub start : Run → Run
start w = if w.ctl.alive then w else record w {
  ctl = record (w.ctl) { done = false; alive = true };
  next_index = 0;
  phase = top;
}

-- What happens next: a step of the worker, or a call by another thread.
pub data Action : Type 0 where
  step : ℕ → Option String → Action
  call_start call_cancel call_stop call_retry call_clear : Action
  call_enqueue call_remove : List Ref → Action
  call_priorities : List Ref → String → Action

abbrev pub on_ctl : (TransferController → TransferController) → Run → Run
on_ctl f w = record w { ctl = f w.ctl }

unfoldable pub perform : Action → Run → Run
unfolding work start enqueue cancel_all stop_after_current retry_failed clear_pending
    remove_pending_items set_pending_priorities
perform (step pick error) w = work pick error w
perform call_start w = start w
perform call_cancel w = on_ctl cancel_all w
perform call_stop w = on_ctl stop_after_current w
perform call_retry w = on_ctl (λ c. (retry_failed c).0) w
perform call_clear w = on_ctl clear_pending w
perform (call_enqueue rs) w = on_ctl (λ c. (enqueue rs c).0) w
perform (call_remove rs) w = on_ctl (λ c. (remove_pending_items rs c).0) w
perform (call_priorities rs p) w = on_ctl (set_pending_priorities rs p) w

unfoldable pub run : List Action → Run → Run
unfolding perform
run [] w = w
run (a ∷ actions) w = run actions (perform a w)

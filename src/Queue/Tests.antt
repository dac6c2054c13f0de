-- ===== src/Queue/Tests.antt =====
-- Runs of the transfer queue, and its theorems at concrete inputs.
use Prim.Native.String.{String}
use mathlib.Core.List.{Perm}
use hpc_client_gui.Base.{
  any, ◌≤◌, ◌≡◌, ◌≢◌, refl, List, [], ◌∷◌, ◌++◌, false, none, some, length, map, replicate, arith,
  if◌then◌else◌, ◌==◌, ◌+◌,
}
use hpc_client_gui.Queue.{
  Ref, TransferItem, queued, started, completed, failed, init, normalize, start_item, finish_item,
}
use hpc_client_gui.Queue.Normalize.{normalize_order}
use hpc_client_gui.Queue.Worker.{
  finished, Run, Action, step, call_start, call_cancel, call_stop, call_remove, perform, run, work,
  work_at, work_top, work_top_cancel, work_top_read, work_top_start, work_begin, work_fill,
  work_fill_stop, work_fill_op, work_fill_read, work_fill_start, work_waiting, work_single,
  call_retry,
}
use hpc_client_gui.Queue.Worker.Counts.{times, in_flight, occurrences}
use hpc_client_gui.Queue.Worker.Bounds.{boot, IsBounded-init, flight_bounded}
use hpc_client_gui.Queue.Worker.Lost.{is_retry, starts_are_reported}
use hpc_client_gui.Queue.Worker.Cancel.{steps, is_committed, cancel_all_ends}
use hpc_client_gui.Queue.Worker.Starts.{starts}
use hpc_client_gui.Queue.Worker.Stop.{stop_never_ends, removed_is_started}

abbrev item : String → String → TransferItem
item op name = record {
  op = op;
  src = name;
  dst = name;
  recursive = false;
  priority = "Normal";
  cached_size = none;
}

-- Two uploads around a directory to make.
abbrev heap : Ref → TransferItem
heap r =
    if r == 1
    then item "mkdir_remote" "d"
    else if r == 0
    then item "upload" "a"
    else item "upload" "b"

abbrev queue : List Ref
queue = 0 ∷ 1 ∷ 2 ∷ []

abbrev begun : Run
begun = boot (init heap queue 2 5)

-- The directory is made, then both uploads run together and the second one fails.
abbrev script : List Action
script =
    call_start ∷ steps (replicate 20 (0, none))
    ++ (step 1 (some "lost") ∷ steps (replicate 3 (0, none)))

whole_run :
    (run script begun).ctl.on_queue
    ≡ (started, 1)
      ∷ (completed, 1)
      ∷ (started, 0)
      ∷ (started, 2)
      ∷ (failed, 2)
      ∷ (completed, 0)
      ∷ []
unfolding run work work_at work_top work_top_cancel work_top_read work_top_start work_begin
    work_fill work_fill_stop work_fill_op work_fill_read work_fill_start work_waiting work_single
    start_item finish_item boot init
whole_run = refl

normalize_order_example : Perm (normalize heap queue) queue
normalize_order_example = (normalize_order heap queue).0

flight_bounded_example : length (in_flight (run (call_start ∷ step 0 none ∷ []) begun).phase) ≤ 10
flight_bounded_example = (flight_bounded heap queue 2 5 (call_start ∷ step 0 none ∷ [])).0

-- The failed items are put back while the worker fills a batch: the list is now shorter, and the
-- upload that has started is lost.
abbrev broken : List Action
broken = call_start ∷ steps (replicate 16 (0, none)) ++ (call_retry ∷ step 0 none ∷ [])

upload_is_lost :
    ((run broken begun).ctl.on_queue
      ≡ (started, 1) ∷ (completed, 1) ∷ (started, 0) ∷ (queued, 2) ∷ [])
    × ((run broken begun).lost ≡ 0 ∷ [])
    × ((run broken begun).phase ≡ finished)
unfolding run work work_at work_top work_top_cancel work_top_read work_top_start work_begin
    work_fill work_fill_stop work_fill_op work_fill_read work_fill_start work_waiting work_single
    start_item finish_item boot init
upload_is_lost = (refl, refl, refl)

starts_are_reported_example :
    let log = (run script begun).ctl.on_queue in
    (times started 2 log
      ≡ times completed 2 log
        + times failed 2 log
        + occurrences 2 (in_flight (run script begun).phase)
        + occurrences 2 (run script begun).lost)
    × ((if any is_retry script then [] else (run script begun).lost) ≡ [])
starts_are_reported_example = starts_are_reported heap queue 2 5 script 2

cancel_all_ends_example :
    (starts (run (steps []) (perform call_cancel begun)).ctl.on_queue
      ≤ starts begun.ctl.on_queue + is_committed begun.phase)
    × ((run
          (steps (map (λ error. (0, error)) (replicate 16 none)))
          (perform call_cancel begun)).phase
        ≡ finished)
cancel_all_ends_example =
    cancel_all_ends begun [] (replicate 16 none) (IsBounded-init heap queue 2 5) (omega arith)

-- One upload is left when the queue is asked to stop.
abbrev stopping : Run
stopping = run (call_start ∷ steps (replicate 5 (0, none)) ++ (call_stop ∷ [])) begun

stop_never_ends_example : (run (steps ((0, none) ∷ (0, none) ∷ [])) stopping).phase ≢ finished
unfolding run work work_at work_top work_top_cancel work_top_read work_top_start work_begin
    work_fill work_fill_stop work_fill_op work_fill_read work_fill_start work_waiting work_single
    start_item finish_item boot init
stop_never_ends_example =
    (stop_never_ends stopping 0 ((0, none) ∷ (0, none) ∷ []) refl refl refl refl refl).0

-- The worker fills a batch.
abbrev filling : Run
filling = run (call_start ∷ steps (replicate 9 (0, none))) begun

removed_is_started_example :
    (run (steps (replicate 5 (0, none))) (perform (call_remove (0 ∷ [])) filling)).ctl.on_queue
    ≡ filling.ctl.on_queue ++ ((started, 0) ∷ [])
unfolding run work work_at work_top work_top_cancel work_top_read work_top_start work_begin
    work_fill work_fill_stop work_fill_op work_fill_read work_fill_start work_waiting work_single
    start_item finish_item boot init
removed_is_started_example =
    (removed_is_started 2 [] [] filling 0 0 none refl (omega arith) refl refl refl).1

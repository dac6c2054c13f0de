-- ===== src/Queue/Worker/Starts.antt =====
-- How many items have started, after each operation of the queue.
use Prim.Native.String.{String}
use hpc_client_gui.Base.{
  ℕ, ◌++◌, if◌then◌else◌, none, some, ◌+◌, ◌≡◌, refl, List, [], ◌∷◌, map, Option, arith,
}
use hpc_client_gui.Queue.{
  Ref, QueueEvent, queued, started, completed, failed, TransferController, start_item, finish_item,
  emit_all,
}
use hpc_client_gui.Queue.Worker.Counts.{same_event}

-- How many items of a log have started.
unfoldable pub starts : List (QueueEvent × Ref) → ℕ
starts [] = 0
starts ((e, r) ∷ log) = (if same_event e started then 1 else 0) + starts log

starts-append : (xs ys : List (QueueEvent × Ref)) → starts (xs ++ ys) ≡ starts xs + starts ys
unfolding starts
starts-append [] ys = omega arith
starts-append ((e, r) ∷ xs) ys = omega (arith, starts-append xs ys)

starts-queued : (rs : List Ref) → starts (map (λ r. (queued, r)) rs) ≡ 0
unfolding starts
starts-queued [] = refl
starts-queued (r ∷ rs) = ground (arith, starts-queued rs)

pub starts-start_item :
    (r : Ref) (c : TransferController) → starts (start_item r c).on_queue ≡ starts c.on_queue + 1
unfolding start_item starts
starts-start_item r c = omega (arith, starts-append c.on_queue ((started, r) ∷ []))

pub starts-finish_item :
    (r : Ref) (error : Option String) (c : TransferController)
    → starts (finish_item r error c).on_queue ≡ starts c.on_queue
unfolding finish_item starts
starts-finish_item r none c = omega (arith, starts-append c.on_queue ((completed, r) ∷ []))
starts-finish_item r (some e) c = omega (arith, starts-append c.on_queue ((failed, r) ∷ []))

pub starts-emit_all :
    (rs : List Ref) (c : TransferController) → starts (emit_all rs c).on_queue ≡ starts c.on_queue
starts-emit_all rs c =
    omega (arith, starts-append c.on_queue (map (λ r. (queued, r)) rs), starts-queued rs)

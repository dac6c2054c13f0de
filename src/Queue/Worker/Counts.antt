-- ===== src/Queue/Worker/Counts.antt =====
-- What is in flight, and how often an event was emitted for an item.
use hpc_client_gui.Base.{
  ℕ, zero, suc, ◌+◌, ◌≤◌, ◌≡◌, refl, List, [], ◌∷◌, ◌++◌, map, Bool, true, false, ◌&&◌, ◌==◌,
  if◌then◌else◌, length, get_elem?, some, arith,
}
use hpc_client_gui.Queue.{Ref, QueueEvent, queued, started, completed, failed}
use hpc_client_gui.Queue.Worker.{
  Phase, top, top_cancel, top_read, top_start, single, batch_begin, fill, fill_stop, fill_op,
  fill_read, fill_start, waiting, finished, remove_at,
}

-- The items that have started and have not been reported as finished.
abbrev pub in_flight : Phase → List Ref
in_flight top = []
in_flight top_cancel = []
in_flight top_read = []
in_flight (top_start r) = []
in_flight (single r) = r ∷ []
in_flight batch_begin = []
in_flight (fill limit batch) = batch
in_flight (fill_stop limit batch) = batch
in_flight (fill_op limit batch) = batch
in_flight (fill_read limit batch) = batch
in_flight (fill_start limit batch r) = batch
in_flight (waiting futures) = futures
in_flight finished = []

abbrev pub same_event : QueueEvent → QueueEvent → Bool
same_event queued queued = true
same_event started started = true
same_event completed completed = true
same_event failed failed = true
same_event _ _ = false

-- How often an event was emitted for an item.
unfoldable pub times : QueueEvent → Ref → List (QueueEvent × Ref) → ℕ
times event r [] = 0
times event r ((e, s) ∷ log) = (if same_event e event && s == r then 1 else 0) + times event r log

unfoldable pub occurrences : Ref → List Ref → ℕ
occurrences r [] = 0
occurrences r (s ∷ rs) = (if s == r then 1 else 0) + occurrences r rs

pub times-append :
    (event : QueueEvent) (r : Ref) (xs ys : List (QueueEvent × Ref))
    → times event r (xs ++ ys) ≡ times event r xs + times event r ys
unfolding times
times-append event r [] ys = omega arith
times-append event r ((e, s) ∷ xs) ys = omega (arith, times-append event r xs ys)

pub occurrences-append :
    (r : Ref) (xs ys : List Ref) → occurrences r (xs ++ ys) ≡ occurrences r xs + occurrences r ys
unfolding occurrences
occurrences-append r [] ys = omega arith
occurrences-append r (s ∷ xs) ys = omega (arith, occurrences-append r xs ys)

pub occurrences-remove_at :
    (r s : Ref) (i : ℕ) (xs : List Ref)
    → get_elem? xs i ≡ some s
    → occurrences r xs ≡ (if s == r then 1 else 0) + occurrences r (remove_at i xs)
unfolding occurrences
occurrences-remove_at r s i [] h = cc
occurrences-remove_at r s zero (x ∷ xs) h = ground arith
occurrences-remove_at r s (suc i) (x ∷ xs) h = omega (arith, occurrences-remove_at r s i xs h)

pub length-remove_at : (i : ℕ) (xs : List Ref) → length (remove_at i xs) ≤ length xs
length-remove_at i [] = omega arith
length-remove_at zero (x ∷ xs) = omega arith
length-remove_at (suc i) (x ∷ xs) = omega (arith, length-remove_at i xs)

pub queued_only :
    (event : QueueEvent) (r : Ref) (rs : List Ref)
    → same_event queued event ≡ false
    → times event r (map (λ s. (queued, s)) rs) ≡ 0
unfolding times
queued_only event r [] h = refl
queued_only event r (s ∷ rs) h = ground (arith, queued_only event r rs h)

abbrev pub limit_of : Phase → ℕ
limit_of (fill limit batch) = limit
limit_of (fill_stop limit batch) = limit
limit_of (fill_op limit batch) = limit
limit_of (fill_read limit batch) = limit
limit_of (fill_start limit batch r) = limit
limit_of _ = 0

-- The size of a batch with the item that is to come into it.
abbrev pub room_of : Phase → ℕ
room_of (fill_stop limit batch) = length batch + 1
room_of (fill_op limit batch) = length batch + 1
room_of (fill_read limit batch) = length batch + 1
room_of (fill_start limit batch r) = length batch + 1
room_of _ = 0

-- ===== src/Queue.antt =====
-- src/hpc_gui/services/transfer_controller.py: the transfer queue. `TransferItem` objects are mutable
-- and shared between the lists of the controller, so the lists hold references into a store.
pub mod Worker
pub mod Normalize
mod Tests
use Prim.Native.String.{String}
use text.Mathlib.Text.{◌==◌ as str_eq}
use hpc_client_gui.Base.{
  ℕ, ◌+◌, ◌-◌, List, [], ◌∷◌, ◌++◌, map, Bool, true, false, not, ◌&&◌, ◌||◌, ◌==◌, if◌then◌else◌,
  any, all, ltb, is_empty, length, drop, min, max, Option, none, some,
}

pub record TransferItem : Type 0 where
  pub op : String
  pub src : String
  pub dst : String
  pub recursive : Bool
  pub priority : String
  pub cached_size : Option ℕ

abbrev pub Ref : Type 0
Ref = ℕ

pub data QueueEvent : Type 0 where
  queued started completed failed : QueueEvent

-- The controller's fields. `alive` stands for `_thread` being a live thread, `on_queue` for the
-- calls of the callback so far, oldest first.
pub record TransferController : Type 0 where
  pub store : Ref → TransferItem
  pub items : List Ref
  pub parallel_limit : ℕ
  pub history_limit : ℕ
  pub pending : List Ref
  pub failed_items : List (Ref × String)
  pub completed_items : List Ref
  pub on_queue : List (QueueEvent × Ref)
  pub cancel : Bool
  pub stop : Bool
  pub done : Bool
  pub alive : Bool

abbrev pub is_mkdir : String → Bool
is_mkdir op = str_eq op "mkdir_remote" || str_eq op "mkdir_local"

abbrev pub is_transfer : String → Bool
is_transfer op = str_eq op "upload" || str_eq op "download"

abbrev pub is_delete : String → Bool
is_delete op = str_eq op "delete" || str_eq op "delete_local"

-- `[item for item in items if test(item)]`
unfoldable pub select : (Ref → Bool) → List Ref → List Ref
select test [] = []
select test (r ∷ rs) = if test r then r ∷ select test rs else select test rs

-- `_normalize`
unfoldable pub normalize : (Ref → TransferItem) → List Ref → List Ref
unfolding select
normalize store items =
    let mkdirs = select (λ r. is_mkdir (store r).op) items in
    let transfers = select (λ r. is_transfer (store r).op) items in
    if not (is_empty items) && all (λ r. is_mkdir (store r).op || is_transfer (store r).op) items
    then (if not (is_empty mkdirs) && not (is_empty transfers) then mkdirs ++ transfers else items)
    else items

-- `__init__`; a negative limit is given as zero, which the code treats alike.
unfoldable pub init : (Ref → TransferItem) → List Ref → ℕ → ℕ → TransferController
unfolding normalize
init heap items limit history = record {
  store = heap;
  items = normalize heap items;
  parallel_limit = max 1 (min 10 (if limit == 0 then 1 else limit));
  history_limit = max 1 history;
  pending = normalize heap items;
  failed_items = [];
  completed_items = [];
  on_queue = [];
  cancel = false;
  stop = false;
  done = false;
  alive = false;
}

abbrev pub emit_queue : QueueEvent → Ref → TransferController → TransferController
emit_queue event r c = record c { on_queue = c.on_queue ++ ((event, r) ∷ []) }

abbrev pub emit_all : List Ref → TransferController → TransferController
emit_all rs c = record c { on_queue = c.on_queue ++ map (λ r. (queued, r)) rs }

-- `enqueue`
unfoldable pub enqueue : List Ref → TransferController → TransferController × Bool
enqueue [] c = (c, true)
enqueue (r ∷ rs) c =
    if c.cancel || c.stop then (c, false) else if c.done || not c.alive then (c, false) else (
      emit_all (r ∷ rs) (record c { items = c.items ++ (r ∷ rs); pending = c.pending ++ (r ∷ rs) }),
      true,
    )

unfoldable pub cancel_all : TransferController → TransferController
cancel_all c = record c { cancel = true; stop = true }

unfoldable pub stop_after_current : TransferController → TransferController
stop_after_current c = record c { stop = true }

unfoldable pub retry_failed : TransferController → TransferController × ℕ
retry_failed c =
    let restored = map (λ f. f.0) c.failed_items in
    (
      record c {
        failed_items = [];
        pending = restored ++ c.pending;
        items = restored ++ c.pending;
        cancel = false;
        stop = false;
      },
      length restored,
    )

unfoldable pub clear_pending : TransferController → TransferController
clear_pending c = record c { stop = true; pending = [] }

abbrev pub mem_ref : List Ref → Ref → Bool
mem_ref rs r = any (λ s. s == r) rs

-- `remove_pending_items`, by the identity of the items.
unfoldable pub remove_pending_items : List Ref → TransferController → TransferController × ℕ
unfolding select
remove_pending_items rs c =
    let kept = select (λ r. not (mem_ref rs r)) c.pending in
    (record c { pending = kept }, length c.pending - length kept)

-- `set_pending_priorities` writes through the references, so every list sees the change.
unfoldable pub set_pending_priorities : List Ref → String → TransferController → TransferController
set_pending_priorities rs priority c = record c {
  store = λ r.
      if mem_ref c.pending r && mem_ref rs r
      then record (c.store r) { priority = priority }
      else c.store r;
}

abbrev pub bool_eq : Bool → Bool → Bool
bool_eq a b = if a then b else not b

abbrev pub size_eq : Option ℕ → Option ℕ → Bool
size_eq none none = true
size_eq none (some b) = false
size_eq (some a) none = false
size_eq (some a) (some b) = a == b

-- The `==` that `@dataclass` gives: field by field.
unfoldable pub item_eq : TransferItem → TransferItem → Bool
item_eq a b =
    str_eq a.op b.op
    && str_eq a.src b.src
    && str_eq a.dst b.dst
    && bool_eq a.recursive b.recursive
    && str_eq a.priority b.priority
    && size_eq a.cached_size b.cached_size

-- `pending.remove(item)` where it is there: the first equal item goes.
unfoldable pub remove_first : (Ref → Bool) → List Ref → List Ref
remove_first same [] = []
remove_first same (r ∷ rs) = if same r then rs else r ∷ remove_first same rs

unfoldable pub start_item : Ref → TransferController → TransferController
unfolding remove_first item_eq
start_item r c =
    emit_queue started r
      (record c { pending = remove_first (λ s. item_eq (c.store s) (c.store r)) c.pending })

-- `deque.append` with a `maxlen`: the oldest go.
unfoldable pub push_bounded : ℕ → List Ref → Ref → List Ref
push_bounded limit rs r = drop (length rs + 1 - limit) (rs ++ (r ∷ []))

unfoldable pub finish_item : Ref → Option String → TransferController → TransferController
unfolding push_bounded
finish_item r none c =
    emit_queue completed r
      (record c { completed_items = push_bounded c.history_limit c.completed_items r })
finish_item r (some error) c =
    emit_queue failed r (record c { failed_items = c.failed_items ++ ((r, error) ∷ []) })

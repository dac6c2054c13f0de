-- ===== src/Channels.antt =====
-- src/hpc_gui/ssh/sftp_channels.py: the SFTP channels of one connection. The transport and its
-- answers are paramiko's, and each call is given them; the events are what the manager and its
-- users do to the channels, newest first. `listing_sftp` runs under a lock that its thread may take
-- again; `drop_listing_sftp` and `close` take none, so that they run in steps between the others'.
pub mod Life
pub mod Invariant
pub mod Lending
mod Tests
use hpc_client_gui.Base.{
  ℕ, zero, suc, ◌+◌, get_elem?, ◌++◌, List, [], ◌∷◌, Bool, true, false, not, if◌then◌else◌, Option,
  none, some,
}

abbrev pub Channel : Type 0
Channel = ℕ

-- What a call finds: whether the transport is active, what `is_authenticated` says if it can be
-- called, whether a channel can be opened on it, and whether `get_channel` gives one.
pub record Transport : Type 0 where
  pub active : Bool
  pub authenticated : Option Bool
  pub opens : Bool
  pub has_channel : Bool

pub data Event : Type 0 where
  opened closed lent spoiled : Channel → Event
  timeout : Channel → ℕ → Event

pub data Failure : Type 0 where
  not_connected not_active not_authenticated refused : Failure

pub data Opened : Type 0 where
  channel : Channel → Opened
  failure : Failure → Opened

-- Where the thread that has the lock stands in `listing_sftp`: at the test for None, in front of
-- the opening, of the timeout, of the `yield`, in the block with what it was lent, and in the drop
-- after a block that was not left cleanly in front of the read, of the clearing and of the closing.
pub data Place : Type 0 where
  testing opening setting ready discarding : Place
  inside clearing closing : Option Channel → Place

-- Another thread's `drop_listing_sftp`: it has read the field, or has cleared it too.
pub data Drop : Type 0 where
  reading cleared : Option Channel → Drop

-- `next` is the name that the next channel gets; the places are of the blocks one in the other, the
-- innermost first.
pub record SftpChannelManager : Type 0 where
  pub listing : Option Channel
  pub next : Channel
  pub log : List Event
  pub places : List Place
  pub drops : List Drop

abbrev pub emit : Event → SftpChannelManager → SftpChannelManager
emit event m = record m { log = event ∷ m.log }

abbrev pub set_timeout : Bool → Channel → ℕ → SftpChannelManager → SftpChannelManager
set_timeout has_channel c seconds m = if has_channel then emit (timeout c seconds) m else m

abbrev pub is_refused : Option Bool → Bool
is_refused none = false
is_refused (some authenticated) = not authenticated

-- `open_transfer_sftp`
unfoldable pub open_transfer_sftp :
    Option Transport → SftpChannelManager → SftpChannelManager × Opened
open_transfer_sftp none m = (m, failure not_connected)
open_transfer_sftp (some t) m =
    let m' =
      set_timeout t.has_channel m.next 60 (emit (opened m.next) (record m { next = m.next + 1 })) in
    if not t.active
    then (m, failure not_active)
    else if is_refused t.authenticated
    then (m, failure not_authenticated)
    else if not t.opens
    then (m, failure refused)
    else (m', channel m.next)

abbrev pub emit_for : (Channel → Event) → Option Channel → SftpChannelManager → SftpChannelManager
emit_for event none m = m
emit_for event (some c) m = emit (event c) m

abbrev pub at_places : List Place → SftpChannelManager → SftpChannelManager
at_places places m = record m { places = places }

-- `with self._listing_lock`, for a thread that may take the lock.
unfoldable pub enter : SftpChannelManager → SftpChannelManager
enter m = elim m.places [
  | [] ↦ at_places (testing ∷ []) m
  | p ∷ ps ↦ elim p [
    | testing ↦ m
    | opening ↦ m
    | setting ↦ m
    | ready ↦ m
    | discarding ↦ m
    | inside lent_one ↦ at_places (testing ∷ inside lent_one ∷ ps) m
    | clearing old ↦ m
    | closing old ↦ m
  ]
]

-- `self._listing_sftp = self._opener()`; a failure leaves `listing_sftp`.
unfoldable pub open_listing :
    Option Transport → List Place → SftpChannelManager → SftpChannelManager
open_listing transport outer m =
    let (m', result) = open_transfer_sftp transport m in
    elim result [
      | failure f ↦ at_places outer m'
      | channel c ↦ record m' { listing = some c; places = setting ∷ outer }
    ]

-- The timeout of the channel that is there.
abbrev pub set_listing_timeout : Bool → SftpChannelManager → SftpChannelManager
set_listing_timeout has_channel m = elim m.listing [
  | none ↦ m
  | some c ↦ set_timeout has_channel c 15 m
]

abbrev pub is_missing : Option Channel → Bool
is_missing none = true
is_missing (some c) = false

-- The next step of the thread that has the lock, outside the blocks.
unfoldable pub go_on_at :
    Place → List Place → Option Transport → Bool → SftpChannelManager → SftpChannelManager
go_on_at testing outer transport has_channel m =
    at_places ((if is_missing m.listing then opening else ready) ∷ outer) m
go_on_at opening outer transport has_channel m = open_listing transport outer m
go_on_at setting outer transport has_channel m =
    at_places (ready ∷ outer) (set_listing_timeout has_channel m)
go_on_at ready outer transport has_channel m =
    emit_for lent m.listing (at_places (inside m.listing ∷ outer) m)
go_on_at (inside lent_one) outer transport has_channel m = m
go_on_at discarding outer transport has_channel m = at_places (clearing m.listing ∷ outer) m
go_on_at (clearing old) outer transport has_channel m = record m {
  listing = none;
  places = closing old ∷ outer;
}
go_on_at (closing old) outer transport has_channel m = emit_for closed old (at_places outer m)

unfoldable pub go_on : Option Transport → Bool → SftpChannelManager → SftpChannelManager
go_on transport has_channel m = elim m.places [
  | [] ↦ m
  | p ∷ ps ↦ go_on_at p ps transport has_channel m
]

-- The innermost block is left.
unfoldable pub leave_at : Place → List Place → Bool → SftpChannelManager → SftpChannelManager
leave_at testing outer clean m = m
leave_at opening outer clean m = m
leave_at setting outer clean m = m
leave_at ready outer clean m = m
leave_at discarding outer clean m = m
leave_at (inside lent_one) outer clean m =
    if clean
    then at_places outer m
    else emit_for spoiled lent_one (at_places (discarding ∷ outer) m)
leave_at (clearing old) outer clean m = m
leave_at (closing old) outer clean m = m

unfoldable pub leave : Bool → SftpChannelManager → SftpChannelManager
leave clean m = elim m.places [ [] ↦ m | p ∷ ps ↦ leave_at p ps clean m ]

-- `drop_listing_sftp` of another thread: it reads the field, clears it, and closes what it has read,
-- also where `close` raises.
unfoldable pub drop_reads : SftpChannelManager → SftpChannelManager
drop_reads m = record m { drops = m.drops ++ (reading m.listing ∷ []) }

abbrev pub set_drop : ℕ → Drop → List Drop → List Drop
set_drop i d [] = []
set_drop zero d (e ∷ ds) = d ∷ ds
set_drop (suc i) d (e ∷ ds) = e ∷ set_drop i d ds

-- The next step of the given drop.
unfoldable pub drop_goes_on : ℕ → SftpChannelManager → SftpChannelManager
drop_goes_on i m = elim (get_elem? m.drops i) [
  | none ↦ m
  | some d ↦ elim d [
    | reading old ↦ record m { listing = none; drops = set_drop i (cleared old) m.drops }
    | cleared old ↦ emit_for closed old (record m { drops = set_drop i (cleared none) m.drops })
  ]
]

-- `supports_transfer_sftp_channels`
unfoldable pub supports_transfer_sftp_channels :
    Option Transport → SftpChannelManager → SftpChannelManager × Bool
supports_transfer_sftp_channels transport m =
    let (m', result) = open_transfer_sftp transport m in
    elim result [ failure f ↦ (m', false) | channel c ↦ (emit (closed c) m', true) ]

-- A call or a step of one.
pub data Call : Type 0 where
  transfer probe : Option Transport → Call
  enters : Call
  goes_on : Option Transport → Bool → Call
  leaves : Bool → Call
  drops_now : Call
  drop_steps : ℕ → Call

unfoldable pub call : Call → SftpChannelManager → SftpChannelManager
call (transfer transport) m = (open_transfer_sftp transport m).0
call (probe transport) m = (supports_transfer_sftp_channels transport m).0
call enters m = enter m
call (goes_on transport has_channel) m = go_on transport has_channel m
call (leaves clean) m = leave clean m
call drops_now m = drop_reads m
call (drop_steps i) m = drop_goes_on i m

unfoldable pub run : List Call → SftpChannelManager → SftpChannelManager
run [] m = m
run (c ∷ calls) m = run calls (call c m)

abbrev pub init : SftpChannelManager
init = record { listing = none; next = 0; log = []; places = []; drops = [] }

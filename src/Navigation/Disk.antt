-- ===== src/Navigation/Disk.antt =====
-- src/hpc_gui/services/remote_navigation_store.py: the state of a profile on the disk, encrypted.
use hpc_client_gui.Base.{
  ◌≡◌, refl, List, [], ◌∷◌, ◌++◌, Bool, true, false, if◌then◌else◌, drop, length, Option, none,
  some, arith, drop-append_length, Option-cases, Bool-cases, inl, inr,
}
use hpc_client_gui.Base.Dict.{is_some}
use hpc_client_gui.Base.Text.{Text, codes, starts_with, starts_with-append}
use hpc_client_gui.Navigation.{
  Navigation, Favorite, Visit, Call, add, remove, toggle, visit, clear, call, add_favorite,
  remove_favorite, toggle_favorite, record_visit, clear_history, empty,
}

-- What a decrypted payload has under the two keys; `none` where that is no list.
pub record Payload : Type 0 where
  pub favorites : Option (List Favorite)
  pub history : Option (List Visit)

pub record Store : Type 0 where
  pub state : Navigation
  pub disk : Option Text

abbrev pub magic : Text
magic = codes "HPCNAV1" ++ (10 ∷ [])

abbrev pub list_or_empty {ℓ} : {A : Type ℓ} → Option (List A) → List A
list_or_empty none = []
list_or_empty (some items) = items

-- `seal` is `json.dumps` and the operating system's encryption behind it, `none` where no secret
-- is available; `unseal` is the decryption and `json.loads`, `none` where one of them raises or
-- the result is no dictionary.
module _ (seal : Navigation → Option Text) (unseal : Text → Option Payload) where
  unfoldable pub encrypt : Navigation → Option Text
  encrypt n = elim (seal n) [ none ↦ none | some body ↦ some (magic ++ body) ]

  unfoldable pub decrypt : Text → Option Payload
  decrypt blob = if starts_with blob magic then unseal (drop (length magic) blob) else none

  -- `_load`, of the file's bytes where it can be read.
  unfoldable pub load : Option Text → Navigation
  unfolding decrypt
  load none = empty
  load (some blob) = elim (decrypt blob) [
    | none ↦ empty
    | some payload ↦ record {
      favorites = list_or_empty payload.favorites;
      history = list_or_empty payload.history;
    }
  ]

  -- `_persist`: a write that fails leaves the file as it was and raises nothing.
  unfoldable pub persist : Bool → Store → Store
  unfolding encrypt
  persist writes s = elim (encrypt s.state) [
    | none ↦ s
    | some blob ↦ if writes then record s { disk = some blob } else s
  ]

  -- A call on the store; `writes` says whether the file could be written.
  unfoldable pub call_store : Call → Bool → Store → Store
  unfolding persist
  call_store c writes s =
      let (n, changed) = call c s.state in
      let s' = record s { state = n } in if changed then persist writes s' else s'

  -- The calls on the store of a profile, opened on the file as it is found.
  unfoldable pub run : List (Call × Bool) → Store → Store
  unfolding call_store
  run [] s = s
  run ((c, writes) ∷ calls) s = run calls (call_store c writes s)

  unfoldable pub open_store : Option Text → Store
  unfolding load
  open_store disk = record { state = load disk; disk = disk }

  -- What is written can be read: the decryption of a sealed state is the state.
  abbrev pub Opens : Type 0
  Opens =
      (n : Navigation) (body : Text)
      → seal n ≡ some body
      → unseal body ≡ some (record { favorites = some n.favorites; history = some n.history })

  load-encrypt :
      (n : Navigation) (blob : Text) → Opens → encrypt n ≡ some blob → load (some blob) ≡ n
  unfolding encrypt load decrypt
  load-encrypt n blob opens h = elim (Option-cases (seal n)) [
    | inl missing ↦ absurd (ground arith)
    | inr (body, sealed) ↦
        ground
          (arith, opens n body sealed, starts_with-append magic body, drop-append_length magic body)
  ]

  abbrev pub IsSaved : Store → Type 0
  IsSaved s = load s.disk ≡ s.state

  -- A secret is available.
  abbrev pub Seals : Type 0
  Seals = (n : Navigation) → is_some (seal n) ≡ true

  IsSaved-persist : (s : Store) → Opens → Seals → IsSaved (persist true s)
  unfolding persist encrypt
  IsSaved-persist s opens seals = elim (Option-cases (seal s.state)) [
    | inl missing ↦ absurd (ground (arith, seals s.state))
    | inr (body, sealed) ↦ ground (arith, load-encrypt s.state (magic ++ body) opens)
  ]

  call_unchanged : (c : Call) (n : Navigation) → (call c n).1 ≡ false → (call c n).0 ≡ n
  unfolding call add_favorite remove_favorite toggle_favorite record_visit clear_history
  call_unchanged (add uuid path kind label) n h = ground arith
  call_unchanged (remove path) n h = ground arith
  call_unchanged (toggle uuid path kind) n h = ground arith
  call_unchanged (visit now path) n h = absurd (ground arith)
  call_unchanged clear n h = ground arith

  IsSaved-call_store :
      (c : Call) (s : Store) → Opens → Seals → IsSaved s → IsSaved (call_store c true s)
  unfolding call_store
  IsSaved-call_store c s opens seals h = elim (Bool-cases ((call c s.state).1)) [
    | inl changed ↦
        ground (arith, IsSaved-persist (record s { state = (call c s.state).0 }) opens seals)
    | inr kept ↦ ground (arith, call_unchanged c s.state kept)
  ]

  abbrev pub all_written : List Call → List (Call × Bool)
  all_written [] = []
  all_written (c ∷ cs) = (c, true) ∷ all_written cs

  IsSaved-run :
      (cs : List Call) (s : Store) → Opens → Seals → IsSaved s → IsSaved (run (all_written cs) s)
  unfolding run
  IsSaved-run [] s opens seals h = h
  IsSaved-run (c ∷ cs) s opens seals h =
      IsSaved-run cs (call_store c true s) opens seals (IsSaved-call_store c s opens seals h)

  -- Where a secret is available, what is sealed can be opened and no write fails: whatever file
  -- a profile's store is opened on and whatever is called, a store opened on the file that is
  -- left has the favorites and the history of the first.
  pub reopened :
      (disk : Option Text) (cs : List Call)
      → Opens
      → Seals
      → let s = run (all_written cs) (open_store disk) in (open_store s.disk).state ≡ s.state
  unfolding open_store
  reopened disk cs opens seals = IsSaved-run cs (open_store disk) opens seals refl

  -- A call that changes the state while a write fails leaves the file as it was.
  pub failed_write : (c : Call) (s : Store) → (call_store c false s).disk ≡ s.disk
  unfolding call_store persist
  failed_write c s = ground arith

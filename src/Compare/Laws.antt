-- ===== src/Compare/Laws.antt =====
-- The comparison of two directories, name by name.
use Prim.Native.String.{String}
use text.Mathlib.Text.{◌==◌ as str_eq}
use text.Mathlib.TextEquality.{eq_iff}
use hpc_client_gui.Base.{
  ℕ, ◌≡◌, refl, List, [], ◌∷◌, if◌then◌else◌, Option, none, some, arith, ==_iff,
}
use hpc_client_gui.Base.Dict.{Dict, lookup, insert, has_key, lookup-insert, has_key-lookup}
use hpc_client_gui.Compare.{
  CompareStatus, same, local_only, remote_only, type_mismatch, size_different, local_newer,
  remote_newer, ComparableEntry, pair_status, by_name, status_of, local_loop, remote_loop,
  compare_directory_entries,
}

-- The entry of a name in a listing: the last one that has it.
pub last_named : String → List ComparableEntry → Option ComparableEntry
last_named name [] = none
last_named name (e ∷ entries) = elim (last_named name entries) [
  | some later ↦ some later
  | none ↦ if str_eq name e.name then some e else none
]

abbrev or_else : Option ComparableEntry → Option ComparableEntry → Option ComparableEntry
or_else (some e) d = some e
or_else none d = d

lookup-by_name :
    (name : String) (entries : List ComparableEntry) (d : Dict ComparableEntry)
    → lookup name (by_name entries d) ≡ or_else (last_named name entries) (lookup name d)
unfolding by_name last_named
lookup-by_name name [] d = refl
lookup-by_name name (e ∷ entries) d =
    ground (arith, lookup-by_name name entries (insert e.name e d), lookup-insert name e.name e d)

-- No name has two entries.
abbrev Distinct : Dict ComparableEntry → Type 0
Distinct [] = Unit
Distinct ((k, v) ∷ d) = (lookup k d ≡ none) × Distinct d

Distinct-insert :
    (key : String) (value : ComparableEntry) (d : Dict ComparableEntry)
    → Distinct d
    → Distinct (insert key value d)
unfolding insert lookup
Distinct-insert key value [] h = (refl, tt)
Distinct-insert key value ((k, v) ∷ d) h = ground (
  arith,
  lookup-insert k key value d,
  eq_iff key k,
  eq_iff k key,
  Distinct-insert key value d h.1,
)

Distinct-by_name :
    (entries : List ComparableEntry) (d : Dict ComparableEntry)
    → Distinct d
    → Distinct (by_name entries d)
unfolding by_name
Distinct-by_name [] d h = h
Distinct-by_name (e ∷ entries) d h =
    Distinct-by_name entries (insert e.name e d) (Distinct-insert e.name e d h)

abbrev status_or :
    ℕ
    → Dict ComparableEntry
    → String
    → Option ComparableEntry
    → Option CompareStatus
    → Option CompareStatus
status_or tolerance remotes name (some e) old = some (status_of tolerance e (lookup name remotes))
status_or tolerance remotes name none old = old

lookup-local_loop :
    (tolerance : ℕ) (remotes : Dict ComparableEntry) (name : String) (locals : Dict ComparableEntry)
    (statuses : Dict CompareStatus)
    → Distinct locals
    → lookup name (local_loop tolerance remotes locals statuses)
      ≡ status_or tolerance remotes name (lookup name locals) (lookup name statuses)
unfolding local_loop lookup
lookup-local_loop tolerance remotes name [] statuses h = refl
lookup-local_loop tolerance remotes name ((k, v) ∷ locals) statuses (fresh, rest) =
    let new = status_of tolerance v (lookup k remotes) in
    ground (
      arith,
      eq_iff name k,
      fresh,
      lookup-local_loop tolerance remotes name locals (insert k new statuses) rest,
      lookup-insert name k new statuses,
    )

abbrev missing_or :
    Option ComparableEntry → Option ComparableEntry → Option CompareStatus → Option CompareStatus
missing_or (some e) none old = some remote_only
missing_or (some e) (some l) old = old
missing_or none l old = old

lookup-remote_loop :
    (locals : Dict ComparableEntry) (name : String) (remotes : Dict ComparableEntry)
    (statuses : Dict CompareStatus)
    → Distinct remotes
    → lookup name (remote_loop locals remotes statuses)
      ≡ missing_or (lookup name remotes) (lookup name locals) (lookup name statuses)
unfolding remote_loop lookup
lookup-remote_loop locals name [] statuses h = refl
lookup-remote_loop locals name ((k, v) ∷ remotes) statuses (fresh, rest) =
    let next = if has_key k locals then statuses else insert k remote_only statuses in
    ground (
      arith,
      eq_iff name k,
      fresh,
      has_key-lookup k locals,
      lookup-remote_loop locals name remotes next rest,
      lookup-insert name k remote_only statuses,
    )

-- What one side's status of a name is by the two listings.
pub local_status : ℕ → Option ComparableEntry → Option ComparableEntry → Option CompareStatus
unfolding status_of
local_status tolerance none remote = none
local_status tolerance (some local) remote = some (status_of tolerance local remote)

pub remote_status : Option ComparableEntry → Option ComparableEntry → Option CompareStatus
remote_status none (some remote) = some remote_only
remote_status local none = none
remote_status (some local) remote = none

-- Whatever the order of the listings and however often a name stands in them, the local status
-- of a name is that of the last local entry of the name against the last remote one, and it has
-- none where the name is not local; the remote statuses have remote_only exactly for the names
-- that are remote and not local.
pub compare_directory_entries_statuses :
    (tolerance : ℕ) (local remote : List ComparableEntry) (name : String)
    → let result = compare_directory_entries tolerance local remote in
      (lookup name result.local_statuses
        ≡ local_status tolerance (last_named name local) (last_named name remote))
      × (lookup name result.remote_statuses
          ≡ remote_status (last_named name local) (last_named name remote))
unfolding compare_directory_entries local_status remote_status lookup status_of
compare_directory_entries_statuses tolerance local remote name =
    let locals = by_name local [] in
    let remotes = by_name remote [] in
    ground (
      arith,
      lookup-local_loop tolerance remotes name locals [] (Distinct-by_name local [] tt),
      lookup-remote_loop locals name remotes [] (Distinct-by_name remote [] tt),
      lookup-by_name name local [],
      lookup-by_name name remote [],
    )

pub mirror : CompareStatus → CompareStatus
mirror same = same
mirror local_only = remote_only
mirror remote_only = local_only
mirror type_mismatch = type_mismatch
mirror size_different = size_different
mirror local_newer = remote_newer
mirror remote_newer = local_newer

-- Two entries compared from the other side have the mirrored status.
pub pair_status-mirror :
    (tolerance : ℕ) (a b : ComparableEntry)
    → pair_status tolerance b a ≡ mirror (pair_status tolerance a b)
unfolding pair_status mirror
pair_status-mirror tolerance a b = ground (arith, ==_iff a.size b.size, ==_iff b.size a.size)

-- ===== src/Compare.antt =====
-- src/hpc_gui/services/directory_comparison.py. Sizes, times and the tolerance are natural numbers;
-- a negative tolerance is given as zero, which the code treats alike.
pub mod Laws
mod Tests
use Prim.Native.String.{String}
use hpc_client_gui.Base.{
  ℕ, ◌+◌, List, [], ◌∷◌, Bool, true, false, not, ◌==◌, ltb, if◌then◌else◌, Option, none, some,
}
use hpc_client_gui.Base.Dict.{Dict, lookup, insert, has_key}

pub data CompareStatus : Type 0 where
  same local_only remote_only type_mismatch size_different local_newer remote_newer : CompareStatus

pub record ComparableEntry : Type 0 where
  pub name : String
  pub is_dir : Bool
  pub size : ℕ
  pub mtime : ℕ

pub record ComparisonResult : Type 0 where
  pub local_statuses : Dict CompareStatus
  pub remote_statuses : Dict CompareStatus

abbrev pub differ : Bool → Bool → Bool
differ a b = if a then not b else b

-- `_pair_status`
unfoldable pub pair_status : ℕ → ComparableEntry → ComparableEntry → CompareStatus
pair_status tolerance local remote =
    if differ local.is_dir remote.is_dir
    then type_mismatch
    else if local.is_dir
    then same
    else if not (local.size == remote.size)
    then size_different
    else if ltb (remote.mtime + tolerance) local.mtime
    then local_newer
    else if ltb (local.mtime + tolerance) remote.mtime
    then remote_newer
    else same

-- `{entry.name: entry for entry in entries}`, onto a dictionary.
unfoldable pub by_name : List ComparableEntry → Dict ComparableEntry → Dict ComparableEntry
by_name [] d = d
by_name (e ∷ entries) d = by_name entries (insert e.name e d)

unfoldable pub status_of : ℕ → ComparableEntry → Option ComparableEntry → CompareStatus
unfolding pair_status
status_of tolerance local none = local_only
status_of tolerance local (some remote) = pair_status tolerance local remote

-- The loop over the local entries.
unfoldable pub local_loop :
    ℕ → Dict ComparableEntry → Dict ComparableEntry → Dict CompareStatus → Dict CompareStatus
unfolding status_of
local_loop tolerance remote_by_name [] statuses = statuses
local_loop tolerance remote_by_name ((name, local) ∷ entries) statuses =
    local_loop tolerance remote_by_name entries
      (insert name (status_of tolerance local (lookup name remote_by_name)) statuses)

-- The loop over the remote names.
unfoldable pub remote_loop :
    Dict ComparableEntry → Dict ComparableEntry → Dict CompareStatus → Dict CompareStatus
remote_loop local_by_name [] statuses = statuses
remote_loop local_by_name ((name, remote) ∷ entries) statuses =
    remote_loop local_by_name entries
      (if has_key name local_by_name then statuses else insert name remote_only statuses)

-- `compare_directory_entries`
unfoldable pub compare_directory_entries :
    ℕ → List ComparableEntry → List ComparableEntry → ComparisonResult
unfolding by_name local_loop remote_loop
compare_directory_entries tolerance local remote =
    let local_by_name = by_name local [] in
    let remote_by_name = by_name remote [] in
    record {
      local_statuses = local_loop tolerance remote_by_name local_by_name [];
      remote_statuses = remote_loop local_by_name remote_by_name [];
    }

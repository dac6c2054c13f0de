-- ===== src/Compare/Tests.antt =====
-- The comparison of two small directories.
use Prim.Native.String.{String}
use hpc_client_gui.Base.{ℕ, ◌≡◌, refl, List, [], ◌∷◌, false, some}
use hpc_client_gui.Base.Dict.{lookup, insert, has_key}
use hpc_client_gui.Compare.{
  same, local_newer, remote_only, ComparableEntry, pair_status, compare_directory_entries,
}
use hpc_client_gui.Compare.Laws.{
  local_status, remote_status, last_named, mirror, compare_directory_entries_statuses,
  pair_status-mirror,
}

abbrev file : String → ℕ → ℕ → ComparableEntry
file n s t = record { name = n; is_dir = false; size = s; mtime = t }

abbrev here : List ComparableEntry
here = file "a" 1 0 ∷ file "b" 7 10 ∷ file "a" 5 20 ∷ []

abbrev there : List ComparableEntry
there = file "a" 5 17 ∷ file "c" 3 0 ∷ []

last_is_compared :
    lookup "a" (compare_directory_entries 2 here there).local_statuses ≡ some local_newer
unfolding lookup insert has_key compare_directory_entries
last_is_compared = refl

only_there : lookup "c" (compare_directory_entries 2 here there).remote_statuses ≡ some remote_only
unfolding lookup insert has_key compare_directory_entries
only_there = refl

within_tolerance : pair_status 3 (file "a" 5 20) (file "a" 5 17) ≡ same
unfolding pair_status
within_tolerance = refl

compare_directory_entries_statuses_example :
    (lookup "a" (compare_directory_entries 2 here there).local_statuses
      ≡ local_status 2 (last_named "a" here) (last_named "a" there))
    × (lookup "a" (compare_directory_entries 2 here there).remote_statuses
        ≡ remote_status (last_named "a" here) (last_named "a" there))
compare_directory_entries_statuses_example = compare_directory_entries_statuses 2 here there "a"

pair_status-mirror_example :
    pair_status 2 (file "a" 5 17) (file "a" 5 20)
    ≡ mirror (pair_status 2 (file "a" 5 20) (file "a" 5 17))
pair_status-mirror_example = pair_status-mirror 2 (file "a" 5 20) (file "a" 5 17)

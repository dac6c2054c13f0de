-- ===== src/Config/Profiles/Load.antt =====
-- src/hpc_gui/config/storage.py: `load_profiles`, which gives an id to the profiles that have none,
-- and `get_profile_id`.
pub mod Laws
use hpc_client_gui.Base.{
  ℕ, suc, List, [], ◌∷◌, Bool, true, false, not, ◌||◌, is_empty, if◌then◌else◌, Option, none, some,
}
use hpc_client_gui.Base.Text.{Text, codes, strip}
use hpc_client_gui.Base.Json.{
  Json, text, array, object, Elements, nothing, element, Members, get, get_or, get_or_null, put,
  is_true, as_array, as_object,
}
use hpc_client_gui.Config.{str_of}
use hpc_client_gui.Config.File.{ConfigFile, load_config, config_of, save_config}
use hpc_client_gui.Config.Migration.{migrate_legacy_transfer_parallelism}
use hpc_client_gui.Config.Profiles.{profiles_in, field_is, find_index, item_at}

-- Whether a profile has no id that counts.
abbrev pub lacks_id : Members → Bool
lacks_id profile = not (is_true (get_or_null (get (codes "id") profile)))

-- The loop over `missing`: `fresh n` is what the n-th call of `uuid4` gives.
unfoldable pub stamp_ids : (ℕ → Text) → ℕ → Elements → Elements
stamp_ids fresh n nothing = nothing
stamp_ids fresh n (element value rest) =
    let same = stamp_ids fresh n rest in
    let next = stamp_ids fresh (suc n) rest in
    elim (as_object value) [
      | none ↦ element value same
      | some p ↦
          if lacks_id p
          then element (object (put (codes "id") (text (fresh n)) p)) next
          else element value same
    ]

unfoldable pub any_lacks_id : Elements → Bool
any_lacks_id nothing = false
any_lacks_id (element value rest) =
    let later = any_lacks_id rest in
    elim (as_object value) [ none ↦ later | some p ↦ lacks_id p || later ]

-- `load_profiles`: the profiles and the file after it; the first argument is that of `load_config`.
unfoldable pub load_profiles : Bool → (ℕ → Text) → ConfigFile → Elements × ConfigFile
load_profiles renames fresh file =
    let loaded = load_config renames file in
    let cfg = loaded.0 in
    elim (as_array (get_or (array nothing) (get (codes "profiles") cfg))) [
      | none ↦ (nothing, loaded.1)
      | some profs ↦
          let missing = any_lacks_id profs in
          let stamped =
            if missing then put (codes "profiles") (array (stamp_ids fresh 0 profs)) cfg else cfg in
          let migrated = migrate_legacy_transfer_parallelism stamped in
          let changed = missing || migrated.1 in
          (profiles_in migrated.0, if changed then save_config migrated.0 loaded.1 else loaded.1)
    ]

-- `next((p for p in load_profiles() if p.get("name") == name), None)`; `none` where it raises.
abbrev pub named : Text → Elements → Option (Option Members)
named name profs = elim (find_index (field_is (codes "name") name) profs) [
  | none ↦ none
  | some none ↦ some none
  | some (some i) ↦ some (item_at i profs)
]

module _ (repr : Json → Text) where
  -- `get_profile_id` of a name that is a string or `None`, which is the empty one.
  unfoldable pub get_profile_id : Bool → (ℕ → Text) → Text → ConfigFile → Option (Option Text)
  unfolding strip
  get_profile_id renames fresh name file =
      elim (named (strip name) (load_profiles renames fresh file).0) [
        | none ↦ none
        | some none ↦ some none
        | some (some profile) ↦
            let stored = get_or_null (get (codes "id") profile) in
            some (if is_true stored then some (str_of repr stored) else none)
      ]

-- ===== src/Config/FileManager.antt =====
-- src/hpc_gui/config/file_manager_profile.py: the file-manager settings of a profile.
pub mod Laws
mod Tests
use hpc_client_gui.Base.{
  ℕ, List, [], ◌∷◌, Bool, true, false, if◌then◌else◌, is_empty, Option, none, some,
}
use hpc_client_gui.Base.Text.{Text, codes, strip}
use hpc_client_gui.Base.Json.{
  Json, null, bool, text, object, Elements, Members, empty, member, get, get_or, put, merge,
  get_or_null, as_object, as_text, is_true,
}
use hpc_client_gui.Config.{str_or_empty}
use hpc_client_gui.Config.File.{ConfigFile}
use hpc_client_gui.Config.Jump.{put_bool, put_text, object_or_empty}
use hpc_client_gui.Config.Profiles.{upsert_profile}
use hpc_client_gui.Config.Profiles.Load.{load_profiles, named}
use hpc_client_gui.Config.Profiles.Patches.{merge_profile_patch}

-- `FILE_MANAGER_DEFAULTS`
abbrev pub file_manager_defaults : Members
file_manager_defaults =
    member (codes "local_start_dir") (text [])
      (member (codes "comparison_enabled") (bool false) empty)

-- `SYNC_DEFAULTS`
abbrev pub sync_defaults : Members
sync_defaults =
    member (codes "enabled") (bool false)
      (member (codes "local_root") (text []) (member (codes "remote_root") (text []) empty))

-- `_normalize_sync`
unfoldable pub normalize_sync : Json → Members
normalize_sync value = elim (as_object value) [
  | none ↦ sync_defaults
  | some d ↦
      put_text (codes "remote_root") d
        (put_text (codes "local_root") d (put_bool (codes "enabled") d sync_defaults))
]

abbrev pub start_dir : Json → Text
start_dir value = elim (as_text value) [ none ↦ [] | some t ↦ strip t ]

-- `normalize_file_manager_settings`
unfoldable pub normalize_file_manager_settings : Json → Members
normalize_file_manager_settings value = elim (as_object value) [
  | none ↦ put (codes "sync") (object (normalize_sync null)) file_manager_defaults
  | some d ↦
      let sync = get_or_null (get (codes "sync") d) in
      let settings = put (codes "sync") (object (normalize_sync sync)) file_manager_defaults in
      let settings =
        put (codes "local_start_dir")
          (text (start_dir (get_or_null (get (codes "local_start_dir") d)))) settings in
      let settings =
        put (codes "comparison_enabled")
          (bool (is_true (get_or_null (get (codes "comparison_enabled") d)))) settings in
      put (codes "sync") (object (normalize_sync sync)) settings
]

-- A patch of `sync` with the stored fields beneath it.
abbrev pub incoming_of : Members → Members → Members
incoming_of base patch = elim (as_object (get_or_null (get (codes "sync") base))) [
  | none ↦ patch
  | some stored ↦ elim (as_object (get_or_null (get (codes "sync") patch))) [
    | none ↦ patch
    | some new ↦ put (codes "sync") (object (merge stored new)) patch
  ]
]

-- `patch_file_manager_settings`
unfoldable pub patch_file_manager_settings : Json → Members → Members
patch_file_manager_settings existing patch =
    let base = object_or_empty (as_object existing) in
    merge base (normalize_file_manager_settings (object (merge base (incoming_of base patch))))

-- `update_profile_file_manager_settings` of a name that is a string; `none` where it raises. `late`
-- is what `uuid4` gives after the profiles are loaded.
unfoldable pub update_profile_file_manager_settings :
    (Json → Text)
    → Bool
    → (ℕ → Text)
    → Text
    → Text
    → Members
    → ConfigFile
    → Option (Members × ConfigFile)
update_profile_file_manager_settings repr renames fresh late profile_name patch file =
    let name = strip profile_name in
    let loaded = load_profiles renames fresh file in
    if is_empty name then none else (elim (named name loaded.0) [
      | none ↦ none
      | some none ↦ none
      | some (some profile) ↦
          let updated =
            patch_file_manager_settings (get_or_null (get (codes "file_manager") profile)) patch in
          let merged =
            merge_profile_patch (some profile)
              (member (codes "file_manager") (object updated) empty) [] in
          elim (upsert_profile repr late merged loaded.1) [
            | none ↦ none
            | some after ↦ some (updated, after)
          ]
    ])

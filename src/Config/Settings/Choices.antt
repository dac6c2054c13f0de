-- ===== src/Config/Settings/Choices.antt =====
-- src/hpc_gui/config/storage.py: the settings that are strings, most of them one of a few words.
use Prim.Native.String.{String}
use hpc_client_gui.Base.{List, [], ◌∷◌, Bool, if◌then◌else◌, Option, none, some}
use hpc_client_gui.Base.Text.{Text, codes, strip, lower, one_of}
use hpc_client_gui.Base.Json.{Json, text, Members, get, get_or_null, as_bool}
use hpc_client_gui.Config.{str_of, str_or_empty}
use hpc_client_gui.Config.File.{ConfigFile, load_settings}
use hpc_client_gui.Config.Settings.{setting, set_one}

-- `_TRANSFER_COMPLETION_ACTIONS`
abbrev pub completion_actions : List String
completion_actions =
    "none" ∷ "notification" ∷ "attention" ∷ "play_sound" ∷ "close_once" ∷ "run_command" ∷ "close"
    ∷ "reboot_once" ∷ "shutdown_once" ∷ "suspend_once" ∷ []

-- `SBATCH_FOLLOW_MODES`
abbrev pub follow_modes : List String
follow_modes =
    "none" ∷ "outputs_tab" ∷ "new_tabs_split" ∷ "new_window_combined" ∷ "new_windows_split" ∷ []

abbrev pub transfer_types : List String
transfer_types = "auto" ∷ "binary" ∷ "ascii" ∷ []

abbrev pub known_or : List String → Text → Text → Text
known_or known default value = if one_of value known then value else default

module _ (repr : Json → Text) where
  unfoldable pub get_transfer_completion_action : Text → ConfigFile → Text
  get_transfer_completion_action default file =
      known_or completion_actions default
        (strip (str_of repr (setting (codes "transfer_completion_action") (text default) file)))

  unfoldable pub set_transfer_completion_action : Json → ConfigFile → Text × ConfigFile
  set_transfer_completion_action action file =
      let value = known_or completion_actions (codes "none") (strip (str_or_empty repr action)) in
      (value, set_one (codes "transfer_completion_action") (text value) file)

  -- The Boolean of an older version, where the mode is not one of the known ones.
  abbrev pub follow_mode_without : Option Bool → Text → Text
  follow_mode_without (some legacy) default = if legacy then codes "outputs_tab" else codes "none"
  follow_mode_without none default = known_or follow_modes (codes "outputs_tab") default

  abbrev pub legacy_focus : Members → Option Bool
  legacy_focus settings =
      as_bool (get_or_null (get (codes "focus_jobs_outputs_after_submission_enabled") settings))

  unfoldable pub get_sbatch_follow_mode : Text → ConfigFile → Text
  get_sbatch_follow_mode default file =
      let value = strip (str_of repr (setting (codes "sbatch_follow_mode") (text []) file)) in
      if one_of value follow_modes
      then value
      else follow_mode_without (legacy_focus (load_settings file)) default

  unfoldable pub set_sbatch_follow_mode : Json → ConfigFile → Text × ConfigFile
  set_sbatch_follow_mode mode file =
      let value = known_or follow_modes (codes "outputs_tab") (strip (str_or_empty repr mode)) in
      (value, set_one (codes "sbatch_follow_mode") (text value) file)

  unfoldable pub get_ftp_transfer_type : Text → ConfigFile → Text
  get_ftp_transfer_type default file =
      let value =
        lower (strip (str_of repr (setting (codes "ftp_transfer_type") (text default) file))) in
      known_or transfer_types default value

  unfoldable pub set_ftp_transfer_type : Json → ConfigFile → Text × ConfigFile
  set_ftp_transfer_type value file =
      let normalized =
        known_or transfer_types (codes "auto") (lower (strip (str_or_empty repr value))) in
      (normalized, set_one (codes "ftp_transfer_type") (text normalized) file)

  -- A setting that is any string.
  unfoldable pub string_setting : Text → Text → ConfigFile → Text
  string_setting key default file = strip (str_or_empty repr (setting key (text default) file))

  unfoldable pub set_string_setting : Text → Json → ConfigFile → Text × ConfigFile
  set_string_setting key value file =
      let stripped = strip (str_or_empty repr value) in (stripped, set_one key (text stripped) file)

  abbrev pub get_last_seen_changelog_version : Text → ConfigFile → Text
  get_last_seen_changelog_version = string_setting (codes "last_seen_changelog_version")

  abbrev pub set_last_seen_changelog_version : Json → ConfigFile → Text × ConfigFile
  set_last_seen_changelog_version = set_string_setting (codes "last_seen_changelog_version")

  abbrev pub get_cli_default_profile : Text → ConfigFile → Text
  get_cli_default_profile = string_setting (codes "cli_default_profile")

  abbrev pub set_cli_default_profile : Json → ConfigFile → Text × ConfigFile
  set_cli_default_profile = set_string_setting (codes "cli_default_profile")

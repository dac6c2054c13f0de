-- ===== src/Config/Settings/Options.antt =====
-- src/hpc_gui/config/storage.py: one getter and one setter for each of the settings.
use hpc_client_gui.Base.{Bool}
use hpc_client_gui.Base.Text.{codes}
use hpc_client_gui.Base.Int.{ℤ, pos}
use hpc_client_gui.Base.Json.{Json, int}
use hpc_client_gui.Config.File.{ConfigFile}
use hpc_client_gui.Config.Settings.{
  coerce_positive_int, coerce_int_in_range, setting, set_one, bool_setting, set_bool_setting,
}

unfoldable pub get_jobs_outputs_refresh_interval_seconds : ℤ → ConfigFile → ℤ
get_jobs_outputs_refresh_interval_seconds default file =
    coerce_positive_int (setting (codes "jobs_outputs_refresh_interval_seconds") (int default) file)
      default

unfoldable pub set_jobs_outputs_refresh_interval_seconds : Json → ConfigFile → ℤ × ConfigFile
set_jobs_outputs_refresh_interval_seconds seconds file =
    let value = coerce_positive_int seconds (pos 15) in
    (value, set_one (codes "jobs_outputs_refresh_interval_seconds") (int value) file)

unfoldable pub get_live_tracking_warning_interval_seconds : ℤ → ConfigFile → ℤ
get_live_tracking_warning_interval_seconds default file =
    coerce_int_in_range
      (setting (codes "live_tracking_warning_interval_seconds") (int default) file) default (pos 0)
      (pos 3600)

unfoldable pub set_live_tracking_warning_interval_seconds : Json → ConfigFile → ℤ × ConfigFile
set_live_tracking_warning_interval_seconds seconds file =
    let value = coerce_int_in_range seconds (pos 60) (pos 0) (pos 3600) in
    (value, set_one (codes "live_tracking_warning_interval_seconds") (int value) file)

unfoldable pub get_transfer_parallelism : ℤ → ConfigFile → ℤ
get_transfer_parallelism default file =
    coerce_int_in_range (setting (codes "transfer_parallelism") (int default) file) default (pos 1)
      (pos 10)

unfoldable pub set_transfer_parallelism : Json → ConfigFile → ℤ × ConfigFile
set_transfer_parallelism count file =
    let value = coerce_int_in_range count (pos 1) (pos 1) (pos 10) in
    (value, set_one (codes "transfer_parallelism") (int value) file)

abbrev pub get_pause_live_follow_when_minimized_enabled : Bool → ConfigFile → Bool
get_pause_live_follow_when_minimized_enabled =
    bool_setting (codes "pause_live_follow_when_minimized_enabled")

abbrev pub get_follow_window_open_minimized_enabled : Bool → ConfigFile → Bool
get_follow_window_open_minimized_enabled =
    bool_setting (codes "follow_window_open_minimized_enabled")

abbrev pub get_squeue_auto_refresh_enabled : Bool → ConfigFile → Bool
get_squeue_auto_refresh_enabled = bool_setting (codes "squeue_auto_refresh_enabled")

abbrev pub get_sacct_auto_refresh_enabled : Bool → ConfigFile → Bool
get_sacct_auto_refresh_enabled = bool_setting (codes "sacct_auto_refresh_enabled")

abbrev pub get_lssrv_auto_refresh_enabled : Bool → ConfigFile → Bool
get_lssrv_auto_refresh_enabled = bool_setting (codes "lssrv_auto_refresh_enabled")

abbrev pub set_lssrv_auto_refresh_enabled : Json → ConfigFile → Bool × ConfigFile
set_lssrv_auto_refresh_enabled = set_bool_setting (codes "lssrv_auto_refresh_enabled")

abbrev pub get_remote_directory_cache_enabled : Bool → ConfigFile → Bool
get_remote_directory_cache_enabled = bool_setting (codes "remote_directory_cache_enabled")

abbrev pub set_remote_directory_cache_enabled : Json → ConfigFile → Bool × ConfigFile
set_remote_directory_cache_enabled = set_bool_setting (codes "remote_directory_cache_enabled")

abbrev pub get_upload_preflight_confirmation_enabled : Bool → ConfigFile → Bool
get_upload_preflight_confirmation_enabled =
    bool_setting (codes "upload_preflight_confirmation_enabled")

abbrev pub set_upload_preflight_confirmation_enabled : Json → ConfigFile → Bool × ConfigFile
set_upload_preflight_confirmation_enabled =
    set_bool_setting (codes "upload_preflight_confirmation_enabled")

abbrev pub get_transfer_checksum_verification_enabled : Bool → ConfigFile → Bool
get_transfer_checksum_verification_enabled =
    bool_setting (codes "transfer_checksum_verification_enabled")

abbrev pub set_transfer_checksum_verification_enabled : Json → ConfigFile → Bool × ConfigFile
set_transfer_checksum_verification_enabled =
    set_bool_setting (codes "transfer_checksum_verification_enabled")

abbrev pub get_cli_external_access_enabled : Bool → ConfigFile → Bool
get_cli_external_access_enabled = bool_setting (codes "cli_external_access_enabled")

abbrev pub set_cli_external_access_enabled : Json → ConfigFile → Bool × ConfigFile
set_cli_external_access_enabled = set_bool_setting (codes "cli_external_access_enabled")

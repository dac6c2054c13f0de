-- ===== src/Config/Settings.antt =====
-- src/hpc_gui/config/storage.py: the getters and setters of the settings.
pub mod Options
pub mod Choices
pub mod Laws
pub mod Words
pub mod Associations
pub mod FtpState
mod Tests
use hpc_client_gui.Base.{
  ℕ, List, [], ◌∷◌, Bool, true, false, not, ◌&&◌, if◌then◌else◌, Option, none, some,
}
use hpc_client_gui.Base.Text.{Text, codes}
use hpc_client_gui.Base.Int.{ℤ, pos, negsuc, int_lt, is_within}
use hpc_client_gui.Base.Json.{
  Json, null, bool, int, real, text, array, object, Members, empty, member, get, get_or, to_int,
  is_true, as_bool,
}
use hpc_client_gui.Config.File.{ConfigFile, load_settings, update_settings}

-- `_coerce_positive_int`
unfoldable pub coerce_positive_int : Json → ℤ → ℤ
coerce_positive_int value default = elim (to_int value) [
  | none ↦ default
  | some coerced ↦ if int_lt (pos 0) coerced then coerced else default
]

-- `_coerce_int_in_range`
unfoldable pub coerce_int_in_range : Json → ℤ → ℤ → ℤ → ℤ
coerce_int_in_range value default minimum maximum = elim (to_int value) [
  | none ↦ default
  | some coerced ↦
      if int_lt coerced minimum
      then minimum
      else if int_lt maximum coerced
      then maximum
      else coerced
]

-- `coerce_profile_transfer_parallelism`
abbrev pub coerce_profile_transfer_parallelism : Json → ℤ → ℤ
coerce_profile_transfer_parallelism value default =
    coerce_int_in_range value default (pos 1) (pos 10)

-- `load_settings().get(key, default)`
abbrev pub setting : Text → Json → ConfigFile → Json
setting key default file = get_or default (get key (load_settings file))

-- `update_settings({key: value})`
abbrev pub set_one : Text → Json → ConfigFile → ConfigFile
set_one key value file = (update_settings (member key value empty) file).1

-- `value if isinstance(value, bool) else default`
abbrev pub bool_or : Bool → Json → Bool
bool_or default value = elim (as_bool value) [ none ↦ default | some b ↦ b ]

-- A setting that is a Boolean, read and written.
unfoldable pub bool_setting : Text → Bool → ConfigFile → Bool
bool_setting key default file = bool_or default (setting key (bool default) file)

unfoldable pub set_bool_setting : Text → Json → ConfigFile → Bool × ConfigFile
set_bool_setting key enabled file =
    let value = is_true enabled in (value, set_one key (bool value) file)

-- ===== src/Config/File.antt =====
-- src/hpc_gui/config/storage.py: the configuration file and its settings. A file whose JSON is no
-- dictionary, on which every operation raises an AttributeError, is not a state; a write succeeds.
pub mod Laws
use hpc_client_gui.Base.{ℕ, List, [], ◌∷◌, Bool, true, false, if◌then◌else◌, Option, none, some}
use hpc_client_gui.Base.Text.{Text, codes}
use hpc_client_gui.Base.Json.{
  Json, array, object, nothing, Members, empty, member, get, put, merge, get_or, get_or_null,
  as_object, as_bool, is_true, bool,
}

-- What stands at `_config_path()`: nothing, a text that is no JSON, or a dictionary.
pub data ConfigFile : Type 0 where
  absent corrupt : ConfigFile
  saved : Members → ConfigFile

abbrev pub fresh_config : Members
fresh_config =
    member (codes "profiles") (array nothing) (member (codes "settings") (object empty) empty)

-- `load_config`; the first argument tells whether a corrupt file can be renamed away.
unfoldable pub load_config : Bool → ConfigFile → Members × ConfigFile
load_config renames absent = (fresh_config, absent)
load_config renames corrupt = (fresh_config, if renames then absent else corrupt)
load_config renames (saved cfg) = (cfg, saved cfg)

-- The configuration that `load_config` returns, which does not depend on the renaming.
unfoldable pub config_of : ConfigFile → Members
unfolding load_config
config_of file = (load_config true file).0

-- `save_config`
unfoldable pub save_config : Members → ConfigFile → ConfigFile
save_config cfg file = saved cfg

abbrev pub settings_in : Members → Members
settings_in cfg = elim (as_object (get_or_null (get (codes "settings") cfg))) [
  | none ↦ empty
  | some st ↦ st
]

-- `load_settings`
unfoldable pub load_settings : ConfigFile → Members
load_settings file =
    elim (as_object (get_or (object empty) (get (codes "settings") (config_of file)))) [
      | none ↦ empty
      | some st ↦ st
    ]

-- `update_settings`: the settings it returns and the file after it.
unfoldable pub update_settings : Members → ConfigFile → Members × ConfigFile
update_settings patch file =
    let cfg = config_of file in
    let st = merge (settings_in cfg) patch in
    (st, save_config (put (codes "settings") (object st) cfg) file)

-- The section `ui`, which `get_ui_pref_bool` and `set_ui_pref_bool` read and write.
abbrev pub ui_in : Members → Members
ui_in cfg = elim (as_object (get_or (object empty) (get (codes "ui") cfg))) [
  | none ↦ empty
  | some ui ↦ ui
]

unfoldable pub get_ui_pref_bool : Text → Bool → ConfigFile → Bool
get_ui_pref_bool key default file =
    elim (as_bool (get_or_null (get key (ui_in (config_of file))))) [ none ↦ default | some v ↦ v ]

unfoldable pub set_ui_pref_bool : Text → Json → ConfigFile → ConfigFile
set_ui_pref_bool key value file =
    let cfg = config_of file in
    save_config (put (codes "ui") (object (put key (bool (is_true value)) (ui_in cfg))) cfg) file

-- ===== src/Config/File/Laws.antt =====
-- What an update of the settings leaves in the configuration file.
use hpc_client_gui.Base.{◌≡◌, refl, ap, sym, ◌∙◌, Bool, if◌then◌else◌, Option, none, some}
use hpc_client_gui.Base.Text.{Text, codes, text_eq}
use hpc_client_gui.Base.Json.{
  Json, object, Members, empty, member, get, put, merge, get_or, get_or_null, as_object, as_bool,
  is_true, bool,
}
use hpc_client_gui.Base.Json.Laws.{get-put, get-put_same, get-merge, get_last, or_else}
use hpc_client_gui.Config.File.{
  ConfigFile, config_of, load_config, load_settings, save_config, settings_in, update_settings,
  ui_in, get_ui_pref_bool, set_ui_pref_bool,
}

dict_or_empty-get_or :
    (o : Option Json)
    → (elim (as_object (get_or (object empty) o)) [ none ↦ empty | some st ↦ st ])
      ≡ (elim (as_object (get_or_null o)) [ none ↦ empty | some st ↦ st ])
dict_or_empty-get_or none = refl
dict_or_empty-get_or (some v) = refl

pub load_settings-settings_in :
    (file : ConfigFile) → load_settings file ≡ settings_in (config_of file)
unfolding load_settings
load_settings-settings_in file = dict_or_empty-get_or (get (codes "settings") (config_of file))

pub config_of-update_settings :
    (patch : Members) (file : ConfigFile)
    → config_of (update_settings patch file).1
      ≡ put (codes "settings") (object (merge (load_settings file) patch)) (config_of file)
unfolding update_settings config_of save_config load_config
config_of-update_settings patch file =
    ap (λ st. put (codes "settings") (object (merge st patch)) (config_of file))
      (sym (load_settings-settings_in file))

pub load_settings-update_settings :
    (patch : Members) (file : ConfigFile)
    → load_settings (update_settings patch file).1 ≡ merge (load_settings file) patch
unfolding load_settings
load_settings-update_settings patch file =
    ap
      (λ cfg. elim (as_object (get_or (object empty) (get (codes "settings") cfg))) [
        | none ↦ empty
        | some st ↦ st
      ])
      (config_of-update_settings patch file)
    ∙ ap (λ o. elim (as_object (get_or (object empty) o)) [ none ↦ empty | some st ↦ st ])
        (get-put_same (codes "settings") (object (merge (load_settings file) patch))
          (config_of file))

-- After an update, a setting is the last one that the patch gives for its key, else what it was;
-- the settings returned are those read again; and every part of the configuration but the
-- settings is as it was, where a missing or corrupt file counts as a fresh configuration.
pub update_settings-load_settings :
    (patch : Members) (file : ConfigFile) (key part : Text)
    → (get key (load_settings (update_settings patch file).1)
        ≡ or_else (get_last key patch) (get key (load_settings file)))
      × ((update_settings patch file).0 ≡ load_settings (update_settings patch file).1)
      × (get part (config_of (update_settings patch file).1) ≡ (
          if text_eq part (codes "settings")
          then some (object (update_settings patch file).0)
          else get part (config_of file)))
unfolding update_settings
update_settings-load_settings patch file key part = (
  ap (get key) (load_settings-update_settings patch file)
      ∙ get-merge key (load_settings file) patch,
  ap (λ st. merge st patch) (sym (load_settings-settings_in file))
      ∙ sym (load_settings-update_settings patch file),
  ap (get part) (config_of-update_settings patch file)
      ∙ get-put part (codes "settings") (object (merge (load_settings file) patch)) (config_of file)
      ∙ ap
          (λ st.
            if text_eq part (codes "settings")
            then some (object (merge st patch))
            else get part (config_of file))
          (load_settings-settings_in file),
)

-- One setting after an update of another or of itself.
pub get-set_one :
    (other key : Text) (value : Json) (file : ConfigFile)
    → get other (load_settings (update_settings (member key value empty) file).1)
      ≡ (if text_eq other key then some value else get other (load_settings file))
unfolding merge
get-set_one other key value file =
    ap (get other) (load_settings-update_settings (member key value empty) file)
    ∙ get-put other key value (load_settings file)

-- A preference of the interface that is stored is the one read, whatever the default; the settings
-- are as they were, and so is every preference when a setting is updated.
pub get_ui_pref_bool-set_ui_pref_bool :
    (key other : Text) (value : Json) (default : Bool) (patch : Members) (file : ConfigFile)
    → (get_ui_pref_bool key default (set_ui_pref_bool key value file) ≡ is_true value)
      × (load_settings (set_ui_pref_bool key value file) ≡ load_settings file)
      × (get_ui_pref_bool other default (update_settings patch file).1
          ≡ get_ui_pref_bool other default file)
unfolding get_ui_pref_bool set_ui_pref_bool load_settings text_eq save_config config_of load_config
get_ui_pref_bool-set_ui_pref_bool key other value default patch file =
    let ui = object (put key (bool (is_true value)) (ui_in (config_of file))) in
    (
      ap
            (λ o.
              elim (as_bool (
                get_or_null (
                  get key
                    (elim (as_object (get_or (object empty) o)) [ none ↦ empty | some u ↦ u ])))) [
                      | none ↦ default
                      | some v ↦ v
                    ])
            (get-put_same (codes "ui") ui (config_of file))
          ∙ ap (λ o. elim (as_bool (get_or_null o)) [ none ↦ default | some v ↦ v ])
              (get-put_same key (bool (is_true value)) (ui_in (config_of file))),
      ap (λ o. elim (as_object (get_or (object empty) o)) [ none ↦ empty | some st ↦ st ])
          (get-put (codes "settings") (codes "ui") ui (config_of file)),
      ap
            (λ cfg. elim (as_bool (get_or_null (get other (ui_in cfg)))) [
              | none ↦ default
              | some v ↦ v
            ])
            (config_of-update_settings patch file)
          ∙ ap
              (λ o.
                elim (as_bool (
                  get_or_null (
                    get other (elim (as_object (get_or (object empty) o)) [
                      | none ↦ empty
                      | some u ↦ u
                    ])))) [ none ↦ default | some v ↦ v ])
              (get-put (codes "ui") (codes "settings") (object (merge (load_settings file) patch))
                (config_of file)),
    )

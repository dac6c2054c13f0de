-- ===== src/Config/Tests.antt =====
-- The configuration file, the settings and the profiles at concrete values.
use hpc_client_gui.Base.{
  ℕ, ◌≡◌, refl, ◌∙◌, ◌≤◌, List, [], ◌∷◌, Bool, true, false, not, ◌&&◌, is_empty, if◌then◌else◌,
  Option, none, some, arith,
}
use hpc_client_gui.Base.Text.{Text, codes, text_eq, strip}
use hpc_client_gui.Base.Int.{pos, int_lt, is_within}
use hpc_client_gui.Base.Json.{
  Json, null, bool, int, text, array, object, Elements, nothing, element, Members, empty, member,
  get, get_or_null, put, merge, is_text, is_true, as_object,
}
use hpc_client_gui.Base.Json.Laws.{or_else, get_last}
use hpc_client_gui.Config.File.{
  ConfigFile, absent, corrupt, saved, config_of, load_config, load_settings, update_settings,
}
use hpc_client_gui.Config.File.Laws.{update_settings-load_settings}
use hpc_client_gui.Config.Settings.{coerce_int_in_range}
use hpc_client_gui.Config.Settings.Options.{
  get_jobs_outputs_refresh_interval_seconds, set_jobs_outputs_refresh_interval_seconds,
  get_live_tracking_warning_interval_seconds, set_live_tracking_warning_interval_seconds,
  get_transfer_parallelism, set_transfer_parallelism,
}
use hpc_client_gui.Config.Settings.Laws.{number_settings_round_trip}
use hpc_client_gui.Config.Migration.{migrate_profile, migrate_legacy_transfer_parallelism}
use hpc_client_gui.Config.Migration.Laws.{is_settled, migrate_profile-get}
use hpc_client_gui.Config.Profiles.{field_is, profiles_in, as_elements, given_id, upsert_profile}
use hpc_client_gui.Config.Profiles.Load.{load_profiles}
use hpc_client_gui.Config.Profiles.Load.Laws.{load_profiles-twice}

abbrev no_text : Json → Text
no_text value = codes "x"

abbrev seven : Members
seven = member (codes "transfer_parallelism") (int (pos 7)) empty

abbrev plain : Members
plain = member (codes "name") (text (codes "alpha")) empty

abbrev legacy_config : Members
legacy_config =
    member (codes "profiles") (array (element (object plain) nothing))
      (member (codes "settings") (object seven) empty)

-- A profile without a value of its own gets the old one.
legacy_seven : (migrate_profile (pos 7) plain).1 ≡ true
unfolding migrate_profile get text_eq coerce_int_in_range hpc_client_gui.Base.Json.to_int
    hpc_client_gui.Config.Migration.is_valid_parallelism
legacy_seven = refl

-- A profile whose value is `True`, which equals one, is left as it is, although it is not valid.
true_kept :
    migrate_profile (pos 1) (member (codes "transfer_parallelism") (bool true) empty)
    ≡ (member (codes "transfer_parallelism") (bool true) empty, false)
unfolding migrate_profile get text_eq coerce_int_in_range hpc_client_gui.Base.Json.to_int
    hpc_client_gui.Config.Migration.is_valid_parallelism
true_kept = refl

-- A name with a space at its end is remembered without it and stored with it, so that the second
-- call stores the profile again.
abbrev spaced : Members
spaced = member (codes "name") (text (codes "a ")) empty

abbrev twice : Option ConfigFile
twice = elim (upsert_profile no_text (codes "id1") spaced absent) [
  | none ↦ none
  | some file ↦ upsert_profile no_text (codes "id2") spaced file
]

abbrev profiles_of : Option ConfigFile → Elements
profiles_of none = nothing
profiles_of (some file) = profiles_in (config_of file)

stored_twice :
    profiles_of twice
    ≡ element
        (object (
          member
            (codes "name")
            (text (codes "a "))
            (member (codes "id") (text (codes "id1")) empty)))
        (element
          (object (
            member
              (codes "name")
              (text (codes "a "))
              (member (codes "id") (text (codes "id2")) empty)))
          nothing)
unfolding upsert_profile config_of load_config hpc_client_gui.Config.File.save_config get put
    text_eq strip is_true hpc_client_gui.Config.Profiles.find_index
    hpc_client_gui.Config.Profiles.append_item
stored_twice = refl

update_settings-load_settings_example :
    (get (codes "transfer_parallelism") (load_settings (update_settings seven corrupt).1)
      ≡ or_else
          (get_last (codes "transfer_parallelism") seven)
          (get (codes "transfer_parallelism") (load_settings corrupt)))
    × ((update_settings seven corrupt).0 ≡ load_settings (update_settings seven corrupt).1)
    × (get (codes "profiles") (config_of (update_settings seven corrupt).1) ≡ (
        if text_eq (codes "profiles") (codes "settings")
        then some (object (update_settings seven corrupt).0)
        else get (codes "profiles") (config_of corrupt)))
update_settings-load_settings_example =
    update_settings-load_settings seven corrupt (codes "transfer_parallelism") (codes "profiles")

number_settings_round_trip_example :
    ((is_within 1 10 (set_transfer_parallelism (int (pos 40)) absent).0 ≡ true)
      × (get_transfer_parallelism (pos 3) (set_transfer_parallelism (int (pos 40)) absent).1
          ≡ (set_transfer_parallelism (int (pos 40)) absent).0))
    × ((is_within 0 3600 (set_live_tracking_warning_interval_seconds (int (pos 40)) absent).0
          ≡ true)
        × (get_live_tracking_warning_interval_seconds
              (pos 3)
              (set_live_tracking_warning_interval_seconds (int (pos 40)) absent).1
            ≡ (set_live_tracking_warning_interval_seconds (int (pos 40)) absent).0))
    × ((int_lt (pos 0) (set_jobs_outputs_refresh_interval_seconds (int (pos 40)) absent).0 ≡ true)
        × (get_jobs_outputs_refresh_interval_seconds
              (pos 3)
              (set_jobs_outputs_refresh_interval_seconds (int (pos 40)) absent).1
            ≡ (set_jobs_outputs_refresh_interval_seconds (int (pos 40)) absent).0))
number_settings_round_trip_example = number_settings_round_trip (int (pos 40)) (pos 3) absent

migrate_profile-get_example :
    ((migrate_profile (pos 7) plain).1 ≡ not (is_settled (pos 7) plain))
    × (get (codes "name") (migrate_profile (pos 7) plain).0 ≡ (
        if text_eq (codes "name") (codes "transfer_parallelism") && not (is_settled (pos 7) plain)
        then some (int (pos 7))
        else get (codes "name") plain))
    × (is_settled (pos 7) (migrate_profile (pos 7) plain).0 ≡ true)
migrate_profile-get_example = migrate_profile-get (pos 7) refl plain (codes "name")

abbrev ids : ℕ → Text
ids n = codes "id"

load_profiles-twice_example :
    load_profiles true ids (load_profiles true ids (saved legacy_config)).1
    ≡ load_profiles true ids (saved legacy_config)
load_profiles-twice_example = load_profiles-twice true ids ids (saved legacy_config) (λ k. refl)

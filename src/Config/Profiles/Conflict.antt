-- ===== src/Config/Profiles/Conflict.antt =====
-- src/hpc_gui/config/storage.py: the action for a transfer whose target exists, kept in a profile.
use Prim.Native.String.{String}
use hpc_client_gui.Base.{
  ℕ, List, [], ◌∷◌, Bool, not, ◌||◌, is_empty, if◌then◌else◌, Option, none, some,
}
use hpc_client_gui.Base.Text.{Text, codes, strip, one_of}
use hpc_client_gui.Base.Json.{Json, text, Members, get, get_or, put, pop, has_value}
use hpc_client_gui.Config.{str_of}
use hpc_client_gui.Config.File.{ConfigFile}
use hpc_client_gui.Config.Profiles.{upsert_profile}
use hpc_client_gui.Config.Profiles.Load.{load_profiles, named}

-- `_CONFLICT_ACTIONS`
abbrev pub conflict_actions : List String
conflict_actions = "overwrite" ∷ "overwrite_if_newer" ∷ "resume" ∷ "skip" ∷ "rename" ∷ "cancel" ∷ []

abbrev pub action_value : Option Members → Json
action_value none = text []
action_value (some p) = get_or (text []) (get (codes "conflict_action") p)

module _ (repr : Json → Text) (renames : Bool) (fresh : ℕ → Text) where
  abbrev pub action_in : Option Members → Option Text
  action_in profile =
      let action = strip (str_of repr (action_value profile)) in
      if one_of action conflict_actions then some action else none

  -- `get_profile_conflict_action` of a name that is a string; outside, `none` where it raises.
  unfoldable pub get_profile_conflict_action : Text → ConfigFile → Option (Option Text)
  get_profile_conflict_action profile_name file =
      let name = strip profile_name in
      if is_empty name then some none else (elim (named name (load_profiles renames fresh file).0) [
        | none ↦ none
        | some profile ↦ some (action_in profile)
      ])

  -- `set_profile_conflict_action`: what it returns and the file after it; `late` is what `uuid4`
  -- gives after the profiles are loaded.
  unfoldable pub set_profile_conflict_action :
      Text → Text → Text → ConfigFile → Option (Text × ConfigFile)
  set_profile_conflict_action late profile_name action file =
      let name = strip profile_name in
      let value = strip action in
      let loaded = load_profiles renames fresh file in
      if is_empty name || not (one_of value conflict_actions)
      then some ([], file)
      else (elim (named name loaded.0) [
        | none ↦ none
        | some none ↦ some ([], loaded.1)
        | some (some profile) ↦
            elim (upsert_profile repr late (put (codes "conflict_action") (text value) profile)
              loaded.1) [ none ↦ none | some after ↦ some (value, after) ]
      ])

  -- `clear_profile_conflict_action`
  unfoldable pub clear_profile_conflict_action : Text → Text → ConfigFile → Option ConfigFile
  clear_profile_conflict_action late profile_name file =
      let name = strip profile_name in
      let loaded = load_profiles renames fresh file in
      if is_empty name then some file else (elim (named name loaded.0) [
        | none ↦ none
        | some none ↦ some loaded.1
        | some (some profile) ↦
            if has_value (get (codes "conflict_action") profile)
            then upsert_profile repr late (pop (codes "conflict_action") profile) loaded.1
            else some loaded.1
      ])

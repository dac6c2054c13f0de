-- ===== src/Config/Profiles.antt =====
-- src/hpc_gui/config/storage.py: the saved profiles. `none` is a raised exception: of a name that is
-- no string or blank, or of a profile in the list that is no dictionary. `uuid4` is a parameter.
pub mod Patches
pub mod Load
pub mod Delete
pub mod Conflict
pub mod View
mod Tests
use hpc_client_gui.Base.{
  ℕ, zero, suc, List, [], ◌∷◌, Bool, true, false, not, ◌&&◌, ◌||◌, is_empty, if◌then◌else◌, Option,
  none, some,
}
use hpc_client_gui.Base.Text.{Text, codes, strip}
use hpc_client_gui.Base.Json.{
  Json, text, array, object, Elements, nothing, element, Members, empty, get, get_or, get_or_null,
  put, is_text, is_true, as_array, as_object, as_text,
}
use hpc_client_gui.Config.{str_of, str_or_empty}
use hpc_client_gui.Config.File.{ConfigFile, config_of, save_config}

-- The profiles of a configuration; anything but a list counts as none.
abbrev pub profiles_in : Members → Elements
profiles_in cfg = elim (as_array (get_or (array nothing) (get (codes "profiles") cfg))) [
  | none ↦ nothing
  | some profs ↦ profs
]

-- `p.get(key) == value`
abbrev pub field_is : Text → Text → Members → Bool
field_is key value profile = is_text value (get_or_null (get key profile))

-- `next((i for i, p in enumerate(profs) if …), None)`
unfoldable pub find_index : (Members → Bool) → Elements → Option (Option ℕ)
find_index wanted nothing = some none
find_index wanted (element value rest) =
    let later = find_index wanted rest in
    elim (as_object value) [
      | none ↦ none
      | some p ↦ if wanted p then some (some 0) else (elim later [
        | none ↦ none
        | some none ↦ some none
        | some (some i) ↦ some (some (suc i))
      ])
    ]

-- `profs[i]`, a dictionary where the search found it.
unfoldable pub item_at : ℕ → Elements → Option Members
item_at i nothing = none
item_at zero (element value rest) = as_object value
item_at (suc i) (element value rest) = item_at i rest

-- `profs[i] = profile`
unfoldable pub replace_at : ℕ → Json → Elements → Elements
replace_at i new nothing = nothing
replace_at zero new (element value rest) = element new rest
replace_at (suc i) new (element value rest) = element value (replace_at i new rest)

-- `profs.append(profile)`
unfoldable pub append_item : Json → Elements → Elements
append_item new nothing = element new nothing
append_item new (element value rest) = element value (append_item new rest)

-- Profiles as the list of the configuration.
unfoldable pub as_elements : List Members → Elements
as_elements [] = nothing
as_elements (p ∷ ps) = element (object p) (as_elements ps)

-- `(value or "").strip()`; `none` for a value with no such method.
abbrev pub stripped_name : Json → Option Text
stripped_name value =
    if is_true value
    then (elim (as_text value) [ none ↦ none | some t ↦ some (strip t) ])
    else some []

-- The index that the profile goes to: that of its id, else that of its name.
abbrev pub index_for : Text → Text → Elements → Option (Option ℕ)
index_for profile_id name profs =
    let by_name = find_index (field_is (codes "name") name) profs in
    if is_empty profile_id
    then by_name
    else (elim (find_index (field_is (codes "id") profile_id) profs) [
      | none ↦ none
      | some none ↦ by_name
      | some (some i) ↦ some (some i)
    ])

abbrev pub put_at : Option ℕ → Json → Elements → Elements
put_at none new profs = append_item new profs
put_at (some i) new profs = replace_at i new profs

abbrev pub id_value : Option Members → Json
id_value none = text []
id_value (some p) = get_or_null (get (codes "id") p)

module _ (repr : Json → Text) where
  -- The id that the profile is stored under.
  abbrev pub id_for : Text → Text → Option ℕ → Elements → Text
  id_for profile_id fresh none profs = if is_empty profile_id then fresh else profile_id
  id_for profile_id fresh (some i) profs =
      let stored = id_value (item_at i profs) in
      if not (is_empty profile_id)
      then profile_id
      else if is_true stored
      then str_of repr stored
      else fresh

  abbrev pub given_id : Members → Text
  given_id profile = strip (str_or_empty repr (get_or_null (get (codes "id") profile)))

  -- The configuration after a profile has been put at an index.
  abbrev pub stored_config : Text → Text → Option ℕ → Members → Members → Members
  stored_config name fresh index profile cfg =
      let profs = profiles_in cfg in
      let profile_id = id_for (given_id profile) fresh index profs in
      let cfg =
        put (codes "profiles")
          (array (put_at index (object (put (codes "id") (text profile_id) profile)) profs)) cfg in
      put (codes "last_profile_id") (text profile_id) (put (codes "last_profile") (text name) cfg)

  -- `upsert_profile`, with what `uuid4` gives.
  unfoldable pub upsert_profile : Text → Members → ConfigFile → Option ConfigFile
  upsert_profile fresh profile file =
      elim (stripped_name (get_or_null (get (codes "name") profile))) [
        | none ↦ none
        | some name ↦
            if is_empty name
            then none
            else (elim (index_for (given_id profile) name (profiles_in (config_of file))) [
              | none ↦ none
              | some index ↦
                  some (save_config (stored_config name fresh index profile (config_of file)) file)
            ])
      ]

-- `get_last_profile_name`
unfoldable pub get_last_profile_name : ConfigFile → Option Text
get_last_profile_name file =
    elim (as_text (get_or_null (get (codes "last_profile") (config_of file)))) [
      | none ↦ none
      | some v ↦ if is_empty (strip v) then none else some v
    ]

-- ===== src/Config/Profiles/Delete.antt =====
-- src/hpc_gui/config/storage.py: `delete_profile`. `equal` is Python's `==` of two values.
use hpc_client_gui.Base.{
  List, [], ◌∷◌, ◌++◌, Bool, false, not, ◌&&◌, ◌||◌, is_empty, if◌then◌else◌, Option, none, some,
}
use hpc_client_gui.Base.Text.{Text, codes, strip}
use hpc_client_gui.Base.Json.{
  Json, array, Elements, nothing, element, Members, get, get_or_null, put, pop, is_text, is_true,
  as_object,
}
use hpc_client_gui.Config.{str_of, str_or_empty}
use hpc_client_gui.Config.File.{ConfigFile, config_of, save_config}
use hpc_client_gui.Config.Profiles.{profiles_in, field_is, as_elements}

-- The profiles of a list, as dictionaries; `none` where one is none.
unfoldable pub dictionaries : Elements → Option (List Members)
dictionaries nothing = some []
dictionaries (element value rest) =
    let others = dictionaries rest in
    elim (as_object value) [
      | none ↦ none
      | some p ↦ elim others [ none ↦ none | some ps ↦ some (p ∷ ps) ]
    ]

unfoldable pub keep : (Members → Bool) → List Members → List Members
keep wanted [] = []
keep wanted (p ∷ ps) = let rest = keep wanted ps in if wanted p then p ∷ rest else rest

-- What else is deleted with a profile: a secret of the keychain, the remote directories visited.
pub data Removal : Type 0 where
  keychain_secret : Text → Removal
  profile_navigation : Text → Removal

-- The last profile is forgotten where it is the one deleted.
abbrev pub without_last : Text → Members → Members
without_last name cfg =
    if is_text name (get_or_null (get (codes "last_profile") cfg))
    then pop (codes "last_profile_id") (pop (codes "last_profile") cfg)
    else cfg

module _ (repr : Json → Text) (equal : Json → Json → Bool) where
  abbrev pub reference_of : Members → Json
  reference_of p = get_or_null (get (codes "password_keychain_ref") p)

  unfoldable pub still_used : Json → List Members → Bool
  still_used reference [] = false
  still_used reference (p ∷ ps) =
      (is_true reference && equal (reference_of p) reference) || still_used reference ps

  abbrev pub secret_of : List Members → Members → List Removal
  secret_of kept p =
      let reference = reference_of p in
      if is_true reference && not (still_used reference kept)
      then keychain_secret (str_of repr reference) ∷ []
      else []

  abbrev pub navigation_of : Members → List Removal
  navigation_of p =
      let profile_id = str_or_empty repr (get_or_null (get (codes "id") p)) in
      if is_empty profile_id then [] else profile_navigation profile_id ∷ []

  -- The loop over the profiles removed.
  unfoldable pub removals : List Members → List Members → List Removal
  removals kept [] = []
  removals kept (p ∷ ps) = secret_of kept p ++ navigation_of p ++ removals kept ps

  -- `delete_profile`: the file after it and what is deleted besides, in order.
  unfoldable pub delete_profile : Text → ConfigFile → Option (ConfigFile × List Removal)
  delete_profile given file =
      let name = strip given in
      let cfg = config_of file in
      elim (dictionaries (profiles_in cfg)) [
        | none ↦ none
        | some profs ↦
            let kept = keep (λ p. not (field_is (codes "name") name p)) profs in
            let removed = keep (field_is (codes "name") name) profs in
            some (
              save_config
                  (without_last name (put (codes "profiles") (array (as_elements kept)) cfg)) file,
              removals kept removed,
            )
      ]

-- ===== src/Config/Profiles/Tests.antt =====
-- Storing and deleting profiles at concrete values.
use hpc_client_gui.Base.{any, ◌≡◌, refl, List, [], ◌∷◌, Bool, false, none, some}
use hpc_client_gui.Base.Text.{Text, codes, text_eq, strip}
use hpc_client_gui.Base.Json.{
  Json, text, array, object, nothing, element, Members, empty, member, get, get_or_null, is_text,
  is_true,
}
use hpc_client_gui.Config.File.{saved, config_of, load_config}
use hpc_client_gui.Config.Profiles.{
  profiles_in, as_elements, given_id, upsert_profile, stripped_name,
}
use hpc_client_gui.Config.Profiles.Delete.{Removal, delete_profile}
use hpc_client_gui.Config.Profiles.View.{lookup, IsStore}
use hpc_client_gui.Config.Profiles.View.Upsert.{owner, new_id, with_id}
use hpc_client_gui.Config.Profiles.View.Refinement.{map_after, Shows}
use hpc_client_gui.Config.Profiles.View.Stored.{upsert_profile-refines}
use hpc_client_gui.Config.Profiles.View.Deleted.{unless_named, delete_profile-Shows}
use hpc_client_gui.Config.Profiles.View.Removed.{
  deletes_secret, deletes_navigation, loses_secret, loses_navigation,
}

abbrev no_text : Json → Text
no_text value = codes "x"

abbrev never : Json → Json → Bool
never a b = false

abbrev profile : Text → Text → Members
profile i name = member (codes "id") (text i) (member (codes "name") (text name) empty)

abbrev two : List Members
two = profile (codes "1") (codes "alpha") ∷ profile (codes "2") (codes "beta") ∷ []

abbrev config : Members
config =
    member (codes "profiles")
      (array (
        element (object (profile (codes "1") (codes "alpha")))
          (element (object (profile (codes "2") (codes "beta"))) nothing)))
      empty

two-IsStore : IsStore two
unfolding get text_eq lookup
two-IsStore = ((refl, refl), refl, ((refl, refl), refl, tt))

two_listed : profiles_in (config_of (saved config)) ≡ as_elements two
unfolding config_of load_config get text_eq as_elements
two_listed = refl

-- A profile that is renamed and given by its id.
abbrev renamed : Members
renamed = profile (codes "2") (codes "gamma")

renamed_name : stripped_name (get_or_null (get (codes "name") renamed)) ≡ some (codes "gamma")
unfolding get text_eq strip is_true
renamed_name = refl

new_unused : lookup (codes "9") two ≡ none
unfolding lookup text_eq get
new_unused = refl

upsert_profile-refines_example :
    let i =
      new_id
        (given_id no_text renamed)
        (codes "9")
        (owner (given_id no_text renamed) (codes "gamma") two) in
    (cfg : Members) × (upsert_profile no_text (codes "9") renamed (saved config) ≡ some (saved cfg))
    × Shows cfg (codes "1") (
        map_after i
          (with_id i renamed)
          (owner (given_id no_text renamed) (codes "gamma") two)
          two
          (codes "1"))
    × (get (codes "last_profile") cfg ≡ some (text (codes "gamma")))
    × (get (codes "last_profile_id") cfg ≡ some (text i))
upsert_profile-refines_example =
    upsert_profile-refines no_text (codes "9") (codes "gamma") renamed (saved config) two
      (codes "1") renamed_name refl two_listed two-IsStore refl new_unused

delete_profile-Shows_example :
    (cfg : Members) × (removed : List Removal) × (delete_profile no_text never
        (codes "alpha")
        (saved config)
      ≡ some (saved cfg, removed))
    × Shows cfg (codes "1") (unless_named (strip (codes "alpha")) (lookup (codes "1") two))
    × (is_text (strip (codes "alpha")) (get_or_null (get (codes "last_profile") cfg)) ≡ false)
    × (deletes_secret (codes "s") removed
        ≡ any (loses_secret no_text never (strip (codes "alpha")) two (codes "s")) two)
    × (deletes_navigation (codes "1") removed
        ≡ any (loses_navigation no_text never (strip (codes "alpha")) (codes "1")) two)
delete_profile-Shows_example =
    delete_profile-Shows no_text never (codes "alpha") (codes "1") (codes "s") (codes "1")
      (saved config) two two_listed two-IsStore

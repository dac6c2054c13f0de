-- ===== src/Config/Profiles/View/Deleted.antt =====
-- What `delete_profile` leaves of the map from ids to profiles.
use hpc_client_gui.Base.{
  any, ◌≡◌, refl, ap, ◌∙◌, List, [], ◌∷◌, Bool, false, if◌then◌else◌, Option, none, some, arith,
  inl, inr, Bool-cases,
}
use hpc_client_gui.Base.Text.{Text, codes, text_eq, text_eq_iff, strip}
use hpc_client_gui.Base.Json.{
  Json, array, nothing, Members, get, get_or, get_or_null, put, pop, as_array, is_text,
}
use hpc_client_gui.Base.Json.Laws.{get-pop, get-put_same}
use hpc_client_gui.Config.File.{ConfigFile, saved, config_of, save_config}
use hpc_client_gui.Config.Profiles.{profiles_in, field_is, as_elements}
use hpc_client_gui.Config.Profiles.Delete.{
  dictionaries, Removal, keep, removals, without_last, delete_profile,
}
use hpc_client_gui.Config.Profiles.View.{first, lookup, id_of, IsStore}
use hpc_client_gui.Config.Profiles.View.Refinement.{Shows}
use hpc_client_gui.Config.Profiles.View.Removed.{
  is_other, deletes_secret, deletes_navigation, loses_secret, loses_navigation,
  deletes_secret-removals, deletes_navigation-removals,
}

dictionaries-as_elements : (ps : List Members) → dictionaries (as_elements ps) ≡ some ps
unfolding dictionaries as_elements
dictionaries-as_elements [] = refl
dictionaries-as_elements (p ∷ ps) = ground (arith, dictionaries-as_elements ps)

abbrev pub unless_named : Text → Option Members → Option Members
unless_named name none = none
unless_named name (some p) = if field_is (codes "name") name p then none else some p

lookup-keep :
    (name j : Text) (ps : List Members)
    → IsStore ps
    → lookup j (keep (is_other name) ps) ≡ unless_named name (lookup j ps)
unfolding lookup keep
lookup-keep name j [] h = refl
lookup-keep name j (p ∷ ps) (has, fresh, h) =
    ground (arith, fresh, lookup-keep name j ps h, text_eq_iff (id_of p) j)

IsStore-keep : (name : Text) (ps : List Members) → IsStore ps → IsStore (keep (is_other name) ps)
unfolding keep
IsStore-keep name [] h = tt
IsStore-keep name (p ∷ ps) (has, fresh, h) = elim (Bool-cases (field_is (codes "name") name p)) [
  | inl gone ↦ ground (arith, gone, IsStore-keep name ps h)
  | inr stays ↦
      ground
        (arith, stays, has.0, has.1, fresh, lookup-keep name (id_of p) ps h, IsStore-keep name ps h)
]

first-keep :
    (name : Text) (ps : List Members)
    → first (field_is (codes "name") name) (keep (is_other name) ps) ≡ none
unfolding first keep
first-keep name [] = refl
first-keep name (p ∷ ps) = ground (arith, first-keep name ps)

module _ (name : Text) (listed : Members) where
  profiles_in-without_last : profiles_in (without_last name listed) ≡ profiles_in listed
  unfolding text_eq
  profiles_in-without_last = ground (
    arith,
    ap (λ o. elim (as_array (get_or (array nothing) o)) [ none ↦ nothing | some l ↦ l ])
        (get-pop (codes "profiles") (codes "last_profile_id") (pop (codes "last_profile") listed)
          ∙ get-pop (codes "profiles") (codes "last_profile") listed),
  )

  last_profile-without_last :
      is_text name (get_or_null (get (codes "last_profile") (without_last name listed))) ≡ false
  unfolding text_eq
  last_profile-without_last = ground (
    arith,
    ap (λ o. is_text name (get_or_null o))
        (get-pop (codes "last_profile") (codes "last_profile_id")
            (pop (codes "last_profile") listed)
          ∙ get-pop (codes "last_profile") (codes "last_profile") listed),
  )

-- Where every profile has an id of its own, `delete_profile` saves a list in which every profile
-- still has one and from which exactly the profiles of the name are gone; the name is not the last
-- one used. A secret is deleted with them exactly if one of them refers to it and no profile of
-- another name has an equal reference, and visited directories exactly if they are those of the id
-- of one of them.
pub delete_profile-Shows :
    (repr : Json → Text) (equal : Json → Json → Bool) (given j secret i : Text) (file : ConfigFile)
    (ps : List Members)
    → profiles_in (config_of file) ≡ as_elements ps
    → IsStore ps
    → (cfg : Members) × (removed : List Removal) × (delete_profile repr equal given file
        ≡ some (saved cfg, removed))
      × Shows cfg j (unless_named (strip given) (lookup j ps))
      × (is_text (strip given) (get_or_null (get (codes "last_profile") cfg)) ≡ false)
      × (deletes_secret secret removed ≡ any (loses_secret repr equal (strip given) ps secret) ps)
      × (deletes_navigation i removed ≡ any (loses_navigation repr equal (strip given) i) ps)
unfolding delete_profile save_config
delete_profile-Shows repr equal given j secret i file ps listed store =
    let name = strip given in
    let kept = keep (is_other name) ps in
    let after = put (codes "profiles") (array (as_elements kept)) (config_of file) in
    (
      without_last name after,
      removals repr equal kept (keep (field_is (codes "name") name) ps),
      ground (arith, ap dictionaries listed, dictionaries-as_elements ps),
      (
        kept,
        profiles_in-without_last name after
            ∙ ap (λ o. elim (as_array (get_or (array nothing) o)) [ none ↦ nothing | some l ↦ l ])
                (get-put_same (codes "profiles") (array (as_elements kept)) (config_of file)),
        IsStore-keep name ps store,
        lookup-keep name j ps store,
      ),
      last_profile-without_last name after,
      deletes_secret-removals repr equal name ps secret ps,
      deletes_navigation-removals repr equal name ps i ps,
    )

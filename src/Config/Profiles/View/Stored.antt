-- ===== src/Config/Profiles/View/Stored.antt =====
-- What `upsert_profile` leaves in the file.
use hpc_client_gui.Base.{
  ℕ, ◌≡◌, ap, sym, subst, ◌∙◌, List, true, false, not, is_empty, if◌then◌else◌, Option, none, some,
  arith, inl, inr,
}
use hpc_client_gui.Base.Text.{Text, codes, text_eq}
use hpc_client_gui.Base.Json.{
  Json, text, array, object, Elements, nothing, Members, get, get_or, get_or_null, put, as_array,
  is_true,
}
use hpc_client_gui.Base.Json.Laws.{get-put, get-put_same}
use hpc_client_gui.Config.{str_of}
use hpc_client_gui.Config.File.{ConfigFile, saved, config_of, save_config}
use hpc_client_gui.Config.Profiles.{
  profiles_in, item_at, as_elements, stripped_name, index_for, put_at, id_for, id_value, given_id,
  stored_config, upsert_profile,
}
use hpc_client_gui.Config.Profiles.View.{lookup, id_of, IsStore}
use hpc_client_gui.Config.Profiles.View.Upsert.{
  owner, new_id, index_for-owner, HasId-item_at, with_id,
}
use hpc_client_gui.Config.Profiles.View.Refinement.{map_after, Shows, added, exchanged}

truthy_text : (t : Text) → is_empty t ≡ false → is_true (text t) ≡ true
unfolding is_true
truthy_text t h = ap not h

module _ (repr : Json → Text) (name fresh : Text) (index : Option ℕ) (profile cfg : Members) where
  abbrev pub stored_id : Elements → Text
  stored_id profs = id_for repr (given_id repr profile) fresh index profs

  profiles_in-stored_config :
      profiles_in (stored_config repr name fresh index profile cfg)
      ≡ put_at index (object (with_id (stored_id (profiles_in cfg)) profile)) (profiles_in cfg)
  unfolding text_eq
  profiles_in-stored_config =
      let i = stored_id (profiles_in cfg) in
      let profs = array (put_at index (object (with_id i profile)) (profiles_in cfg)) in
      let listed = put (codes "profiles") profs cfg in
      ap (λ o. elim (as_array (get_or (array nothing) o)) [ none ↦ nothing | some l ↦ l ])
        (get-put (codes "profiles") (codes "last_profile_id") (text i)
            (put (codes "last_profile") (text name) listed)
          ∙ get-put (codes "profiles") (codes "last_profile") (text name) listed
          ∙ get-put_same (codes "profiles") profs cfg)

  last_profile-stored_config :
      (get (codes "last_profile") (stored_config repr name fresh index profile cfg)
        ≡ some (text name))
      × (get (codes "last_profile_id") (stored_config repr name fresh index profile cfg)
          ≡ some (text (stored_id (profiles_in cfg))))
  unfolding text_eq
  last_profile-stored_config =
      let i = stored_id (profiles_in cfg) in
      let listed =
        put (codes "profiles") (array (put_at index (object (with_id i profile)) (profiles_in cfg)))
          cfg in
      (
        get-put (codes "last_profile") (codes "last_profile_id") (text i)
              (put (codes "last_profile") (text name) listed)
            ∙ get-put_same (codes "last_profile") (text name) listed,
        get-put_same (codes "last_profile_id") (text i)
            (put (codes "last_profile") (text name) listed),
      )

upsert_profile-saved :
    (repr : Json → Text) (fresh name : Text) (index : Option ℕ) (profile : Members)
    (file : ConfigFile)
    → stripped_name (get_or_null (get (codes "name") profile)) ≡ some name
    → is_empty name ≡ false
    → index_for (given_id repr profile) name (profiles_in (config_of file)) ≡ some index
    → upsert_profile repr fresh profile file
      ≡ some (saved (stored_config repr name fresh index profile (config_of file)))
unfolding upsert_profile save_config
upsert_profile-saved repr fresh name index profile file named there found =
    ground (arith, named, there, found)

module _ (repr : Json → Text) (fresh name : Text) (profile : Members) (file : ConfigFile)
    (ps : List Members) where
  abbrev given : Text
  given = given_id repr profile

  id_for-new_id :
      (k : ℕ) (p : Members)
      → IsStore ps
      → item_at k (as_elements ps) ≡ some p
      → id_for repr given fresh (some k) (as_elements ps) ≡ new_id given fresh (some p)
  id_for-new_id k p store at =
      let has = HasId-item_at k ps p store at in
      let value = ap id_value at ∙ ap get_or_null has.0 in
      ap (λ v. if not (is_empty given) then given else if is_true v then str_of repr v else fresh)
        value
      ∙ ground (arith, truthy_text (id_of p) has.1)

  -- What is to be shown of a place in which the profile is put.
  abbrev Refines : Text → Option Members → Type 0
  Refines j place =
      (cfg : Members) × (upsert_profile repr fresh profile file ≡ some (saved cfg))
      × Shows cfg j (
          map_after (new_id given fresh place) (with_id (new_id given fresh place) profile) place ps
            j)
      × (get (codes "last_profile") cfg ≡ some (text name))
      × (get (codes "last_profile_id") cfg ≡ some (text (new_id given fresh place)))

  finish :
      (j : Text) (index : Option ℕ) (place : Option Members)
      → stripped_name (get_or_null (get (codes "name") profile)) ≡ some name
      → is_empty name ≡ false
      → profiles_in (config_of file) ≡ as_elements ps
      → index_for given name (as_elements ps) ≡ some index
      → id_for repr given fresh index (as_elements ps) ≡ new_id given fresh place
      → (after : List Members) × (put_at index
            (object (with_id (new_id given fresh place) profile))
            (as_elements ps)
          ≡ as_elements after)
        × IsStore after
        × (lookup j after
            ≡ map_after
                (new_id given fresh place)
                (with_id (new_id given fresh place) profile)
                place
                ps
                j)
      → Refines j place
  finish j index place named there listed found same (after, put_there, store, shown) =
      let cfg = config_of file in
      let last = last_profile-stored_config repr name fresh index profile cfg in
      (
        stored_config repr name fresh index profile cfg,
        upsert_profile-saved repr fresh name index profile file named there
            (ap (index_for given name) listed ∙ found),
        (
          after,
          profiles_in-stored_config repr name fresh index profile cfg
              ∙ ap
                  (λ profs.
                    put_at index (object (with_id (id_for repr given fresh index profs) profile))
                      profs)
                  listed
              ∙ ap (λ i. put_at index (object (with_id i profile)) (as_elements ps)) same
              ∙ put_there,
          store,
          shown,
        ),
        last.0,
        last.1
            ∙ ap (λ profs. some (text (id_for repr given fresh index profs))) listed
            ∙ ap (λ i. some (text i)) same,
      )

  -- The saved profiles are a map from ids: where every profile has an id of its own, the name of
  -- the profile is not blank and `uuid4` gives an unused id, `upsert_profile` saves a list in which
  -- every profile still has an id of its own. In it the profile stands under the id it gives, else
  -- under the id of the first profile of its name, else under the new id; the profile whose place
  -- it takes, that of its id or else the first of its name, is gone, and every other id has the
  -- profile it had. Its name and its id are remembered as the last ones used.
  pub upsert_profile-refines :
      (j : Text)
      → stripped_name (get_or_null (get (codes "name") profile)) ≡ some name
      → is_empty name ≡ false
      → profiles_in (config_of file) ≡ as_elements ps
      → IsStore ps
      → is_empty fresh ≡ false
      → lookup fresh ps ≡ none
      → Refines j (owner given name ps)
  upsert_profile-refines j named there listed store fresh_there fresh_free =
      elim (index_for-owner given name ps store) [
        | inl (found, alone) ↦ subst (Refines j) (sym alone) (
            finish j none none named there listed found (ground arith)
              (added fresh given name profile ps store fresh_there fresh_free j alone))
        | inr (k, p, found, at, placed) ↦ subst (Refines j) (sym placed) (
            finish j (some k) (some p) named there listed found (id_for-new_id k p store at)
              (exchanged fresh given name profile ps store fresh_there fresh_free j k p at placed))
      ]

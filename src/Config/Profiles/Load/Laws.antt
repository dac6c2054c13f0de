-- ===== src/Config/Profiles/Load/Laws.antt =====
-- Loading the profiles repairs the file once.
use hpc_client_gui.Base.{
  ℕ, suc, ◌≡◌, refl, ap, sym, ◌∙◌, [], Bool, true, false, not, is_empty, if◌then◌else◌, Option,
  none, some, arith, inl, inr, Bool-cases, Option-cases,
}
use hpc_client_gui.Base.Text.{Text, codes, text_eq}
use hpc_client_gui.Base.Int.{ℤ, is_within}
use hpc_client_gui.Base.Json.{
  Json, text, array, Elements, nothing, element, Members, get, get_or, get_or_null, put, is_true,
  as_array, as_object,
}
use hpc_client_gui.Base.Json.Laws.{get-put_same}
use hpc_client_gui.Config.File.{ConfigFile, absent, corrupt, saved, load_config, save_config}
use hpc_client_gui.Config.Migration.{
  legacy_value, migrate_profile, migrate_profiles, migrate_legacy_transfer_parallelism,
}
use hpc_client_gui.Config.Migration.Laws.{
  legacy_value-within, migrate_profile-get, migrate-array, migrate-other,
  migrate_legacy_transfer_parallelism-twice,
}
use hpc_client_gui.Config.Profiles.{profiles_in}
use hpc_client_gui.Config.Profiles.Load.{lacks_id, stamp_ids, any_lacks_id, load_profiles}

stamp_ids-lacks :
    (fresh : ℕ → Text) (n : ℕ) (profs : Elements)
    → ((k : ℕ) → is_empty (fresh k) ≡ false)
    → any_lacks_id (stamp_ids fresh n profs) ≡ false
unfolding stamp_ids any_lacks_id is_true
stamp_ids-lacks fresh n nothing h = refl
stamp_ids-lacks fresh n (element value rest) h = elim (Option-cases (as_object value)) [
  | inl other ↦ ground (arith, other, stamp_ids-lacks fresh n rest h)
  | inr (p, dict) ↦ ground (
    arith,
    dict,
    h n,
    stamp_ids-lacks fresh n rest h,
    stamp_ids-lacks fresh (suc n) rest h,
    get-put_same (codes "id") (text (fresh n)) p,
  )
]

lacks_id-migrate_profile :
    (legacy : ℤ) (p : Members)
    → is_within 1 10 legacy ≡ true
    → lacks_id (migrate_profile legacy p).0 ≡ lacks_id p
unfolding text_eq
lacks_id-migrate_profile legacy p h =
    ap (λ o. not (is_true (get_or_null o))) (migrate_profile-get legacy h p (codes "id")).1

any_lacks_id-migrate_profiles :
    (legacy : ℤ) (profs : Elements)
    → is_within 1 10 legacy ≡ true
    → any_lacks_id (migrate_profiles legacy profs).0 ≡ any_lacks_id profs
unfolding migrate_profiles any_lacks_id
any_lacks_id-migrate_profiles legacy nothing h = refl
any_lacks_id-migrate_profiles legacy (element value rest) h =
    elim (Option-cases (as_object value)) [
      | inl other ↦ ground (arith, other, any_lacks_id-migrate_profiles legacy rest h)
      | inr (p, dict) ↦ ground (
        arith,
        dict,
        lacks_id-migrate_profile legacy p h,
        any_lacks_id-migrate_profiles legacy rest h,
      )
    ]

as_array-get_or :
    (o : Option Json) (profs : Elements)
    → as_array (get_or_null o) ≡ some profs
    → as_array (get_or (array nothing) o) ≡ some profs
as_array-get_or none profs h = ground (arith, h)
as_array-get_or (some v) profs h = h

any_lacks_id-migrate :
    (cfg : Members)
    → any_lacks_id (profiles_in (migrate_legacy_transfer_parallelism cfg).0)
      ≡ any_lacks_id (profiles_in cfg)
any_lacks_id-migrate cfg =
    elim (Option-cases (as_array (get_or_null (get (codes "profiles") cfg)))) [
      | inl other ↦ ap (λ m. any_lacks_id (profiles_in m.0)) (migrate-other cfg other)
      | inr (profs, there) ↦
          let legacy = legacy_value cfg in
          ap (λ m. any_lacks_id (profiles_in m.0)) (migrate-array cfg profs there)
          ∙ ap
              (λ o.
                any_lacks_id
                  (elim (as_array (get_or (array nothing) o)) [ none ↦ nothing | some l ↦ l ]))
              (get-put_same (codes "profiles") (array (migrate_profiles legacy profs).0) cfg)
          ∙ any_lacks_id-migrate_profiles legacy profs (legacy_value-within cfg)
          ∙ sym (
              ap (λ o. any_lacks_id (elim o [ none ↦ nothing | some l ↦ l ]))
                (as_array-get_or (get (codes "profiles") cfg) profs there))
    ]

-- A configuration that needs no repair is loaded as it is.
load_profiles_sound :
    (renames : Bool) (fresh : ℕ → Text) (cfg : Members)
    → any_lacks_id (profiles_in cfg) ≡ false
    → migrate_legacy_transfer_parallelism cfg ≡ (cfg, false)
    → load_profiles renames fresh (saved cfg) ≡ (profiles_in cfg, saved cfg)
unfolding load_profiles load_config
load_profiles_sound renames fresh cfg h done = ground (arith, h, done)

load_config-twice :
    (renames : Bool) (file : ConfigFile)
    → load_config renames (load_config renames file).1 ≡ load_config renames file
unfolding load_config
load_config-twice renames absent = refl
load_config-twice true corrupt = refl
load_config-twice false corrupt = refl
load_config-twice renames (saved cfg) = refl

-- The configuration after ids are given and the old setting is copied.
abbrev repaired : (ℕ → Text) → Members → Members
repaired fresh cfg =
    let profs = profiles_in cfg in
    let stamped =
      if any_lacks_id profs
      then put (codes "profiles") (array (stamp_ids fresh 0 profs)) cfg
      else cfg in
    (migrate_legacy_transfer_parallelism stamped).0

any_lacks_id-repaired :
    (fresh : ℕ → Text) (cfg : Members)
    → ((k : ℕ) → is_empty (fresh k) ≡ false)
    → any_lacks_id (profiles_in (repaired fresh cfg)) ≡ false
any_lacks_id-repaired fresh cfg h = elim (Bool-cases (any_lacks_id (profiles_in cfg))) [
  | inl lacking ↦
      let stamped = stamp_ids fresh 0 (profiles_in cfg) in
      ap
        (λ b. any_lacks_id (
          profiles_in
            (migrate_legacy_transfer_parallelism
              (if b then put (codes "profiles") (array stamped) cfg else cfg)).0))
        lacking
      ∙ any_lacks_id-migrate (put (codes "profiles") (array stamped) cfg)
      ∙ ap
          (λ o.
            any_lacks_id
              (elim (as_array (get_or (array nothing) o)) [ none ↦ nothing | some l ↦ l ]))
          (get-put_same (codes "profiles") (array stamped) cfg)
      ∙ stamp_ids-lacks fresh 0 (profiles_in cfg) h
  | inr whole ↦
      ap
        (λ b. any_lacks_id (
          profiles_in
            (migrate_legacy_transfer_parallelism (
              if b
              then put (codes "profiles") (array (stamp_ids fresh 0 (profiles_in cfg))) cfg
              else cfg)).0))
        whole
      ∙ any_lacks_id-migrate cfg
      ∙ whole
]

migrate-repaired :
    (fresh : ℕ → Text) (cfg : Members)
    → migrate_legacy_transfer_parallelism (repaired fresh cfg) ≡ (repaired fresh cfg, false)
migrate-repaired fresh cfg =
    (migrate_legacy_transfer_parallelism-twice
      (if any_lacks_id (profiles_in cfg)
        then put (codes "profiles") (array (stamp_ids fresh 0 (profiles_in cfg))) cfg
        else cfg)
      [] (unfold text_eq in refl)).0

module _ (renames : Bool) (fresh later : ℕ → Text) (file : ConfigFile)
    (h : (k : ℕ) → is_empty (fresh k) ≡ false) where
  abbrev loaded : Members × ConfigFile
  loaded = load_config renames file

  -- Loading the profiles a second time gives the same profiles and leaves the file as it is,
  -- whatever `uuid4` gives then, where it never gives an empty id the first time.
  pub load_profiles-twice :
      load_profiles renames later (load_profiles renames fresh file).1
      ≡ load_profiles renames fresh file
  unfolding load_profiles save_config
  load_profiles-twice = ground (
    arith,
    load_config-twice renames file,
    load_profiles_sound renames later (repaired fresh loaded.0)
        (any_lacks_id-repaired fresh loaded.0 h) (migrate-repaired fresh loaded.0),
  )

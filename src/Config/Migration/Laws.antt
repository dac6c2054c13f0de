-- ===== src/Config/Migration/Laws.antt =====
-- What the migration makes of the profiles.
use hpc_client_gui.Base.{
  ◌≡◌, refl, ap, sym, ◌∙◌, [], Bool, true, false, not, ◌&&◌, ◌||◌, if◌then◌else◌, none, some, arith,
  Option-cases, inl, inr,
}
use hpc_client_gui.Base.Text.{Text, codes, text_eq}
use hpc_client_gui.Base.Int.{ℤ, pos, negsuc, int_eq, is_within}
use hpc_client_gui.Base.Json.{
  Json, null, bool, int, real, text, array, object, Elements, nothing, element, Members, get,
  get_or_null, put, as_array, as_object,
}
use hpc_client_gui.Base.Json.Laws.{get-put, get-put_same, put-put}
use hpc_client_gui.Config.Settings.{coerce_int_in_range}
use hpc_client_gui.Config.Settings.Laws.{coerce_int_in_range-within, coerce_int_in_range-kept}
use hpc_client_gui.Config.Migration.{
  as_int, equals_int, is_valid_parallelism, legacy_raw, legacy_value, migrate_profile, migrate_item,
  migrate_profiles, migrate_legacy_transfer_parallelism,
}

abbrev pub parallelism_of : Members → Json
parallelism_of profile = get_or_null (get (codes "transfer_parallelism") profile)

pub legacy_value-within : (cfg : Members) → is_within 1 10 (legacy_value cfg) ≡ true
unfolding legacy_value
legacy_value-within cfg = elim (Option-cases (as_int (legacy_raw cfg))) [
  | inl bad ↦ ground (arith, bad)
  | inr (z, good) ↦
      ground (arith, good, coerce_int_in_range-within (int z) (pos 1) 1 10 refl (ground arith))
]

int_eq_refl : (z : ℤ) → int_eq z z ≡ true
int_eq_refl (pos n) = ground arith
int_eq_refl (negsuc n) = ground arith

abbrev pub is_settled : ℤ → Members → Bool
is_settled legacy profile =
    is_valid_parallelism (parallelism_of profile) || equals_int legacy (parallelism_of profile)

module _ (legacy : ℤ) (within : is_within 1 10 legacy ≡ true) where
  -- For a legacy value of 1 to 10: the migration changes a profile where its own value is neither
  -- valid nor equal to the legacy value, and then it writes the legacy value; every other key has
  -- the value it had. Afterwards the profile's value is valid or equal to the legacy value.
  pub migrate_profile-get :
      (profile : Members) (key : Text)
      → ((migrate_profile legacy profile).1 ≡ not (is_settled legacy profile))
        × (get key (migrate_profile legacy profile).0 ≡ (
            if text_eq key (codes "transfer_parallelism") && not (is_settled legacy profile)
            then some (int legacy)
            else get key profile))
        × (is_settled legacy (migrate_profile legacy profile).0 ≡ true)
  unfolding migrate_profile is_valid_parallelism
  migrate_profile-get profile key = ground (
    arith,
    within,
    coerce_int_in_range-kept legacy (pos 1) 1 10 within,
    get-put key (codes "transfer_parallelism") (int legacy) profile,
    get-put_same (codes "transfer_parallelism") (int legacy) profile,
  )

  migrate_profile-settled :
      (profile : Members)
      → is_settled legacy profile ≡ true
      → migrate_profile legacy profile ≡ (profile, false)
  unfolding migrate_profile
  migrate_profile-settled profile h =
      ground (arith, h, coerce_int_in_range-kept legacy (pos 1) 1 10 within)

  migrate_item-twice :
      (value : Json)
      → migrate_item legacy (migrate_item legacy value).0 ≡ ((migrate_item legacy value).0, false)
  migrate_item-twice null = refl
  migrate_item-twice (bool b) = refl
  migrate_item-twice (int z) = refl
  migrate_item-twice (real r) = refl
  migrate_item-twice (text t) = refl
  migrate_item-twice (array vs) = refl
  migrate_item-twice (object profile) =
      let migrated = (migrate_profile legacy profile).0 in
      ap (λ m. (object m.0, m.1))
        (migrate_profile-settled migrated (migrate_profile-get profile []).2)

  migrate_profiles-twice :
      (profiles : Elements)
      → migrate_profiles legacy (migrate_profiles legacy profiles).0
        ≡ ((migrate_profiles legacy profiles).0, false)
  unfolding migrate_profiles
  migrate_profiles-twice nothing = refl
  migrate_profiles-twice (element value rest) =
      ap
        (λ m. (
          element m.0 (migrate_profiles legacy (migrate_profiles legacy rest).0).0,
          m.1 || (migrate_profiles legacy (migrate_profiles legacy rest).0).1,
        ))
        (migrate_item-twice value)
      ∙ ap (λ m. (element (migrate_item legacy value).0 m.0, m.1)) (migrate_profiles-twice rest)

module _ (cfg : Members) where
  legacy_value-put :
      (profiles : Json) → legacy_value (put (codes "profiles") profiles cfg) ≡ legacy_value cfg
  unfolding legacy_value text_eq
  legacy_value-put profiles =
      ap
        (λ o.
          elim (as_int (elim (as_object (get_or_null o)) [
            | none ↦ null
            | some settings ↦ get_or_null (get (codes "transfer_parallelism") settings)
          ])) [ none ↦ pos 1 | some z ↦ coerce_int_in_range (int z) (pos 1) (pos 1) (pos 10) ])
        (get-put (codes "settings") (codes "profiles") profiles cfg)

  pub migrate-array :
      (profiles : Elements)
      → as_array (get_or_null (get (codes "profiles") cfg)) ≡ some profiles
      → migrate_legacy_transfer_parallelism cfg ≡ (
        put (codes "profiles") (array (migrate_profiles (legacy_value cfg) profiles).0) cfg,
        (migrate_profiles (legacy_value cfg) profiles).1,
      )
  unfolding migrate_legacy_transfer_parallelism
  migrate-array profiles h = ground (arith, h)

  pub migrate-other :
      as_array (get_or_null (get (codes "profiles") cfg)) ≡ none
      → migrate_legacy_transfer_parallelism cfg ≡ (cfg, false)
  unfolding migrate_legacy_transfer_parallelism
  migrate-other h = ground (arith, h)

migrated-twice :
    (cfg : Members) (profiles : Elements)
    → let after =
        put (codes "profiles") (array (migrate_profiles (legacy_value cfg) profiles).0) cfg in
      migrate_legacy_transfer_parallelism after ≡ (after, false)
migrated-twice cfg profiles =
    let legacy = legacy_value cfg in
    let migrated = (migrate_profiles legacy profiles).0 in
    let after = put (codes "profiles") (array migrated) cfg in
    migrate-array after migrated
      (ap (λ o. as_array (get_or_null o)) (get-put_same (codes "profiles") (array migrated) cfg))
    ∙ ap
        (λ z. (
          put (codes "profiles") (array (migrate_profiles z migrated).0) after,
          (migrate_profiles z migrated).1,
        ))
        (legacy_value-put cfg (array migrated))
    ∙ ap (λ m. (put (codes "profiles") (array m.0) after, m.1))
        (migrate_profiles-twice legacy (legacy_value-within cfg) profiles)
    ∙ ap (λ d. (d, false)) (put-put (codes "profiles") (array migrated) cfg)

-- Migrating a second time changes nothing and returns that nothing is changed. Every part of the
-- configuration but the profiles is as it was.
pub migrate_legacy_transfer_parallelism-twice :
    (cfg : Members) (part : Text)
    → text_eq part (codes "profiles") ≡ false
    → let after = (migrate_legacy_transfer_parallelism cfg).0 in
      (migrate_legacy_transfer_parallelism after ≡ (after, false)) × (get part after ≡ get part cfg)
migrate_legacy_transfer_parallelism-twice cfg part h =
    elim (Option-cases (as_array (get_or_null (get (codes "profiles") cfg)))) [
      | inl other ↦ (
        ap (λ m. migrate_legacy_transfer_parallelism m.0) (migrate-other cfg other)
            ∙ migrate-other cfg other
            ∙ ap (λ m. (m.0, false)) (sym (migrate-other cfg other)),
        ap (λ m. get part m.0) (migrate-other cfg other),
      )
      | inr (profiles, there) ↦ (
        ap (λ m. migrate_legacy_transfer_parallelism m.0) (migrate-array cfg profiles there)
            ∙ migrated-twice cfg profiles
            ∙ ap (λ m. (m.0, false)) (sym (migrate-array cfg profiles there)),
        ground (
          arith,
          h,
          ap (λ m. get part m.0) (migrate-array cfg profiles there),
          get-put part (codes "profiles") (array (migrate_profiles (legacy_value cfg) profiles).0)
              cfg,
        ),
      )
    ]

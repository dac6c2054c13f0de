-- ===== src/Config/Migration.antt =====
-- src/hpc_gui/config/storage.py: `migrate_legacy_transfer_parallelism`.
pub mod Laws
use hpc_client_gui.Base.{
  ℕ, List, [], ◌∷◌, Bool, true, false, not, ◌&&◌, ◌||◌, if◌then◌else◌, Option, none, some,
}
use hpc_client_gui.Base.Text.{Text, codes}
use hpc_client_gui.Base.Int.{ℤ, pos, int_eq, is_within}
use hpc_client_gui.Base.Json.{
  Json, null, bool, int, real, text, array, object, Real, finite, special, Elements, nothing,
  element, Members, get, get_or_null, put, as_array, as_object,
}
use hpc_client_gui.Config.Settings.{coerce_int_in_range, coerce_profile_transfer_parallelism}

-- `isinstance(value, int) and not isinstance(value, bool)` and the value.
abbrev pub as_int : Json → Option ℤ
as_int null = none
as_int (bool b) = none
as_int (int z) = some z
as_int (real r) = none
as_int (text t) = none
as_int (array vs) = none
as_int (object d) = none

-- `value == z`: a Boolean is one or zero.
abbrev pub equals_int : ℤ → Json → Bool
equals_int z null = false
equals_int z (bool b) = int_eq (pos (if b then 1 else 0)) z
equals_int z (int y) = int_eq y z
equals_int z (real (finite y more)) = not more && int_eq y z
equals_int z (real special) = false
equals_int z (text t) = false
equals_int z (array vs) = false
equals_int z (object d) = false

-- `_is_valid_parallelism`
unfoldable pub is_valid_parallelism : Json → Bool
is_valid_parallelism value = elim (as_int value) [ none ↦ false | some z ↦ is_within 1 10 z ]

abbrev pub legacy_raw : Members → Json
legacy_raw cfg = elim (as_object (get_or_null (get (codes "settings") cfg))) [
  | none ↦ null
  | some settings ↦ get_or_null (get (codes "transfer_parallelism") settings)
]

-- The value that the profiles without one of their own are given.
unfoldable pub legacy_value : Members → ℤ
legacy_value cfg = elim (as_int (legacy_raw cfg)) [
  | none ↦ pos 1
  | some z ↦ coerce_int_in_range (int z) (pos 1) (pos 1) (pos 10)
]

-- The body of the loop: the profile and whether it is changed.
unfoldable pub migrate_profile : ℤ → Members → Members × Bool
migrate_profile legacy profile =
    let current = get_or_null (get (codes "transfer_parallelism") profile) in
    let target = coerce_profile_transfer_parallelism (int legacy) (pos 1) in
    if is_valid_parallelism current
    then (profile, false)
    else if equals_int target current
    then (profile, false)
    else (put (codes "transfer_parallelism") (int target) profile, true)

abbrev pub migrate_item : ℤ → Json → Json × Bool
migrate_item legacy value = elim (as_object value) [
  | none ↦ (value, false)
  | some profile ↦ let migrated = migrate_profile legacy profile in (object migrated.0, migrated.1)
]

unfoldable pub migrate_profiles : ℤ → Elements → Elements × Bool
migrate_profiles legacy nothing = (nothing, false)
migrate_profiles legacy (element value rest) =
    let migrated = migrate_item legacy value in
    let others = migrate_profiles legacy rest in
    (element migrated.0 others.0, migrated.1 || others.1)

-- `migrate_legacy_transfer_parallelism`: the configuration after it and what it returns.
unfoldable pub migrate_legacy_transfer_parallelism : Members → Members × Bool
migrate_legacy_transfer_parallelism cfg =
    elim (as_array (get_or_null (get (codes "profiles") cfg))) [
      | none ↦ (cfg, false)
      | some profiles ↦
          let migrated = migrate_profiles (legacy_value cfg) profiles in
          (put (codes "profiles") (array migrated.0) cfg, migrated.1)
    ]

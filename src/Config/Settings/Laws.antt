-- ===== src/Config/Settings/Laws.antt =====
-- What the getters give after the setters, and the ranges of what they give.
use hpc_client_gui.Base.{
  ℕ, ◌≤◌, ◌≡◌, refl, ap, ◌∙◌, [], ◌∷◌, Bool, true, if◌then◌else◌, some, arith, Option-cases, inl,
  inr,
}
use hpc_client_gui.Base.Text.{Text, codes, text_eq, text_eq_refl}
use hpc_client_gui.Base.Int.{ℤ, pos, negsuc, int_lt, is_within}
use hpc_client_gui.Base.Json.{Json, bool, int, text, get, get_or, to_int, is_true}
use hpc_client_gui.Config.{str_or_empty}
use hpc_client_gui.Config.File.{ConfigFile, load_settings}
use hpc_client_gui.Config.File.Laws.{get-set_one}
use hpc_client_gui.Config.Settings.{
  coerce_positive_int, coerce_int_in_range, setting, set_one, bool_or, bool_setting,
  set_bool_setting,
}
use hpc_client_gui.Config.Settings.Options.{
  get_jobs_outputs_refresh_interval_seconds, set_jobs_outputs_refresh_interval_seconds,
  get_live_tracking_warning_interval_seconds, set_live_tracking_warning_interval_seconds,
  get_transfer_parallelism, set_transfer_parallelism,
}

pub str_or_empty-text : (repr : Json → Text) (t : Text) → str_or_empty repr (text t) ≡ t
unfolding is_true
str_or_empty-text repr [] = refl
str_or_empty-text repr (c ∷ t) = refl

pub setting-set_one :
    (key : Text) (value default : Json) (file : ConfigFile)
    → setting key default (set_one key value file) ≡ value
setting-set_one key value default file = ap (get_or default) (
    get-set_one key key value file
    ∙ ap (λ b. if b then some value else get key (load_settings file)) (text_eq_refl key))

pub coerce_int_in_range-within :
    (value : Json) (default : ℤ) (minimum maximum : ℕ)
    → is_within minimum maximum default ≡ true
    → minimum ≤ maximum
    → is_within minimum maximum (coerce_int_in_range value default (pos minimum) (pos maximum))
      ≡ true
unfolding coerce_int_in_range
coerce_int_in_range-within value default minimum maximum h le = elim (Option-cases (to_int value)) [
  | inl bad ↦ ground (arith, bad, h)
  | inr (pos n, good) ↦ ground (arith, good, le)
  | inr (negsuc n, good) ↦ ground (arith, good, le)
]

pub coerce_int_in_range-kept :
    (z default : ℤ) (minimum maximum : ℕ)
    → is_within minimum maximum z ≡ true
    → coerce_int_in_range (int z) default (pos minimum) (pos maximum) ≡ z
unfolding coerce_int_in_range to_int
coerce_int_in_range-kept (pos n) default minimum maximum h = ground (arith, h)
coerce_int_in_range-kept (negsuc n) default minimum maximum h = ground (arith, h)

coerce_positive_int-positive :
    (value : Json) → int_lt (pos 0) (coerce_positive_int value (pos 15)) ≡ true
unfolding coerce_positive_int
coerce_positive_int-positive value = elim (Option-cases (to_int value)) [
  | inl bad ↦ ground (arith, bad)
  | inr (pos n, good) ↦ ground (arith, good)
  | inr (negsuc n, good) ↦ ground (arith, good)
]

coerce_positive_int-kept :
    (z default : ℤ) → int_lt (pos 0) z ≡ true → coerce_positive_int (int z) default ≡ z
unfolding coerce_positive_int to_int
coerce_positive_int-kept z default h = ground (arith, h)

module _ (value : Json) (default : ℤ) (file : ConfigFile) where
  ranged :
      (key : Text) (fallback minimum maximum : ℕ)
      → is_within minimum maximum (pos fallback) ≡ true
      → minimum ≤ maximum
      → (is_within minimum maximum
            (coerce_int_in_range value (pos fallback) (pos minimum) (pos maximum))
          ≡ true)
        × (coerce_int_in_range
              (setting key (int default) (
                set_one key
                  (int (coerce_int_in_range value (pos fallback) (pos minimum) (pos maximum)))
                  file))
              default
              (pos minimum)
              (pos maximum)
            ≡ coerce_int_in_range value (pos fallback) (pos minimum) (pos maximum))
  ranged key fallback minimum maximum h le =
      let z = coerce_int_in_range value (pos fallback) (pos minimum) (pos maximum) in
      let within = coerce_int_in_range-within value (pos fallback) minimum maximum h le in
      (
        within,
        ap (λ v. coerce_int_in_range v default (pos minimum) (pos maximum))
              (setting-set_one key (int z) (int default) file)
            ∙ coerce_int_in_range-kept z default minimum maximum within,
      )

  -- Whatever value they are given, the setters of the three settings that are numbers store a
  -- number in range, from 1 to 10 for the transfer parallelism, up to 3600 for the interval of the
  -- warning and above 0 for that of the refresh, and the getter gives it back, whatever its
  -- default.
  pub number_settings_round_trip :
      ((is_within 1 10 (set_transfer_parallelism value file).0 ≡ true)
        × (get_transfer_parallelism default (set_transfer_parallelism value file).1
            ≡ (set_transfer_parallelism value file).0))
      × ((is_within 0 3600 (set_live_tracking_warning_interval_seconds value file).0 ≡ true)
          × (get_live_tracking_warning_interval_seconds default
                (set_live_tracking_warning_interval_seconds value file).1
              ≡ (set_live_tracking_warning_interval_seconds value file).0))
      × ((int_lt (pos 0) (set_jobs_outputs_refresh_interval_seconds value file).0 ≡ true)
          × (get_jobs_outputs_refresh_interval_seconds default
                (set_jobs_outputs_refresh_interval_seconds value file).1
              ≡ (set_jobs_outputs_refresh_interval_seconds value file).0))
  unfolding set_transfer_parallelism get_transfer_parallelism
      set_live_tracking_warning_interval_seconds get_live_tracking_warning_interval_seconds
      set_jobs_outputs_refresh_interval_seconds get_jobs_outputs_refresh_interval_seconds
  number_settings_round_trip =
      let key = codes "jobs_outputs_refresh_interval_seconds" in
      let interval = coerce_positive_int value (pos 15) in
      let positive = coerce_positive_int-positive value in
      (
        ranged (codes "transfer_parallelism") 1 1 10 refl (ground arith),
        ranged (codes "live_tracking_warning_interval_seconds") 60 0 3600 refl (ground arith),
        (
          positive,
          ap (λ v. coerce_positive_int v default)
                (setting-set_one key (int interval) (int default) file)
              ∙ coerce_positive_int-kept interval default positive,
        ),
      )

-- A Boolean that is stored is the one read, whatever the default, and no other setting is
-- changed.
pub set_bool_setting-bool_setting :
    (key other : Text) (enabled : Json) (default : Bool) (file : ConfigFile)
    → (bool_setting key default (set_bool_setting key enabled file).1 ≡ is_true enabled)
      × (get other (load_settings (set_bool_setting key enabled file).1) ≡ (
          if text_eq other key
          then some (bool (is_true enabled))
          else get other (load_settings file)))
unfolding set_bool_setting bool_setting
set_bool_setting-bool_setting key other enabled default file = (
  ap (bool_or default) (setting-set_one key (bool (is_true enabled)) (bool default) file),
  get-set_one other key (bool (is_true enabled)) file,
)

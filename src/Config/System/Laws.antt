-- ===== src/Config/System/Laws.antt =====
-- The settings of a Slurm system (config/system_profile.py), looked up by key.
use hpc_client_gui.Base.{
  ◌≡◌, refl, ap, ◌∙◌, false, Option, none, some, arith, Option-cases, inl, inr,
}
use hpc_client_gui.Base.Text.{Text, codes, text_eq, text_eq_iff}
use hpc_client_gui.Base.Json.{
  Json, object, Members, empty, member, get, get_or_null, as_object, as_text,
}
use hpc_client_gui.Base.Json.Laws.{get-put}
use hpc_client_gui.Config.System.{
  generic_slurm_defaults, candidate_or, fill, with_template, normalize_system_settings,
}

abbrev filled : Members → Text → Option Json → Option Json
filled value key none = none
filled value key (some default) =
    some (candidate_or (as_text (get_or_null (get key value))) default)

get-fill :
    (key : Text) (value defaults : Members)
    → get key (fill value defaults) ≡ filled value key (get key defaults)
unfolding fill get
get-fill key value empty = refl
get-fill key value (member k v defaults) =
    ground (arith, get-fill key value defaults, text_eq_iff key k)

-- A setting of a system that is normalised from a dictionary, for any key but that of the template
-- of the provider, is the candidate given for it where that is a string and not blank, stripped,
-- and else the default of its key; a key that has no default is not there.
pub normalize_system_settings-get :
    (d : Members) (key : Text)
    → text_eq key (codes "provider_template") ≡ false
    → get key (normalize_system_settings (object d)) ≡ filled d key (get key generic_slurm_defaults)
unfolding normalize_system_settings
normalize_system_settings-get d key other =
    elim (Option-cases (as_object (get_or_null (get (codes "provider_template") d)))) [
      | inl absent ↦
          ap (λ o. get key (with_template o (fill d generic_slurm_defaults))) absent
          ∙ get-fill key d generic_slurm_defaults
      | inr (t, there) ↦
          ap (λ o. get key (with_template o (fill d generic_slurm_defaults))) there
          ∙ get-put key (codes "provider_template") (object t) (fill d generic_slurm_defaults)
          ∙ ground (arith, other, get-fill key d generic_slurm_defaults)
    ]

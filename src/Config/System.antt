-- ===== src/Config/System.antt =====
-- src/hpc_gui/config/system_profile.py: the settings of a Slurm system and the templates that the
-- user saves. `casefold` is `str.casefold`, of all of Unicode, as a parameter.
pub mod Laws
pub mod Names
use hpc_client_gui.Base.{
  ℕ, zero, suc, List, [], ◌∷◌, ◌++◌, map, Bool, true, false, not, ◌&&◌, is_empty, if◌then◌else◌,
  Option, none, some,
}
use hpc_client_gui.Base.Text.{Text, codes, text_eq, strip}
use hpc_client_gui.Base.Json.{
  Json, text, array, object, Elements, nothing, element, Members, empty, member, get, get_or,
  get_or_null, put, as_array, as_object, as_text,
}
use hpc_client_gui.Config.{str_of, str_or_empty}
use hpc_client_gui.Config.File.{ConfigFile}
use hpc_client_gui.Config.Profiles.{as_elements}
use hpc_client_gui.Config.Settings.{setting, set_one}

-- `GENERIC_SLURM_DEFAULTS`
abbrev pub generic_slurm_defaults : Members
generic_slurm_defaults = member (codes "name") (text (codes "Generic Slurm")) (
    member (codes "scratch_dir") (text []) (
      member (codes "home_dir") (text []) (
        member (codes "squeue_command")
          (text (codes "squeue -h -u {user} -o \"%i|%P|%j|%u|%T|%M|%D|%C|%R\""))
          (member (codes "sbatch_command")
            (text (codes "cd -- {script_dir_q} && sbatch -- {script_name_q}"))
            (member (codes "scancel_command") (text (codes "scancel {job_id_q}")) (
              member (codes "sacct_command")
                (text
                  (codes "sacct -u {user} --format=JobID,JobName,State,Elapsed,MaxRSS,AllocTRES"))
                (member (codes "scontrol_command") (text (codes "scontrol show job {job_id_q}")) (
                  member (codes "status_command") (text []) (
                    member (codes "active_job_ids_command")
                      (text (codes "squeue -h -u {user} -o \"%A\""))
                      (member (codes "job_state_command")
                        (text (codes "sacct -n -X -j {job_id_q} -o State -P")) empty))))))))))

-- A candidate that is a string and not blank is taken over, stripped.
abbrev pub candidate_or : Option Text → Json → Json
candidate_or none default = default
candidate_or (some t) default = if is_empty (strip t) then default else text (strip t)

-- The loop over the keys of the defaults.
unfoldable pub fill : Members → Members → Members
fill value empty = empty
fill value (member key default defaults) =
    member key (candidate_or (as_text (get_or_null (get key value))) default) (fill value defaults)

abbrev pub with_template : Option Members → Members → Members
with_template none settings = settings
with_template (some template) settings = put (codes "provider_template") (object template) settings

-- `normalize_system_settings`
unfoldable pub normalize_system_settings : Json → Members
normalize_system_settings value = elim (as_object value) [
  | none ↦ generic_slurm_defaults
  | some d ↦
      with_template (as_object (get_or_null (get (codes "provider_template") d)))
        (fill d generic_slurm_defaults)
]

-- `existing.get("name", "")` of a template that was loaded.
abbrev pub name_of : Members → Text
name_of template = elim (as_text (get_or (text []) (get (codes "name") template))) [
  | none ↦ []
  | some t ↦ t
]

module _ (repr : Json → Text) where
  -- The loop of `load_user_system_templates`.
  unfoldable pub templates_in : Elements → List Members
  templates_in nothing = []
  templates_in (element value rest) =
      let others = templates_in rest in
      elim (as_object value) [
        | none ↦ others
        | some item ↦
            let name = strip (str_of repr (get_or (text []) (get (codes "name") item))) in
            if is_empty name
            then others
            else put (codes "name") (text name) (normalize_system_settings (object item)) ∷ others
      ]

  -- `load_user_system_templates`
  unfoldable pub load_user_system_templates : ConfigFile → List Members
  load_user_system_templates file =
      elim (as_array (setting (codes "system_templates") (array nothing) file)) [
        | none ↦ []
        | some stored ↦ templates_in stored
      ]

  -- The template takes the place of the first of its name, or stands at the end.
  unfoldable pub placed : (Text → Text) → Members → List Members → List Members
  placed casefold template [] = template ∷ []
  placed casefold template (existing ∷ templates) =
      let rest = placed casefold template templates in
      if text_eq (casefold (name_of existing)) (casefold (name_of template))
      then template ∷ templates
      else existing ∷ rest

  -- `save_user_system_template`; `none` is the ValueError.
  unfoldable pub save_user_system_template :
      (Text → Text) → Json → Json → ConfigFile → Option (Members × ConfigFile)
  save_user_system_template casefold name settings file =
      let clean = strip (str_or_empty repr name) in
      let template = put (codes "name") (text clean) (normalize_system_settings settings) in
      if is_empty clean
      then none
      else some (
        template,
        set_one (codes "system_templates")
            (array (as_elements (placed casefold template (load_user_system_templates file)))) file,
      )

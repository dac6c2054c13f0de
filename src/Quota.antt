-- ===== src/Quota.antt =====
-- src/hpc_gui/services/quota_monitor.py: the gate before a quota is asked for, and the monitor that
-- asks. `repr` is what `str` makes of a value that is no string, and what the regular expression
-- of the placeholders finds is a parameter. The pool's threads are the environment: it says when
-- a job ends, with what, and whether a job that is cancelled had started.
pub mod Monitor
pub mod Life
mod Tests
use Prim.Native.String.{String}
use hpc_client_gui.Base.{
  ℕ, List, [], ◌∷◌, Bool, true, false, not, ◌&&◌, ◌||◌, any, ◌==◌, is_empty, if◌then◌else◌, Option,
  none, some,
}
use hpc_client_gui.Base.Text.{Text, codes, text_eq, strip, one_of}
use hpc_client_gui.Base.Json.{
  Json, Elements, nothing, element, Members, get, get_or_null, as_bool, as_object, as_array,
}
use hpc_client_gui.Config.{str_of, str_or_empty}

-- What the gate says.
pub data Gate : Type 0 where
  not_configured disabled invalid_configuration unsupported ready_not_enabled eligible : Gate

-- `KNOWN_QUOTA_SCOPES`
abbrev pub quota_scopes : List String
quota_scopes = "user" ∷ "group" ∷ "project" ∷ "unknown" ∷ []

-- `value is True`
abbrev pub is_the_true : Json → Bool
is_the_true value = elim (as_bool value) [ none ↦ false | some b ↦ b ]

module _ (repr : Json → Text) where
  -- `str(source.get(key) or "").strip()`
  abbrev pub field : Text → Members → Text
  field key source = strip (str_or_empty repr (get_or_null (get key source)))

  abbrev pub has_line_end : Text → Bool
  has_line_end t = any (λ c. c == 10 || c == 13) t

  -- The gate behind the test that the source is a dictionary; `consented` is the argument.
  unfoldable pub gate_of : Members → List Text → Option Bool → Bool → Bool → Gate
  gate_of source backend_ids consented connected subject_available =
      let scope = field (codes "scope") source in
      let backend_id = field (codes "backend_id") source in
      if is_empty (field (codes "command_template") source)
      then not_configured
      else if not (is_the_true (get_or_null (get (codes "enabled") source)))
      then disabled
      else if not (is_empty scope) && not (one_of scope quota_scopes)
      then invalid_configuration
      else if is_empty backend_id
          || not (any (text_eq backend_id) backend_ids)
          || not subject_available
      then unsupported
      else if has_line_end (str_of repr (get_or_null (get (codes "command_template") source)))
      then invalid_configuration
      else if not (elim consented [
        | none ↦ is_the_true (get_or_null (get (codes "consent") source))
        | some b ↦ b
      ])
      then ready_not_enabled
      else if connected
      then eligible
      else ready_not_enabled

  -- `quota_gate`, of a source that is a dictionary or not.
  unfoldable pub quota_gate : Option Members → List Text → Option Bool → Bool → Bool → Gate
  quota_gate none backend_ids consented connected subject_available = not_configured
  quota_gate (some source) backend_ids consented connected subject_available =
      gate_of source backend_ids consented connected subject_available

  abbrev pub first_source : Option Elements → Option Members
  first_source none = none
  first_source (some nothing) = none
  first_source (some (element value rest)) = as_object value

  abbrev pub sources_of : Option Members → Option Elements
  sources_of none = none
  sources_of (some template) = as_array (get_or_null (get (codes "quota_sources") template))

  abbrev pub template_of : Option Members → Option Members
  template_of none = none
  template_of (some profile) = as_object (get_or_null (get (codes "provider_template") profile))

  -- `quota_state_for_profile`
  unfoldable pub quota_state_for_profile : Option Members → List Text → Bool → Gate
  quota_state_for_profile profile backend_ids connected =
      quota_gate (first_source (sources_of (template_of profile))) backend_ids none connected true

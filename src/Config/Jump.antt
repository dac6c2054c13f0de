-- ===== src/Config/Jump.antt =====
-- src/hpc_gui/config/jump_host_profile.py
pub mod Schema
pub mod Patch
mod Tests
use Prim.Native.String.{String}
use hpc_client_gui.Base.{
  ℕ, List, [], ◌∷◌, Bool, true, false, not, ◌&&◌, ◌||◌, if◌then◌else◌, Option, none, some,
}
use hpc_client_gui.Base.Text.{Text, codes, text_eq, strip, one_of}
use hpc_client_gui.Base.Int.{ℤ, pos, is_within}
use hpc_client_gui.Base.Json.{
  Json, null, bool, int, text, Members, empty, member, get, put, merge, get_or_null, to_int,
  as_object, as_bool, as_text,
}
use hpc_client_gui.Config.{str_or_empty}

-- `JUMP_HOST_DEFAULTS`
abbrev pub jump_host_defaults : Members
jump_host_defaults = member (codes "enabled") (bool false) (
    member (codes "host") (text []) (
      member (codes "port") (int (pos 22)) (
        member (codes "username") (text []) (
          member (codes "key_path") (text [])
            (member (codes "host_key_policy") (text (codes "accept-new")) empty)))))

abbrev pub jump_policies : List String
jump_policies = "accept-new" ∷ "strict" ∷ []

-- `_coerce_port`
unfoldable pub coerce_port : Json → ℤ
coerce_port value = elim (to_int value) [
  | none ↦ pos 22
  | some port ↦ if is_within 1 65535 port then port else pos 22
]

-- A key whose value is taken over where it is a Boolean.
abbrev pub put_bool : Text → Members → Members → Members
put_bool key value settings = elim (as_bool (get_or_null (get key value))) [
  | none ↦ settings
  | some b ↦ put key (bool b) settings
]

-- A key whose value is taken over, stripped, where it is a string.
abbrev pub put_text : Text → Members → Members → Members
put_text key value settings = elim (as_text (get_or_null (get key value))) [
  | none ↦ settings
  | some t ↦ put key (text (strip t)) settings
]

abbrev pub object_or_empty : Option Members → Members
object_or_empty none = empty
object_or_empty (some d) = d

module _ (repr : Json → Text) where
  -- The value of the policy.
  unfoldable pub policy_of : Members → Text
  policy_of value =
      let policy = strip (str_or_empty repr (get_or_null (get (codes "host_key_policy") value))) in
      if one_of policy jump_policies then policy else codes "accept-new"

  unfoldable pub normalize_dict : Members → Members
  normalize_dict value =
      let settings = put_bool (codes "enabled") value jump_host_defaults in
      let settings = put_text (codes "host") value settings in
      let settings = put_text (codes "username") value settings in
      let settings = put_text (codes "key_path") value settings in
      let settings =
        put (codes "port") (int (coerce_port (get_or_null (get (codes "port") value)))) settings in
      put (codes "host_key_policy") (text (policy_of value)) settings

  -- `normalize_jump_host_settings`
  unfoldable pub normalize_jump_host_settings : Json → Members
  normalize_jump_host_settings value = elim (as_object value) [
    | none ↦ jump_host_defaults
    | some d ↦ normalize_dict d
  ]

  -- `patch_jump_host_settings`
  unfoldable pub patch_jump_host_settings : Json → Members → Members
  patch_jump_host_settings existing patch =
      let base = object_or_empty (as_object existing) in
      merge base (normalize_dict (merge base patch))

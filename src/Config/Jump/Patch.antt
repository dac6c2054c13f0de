-- ===== src/Config/Jump/Patch.antt =====
-- What a patch of jump-host settings changes and what it keeps.
use Prim.Native.String.{String}
use hpc_client_gui.Base.{
  ◌≡◌, refl, ap, ◌∙◌, List, [], ◌∷◌, true, false, if◌then◌else◌, none, arith, Option-cases,
  Bool-cases, inl, inr,
}
use hpc_client_gui.Base.Text.{Text, codes, text_eq, text_eq_iff, strip, one_of}
use hpc_client_gui.Base.Json.{
  Json, bool, int, text, object, Members, get, merge, get_or_null, as_object, as_bool, as_text,
}
use hpc_client_gui.Base.Json.Laws.{get-merge, get_last-get, or_else, IsDict, IsDict-put}
use hpc_client_gui.Config.Jump.{
  jump_host_defaults, put_bool, put_text, policy_of, normalize_dict, normalize_jump_host_settings,
  patch_jump_host_settings, object_or_empty,
}
use hpc_client_gui.Config.Jump.Schema.{
  IsJumpHost-normalize_dict, get-normalize_dict, get-put_text, get-put_bool, port_value,
  after_enabled, after_host,
}

abbrev pub jump_fields : List String
jump_fields = "enabled" ∷ "host" ∷ "port" ∷ "username" ∷ "key_path" ∷ "host_key_policy" ∷ []

IsDict-defaults : IsDict jump_host_defaults
unfolding get text_eq
IsDict-defaults = (refl, (refl, (refl, (refl, (refl, (refl, tt))))))

IsDict-put_bool :
    (key : Text) (value settings : Members) → IsDict settings → IsDict (put_bool key value settings)
IsDict-put_bool key value settings h = elim (Option-cases (as_bool (get_or_null (get key value)))) [
  | inl absent ↦ ground (arith, absent)
  | inr (b, there) ↦ ground (arith, there, IsDict-put key (bool b) settings h)
]

IsDict-put_text :
    (key : Text) (value settings : Members) → IsDict settings → IsDict (put_text key value settings)
IsDict-put_text key value settings h = elim (Option-cases (as_text (get_or_null (get key value)))) [
  | inl absent ↦ ground (arith, absent)
  | inr (t, there) ↦ ground (arith, there, IsDict-put key (text (strip t)) settings h)
]

module _ (repr : Json → Text) where
  IsDict-normalize_dict : (value : Members) → IsDict (normalize_dict repr value)
  unfolding normalize_dict
  IsDict-normalize_dict value =
      IsDict-put (codes "host_key_policy") (text (policy_of repr value)) _ (
        IsDict-put (codes "port") (int (port_value repr value)) _ (
          IsDict-put_text (codes "key_path") value _ (
            IsDict-put_text (codes "username") value _ (
              IsDict-put_text (codes "host") value _
                (IsDict-put_bool (codes "enabled") value _ IsDict-defaults)))))

  defaults_other : (key : Text) → one_of key jump_fields ≡ false → get key jump_host_defaults ≡ none
  unfolding one_of get
  defaults_other key h = ground arith

  get-normalize_dict_other :
      (value : Members) (key : Text)
      → one_of key jump_fields ≡ false
      → get key (normalize_dict repr value) ≡ none
  get-normalize_dict_other value key h =
      get-normalize_dict repr value key
      ∙ (unfold one_of in
          ground (
            arith,
            h,
            defaults_other key h,
            get-put_text key (codes "username") value (after_host repr value),
            get-put_text key (codes "host") value (after_enabled repr value),
            get-put_bool key (codes "enabled") value jump_host_defaults,
          ))

  -- A field of normalised settings is there.
  get-normalize_dict_field :
      (value base : Members) (key : Text)
      → one_of key jump_fields ≡ true
      → or_else (get key (normalize_dict repr value)) (get key base)
        ≡ get key (normalize_dict repr value)
  unfolding one_of
  get-normalize_dict_field value base key h =
      let n = IsJumpHost-normalize_dict repr value in
      ground (
        arith,
        h,
        n.has_enabled,
        n.has_host,
        n.has_port,
        n.has_username,
        n.has_key_path,
        n.has_policy,
        text_eq_iff key (codes "enabled"),
        text_eq_iff key (codes "host"),
        text_eq_iff key (codes "port"),
        text_eq_iff key (codes "username"),
        text_eq_iff key (codes "key_path"),
        text_eq_iff key (codes "host_key_policy"),
      )

  get-patched :
      (base value : Members) (key : Text)
      → get key (merge base (normalize_dict repr value))
        ≡ (if one_of key jump_fields then get key (normalize_dict repr value) else get key base)
  get-patched base value key =
      get-merge key base (normalize_dict repr value)
      ∙ ap (λ o. or_else o (get key base))
          (get_last-get key (normalize_dict repr value) (IsDict-normalize_dict value))
      ∙ elim (Bool-cases (one_of key jump_fields)) [
        | inl field ↦ ground (arith, field, get-normalize_dict_field value base key field)
        | inr other ↦ ground (arith, other, get-normalize_dict_other value key other)
      ]

  -- After a patch of jump-host settings, each of the six fields is the one of the normalised form
  -- of the settings with the patch laid over them (of no settings where they are no dictionary);
  -- any other key has the value it had before, whatever the patch says of it.
  pub patch_jump_host_settings-get :
      (existing : Json) (patch : Members) (key : Text)
      → get key (patch_jump_host_settings repr existing patch) ≡ (
          if one_of key jump_fields
          then get key (
              normalize_jump_host_settings repr
                (object (merge (object_or_empty (as_object existing)) patch)))
          else get key (object_or_empty (as_object existing)))
  unfolding patch_jump_host_settings normalize_jump_host_settings
  patch_jump_host_settings-get existing patch key =
      get-patched (object_or_empty (as_object existing))
        (merge (object_or_empty (as_object existing)) patch) key

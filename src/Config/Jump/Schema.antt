-- ===== src/Config/Jump/Schema.antt =====
-- What normalised jump-host settings look like, and what a patch keeps.
use hpc_client_gui.Base.{
  ℕ, ◌≤◌, ◌≡◌, refl, ap, ◌∙◌, [], Bool, true, false, if◌then◌else◌, Option, none, some, arith,
  Option-cases, inl, inr,
}
use hpc_client_gui.Base.Text.{Text, codes, text_eq, strip, one_of}
use hpc_client_gui.Base.Int.{ℤ, pos, negsuc}
use hpc_client_gui.Base.Json.{
  Json, bool, int, text, Members, empty, get, put, get_or_null, to_int, as_object, as_bool, as_text,
}
use hpc_client_gui.Base.Json.Laws.{get-put}
use hpc_client_gui.Config.Jump.{
  jump_host_defaults, jump_policies, coerce_port, put_bool, put_text, policy_of, normalize_dict,
  normalize_jump_host_settings,
}

-- The six fields, each of its type and in its range.
pub record IsJumpHost (d : Members) : Type 0 where
  pub enabled : Bool
  pub host : Text
  pub port : ℕ
  pub username : Text
  pub key_path : Text
  pub policy : Text
  pub has_enabled : get (codes "enabled") d ≡ some (bool enabled)
  pub has_host : get (codes "host") d ≡ some (text host)
  pub has_port : get (codes "port") d ≡ some (int (pos port))
  pub has_username : get (codes "username") d ≡ some (text username)
  pub has_key_path : get (codes "key_path") d ≡ some (text key_path)
  pub has_policy : get (codes "host_key_policy") d ≡ some (text policy)
  pub port_low : 1 ≤ port
  pub port_high : port ≤ 65535
  pub policy_known : one_of policy jump_policies ≡ true

abbrev port_number : ℤ → ℕ
port_number (pos n) = n
port_number (negsuc n) = 22

-- A port is between one and 65535.
coerce_port-range :
    (value : Json)
    → (coerce_port value ≡ pos (port_number (coerce_port value)))
      × (1 ≤ port_number (coerce_port value))
      × (port_number (coerce_port value) ≤ 65535)
unfolding coerce_port
coerce_port-range value = elim (Option-cases (to_int value)) [
  | inl bad ↦ ground arith
  | inr (pos n, good) ↦ ground arith
  | inr (negsuc n, good) ↦ ground arith
]

-- What `put_bool` and `put_text` make of the value of their key.
abbrev pub bool_field : Option Bool → Option Json → Option Json
bool_field none old = old
bool_field (some b) old = some (bool b)

abbrev pub text_field : Option Text → Option Json → Option Json
text_field none old = old
text_field (some t) old = some (text (strip t))

abbrev stripped : Option Text → Text
stripped none = []
stripped (some t) = strip t

abbrev or_false : Option Bool → Bool
or_false none = false
or_false (some b) = b

stripped-text_field : (o : Option Text) → text_field o (some (text [])) ≡ some (text (stripped o))
stripped-text_field none = refl
stripped-text_field (some t) = refl

or_false-bool_field :
    (o : Option Bool) → bool_field o (some (bool false)) ≡ some (bool (or_false o))
or_false-bool_field none = refl
or_false-bool_field (some b) = refl

pub get-put_bool :
    (other key : Text) (value settings : Members)
    → get other (put_bool key value settings) ≡ (
        if text_eq other key
        then bool_field (as_bool (get_or_null (get key value))) (get other settings)
        else get other settings)
get-put_bool other key value settings =
    elim (Option-cases (as_bool (get_or_null (get key value)))) [
      | inl none_there ↦ ground arith
      | inr (b, there) ↦ ground (arith, get-put other key (bool b) settings)
    ]

pub get-put_text :
    (other key : Text) (value settings : Members)
    → get other (put_text key value settings) ≡ (
        if text_eq other key
        then text_field (as_text (get_or_null (get key value))) (get other settings)
        else get other settings)
get-put_text other key value settings =
    elim (Option-cases (as_text (get_or_null (get key value)))) [
      | inl none_there ↦ ground arith
      | inr (t, there) ↦ ground (arith, get-put other key (text (strip t)) settings)
    ]

module _ (repr : Json → Text) (value : Members) where
  abbrev pub after_enabled : Members
  after_enabled = put_bool (codes "enabled") value jump_host_defaults

  abbrev pub after_host : Members
  after_host = put_text (codes "host") value after_enabled

  abbrev pub after_username : Members
  after_username = put_text (codes "username") value after_host

  abbrev pub after_key_path : Members
  after_key_path = put_text (codes "key_path") value after_username

  abbrev pub port_value : ℤ
  port_value = coerce_port (get_or_null (get (codes "port") value))

  abbrev pub after_port : Members
  after_port = put (codes "port") (int port_value) after_key_path

  pub get-normalize_dict :
      (key : Text)
      → get key (normalize_dict repr value) ≡ (
          if text_eq key (codes "host_key_policy")
          then some (text (policy_of repr value))
          else if text_eq key (codes "port")
          then some (int port_value)
          else if text_eq key (codes "key_path")
          then text_field
              (as_text (get_or_null (get (codes "key_path") value)))
              (get key after_username)
          else if text_eq key (codes "username")
          then text_field
              (as_text (get_or_null (get (codes "username") value)))
              (get key after_host)
          else if text_eq key (codes "host")
          then text_field (as_text (get_or_null (get (codes "host") value))) (get key after_enabled)
          else if text_eq key (codes "enabled")
          then bool_field
              (as_bool (get_or_null (get (codes "enabled") value)))
              (get key jump_host_defaults)
          else get key jump_host_defaults)
  unfolding normalize_dict
  get-normalize_dict key = ground (
    arith,
    get-put key (codes "host_key_policy") (text (policy_of repr value)) after_port,
    get-put key (codes "port") (int port_value) after_key_path,
    get-put_text key (codes "key_path") value after_username,
    get-put_text key (codes "username") value after_host,
    get-put_text key (codes "host") value after_enabled,
    get-put_bool key (codes "enabled") value jump_host_defaults,
  )

  accept_new-known : one_of (codes "accept-new") jump_policies ≡ true
  unfolding one_of text_eq
  accept_new-known = refl

  policy_of-known : one_of (policy_of repr value) jump_policies ≡ true
  unfolding policy_of
  policy_of-known = ground (arith, accept_new-known)

  kept_host : get (codes "host") after_enabled ≡ some (text [])
  unfolding text_eq get
  kept_host = get-put_bool (codes "host") (codes "enabled") value jump_host_defaults

  kept_username : get (codes "username") after_host ≡ some (text [])
  unfolding text_eq get
  kept_username =
      get-put_text (codes "username") (codes "host") value after_enabled
      ∙ get-put_bool (codes "username") (codes "enabled") value jump_host_defaults

  kept_key_path : get (codes "key_path") after_username ≡ some (text [])
  unfolding text_eq get
  kept_key_path =
      get-put_text (codes "key_path") (codes "username") value after_host
      ∙ get-put_text (codes "key_path") (codes "host") value after_enabled
      ∙ get-put_bool (codes "key_path") (codes "enabled") value jump_host_defaults

  abbrev text_at : Text → Option Text
  text_at key = as_text (get_or_null (get key value))

  has_text :
      (key : Text) (before : Members)
      → get key (normalize_dict repr value) ≡ text_field (text_at key) (get key before)
      → get key before ≡ some (text [])
      → get key (normalize_dict repr value) ≡ some (text (stripped (text_at key)))
  has_text key before e kept =
      e ∙ ap (text_field (text_at key)) kept ∙ stripped-text_field (text_at key)

  pub IsJumpHost-normalize_dict : IsJumpHost (normalize_dict repr value)
  unfolding text_eq
  IsJumpHost-normalize_dict =
      let range = coerce_port-range (get_or_null (get (codes "port") value)) in
      record {
        enabled = or_false (as_bool (get_or_null (get (codes "enabled") value)));
        host = stripped (text_at (codes "host"));
        port = port_number port_value;
        username = stripped (text_at (codes "username"));
        key_path = stripped (text_at (codes "key_path"));
        policy = policy_of repr value;
        has_enabled =
            get-normalize_dict (codes "enabled")
            ∙ (unfold get in
                or_false-bool_field (as_bool (get_or_null (get (codes "enabled") value))));
        has_host =
            has_text (codes "host") after_enabled (get-normalize_dict (codes "host")) kept_host;
        has_port = get-normalize_dict (codes "port") ∙ ap (λ z. some (int z)) range.0;
        has_username =
            has_text (codes "username") after_host (get-normalize_dict (codes "username"))
              kept_username;
        has_key_path =
            has_text (codes "key_path") after_username (get-normalize_dict (codes "key_path"))
              kept_key_path;
        has_policy = get-normalize_dict (codes "host_key_policy");
        port_low = range.1;
        port_high = range.2;
        policy_known = policy_of-known;
      }

module _ (repr : Json → Text) where
  defaults-IsJumpHost : IsJumpHost jump_host_defaults
  unfolding get text_eq
  defaults-IsJumpHost = record {
    enabled = false;
    host = [];
    port = 22;
    username = [];
    key_path = [];
    policy = codes "accept-new";
    has_enabled = refl;
    has_host = refl;
    has_port = refl;
    has_username = refl;
    has_key_path = refl;
    has_policy = refl;
    port_low = ground arith;
    port_high = ground arith;
    policy_known = accept_new-known repr empty;
  }

  of_object-IsJumpHost :
      (o : Option Members)
      → IsJumpHost (elim o [ none ↦ jump_host_defaults | some d ↦ normalize_dict repr d ])
  of_object-IsJumpHost none = defaults-IsJumpHost
  of_object-IsJumpHost (some d) = IsJumpHost-normalize_dict repr d

-- Whatever value is given, the normalised jump-host settings have the six fields, each of its
-- type, with a port of 1 to 65535 and one of the two policies.
pub normalize_jump_host_settings-IsJumpHost :
    (repr : Json → Text) (value : Json) → IsJumpHost (normalize_jump_host_settings repr value)
unfolding normalize_jump_host_settings
normalize_jump_host_settings-IsJumpHost repr value = of_object-IsJumpHost repr (as_object value)

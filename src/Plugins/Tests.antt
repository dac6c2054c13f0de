-- ===== src/Plugins/Tests.antt =====
-- Requirements of plugins.
use hpc_client_gui.Base.{◌≡◌, refl, [], ◌∷◌, true, false, none, some}
use hpc_client_gui.Base.Text.{codes, split}
use hpc_client_gui.Base.Digits.{digit_value, is_decimal_text, is_digit_text, int_of}
use hpc_client_gui.Plugins.Compat.{compat, validate_requires_app, prefix_parts, is_app_compatible}
use hpc_client_gui.Plugins.Version.{parse_version}
use hpc_client_gui.Plugins.Bounds.{Numbers, admitted, version_of, is_app_compatible-admitted}
use hpc_client_gui.Plugins.Wildcards.{is_app_compatible-inner_star}

parse_version_padded : parse_version (codes "1.4-rc1+x") ≡ some (some (1 ∷ 4 ∷ 0 ∷ []))
unfolding parse_version is_digit_text digit_value int_of
parse_version_padded = refl

superscript_raises : parse_version (codes "1.²") ≡ none
unfolding parse_version is_digit_text digit_value int_of
superscript_raises = refl

in_range : is_app_compatible (codes ">=1.4.0, <2.0.0") (codes "1.9.3") ≡ some true
unfolding is_app_compatible digit_value is_digit_text
in_range = refl

star : is_app_compatible (codes "==1.4.*") (codes "1.5.0") ≡ some false
unfolding is_app_compatible digit_value is_digit_text prefix_parts
star = refl

trailing_comma : is_app_compatible (codes ">=1.4.0,") (codes "1.5.0") ≡ some false
unfolding is_app_compatible digit_value is_digit_text
trailing_comma = refl

abbrev target : Numbers
target = record { major = 1; minor = 4; patch = 0 }

abbrev current : Numbers
current = record { major = 1; minor = 4; patch = 9 }

parsed_target : parse_version (codes "1.4") ≡ some (some (version_of target))
unfolding parse_version is_digit_text digit_value int_of
parsed_target = refl

parsed_current : parse_version (codes "1.4.9") ≡ some (some (version_of current))
unfolding parse_version is_digit_text digit_value int_of
parsed_current = refl

is_app_compatible-admitted_example :
    is_app_compatible (codes "~=1.4") (codes "1.4.9") ≡ some (admitted compat target current)
unfolding split is_decimal_text digit_value
is_app_compatible-admitted_example =
    is_app_compatible-admitted compat (codes "1.4") (codes "1.4.9") target current refl refl
      (λ h. refl) parsed_target parsed_current

is_app_compatible-inner_star_example :
    (validate_requires_app (codes "==1.*.3") ≡ [])
    × (is_app_compatible (codes "==1.*.3") (codes "1.4.9") ≡ none)
is_app_compatible-inner_star_example =
    is_app_compatible-inner_star (codes "1") (codes "3") (codes "1.4.9") (version_of current) refl
      refl refl refl parsed_current

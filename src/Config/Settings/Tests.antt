-- ===== src/Config/Settings/Tests.antt =====
-- Settings at concrete values.
use hpc_client_gui.Base.{
  false, ℕ, ◌≡◌, refl, ap, ◌∙◌, arith, [], ◌∷◌, true, is_empty, if◌then◌else◌,
}
use hpc_client_gui.Base.Text.{Text, codes, text_eq, strip, one_of}
use hpc_client_gui.Base.Json.{Json, null, text}
use hpc_client_gui.Config.{str_or_empty}
use hpc_client_gui.Config.File.{absent, corrupt}
use hpc_client_gui.Config.Settings.Choices.{
  completion_actions, follow_modes, transfer_types, get_transfer_completion_action,
  set_transfer_completion_action, get_sbatch_follow_mode, set_sbatch_follow_mode,
  get_ftp_transfer_type, set_ftp_transfer_type,
}
use hpc_client_gui.Config.Settings.Words.{word_settings_round_trip}
use hpc_client_gui.Config.Settings.Associations.{get_file_association, set_file_association}
use hpc_client_gui.Config.Settings.Associations.Laws.{IsLower}
use hpc_client_gui.Config.Settings.Associations.Changes.{set_file_association-get_file_association}
use hpc_client_gui.Base.Text.{starts_with, lower, lower_code, is_space, lstrip_by, rstrip_by}

abbrev no_text : Json → Text
no_text value = codes "x"

word_settings_round_trip_example :
    (one_of (get_sbatch_follow_mode no_text (codes "never") corrupt) follow_modes ≡ true)
    × ((one_of (set_sbatch_follow_mode no_text null corrupt).0 follow_modes ≡ true)
        × (get_sbatch_follow_mode no_text
              (codes "never")
              (set_sbatch_follow_mode no_text null corrupt).1
            ≡ (set_sbatch_follow_mode no_text null corrupt).0))
    × ((one_of (set_transfer_completion_action no_text null corrupt).0 completion_actions ≡ true)
        × (get_transfer_completion_action no_text
              (codes "never")
              (set_transfer_completion_action no_text null corrupt).1
            ≡ (set_transfer_completion_action no_text null corrupt).0))
    × ((one_of (set_ftp_transfer_type no_text null corrupt).0 transfer_types ≡ true)
        × (get_ftp_transfer_type no_text
              (codes "never")
              (set_ftp_transfer_type no_text null corrupt).1
            ≡ (set_ftp_transfer_type no_text null corrupt).0))
word_settings_round_trip_example = word_settings_round_trip no_text null (codes "never") corrupt

lower-lower : (t : Text) → lower (lower t) ≡ lower t
unfolding lower lower_code
lower-lower [] = refl
lower-lower (c ∷ t) = ground (arith, lower-lower t)

is_space-lower_code : (c : ℕ) → is_space (lower_code c) ≡ is_space c
unfolding lower_code is_space
is_space-lower_code c = ground arith

lstrip-lower : (t : Text) → lstrip_by is_space (lower t) ≡ lower (lstrip_by is_space t)
unfolding lower lstrip_by
lstrip-lower [] = refl
lstrip-lower (c ∷ t) = ground (arith, is_space-lower_code c, lstrip-lower t)

rstrip-lower : (t : Text) → rstrip_by is_space (lower t) ≡ lower (rstrip_by is_space t)
unfolding lower rstrip_by
rstrip-lower [] = refl
rstrip-lower (c ∷ t) = ground (arith, is_space-lower_code c, rstrip-lower t)

lower_plain_lem :
    (t : Text)
    → is_empty t ≡ false
    → starts_with t (codes ".") ≡ false
    → (is_empty (lower t) ≡ false) × (starts_with (lower t) (codes ".") ≡ false)
unfolding lower lower_code starts_with
lower_plain_lem [] there plain = ground (arith, there)
lower_plain_lem (c ∷ t) there plain = ground (arith, plain)

lower-IsLower : IsLower lower
unfolding lower strip lower_code
lower-IsLower = record {
  lower_lower = lower-lower;
  strip_lower = λ t. ap (rstrip_by is_space) (lstrip-lower t) ∙ rstrip-lower (lstrip_by is_space t);
  lower_dot = λ t. refl;
  lower_plain = lower_plain_lem;
}

set_file_association-get_file_association_example :
    get_file_association no_text lower
      (text (codes ".txt"))
      (set_file_association no_text lower (text (codes " TXT")) (text (codes "vim")) absent).1
    ≡ (if text_eq (lower (codes "txt")) (lower (codes "TXT"))
        then strip (str_or_empty no_text (text (codes "vim")))
        else get_file_association no_text lower (text (codes ".txt")) absent)
unfolding is_space starts_with text_eq strip lstrip_by rstrip_by
set_file_association-get_file_association_example =
    set_file_association-get_file_association no_text lower lower-IsLower (codes " ") [] [] []
      (codes "TXT") (codes "txt") false true (text (codes "vim")) absent refl refl refl refl refl
      refl

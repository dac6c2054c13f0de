-- ===== src/Config/Settings/Words.antt =====
-- The settings that are one of a few words: what is stored and read is one of them.
use Prim.Native.String.{String}
use hpc_client_gui.Base.{
  ◌≡◌, refl, ap, sym, ◌∙◌, List, [], ◌∷◌, true, if◌then◌else◌, arith, Bool-cases, inl, inr,
}
use hpc_client_gui.Base.Text.{Text, codes, text_eq, text_eq_iff, strip, lower, one_of}
use hpc_client_gui.Base.Text.Strip.{strip-strip}
use hpc_client_gui.Base.Json.{Json, text}
use hpc_client_gui.Config.{str_of, str_or_empty}
use hpc_client_gui.Config.File.{ConfigFile, load_settings}
use hpc_client_gui.Config.Settings.{setting, set_one}
use hpc_client_gui.Config.Settings.Laws.{setting-set_one, str_or_empty-text}
use hpc_client_gui.Config.Settings.Choices.{
  completion_actions, follow_modes, transfer_types, known_or, follow_mode_without, legacy_focus,
  get_transfer_completion_action, set_transfer_completion_action, get_sbatch_follow_mode,
  set_sbatch_follow_mode, get_ftp_transfer_type, set_ftp_transfer_type, string_setting,
  set_string_setting,
}

-- Each of the words is left as it is by a function.
abbrev AllFixed : (Text → Text) → List String → Type 0
AllFixed f [] = Unit
AllFixed f (w ∷ ws) = (f (codes w) ≡ codes w) × AllFixed f ws

fixed :
    (f : Text → Text) (words : List String) (t : Text)
    → AllFixed f words
    → one_of t words ≡ true
    → f t ≡ t
unfolding one_of
fixed f [] t h e = ground (arith, e)
fixed f (w ∷ ws) t (first, rest) e = elim (Bool-cases (text_eq t (codes w))) [
  | inl same ↦
      ap f ((text_eq_iff t (codes w)).0 same) ∙ first ∙ sym ((text_eq_iff t (codes w)).0 same)
  | inr other ↦ fixed f ws t rest (ground (arith, e, other))
]

known_or-known :
    (words : List String) (default t : Text)
    → one_of default words ≡ true
    → one_of (known_or words default t) words ≡ true
known_or-known words default t h = ground (arith, h)

known_or-kept :
    (words : List String) (default t : Text) → one_of t words ≡ true → known_or words default t ≡ t
known_or-kept words default t h = ground (arith, h)

completion_actions-AllFixed : AllFixed strip completion_actions
unfolding strip
completion_actions-AllFixed =
    (refl, (refl, (refl, (refl, (refl, (refl, (refl, (refl, (refl, (refl, tt))))))))))

follow_modes-AllFixed : AllFixed strip follow_modes
unfolding strip
follow_modes-AllFixed = (refl, (refl, (refl, (refl, (refl, tt)))))

abbrev lower_strip : Text → Text
lower_strip t = lower (strip t)

transfer_types-AllFixed : AllFixed lower_strip transfer_types
unfolding strip lower
transfer_types-AllFixed = (refl, (refl, (refl, tt)))

known_words :
    (one_of (codes "none") completion_actions ≡ true)
    × (one_of (codes "outputs_tab") follow_modes ≡ true)
    × (one_of (codes "none") follow_modes ≡ true)
    × (one_of (codes "auto") transfer_types ≡ true)
unfolding one_of text_eq
known_words = (refl, refl, refl, refl)

module _ (repr : Json → Text) (value : Json) (default : Text) (file : ConfigFile) where
  -- A word that is stored under a key is read again by a getter that looks it up in the same list.
  stored_word :
      (f : Text → Text) (words : List String) (key word : Text)
      → AllFixed f words
      → one_of word words ≡ true
      → known_or words default
          (f (str_of repr (setting key (text default) (set_one key (text word) file))))
        ≡ word
  stored_word f words key word all known =
      ap (λ v. known_or words default (f (str_of repr v)))
        (setting-set_one key (text word) (text default) file)
      ∙ ap (known_or words default) (fixed f words word all known)
      ∙ known_or-kept words default word known

  get_sbatch_follow_mode-known :
      one_of (get_sbatch_follow_mode repr default file) follow_modes ≡ true
  unfolding get_sbatch_follow_mode
  get_sbatch_follow_mode-known = ground (arith, known_words.1, known_words.2)

  follow_word :
      (mode : Text)
      → one_of mode follow_modes ≡ true
      → get_sbatch_follow_mode repr default (set_one (codes "sbatch_follow_mode") (text mode) file)
        ≡ mode
  unfolding get_sbatch_follow_mode
  follow_word mode known =
      let after = set_one (codes "sbatch_follow_mode") (text mode) file in
      ap
        (λ v.
          if one_of (strip (str_of repr v)) follow_modes
          then strip (str_of repr v)
          else follow_mode_without repr (legacy_focus repr (load_settings after)) default)
        (setting-set_one (codes "sbatch_follow_mode") (text mode) (text []) file)
      ∙ ground (arith, known, fixed strip follow_modes mode follow_modes-AllFixed known)

  -- The mode in which a submitted job is followed is one of the five modes, whatever the file and
  -- the default. Each of the settings for the end of a transfer, for following a job and for the
  -- type of an FTP transfer stores a word of its list, whatever it is given, and reads the word
  -- back, whatever the default.
  pub word_settings_round_trip :
      (one_of (get_sbatch_follow_mode repr default file) follow_modes ≡ true)
      × ((one_of (set_sbatch_follow_mode repr value file).0 follow_modes ≡ true)
          × (get_sbatch_follow_mode repr default (set_sbatch_follow_mode repr value file).1
              ≡ (set_sbatch_follow_mode repr value file).0))
      × ((one_of (set_transfer_completion_action repr value file).0 completion_actions ≡ true)
          × (get_transfer_completion_action repr default
                (set_transfer_completion_action repr value file).1
              ≡ (set_transfer_completion_action repr value file).0))
      × ((one_of (set_ftp_transfer_type repr value file).0 transfer_types ≡ true)
          × (get_ftp_transfer_type repr default (set_ftp_transfer_type repr value file).1
              ≡ (set_ftp_transfer_type repr value file).0))
  unfolding set_sbatch_follow_mode set_transfer_completion_action get_transfer_completion_action
      set_ftp_transfer_type get_ftp_transfer_type
  word_settings_round_trip =
      let said = strip (str_or_empty repr value) in
      let mode = known_or-known follow_modes (codes "outputs_tab") said known_words.1 in
      let action = known_or-known completion_actions (codes "none") said known_words.0 in
      let kind = known_or-known transfer_types (codes "auto") (lower said) known_words.3 in
      (
        get_sbatch_follow_mode-known,
        (mode, follow_word _ mode),
        (
          action,
          stored_word strip completion_actions (codes "transfer_completion_action") _
              completion_actions-AllFixed action,
        ),
        (
          kind,
          stored_word lower_strip transfer_types (codes "ftp_transfer_type") _
              transfer_types-AllFixed kind,
        ),
      )

  -- A setting that is any string is stored and read without the spaces around it.
  string_setting-set_string_setting :
      (key : Text)
      → string_setting repr key default (set_string_setting repr key value file).1
        ≡ (set_string_setting repr key value file).0
  unfolding string_setting set_string_setting
  string_setting-set_string_setting key =
      let said = str_or_empty repr value in
      ap (λ v. strip (str_or_empty repr v))
        (setting-set_one key (text (strip said)) (text default) file)
      ∙ ap strip (str_or_empty-text repr (strip said))
      ∙ strip-strip said

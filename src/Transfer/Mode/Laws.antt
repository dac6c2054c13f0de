-- ===== src/Transfer/Mode/Laws.antt =====
-- What the choice of a transfer mode promises.
use hpc_client_gui.Base.{
  ℕ, ◌+◌, ◌≤◌, ◌≡◌, refl, ◌↔◌, ◌⊎◌, List, [], ◌∷◌, ◌++◌, Bool, true, false, any, length, take,
  if◌then◌else◌, some, arith, ◌==◌, take_all, length-append, ap, ◌∙◌, sym,
}
use mathlib.Core.Bool.{true≢false}
use hpc_client_gui.Base.Text.{Text, codes}
use hpc_client_gui.Transfer.Utf8.{Decoded, text, fault, decode}
use hpc_client_gui.Transfer.Utf8.Carry.{IsFault, IsFault-prepend}
use hpc_client_gui.Transfer.Utf8.Split.{decode-append_text}
use hpc_client_gui.Transfer.Mode.{
  is_crowded, auto, ascii, sample_size, normalize_transfer_mode, looks_binary, is_text,
  is_known_text_path, mode, value_error, resolve_transfer_mode,
}

-- With a sample given, a ValueError is raised exactly where ASCII is asked for and the sample
-- looks binary, and the mode is ASCII exactly where the sample does not look binary and either
-- ASCII is asked for, or Auto is and the path has a known text extension.
pub resolve_transfer_mode_cases :
    (path requested sample : List ℕ)
    → let asked = normalize_transfer_mode requested auto in
      (resolve_transfer_mode path requested (some sample) ≡ value_error
        ↔ ((asked ≡ ascii) × (looks_binary sample ≡ true)))
      × (resolve_transfer_mode path requested (some sample) ≡ mode ascii ↔ (
          (looks_binary sample ≡ false)
          × ((asked ≡ ascii) ⊎ ((asked ≡ auto) × (is_known_text_path path ≡ true)))))
unfolding resolve_transfer_mode
resolve_transfer_mode_cases path requested sample = ground arith

nil_text : is_text (decode []) ≡ true
unfolding decode
nil_text = refl

-- The tests of `looks_binary` behind the first two, on the sample alone.
looks_binary-cons :
    (b : ℕ) (bs : List ℕ)
    → looks_binary (b ∷ bs) ≡ (
        if any (λ c. c == 0) (b ∷ bs)
        then true
        else if is_text (decode (take sample_size (b ∷ bs)))
        then is_crowded (take sample_size (b ∷ bs))
        else true)
unfolding looks_binary
looks_binary-cons b bs = ground arith

text_of :
    (null known crowded : Bool)
    → (if null then true else if known then crowded else true) ≡ false
    → (null ≡ false) × (known ≡ true)
text_of null known crowded h = ground arith

-- A sample that is not taken for binary has no null byte and is UTF-8 text.
pub looks_binary-false :
    (sample : List ℕ)
    → looks_binary sample ≡ false
    → (any (λ b. b == 0) sample ≡ false) × (is_text (decode (take sample_size sample)) ≡ true)
looks_binary-false [] h = (refl, nil_text)
looks_binary-false (b ∷ bs) h = text_of _ _ _ (rw looks_binary-cons at h)

is_text-IsFault : (d : Decoded) → IsFault d → is_text d ≡ false
is_text-IsFault (text t) h = absurd h
is_text-IsFault (fault t tail n) h = refl

not_text :
    (null known crowded : Bool)
    → known ≡ false
    → (if null then true else if known then crowded else true) ≡ true
not_text null known crowded h = ground arith

looks_binary-IsFault :
    (sample : List ℕ)
    → length sample ≤ sample_size
    → IsFault (decode sample)
    → looks_binary sample ≡ true
looks_binary-IsFault [] h f = absurd (true≢false (sym nil_text ∙ is_text-IsFault _ f))
looks_binary-IsFault (b ∷ bs) h f = rw looks_binary-cons (
    not_text _ _ _
      (ap (λ xs. is_text (decode xs)) (take_all sample_size (b ∷ bs) h) ∙ is_text-IsFault _ f))

cut_point : IsFault (decode (0xC3 ∷ []))
unfolding decode
cut_point = tt

whole_point : decode (0xC3 ∷ 0xA9 ∷ []) ≡ text (0xE9 ∷ [])
unfolding decode
whole_point = refl

IsFault-behind : (s : List ℕ) {t : Text} → decode s ≡ text t → IsFault (decode (s ++ (0xC3 ∷ [])))
IsFault-behind s {t} e = rw (decode-append_text s t e (0xC3 ∷ [])) (IsFault-prepend t _ cut_point)

ascii_asked : normalize_transfer_mode (codes "ascii") auto ≡ ascii
unfolding normalize_transfer_mode
ascii_asked = refl

-- Where 8191 bytes of valid UTF-8 are followed by the two bytes of é, the whole is valid UTF-8,
-- and yet with its first 8192 bytes as the sample a request for ASCII mode raises a ValueError.
pub resolve_transfer_mode-cut :
    (path : Text) (s : List ℕ) {t : Text}
    → length s + 1 ≡ sample_size
    → decode s ≡ text t
    → (decode (s ++ (0xC3 ∷ 0xA9 ∷ [])) ≡ text (t ++ (0xE9 ∷ [])))
      × (resolve_transfer_mode path (codes "ascii") (some (s ++ (0xC3 ∷ []))) ≡ value_error)
resolve_transfer_mode-cut path s {t} h e = (
  rw (decode-append_text s t e (0xC3 ∷ 0xA9 ∷ []), whole_point),
  (resolve_transfer_mode_cases path (codes "ascii") (s ++ (0xC3 ∷ []))).0.1 (
    ascii_asked,
    looks_binary-IsFault _ (omega (arith, length-append s (0xC3 ∷ []))) (IsFault-behind s e),
  ),
)

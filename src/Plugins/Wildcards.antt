-- ===== src/Plugins/Wildcards.antt =====
-- Requirements with a star in front of the last component.
use hpc_client_gui.Base.{
  ℕ, ◌≡◌, refl, ap, ◌∙◌, [], ◌∷◌, ◌++◌, Bool, true, false, not, ◌&&◌, ◌==◌, leb, all, is_empty,
  none, some, arith,
}
use hpc_client_gui.Base.Text.{Text, codes, split, rstrip_by, starts_with}
use hpc_client_gui.Plugins.Conjunction.{split_from-append}
use hpc_client_gui.Plugins.Bounds.{
  is_clause_code, split_from-none, rstrip_by-none, strip-none, no_space, no_comma,
}
use hpc_client_gui.Base.Digits.{is_decimal, is_decimal_text, int_of, digit_value}
use hpc_client_gui.Plugins.Compat.{
  parse_clauses, eq, clause_problems, validate_requires_app, admits_clause, admits_all,
  admits_prefix, prefix_parts, ints_of, is_version_parts, is_component, clauses_of, parse_clause,
  operator_of, is_app_compatible, has_code,
}
use hpc_client_gui.Plugins.Version.{Version, parse_version}

abbrev pub is_ascii_digit : ℕ → Bool
is_ascii_digit c = leb b'0' c && leb c b'9'

is_decimal-ascii : (c : ℕ) → is_ascii_digit c ≡ true → is_decimal c ≡ true
unfolding digit_value
is_decimal-ascii c h = ground arith

all_decimal : (t : Text) → all is_ascii_digit t ≡ true → all is_decimal t ≡ true
all_decimal [] h = refl
all_decimal (c ∷ t) h = ground (arith, all_decimal t, is_decimal-ascii c)

is_decimal_text-ascii :
    (t : Text) → all is_ascii_digit t ≡ true → is_empty t ≡ false → is_decimal_text t ≡ true
unfolding is_decimal_text
is_decimal_text-ascii t h n = ground (arith, all_decimal t h)

is_component-ascii :
    (t : Text) → all is_ascii_digit t ≡ true → is_empty t ≡ false → is_component t ≡ true
is_component-ascii [] h n = absurd (ground arith)
is_component-ascii (c ∷ []) h n = ground (arith, is_decimal_text-ascii (c ∷ []) h n)
is_component-ascii (c ∷ d ∷ t) h n = ground (arith, is_decimal_text-ascii (c ∷ d ∷ t) h n)

digits_before :
    (a s : Text)
    → all is_ascii_digit a ≡ true
    → all is_clause_code s ≡ true
    → all is_clause_code (a ++ s) ≡ true
digits_before [] s da ds = ds
digits_before (c ∷ a) s da ds = ground (arith, digits_before a s)

digits_clause : (a : Text) → all is_ascii_digit a ≡ true → all is_clause_code a ≡ true
digits_clause [] da = refl
digits_clause (c ∷ a) da = ground (arith, digits_clause a)

no_stop : (a : Text) → all is_ascii_digit a ≡ true → all (λ c. not (c == b'.')) a ≡ true
no_stop [] da = refl
no_stop (c ∷ a) da = ground (arith, no_stop a)

star_none : (a : Text) → all is_ascii_digit a ≡ true → all (λ c. not (c == b'*')) a ≡ true
star_none [] da = refl
star_none (c ∷ a) da = ground (arith, star_none a)

-- Text is stripped no further than to its last part, where nothing of that is to be stripped.
rstrip_by-append :
    (p : ℕ → Bool) (x b : Text)
    → is_empty b ≡ false
    → rstrip_by p b ≡ b
    → (rstrip_by p (x ++ b) ≡ x ++ b) × (is_empty (x ++ b) ≡ false)
unfolding rstrip_by
rstrip_by-append p [] b n h = (h, n)
rstrip_by-append p (c ∷ x) b n h = ground (arith, rstrip_by-append p x b n h)

has_code-append : (k : ℕ) (x s : Text) → has_code k s ≡ true → has_code k (x ++ s) ≡ true
has_code-append k [] s h = h
has_code-append k (c ∷ x) s h = ground (arith, has_code-append k x s h)

module _ (a b : Text) (da : all is_ascii_digit a ≡ true) (db : all is_ascii_digit b ≡ true)
    (na : is_empty a ≡ false) (nb : is_empty b ≡ false) where
  abbrev inner : Text
  inner = a ++ (b'.' ∷ b'*' ∷ b'.' ∷ b)

  split-inner : split b'.' inner ≡ a ∷ (b'*' ∷ []) ∷ b ∷ []
  unfolding split
  split-inner = ground (
    arith,
    split_from-append b'.' [] a (b'*' ∷ b'.' ∷ b),
    split_from-append b'.' [] (b'*' ∷ []) b,
    split_from-none b'.' [] a (no_stop a da),
    split_from-none b'.' [] (b'*' ∷ []) refl,
    split_from-none b'.' [] b (no_stop b db),
  )

  inner_parts : is_version_parts (split b'.' inner) ≡ true
  inner_parts =
      ground (arith, split-inner, is_decimal_text-ascii a da na, is_component-ascii b db nb)

  parse_clauses-inner : parse_clauses (codes "==" ++ inner) ≡ some ((eq, inner) ∷ [])
  unfolding parse_clauses split clauses_of parse_clause operator_of starts_with
  parse_clauses-inner =
      let whole = codes "==" ++ inner in
      let fine : all is_clause_code whole ≡ true =
        digits_before a (b'.' ∷ b'*' ∷ b'.' ∷ b) da (digits_clause b db) in
      ground (
        arith,
        split_from-none b',' [] whole (no_comma whole fine),
        strip-none whole (no_space whole fine),
        inner_parts,
      )

  inner_kept : (p : ℕ → Bool) → all (λ c. not (p c)) b ≡ true → rstrip_by p inner ≡ inner
  inner_kept p none_of_b =
      let (kept, some_left) =
        rstrip_by-append p (b'.' ∷ b'*' ∷ b'.' ∷ []) b nb (rstrip_by-none p b none_of_b) in
      (rstrip_by-append p a (b'.' ∷ b'*' ∷ b'.' ∷ b) some_left kept).0

  ints_of-inner : ints_of (a ∷ (b'*' ∷ []) ∷ b ∷ []) ≡ none
  unfolding ints_of int_of is_decimal_text digit_value
  ints_of-inner = ground arith

  prefix_parts-inner : prefix_parts inner ≡ a ∷ (b'*' ∷ []) ∷ b ∷ []
  unfolding prefix_parts
  prefix_parts-inner =
      ap (λ t. split b'.' (rstrip_by (λ c. c == b'.') t))
        (inner_kept (λ c. c == b'*') (star_none b db))
      ∙ ap (λ t. split b'.' t) (inner_kept (λ c. c == b'.') (no_stop b db))
      ∙ split-inner

  admits_prefix-inner : (v : Version) → admits_prefix inner v ≡ none
  unfolding admits_prefix
  admits_prefix-inner v = ground (arith, prefix_parts-inner, ints_of-inner)

-- A requirement `==a.*.b` of ASCII digits, which validation admits, raises a
-- ValueError for every program version that can be parsed.
pub is_app_compatible-inner_star :
    (a b v : Text) (current : Version)
    → all is_ascii_digit a ≡ true
    → all is_ascii_digit b ≡ true
    → is_empty a ≡ false
    → is_empty b ≡ false
    → parse_version v ≡ some (some current)
    → let requirement = codes "==" ++ a ++ (b'.' ∷ b'*' ∷ b'.' ∷ b) in
      (validate_requires_app requirement ≡ []) × (is_app_compatible requirement v ≡ none)
unfolding is_app_compatible validate_requires_app clause_problems admits_all admits_clause
is_app_compatible-inner_star a b v current da db na nb running = ground (
  arith,
  parse_clauses-inner a b da db na nb,
  has_code-append b'*' a (b'.' ∷ b'*' ∷ b'.' ∷ b) refl,
  admits_prefix-inner a b da db na nb current,
)

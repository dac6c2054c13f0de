-- ===== src/Plugins/Bounds.antt =====
-- A requirement of one clause without a star, against a version of three numbers.
use hpc_client_gui.Base.{
  ℕ, ◌≤◌, ◌≡◌, refl, ap, [], ◌∷◌, ◌++◌, Bool, true, false, not, ◌&&◌, ◌||◌, ◌==◌, leb, ltb, all,
  is_empty, append_assoc, append-nil, some, arith,
}
use hpc_client_gui.Base.Text.{
  Text, codes, split, split_from, strip, is_space, lstrip_by, rstrip_by, starts_with,
}
use hpc_client_gui.Plugins.Compat.{
  clauses_of, parse_clause, parse_clauses, Operator, ge, le, eq, compat, gt, lt, operator_of,
  is_version_parts, clause_problems, validate_requires_app, admits_clause, admits_all,
  admits_target, is_app_compatible, is_compat, has_code,
}
use hpc_client_gui.Plugins.Version.{Version, parse_version, compare}

abbrev pub operator_text : Operator → Text
operator_text ge = codes ">="
operator_text le = codes "<="
operator_text eq = codes "=="
operator_text compat = codes "~="
operator_text gt = codes ">"
operator_text lt = codes "<"

-- An ASCII digit or a full stop.
abbrev pub is_plain : ℕ → Bool
is_plain c = (leb b'0' c && leb c b'9') || c == b'.'

abbrev pub is_clause_code : ℕ → Bool
is_clause_code c = is_plain c || (leb b'<' c && leb c b'>') || c == b'~' || c == b'*'

pub split_from-none :
    (sep : ℕ) (word t : Text)
    → all (λ c. not (c == sep)) t ≡ true
    → split_from sep word t ≡ (word ++ t) ∷ []
unfolding split_from
split_from-none sep word [] h = ap (λ w. w ∷ []) (ground (arith, append-nil word))
split_from-none sep word (c ∷ t) h =
    ground (arith, split_from-none sep (word ++ (c ∷ [])) t, append_assoc word (c ∷ []) t)

pub rstrip_by-none : (p : ℕ → Bool) (t : Text) → all (λ c. not (p c)) t ≡ true → rstrip_by p t ≡ t
unfolding rstrip_by
rstrip_by-none p [] h = refl
rstrip_by-none p (c ∷ t) h = ground (arith, rstrip_by-none p t)

pub strip-none : (t : Text) → all (λ c. not (is_space c)) t ≡ true → strip t ≡ t
unfolding strip lstrip_by
strip-none [] h = ground (arith, rstrip_by-none is_space [])
strip-none (c ∷ t) h = ground (arith, rstrip_by-none is_space (c ∷ t))

clause_code-bounds : (c : ℕ) → is_clause_code c ≡ true → (33 ≤ c) × (c ≤ 126)
clause_code-bounds c h = ground arith

is_space-printable : (c : ℕ) → 33 ≤ c → c ≤ 126 → is_space c ≡ false
unfolding is_space
is_space-printable c l u = ground arith

pub no_space : (t : Text) → all is_clause_code t ≡ true → all (λ c. not (is_space c)) t ≡ true
no_space [] h = refl
no_space (c ∷ t) h = ground (arith, no_space t, clause_code-bounds c, is_space-printable c)

pub no_comma : (t : Text) → all is_clause_code t ≡ true → all (λ c. not (c == b',')) t ≡ true
no_comma [] h = refl
no_comma (c ∷ t) h = ground (arith, no_comma t)

no_star : (t : Text) → all is_plain t ≡ true → has_code b'*' t ≡ false
no_star [] h = refl
no_star (c ∷ t) h = ground (arith, no_star t)

plain_clause : (t : Text) → all is_plain t ≡ true → all is_clause_code t ≡ true
plain_clause [] h = refl
plain_clause (c ∷ t) h = ground (arith, plain_clause t)

operator_clause :
    (op : Operator) (t : Text)
    → all is_plain t ≡ true
    → all is_clause_code (operator_text op ++ t) ≡ true
operator_clause ge t h = ground (arith, plain_clause t)
operator_clause le t h = ground (arith, plain_clause t)
operator_clause eq t h = ground (arith, plain_clause t)
operator_clause compat t h = ground (arith, plain_clause t)
operator_clause gt t h = ground (arith, plain_clause t)
operator_clause lt t h = ground (arith, plain_clause t)

operator_of-text :
    (op : Operator) (t : Text)
    → all is_plain t ≡ true
    → operator_of (operator_text op ++ t) ≡ (op, t)
unfolding operator_of starts_with
operator_of-text ge t h = refl
operator_of-text le t h = refl
operator_of-text eq t h = refl
operator_of-text compat t h = refl
operator_of-text gt [] h = refl
operator_of-text gt (c ∷ t) h = ground arith
operator_of-text lt [] h = refl
operator_of-text lt (c ∷ t) h = ground arith

parse_clause-text :
    (op : Operator) (t : Text)
    → all is_plain t ≡ true
    → is_version_parts (split b'.' t) ≡ true
    → parse_clause (operator_text op ++ t) ≡ some (op, t)
unfolding parse_clause
parse_clause-text op t plain parts =
    let whole = operator_text op ++ t in
    ground (
      arith,
      strip-none whole (no_space whole (operator_clause op t plain)),
      operator_of-text op t plain,
      nonempty op t,
    )
  where
    nonempty : (op : Operator) (t : Text) → is_empty (operator_text op ++ t) ≡ false
    nonempty ge t = refl
    nonempty le t = refl
    nonempty eq t = refl
    nonempty compat t = refl
    nonempty gt t = refl
    nonempty lt t = refl

parse_clauses-text :
    (op : Operator) (t : Text)
    → all is_plain t ≡ true
    → is_version_parts (split b'.' t) ≡ true
    → parse_clauses (operator_text op ++ t) ≡ some ((op, t) ∷ [])
unfolding parse_clauses split clauses_of
parse_clauses-text op t plain parts =
    let whole = operator_text op ++ t in
    ground (
      arith,
      split_from-none b',' [] whole (no_comma whole (operator_clause op t plain)),
      parse_clause-text op t plain parts,
    )

-- A version of three numbers, and the order of such versions.
pub record Numbers : Type 0 where
  pub major : ℕ
  pub minor : ℕ
  pub patch : ℕ

abbrev pub version_of : Numbers → Version
version_of n = n.major ∷ n.minor ∷ n.patch ∷ []

pub is_below : Numbers → Numbers → Bool
is_below a b =
    ltb a.major b.major
    || (a.major == b.major && (ltb a.minor b.minor || (a.minor == b.minor && ltb a.patch b.patch)))

-- What each operator is to admit.
pub admitted : Operator → Numbers → Numbers → Bool
unfolding is_below
admitted ge target current = not (is_below current target)
admitted gt target current = is_below target current
admitted le target current = not (is_below target current)
admitted lt target current = is_below current target
admitted eq target current = not (is_below current target) && not (is_below target current)
admitted compat target current =
    not (is_below current target) && current.major == target.major && current.minor == target.minor

admits_target-admitted :
    (op : Operator) (target current : Numbers)
    → admits_target op (version_of target) (version_of current) ≡ admitted op target current
unfolding admits_target compare admitted is_below
admits_target-admitted ge target current = ground arith
admits_target-admitted gt target current = ground arith
admits_target-admitted le target current = ground arith
admits_target-admitted lt target current = ground arith
admits_target-admitted eq target current = ground arith
admits_target-admitted compat target current = ground arith

problems_none :
    (op : Operator) (t : Text)
    → all is_plain t ≡ true
    → (is_compat op ≡ true → has_code b'.' t ≡ true)
    → clause_problems ((op, t) ∷ []) ≡ []
unfolding clause_problems
problems_none op t plain dot = ground (arith, no_star t plain)

-- For a requirement of one operator and a version text of ASCII digits, which has a full stop
-- behind `~=`, and two versions that have three numbers when they are parsed: the requirement is
-- met exactly where the operator is to admit the program's numbers for the text's.
pub is_app_compatible-admitted :
    (op : Operator) (t v : Text) (target current : Numbers)
    → all is_plain t ≡ true
    → is_version_parts (split b'.' t) ≡ true
    → (is_compat op ≡ true → has_code b'.' t ≡ true)
    → parse_version t ≡ some (some (version_of target))
    → parse_version v ≡ some (some (version_of current))
    → is_app_compatible (operator_text op ++ t) v ≡ some (admitted op target current)
unfolding is_app_compatible validate_requires_app admits_all admits_clause
is_app_compatible-admitted op t v target current plain parts dot parsed running = ground (
  arith,
  parse_clauses-text op t plain parts,
  problems_none op t plain dot,
  no_star t plain,
  admits_target-admitted op target current,
)

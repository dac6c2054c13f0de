-- ===== src/Plugins/Compat.antt =====
-- src/hpc_gui/plugins/compatibility.py. Where the code raises a ValueError, the outer option is `none`.
use hpc_client_gui.Base.{
  ℕ, ◌-◌, List, [], ◌∷◌, ◌++◌, Bool, true, false, not, ◌&&◌, ◌||◌, ◌==◌, ltb, if◌then◌else◌, length,
  take, drop, any, all, is_empty, max, Option, none, some,
}
use hpc_client_gui.Base.Text.{Text, codes, strip, starts_with, split, rstrip_by}
use hpc_client_gui.Base.Digits.{is_decimal_text, int_of}
use hpc_client_gui.Plugins.Version.{Version, parse_version, Order, less, same, more, compare}

pub data Operator : Type 0 where
  ge le eq compat gt lt : Operator

-- The operator of a clause, in the order of the alternatives of `_CLAUSE_RE`, and what follows.
unfoldable pub operator_of : Text → Operator × Text
unfolding starts_with
operator_of t =
    if starts_with t (codes ">=")
    then (ge, drop 2 t)
    else if starts_with t (codes "<=")
    then (le, drop 2 t)
    else if starts_with t (codes "==")
    then (eq, drop 2 t)
    else if starts_with t (codes "~=")
    then (compat, drop 2 t)
    else if starts_with t (codes ">")
    then (gt, drop 1 t)
    else if starts_with t (codes "<")
    then (lt, drop 1 t)
    else (eq, t)

abbrev pub is_component : Text → Bool
is_component (c ∷ []) = (c == b'*') || is_decimal_text (c ∷ [])
is_component [] = false
is_component (c ∷ d ∷ t) = is_decimal_text (c ∷ d ∷ t)

-- What `_CLAUSE_RE` has behind the operator: one component of digits, and up to two more, each of
-- digits or a star.
abbrev pub is_version_parts : List Text → Bool
is_version_parts [] = false
is_version_parts (p ∷ ps) = is_decimal_text p && all is_component ps && ltb (length ps) 3

abbrev pub Clause : Type 0
Clause = Operator × Text

-- One clause, already split off.
unfoldable pub parse_clause : Text → Option Clause
unfolding strip operator_of split
parse_clause raw =
    let clause = strip raw in
    let (operator, text) = operator_of clause in
    if is_empty clause
    then none
    else if is_version_parts (split b'.' text)
    then some (operator, text)
    else none

unfoldable pub clauses_of : List Text → Option (List Clause)
unfolding parse_clause
clauses_of [] = some []
clauses_of (raw ∷ raws) = elim (parse_clause raw) [
  | none ↦ none
  | some clause ↦ elim (clauses_of raws) [ none ↦ none | some clauses ↦ some (clause ∷ clauses) ]
]

-- `_parse_clauses`
unfoldable pub parse_clauses : Text → Option (List Clause)
unfolding split clauses_of
parse_clauses requires_app = clauses_of (split b',' requires_app)

-- The messages of `validate_requires_app`.
pub data Problem : Type 0 where
  bad_clauses no_clauses : Problem
  wildcard_with few_components : Operator → Text → Problem

abbrev pub is_eq : Operator → Bool
is_eq eq = true
is_eq ge = false
is_eq le = false
is_eq compat = false
is_eq gt = false
is_eq lt = false

abbrev pub is_compat : Operator → Bool
is_compat compat = true
is_compat eq = false
is_compat ge = false
is_compat le = false
is_compat gt = false
is_compat lt = false

abbrev pub has_code : ℕ → Text → Bool
has_code c t = any (λ d. d == c) t

unfoldable pub clause_problems : List Clause → List Problem
clause_problems [] = []
clause_problems ((operator, text) ∷ clauses) =
    let rest = clause_problems clauses in
    (if has_code b'*' text && not (is_eq operator) then wildcard_with operator text ∷ [] else [])
    ++ (if is_compat operator && not (has_code b'.' text)
        then few_components operator text ∷ []
        else [])
    ++ rest

unfoldable pub validate_requires_app : Text → List Problem
unfolding parse_clauses clause_problems
validate_requires_app requires_app = elim (parse_clauses requires_app) [
  | none ↦ bad_clauses ∷ []
  | some [] ↦ no_clauses ∷ []
  | some (c ∷ cs) ↦ clause_problems (c ∷ cs)
]

-- `tuple(int(part) for part in …)`
unfoldable pub ints_of : List Text → Option Version
unfolding int_of
ints_of [] = some []
ints_of (part ∷ parts) = elim (int_of part) [
  | none ↦ none
  | some n ↦ elim (ints_of parts) [ none ↦ none | some ns ↦ some (n ∷ ns) ]
]

abbrev pub is_same : Order → Bool
is_same same = true
is_same less = false
is_same more = false

abbrev pub is_less : Order → Bool
is_less less = true
is_less same = false
is_less more = false

abbrev pub is_more : Order → Bool
is_more more = true
is_more same = false
is_more less = false

-- `version_text.rstrip("*").rstrip(".").split(".")`
unfoldable pub prefix_parts : Text → List Text
unfolding rstrip_by split
prefix_parts text = split b'.' (rstrip_by (λ c. c == b'.') (rstrip_by (λ c. c == b'*') text))

-- A clause with a star.
unfoldable pub admits_prefix : Text → Version → Option Bool
unfolding ints_of compare
admits_prefix text current = elim (ints_of (prefix_parts text)) [
  | none ↦ none
  | some prefix ↦ some (is_same (compare (take (length prefix) current) prefix))
]

-- The tests of a clause without a star, against its version.
unfoldable pub admits_target : Operator → Version → Version → Bool
unfolding compare
admits_target ge target current = not (is_less (compare current target))
admits_target gt target current = is_more (compare current target)
admits_target le target current = not (is_more (compare current target))
admits_target lt target current = is_less (compare current target)
admits_target eq target current = is_same (compare current target)
admits_target compat target current =
    let n = max 1 (length target - 1) in
    not (is_less (compare current target)) && is_same (compare (take n current) (take n target))

-- The body of the loop over the clauses: a ValueError, or whether it goes on.
unfoldable pub admits_clause : Clause → Version → Option Bool
unfolding admits_prefix admits_target parse_version
admits_clause (operator, text) current =
    if has_code b'*' text then admits_prefix text current else elim (parse_version text) [
      | none ↦ none
      | some none ↦ some false
      | some (some target) ↦ some (admits_target operator target current)
    ]

unfoldable pub admits_all : List Clause → Version → Option Bool
unfolding admits_clause
admits_all [] current = some true
admits_all (clause ∷ clauses) current = elim (admits_clause clause current) [
  | none ↦ none
  | some false ↦ some false
  | some true ↦ admits_all clauses current
]

-- `is_app_compatible`
unfoldable pub is_app_compatible : Text → Text → Option Bool
unfolding validate_requires_app parse_version parse_clauses admits_all
is_app_compatible requires_app app_version =
    if not (is_empty (validate_requires_app requires_app))
    then some false
    else elim (parse_version app_version) [
      | none ↦ none
      | some none ↦ some false
      | some (some current) ↦ elim (parse_clauses requires_app) [
        | none ↦ some false
        | some clauses ↦ admits_all clauses current
      ]
    ]

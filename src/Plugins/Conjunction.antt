-- ===== src/Plugins/Conjunction.antt =====
-- Clauses that are joined by a comma.
use hpc_client_gui.Base.{
  ℕ, ◌≡◌, ◌≢◌, ◌↔◌, refl, List, [], ◌∷◌, ◌++◌, Bool, true, false, not, ◌&&◌, is_empty, Option, none,
  some, arith, ==_iff, Option-cases, inl, inr,
}
use hpc_client_gui.Base.Text.{Text, split, split_from}
use hpc_client_gui.Plugins.Compat.{
  Clause, clauses_of, parse_clauses, clause_problems, validate_requires_app, admits_all,
  is_app_compatible,
}
use hpc_client_gui.Plugins.Version.{Version, parse_version}

pub split_from-append :
    (sep : ℕ) (word a b : Text)
    → split_from sep word (a ++ (sep ∷ b)) ≡ split_from sep word a ++ split_from sep [] b
unfolding split_from
split_from-append sep word [] b = ground (arith, ==_iff sep sep)
split_from-append sep word (c ∷ a) b =
    ground (arith, split_from-append sep [] a b, split_from-append sep (word ++ (c ∷ [])) a b)

abbrev both : Option (List Clause) → Option (List Clause) → Option (List Clause)
both none y = none
both (some xs) none = none
both (some xs) (some ys) = some (xs ++ ys)

clauses_of-append :
    (xs ys : List Text) → clauses_of (xs ++ ys) ≡ both (clauses_of xs) (clauses_of ys)
unfolding clauses_of
clauses_of-append [] ys = ground arith
clauses_of-append (x ∷ xs) ys = ground (arith, clauses_of-append xs ys)

parse_clauses-append :
    (a b : Text) → parse_clauses (a ++ (b',' ∷ b)) ≡ both (parse_clauses a) (parse_clauses b)
unfolding parse_clauses split
parse_clauses-append a b = ground (
  arith,
  split_from-append b',' [] a b,
  clauses_of-append (split_from b',' [] a) (split_from b',' [] b),
)

clause_problems-append :
    (xs ys : List Clause)
    → is_empty (clause_problems (xs ++ ys))
      ≡ (is_empty (clause_problems xs) && is_empty (clause_problems ys))
unfolding clause_problems
clause_problems-append [] ys = refl
clause_problems-append ((operator, text) ∷ xs) ys = ground (arith, clause_problems-append xs ys)

admits_all-append :
    (xs ys : List Clause) (v : Version)
    → (admits_all (xs ++ ys) v ≡ some true)
      ↔ ((admits_all xs v ≡ some true) × (admits_all ys v ≡ some true))
unfolding admits_all
admits_all-append [] ys v = ground arith
admits_all-append (x ∷ xs) ys v = ground (arith, admits_all-append xs ys v)

abbrev is_yes : Option Bool → Bool
is_yes none = false
is_yes (some b) = b

-- Whether clauses are met by a version, each parsed.
abbrev meets : Option (List Clause) → Option (Option Version) → Bool
meets none v = false
meets (some cs) none = false
meets (some cs) (some none) = false
meets (some cs) (some (some v)) =
    not (is_empty cs) && is_empty (clause_problems cs) && is_yes (admits_all cs v)

is_app_compatible-meets :
    (a v : Text)
    → (is_app_compatible a v ≡ some true) ↔ (meets (parse_clauses a) (parse_version v) ≡ true)
unfolding is_app_compatible validate_requires_app
is_app_compatible-meets a v = elim (Option-cases (parse_clauses a)) [
  | inl bad ↦ ground arith
  | inr ([], clauses) ↦ ground arith
  | inr (c ∷ cs, clauses) ↦ ground arith
]

meets-both :
    (x y : Option (List Clause)) (v : Option (Option Version))
    → x ≢ some []
    → y ≢ some []
    → meets (both x y) v ≡ (meets x v && meets y v)
meets-both none y v hx hy = refl
meets-both (some xs) none v hx hy = ground arith
meets-both (some xs) (some ys) none hx hy = refl
meets-both (some xs) (some ys) (some none) hx hy = refl
meets-both (some []) (some ys) (some (some v)) hx hy = absurd (hx refl)
meets-both (some (x ∷ xs)) (some []) (some (some v)) hx hy = absurd (hy refl)
meets-both (some (x ∷ xs)) (some (y ∷ ys)) (some (some v)) hx hy =
    ground (arith, clause_problems-append (x ∷ xs) (y ∷ ys), admits_all-append (x ∷ xs) (y ∷ ys) v)

split_from-nonempty : (sep : ℕ) (word a : Text) → split_from sep word a ≢ []
unfolding split_from
split_from-nonempty sep word [] h = ground arith
split_from-nonempty sep word (c ∷ a) h =
    ground (arith, split_from-nonempty sep (word ++ (c ∷ [])) a)

clauses_of-nonempty : (raws : List Text) → raws ≢ [] → clauses_of raws ≢ some []
unfolding clauses_of
clauses_of-nonempty [] h e = h refl
clauses_of-nonempty (raw ∷ raws) h e = ground arith

parse_clauses-nonempty : (a : Text) → parse_clauses a ≢ some []
unfolding parse_clauses split
parse_clauses-nonempty a =
    clauses_of-nonempty (split_from b',' [] a) (split_from-nonempty b',' [] a)

-- The program's version meets two requirements joined by a comma exactly where it meets both.
pub is_app_compatible-joined :
    (a b v : Text)
    → (is_app_compatible (a ++ (b',' ∷ b)) v ≡ some true)
      ↔ ((is_app_compatible a v ≡ some true) × (is_app_compatible b v ≡ some true))
is_app_compatible-joined a b v = ground (
  arith,
  is_app_compatible-meets (a ++ (b',' ∷ b)) v,
  is_app_compatible-meets a v,
  is_app_compatible-meets b v,
  parse_clauses-append a b,
  meets-both (parse_clauses a) (parse_clauses b) (parse_version v) (parse_clauses-nonempty a)
      (parse_clauses-nonempty b),
)

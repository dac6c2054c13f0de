-- ===== src/Lint/Engine.antt =====
-- src/hpc_gui/lint/engine.py: `lint_text`.
pub mod Caps
use hpc_client_gui.Base.{
  ℕ, ◌+◌, ◌*◌, List, [], ◌∷◌, ◌++◌, Bool, true, false, not, ◌&&◌, ◌||◌, ◌==◌, leb, ltb,
  if◌then◌else◌, length, Option, none, some,
}
use hpc_client_gui.Base.Text.{Text}
use hpc_client_gui.Lint.{CompiledRule, RulePack, LintContext, Diagnostic}
use hpc_client_gui.Lint.Index.{LineIndex, line_index}
use hpc_client_gui.Lint.Rules.{rule_conditions_match, rule_diagnostics}

abbrev pub max_lint_text_bytes : ℕ
max_lint_text_bytes = 10 * 1024 * 1024

-- The bytes of a code point in UTF-8, where a surrogate is replaced by a question mark.
abbrev pub code_size : ℕ → ℕ
code_size c =
    if ltb c 0x80
    then 1
    else if ltb c 0x800
    then 2
    else if leb 0xD800 c && leb c 0xDFFF
    then 1
    else if ltb c 0x10000
    then 3
    else 4

unfoldable pub encoded_size : Text → ℕ
encoded_size [] = 0
encoded_size (c ∷ s) = code_size c + encoded_size s

abbrev pub or_zero : Option ℕ → ℕ
or_zero none = 0
or_zero (some n) = n

-- Texts in the order of their code points.
unfoldable pub text_less : Text → Text → Bool
text_less s [] = false
text_less [] (b ∷ t) = true
text_less (a ∷ s) (b ∷ t) = ltb a b || (a == b && text_less s t)

-- The order of the keys by which `sorted` goes.
unfoldable pub key_less : Diagnostic → Diagnostic → Bool
unfolding text_less
key_less d e =
    ltb (or_zero d.line) (or_zero e.line)
    || (or_zero d.line == or_zero e.line
        && (ltb (or_zero d.column) (or_zero e.column)
            || (or_zero d.column == or_zero e.column && text_less d.rule_id e.rule_id)))

-- `sorted`, which keeps the order of what has the same key.
unfoldable pub insert : Diagnostic → List Diagnostic → List Diagnostic
insert d [] = d ∷ []
insert d (e ∷ es) = if key_less e d then e ∷ insert d es else d ∷ e ∷ es

unfoldable pub sorted : List Diagnostic → List Diagnostic
sorted [] = []
sorted (d ∷ ds) = insert d (sorted ds)

-- The loop over the diagnostics of a rule, and whether the total is reached.
unfoldable pub add_each : ℕ → List Diagnostic → List Diagnostic → List Diagnostic × Bool
add_each total diagnostics [] = (diagnostics, false)
add_each total diagnostics (d ∷ ds) =
    let more = diagnostics ++ (d ∷ []) in
    let rest = add_each total more ds in if leb total (length more) then (more, true) else rest

module _ (finditer : Text → Text → List ℕ) where
  -- The loop over the rules.
  unfoldable pub rules_loop :
      Text
      → LineIndex
      → RulePack
      → Option LintContext
      → ℕ
      → ℕ
      → List Diagnostic
      → List CompiledRule
      → List Diagnostic
  rules_loop text index pack context per_rule total diagnostics [] = diagnostics
  rules_loop text index pack context per_rule total diagnostics (rule ∷ rules) =
      let (more, full) =
        add_each total diagnostics (rule_diagnostics finditer text index pack per_rule rule) in
      let skipped = rules_loop text index pack context per_rule total diagnostics rules in
      let rest = rules_loop text index pack context per_rule total more rules in
      if not (rule_conditions_match rule.conditions context)
      then skipped
      else if full
      then more
      else rest

  -- `lint_text`; `none` for a LintError.
  unfoldable pub lint_text : Text → RulePack → Option LintContext → ℕ → ℕ → Option (List Diagnostic)
  lint_text text pack context per_rule total =
      if ltb max_lint_text_bytes (encoded_size text)
      then none
      else some
          (sorted (rules_loop text (line_index text) pack context per_rule total [] pack.rules))

-- ===== src/Lint/Rules.antt =====
-- src/hpc_gui/lint/engine.py: the conditions and the diagnostics of one rule. Letters outside ASCII
-- are compared as they are, where the code lowers them.
use hpc_client_gui.Base.{
  ℕ, zero, suc, ◌+◌, ◌-◌, List, [], ◌∷◌, ◌++◌, map, reverse, Bool, true, false, not, ◌&&◌, ◌||◌,
  ◌==◌, leb, ltb, if◌then◌else◌, length, take, drop, is_empty, Option, none, some,
}
use hpc_client_gui.Base.Dict.{is_some}
use hpc_client_gui.Base.Text.{Text, codes, text_eq, starts_with, lower}
use hpc_client_gui.Lint.{
  RuleKind, contains, not_contains, regex, line_regex, ordered_patterns, count, other, When,
  CompiledRule, RulePack, LintContext, Diagnostic,
}
use hpc_client_gui.Lint.Index.{LineIndex, position}

-- `text.find(value)`, in a text that starts at the given offset.
unfoldable pub find_from : ℕ → Text → Text → Option ℕ
unfolding starts_with
find_from at value [] = if is_empty value then some at else none
find_from at value (c ∷ s) =
    let rest = find_from (at + 1) value s in if starts_with (c ∷ s) value then some at else rest

-- `text.find(value, cursor)`
unfoldable pub find : Text → Text → ℕ → Option ℕ
unfolding find_from
find text value cursor =
    if leb cursor (length text) then find_from cursor value (drop cursor text) else none

-- `text.count(value)` for a value that is not empty, with the code points still to be passed over.
unfoldable pub count_from : ℕ → Text → Text → ℕ
unfolding starts_with
count_from skip value [] = 0
count_from (suc skip) value (c ∷ s) = count_from skip value s
count_from zero value (c ∷ s) =
    let hit = count_from (length value - 1) value s in
    let rest = count_from 0 value s in if starts_with (c ∷ s) value then hit + 1 else rest

abbrev pub is_break : ℕ → Bool
is_break c =
    (leb 10 c && leb c 13) || (leb 28 c && leb c 30) || c == 0x85 || c == 0x2028 || c == 0x2029

-- `text.splitlines()`, behind the start of a line; a line feed behind a carriage return is passed
-- over.
unfoldable pub lines_from : Bool → Text → Text → List Text
lines_from after_return line [] = if is_empty line then [] else line ∷ []
lines_from after_return line (c ∷ s) =
    let same_break = lines_from false [] s in
    let next = lines_from (c == 13) [] s in
    let longer = lines_from false (line ++ (c ∷ [])) s in
    if after_return && c == 10 then same_break else if is_break c then line ∷ next else longer

unfoldable pub split_lines : Text → List Text
unfolding lines_from
split_lines text = lines_from false [] text

-- `_target_version_matches`
unfoldable pub target_version_matches : When → Option LintContext → Bool
unfolding starts_with text_eq
target_version_matches when context =
    let target = when.target_version in
    if is_empty target then true else elim context [
      | none ↦ false
      | some ctx ↦
          let current = ctx.application_version in
          if is_empty current
          then false
          else if starts_with (reverse target) (codes "*.")
          then starts_with current (take (length target - 1) target)
          else text_eq current target || starts_with current (target ++ codes ".")
    ]

-- `_remote_platform_matches`
unfoldable pub remote_platform_matches : When → Option LintContext → Bool
unfolding find lower
remote_platform_matches when context =
    if is_empty when.remote_platform then true else elim context [
      | none ↦ false
      | some ctx ↦
          if is_empty ctx.remote_platform
          then false
          else is_some (find (lower ctx.remote_platform) (lower when.remote_platform) 0)
    ]

-- `_rule_conditions_match`
unfoldable pub rule_conditions_match : When → Option LintContext → Bool
unfolding target_version_matches remote_platform_matches
rule_conditions_match when context =
    target_version_matches when context && remote_platform_matches when context

-- `diagnostic`
unfoldable pub diagnostic : CompiledRule → RulePack → Option (ℕ × ℕ) → Diagnostic
diagnostic rule pack place = record {
  rule_id = rule.id;
  severity = rule.severity;
  message = rule.message;
  category = rule.category;
  source = pack.linter_id;
  line = elim place [ none ↦ none | some p ↦ some p.0 ];
  column = elim place [ none ↦ none | some p ↦ some p.1 ];
  explanation = rule.explanation;
  suggested_fix = rule.suggested_fix;
  documentation_url = rule.documentation_url;
  plugin_id = pack.plugin_id;
  plugin_version = pack.plugin_version;
  target_version = rule.conditions.target_version;
}

abbrev pub first_value : List Text → Text
first_value [] = []
first_value (v ∷ vs) = v

-- The loop over the matches of a pattern: the places of the diagnostics.
unfoldable pub regex_loop : LineIndex → ℕ → ℕ → List ℕ → List (ℕ × ℕ)
regex_loop index cap emitted [] = []
regex_loop index cap emitted (start ∷ starts) =
    let rest = regex_loop index cap (emitted + 1) starts in
    position index start ∷ (if leb cap (emitted + 1) then [] else rest)

-- The loop over the lines.
unfoldable pub line_loop : (Text → List ℕ) → ℕ → ℕ → ℕ → List Text → List (ℕ × ℕ)
line_loop matches cap emitted number [] = []
line_loop matches cap emitted number (line ∷ lines) =
    let missed = line_loop matches cap emitted (number + 1) lines in
    let rest = line_loop matches cap (emitted + 1) (number + 1) lines in
    elim (matches line) [
      | [] ↦ missed
      | start ∷ starts ↦ (number, start + 1) ∷ (if leb cap (emitted + 1) then [] else rest)
    ]

-- The loop over the patterns that are to stand in order: the place of the last that was found,
-- and, where one is not found behind it, whether that is missing from the text.
unfoldable pub ordered_loop :
    LineIndex → Text → ℕ → Option (ℕ × ℕ) → List Text → Option (ℕ × ℕ) × Option Bool
ordered_loop index text cursor last [] = (last, none)
ordered_loop index text cursor last (value ∷ values) = elim (find text value cursor) [
  | none ↦ (last, some (not (is_some (find text value 0))))
  | some found ↦ ordered_loop index text (found + length value) (some (position index found)) values
]

abbrev pub placed : List (ℕ × ℕ) → List (Option (ℕ × ℕ))
placed [] = []
placed (p ∷ ps) = some p ∷ placed ps

abbrev pub is_above : ℕ → Option ℕ → Bool
is_above n none = false
is_above n (some maximum) = ltb maximum n

abbrev pub or_one : Option ℕ → ℕ
or_one none = 1
or_one (some n) = n

-- Whether the diagnostic of a broken order is given, by what the loop found.
abbrev pub is_reported : Bool → Option Bool → Bool
is_reported require_all none = false
is_reported require_all (some missing) = require_all || not missing

-- `pattern.finditer(text)`: the starts of the matches.
module _ (finditer : Text → Text → List ℕ) where
  -- `_iter_rule_diagnostics`: the places of the diagnostics, in all else of which a rule's are
  -- alike.
  unfoldable pub rule_places :
      Text → LineIndex → CompiledRule → ℕ → RuleKind → List (Option (ℕ × ℕ))
  rule_places text index rule cap contains =
      let value = first_value rule.values in
      if not (is_empty value) && not (is_some (find text value 0)) then none ∷ [] else []
  rule_places text index rule cap not_contains =
      let value = first_value rule.values in
      if is_empty value
      then []
      else elim (find text value 0) [ none ↦ [] | some start ↦ some (position index start) ∷ [] ]
  rule_places text index rule cap regex = elim rule.values [
    | [] ↦ []
    | pattern ∷ values ↦ placed (regex_loop index cap 0 (finditer pattern text))
  ]
  rule_places text index rule cap line_regex = elim rule.values [
    | [] ↦ []
    | pattern ∷ values ↦ placed (line_loop (finditer pattern) cap 0 1 (split_lines text))
  ]
  rule_places text index rule cap ordered_patterns =
      let (last, broken) = ordered_loop index text 0 none rule.values in
      if not (is_empty rule.values) && is_reported rule.require_all broken then last ∷ [] else []
  rule_places text index rule cap count =
      let value = first_value rule.values in
      let occurrences = if is_empty value then 0 else count_from 0 value text in
      if ltb occurrences (or_one rule.min_count) || is_above occurrences rule.max_count
      then none ∷ []
      else []
  rule_places text index rule cap other = []

  unfoldable pub rule_diagnostics : Text → LineIndex → RulePack → ℕ → CompiledRule → List Diagnostic
  unfolding rule_places diagnostic
  rule_diagnostics text index pack cap rule =
      map (diagnostic rule pack) (rule_places text index rule cap rule.kind)

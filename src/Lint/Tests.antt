-- ===== src/Lint/Tests.antt =====
-- A small rule pack on a small script.
use mathlib.Core.List.{Perm}
use hpc_client_gui.Base.{
  ℕ, ◌≤◌, ◌≡◌, ◌↔◌, refl, List, [], ◌∷◌, ◌++◌, true, none, some, length, take, ltb, if◌then◌else◌,
}
use hpc_client_gui.Base.Text.{Text, codes}
use hpc_client_gui.Lint.{
  error, RuleKind, contains, not_contains, CompiledRule, RulePack, Diagnostic,
}
use hpc_client_gui.Lint.Index.{line_index, position, search, newline_ends}
use hpc_client_gui.Lint.Index.Position.{walk, position-walk}
use hpc_client_gui.Lint.Rules.{find, ordered_loop}
use hpc_client_gui.Lint.Engine.{lint_text, max_lint_text_bytes, encoded_size, sorted}
use hpc_client_gui.Lint.Ordered.{InOrder, ordered_loop-kept}
use hpc_client_gui.Lint.Engine.Caps.{all_diagnostics, Ascends, lint_text-first}

abbrev script : Text
script = codes "#!/bin/bash" ++ (10 ∷ codes "sleep 5" ++ (10 ∷ codes "rm -rf x"))

abbrev rule : Text → RuleKind → List Text → CompiledRule
rule name k vs = record {
  id = name;
  severity = error;
  kind = k;
  message = [];
  values = vs;
  category = [];
  explanation = [];
  suggested_fix = [];
  documentation_url = [];
  conditions = record { target_version = []; remote_platform = [] };
  min_count = none;
  max_count = none;
  require_all = true;
}

abbrev pack : RulePack
pack = record {
  linter_id = codes "bash";
  plugin_id = [];
  plugin_version = [];
  rules =
      rule (codes "rm") not_contains (codes "rm -rf" ∷ [])
      ∷ rule (codes "sleep") not_contains (codes "sleep" ∷ [])
      ∷ rule (codes "set") contains (codes "set -e" ∷ [])
      ∷ [];
}

abbrev no_matches : Text → Text → List ℕ
no_matches pattern text = []

third_line : position (line_index script) 20 ≡ (3, 1)
unfolding position line_index search newline_ends
third_line = refl

behind_the_end : position (line_index script) 200 ≡ (3, 9)
unfolding position line_index search newline_ends
behind_the_end = refl

found_in_order :
    ordered_loop (line_index script) script 0 none (codes "sleep" ∷ codes "rm" ∷ [])
    ≡ (some (3, 1), none)
unfolding ordered_loop find position line_index search newline_ends
found_in_order = refl

position-walk_example : position (line_index script) 20 ≡ walk (take 20 script) (1, 1)
position-walk_example = position-walk script 20

abbrev first_two : List Diagnostic
first_two = take 2 (all_diagnostics no_matches script (line_index script) pack none 100 pack.rules)

lint_text-first_example :
    (lint_text no_matches script pack none 100 2
      ≡ (if ltb max_lint_text_bytes (encoded_size script) then none else some (sorted first_two)))
    × Perm (sorted first_two) first_two
    × Ascends (sorted first_two)
    × (length (sorted first_two) ≤ 2)
lint_text-first_example = lint_text-first no_matches script pack none 100 2

ordered_loop-kept_example :
    ((ordered_loop (line_index script) script 0 none (codes "sleep" ∷ codes "rm" ∷ [])).1 ≡ none)
    ↔ InOrder script 0 (codes "sleep" ∷ codes "rm" ∷ [])
ordered_loop-kept_example =
    ordered_loop-kept (line_index script) script (codes "sleep" ∷ codes "rm" ∷ [])

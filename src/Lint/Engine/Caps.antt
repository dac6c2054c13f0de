-- ===== src/Lint/Engine/Caps.antt =====
-- The caps on the diagnostics of a text, and their order.
use mathlib.Core.List.{Perm}
use mathlib.Core.List.Perm
use hpc_client_gui.Base.{
  ℕ, zero, suc, ◌+◌, ◌≤◌, ◌≡◌, refl, sym, ap, ◌∙◌, List, [], ◌∷◌, ◌++◌, true, false, leb, ltb,
  if◌then◌else◌, length, take, max, length-append, length-take-le, take_all, take-append_length,
  append-nil, append_assoc, Option, none, some, arith, Bool-cases, inl, inr,
}
use hpc_client_gui.Base.Text.{Text}
use hpc_client_gui.Lint.{CompiledRule, RulePack, LintContext, Diagnostic}
use hpc_client_gui.Lint.Index.{LineIndex, line_index}
use hpc_client_gui.Lint.Rules.{rule_conditions_match, rule_diagnostics}
use hpc_client_gui.Lint.Engine.{
  encoded_size, max_lint_text_bytes, text_less, key_less, insert, sorted, add_each, rules_loop,
  lint_text,
}

-- The loop over a rule's diagnostics takes as many as there is room for, at least one.
add_each-take :
    (total : ℕ) (ds es : List Diagnostic)
    → length ds + 1 ≤ max 1 total
    → ((add_each total ds es).0 ≡ take (max 1 total) (ds ++ es))
      × ((add_each total ds es).1 ≡ leb (max 1 total) (length (ds ++ es)))
unfolding add_each
add_each-take total ds [] h = (
  sym (ap (take (max 1 total)) (append-nil ds) ∙ take_all (max 1 total) ds (omega arith)),
  ground (arith, append-nil ds),
)
add_each-take total ds (e ∷ es) h =
    let more = ds ++ (e ∷ []) in
    ground (
      arith,
      length-append ds (e ∷ []),
      append_assoc ds (e ∷ []) es,
      length-append more es,
      take-append_length more es,
      add_each-take total more es,
    )

take-long : (n : ℕ) (xs ys : List Diagnostic) → n ≤ length xs → take n (xs ++ ys) ≡ take n xs
take-long zero xs ys h = refl
take-long (suc n) [] ys h = absurd (omega arith)
take-long (suc n) (x ∷ xs) ys h = ap (λ t. x ∷ t) (take-long n xs ys (omega arith))

module _ (finditer : Text → Text → List ℕ) (text : Text) (index : LineIndex) (pack : RulePack)
    (context : Option LintContext) (per_rule : ℕ) where
  -- The diagnostics of the rules whose conditions hold, in the order of the rules.
  pub all_diagnostics : List CompiledRule → List Diagnostic
  all_diagnostics [] = []
  all_diagnostics (rule ∷ rules) =
      (if rule_conditions_match rule.conditions context
        then rule_diagnostics finditer text index pack per_rule rule
        else [])
      ++ all_diagnostics rules

  rules_loop-take :
      (total : ℕ) (ds : List Diagnostic) (rules : List CompiledRule)
      → length ds + 1 ≤ max 1 total
      → rules_loop finditer text index pack context per_rule total ds rules
        ≡ take (max 1 total) (ds ++ all_diagnostics rules)
  unfolding rules_loop all_diagnostics
  rules_loop-take total ds [] h =
      sym (ap (take (max 1 total)) (append-nil ds) ∙ take_all (max 1 total) ds (omega arith))
  rules_loop-take total ds (rule ∷ rules) h =
      let own = rule_diagnostics finditer text index pack per_rule rule in
      let both = add_each-take total ds own h in
      ground (
        arith,
        rules_loop-take total ds rules h,
        both,
        append_assoc ds own (all_diagnostics rules),
        take-long (max 1 total) (ds ++ own) (all_diagnostics rules),
        take_all (max 1 total) (ds ++ own),
        rules_loop-take total (ds ++ own) rules,
      )

-- The keys of the diagnostics ascend: none stands behind one of a greater key.
abbrev pub Ascends : List Diagnostic → Type 0
Ascends [] = Unit
Ascends (d ∷ []) = Unit
Ascends (d ∷ e ∷ es) = (key_less e d ≡ false) × Ascends (e ∷ es)

text_less-asym : (s t : Text) → text_less s t ≡ true → text_less t s ≡ false
unfolding text_less
text_less-asym s [] h = absurd (ground arith)
text_less-asym [] (b ∷ t) h = refl
text_less-asym (a ∷ s) (b ∷ t) h = ground (arith, text_less-asym s t)

key_less-asym : (d e : Diagnostic) → key_less d e ≡ true → key_less e d ≡ false
unfolding key_less
key_less-asym d e h = ground (arith, text_less-asym d.rule_id e.rule_id)

insert-Ascends : (d : Diagnostic) (es : List Diagnostic) → Ascends es → Ascends (insert d es)
unfolding insert
insert-Ascends d [] h = tt
insert-Ascends d (e ∷ []) h = ground (arith, key_less-asym e d)
insert-Ascends d (e ∷ f ∷ es) h = ground (arith, key_less-asym e d, insert-Ascends d (f ∷ es))

sorted-Ascends : (ds : List Diagnostic) → Ascends (sorted ds)
unfolding sorted
sorted-Ascends [] = tt
sorted-Ascends (d ∷ ds) = insert-Ascends d (sorted ds) (sorted-Ascends ds)

insert-Perm : (d : Diagnostic) (es : List Diagnostic) → Perm (insert d es) (d ∷ es)
unfolding insert
insert-Perm d [] = Perm.refl (d ∷ [])
insert-Perm d (e ∷ es) = elim (Bool-cases (key_less e d)) [
  | inl less ↦ rw less (Perm.trans (Perm.cons e (insert-Perm d es)) (Perm.swap d e es))
  | inr other ↦ rw other (Perm.refl (d ∷ e ∷ es))
]

sorted-Perm : (ds : List Diagnostic) → Perm (sorted ds) ds
unfolding sorted
sorted-Perm [] = Perm.refl []
sorted-Perm (d ∷ ds) = Perm.trans (insert-Perm d (sorted ds)) (Perm.cons d (sorted-Perm ds))

length-insert : (d : Diagnostic) (es : List Diagnostic) → length (insert d es) ≡ suc (length es)
unfolding insert
length-insert d [] = refl
length-insert d (e ∷ es) = ground (arith, length-insert d es)

length-sorted : (ds : List Diagnostic) → length (sorted ds) ≡ length ds
unfolding sorted
length-sorted [] = refl
length-sorted (d ∷ ds) = ground (arith, length-insert d (sorted ds), length-sorted ds)

-- A text of more than ten mebibytes is an error. Otherwise the result has the first diagnostics
-- of the rules whose conditions hold, as many as the total allows and at least one where there is
-- one, put into an order in which the keys ascend.
pub lint_text-first :
    (finditer : Text → Text → List ℕ) (text : Text) (pack : RulePack) (context : Option LintContext)
    (per_rule total : ℕ)
    → let first =
        take
          (max 1 total)
          (all_diagnostics finditer text (line_index text) pack context per_rule pack.rules) in
      (lint_text finditer text pack context per_rule total
        ≡ (if ltb max_lint_text_bytes (encoded_size text) then none else some (sorted first)))
      × Perm (sorted first) first
      × Ascends (sorted first)
      × (length (sorted first) ≤ max 1 total)
unfolding lint_text
lint_text-first finditer text pack context per_rule total =
    let all = all_diagnostics finditer text (line_index text) pack context per_rule pack.rules in
    let first = take (max 1 total) all in
    let loop =
      rules_loop-take finditer text (line_index text) pack context per_rule total [] pack.rules
        (omega arith) in
    (
      ground (arith, loop),
      sorted-Perm first,
      sorted-Ascends first,
      omega (arith, length-sorted first, length-take-le (max 1 total) all),
    )

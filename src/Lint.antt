-- ===== src/Lint.antt =====
-- src/hpc_gui/lint: the declarative lint engine, and the models of src/hpc_gui/lint/models.py. A text that
-- is missing is empty, which the code treats alike.
pub mod Index
pub mod Rules
pub mod Ordered
pub mod Engine
mod Tests
use hpc_client_gui.Base.{ℕ, List, Bool, Option}
use hpc_client_gui.Base.Text.{Text}

pub data Severity : Type 0 where
  error warning info : Severity

pub data RuleKind : Type 0 where
  contains not_contains regex line_regex ordered_patterns count other : RuleKind

-- The conditions of a rule.
pub record When : Type 0 where
  pub target_version : Text
  pub remote_platform : Text

pub record CompiledRule : Type 0 where
  pub id : Text
  pub severity : Severity
  pub kind : RuleKind
  pub message : Text
  pub values : List Text
  pub category : Text
  pub explanation : Text
  pub suggested_fix : Text
  pub documentation_url : Text
  pub conditions : When
  pub min_count : Option ℕ
  pub max_count : Option ℕ
  pub require_all : Bool

pub record RulePack : Type 0 where
  pub linter_id : Text
  pub plugin_id : Text
  pub plugin_version : Text
  pub rules : List CompiledRule

pub record LintContext : Type 0 where
  pub remote_platform : Text
  pub application_version : Text

pub record Diagnostic : Type 0 where
  pub rule_id : Text
  pub severity : Severity
  pub message : Text
  pub category : Text
  pub source : Text
  pub line : Option ℕ
  pub column : Option ℕ
  pub explanation : Text
  pub suggested_fix : Text
  pub documentation_url : Text
  pub plugin_id : Text
  pub plugin_version : Text
  pub target_version : Text

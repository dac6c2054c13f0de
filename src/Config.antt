-- ===== src/Config.antt =====
-- src/hpc_gui/config: profiles and settings, which are dictionaries of JSON values.
pub mod Jump
pub mod File
pub mod Settings
pub mod Migration
pub mod Profiles
pub mod FileManager
pub mod System
mod Tests
use hpc_client_gui.Base.{ℕ, List, [], ◌∷◌, Bool, true, false, if◌then◌else◌, Option, none, some}
use hpc_client_gui.Base.Text.{Text, codes, strip}
use hpc_client_gui.Base.Json.{Json, text, as_text, is_true}

-- `str(value)`: `repr` is what Python makes of a value that is no string.
abbrev pub str_of : (Json → Text) → Json → Text
str_of repr value = elim (as_text value) [ none ↦ repr value | some t ↦ t ]

-- `str(value or "")`
abbrev pub str_or_empty : (Json → Text) → Json → Text
str_or_empty repr value = if is_true value then str_of repr value else []

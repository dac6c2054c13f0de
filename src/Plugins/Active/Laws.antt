-- ===== src/Plugins/Active/Laws.antt =====
-- The active versions after an activation that succeeds or fails.
use hpc_client_gui.Base.{not, ◌||◌, if◌then◌else◌, Option, none, some}
use hpc_client_gui.Base.Text.{Text, codes, text_eq}
use hpc_client_gui.Base.Json.{Json}
use hpc_client_gui.Plugins.Active.{is_version}

-- A value that is kept as a version.
abbrev kept : Text → Option Json → Option Json
kept key none = none
kept key (some v) = if text_eq key (codes "plugin_api") || not (is_version v) then none else some v

-- ===== src/Plugins/Active/Tests.antt =====
-- Activations at a concrete file.
use hpc_client_gui.Base.{◌≡◌, refl, Bool, false, some}
use hpc_client_gui.Base.Text.{codes, text_eq}
use hpc_client_gui.Base.Json.{text, Members, empty, member, get, put}
use hpc_client_gui.Plugins.Active.{
  ActiveFile, active_of, source_of, read_active_versions, write_active_versions, set_pointer,
  activate_version,
}

-- The flat layout of older versions.
abbrev flat : ActiveFile
flat =
    some (member (codes "a") (text (codes "1.0")) (member (codes "b") (text (codes "2.0")) empty))

abbrev none_loads : Members → Bool
none_loads active = false

restored :
    get
      (codes "a")
      (read_active_versions (activate_version none_loads (codes "a") (codes "1.1") flat).0)
    ≡ some (text (codes "1.0"))
unfolding activate_version set_pointer read_active_versions write_active_versions active_of
    source_of get text_eq put
restored = refl

-- ===== src/Config/Jump/Tests.antt =====
-- Jump-host settings at concrete values.
use hpc_client_gui.Base.{◌≡◌, refl, true, if◌then◌else◌}
use hpc_client_gui.Base.Text.{Text, codes, one_of}
use hpc_client_gui.Base.Int.{pos}
use hpc_client_gui.Base.Json.{
  Json, null, bool, int, text, object, Members, empty, member, get, merge, to_int,
}
use hpc_client_gui.Config.Jump.{coerce_port, normalize_jump_host_settings, patch_jump_host_settings}
use hpc_client_gui.Config.Jump.Schema.{IsJumpHost, normalize_jump_host_settings-IsJumpHost}
use hpc_client_gui.Config.Jump.Patch.{jump_fields, patch_jump_host_settings-get}

abbrev no_text : Json → Text
no_text value = codes "x"

abbrev stored : Members
stored =
    member (codes "host") (text (codes " bastion "))
      (member (codes "port") (int (pos 70000)) (member (codes "note") null empty))

abbrev change : Members
change = member (codes "enabled") (bool true) (member (codes "port") (int (pos 2222)) empty)

large_port : coerce_port (int (pos 70000)) ≡ pos 22
unfolding coerce_port to_int
large_port = refl

normalize_jump_host_settings-IsJumpHost_example :
    IsJumpHost (normalize_jump_host_settings no_text (object stored))
normalize_jump_host_settings-IsJumpHost_example =
    normalize_jump_host_settings-IsJumpHost no_text (object stored)

patch_jump_host_settings-get_example :
    get (codes "note") (patch_jump_host_settings no_text (object stored) change) ≡ (
      if one_of (codes "note") jump_fields
      then get (codes "note") (normalize_jump_host_settings no_text (object (merge stored change)))
      else get (codes "note") stored)
patch_jump_host_settings-get_example =
    patch_jump_host_settings-get no_text (object stored) change (codes "note")

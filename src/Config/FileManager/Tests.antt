-- ===== src/Config/FileManager/Tests.antt =====
-- File-manager settings at concrete values.
use hpc_client_gui.Base.{◌≡◌, refl, true, some}
use hpc_client_gui.Base.Text.{codes, text_eq}
use hpc_client_gui.Base.Json.{
  null, bool, text, object, Members, empty, member, get, get_or_null, merge, as_object,
}
use hpc_client_gui.Base.Json.Laws.{IsDict}
use hpc_client_gui.Config.FileManager.{normalize_sync, patch_file_manager_settings}
use hpc_client_gui.Config.FileManager.Laws.{patch_file_manager_settings-get}

abbrev roots : Members
roots =
    member (codes "local_root") (text (codes "/a"))
      (member (codes "remote_root") (text (codes "/b")) empty)

abbrev stored : Members
stored = member (codes "sync") (object roots) (member (codes "later") null empty)

abbrev enabling : Members
enabling = member (codes "enabled") (bool true) empty

abbrev change : Members
change = member (codes "sync") (object enabling) empty

change-IsDict : IsDict change
unfolding get
change-IsDict = (refl, tt)

stored_sync : as_object (get_or_null (get (codes "sync") stored)) ≡ some roots
unfolding get text_eq
stored_sync = refl

change_sync : get (codes "sync") change ≡ some (object enabling)
unfolding get text_eq
change_sync = refl

-- A patch that enables the synchronisation keeps the roots that are stored.
sync_kept :
    get (codes "sync") (patch_file_manager_settings (object stored) change)
    ≡ some (object (normalize_sync (object (merge roots enabling))))
sync_kept =
    (patch_file_manager_settings-get (object stored) change (codes "later") roots enabling
      change-IsDict stored_sync change_sync).1

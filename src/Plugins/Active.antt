-- ===== src/Plugins/Active.antt =====
-- src/hpc_gui/plugins/storage.py and state.py: which version of a plugin is active. `loads` tells
-- whether the loader, given the active versions, loads the plugin in the version asked for.
pub mod Laws
mod Tests
use hpc_client_gui.Base.{
  ℕ, List, [], ◌∷◌, Bool, true, false, not, ◌&&◌, ◌||◌, is_empty, if◌then◌else◌, Option, none, some,
}
use hpc_client_gui.Base.Text.{Text, codes, text_eq}
use hpc_client_gui.Base.Int.{pos}
use hpc_client_gui.Base.Json.{
  Json, int, text, object, Members, empty, member, get, get_or_null, put, pop, as_object, as_text,
}

-- `active.json`: its dictionary, or `none` where it is missing, cannot be read or is none.
abbrev pub ActiveFile : Type 0
ActiveFile = Option Members

abbrev pub is_version : Json → Bool
is_version value = elim (as_text value) [ none ↦ false | some t ↦ not (is_empty t) ]

-- The loop of `read_active_versions`.
unfoldable pub active_of : Members → Members
active_of empty = empty
active_of (member key version source) =
    let rest = active_of source in
    if text_eq key (codes "plugin_api") || not (is_version version)
    then rest
    else member key version rest

-- The dictionary with the versions, in the layout of today or the flat one.
abbrev pub inner_or : Members → Option Members → Members
inner_or value none = value
inner_or value (some inner) = inner

unfoldable pub source_of : ActiveFile → Members
source_of none = empty
source_of (some value) = inner_or value (as_object (get_or_null (get (codes "active") value)))

-- `read_active_versions`
unfoldable pub read_active_versions : ActiveFile → Members
read_active_versions file = active_of (source_of file)

-- `write_active_versions`
unfoldable pub write_active_versions : Members → ActiveFile
write_active_versions active =
    some (member (codes "plugin_api") (int (pos 1)) (member (codes "active") (object active) empty))

-- `_set`; `none` deactivates.
unfoldable pub set_pointer : Text → Option Json → ActiveFile → ActiveFile
set_pointer plugin_id none file = write_active_versions (pop plugin_id (read_active_versions file))
set_pointer plugin_id (some version) file =
    write_active_versions (put plugin_id version (read_active_versions file))

-- `activate_version`: the file after it, and whether it returns or raises the ValueError.
unfoldable pub activate_version : (Members → Bool) → Text → Text → ActiveFile → ActiveFile × Bool
activate_version loads plugin_id version file =
    let previous = get plugin_id (read_active_versions file) in
    let changed = set_pointer plugin_id (some (text version)) file in
    if loads (read_active_versions changed)
    then (changed, true)
    else (set_pointer plugin_id previous changed, false)

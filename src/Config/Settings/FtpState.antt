-- ===== src/Config/Settings/FtpState.antt =====
-- src/hpc_gui/config/storage.py: the state of the transfer window. `lower` is exact where its result
-- is compared with the two words.
pub mod Laws
use Prim.Native.String.{String}
use hpc_client_gui.Base.{
  ℕ, ◌≡◌, refl, ap, ◌∙◌, sym, List, [], ◌∷◌, Bool, true, false, if◌then◌else◌, Option, none, some,
  arith, Option-cases, Bool-cases, inl, inr,
}
use hpc_client_gui.Base.Text.{Text, codes, lower, one_of, text_eq, text_eq_refl}
use hpc_client_gui.Base.Int.{ℤ, pos, negsuc, int_lt}
use hpc_client_gui.Base.Json.{
  Json, int, text, array, Elements, nothing, element, Members, empty, member, get, get_or, put,
  merge, to_int, as_array,
}
use hpc_client_gui.Config.{str_of}
use hpc_client_gui.Config.File.{ConfigFile, load_settings, update_settings}
use hpc_client_gui.Config.File.Laws.{load_settings-update_settings}
use hpc_client_gui.Config.Settings.{setting}
use hpc_client_gui.Base.Json.Laws.{get-put}

-- `max(1, z)`
abbrev pub at_least_one : ℤ → ℤ
at_least_one z = if int_lt (pos 1) z then z else pos 1

-- The two sizes of a list, one each where it is not a list of two numbers.
abbrev pub both_sizes : Option ℤ → Option ℤ → ℤ × ℤ
both_sizes none b = (pos 1, pos 1)
both_sizes (some a) none = (pos 1, pos 1)
both_sizes (some a) (some b) = (at_least_one a, at_least_one b)

unfoldable pub sizes_of : Json → ℤ × ℤ
sizes_of value = elim (as_array value) [
  | none ↦ (pos 1, pos 1)
  | some nothing ↦ (pos 1, pos 1)
  | some (element a nothing) ↦ (pos 1, pos 1)
  | some (element a (element b nothing)) ↦ both_sizes (to_int a) (to_int b)
  | some (element a (element b (element c more))) ↦ (pos 1, pos 1)
]

abbrev pub remotes : List String
remotes = "scratch" ∷ "home" ∷ []

abbrev pub known_remote : Text → Text
known_remote active = if one_of active remotes then active else codes "scratch"

pub record FtpState : Type 0 where
  pub local_dir : Text
  pub active_remote : Text
  pub splitter_sizes : ℤ × ℤ

module _ (repr : Json → Text) where
  unfoldable pub get_ftp_state : ConfigFile → FtpState
  get_ftp_state file = record {
    local_dir = str_of repr (setting (codes "ftp_local_dir") (text []) file);
    active_remote =
        known_remote
          (lower (str_of repr (setting (codes "ftp_active_remote") (text (codes "scratch")) file)));
    splitter_sizes = sizes_of (
        setting (codes "ftp_splitter_sizes")
          (array (element (int (pos 1)) (element (int (pos 1)) nothing))) file);
  }

abbrev pub dir_patch : Option Text → Members
dir_patch none = empty
dir_patch (some dir) = member (codes "ftp_local_dir") (text dir) empty

abbrev pub remote_patch : Option Text → Members → Members
remote_patch none patch = patch
remote_patch (some active) patch =
    put (codes "ftp_active_remote") (text (known_remote (lower active))) patch

abbrev pub sizes_patch : Option (List ℤ) → Members → Members
sizes_patch none patch = patch
sizes_patch (some (a ∷ b ∷ [])) patch =
    put (codes "ftp_splitter_sizes")
      (array (element (int (at_least_one a)) (element (int (at_least_one b)) nothing))) patch
sizes_patch (some []) patch = patch
sizes_patch (some (a ∷ [])) patch = patch
sizes_patch (some (a ∷ b ∷ c ∷ more)) patch = patch

-- `update_ftp_state`
unfoldable pub update_ftp_state :
    Option Text → Option Text → Option (List ℤ) → ConfigFile → Members × ConfigFile
update_ftp_state local_dir active_remote splitter_sizes file =
    update_settings (sizes_patch splitter_sizes (remote_patch active_remote (dir_patch local_dir)))
      file

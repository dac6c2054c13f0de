-- ===== src/Config/Settings/Associations.antt =====
-- src/hpc_gui/config/storage.py: the programs that files of an extension are opened with. `lower`
-- is `str.lower`, of all of Unicode, as a parameter.
pub mod Laws
pub mod Changes
use hpc_client_gui.Base.{
  ℕ, List, [], ◌∷◌, ◌++◌, Bool, true, false, not, ◌&&◌, is_empty, if◌then◌else◌, Option, none, some,
}
use hpc_client_gui.Base.Text.{Text, codes, strip, starts_with}
use hpc_client_gui.Base.Json.{
  Json, text, object, Members, empty, member, get, get_or, put, pop, as_object, as_text,
}
use hpc_client_gui.Config.{str_of, str_or_empty}
use hpc_client_gui.Config.File.{ConfigFile, load_settings}
use hpc_client_gui.Config.Settings.{setting, set_one}

abbrev pub program_or_empty : Option Json → Text
program_or_empty none = []
program_or_empty (some program) = elim (as_text program) [ none ↦ [] | some p ↦ p ]

abbrev pub changed_associations : Text → Text → Members → Members
changed_associations normalized program associations =
    if is_empty normalized
    then associations
    else if is_empty program
    then pop normalized associations
    else put normalized (text program) associations

module _ (repr : Json → Text) (lower : Text → Text) where
  -- `_normalize_file_extension`
  unfoldable pub normalize_file_extension : Json → Text
  unfolding strip starts_with
  normalize_file_extension extension =
      let value = lower (strip (str_or_empty repr extension)) in
      if is_empty value then [] else if starts_with value (codes ".") then value else b'.' ∷ value

  -- One entry of the loop of `get_file_associations`.
  abbrev pub add_association : Text → Json → Members → Members
  add_association extension program associations =
      let normalized = normalize_file_extension (text extension) in
      let program_path = strip (str_or_empty repr program) in
      if not (is_empty normalized) && not (is_empty program_path)
      then put normalized (text program_path) associations
      else associations

  unfoldable pub collect : Members → Members → Members
  collect associations empty = associations
  collect associations (member extension program rest) =
      collect (add_association extension program associations) rest

  unfoldable pub get_file_associations : ConfigFile → Members
  get_file_associations file =
      elim (as_object (setting (codes "file_associations") (object empty) file)) [
        | none ↦ empty
        | some stored ↦ collect empty stored
      ]

  unfoldable pub get_file_association : Json → ConfigFile → Text
  get_file_association extension file =
      let normalized = normalize_file_extension extension in
      if is_empty normalized
      then []
      else program_or_empty (get normalized (get_file_associations file))

  unfoldable pub set_file_association : Json → Json → ConfigFile → Members × ConfigFile
  set_file_association extension program_path file =
      let associations =
        changed_associations (normalize_file_extension extension)
          (strip (str_or_empty repr program_path)) (get_file_associations file) in
      (associations, set_one (codes "file_associations") (object associations) file)

  unfoldable pub clear_file_association : Json → ConfigFile → Members × ConfigFile
  clear_file_association extension file =
      let associations =
        changed_associations (normalize_file_extension extension) [] (get_file_associations file) in
      (associations, set_one (codes "file_associations") (object associations) file)

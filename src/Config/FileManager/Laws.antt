-- ===== src/Config/FileManager/Laws.antt =====
-- What a patch of the file-manager settings changes and what it keeps.
use Prim.Native.String.{String}
use hpc_client_gui.Base.{◌≡◌, refl, ap, ◌∙◌, List, [], ◌∷◌, if◌then◌else◌, some, arith}
use hpc_client_gui.Base.Text.{Text, codes, text_eq, one_of}
use hpc_client_gui.Base.Json.{
  Json, bool, text, object, Members, get, put, merge, get_or_null, as_object, is_true,
}
use hpc_client_gui.Base.Json.Laws.{
  get-put, get-put_same, get-merge, get_last-get, or_else, IsDict, IsDict-put,
}
use hpc_client_gui.Config.Jump.{object_or_empty}
use hpc_client_gui.Config.FileManager.{
  file_manager_defaults, normalize_sync, start_dir, normalize_file_manager_settings, incoming_of,
  patch_file_manager_settings,
}

abbrev pub file_manager_fields : List String
file_manager_fields = "local_start_dir" ∷ "comparison_enabled" ∷ "sync" ∷ []

module _ (d : Members) where
  get-normalized :
      (key : Text)
      → get key (normalize_file_manager_settings (object d)) ≡ (
          if text_eq key (codes "sync")
          then some (object (normalize_sync (get_or_null (get (codes "sync") d))))
          else if text_eq key (codes "comparison_enabled")
          then some (bool (is_true (get_or_null (get (codes "comparison_enabled") d))))
          else if text_eq key (codes "local_start_dir")
          then some (text (start_dir (get_or_null (get (codes "local_start_dir") d))))
          else get key file_manager_defaults)
  unfolding normalize_file_manager_settings
  get-normalized key =
      let sync = object (normalize_sync (get_or_null (get (codes "sync") d))) in
      let enabled = bool (is_true (get_or_null (get (codes "comparison_enabled") d))) in
      let dir = text (start_dir (get_or_null (get (codes "local_start_dir") d))) in
      let first = put (codes "sync") sync file_manager_defaults in
      let second = put (codes "local_start_dir") dir first in
      ground (
        arith,
        get-put key (codes "sync") sync (put (codes "comparison_enabled") enabled second),
        get-put key (codes "comparison_enabled") enabled second,
        get-put key (codes "local_start_dir") dir first,
        get-put key (codes "sync") sync file_manager_defaults,
      )

  IsDict-normalized : IsDict (normalize_file_manager_settings (object d))
  unfolding normalize_file_manager_settings get text_eq
  IsDict-normalized = IsDict-put (codes "sync") _ _ (
      IsDict-put (codes "comparison_enabled") _ _ (
        IsDict-put (codes "local_start_dir") _ _
          (IsDict-put (codes "sync") _ file_manager_defaults (refl, (refl, tt)))))

  or_else-normalized :
      (key : Text) (base : Members)
      → or_else (get key (normalize_file_manager_settings (object d))) (get key base) ≡ (
          if one_of key file_manager_fields
          then get key (normalize_file_manager_settings (object d))
          else get key base)
  unfolding one_of get
  or_else-normalized key base = ground (arith, get-normalized key)

patched :
    (base laid : Members) (key : Text)
    → get key (merge base (normalize_file_manager_settings (object laid))) ≡ (
        if one_of key file_manager_fields
        then get key (normalize_file_manager_settings (object laid))
        else get key base)
patched base laid key =
    get-merge key base (normalize_file_manager_settings (object laid))
    ∙ ap (λ o. or_else o (get key base))
        (get_last-get key (normalize_file_manager_settings (object laid)) (IsDict-normalized laid))
    ∙ or_else-normalized laid key base

-- The patch with the stored fields of `sync` beneath its own.
incoming_of-both :
    (base patch stored new : Members)
    → as_object (get_or_null (get (codes "sync") base)) ≡ some stored
    → get (codes "sync") patch ≡ some (object new)
    → incoming_of base patch ≡ put (codes "sync") (object (merge stored new)) patch
incoming_of-both base patch stored new has_stored has_new =
    ground (arith, has_stored, ap (λ o. as_object (get_or_null o)) has_new)

sync-incoming :
    (base patch stored new : Members)
    → IsDict patch
    → as_object (get_or_null (get (codes "sync") base)) ≡ some stored
    → get (codes "sync") patch ≡ some (object new)
    → get (codes "sync") (merge base (incoming_of base patch)) ≡ some (object (merge stored new))
sync-incoming base patch stored new dict has_stored has_new =
    let both = put (codes "sync") (object (merge stored new)) patch in
    ap (λ d. get (codes "sync") (merge base d))
      (incoming_of-both base patch stored new has_stored has_new)
    ∙ get-merge (codes "sync") base both
    ∙ ap (λ o. or_else o (get (codes "sync") base))
        (get_last-get (codes "sync") both
            (IsDict-put (codes "sync") (object (merge stored new)) patch dict)
          ∙ get-put_same (codes "sync") (object (merge stored new)) patch)

-- After a patch of the file-manager settings, each of the three fields is that of the normalised
-- form of the settings with the patch laid over them, and any other key has the value it had.
-- Where both the settings and the patch have a dictionary `sync`, the result's is the normalised
-- form of the stored one with the patch's laid over it, so that the fields that the patch does not
-- name stay; the patch has no key twice, as any Python dictionary.
pub patch_file_manager_settings-get :
    (existing : Json) (patch : Members) (key : Text) (stored new : Members)
    → IsDict patch
    → as_object (get_or_null (get (codes "sync") (object_or_empty (as_object existing))))
      ≡ some stored
    → get (codes "sync") patch ≡ some (object new)
    → (get key (patch_file_manager_settings existing patch) ≡ (
        if one_of key file_manager_fields
        then get key (
            normalize_file_manager_settings (
              object (
                merge
                  (object_or_empty (as_object existing))
                  (incoming_of (object_or_empty (as_object existing)) patch))))
        else get key (object_or_empty (as_object existing))))
      × (get (codes "sync") (patch_file_manager_settings existing patch)
          ≡ some (object (normalize_sync (object (merge stored new)))))
unfolding patch_file_manager_settings one_of text_eq
patch_file_manager_settings-get existing patch key stored new dict has_stored has_new =
    let base = object_or_empty (as_object existing) in
    let laid = merge base (incoming_of base patch) in
    (
      patched base laid key,
      patched base laid (codes "sync")
          ∙ get-normalized laid (codes "sync")
          ∙ ap (λ o. some (object (normalize_sync (get_or_null o))))
              (sync-incoming base patch stored new dict has_stored has_new),
    )

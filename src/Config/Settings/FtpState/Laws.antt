-- ===== src/Config/Settings/FtpState/Laws.antt =====
-- The state of the transfer window after it is updated.
use hpc_client_gui.Base.{
  ◌≡◌, refl, ap, ◌∙◌, List, [], ◌∷◌, if◌then◌else◌, Option, none, some, arith,
}
use hpc_client_gui.Base.Text.{Text, codes, lower, one_of, text_eq, text_eq_iff}
use hpc_client_gui.Base.Int.{ℤ, pos}
use hpc_client_gui.Base.Json.{
  Json, int, text, array, nothing, element, Members, get, get_or, to_int,
}
use hpc_client_gui.Base.Json.Laws.{
  get-put, get_last, get_last-get, get-merge, or_else, IsDict, IsDict-put,
}
use hpc_client_gui.Config.{str_of}
use hpc_client_gui.Config.File.{ConfigFile, load_settings}
use hpc_client_gui.Config.File.Laws.{load_settings-update_settings}
use hpc_client_gui.Config.Settings.{setting}
use hpc_client_gui.Config.Settings.FtpState.{
  at_least_one, sizes_of, known_remote, get_ftp_state, dir_patch, remote_patch, sizes_patch,
  update_ftp_state,
}

abbrev patch_of : Option Text → Option Text → Option (List ℤ) → Members
patch_of dir remote sizes = sizes_patch sizes (remote_patch remote (dir_patch dir))

IsDict-dir_patch : (dir : Option Text) → IsDict (dir_patch dir)
unfolding get
IsDict-dir_patch none = tt
IsDict-dir_patch (some d) = (refl, tt)

IsDict-remote_patch :
    (remote : Option Text) (d : Members) → IsDict d → IsDict (remote_patch remote d)
IsDict-remote_patch none d h = h
IsDict-remote_patch (some a) d h =
    IsDict-put (codes "ftp_active_remote") (text (known_remote (lower a))) d h

IsDict-sizes_patch :
    (sizes : Option (List ℤ)) (d : Members) → IsDict d → IsDict (sizes_patch sizes d)
IsDict-sizes_patch none d h = h
IsDict-sizes_patch (some []) d h = h
IsDict-sizes_patch (some (a ∷ [])) d h = h
IsDict-sizes_patch (some (a ∷ b ∷ [])) d h = IsDict-put (codes "ftp_splitter_sizes") _ d h
IsDict-sizes_patch (some (a ∷ b ∷ c ∷ more)) d h = h

-- The new values of the three settings.
abbrev pub stored_dir : Option Text → Option Json
stored_dir none = none
stored_dir (some d) = some (text d)

abbrev pub stored_remote : Option Text → Option Json
stored_remote none = none
stored_remote (some a) = some (text (known_remote (lower a)))

abbrev pub stored_sizes : Option (List ℤ) → Option Json
stored_sizes none = none
stored_sizes (some []) = none
stored_sizes (some (a ∷ [])) = none
stored_sizes (some (a ∷ b ∷ [])) =
    some (array (element (int (at_least_one a)) (element (int (at_least_one b)) nothing)))
stored_sizes (some (a ∷ b ∷ c ∷ more)) = none

get-sizes_patch :
    (key : Text) (sizes : Option (List ℤ)) (d : Members)
    → get key (sizes_patch sizes d) ≡ (
        if text_eq key (codes "ftp_splitter_sizes")
        then or_else (stored_sizes sizes) (get key d)
        else get key d)
get-sizes_patch key none d = ground arith
get-sizes_patch key (some []) d = ground arith
get-sizes_patch key (some (a ∷ [])) d = ground arith
get-sizes_patch key (some (a ∷ b ∷ [])) d =
    get-put key (codes "ftp_splitter_sizes")
      (array (element (int (at_least_one a)) (element (int (at_least_one b)) nothing))) d
get-sizes_patch key (some (a ∷ b ∷ c ∷ more)) d = ground arith

get-remote_patch :
    (key : Text) (remote : Option Text) (d : Members)
    → get key (remote_patch remote d) ≡ (
        if text_eq key (codes "ftp_active_remote")
        then or_else (stored_remote remote) (get key d)
        else get key d)
get-remote_patch key none d = ground arith
get-remote_patch key (some a) d =
    get-put key (codes "ftp_active_remote") (text (known_remote (lower a))) d

get-dir_patch_own :
    (dir : Option Text) → get (codes "ftp_local_dir") (dir_patch dir) ≡ stored_dir dir
unfolding get text_eq
get-dir_patch_own none = refl
get-dir_patch_own (some d) = refl

get-dir_patch_remote : (dir : Option Text) → get (codes "ftp_active_remote") (dir_patch dir) ≡ none
unfolding get text_eq
get-dir_patch_remote none = refl
get-dir_patch_remote (some d) = refl

get-dir_patch_sizes : (dir : Option Text) → get (codes "ftp_splitter_sizes") (dir_patch dir) ≡ none
unfolding get text_eq
get-dir_patch_sizes none = refl
get-dir_patch_sizes (some d) = refl

or_else-none : (o : Option Json) → or_else o none ≡ o
or_else-none none = refl
or_else-none (some v) = refl

module _ (dir remote : Option Text) (sizes : Option (List ℤ)) where
  abbrev patch : Members
  patch = patch_of dir remote sizes

  patch-IsDict : IsDict patch
  patch-IsDict = IsDict-sizes_patch sizes _ (IsDict-remote_patch remote _ (IsDict-dir_patch dir))

  last_dir : get_last (codes "ftp_local_dir") patch ≡ stored_dir dir
  unfolding text_eq
  last_dir =
      get_last-get (codes "ftp_local_dir") patch patch-IsDict
      ∙ get-sizes_patch (codes "ftp_local_dir") sizes (remote_patch remote (dir_patch dir))
      ∙ get-remote_patch (codes "ftp_local_dir") remote (dir_patch dir)
      ∙ get-dir_patch_own dir

  last_remote : get_last (codes "ftp_active_remote") patch ≡ stored_remote remote
  unfolding text_eq
  last_remote =
      get_last-get (codes "ftp_active_remote") patch patch-IsDict
      ∙ get-sizes_patch (codes "ftp_active_remote") sizes (remote_patch remote (dir_patch dir))
      ∙ get-remote_patch (codes "ftp_active_remote") remote (dir_patch dir)
      ∙ ap (or_else (stored_remote remote)) (get-dir_patch_remote dir)
      ∙ or_else-none (stored_remote remote)

  last_sizes : get_last (codes "ftp_splitter_sizes") patch ≡ stored_sizes sizes
  unfolding text_eq
  last_sizes =
      get_last-get (codes "ftp_splitter_sizes") patch patch-IsDict
      ∙ get-sizes_patch (codes "ftp_splitter_sizes") sizes (remote_patch remote (dir_patch dir))
      ∙ ap (or_else (stored_sizes sizes)) (
          get-remote_patch (codes "ftp_splitter_sizes") remote (dir_patch dir)
          ∙ get-dir_patch_sizes dir)
      ∙ or_else-none (stored_sizes sizes)

  after :
      (key : Text) (o : Option Json) (default : Json) (file : ConfigFile)
      → get_last key patch ≡ o
      → setting key default (update_ftp_state dir remote sizes file).1
        ≡ get_or default (or_else o (get key (load_settings file)))
  unfolding update_ftp_state
  after key o default file e =
      ap (λ st. get_or default (get key st)) (load_settings-update_settings patch file)
      ∙ ap (get_or default) (get-merge key (load_settings file) patch)
      ∙ ap (λ l. get_or default (or_else l (get key (load_settings file)))) e

known_remote-again : (a : Text) → known_remote (lower (known_remote a)) ≡ known_remote a
unfolding one_of text_eq lower
known_remote-again a = ground (arith, text_eq_iff a (codes "scratch"), text_eq_iff a (codes "home"))

at_least_one-again : (z : ℤ) → at_least_one (at_least_one z) ≡ at_least_one z
at_least_one-again z = ground arith

-- The part of the state that a value given replaces.
abbrev pub dir_after : Option Text → Text → Text
dir_after none old = old
dir_after (some d) old = d

abbrev pub remote_after : Option Text → Text → Text
remote_after none old = old
remote_after (some a) old = known_remote (lower a)

abbrev pub sizes_after : Option (List ℤ) → ℤ × ℤ → ℤ × ℤ
sizes_after none old = old
sizes_after (some []) old = old
sizes_after (some (a ∷ [])) old = old
sizes_after (some (a ∷ b ∷ [])) old = (at_least_one a, at_least_one b)
sizes_after (some (a ∷ b ∷ c ∷ more)) old = old

module _ (repr : Json → Text) (file : ConfigFile) where
  shown_dir :
      (dir : Option Text) (o : Option Json)
      → str_of repr (get_or (text []) (or_else (stored_dir dir) o))
        ≡ dir_after dir (str_of repr (get_or (text []) o))
  shown_dir none o = refl
  shown_dir (some d) o = refl

  shown_remote :
      (remote : Option Text) (o : Option Json)
      → known_remote
          (lower (str_of repr (get_or (text (codes "scratch")) (or_else (stored_remote remote) o))))
        ≡ remote_after remote
            (known_remote (lower (str_of repr (get_or (text (codes "scratch")) o))))
  shown_remote none o = refl
  shown_remote (some a) o = known_remote-again (lower a)

  shown_sizes :
      (sizes : Option (List ℤ)) (default : Json) (o : Option Json)
      → sizes_of (get_or default (or_else (stored_sizes sizes) o))
        ≡ sizes_after sizes (sizes_of (get_or default o))
  unfolding sizes_of to_int
  shown_sizes none default o = refl
  shown_sizes (some []) default o = refl
  shown_sizes (some (a ∷ [])) default o = refl
  shown_sizes (some (a ∷ b ∷ [])) default o =
      ground (arith, at_least_one-again a, at_least_one-again b)
  shown_sizes (some (a ∷ b ∷ c ∷ more)) default o = refl

  -- After an update, each part of the state of the transfer window for which a value is given has
  -- that value, a remote side that is neither of the two counting as the scratch directory and a
  -- size below one as one, and each other part is as it was; a list of sizes that are not two is
  -- as none.
  pub get_ftp_state-update_ftp_state :
      (dir remote : Option Text) (sizes : Option (List ℤ))
      → let before = get_ftp_state repr file in
        let new = get_ftp_state repr (update_ftp_state dir remote sizes file).1 in
        (new.local_dir ≡ dir_after dir before.local_dir)
        × (new.active_remote ≡ remote_after remote before.active_remote)
        × (new.splitter_sizes ≡ sizes_after sizes before.splitter_sizes)
  unfolding get_ftp_state
  get_ftp_state-update_ftp_state dir remote sizes =
      let ones = array (element (int (pos 1)) (element (int (pos 1)) nothing)) in
      (
        ap (str_of repr) (
              after dir remote sizes (codes "ftp_local_dir") (stored_dir dir) (text []) file
                (last_dir dir remote sizes))
            ∙ shown_dir dir (get (codes "ftp_local_dir") (load_settings file)),
        ap (λ v. known_remote (lower (str_of repr v)))
              (after dir remote sizes (codes "ftp_active_remote") (stored_remote remote)
                (text (codes "scratch")) file (last_remote dir remote sizes))
            ∙ shown_remote remote (get (codes "ftp_active_remote") (load_settings file)),
        ap sizes_of (
              after dir remote sizes (codes "ftp_splitter_sizes") (stored_sizes sizes) ones file
                (last_sizes dir remote sizes))
            ∙ shown_sizes sizes ones (get (codes "ftp_splitter_sizes") (load_settings file)),
      )

-- ===== src/Config/Settings/Associations/Changes.antt =====
-- What is read of the file associations after one is set or cleared.
use hpc_client_gui.Base.{
  ◌∷◌, ◌++◌, Bool, true, ◌≡◌, refl, ap, sym, subst, ◌∙◌, [], false, not, ◌&&◌, is_empty,
  if◌then◌else◌, Option, none, some, arith, inl, inr, Bool-cases,
}
use hpc_client_gui.Base.Text.{starts_with, Text, codes, strip, text_eq, text_eq_iff}
use hpc_client_gui.Base.Text.Strip.{strip-strip, strip-cons, strip-spaces, are_spaces}
use hpc_client_gui.Base.Json.{
  Json, text, object, Members, empty, member, get, put, as_object, is_true,
}
use hpc_client_gui.Base.Json.Laws.{
  get-put, get-pop, get_last, get_last-get, or_else, IsDict, IsDict-put, IsDict-pop,
}
use hpc_client_gui.Config.{str_or_empty}
use hpc_client_gui.Config.File.{ConfigFile}
use hpc_client_gui.Config.Settings.{setting, set_one}
use hpc_client_gui.Config.Settings.Laws.{setting-set_one, str_or_empty-text}
use hpc_client_gui.Config.Settings.Associations.{
  normalize_file_extension, add_association, collect, get_file_associations, program_or_empty,
  get_file_association, changed_associations, set_file_association, clear_file_association,
}
use hpc_client_gui.Config.Settings.Associations.Laws.{
  dotted, IsLower, IsAssociation, AreAssociations, normalize-IsExtension, AreAssociations-put,
  AreAssociations-pop,
}

module _ (repr : Json → Text) (lower : Text → Text) (is_lower : IsLower lower) where
  -- Associations that are good are added as they are.
  add_association-good :
      (k : Text) (v : Json) (acc : Members)
      → IsAssociation repr lower is_lower k v
      → add_association repr lower k v acc ≡ put k v acc
  add_association-good k v acc (ext, there, value, program, stripped) =
      let p = program_or_empty (some v) in
      ap (λ w. add_association repr lower k w acc) value
      ∙ ap
          (λ e.
            if not (is_empty e) && not (is_empty (strip (str_or_empty repr (text p))))
            then put e (text (strip (str_or_empty repr (text p)))) acc
            else acc)
          ext
      ∙ ap
          (λ q.
            if not (is_empty k) && not (is_empty (strip q))
            then put k (text (strip q)) acc
            else acc)
          (str_or_empty-text repr p)
      ∙ ap (λ q. if not (is_empty k) && not (is_empty q) then put k (text q) acc else acc) stripped
      ∙ ground (arith, there, program)
      ∙ ap (λ w. put k w acc) (sym value)

  get-collect :
      (key : Text) (acc d : Members)
      → AreAssociations repr lower is_lower d
      → get key (collect repr lower acc d) ≡ or_else (get_last key d) (get key acc)
  unfolding collect get_last
  get-collect key acc empty all = refl
  get-collect key acc (member k v d) (one, all) =
      ap (λ a. get key (collect repr lower a d)) (add_association-good k v acc one)
      ∙ get-collect key (put k v acc) d all
      ∙ ground (arith, get-put key k v acc)

  -- Good associations, each of an extension of its own.
  abbrev Good : Members → Type 0
  Good d = AreAssociations repr lower is_lower d × IsDict d

  Good-put :
      (extension : Json) (said : Text) (acc : Members)
      → is_empty (normalize_file_extension repr lower extension) ≡ false
      → is_empty (strip said) ≡ false
      → Good acc
      → Good (put (normalize_file_extension repr lower extension) (text (strip said)) acc)
  Good-put extension said acc there program (all, dict) =
      let e = normalize_file_extension repr lower extension in
      (
        AreAssociations-put repr lower is_lower e (strip said) acc
            (normalize-IsExtension repr lower is_lower extension) there program (strip-strip said)
            all,
        IsDict-put e (text (strip said)) acc dict,
      )

  Good-add_association :
      (k : Text) (v : Json) (acc : Members) → Good acc → Good (add_association repr lower k v acc)
  Good-add_association k v acc good =
      let e = normalize_file_extension repr lower (text k) in
      let p = strip (str_or_empty repr v) in
      elim (Bool-cases (is_empty e)) [
        | inl blank ↦ subst Good (sym (ground (arith, blank))) good
        | inr there ↦ elim (Bool-cases (is_empty p)) [
          | inl blank ↦ subst Good (sym (ground (arith, blank))) good
          | inr program ↦
              subst Good (sym (ground (arith, there, program)))
                (Good-put (text k) (str_or_empty repr v) acc there program good)
        ]
      ]

  -- Whatever is stored, what is collected is good.
  Good-collect : (acc d : Members) → Good acc → Good (collect repr lower acc d)
  unfolding collect
  Good-collect acc empty good = good
  Good-collect acc (member k v d) good =
      Good-collect (add_association repr lower k v acc) d (Good-add_association k v acc good)

  Good-of_stored :
      (o : Option Members)
      → Good (elim o [ none ↦ empty | some stored ↦ collect repr lower empty stored ])
  Good-of_stored none = (tt, tt)
  Good-of_stored (some d) = Good-collect empty d (tt, tt)

  Good-get_file_associations : (file : ConfigFile) → Good (get_file_associations repr lower file)
  unfolding get_file_associations
  Good-get_file_associations file =
      Good-of_stored (as_object (setting (codes "file_associations") (object empty) file))

  Good-changed :
      (extension : Json) (said : Text) (acc : Members)
      → Good acc
      → Good (changed_associations (normalize_file_extension repr lower extension) (strip said) acc)
  Good-changed extension said acc good =
      let e = normalize_file_extension repr lower extension in
      elim (Bool-cases (is_empty e)) [
        | inl blank ↦ subst Good (sym (ground (arith, blank))) good
        | inr there ↦ elim (Bool-cases (is_empty (strip said))) [
          | inl blank ↦
              subst Good (sym (ground (arith, there, blank)))
                (AreAssociations-pop repr lower is_lower e acc good.0, IsDict-pop e acc good.1)
          | inr program ↦
              subst Good (sym (ground (arith, there, program)))
                (Good-put extension said acc there program good)
        ]
      ]

  -- Good associations that are stored are the ones read.
  get-stored :
      (key : Text) (d : Members) (file : ConfigFile)
      → Good d
      → get key
          (get_file_associations repr lower (set_one (codes "file_associations") (object d) file))
        ≡ get key d
  unfolding get_file_associations get
  get-stored key d file good =
      ap
        (λ v.
          get key
            (elim (as_object v) [ none ↦ empty | some stored ↦ collect repr lower empty stored ]))
        (setting-set_one (codes "file_associations") (object d) (object empty) file)
      ∙ get-collect key empty d good.0
      ∙ ap (λ o. or_else o none) (get_last-get key d good.1)
      ∙ ground arith

  abbrev program_at : Text → Members → Text
  program_at n d = if is_empty n then [] else program_or_empty (get n d)

  program_at-changed :
      (n m p : Text) (d : Members)
      → program_at n (changed_associations m p d)
        ≡ (if text_eq n m then (if is_empty m then [] else p) else program_at n d)
  program_at-changed n m p d =
      ground (arith, get-put n m (text p) d, get-pop n m d, text_eq_iff n m)

  get_file_association-changed :
      (other extension : Json) (said : Text) (file : ConfigFile)
      → let m = normalize_file_extension repr lower extension in
        let associations =
          changed_associations m (strip said) (get_file_associations repr lower file) in
        get_file_association repr lower other
          (set_one (codes "file_associations") (object associations) file)
        ≡ (if text_eq (normalize_file_extension repr lower other) m
            then (if is_empty m then [] else strip said)
            else get_file_association repr lower other file)
  unfolding get_file_association
  get_file_association-changed other extension said file =
      let n = normalize_file_extension repr lower other in
      let m = normalize_file_extension repr lower extension in
      let associations =
        changed_associations m (strip said) (get_file_associations repr lower file) in
      ap (λ o. if is_empty n then [] else program_or_empty o)
        (get-stored n associations file (
          Good-changed extension said (get_file_associations repr lower file)
            (Good-get_file_associations file)))
      ∙ program_at-changed n m (strip said) (get_file_associations repr lower file)

  -- A way of writing an extension: with or without the dot, and with spaces around it.
  abbrev pub written : Text → Bool → Text → Text → Text
  written left dot name right = left ++ ((if dot then b'.' ∷ name else name) ++ right)

  -- A name of an extension, without spaces and dot.
  abbrev pub is_plain : Text → Bool
  is_plain name =
      not (is_empty name) && not (starts_with name (codes ".")) && text_eq (strip name) name

  normalize-written :
      (left name right : Text) (dot : Bool)
      → are_spaces left ≡ true
      → are_spaces right ≡ true
      → is_plain name ≡ true
      → normalize_file_extension repr lower (text (written left dot name right)) ≡ b'.' ∷ lower name
  unfolding normalize_file_extension starts_with
  normalize-written left name right dot l r plain =
      let there : is_empty name ≡ false = ground (arith, plain) in
      let no_dot : starts_with name (codes ".") ≡ false = ground (arith, plain) in
      let stripped : strip name ≡ name = ground (arith, plain, text_eq_iff (strip name) name) in
      let low = is_lower.lower_plain name there no_dot in
      elim (Bool-cases dot) [
        | inl dotted_name ↦
            ap (λ t. dotted (lower (strip t)))
              (str_or_empty-text repr (written left dot name right))
            ∙ ap
                (λ d. dotted (lower (strip (left ++ ((if d then b'.' ∷ name else name) ++ right)))))
                dotted_name
            ∙ ap (λ t. dotted (lower t))
                (strip-spaces left (b'.' ∷ name) right l r refl
                  (strip-cons b'.' name refl there stripped))
            ∙ ap dotted (is_lower.lower_dot name)
            ∙ ground arith
        | inr bare ↦
            ap (λ t. dotted (lower (strip t)))
              (str_or_empty-text repr (written left dot name right))
            ∙ ap
                (λ d. dotted (lower (strip (left ++ ((if d then b'.' ∷ name else name) ++ right)))))
                bare
            ∙ ap (λ t. dotted (lower t)) (strip-spaces left name right l r there stripped)
            ∙ ground (arith, low)
      ]

  -- After the program of an extension is set, it is the one read for every way of writing the
  -- extension, with or without the dot, in any case and with spaces around it, and none is read
  -- where the program is blank; every extension whose name differs in more than the case keeps its
  -- program, whatever stands in the file. A name has no space at its ends and does not start with a
  -- dot. `str.lower` is idempotent, commutes with `strip`, keeps a leading dot and puts none before
  -- a name, which it does not empty.
  pub set_file_association-get_file_association :
      (left right other_left other_right name other_name : Text) (dot other_dot : Bool)
      (program : Json) (file : ConfigFile)
      → are_spaces left ≡ true
      → are_spaces right ≡ true
      → are_spaces other_left ≡ true
      → are_spaces other_right ≡ true
      → is_plain name ≡ true
      → is_plain other_name ≡ true
      → let extension = text (written left dot name right) in
        let other = text (written other_left other_dot other_name other_right) in
        get_file_association repr lower other
          (set_file_association repr lower extension program file).1
        ≡ (if text_eq (lower other_name) (lower name)
            then strip (str_or_empty repr program)
            else get_file_association repr lower other file)
  unfolding set_file_association text_eq
  set_file_association-get_file_association left right other_left other_right name other_name dot
        other_dot program file l r other_l other_r plain other_plain =
      let extension = text (written left dot name right) in
      let other = text (written other_left other_dot other_name other_right) in
      let m = normalize-written left name right dot l r plain in
      let n =
        normalize-written other_left other_name other_right other_dot other_l other_r other_plain in
      get_file_association-changed other extension (str_or_empty repr program) file
      ∙ ap
          (λ k.
            if text_eq k (normalize_file_extension repr lower extension)
            then (if is_empty (normalize_file_extension repr lower extension)
                then []
                else strip (str_or_empty repr program))
            else get_file_association repr lower other file)
          n
      ∙ ap
          (λ k.
            if text_eq (b'.' ∷ lower other_name) k
            then (if is_empty k then [] else strip (str_or_empty repr program))
            else get_file_association repr lower other file)
          m
      ∙ ground arith

  -- Clearing is setting a blank program.
  clear_file_association-set_file_association :
      (extension : Json) (file : ConfigFile)
      → clear_file_association repr lower extension file
        ≡ set_file_association repr lower extension (text []) file
  unfolding set_file_association clear_file_association strip is_true
  clear_file_association-set_file_association extension file = refl

-- ===== src/Config/Settings/Associations/Laws.antt =====
-- What is read of the file associations after they are changed.
use hpc_client_gui.Base.{
  ◌≡◌, refl, ap, ◌∙◌, [], ◌∷◌, false, is_empty, if◌then◌else◌, some, arith, inl, inr, Bool-cases,
}
use hpc_client_gui.Base.Text.{Text, codes, strip, starts_with, is_space, text_eq}
use hpc_client_gui.Base.Text.Strip.{strip-strip, strip-cons}
use hpc_client_gui.Base.Json.{Json, text, Members, empty, member, put, pop}
use hpc_client_gui.Config.{str_or_empty}
use hpc_client_gui.Config.Settings.Laws.{str_or_empty-text}
use hpc_client_gui.Config.Settings.Associations.{normalize_file_extension, program_or_empty}

-- What the program relies on of `str.lower`.
pub record IsLower (lower : Text → Text) : Type 0 where
  pub lower_lower : (t : Text) → lower (lower t) ≡ lower t
  pub strip_lower : (t : Text) → strip (lower t) ≡ lower (strip t)
  pub lower_dot : (t : Text) → lower (b'.' ∷ t) ≡ b'.' ∷ lower t
  pub lower_plain :
      (t : Text)
      → is_empty t ≡ false
      → starts_with t (codes ".") ≡ false
      → (is_empty (lower t) ≡ false) × (starts_with (lower t) (codes ".") ≡ false)

-- The extension with its dot.
abbrev pub dotted : Text → Text
dotted v = if is_empty v then [] else if starts_with v (codes ".") then v else b'.' ∷ v

dotted-dotted : (v : Text) → dotted (dotted v) ≡ dotted v
unfolding starts_with
dotted-dotted [] = refl
dotted-dotted (c ∷ v) = ground arith

module _ (repr : Json → Text) (lower : Text → Text) (is_lower : IsLower lower) where
  normal_form : (v : Text) → lower v ≡ v → strip v ≡ v → lower (strip (dotted v)) ≡ dotted v
  unfolding is_space
  normal_form [] low stripped = ap lower stripped ∙ low
  normal_form (c ∷ v) low stripped = elim (Bool-cases (starts_with (c ∷ v) (codes "."))) [
    | inl has_dot ↦ ground (arith, has_dot, low, stripped)
    | inr plain ↦ ground (
      arith,
      plain,
      low,
      stripped,
      strip-cons b'.' (c ∷ v) refl refl stripped,
      is_lower.lower_dot (c ∷ v),
    )
  ]

  -- A normalised extension.
  abbrev pub IsExtension : Text → Type 0
  IsExtension k = normalize_file_extension repr lower (text k) ≡ k

  pub normalize-IsExtension :
      (extension : Json) → IsExtension (normalize_file_extension repr lower extension)
  unfolding normalize_file_extension
  normalize-IsExtension extension =
      let said = str_or_empty repr extension in
      let v = lower (strip said) in
      let n = normalize_file_extension repr lower extension in
      let low = is_lower.lower_lower (strip said) in
      let stripped = is_lower.strip_lower (strip said) ∙ ap lower (strip-strip said) in
      ap (λ t. dotted (lower (strip t))) (str_or_empty-text repr n)
      ∙ ap dotted (normal_form v low stripped)
      ∙ dotted-dotted v

  -- The key is a normalised extension and the value a program.
  abbrev pub IsAssociation : Text → Json → Type 0
  IsAssociation k v =
      IsExtension k
      × (is_empty k ≡ false)
      × (v ≡ text (program_or_empty (some v)))
      × (is_empty (program_or_empty (some v)) ≡ false)
      × (strip (program_or_empty (some v)) ≡ program_or_empty (some v))

  abbrev pub AreAssociations : Members → Type 0
  AreAssociations empty = Unit
  AreAssociations (member k v d) = IsAssociation k v × AreAssociations d

  pub AreAssociations-put :
      (k p : Text) (d : Members)
      → IsExtension k
      → is_empty k ≡ false
      → is_empty p ≡ false
      → strip p ≡ p
      → AreAssociations d
      → AreAssociations (put k (text p) d)
  unfolding put
  AreAssociations-put k p empty ext there program stripped all =
      ((ext, there, refl, program, stripped), tt)
  AreAssociations-put k p (member l v d) ext there program stripped (one, all) =
      elim (Bool-cases (text_eq k l)) [
        | inl same ↦ ground (arith, same, one.0, one.1, program, stripped, all)
        | inr other ↦ ground (
          arith,
          other,
          one.0,
          one.1,
          one.2,
          one.3,
          one.4,
          AreAssociations-put k p d ext there program stripped all,
        )
      ]

  pub AreAssociations-pop : (k : Text) (d : Members) → AreAssociations d → AreAssociations (pop k d)
  unfolding pop
  AreAssociations-pop k empty all = tt
  AreAssociations-pop k (member l v d) (one, all) = elim (Bool-cases (text_eq k l)) [
    | inl same ↦ ground (arith, same, AreAssociations-pop k d all)
    | inr other ↦
        ground (arith, other, one.0, one.1, one.2, one.3, one.4, AreAssociations-pop k d all)
  ]

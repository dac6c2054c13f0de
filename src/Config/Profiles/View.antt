-- ===== src/Config/Profiles/View.antt =====
-- The saved profiles seen as a map from ids to profiles.
pub mod Update
pub mod Upsert
pub mod Refinement
pub mod Stored
pub mod Removed
pub mod Deleted
use hpc_client_gui.Base.{
  ℕ, zero, suc, ◌≡◌, ◌⊎◌, refl, ap, sym, ◌∙◌, List, [], ◌∷◌, ◌++◌, Bool, true, false, not, ◌&&◌,
  is_empty, if◌then◌else◌, Option, none, some, arith, Option-cases, Bool-cases, inl, inr,
}
use hpc_client_gui.Base.Text.{Text, codes, text_eq, text_eq_iff, text_eq_refl}
use hpc_client_gui.Base.Json.{
  Json, text, object, Elements, Members, get, get_or_null, is_text, as_object, as_text,
}
use hpc_client_gui.Config.Profiles.{
  field_is, find_index, item_at, replace_at, append_item, as_elements,
}

-- The first profile of a kind.
unfoldable pub first : (Members → Bool) → List Members → Option Members
first wanted [] = none
first wanted (p ∷ ps) = let later = first wanted ps in if wanted p then some p else later

abbrev pub text_or_empty : Option Text → Text
text_or_empty none = []
text_or_empty (some t) = t

abbrev pub id_of : Members → Text
id_of p = text_or_empty (as_text (get_or_null (get (codes "id") p)))

-- The profile of an id.
unfoldable pub lookup : Text → List Members → Option Members
lookup i [] = none
lookup i (p ∷ ps) = let later = lookup i ps in if text_eq (id_of p) i then some p else later

-- The profile has an id that is a string and not empty.
abbrev pub HasId : Members → Type 0
HasId p = (get (codes "id") p ≡ some (text (id_of p))) × (is_empty (id_of p) ≡ false)

-- Every profile has an id, and no two have the same.
abbrev pub IsStore : List Members → Type 0
IsStore [] = Unit
IsStore (p ∷ ps) = HasId p × (lookup (id_of p) ps ≡ none) × IsStore ps

-- A search by id is the look-up.
pub first-lookup :
    (i : Text) (ps : List Members) → IsStore ps → first (field_is (codes "id") i) ps ≡ lookup i ps
unfolding first lookup
first-lookup i [] h = refl
first-lookup i (p ∷ ps) (has, new, h) =
    ap (λ v. if is_text i (get_or_null v) then some p else first (field_is (codes "id") i) ps) has.0
    ∙ ap (λ o. if text_eq (id_of p) i then some p else o) (first-lookup i ps h)

-- What is found at the index is the first of its kind.
pub find_index-first :
    (wanted : Members → Bool) (ps : List Members)
    → ((find_index wanted (as_elements ps) ≡ some none) × (first wanted ps ≡ none))
      ⊎ ((i : ℕ) × (p : Members) × (find_index wanted (as_elements ps) ≡ some (some i))
          × (item_at i (as_elements ps) ≡ some p)
          × (first wanted ps ≡ some p))
unfolding find_index first item_at as_elements
find_index-first wanted [] = inl (refl, refl)
find_index-first wanted (p ∷ ps) = elim (Bool-cases (wanted p)) [
  | inl here ↦ inr (0, p, ground (arith, here), refl, ground (arith, here))
  | inr other ↦ elim (find_index-first wanted ps) [
    | inl (missing, absent) ↦ inl (ground (arith, other, missing), ground (arith, other, absent))
    | inr (i, q, found, at, there) ↦
        inr (suc i, q, ground (arith, other, found), at, ground (arith, other, there))
  ]
]

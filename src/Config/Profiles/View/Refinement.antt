-- ===== src/Config/Profiles/View/Refinement.antt =====
-- `upsert_profile` as an update of the map from ids to profiles.
use hpc_client_gui.Base.{
  ℕ, ◌≡◌, refl, ap, ◌∙◌, List, [], ◌∷◌, ◌++◌, Bool, false, is_empty, if◌then◌else◌, Option, none,
  some, arith,
}
use hpc_client_gui.Base.Text.{Text, text_eq, text_eq_refl}
use hpc_client_gui.Base.Json.{object, Members}
use hpc_client_gui.Config.Profiles.{profiles_in, item_at, as_elements, put_at}
use hpc_client_gui.Config.Profiles.View.{lookup, id_of, IsStore}
use hpc_client_gui.Config.Profiles.View.Update.{
  replaced, as_elements-replaced, as_elements-append, lookup-replaced, IsStore-replaced,
  lookup-append, IsStore-append,
}
use hpc_client_gui.Config.Profiles.View.Upsert.{
  owner, new_id, lookup-id_of, HasId-item_at, with_id, id_of-with_id, HasId-with_id,
}

abbrev pub is_id_of : Option Members → Text → Bool
is_id_of none j = false
is_id_of (some p) j = text_eq j (id_of p)

-- The map after a profile has been put under an id in the place of another.
abbrev pub map_after : Text → Members → Option Members → List Members → Text → Option Members
map_after i new place ps j =
    if text_eq j i then some new else if is_id_of place j then none else lookup j ps

-- The profiles of a configuration are a list of profiles that shows this map at a key.
abbrev pub Shows : Members → Text → Option Members → Type 0
Shows cfg j entry =
    (after : List Members) × (profiles_in cfg ≡ as_elements after)
    × IsStore after
    × (lookup j after ≡ entry)

module _ (fresh given name : Text) (profile : Members) (ps : List Members) (store : IsStore ps)
    (fresh_there : is_empty fresh ≡ false) (fresh_free : lookup fresh ps ≡ none) where
  new_id_there :
      (place : Option Members)
      → ((p : Members) → place ≡ some p → is_empty (id_of p) ≡ false)
      → is_empty (new_id given fresh place) ≡ false
  new_id_there none h = ground (arith, fresh_there)
  new_id_there (some p) h = ground (arith, h p refl)

  -- Adding at the end, where no profile is to be replaced.
  pub added :
      (j : Text)
      → owner given name ps ≡ none
      → (after : List Members) × (put_at none
            (object (with_id (new_id given fresh none) profile))
            (as_elements ps)
          ≡ as_elements after)
        × IsStore after
        × (lookup j after
            ≡ map_after
                (new_id given fresh none)
                (with_id (new_id given fresh none) profile)
                none
                ps
                j)
  added j alone =
      let i = new_id given fresh none in
      let new = with_id i profile in
      let has = HasId-with_id i profile (new_id_there none (λ p e. ground (arith, e))) in
      let same = id_of-with_id i profile in
      let free = ap (λ k. lookup k ps) same ∙ ground (arith, alone, fresh_free) in
      (
        ps ++ (new ∷ []),
        as_elements-append new ps,
        IsStore-append new has ps store free,
        lookup-append new has ps j free
            ∙ ap (λ k. if text_eq j k then some new else lookup j ps) same,
      )

  -- Replacing the profile found.
  pub exchanged :
      (j : Text) (k : ℕ) (p : Members)
      → item_at k (as_elements ps) ≡ some p
      → owner given name ps ≡ some p
      → (after : List Members) × (put_at
            (some k)
            (object (with_id (new_id given fresh (some p)) profile))
            (as_elements ps)
          ≡ as_elements after)
        × IsStore after
        × (lookup j after
            ≡ map_after
                (new_id given fresh (some p))
                (with_id (new_id given fresh (some p)) profile)
                (some p)
                ps
                j)
  exchanged j k p at found =
      let i = new_id given fresh (some p) in
      let new = with_id i profile in
      let has_p = HasId-item_at k ps p store at in
      let has =
        HasId-with_id i profile (new_id_there (some p) (λ q e. ground (arith, e, has_p.1))) in
      let same = id_of-with_id i profile in
      let free =
        ap (λ l. if text_eq l (id_of p) then none else lookup l ps) same
        ∙ ground (arith, found, lookup-id_of given ps p, text_eq_refl (id_of p)) in
      (
        replaced k new ps,
        as_elements-replaced k new ps,
        IsStore-replaced new has k ps p store at free,
        lookup-replaced new has k ps p j store at free
            ∙ ap
                (λ l.
                  if text_eq j l
                  then some new
                  else if text_eq j (id_of p)
                  then none
                  else lookup j ps)
                same,
      )

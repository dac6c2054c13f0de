-- ===== src/Config/Profiles/View/Update.antt =====
-- Replacing and adding a profile in the map from ids.
use hpc_client_gui.Base.{
  ℕ, zero, suc, ◌≡◌, refl, List, [], ◌∷◌, ◌++◌, if◌then◌else◌, none, some, arith,
}
use hpc_client_gui.Base.Text.{Text, text_eq, text_eq_iff, text_eq_refl}
use hpc_client_gui.Base.Json.{object, Members}
use hpc_client_gui.Config.Profiles.{item_at, replace_at, append_item, as_elements}
use hpc_client_gui.Config.Profiles.View.{lookup, id_of, HasId, IsStore}

-- `replace_at` and `append_item` on the profiles.
unfoldable pub replaced : ℕ → Members → List Members → List Members
replaced i new [] = []
replaced zero new (p ∷ ps) = new ∷ ps
replaced (suc i) new (p ∷ ps) = p ∷ replaced i new ps

pub as_elements-replaced :
    (i : ℕ) (new : Members) (ps : List Members)
    → replace_at i (object new) (as_elements ps) ≡ as_elements (replaced i new ps)
unfolding replace_at as_elements replaced
as_elements-replaced i new [] = refl
as_elements-replaced zero new (p ∷ ps) = refl
as_elements-replaced (suc i) new (p ∷ ps) = ground (arith, as_elements-replaced i new ps)

pub as_elements-append :
    (new : Members) (ps : List Members)
    → append_item (object new) (as_elements ps) ≡ as_elements (ps ++ (new ∷ []))
unfolding append_item as_elements
as_elements-append new [] = refl
as_elements-append new (p ∷ ps) = ground (arith, as_elements-append new ps)

lookup-item_at :
    (i : ℕ) (ps : List Members) (p : Members)
    → IsStore ps
    → item_at i (as_elements ps) ≡ some p
    → lookup (id_of p) ps ≡ some p
unfolding lookup item_at as_elements
lookup-item_at i [] p h at = ground (arith, at)
lookup-item_at zero (q ∷ ps) p (has, new, h) at = ground (arith, at, text_eq_refl (id_of p))
lookup-item_at (suc i) (q ∷ ps) p (has, new, h) at =
    ground (arith, lookup-item_at i ps p h at, new, text_eq_iff (id_of q) (id_of p))

-- The id is that of the profile replaced, or it is not in use.
abbrev pub IsFree : Members → Text → List Members → Type 0
IsFree new old ps = (if text_eq (id_of new) old then none else lookup (id_of new) ps) ≡ none

IsFree-rest :
    (new q : Members) (old : Text) (ps : List Members) → IsFree new old (q ∷ ps) → IsFree new old ps
unfolding lookup
IsFree-rest new q old ps free = ground (arith, free)

module _ (new : Members) (has_id : HasId new) where
  pub lookup-replaced :
      (i : ℕ) (ps : List Members) (p : Members) (j : Text)
      → IsStore ps
      → item_at i (as_elements ps) ≡ some p
      → IsFree new (id_of p) ps
      → lookup j (replaced i new ps) ≡ (
          if text_eq j (id_of new)
          then some new
          else if text_eq j (id_of p)
          then none
          else lookup j ps)
  unfolding lookup item_at as_elements replaced
  lookup-replaced i [] p j h at free = ground (arith, at)
  lookup-replaced zero (q ∷ ps) p j (has, fresh, h) at free = ground (
    arith,
    at,
    fresh,
    free,
    text_eq_iff (id_of new) j,
    text_eq_iff j (id_of new),
    text_eq_iff j (id_of p),
    text_eq_iff (id_of p) j,
  )
  lookup-replaced (suc i) (q ∷ ps) p j (has, fresh, h) at free = ground (
    arith,
    free,
    fresh,
    lookup-replaced i ps p j h at (IsFree-rest new q (id_of p) ps free),
    lookup-item_at i ps p h at,
    text_eq_iff (id_of q) j,
    text_eq_iff j (id_of new),
    text_eq_iff j (id_of p),
    text_eq_iff (id_of q) (id_of new),
    text_eq_iff (id_of new) (id_of p),
  )

  pub IsStore-replaced :
      (i : ℕ) (ps : List Members) (p : Members)
      → IsStore ps
      → item_at i (as_elements ps) ≡ some p
      → IsFree new (id_of p) ps
      → IsStore (replaced i new ps)
  unfolding lookup item_at as_elements replaced
  IsStore-replaced i [] p h at free = tt
  IsStore-replaced zero (q ∷ ps) p (has, fresh, h) at free =
      (has_id, ground (arith, at, fresh, free, text_eq_iff (id_of new) (id_of p)), h)
  IsStore-replaced (suc i) (q ∷ ps) p (has, fresh, h) at free =
      let rest = IsFree-rest new q (id_of p) ps free in
      (
        has,
        ground (
          arith,
          free,
          fresh,
          lookup-replaced i ps p (id_of q) h at rest,
          lookup-item_at i ps p h at,
          text_eq_iff (id_of q) (id_of new),
          text_eq_iff (id_of q) (id_of p),
          text_eq_iff (id_of new) (id_of q),
          text_eq_iff (id_of new) (id_of p),
        ),
        IsStore-replaced i ps p h at rest,
      )

  pub lookup-append :
      (ps : List Members) (j : Text)
      → lookup (id_of new) ps ≡ none
      → lookup j (ps ++ (new ∷ [])) ≡ (if text_eq j (id_of new) then some new else lookup j ps)
  unfolding lookup
  lookup-append [] j free = ground (arith, text_eq_iff (id_of new) j, text_eq_iff j (id_of new))
  lookup-append (p ∷ ps) j free = ground (
    arith,
    free,
    lookup-append ps j,
    text_eq_iff (id_of p) j,
    text_eq_iff j (id_of new),
    text_eq_iff (id_of p) (id_of new),
  )

  pub IsStore-append :
      (ps : List Members) → IsStore ps → lookup (id_of new) ps ≡ none → IsStore (ps ++ (new ∷ []))
  unfolding lookup
  IsStore-append [] h free = (has_id, refl, tt)
  IsStore-append (p ∷ ps) (has, fresh, h) free = (
    has,
    ground (arith, free, fresh, lookup-append ps (id_of p), text_eq_iff (id_of p) (id_of new)),
    IsStore-append ps h (ground (arith, free)),
  )

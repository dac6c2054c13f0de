-- ===== src/History/Strip.antt =====
-- Text that is stripped already.
use hpc_client_gui.Base.{
  ℕ, ◌≡◌, refl, ap, ◌∙◌, [], ◌∷◌, Bool, false, Bool-cases, inl, inr, if◌then◌else◌, arith,
}
use hpc_client_gui.Base.Text.{Text, is_space, lstrip_by, rstrip_by, strip}

module _ (p : ℕ → Bool) where
  rstrip_by-again : (s : Text) → rstrip_by p (rstrip_by p s) ≡ rstrip_by p s
  unfolding rstrip_by
  rstrip_by-again [] = refl
  rstrip_by-again (c ∷ s) = ground (arith, rstrip_by-again s)

  lstrip_by-kept :
      (c : ℕ) (s : Text) → p c ≡ false → lstrip_by p (rstrip_by p (c ∷ s)) ≡ rstrip_by p (c ∷ s)
  unfolding lstrip_by rstrip_by
  lstrip_by-kept c s h = ground arith

  lstrip_by-first :
      (c : ℕ) (s : Text) → lstrip_by p (c ∷ s) ≡ (if p c then lstrip_by p s else c ∷ s)
  unfolding lstrip_by
  lstrip_by-first c s = ground arith

  nothing_left : lstrip_by p (rstrip_by p (lstrip_by p [])) ≡ rstrip_by p (lstrip_by p [])
  unfolding lstrip_by rstrip_by
  nothing_left = refl

  lstrip_by-rstrip_by :
      (s : Text) → lstrip_by p (rstrip_by p (lstrip_by p s)) ≡ rstrip_by p (lstrip_by p s)
  lstrip_by-rstrip_by [] = nothing_left
  lstrip_by-rstrip_by (c ∷ s) = elim (Bool-cases (p c)) [
    | inl space ↦ rw (lstrip_by-first c s, space) (lstrip_by-rstrip_by s)
    | inr other ↦ rw (lstrip_by-first c s, other) (lstrip_by-kept c s other)
  ]

pub strip_idem : (s : Text) → strip (strip s) ≡ strip s
unfolding strip
strip_idem s =
    ap (rstrip_by is_space) (lstrip_by-rstrip_by is_space s)
    ∙ rstrip_by-again is_space (lstrip_by is_space s)

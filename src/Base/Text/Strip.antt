-- ===== src/Base/Text/Strip.antt =====
-- `str.strip` of a stripped text.
use hpc_client_gui.Base.{
  ℕ, ◌≤◌, all, length, ◌++◌, true, ◌≡◌, refl, ap, sym, ◌∙◌, [], ◌∷◌, Bool, false, is_empty, arith,
  Bool-cases, inl, inr,
}
use hpc_client_gui.Base.Text.{Text, is_space, lstrip_by, rstrip_by, strip}

pub rstrip_by-rstrip_by : (p : ℕ → Bool) (s : Text) → rstrip_by p (rstrip_by p s) ≡ rstrip_by p s
unfolding rstrip_by
rstrip_by-rstrip_by p [] = refl
rstrip_by-rstrip_by p (c ∷ s) = ground (arith, rstrip_by-rstrip_by p s)

-- What `rstrip` leaves of a text that starts with no space starts with the same.
lstrip_by-rstrip_by :
    (p : ℕ → Bool) (c : ℕ) (s : Text)
    → p c ≡ false
    → lstrip_by p (rstrip_by p (c ∷ s)) ≡ rstrip_by p (c ∷ s)
unfolding rstrip_by lstrip_by
lstrip_by-rstrip_by p c s h = ground (arith, h)

strip-lstrip :
    (p : ℕ → Bool) (s : Text)
    → lstrip_by p (rstrip_by p (lstrip_by p s)) ≡ rstrip_by p (lstrip_by p s)
unfolding lstrip_by rstrip_by
strip-lstrip p [] = refl
strip-lstrip p (c ∷ s) = elim (Bool-cases (p c)) [
  | inl space ↦ ground (arith, space, strip-lstrip p s)
  | inr other ↦ ground (arith, other, lstrip_by-rstrip_by p c s other)
]

pub strip-strip : (s : Text) → strip (strip s) ≡ strip s
unfolding strip
strip-strip s =
    ap (rstrip_by is_space) (strip-lstrip is_space s)
    ∙ rstrip_by-rstrip_by is_space (lstrip_by is_space s)

-- What is stripped has no space at its end.
pub rstrip_by-stripped : (s : Text) → strip s ≡ s → rstrip_by is_space s ≡ s
unfolding strip
rstrip_by-stripped s h =
    sym (ap (rstrip_by is_space) h) ∙ rstrip_by-rstrip_by is_space (lstrip_by is_space s) ∙ h

-- A code point that is no space may be put before a stripped text that is not empty.
pub strip-cons :
    (c : ℕ) (s : Text)
    → is_space c ≡ false
    → is_empty s ≡ false
    → strip s ≡ s
    → strip (c ∷ s) ≡ c ∷ s
unfolding strip lstrip_by rstrip_by
strip-cons c [] h there e = ground (arith, there)
strip-cons c (d ∷ s) h there e = ground (arith, h, rstrip_by-stripped (d ∷ s) e)

-- A text of spaces.
abbrev pub are_spaces : Text → Bool
are_spaces s = all is_space s

lstrip_by-spaces :
    (left s : Text) → are_spaces left ≡ true → lstrip_by is_space (left ++ s) ≡ lstrip_by is_space s
unfolding lstrip_by
lstrip_by-spaces [] s h = refl
lstrip_by-spaces (c ∷ left) s h = ground (arith, h, lstrip_by-spaces left s)

rstrip_by-spaces_only : (right : Text) → are_spaces right ≡ true → rstrip_by is_space right ≡ []
unfolding rstrip_by
rstrip_by-spaces_only [] h = refl
rstrip_by-spaces_only (c ∷ right) h = ground (arith, h, rstrip_by-spaces_only right)

rstrip_by-spaces :
    (s right : Text)
    → are_spaces right ≡ true
    → rstrip_by is_space (s ++ right) ≡ rstrip_by is_space s
unfolding rstrip_by
rstrip_by-spaces [] right h = rstrip_by-spaces_only right h
rstrip_by-spaces (c ∷ s) right h = ground (arith, rstrip_by-spaces s right h)

length-lstrip_by : (p : ℕ → Bool) (s : Text) → length (lstrip_by p s) ≤ length s
unfolding lstrip_by
length-lstrip_by p [] = omega arith
length-lstrip_by p (c ∷ s) = ground (arith, length-lstrip_by p s)

-- A stripped text starts with no space.
stripped-cons : (c : ℕ) (s : Text) → strip (c ∷ s) ≡ c ∷ s → is_space c ≡ false
unfolding strip lstrip_by
stripped-cons c s h = elim (Bool-cases (is_space c)) [
  | inl space ↦
      let same = sym (ap (lstrip_by is_space) h) ∙ strip-lstrip is_space (c ∷ s) ∙ h in
      absurd (ground (arith, space, length-lstrip_by is_space s, ap length same))
  | inr other ↦ other
]

-- Spaces around a stripped text that is not empty go.
pub strip-spaces :
    (left s right : Text)
    → are_spaces left ≡ true
    → are_spaces right ≡ true
    → is_empty s ≡ false
    → strip s ≡ s
    → strip (left ++ (s ++ right)) ≡ s
unfolding strip lstrip_by rstrip_by
strip-spaces left [] right l r there e = ground (arith, there)
strip-spaces left (c ∷ s) right l r there e =
    let first : lstrip_by is_space ((c ∷ s) ++ right) ≡ (c ∷ s) ++ right =
      ground (arith, stripped-cons c s e) in
    let start : lstrip_by is_space (left ++ ((c ∷ s) ++ right)) ≡ (c ∷ s) ++ right =
      lstrip_by-spaces left ((c ∷ s) ++ right) l ∙ first in
    ap (rstrip_by is_space) start ∙ rstrip_by-spaces (c ∷ s) right r ∙ rstrip_by-stripped (c ∷ s) e

-- ===== src/Navigation/Paths.antt =====
-- The normal form of remote paths.
use hpc_client_gui.Base.{ℕ, ◌≡◌, refl, [], ◌∷◌, Bool, arith}
use hpc_client_gui.Base.Text.{Text, codes, rstrip_by}
use hpc_client_gui.Navigation.{normalize, or_text, is_slash}

rstrip_by_idem : (p : ℕ → Bool) (s : Text) → rstrip_by p (rstrip_by p s) ≡ rstrip_by p s
unfolding rstrip_by
rstrip_by_idem p [] = refl
rstrip_by_idem p (c ∷ s) = ground (arith, rstrip_by_idem p s)

-- The normal form of a normal form is itself.
pub normalize_idem : (path : Text) → normalize (normalize path) ≡ normalize path
unfolding normalize rstrip_by
normalize_idem path = ground (arith, rstrip_by_idem is_slash (or_text path (codes "/")))

-- ===== src/Navigation/Unique.antt =====
-- The favorites and the history name a path once, and the history is bounded.
use hpc_client_gui.Base.{
  ℕ, zero, suc, ◌≤◌, ◌≡◌, refl, ◌∙◌, List, [], ◌∷◌, ◌++◌, false, ◌||◌, if◌then◌else◌, any, take,
  length, length-take-le, Bool-cases, inl, inr, Option, none, arith,
}
use hpc_client_gui.Base.Text.{Text, text_eq, text_eq_iff, text_eq_refl}
use hpc_client_gui.Navigation.{
  Kind, Favorite, Visit, Navigation, Call, add, remove, toggle, visit, clear, call, normalize,
  max_history, at_path, is_favorite, label_or, basename, add_favorite, remove_favorite,
  toggle_favorite, other_favorites, other_visits, record_visit, clear_history, empty,
}
use hpc_client_gui.Navigation.Paths.{normalize_idem}

-- The normal form of no path stands twice.
abbrev pub Unique : List Text → Type 0
Unique [] = Unit
Unique (p ∷ ps) = (any (λ q. at_path (normalize p) q) ps ≡ false) × Unique ps

abbrev pub favorite_paths : List Favorite → List Text
favorite_paths [] = []
favorite_paths (f ∷ fs) = f.path ∷ favorite_paths fs

abbrev pub visit_paths : List Visit → List Text
visit_paths [] = []
visit_paths (v ∷ vs) = v.path ∷ visit_paths vs

pub record IsTidy (n : Navigation) : Type 0 where
  pub favorites_once : Unique (favorite_paths n.favorites)
  pub history_once : Unique (visit_paths n.history)
  pub history_bounded : length n.history ≤ max_history

-- Behind the removal of a path, the path is gone, and other paths are there as before.
any-other_visits :
    (target p : Text) (vs : List Visit)
    → any (λ q. at_path p q) (visit_paths (other_visits target vs))
      ≡ (if text_eq p target then false else any (λ q. at_path p q) (visit_paths vs))
unfolding other_visits
any-other_visits target p [] = ground arith
any-other_visits target p (v ∷ vs) = ground (
  arith,
  any-other_visits target p vs,
  text_eq_iff p target,
  text_eq_iff (normalize v.path) target,
  text_eq_iff (normalize v.path) p,
)

Unique-other_visits :
    (target : Text) (vs : List Visit)
    → Unique (visit_paths vs)
    → Unique (visit_paths (other_visits target vs))
unfolding other_visits
Unique-other_visits target [] u = tt
Unique-other_visits target (v ∷ vs) (once, u) =
    ground (arith, Unique-other_visits target vs u, any-other_visits target (normalize v.path) vs)

any-other_favorites :
    (target p : Text) (fs : List Favorite)
    → any (λ q. at_path p q) (favorite_paths (other_favorites target fs))
      ≡ (if text_eq p target then false else any (λ q. at_path p q) (favorite_paths fs))
unfolding other_favorites
any-other_favorites target p [] = ground arith
any-other_favorites target p (f ∷ fs) = ground (
  arith,
  any-other_favorites target p fs,
  text_eq_iff p target,
  text_eq_iff (normalize f.path) target,
  text_eq_iff (normalize f.path) p,
)

Unique-other_favorites :
    (target : Text) (fs : List Favorite)
    → Unique (favorite_paths fs)
    → Unique (favorite_paths (other_favorites target fs))
unfolding other_favorites
Unique-other_favorites target [] u = tt
Unique-other_favorites target (f ∷ fs) (once, u) =
    ground
      (arith, Unique-other_favorites target fs u, any-other_favorites target (normalize f.path) fs)

any-end :
    (p : Text) (f : Favorite) (fs : List Favorite)
    → any (λ q. at_path p q) (favorite_paths (fs ++ (f ∷ [])))
      ≡ (any (λ q. at_path p q) (favorite_paths fs) || at_path p f.path)
any-end p f [] = ground arith
any-end p f (g ∷ fs) = ground (arith, any-end p f fs)

Unique-add :
    (f : Favorite) (fs : List Favorite)
    → Unique (favorite_paths fs)
    → any (λ q. at_path (normalize f.path) q) (favorite_paths fs) ≡ false
    → Unique (favorite_paths (fs ++ (f ∷ [])))
Unique-add f [] u fresh = (refl, tt)
Unique-add f (g ∷ fs) (once, u) fresh = ground (
  arith,
  Unique-add f fs u,
  any-end (normalize g.path) f fs,
  text_eq_iff (normalize g.path) (normalize f.path),
  text_eq_iff (normalize f.path) (normalize g.path),
)

any-take :
    (p : Text) (n : ℕ) (vs : List Visit)
    → any (λ q. at_path p q) (visit_paths vs) ≡ false
    → any (λ q. at_path p q) (visit_paths (take n vs)) ≡ false
any-take p zero vs h = refl
any-take p (suc n) [] h = refl
any-take p (suc n) (v ∷ vs) h = ground (arith, any-take p n vs)

Unique-take : (n : ℕ) (vs : List Visit) → Unique (visit_paths vs) → Unique (visit_paths (take n vs))
Unique-take zero vs u = tt
Unique-take (suc n) [] u = tt
Unique-take (suc n) (v ∷ vs) (once, u) = (any-take (normalize v.path) n vs once, Unique-take n vs u)

any-favorites :
    (p : Text) (fs : List Favorite)
    → any (λ (item : Favorite). at_path p item.path) fs ≡ any (λ q. at_path p q) (favorite_paths fs)
any-favorites p [] = refl
any-favorites p (f ∷ fs) = ground (arith, any-favorites p fs)

module _ (n : Navigation) (t : IsTidy n) where
  IsTidy-add :
      (uuid path : Text) (kind : Kind) (label : Option Text)
      → IsTidy (add_favorite uuid path kind label n).0
  unfolding add_favorite is_favorite
  IsTidy-add uuid path kind label =
      let target = normalize path in
      let item : Favorite = record {
        id = uuid;
        path = target;
        label = label_or label (basename target);
        kind = kind;
      } in
      elim (Bool-cases
        (any (λ (old : Favorite). at_path (normalize target) old.path) n.favorites)) [
          | inl old ↦ ground arith
          | inr new ↦ ground (
            arith,
            normalize_idem path,
            any-favorites (normalize target) n.favorites,
            Unique-add item n.favorites t.favorites_once,
          )
        ]

  IsTidy-remove : (path : Text) → IsTidy (remove_favorite path n).0
  unfolding remove_favorite
  IsTidy-remove path =
      ground (arith, Unique-other_favorites (normalize path) n.favorites t.favorites_once)

  IsTidy-visit : (now : ℕ) (path : Text) → IsTidy (record_visit now path n).0
  unfolding record_visit
  IsTidy-visit now path =
      let target = normalize path in
      let rest = other_visits target n.history in
      let gone : any (λ q. at_path target q) (visit_paths rest) ≡ false =
        any-other_visits target target n.history ∙ ground (arith, text_eq_refl target) in
      record {
        favorites_once = t.favorites_once;
        history_once = (
          rw (normalize_idem path) (any-take target 99 rest gone),
          Unique-take 99 rest (Unique-other_visits target n.history t.history_once),
        );
        history_bounded = omega (arith, length-take-le 99 rest);
      }

  IsTidy-clear : IsTidy (clear_history n).0
  unfolding clear_history
  IsTidy-clear = ground arith

IsTidy-call : (c : Call) (n : Navigation) → IsTidy n → IsTidy (call c n).0
unfolding call toggle_favorite
IsTidy-call (add uuid path kind label) n t = IsTidy-add n t uuid path kind label
IsTidy-call (remove path) n t = IsTidy-remove n t path
IsTidy-call (toggle uuid path kind) n t =
    ground (arith, IsTidy-add n t uuid path kind none, IsTidy-remove n t path)
IsTidy-call (visit now path) n t = IsTidy-visit n t now path
IsTidy-call clear n t = IsTidy-clear n t

unfoldable pub calls : List Call → Navigation → Navigation
unfolding call
calls [] n = n
calls (c ∷ cs) n = calls cs (call c n).0

IsTidy-calls : (cs : List Call) (n : Navigation) → IsTidy n → IsTidy (calls cs n)
unfolding calls
IsTidy-calls [] n t = t
IsTidy-calls (c ∷ cs) n t = IsTidy-calls cs (call c n).0 (IsTidy-call c n t)

-- From an empty state, whatever is called: no two favorites and no two visits have a path of the
-- same normal form, and there are at most a hundred visits.
pub calls-IsTidy : (cs : List Call) → IsTidy (calls cs empty)
calls-IsTidy cs =
    IsTidy-calls cs empty
      (record { favorites_once = tt; history_once = tt; history_bounded = omega arith })

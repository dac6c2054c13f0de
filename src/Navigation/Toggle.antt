-- ===== src/Navigation/Toggle.antt =====
-- What the favorites' operations do to the question whether a path is a favorite.
use hpc_client_gui.Base.{
  ◌≡◌, refl, List, [], ◌∷◌, ◌++◌, Bool, true, false, not, ◌||◌, if◌then◌else◌, any, length, Option,
  none, arith, ◌≤◌,
}
use hpc_client_gui.Base.Text.{Text, text_eq, text_eq_iff}
use hpc_client_gui.Navigation.{
  Kind, Favorite, Navigation, normalize, at_path, is_favorite, label_or, basename, add_favorite,
  remove_favorite, toggle_favorite, other_favorites,
}
use hpc_client_gui.Navigation.Paths.{normalize_idem}

abbrev holds : Text → List Favorite → Bool
holds p fs = any (λ (item : Favorite). at_path p item.path) fs

holds-add :
    (p : Text) (f : Favorite) (fs : List Favorite)
    → holds p (fs ++ (f ∷ [])) ≡ (holds p fs || at_path p f.path)
holds-add p f [] = ground arith
holds-add p f (g ∷ fs) = ground (arith, holds-add p f fs)

holds-other_favorites :
    (target p : Text) (fs : List Favorite)
    → holds p (other_favorites target fs) ≡ (if text_eq p target then false else holds p fs)
unfolding other_favorites
holds-other_favorites target p [] = ground arith
holds-other_favorites target p (f ∷ fs) = ground (
  arith,
  holds-other_favorites target p fs,
  text_eq_iff p target,
  text_eq_iff (normalize f.path) target,
  text_eq_iff (normalize f.path) p,
)

length-other_favorites-le :
    (target : Text) (fs : List Favorite) → length (other_favorites target fs) ≤ length fs
unfolding other_favorites
length-other_favorites-le target [] = omega arith
length-other_favorites-le target (f ∷ fs) = ground (arith, length-other_favorites-le target fs)

-- Where nothing is removed, nothing has the path.
other_favorites_same :
    (target : Text) (fs : List Favorite)
    → length (other_favorites target fs) ≡ length fs
    → holds target fs ≡ false
unfolding other_favorites
other_favorites_same target [] h = refl
other_favorites_same target (f ∷ fs) h =
    ground (arith, other_favorites_same target fs, length-other_favorites-le target fs)

is_favorite-add_favorite :
    (uuid path other : Text) (kind : Kind) (label : Option Text) (n : Navigation)
    → is_favorite other (add_favorite uuid path kind label n).0
      ≡ (if text_eq (normalize other) (normalize path) then true else is_favorite other n)
unfolding is_favorite add_favorite
is_favorite-add_favorite uuid path other kind label n =
    let target = normalize path in
    let item : Favorite = record {
      id = uuid;
      path = target;
      label = label_or label (basename target);
      kind = kind;
    } in
    ground (
      arith,
      normalize_idem path,
      holds-add (normalize other) item n.favorites,
      text_eq_iff (normalize other) target,
      text_eq_iff target (normalize other),
    )

is_favorite-remove_favorite :
    (path other : Text) (n : Navigation)
    → is_favorite other (remove_favorite path n).0
      ≡ (if text_eq (normalize other) (normalize path) then false else is_favorite other n)
unfolding is_favorite remove_favorite
is_favorite-remove_favorite path other n =
    let target = normalize path in
    ground (
      arith,
      holds-other_favorites target (normalize other) n.favorites,
      other_favorites_same target n.favorites,
      text_eq_iff (normalize other) target,
    )

-- `toggle_favorite` turns the path and every other spelling of it from a favorite into none or
-- the other way round, says which, and leaves every other path as it was.
pub is_favorite-toggle_favorite :
    (uuid path other : Text) (kind : Kind) (n : Navigation)
    → let (state, result) = toggle_favorite uuid path kind n in
      (result ≡ not (is_favorite path n))
      × (is_favorite other state.0
          ≡ (if text_eq (normalize other) (normalize path) then result else is_favorite other n))
unfolding toggle_favorite
is_favorite-toggle_favorite uuid path other kind n = ground (
  arith,
  is_favorite-add_favorite uuid path other kind none n,
  is_favorite-remove_favorite path other n,
)

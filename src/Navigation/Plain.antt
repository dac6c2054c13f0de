-- ===== src/Navigation/Plain.antt =====
-- A plain coding of a profile's state, for the tests of the code around the encryption.
use hpc_client_gui.Base.{
  ℕ, zero, suc, ◌≡◌, refl, List, [], ◌∷◌, ◌++◌, ◌==◌, if◌then◌else◌, Option, some, length, take,
  drop, arith, take-append_length, drop-append_length,
}
use hpc_client_gui.Base.Text.{Text}
use hpc_client_gui.Navigation.{Kind, file, directory, Favorite, Visit, Navigation}
use hpc_client_gui.Navigation.Disk.{Payload, Opens, Seals}

put_text : Text → Text → Text
put_text t rest = length t ∷ (t ++ rest)

get_text : Text → Text × Text
get_text [] = ([], [])
get_text (n ∷ s) = (take n s, drop n s)

get_text-put_text : (t rest : Text) → get_text (put_text t rest) ≡ (t, rest)
unfolding get_text put_text
get_text-put_text t rest = ground (arith, take-append_length t rest, drop-append_length t rest)

get_code : Text → ℕ × Text
get_code [] = (0, [])
get_code (n ∷ s) = (n, s)

kind_code : Kind → ℕ
kind_code file = 0
kind_code directory = 1

kind_of : ℕ → Kind
kind_of n = if n == 0 then file else directory

kind_of-kind_code : (k : Kind) → kind_of (kind_code k) ≡ k
unfolding kind_of kind_code
kind_of-kind_code file = refl
kind_of-kind_code directory = refl

put_favorites : List Favorite → Text → Text
put_favorites [] rest = rest
put_favorites (f ∷ fs) rest =
    put_text f.id (put_text f.path (put_text f.label (kind_code f.kind ∷ put_favorites fs rest)))

get_favorites : ℕ → Text → List Favorite × Text
get_favorites zero s = ([], s)
get_favorites (suc n) s =
    let (i, s) = get_text s in
    let (p, s) = get_text s in
    let (l, s) = get_text s in
    let (k, s) = get_code s in
    let (fs, s) = get_favorites n s in
    (record { id = i; path = p; label = l; kind = kind_of k } ∷ fs, s)

get_favorites-put_favorites :
    (fs : List Favorite) (rest : Text)
    → get_favorites (length fs) (put_favorites fs rest) ≡ (fs, rest)
unfolding get_favorites put_favorites get_code
get_favorites-put_favorites [] rest = refl
get_favorites-put_favorites (f ∷ fs) rest =
    let after_label = kind_code f.kind ∷ put_favorites fs rest in
    let after_path = put_text f.label after_label in
    rw
      (
        get_text-put_text f.id (put_text f.path after_path),
        get_text-put_text f.path after_path,
        get_text-put_text f.label after_label,
        get_favorites-put_favorites fs rest,
        kind_of-kind_code f.kind,
      )
      refl

put_visits : List Visit → Text → Text
put_visits [] rest = rest
put_visits (v ∷ vs) rest = put_text v.path (v.last_visited ∷ put_visits vs rest)

get_visits : ℕ → Text → List Visit × Text
get_visits zero s = ([], s)
get_visits (suc n) s =
    let (p, s) = get_text s in
    let (t, s) = get_code s in
    let (vs, s) = get_visits n s in (record { path = p; last_visited = t } ∷ vs, s)

get_visits-put_visits :
    (vs : List Visit) (rest : Text) → get_visits (length vs) (put_visits vs rest) ≡ (vs, rest)
unfolding get_visits put_visits get_code
get_visits-put_visits [] rest = refl
get_visits-put_visits (v ∷ vs) rest =
    rw
      (
        get_text-put_text v.path (v.last_visited ∷ put_visits vs rest),
        get_visits-put_visits vs rest,
      )
      refl

pub plain_seal : Navigation → Option Text
plain_seal n =
    some
      (length n.favorites ∷ put_favorites n.favorites (length n.history ∷ put_visits n.history []))

pub plain_unseal : Text → Option Payload
plain_unseal s =
    let (n, s) = get_code s in
    let (fs, s) = get_favorites n s in
    let (m, s) = get_code s in
    let (vs, s) = get_visits m s in some (record { favorites = some fs; history = some vs })

abbrev body_of : Navigation → Text
body_of n =
    length n.favorites ∷ put_favorites n.favorites (length n.history ∷ put_visits n.history [])

plain_unseal-body_of :
    (n : Navigation)
    → plain_unseal (body_of n)
      ≡ some (record { favorites = some n.favorites; history = some n.history })
unfolding plain_unseal get_code
plain_unseal-body_of n =
    rw
      (
        get_favorites-put_favorites n.favorites (length n.history ∷ put_visits n.history []),
        get_visits-put_visits n.history [],
      )
      refl

pub plain_seal-Opens : Opens plain_seal plain_unseal
unfolding plain_seal
plain_seal-Opens n body h = ground (arith, plain_unseal-body_of n)

pub plain_seal-Seals : Seals plain_seal plain_unseal
unfolding plain_seal
plain_seal-Seals n = refl

-- ===== src/Navigation/Tests.antt =====
-- A few favorites and visits.
use hpc_client_gui.Base.{◌≡◌, refl, List, [], ◌∷◌, not, if◌then◌else◌, none}
use hpc_client_gui.Base.Text.{codes, text_eq}
use hpc_client_gui.Navigation.{
  directory, Call, add, toggle, visit, normalize, basename, is_favorite, toggle_favorite, empty,
}
use hpc_client_gui.Navigation.Unique.{IsTidy, calls, calls-IsTidy}
use hpc_client_gui.Navigation.Toggle.{is_favorite-toggle_favorite}
use hpc_client_gui.Navigation.Plain.{plain_seal, plain_unseal, plain_seal-Opens, plain_seal-Seals}
use hpc_client_gui.Navigation.Disk.{all_written, run, open_store, reopened}

normalize_slashes : normalize (codes "/home/u//") ≡ codes "/home/u"
unfolding normalize
normalize_slashes = refl

normalize_root : normalize (codes "///") ≡ codes "/"
unfolding normalize
normalize_root = refl

basename_last : basename (codes "/home/u/") ≡ codes "u"
unfolding basename
basename_last = refl

basename_root : basename (codes "") ≡ codes "/"
unfolding basename
basename_root = refl

abbrev session : List Call
session =
    visit 5 (codes "/home/u/")
    ∷ add (codes "1") (codes "/scratch") directory none
    ∷ visit 6 (codes "/scratch")
    ∷ visit 7 (codes "/home/u")
    ∷ toggle (codes "2") (codes "/home/u/") directory
    ∷ []

calls-IsTidy_example : IsTidy (calls session empty)
calls-IsTidy_example = calls-IsTidy session

is_favorite-toggle_favorite_example :
    let (state, result) = toggle_favorite (codes "1") (codes "/home/u/") directory empty in
    (result ≡ not (is_favorite (codes "/home/u/") empty))
    × (is_favorite (codes "/home/u") state.0 ≡ (
        if text_eq (normalize (codes "/home/u")) (normalize (codes "/home/u/"))
        then result
        else is_favorite (codes "/home/u") empty))
is_favorite-toggle_favorite_example =
    is_favorite-toggle_favorite (codes "1") (codes "/home/u/") (codes "/home/u") directory empty

reopened_example :
    let s =
      run plain_seal plain_unseal
        (all_written plain_seal plain_unseal session)
        (open_store plain_seal plain_unseal none) in
    (open_store plain_seal plain_unseal s.disk).state ≡ s.state
reopened_example = reopened plain_seal plain_unseal none session plain_seal-Opens plain_seal-Seals

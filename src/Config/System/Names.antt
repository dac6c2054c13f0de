-- ===== src/Config/System/Names.antt =====
-- The list of the user's templates (config/system_profile.py), after one is saved.
use hpc_client_gui.Base.{◌≡◌, refl, List, [], ◌∷◌, if◌then◌else◌, arith}
use hpc_client_gui.Base.Text.{Text, text_eq, text_eq_iff, text_eq_refl}
use hpc_client_gui.Base.Json.{Json, Members}
use hpc_client_gui.Config.System.{name_of, placed}

-- The first template of a name, compared under its casefolded name.
abbrev first_named : (Text → Text) → Text → List Members → List Members
first_named casefold name [] = []
first_named casefold name (t ∷ ts) =
    let rest = first_named casefold name ts in
    if text_eq (casefold (name_of t)) (casefold name) then t ∷ [] else rest

-- After a template is placed, it is the first of its casefolded name, and the first template of
-- every other casefolded name is as it was.
pub placed-first_named :
    (repr : Json → Text) (casefold : Text → Text) (name : Text) (t : Members) (ts : List Members)
    → first_named casefold name (placed repr casefold t ts) ≡ (
        if text_eq (casefold (name_of t)) (casefold name)
        then t ∷ []
        else first_named casefold name ts)
unfolding placed
placed-first_named repr casefold name t [] = refl
placed-first_named repr casefold name t (e ∷ ts) = ground (
  arith,
  placed-first_named repr casefold name t ts,
  text_eq_iff (casefold (name_of e)) (casefold (name_of t)),
  text_eq_iff (casefold (name_of e)) (casefold name),
  text_eq_iff (casefold (name_of t)) (casefold name),
  text_eq_refl (casefold name),
)

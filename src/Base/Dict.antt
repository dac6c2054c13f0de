-- ===== src/Base/Dict.antt =====
-- Python's `dict` with string keys, as the list of its entries in the order of insertion.
use Prim.Native.String.{String}
use text.Mathlib.Text.{◌==◌ as str_eq}
use text.Mathlib.TextEquality.{eq_iff}
use mathlib.Core.Path.{◌≡◌, refl}
use mathlib.Core.Bool.{Bool, true, false}
use mathlib.Core.Option.{Option, none, some}
use mathlib.Core.List.{List, [], ◌∷◌}
use native.Mathlib.Omega.{arith}
use hpc_client_gui.Base.Tests.{if◌then◌else◌}

pub str_eq_refl : (s : String) → str_eq s s ≡ true
str_eq_refl s = (eq_iff s s).1 refl

abbrev pub Dict {ℓ} : Type ℓ → Type ℓ
Dict V = List (String × V)

abbrev pub is_some {ℓ} : {A : Type ℓ} → Option A → Bool
is_some none = false
is_some (some a) = true

module _ {ℓ} {V : Type ℓ} where
  -- `d.get(key)`
  unfoldable pub lookup : String → Dict V → Option V
  lookup key [] = none
  lookup key ((k, v) ∷ d) = if str_eq key k then some v else lookup key d

  -- `d[key] = value`: a key that is there keeps its place.
  unfoldable pub insert : String → V → Dict V → Dict V
  insert key value [] = (key, value) ∷ []
  insert key value ((k, v) ∷ d) =
      if str_eq key k then (k, value) ∷ d else (k, v) ∷ insert key value d

  -- `d.pop(key, None)`; a dictionary has a key once, so all entries of the key go.
  unfoldable pub erase : String → Dict V → Dict V
  erase key [] = []
  erase key ((k, v) ∷ d) = if str_eq key k then erase key d else (k, v) ∷ erase key d

  -- `key in d`
  unfoldable pub has_key : String → Dict V → Bool
  has_key key [] = false
  has_key key ((k, v) ∷ d) = if str_eq key k then true else has_key key d

  pub lookup-insert :
      (other key : String) (value : V) (d : Dict V)
      → lookup other (insert key value d)
        ≡ (if str_eq other key then some value else lookup other d)
  unfolding lookup insert
  lookup-insert other key value [] = refl
  lookup-insert other key value ((k, v) ∷ d) =
      ground
        (arith, eq_iff key k, eq_iff other k, eq_iff other key, lookup-insert other key value d)

  pub lookup-erase :
      (other key : String) (d : Dict V)
      → lookup other (erase key d) ≡ (if str_eq other key then none else lookup other d)
  unfolding lookup erase
  lookup-erase other key [] = ground arith
  lookup-erase other key ((k, v) ∷ d) =
      ground (arith, eq_iff key k, eq_iff other k, eq_iff other key, lookup-erase other key d)

  pub has_key-lookup : (key : String) (d : Dict V) → has_key key d ≡ is_some (lookup key d)
  unfolding has_key lookup
  has_key-lookup key [] = refl
  has_key-lookup key ((k, v) ∷ d) = ground (arith, has_key-lookup key d)

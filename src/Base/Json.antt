-- ===== src/Base/Json.antt =====
-- The values of `json.loads`, with keys and strings as lists of code points. A dictionary is the
-- list of its entries in the order of insertion.
pub mod Laws
use hpc_client_gui.Base.{
  ℕ, List, [], ◌∷◌, Bool, true, false, not, ◌||◌, ◌==◌, if◌then◌else◌, is_empty, Option, none, some,
}
use hpc_client_gui.Base.Text.{Text, text_eq}
use hpc_client_gui.Base.Int.{ℤ, pos, negsuc, parse_int}

-- A float, as far as the program asks for it: its whole part towards zero and whether it has
-- more, or an infinity or NaN.
pub data Real : Type 0 where
  finite : ℤ → Bool → Real
  special : Real

mutual
  pub data Json : Type 0 where
    null : Json
    bool : Bool → Json
    int : ℤ → Json
    real : Real → Json
    text : Text → Json
    array : Elements → Json
    object : Members → Json

  pub data Elements : Type 0 where
    nothing : Elements
    element : Json → Elements → Elements

  pub data Members : Type 0 where
    empty : Members
    member : Text → Json → Members → Members

-- `d.get(key)`, with `none` for a key that is not there.
unfoldable pub get : Text → Members → Option Json
get key empty = none
get key (member k v d) = let rest = get key d in if text_eq key k then some v else rest

-- `d[key] = value`
unfoldable pub put : Text → Json → Members → Members
put key value empty = member key value empty
put key value (member k v d) =
    let rest = put key value d in if text_eq key k then member k value d else member k v rest

-- `d.pop(key, None)`
unfoldable pub pop : Text → Members → Members
pop key empty = empty
pop key (member k v d) = let rest = pop key d in if text_eq key k then rest else member k v rest

-- `d.update(patch)`, and `{**d, **patch}`.
unfoldable pub merge : Members → Members → Members
merge d empty = d
merge d (member k v patch) = merge (put k v d) patch

-- `d.get(key, default)`
abbrev pub get_or : Json → Option Json → Json
get_or default none = default
get_or default (some v) = v

-- `d.get(key)`
abbrev pub get_or_null : Option Json → Json
get_or_null none = null
get_or_null (some v) = v

abbrev pub has_value : Option Json → Bool
has_value none = false
has_value (some v) = true

-- `bool(value)`
unfoldable pub is_true : Json → Bool
is_true null = false
is_true (bool b) = b
is_true (int (pos n)) = not (n == 0)
is_true (int (negsuc n)) = true
is_true (real (finite (pos n) more)) = not (n == 0) || more
is_true (real (finite (negsuc n) more)) = true
is_true (real special) = true
is_true (text t) = not (is_empty t)
is_true (array nothing) = false
is_true (array (element v vs)) = true
is_true (object empty) = false
is_true (object (member k v d)) = true

-- `int(value)`; `none` where it raises.
unfoldable pub to_int : Json → Option ℤ
to_int null = none
to_int (bool b) = some (pos (if b then 1 else 0))
to_int (int z) = some z
to_int (real (finite z more)) = some z
to_int (real special) = none
to_int (text t) = parse_int t
to_int (array vs) = none
to_int (object d) = none

-- `value == text`
abbrev pub is_text : Text → Json → Bool
is_text t null = false
is_text t (bool b) = false
is_text t (int z) = false
is_text t (real r) = false
is_text t (text s) = text_eq s t
is_text t (array vs) = false
is_text t (object d) = false

-- `isinstance(value, dict)` and the value.
abbrev pub as_object : Json → Option Members
as_object null = none
as_object (bool b) = none
as_object (int z) = none
as_object (real r) = none
as_object (text t) = none
as_object (array vs) = none
as_object (object d) = some d

abbrev pub as_array : Json → Option Elements
as_array null = none
as_array (bool b) = none
as_array (int z) = none
as_array (real r) = none
as_array (text t) = none
as_array (array vs) = some vs
as_array (object d) = none

abbrev pub as_text : Json → Option Text
as_text null = none
as_text (bool b) = none
as_text (int z) = none
as_text (real r) = none
as_text (text t) = some t
as_text (array vs) = none
as_text (object d) = none

abbrev pub as_bool : Json → Option Bool
as_bool null = none
as_bool (bool b) = some b
as_bool (int z) = none
as_bool (real r) = none
as_bool (text t) = none
as_bool (array vs) = none
as_bool (object d) = none

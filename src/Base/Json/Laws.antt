-- ===== src/Base/Json/Laws.antt =====
-- The laws of dictionaries of JSON values.
use hpc_client_gui.Base.{◌≡◌, refl, if◌then◌else◌, Option, none, some, arith}
use hpc_client_gui.Base.Text.{Text, text_eq, text_eq_iff, text_eq_refl}
use hpc_client_gui.Base.Json.{Json, Members, empty, member, get, put, pop, merge}

pub get-put :
    (other key : Text) (value : Json) (d : Members)
    → get other (put key value d) ≡ (if text_eq other key then some value else get other d)
unfolding get put
get-put other key value empty = refl
get-put other key value (member k v d) = ground (
  arith,
  get-put other key value d,
  text_eq_iff key k,
  text_eq_iff other k,
  text_eq_iff other key,
)

pub get-pop :
    (other key : Text) (d : Members)
    → get other (pop key d) ≡ (if text_eq other key then none else get other d)
unfolding get pop
get-pop other key empty = ground arith
get-pop other key (member k v d) =
    ground
      (arith, get-pop other key d, text_eq_iff key k, text_eq_iff other k, text_eq_iff other key)

-- The value of a key in the last of its entries; a dictionary has one.
unfoldable pub get_last : Text → Members → Option Json
get_last key empty = none
get_last key (member k v d) = elim (get_last key d) [
  | some later ↦ some later
  | none ↦ if text_eq key k then some v else none
]

abbrev pub or_else : Option Json → Option Json → Option Json
or_else (some v) d = some v
or_else none d = d

pub get-merge :
    (key : Text) (d patch : Members)
    → get key (merge d patch) ≡ or_else (get_last key patch) (get key d)
unfolding merge get_last
get-merge key d empty = refl
get-merge key d (member k v patch) =
    ground (arith, get-merge key (put k v d) patch, get-put key k v d)

-- No key has two entries.
abbrev pub IsDict : Members → Type 0
IsDict empty = Unit
IsDict (member k v d) = (get k d ≡ none) × IsDict d

pub get_last-get : (key : Text) (d : Members) → IsDict d → get_last key d ≡ get key d
unfolding get_last get
get_last-get key empty h = refl
get_last-get key (member k v d) (fresh, h) = ground (arith, get_last-get key d h, text_eq_iff key k)

pub IsDict-put : (key : Text) (value : Json) (d : Members) → IsDict d → IsDict (put key value d)
unfolding put get
IsDict-put key value empty h = (refl, tt)
IsDict-put key value (member k v d) (fresh, h) =
    ground
      (arith, get-put k key value d, text_eq_iff key k, text_eq_iff k key, IsDict-put key value d h)

pub get-put_same :
    (key : Text) (value : Json) (d : Members) → get key (put key value d) ≡ some value
get-put_same key value d = ground (arith, get-put key key value d, text_eq_refl key)

pub put-put :
    (key : Text) (value : Json) (d : Members) → put key value (put key value d) ≡ put key value d
unfolding put
put-put key value empty = ground (arith, text_eq_refl key)
put-put key value (member k v d) = ground (arith, put-put key value d)

pub IsDict-pop : (key : Text) (d : Members) → IsDict d → IsDict (pop key d)
unfolding pop get
IsDict-pop key empty h = tt
IsDict-pop key (member k v d) (fresh, h) =
    ground (arith, fresh, IsDict-pop key d h, get-pop k key d)

-- ===== src/Plugins/Version.antt =====
-- src/hpc_gui/plugins/compatibility.py: versions and their order. Where the code raises a
-- ValueError, the outer option is `none`.
use hpc_client_gui.Base.{
  ℕ, ◌-◌, List, [], ◌∷◌, ◌++◌, not, ◌==◌, ltb, if◌then◌else◌, length, replicate, Option, none, some,
}
use hpc_client_gui.Base.Text.{Text, split}
use hpc_client_gui.Base.Digits.{is_digit_text, int_of}

abbrev pub Version : Type 0
Version = List ℕ

abbrev pub head_or_nil : List Text → Text
head_or_nil [] = []
head_or_nil (t ∷ ts) = t

-- The loop over the parts of a version: a ValueError, None, or the numbers.
unfoldable pub numbers : List Text → Option (Option Version)
numbers [] = some (some [])
numbers (part ∷ parts) =
    let rest = numbers parts in
    if is_digit_text part
    then elim (int_of part) [
      | none ↦ none
      | some n ↦ elim rest [
        | none ↦ none
        | some none ↦ some none
        | some (some ns) ↦ some (some (n ∷ ns))
      ]
    ]
    else some none

-- The loop that appends zeros.
abbrev pub pad : Version → Version
pad ns = ns ++ replicate (3 - length ns) 0

unfoldable pub parse_version : Text → Option (Option Version)
unfolding numbers split
parse_version value =
    let core = head_or_nil (split b'-' (head_or_nil (split b'+' value))) in
    elim (numbers (split b'.' core)) [
      | none ↦ none
      | some none ↦ some none
      | some (some ns) ↦ some (some (pad ns))
    ]

pub data Order : Type 0 where
  less same more : Order

-- `_compare`
unfoldable pub compare : Version → Version → Order
compare [] right = same
compare (a ∷ left) [] = same
compare (a ∷ left) (b ∷ right) =
    let rest = compare left right in if not (a == b) then (if ltb a b then less else more) else rest

-- ===== src/Transfer/Utf8/Prefix.antt =====
-- The bytes at which the decoder stops: the start of a code point, or bytes that no others mend.
use Prim.Native.Nat.{bit_and}
use hpc_client_gui.Base.{
  ℕ, zero, suc, ◌+◌, ◌*◌, ◌≤◌, ◌<◌, ◌≡◌, refl, List, [], ◌∷◌, ◌++◌, Bool, true, not, ◌&&◌, ◌||◌,
  ltb, leb, ◌==◌, if◌then◌else◌, length, All, all, arith, length-append,
}
use hpc_client_gui.Transfer.Utf8.{Need, idle, one, two, three, more, step, is_utf8_prefix}

-- How many bytes follow a first byte; zero if it cannot begin a longer code point.
abbrev pub follow : ℕ → ℕ
follow l =
    if ltb l 0xC2
    then 0
    else if ltb l 0xE0
    then 1
    else if ltb l 0xF0
    then 2
    else if ltb l 0xF5
    then 3
    else 0

abbrev pub needs : Need → ℕ
needs idle = 0
needs (one acc) = 1
needs (two lo hi acc) = 2
needs (three lo hi acc) = 3

-- The bits read so far make a code point beyond ASCII.
abbrev pub InRange : Need → Type 0
InRange idle = Unit
InRange (one acc) = 2 ≤ acc
InRange (two lo hi acc) = (128 ≤ lo) × (hi < 192) × (128 + 2 ≤ acc * 64 + lo)
InRange (three lo hi acc) = (128 ≤ lo) × (hi < 192) × (128 + 2 ≤ acc * 64 + lo)

abbrev pub IsNext : ℕ → Type 0
IsNext c = (128 ≤ c) × (c < 192)

-- The decoder waits inside a code point, behind its first bytes.
abbrev pub Begun : Need → List ℕ → Type 0
Begun n [] = ⊥
Begun n (l ∷ tail) =
    (0 < needs n) × (follow l ≡ length tail + needs n) × All IsNext tail × InRange n

pub Begun-lead : (n : Need) (b : ℕ) → step idle b ≡ more n → Begun n (b ∷ [])
unfolding step
Begun-lead n b e = ground arith

All-snoc : (c : ℕ) (xs : List ℕ) → All IsNext xs → IsNext c → All IsNext (xs ++ (c ∷ []))
All-snoc c [] h k = (k, tt)
All-snoc c (x ∷ xs) h k = (h.0, All-snoc c xs h.1 k)

pub step-IsNext :
    (n n' : Need) (b : ℕ)
    → step n b ≡ more n'
    → 0 < needs n
    → InRange n
    → IsNext b × (needs n ≡ suc (needs n')) × (0 < needs n') × InRange n'
unfolding step
step-IsNext n n' b e h r = ground arith

pub Begun-more :
    (n n' : Need) (held : List ℕ) (b : ℕ)
    → step n b ≡ more n'
    → Begun n held
    → Begun n' (held ++ (b ∷ []))
Begun-more n n' [] b e h = absurd h
Begun-more n n' (l ∷ tail) b e h =
    let s = step-IsNext n n' b e h.0 h.3 in
    (s.2, omega (arith, length-append tail (b ∷ [])), All-snoc b tail h.2 s.0, s.3)

-- A test holds of every number under a bound.
holds_under : (ℕ → Bool) → ℕ → Bool
holds_under test zero = true
holds_under test (suc k) = holds_under test k && test k

holds_under_lem :
    (test : ℕ → Bool) (bound : ℕ) {byte : ℕ}
    → byte < bound
    → holds_under test bound ≡ true
    → test byte ≡ true
unfolding holds_under
holds_under_lem test zero small whole = elim small [ ]
holds_under_lem test (suc k) {byte} small whole =
    ground (arith, holds_under_lem test k {byte = byte})

-- What the masks say of a byte, against its range.
masks : ℕ → Bool
masks l =
    if follow l == 0
    then true
    else not (bit_and l 0x80 == 0)
      && (if follow l == 1
          then bit_and l 0xE0 == 0xC0
          else not (bit_and l 0xE0 == 0xC0)
            && (if follow l == 2
                then bit_and l 0xF0 == 0xE0
                else not (bit_and l 0xF0 == 0xE0) && bit_and l 0xF8 == 0xF0))

masks_table : holds_under masks 256 ≡ true
unfolding holds_under masks
masks_table = refl

next_mask : ℕ → Bool
next_mask c = ltb c 128 || leb 192 c || bit_and c 0xC0 == 0x80

next_mask_table : holds_under next_mask 256 ≡ true
unfolding holds_under next_mask
next_mask_table = refl

IsNext-mask : (c : ℕ) → IsNext c → (bit_and c 0xC0 == 0x80) ≡ true
unfolding next_mask
IsNext-mask c h =
    ground (arith, holds_under_lem next_mask 256 {byte = c} (omega arith) next_mask_table)

all-IsNext : (xs : List ℕ) → All IsNext xs → all (λ c. bit_and c 0xC0 == 0x80) xs ≡ true
all-IsNext [] h = refl
all-IsNext (c ∷ xs) h = rw (IsNext-mask c h.0, all-IsNext xs h.1)

pub Begun-is_utf8_prefix : (n : Need) (held : List ℕ) → Begun n held → is_utf8_prefix held ≡ true
unfolding is_utf8_prefix masks
Begun-is_utf8_prefix n [] h = absurd h
Begun-is_utf8_prefix n (l ∷ tail) h =
    ground
      (arith, all-IsNext tail h.2, holds_under_lem masks 256 {byte = l} (ground arith) masks_table)

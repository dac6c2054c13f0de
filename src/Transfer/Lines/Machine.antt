-- ===== src/Transfer/Lines/Machine.antt =====
-- The line normaliser as a machine that reads one code point at a time.
use hpc_client_gui.Base.{
  ℕ, ◌≡◌, refl, [], ◌∷◌, ◌++◌, Bool, true, false, ◌==◌, if◌then◌else◌, arith, append_assoc,
  append-nil, is_empty, ◌&&◌,
}
use hpc_client_gui.Base.Text.{Text}
use hpc_client_gui.Transfer.Lines.{cr, lf, flush_loop, flush}

-- What one code point adds to the output when no carriage return is held back.
plain : Text → ℕ → Text
plain newline c = if c == cr then [] else if c == lf then newline else c ∷ []

-- What one code point adds to the output; the flag says that a carriage return is held back.
emit : Text → Bool → ℕ → Text
unfolding plain
emit newline false c = plain newline c
emit newline true c = if c == lf then newline else newline ++ plain newline c

-- The output for a text, read with a carriage return held back or not.
unfoldable pub output : Text → Bool → Text → Text
unfolding emit
output newline held [] = []
output newline held (c ∷ s) = emit newline held c ++ output newline (c == cr) s

-- Whether a carriage return is held back at the end of the text.
unfoldable pub held_after : Bool → Text → Bool
held_after held [] = held
held_after held (c ∷ s) = held_after (c == cr) s

output-old_mac :
    (newline s : Text) (c d : ℕ)
    → c == cr ≡ true
    → d == lf ≡ false
    → output newline false (c ∷ d ∷ s) ≡ newline ++ output newline false (d ∷ s)
unfolding output
output-old_mac newline s c d p q = rw (p, q) (append_assoc newline _ _)

pub output-flush_loop : (newline s : Text) → (flush_loop newline s).0 ≡ output newline false s
unfolding flush_loop output
output-flush_loop newline [] = refl
output-flush_loop newline (c ∷ []) = ground arith
output-flush_loop newline (c ∷ d ∷ s) = ground (
  arith,
  output-old_mac newline s c d,
  output-flush_loop newline s,
  output-flush_loop newline (d ∷ s),
)

pub held-flush_loop : (newline s : Text) → (flush_loop newline s).1 ≡ held_after false s
unfolding flush_loop held_after
held-flush_loop newline [] = refl
held-flush_loop newline (c ∷ []) = ground arith
held-flush_loop newline (c ∷ d ∷ s) =
    ground (arith, held-flush_loop newline s, held-flush_loop newline (d ∷ s))

-- What a text becomes when the file ends behind it.
unfoldable pub finish : Text → Bool → Text → Text
unfolding output held_after
finish newline held s = output newline held s ++ (if held_after held s then newline else [])

-- The first code point of a text is a line feed.
unfoldable pub begins_lf : Text → Bool
begins_lf [] = false
begins_lf (c ∷ s) = c == lf

output_held :
    (newline : Text) (c : ℕ) (s : Text)
    → c == lf ≡ false
    → output newline true (c ∷ s) ≡ newline ++ output newline false (c ∷ s)
unfolding output
output_held newline c s h = rw h (append_assoc newline _ _)

-- A held carriage return becomes one newline, and takes a line feed behind it along.
pub finish_held :
    (newline s : Text)
    → begins_lf s ≡ false
    → finish newline true s ≡ newline ++ finish newline false s
unfolding finish begins_lf
finish_held newline [] h = ground (arith, append-nil newline)
finish_held newline (c ∷ s) h = rw (output_held newline c s h) (append_assoc newline _ _)

output-append :
    (newline : Text) (held : Bool) (s t : Text)
    → output newline held (s ++ t) ≡ output newline held s ++ output newline (held_after held s) t
unfolding output held_after
output-append newline held [] t = refl
output-append newline held (c ∷ s) t = rw (output-append newline (c == cr) s t, append_assoc)

held_after-append :
    (held : Bool) (s t : Text) → held_after held (s ++ t) ≡ held_after (held_after held s) t
unfolding held_after
held_after-append held [] t = refl
held_after-append held (c ∷ s) t = held_after-append (c == cr) s t

-- One chunk: what `flush` returns is what the machine writes, unless a held carriage return
-- meets an empty chunk.
pub flush_lem :
    (newline s : Text) (held : Bool)
    → is_empty s && held ≡ false
    → flush s newline held ≡ (output newline held s, held_after held s)
unfolding flush output held_after
flush_lem newline s false h = λ i. (output-flush_loop newline s i, held-flush_loop newline s i)
flush_lem newline [] true h = cc
flush_lem newline (c ∷ s) true h = ground (
  arith,
  output_held newline c s,
  output-flush_loop newline s,
  output-flush_loop newline (c ∷ s),
  held-flush_loop newline s,
  held-flush_loop newline (c ∷ s),
)

-- A file that ends behind a text and a rest.
pub finish-append :
    (newline : Text) (held : Bool) (s t : Text)
    → finish newline held (s ++ t) ≡ output newline held s ++ finish newline (held_after held s) t
unfolding finish
finish-append newline held s t =
    rw (output-append newline held s t, held_after-append held s t, append_assoc)

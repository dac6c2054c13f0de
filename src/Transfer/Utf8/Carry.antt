-- ===== src/Transfer/Utf8/Carry.antt =====
-- What `_utf8_carry_split` returns, and what it means for the bytes to come.
use hpc_client_gui.Base.{
  ℕ, ◌≤◌, ◌<◌, ◌≡◌, refl, sym, ◌∙◌, ap, ◌≢◌, ◌⊎◌, inl, inr, List, [], ◌∷◌, ◌++◌, false, length,
  arith, append_assoc, append-nil,
}
use mathlib.Core.Path.{subst}
use hpc_client_gui.Base.Text.{Text}
use hpc_client_gui.Transfer.Lines.Machine.{begins_lf}
use hpc_client_gui.Transfer.Utf8.{
  Need, idle, one, two, three, point, more, bad, step, Decoded, text, fault, prepend, at_end,
  decode_from, decode,
}
use hpc_client_gui.Transfer.Utf8.Join.{
  Holds, Holds-idle, Holds-more, decode_from-more, decode_from-point, decode_from-bad,
  decode_from-nil, Move-cases,
}
use hpc_client_gui.Transfer.Utf8.Prefix.{needs, InRange, Begun, Begun-lead, Begun-more, step-IsNext}

abbrev pub IsFault : Decoded → Type 0
IsFault (text t) = ⊥
IsFault (fault t tail n) = Unit

pub IsFault-prepend : (s : Text) (d : Decoded) → IsFault d → IsFault (prepend s d)
IsFault-prepend s (text t) h = h
IsFault-prepend s (fault t tail n) h = tt

-- The bytes are the start of a code point.
unfoldable pub Cut : List ℕ → Type 0
Cut tail = (n : Need) × Holds n tail × Begun n tail

-- No bytes that may follow make these decode.
unfoldable pub Hopeless : List ℕ → Type 0
Hopeless tail = (tail ≢ []) × ((ys : List ℕ) → IsFault (decode_from idle [] (tail ++ ys)))

abbrev pub Stop : Decoded → Type 0
Stop (text t) = Unit
Stop (fault t tail n) = (Cut tail × (n ≡ length tail)) ⊎ Hopeless tail

Stop-prepend : (s : Text) (d : Decoded) → Stop d → Stop (prepend s d)
Stop-prepend s (text t) h = tt
Stop-prepend s (fault t tail n) h = h

-- Between two code points, or inside one.
abbrev pub Ready : Need → List ℕ → Type 0
Ready n held = (n ≡ idle) ⊎ Begun n held

Ready-more :
    (n n' : Need) (held : List ℕ) (b : ℕ)
    → step n b ≡ more n'
    → Holds n held
    → Ready n held
    → Begun n' (held ++ (b ∷ []))
Ready-more n n' held b e h (inl i) = rw (h.1 i) (Begun-lead n' b (ap (λ m. step m b) (sym i) ∙ e))
Ready-more n n' held b e h (inr g) = Begun-more n n' held b e g

Stop-at_end : (n : Need) (held : List ℕ) → Holds n held → Ready n held → Stop (at_end n held)
unfolding Cut
Stop-at_end idle held h r = tt
Stop-at_end (one acc) held h (inl i) = cc
Stop-at_end (one acc) held h (inr g) = inl ((one acc, h, g), refl)
Stop-at_end (two lo hi acc) held h (inl i) = cc
Stop-at_end (two lo hi acc) held h (inr g) = inl ((two lo hi acc, h, g), refl)
Stop-at_end (three lo hi acc) held h (inl i) = cc
Stop-at_end (three lo hi acc) held h (inr g) = inl ((three lo hi acc, h, g), refl)

pub append-ne-nil : (xs : List ℕ) (b : ℕ) (ys : List ℕ) → xs ++ (b ∷ ys) ≢ []
append-ne-nil [] b ys e = cc
append-ne-nil (x ∷ xs) b ys e = cc

Hopeless-bad :
    (n : Need) (held : List ℕ) (b : ℕ) (bs : List ℕ)
    → Holds n held
    → step n b ≡ bad
    → Hopeless (held ++ (b ∷ bs))
unfolding Hopeless
Hopeless-bad n held b bs h e = (
  append-ne-nil held b bs,
  λ ys. rw (append_assoc, h.0 (b ∷ bs ++ ys), decode_from-bad n held b (bs ++ ys) e) tt,
)

pub Stop-decode_from :
    (n : Need) (held xs : List ℕ) → Holds n held → Ready n held → Stop (decode_from n held xs)
Stop-decode_from n held [] h r = rw decode_from-nil (Stop-at_end n held h r)
Stop-decode_from n held (b ∷ xs) h r = elim (Move-cases (step n b)) [
  | inl (c, e) ↦
      rw (decode_from-point n held b c xs e)
        (Stop-prepend (c ∷ []) _ (Stop-decode_from idle [] xs Holds-idle (inl refl)))
  | inr (inl (n', e)) ↦
      rw (decode_from-more n n' held b xs e)
        (Stop-decode_from n' _ xs (Holds-more n n' held b e h) (inr (Ready-more n n' held b e h r)))
  | inr (inr e) ↦ rw (decode_from-bad n held b xs e) (inr (Hopeless-bad n held b xs h e))
]

-- A text does not begin with a line feed.
abbrev pub Quiet : Decoded → Type 0
Quiet (text t) = begins_lf t ≡ false
Quiet (fault t tail n) = Unit

point-beyond_ascii : (n : Need) (b c : ℕ) → step n b ≡ point c → 0 < needs n → InRange n → 128 ≤ c
unfolding step
point-beyond_ascii n b c e h r = ground arith

Quiet-prepend : (c : ℕ) (d : Decoded) → 128 ≤ c → Quiet (prepend (c ∷ []) d)
unfolding begins_lf
Quiet-prepend c (text t) h = ground arith
Quiet-prepend c (fault t tail n) h = tt

Quiet-at_end : (n : Need) (held : List ℕ) → Quiet (at_end n held)
unfolding begins_lf
Quiet-at_end idle held = refl
Quiet-at_end (one acc) held = tt
Quiet-at_end (two lo hi acc) held = tt
Quiet-at_end (three lo hi acc) held = tt

Quiet-decode_from :
    (n : Need) (held xs : List ℕ) → 0 < needs n → InRange n → Quiet (decode_from n held xs)
Quiet-decode_from n held [] h r = rw decode_from-nil (Quiet-at_end n held)
Quiet-decode_from n held (b ∷ xs) h r = elim (Move-cases (step n b)) [
  | inl (c, e) ↦
      rw (decode_from-point n held b c xs e) (Quiet-prepend c _ (point-beyond_ascii n b c e h r))
  | inr (inl (n', e)) ↦
      let s = step-IsNext n n' b e h r in
      rw (decode_from-more n n' held b xs e) (Quiet-decode_from n' _ xs s.2 s.3)
  | inr (inr e) ↦ rw (decode_from-bad n held b xs e) tt
]

-- What `_utf8_carry_split` hands to the next chunk: no text by itself, and no line feed first
-- in the text that begins with it.
unfoldable pub Carried : List ℕ → Type 0
Carried tail = (tail ≢ []) × IsFault (decode tail) × ((ys : List ℕ) → Quiet (decode (tail ++ ys)))

IsFault→Quiet : (d : Decoded) → IsFault d → Quiet d
IsFault→Quiet (text t) h = absurd h
IsFault→Quiet (fault t tail n) h = tt

Begun-parts : (n : Need) (tail : List ℕ) → Begun n tail → (tail ≢ []) × (0 < needs n) × InRange n
Begun-parts n [] g = absurd g
Begun-parts n (l ∷ tail) g = (λ e. cc, g.0, g.3)

IsFault-at_end : (n : Need) (held : List ℕ) → 0 < needs n → IsFault (at_end n held)
IsFault-at_end idle held h = absurd (omega arith)
IsFault-at_end (one acc) held h = tt
IsFault-at_end (two lo hi acc) held h = tt
IsFault-at_end (three lo hi acc) held h = tt

pub Cut-Carried : (tail : List ℕ) → Cut tail → Carried tail
unfolding Cut Carried decode
Cut-Carried tail (n, h, g) =
    let p = Begun-parts n tail g in
    (
      p.0,
      rw (← append-nil tail, h.0 [], decode_from-nil n tail) (IsFault-at_end n tail p.1),
      λ ys. rw (h.0 ys) (Quiet-decode_from n tail ys p.1 p.2),
    )

pub Hopeless-Carried : (tail : List ℕ) → Hopeless tail → Carried tail
unfolding Hopeless Carried decode
Hopeless-Carried tail (ne, f) = (
  ne,
  subst (λ xs. IsFault (decode_from idle [] xs)) (append-nil tail) (f []),
  λ ys. IsFault→Quiet _ (f ys),
)

-- Bytes decode to no text only where there are none.
abbrev IsNotNil : Decoded → Type 0
IsNotNil (text t) = t ≢ []
IsNotNil (fault t tail n) = Unit

IsNotNil-prepend : (c : ℕ) (d : Decoded) → IsNotNil (prepend (c ∷ []) d)
IsNotNil-prepend c (text t) = λ e. cc
IsNotNil-prepend c (fault t tail n) = tt

IsNotNil-inside :
    (n : Need) (held xs : List ℕ) → 0 < needs n → InRange n → IsNotNil (decode_from n held xs)
IsNotNil-inside n held [] h r = rw decode_from-nil (IsNotNil-at_end n held h)
  where
    IsNotNil-at_end : (n : Need) (held : List ℕ) → 0 < needs n → IsNotNil (at_end n held)
    IsNotNil-at_end idle held h = absurd (omega arith)
    IsNotNil-at_end (one acc) held h = tt
    IsNotNil-at_end (two lo hi acc) held h = tt
    IsNotNil-at_end (three lo hi acc) held h = tt
IsNotNil-inside n held (b ∷ xs) h r = elim (Move-cases (step n b)) [
  | inl (c, e) ↦ rw (decode_from-point n held b c xs e) (IsNotNil-prepend c _)
  | inr (inl (n', e)) ↦
      let s = step-IsNext n n' b e h r in
      rw (decode_from-more n n' held b xs e) (IsNotNil-inside n' _ xs s.2 s.3)
  | inr (inr e) ↦ rw (decode_from-bad n held b xs e) tt
]

IsNotNil-decode : (b : ℕ) (xs : List ℕ) → IsNotNil (decode (b ∷ xs))
unfolding decode
IsNotNil-decode b xs = elim (Move-cases (step idle b)) [
  | inl (c, e) ↦ rw (decode_from-point idle [] b c xs e) (IsNotNil-prepend c _)
  | inr (inl (n, e)) ↦
      let g = Begun-lead n b e in
      rw (decode_from-more idle n [] b xs e) (IsNotNil-inside n _ xs g.0 g.3)
  | inr (inr e) ↦ rw (decode_from-bad idle [] b xs e) tt
]

pub decode-ne-nil : (xs : List ℕ) {t : Text} → xs ≢ [] → decode xs ≡ text t → t ≢ []
decode-ne-nil [] h e = absurd (h refl)
decode-ne-nil (b ∷ xs) h e = rw e at (IsNotNil-decode b xs)

pub decode-nil : decode [] ≡ text []
unfolding decode
decode-nil = refl

pub Carried-IsFault : (tail : List ℕ) → Carried tail → IsFault (decode tail)
unfolding Carried
Carried-IsFault tail c = c.1

pub Carried-Quiet : (tail ys : List ℕ) → Carried tail → Quiet (decode (tail ++ ys))
unfolding Carried
Carried-Quiet tail ys c = c.2 ys

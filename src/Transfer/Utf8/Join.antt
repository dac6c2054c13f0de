-- ===== src/Transfer/Utf8/Join.antt =====
-- Decoding in pieces: what the decoder makes of bytes that come behind a place where it stopped.
use hpc_client_gui.Base.{
  ℕ, ◌≡◌, refl, sym, ◌≢◌, ◌⊎◌, inl, inr, ◌∙◌, ap, List, [], ◌∷◌, ◌++◌, arith, append_assoc,
}
use hpc_client_gui.Base.Text.{Text}
use hpc_client_gui.Transfer.Utf8.{
  Need, idle, one, two, three, Move, point, more, bad, step, Decoded, text, fault, prepend, at_end,
  span, decode_from,
}

-- The held bytes are those that lead to what the decoder waits for, and it waits for nothing
-- only where it holds nothing.
abbrev pub Holds : Need → List ℕ → Type 0
Holds n held =
    ((bs : List ℕ) → decode_from idle [] (held ++ bs) ≡ decode_from n held bs)
    × (n ≡ idle → held ≡ [])

pub Holds-idle : Holds idle []
Holds-idle = (λ bs. refl, λ e. refl)

pub step-ne-idle : (n : Need) (b : ℕ) → step n b ≢ more idle
unfolding step
step-ne-idle n b e = ground arith

pub decode_from-more :
    (n n' : Need) (held : List ℕ) (b : ℕ) (bs : List ℕ)
    → step n b ≡ more n'
    → decode_from n held (b ∷ bs) ≡ decode_from n' (held ++ (b ∷ [])) bs
unfolding decode_from
decode_from-more n n' held b bs e = rw (e, decode_from)

pub Holds-more :
    (n n' : Need) (held : List ℕ) (b : ℕ)
    → step n b ≡ more n'
    → Holds n held
    → Holds n' (held ++ (b ∷ []))
Holds-more n n' held b e h = (
  λ bs. rw append_assoc (h.0 (b ∷ bs) ∙ decode_from-more n n' held b bs e),
  λ i. absurd (step-ne-idle n b (e ∙ ap more i)),
)

pub prepend-nil : (d : Decoded) → prepend [] d ≡ d
prepend-nil (text t) = refl
prepend-nil (fault t tail n) = refl

prepend-append : (s t : Text) (d : Decoded) → prepend (s ++ t) d ≡ prepend s (prepend t d)
prepend-append s t (text u) = rw append_assoc
prepend-append s t (fault u tail n) = rw append_assoc

-- What the decoder has found, with bytes to come: it goes on where it stopped.
abbrev pub resume : Decoded → List ℕ → Decoded
resume (text t) more_bytes = prepend t (decode_from idle [] more_bytes)
resume (fault t tail n) more_bytes = prepend t (decode_from idle [] (tail ++ more_bytes))

resume-prepend :
    (s : Text) (d : Decoded) (ys : List ℕ) → resume (prepend s d) ys ≡ prepend s (resume d ys)
resume-prepend s (text t) ys = prepend-append s t _
resume-prepend s (fault t tail n) ys = prepend-append s t _

pub decode_from-point :
    (n : Need) (held : List ℕ) (b c : ℕ) (bs : List ℕ)
    → step n b ≡ point c
    → decode_from n held (b ∷ bs) ≡ prepend (c ∷ []) (decode_from idle [] bs)
unfolding decode_from
decode_from-point n held b c bs e = rw (e, decode_from)

pub decode_from-bad :
    (n : Need) (held : List ℕ) (b : ℕ) (bs : List ℕ)
    → step n b ≡ bad
    → decode_from n held (b ∷ bs) ≡ fault [] (held ++ (b ∷ bs)) (span n held)
unfolding decode_from
decode_from-bad n held b bs e = rw (e, decode_from)

pub decode_from-nil : (n : Need) (held : List ℕ) → decode_from n held [] ≡ at_end n held
unfolding decode_from
decode_from-nil n held = refl

pub Move-cases : (m : Move) → ((c : ℕ) × (m ≡ point c)) ⊎ (((n : Need) × (m ≡ more n)) ⊎ (m ≡ bad))
Move-cases (point c) = inl (c, refl)
Move-cases (more n) = inr (inl (n, refl))
Move-cases bad = inr (inr refl)

-- At the end of the bytes.
resume-at_end :
    (n : Need) (held ys : List ℕ) → Holds n held → decode_from n held ys ≡ resume (at_end n held) ys
resume-at_end idle held ys h = rw (h.1 refl) (sym (prepend-nil _))
resume-at_end (one acc) held ys h = sym (h.0 ys) ∙ sym (prepend-nil _)
resume-at_end (two lo hi acc) held ys h = sym (h.0 ys) ∙ sym (prepend-nil _)
resume-at_end (three lo hi acc) held ys h = sym (h.0 ys) ∙ sym (prepend-nil _)

resume-bad :
    (n : Need) (held : List ℕ) (b : ℕ) (xs ys : List ℕ)
    → Holds n held
    → step n b ≡ bad
    → decode_from n held (b ∷ xs ++ ys) ≡ resume (decode_from n held (b ∷ xs)) ys
resume-bad n held b xs ys h e =
    rw (decode_from-bad n held b xs e, append_assoc, h.0 (b ∷ xs ++ ys)) (sym (prepend-nil _))

-- A decoder that is given more bytes goes on where it stopped.
pub decode_from-append :
    (n : Need) (held xs ys : List ℕ)
    → Holds n held
    → decode_from n held (xs ++ ys) ≡ resume (decode_from n held xs) ys
decode_from-append n held [] ys h =
    resume-at_end n held ys h ∙ ap (λ d. resume d ys) (sym (decode_from-nil n held))
decode_from-append n held (b ∷ xs) ys h = elim (Move-cases (step n b)) [
  | inl (c, e) ↦ rw (
    decode_from-point n held b c (xs ++ ys) e,
    decode_from-append idle [] xs ys Holds-idle,
    decode_from-point n held b c xs e,
    resume-prepend,
  )
  | inr (inl (n', e)) ↦
      rw (decode_from-more n n' held b (xs ++ ys) e, decode_from-more n n' held b xs e)
        (decode_from-append n' _ xs ys (Holds-more n n' held b e h))
  | inr (inr e) ↦ resume-bad n held b xs ys h e
]

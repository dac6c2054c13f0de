-- ===== src/Transfer/Utf8/Split.antt =====
-- `_utf8_carry_split` against decoding the bytes with all that follow them.
use hpc_client_gui.Base.{
  ℕ, ◌≡◌, refl, ◌∙◌, ap, inl, inr, List, [], ◌++◌, Bool, false, not, ◌||◌, ◌==◌, Bool-cases,
  if◌then◌else◌, length, arith, none, some,
}
use hpc_client_gui.Base.Text.{Text}
use hpc_client_gui.Transfer.Utf8.{
  Decoded, idle, text, fault, prepend, decode, is_utf8_prefix, carry_split,
}
use hpc_client_gui.Transfer.Utf8.Join.{Holds-idle, decode_from-append, resume}
use hpc_client_gui.Transfer.Utf8.Prefix.{Begun-is_utf8_prefix}
use hpc_client_gui.Transfer.Utf8.Carry.{
  IsFault, IsFault-prepend, Cut, Hopeless, Stop, Stop-decode_from, Carried, Cut-Carried,
  Hopeless-Carried,
}

pub decode-append : (xs ys : List ℕ) → decode (xs ++ ys) ≡ resume (decode xs) ys
unfolding decode
decode-append xs ys = decode_from-append idle [] xs ys Holds-idle

pub decode-append_text :
    (xs : List ℕ) (t : Text)
    → decode xs ≡ text t
    → (ys : List ℕ) → decode (xs ++ ys) ≡ prepend t (decode ys)
unfolding decode
decode-append_text xs t e ys = decode-append xs ys ∙ ap (λ d. resume d ys) e

-- The test for an error that no bytes to come can mend.
rejects : List ℕ → ℕ → Bool
rejects tail n = not (is_utf8_prefix tail) || not (n == length tail)

rejects-Cut : (tail : List ℕ) (n : ℕ) → Cut tail → n ≡ length tail → rejects tail n ≡ false
unfolding rejects Cut
rejects-Cut tail n (need, h, g) e = ground (arith, Begun-is_utf8_prefix need tail g)

Stop-decode : (xs : List ℕ) → Stop (decode xs)
unfolding decode
Stop-decode xs = Stop-decode_from idle [] xs Holds-idle (inl refl)

carry_split-text : (xs : List ℕ) (t : Text) → decode xs ≡ text t → carry_split xs ≡ some (t, [])
unfolding carry_split
carry_split-text xs t e = rw (e, carry_split)

carry_split-fault :
    (xs : List ℕ) (t : Text) (tail : List ℕ) (n : ℕ)
    → decode xs ≡ fault t tail n
    → carry_split xs ≡ (if rejects tail n then none else some (t, tail))
unfolding carry_split rejects
carry_split-fault xs t tail n e = rw (e, carry_split)

-- The three outcomes: all bytes decode, no bytes to come make them decode, or an end is carried.
pub data Outcome (xs : List ℕ) : Type 0 where
  whole :
      (t : Text)
      → decode xs ≡ text t
      → ((ys : List ℕ) → decode (xs ++ ys) ≡ prepend t (decode ys))
      → carry_split xs ≡ some (t, [])
      → Outcome xs
  hopeless : ((ys : List ℕ) → IsFault (decode (xs ++ ys))) → carry_split xs ≡ none → Outcome xs
  carried :
      (t : Text) (tail : List ℕ)
      → ((ys : List ℕ) → decode (xs ++ ys) ≡ prepend t (decode (tail ++ ys)))
      → carry_split xs ≡ some (t, tail)
      → Carried tail
      → Outcome xs

Hopeless-IsFault : (tail ys : List ℕ) → Hopeless tail → IsFault (decode (tail ++ ys))
unfolding Hopeless decode
Hopeless-IsFault tail ys h = h.1 ys

module _ (xs : List ℕ) (t : Text) (tail : List ℕ) (n : ℕ) (e : decode xs ≡ fault t tail n) where
  append_of : (ys : List ℕ) → decode (xs ++ ys) ≡ prepend t (decode (tail ++ ys))
  unfolding decode
  append_of ys = decode-append xs ys ∙ ap (λ d. resume d ys) e

  Outcome-Carried : Carried tail → rejects tail n ≡ false → Outcome xs
  Outcome-Carried c r = carried t tail append_of (rw (carry_split-fault xs t tail n e, r)) c

  Outcome-Hopeless : Hopeless tail → Outcome xs
  Outcome-Hopeless h = elim (Bool-cases (rejects tail n)) [
    | inl r ↦
        hopeless (λ ys. rw append_of (IsFault-prepend t _ (Hopeless-IsFault tail ys h)))
          (rw (carry_split-fault xs t tail n e, r))
    | inr r ↦ Outcome-Carried (Hopeless-Carried tail h) r
  ]

  Outcome-Stop : Stop (fault t tail n) → Outcome xs
  Outcome-Stop (inl (cut, m)) = Outcome-Carried (Cut-Carried tail cut) (rejects-Cut tail n cut m)
  Outcome-Stop (inr h) = Outcome-Hopeless h

Outcome-Decoded : (xs : List ℕ) (d : Decoded) → decode xs ≡ d → Stop d → Outcome xs
Outcome-Decoded xs (text t) e s = whole t e (decode-append_text xs t e) (carry_split-text xs t e)
Outcome-Decoded xs (fault t tail n) e s = Outcome-Stop xs t tail n e s

pub outcome : (xs : List ℕ) → Outcome xs
outcome xs = Outcome-Decoded xs (decode xs) refl (Stop-decode xs)

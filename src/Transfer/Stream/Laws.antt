-- ===== src/Transfer/Stream/Laws.antt =====
-- The streaming conversion against the conversion of the whole file.
use mathlib.Core.Option
use mathlib.Core.List.{flatten}
use hpc_client_gui.Base.{
  ℕ, ◌≡◌, refl, sym, ◌∙◌, ap, ◌≢◌, ◌⊎◌, inl, inr, List, [], ◌∷◌, ◌++◌, Bool, true, false, ◌&&◌,
  Option, none, some, All, is_empty, append_assoc, append-nil, Option-cases,
}
use hpc_client_gui.Base.Text.{Text}
use hpc_client_gui.Transfer.Lines.{lf, flush, to_unix, to_local}
use hpc_client_gui.Transfer.Lines.Machine.{
  output, held_after, finish, finish_held, flush_lem, finish-append,
}
use hpc_client_gui.Transfer.Lines.Whole.{finish-to_local, to_local-lf}
use hpc_client_gui.Transfer.Utf8.{Decoded, text, fault, prepend, decode, carry_split}
use hpc_client_gui.Transfer.Utf8.Join.{prepend-nil}
use hpc_client_gui.Transfer.Utf8.Carry.{
  append-ne-nil, IsFault, Quiet, Carried, decode-ne-nil, decode-nil, Carried-IsFault, Carried-Quiet,
}
use hpc_client_gui.Transfer.Utf8.Split.{Outcome, whole, hopeless, carried, outcome}
use hpc_client_gui.Transfer.Stream.{
  stream_end, stream_loop, stream_lines, ascii_for_remote, ascii_for_local,
}

-- What a stream writes whose remaining bytes decode to this.
abbrev expected : Text → Bool → Decoded → Option Text
expected newline pending (text t) = some (finish newline pending t)
expected newline pending (fault t tail n) = none

expected-IsFault :
    (newline : Text) (pending : Bool) (d : Decoded) → IsFault d → expected newline pending d ≡ none
expected-IsFault newline pending (text t) h = absurd h
expected-IsFault newline pending (fault t tail n) h = refl

-- A text behind which no carriage return is lost.
expected-prepend :
    (newline : Text) (pending : Bool) (t : Text) (d : Decoded)
    → expected newline pending (prepend t d)
      ≡ Option.map
          (λ rest. output newline pending t ++ rest)
          (expected newline (held_after pending t) d)
expected-prepend newline pending t (text u) = ap some (finish-append newline pending t u)
expected-prepend newline pending t (fault u tail n) = refl

-- A carriage return that is written out before an empty text.
expected-Quiet :
    (newline : Text) (d : Decoded)
    → Quiet d
    → expected newline true d ≡ Option.map (λ rest. newline ++ rest) (expected newline false d)
expected-Quiet newline (text t) h = ap some (finish_held newline t h)
expected-Quiet newline (fault t tail n) h = refl

flush_nil : (newline : Text) → flush [] newline true ≡ (newline ++ [], false)
unfolding flush
flush_nil newline = refl

-- The carry at the head of a round.
abbrev IsCarry : List ℕ → Type 0
IsCarry carry = (carry ≡ []) ⊎ Carried carry

stream_end_lem :
    (newline : Text) (carry : List ℕ) (pending : Bool)
    → IsCarry carry
    → stream_end newline carry pending ≡ expected newline pending (decode carry)
unfolding stream_end finish
stream_end_lem newline [] pending c = rw decode-nil refl
stream_end_lem newline (b ∷ carry) pending (inl e) = cc
stream_end_lem newline (b ∷ carry) pending (inr c) =
    sym (expected-IsFault newline pending _ (Carried-IsFault _ c))

module _ (newline : Text) (chunks : List (List ℕ)) (rest : List ℕ) where
  -- The loop does what is expected of the chunks to come.
  abbrev Continues : Type 0
  Continues =
      (carry : List ℕ) (pending : Bool)
      → IsCarry carry
      → stream_loop newline carry pending chunks ≡ expected newline pending (decode (carry ++ rest))

  round : Option (Text × List ℕ) → Bool → Option Text
  round none pending = none
  round (some (t, carry)) pending =
      let (flushed, pending') = flush t newline pending in
      Option.map (λ more. flushed ++ more) (stream_loop newline carry pending' chunks)

  -- A text that is not empty, or comes with no carriage return held back.
  round-text :
      (t : Text) (carry : List ℕ) (pending : Bool)
      → Continues
      → IsCarry carry
      → is_empty t && pending ≡ false
      → round (some (t, carry)) pending
        ≡ expected newline pending (prepend t (decode (carry ++ rest)))
  unfolding round
  round-text t carry pending go c h =
      rw (flush_lem newline t pending h, go carry (held_after pending t) c, expected-prepend)

  round_held :
      (carry : List ℕ)
      → Continues
      → Carried carry
      → round (some ([], carry)) true ≡ expected newline true (decode (carry ++ rest))
  unfolding round
  round_held carry go c =
      rw (flush_nil newline, go carry false (inr c), append-nil)
        (sym (expected-Quiet newline (decode (carry ++ rest)) (Carried-Quiet carry rest c)))

  round-Carried :
      (t : Text) (carry : List ℕ) (pending : Bool)
      → Continues
      → Carried carry
      → round (some (t, carry)) pending
        ≡ expected newline pending (prepend t (decode (carry ++ rest)))
  round-Carried [] carry true go c =
      round_held carry go c ∙ sym (ap (expected newline true) (prepend-nil _))
  round-Carried [] carry false go c = round-text [] carry false go (inr c) refl
  round-Carried (x ∷ t) carry pending go c = round-text (x ∷ t) carry pending go (inr c) refl

  is_empty-false : (t : Text) (pending : Bool) → t ≢ [] → is_empty t && pending ≡ false
  is_empty-false [] pending h = absurd (h refl)
  is_empty-false (x ∷ t) pending h = refl

  round_lem :
      (xs : List ℕ) (pending : Bool)
      → xs ≢ []
      → Outcome xs
      → Continues
      → round (carry_split xs) pending ≡ expected newline pending (decode (xs ++ rest))
  unfolding round
  round_lem xs pending h (whole t e a s) go =
      rw (s, a rest)
        (round-text t [] pending go (inl refl) (is_empty-false t pending (decode-ne-nil xs h e)))
  round_lem xs pending h (hopeless f s) go =
      rw s (sym (expected-IsFault newline pending _ (f rest)))
  round_lem xs pending h (carried t tail a s c) go =
      rw (s, a rest) (round-Carried t tail pending go c)

stream_loop-round :
    (newline : Text) (carry : List ℕ) (pending : Bool) (b : ℕ) (bs : List ℕ)
    (chunks : List (List ℕ)) (rest : List ℕ)
    → stream_loop newline carry pending ((b ∷ bs) ∷ chunks)
      ≡ round newline chunks rest (carry_split (carry ++ (b ∷ bs))) pending
unfolding stream_loop round
stream_loop-round newline carry pending b bs chunks rest =
    elim (Option-cases (carry_split (carry ++ (b ∷ bs)))) [
      | inl e ↦ rw (e, stream_loop)
      | inr ((t, c), e) ↦ rw (e, stream_loop)
    ]

stream_loop-nil :
    (newline : Text) (carry : List ℕ) (pending : Bool)
    → stream_loop newline carry pending [] ≡ stream_end newline carry pending
unfolding stream_loop
stream_loop-nil newline carry pending = refl

stream_loop_lem :
    (newline : Text) (chunks : List (List ℕ))
    → All (λ chunk. chunk ≢ []) chunks
    → (carry : List ℕ) (pending : Bool) → IsCarry carry
    → stream_loop newline carry pending chunks
      ≡ expected newline pending (decode (carry ++ flatten chunks))
unfolding flatten
stream_loop_lem newline [] h carry pending c =
    rw append-nil (stream_loop-nil newline carry pending ∙ stream_end_lem newline carry pending c)
stream_loop_lem newline ([] ∷ chunks) h carry pending c = absurd (h.0 refl)
stream_loop_lem newline ((b ∷ bs) ∷ chunks) h carry pending c =
    stream_loop-round newline carry pending b bs chunks (flatten chunks)
    ∙ round_lem newline chunks (flatten chunks) (carry ++ (b ∷ bs)) pending
        (append-ne-nil carry b bs) (outcome _) (stream_loop_lem newline chunks h.1)
    ∙ ap (λ xs. expected newline pending (decode xs)) (append_assoc carry (b ∷ bs) (flatten chunks))

local-expected :
    (newline : Text) (d : Decoded)
    → expected newline false d ≡ elim d [ text t ↦ some (to_local newline t) | fault _ _ _ ↦ none ]
local-expected newline (text t) = ap some (finish-to_local newline t)
local-expected newline (fault t tail n) = refl

ascii_for_local-lf : (bytes : List ℕ) → ascii_for_local (lf ∷ []) bytes ≡ ascii_for_remote bytes
unfolding ascii_for_local ascii_for_remote
ascii_for_local-lf bytes = go (decode bytes)
  where
    go :
        (d : Decoded)
        → ◌≡◌ {A = Option Text}
            (elim d [ text t ↦ some (to_local (lf ∷ []) t) | fault _ _ _ ↦ none ])
            (elim d [ text t ↦ some (to_unix t) | fault _ _ _ ↦ none ])
    go (text t) = ap some (to_local-lf t)
    go (fault t tail n) = refl

-- The streaming conversion of a file, read in any non-empty chunks, writes what the conversion
-- of its whole contents gives, and fails exactly where that fails.
pub stream_lines-ascii_for_local :
    (newline : Text) (chunks : List (List ℕ))
    → All (λ chunk. chunk ≢ []) chunks
    → stream_lines newline chunks ≡ ascii_for_local newline (flatten chunks)
unfolding stream_lines ascii_for_local
stream_lines-ascii_for_local newline chunks h =
    stream_loop_lem newline chunks h [] false (inl refl)
    ∙ local-expected newline (decode (flatten chunks))

-- With a line feed for the newline it is the conversion for the remote side.
pub stream_lines-ascii_for_remote :
    (chunks : List (List ℕ))
    → All (λ chunk. chunk ≢ []) chunks
    → stream_lines (lf ∷ []) chunks ≡ ascii_for_remote (flatten chunks)
stream_lines-ascii_for_remote chunks h =
    stream_lines-ascii_for_local (lf ∷ []) chunks h ∙ ascii_for_local-lf (flatten chunks)

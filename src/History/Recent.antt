-- ===== src/History/Recent.antt =====
-- The last commands of a list without consecutive duplicates.
use hpc_client_gui.Base.{
  ℕ, zero, suc, ◌+◌, ◌-◌, ◌≤◌, ◌<◌, ◌≡◌, refl, List, [], ◌∷◌, ◌++◌, false, ltb, if◌then◌else◌,
  length, drop, get_last?, length-append, length-drop, drop-drop, append_assoc, some, arith,
}
use hpc_client_gui.Base.Text.{Text, text_eq}
use hpc_client_gui.History.{last_items, ends_with_command, clean_loop}

drop-append-le : (n : ℕ) (xs ys : List Text) → n ≤ length xs → drop n (xs ++ ys) ≡ drop n xs ++ ys
drop-append-le zero xs ys h = refl
drop-append-le (suc n) [] ys h = absurd (omega arith)
drop-append-le (suc n) (x ∷ xs) ys h = drop-append-le n xs ys (omega arith)

-- What the store keeps of the commands so far and one more.
pub last_items-snoc :
    (limit : ℕ) (cs : List Text) (c : Text)
    → 1 ≤ limit
    → let more = last_items limit cs ++ (c ∷ []) in
      (if ltb limit (length more) then last_items limit more else more)
      ≡ last_items limit (cs ++ (c ∷ []))
last_items-snoc limit cs c h =
    let cut = length cs - limit in
    ground (
      arith,
      drop-append-le cut cs (c ∷ []),
      drop-drop 1 cut (cs ++ (c ∷ [])),
      length-drop cut cs,
      length-append (drop cut cs) (c ∷ []),
      length-append cs (c ∷ []),
    )

-- No command stands twice in a row.
abbrev pub NoRepeat : List Text → Type 0
NoRepeat [] = Unit
NoRepeat (c ∷ []) = Unit
NoRepeat (c ∷ d ∷ cs) = (text_eq c d ≡ false) × NoRepeat (d ∷ cs)

NoRepeat-tail : (c : Text) (cs : List Text) → NoRepeat (c ∷ cs) → NoRepeat cs
NoRepeat-tail c [] h = tt
NoRepeat-tail c (d ∷ cs) h = h.1

NoRepeat-drop : (n : ℕ) (cs : List Text) → NoRepeat cs → NoRepeat (drop n cs)
NoRepeat-drop zero cs h = h
NoRepeat-drop (suc n) [] h = tt
NoRepeat-drop (suc n) (c ∷ cs) h = NoRepeat-drop n cs (NoRepeat-tail c cs h)

pub NoRepeat-last_items :
    (limit : ℕ) (cs : List Text) → NoRepeat cs → NoRepeat (last_items limit cs)
NoRepeat-last_items limit cs h = ground (arith, NoRepeat-drop (length cs - limit) cs h)

pub NoRepeat-snoc :
    (cs : List Text) (c : Text)
    → NoRepeat cs
    → ends_with_command cs c ≡ false
    → NoRepeat (cs ++ (c ∷ []))
NoRepeat-snoc [] c h e = tt
NoRepeat-snoc (d ∷ []) c h e = (e, tt)
NoRepeat-snoc (d ∷ f ∷ cs) c h e = (h.0, NoRepeat-snoc (f ∷ cs) c h.1 e)

get_last?-drop : (n : ℕ) (cs : List Text) → n < length cs → get_last? (drop n cs) ≡ get_last? cs
get_last?-drop zero cs h = refl
get_last?-drop (suc n) [] h = absurd (omega arith)
get_last?-drop (suc n) (c ∷ []) h = absurd (omega arith)
get_last?-drop (suc n) (c ∷ d ∷ cs) h = get_last?-drop n (d ∷ cs) (omega arith)

pub ends_with_command-last_items :
    (limit : ℕ) (cs : List Text) (c : Text)
    → 1 ≤ limit
    → ends_with_command (last_items limit cs) c ≡ ends_with_command cs c
ends_with_command-last_items limit [] c h = ground arith
ends_with_command-last_items limit (d ∷ cs) c h =
    ground (arith, get_last?-drop (length (d ∷ cs) - limit) (d ∷ cs))

get_last?-snoc : (cs : List Text) (c : Text) → get_last? (cs ++ (c ∷ [])) ≡ some c
get_last?-snoc [] c = refl
get_last?-snoc (d ∷ []) c = refl
get_last?-snoc (d ∷ e ∷ cs) c = get_last?-snoc (e ∷ cs) c

-- Cleaning removes all that repeats and nothing else.
pub clean_loop-NoRepeat : (done cs : List Text) → NoRepeat done → NoRepeat (clean_loop done cs)
unfolding clean_loop
clean_loop-NoRepeat done [] h = h
clean_loop-NoRepeat done (c ∷ cs) h = ground (
  arith,
  clean_loop-NoRepeat done cs h,
  clean_loop-NoRepeat (done ++ (c ∷ [])) cs,
  NoRepeat-snoc done c h,
)

clean_loop-kept :
    (done : List Text) (d : Text) (cs : List Text)
    → NoRepeat (d ∷ cs)
    → clean_loop (done ++ (d ∷ [])) cs ≡ done ++ (d ∷ cs)
unfolding clean_loop
clean_loop-kept done d [] h = refl
clean_loop-kept done d (c ∷ cs) h = ground (
  arith,
  get_last?-snoc done d,
  clean_loop-kept (done ++ (d ∷ [])) c cs h.1,
  append_assoc done (d ∷ []) (c ∷ cs),
)

pub clean_loop-same : (cs : List Text) → NoRepeat cs → clean_loop [] cs ≡ cs
unfolding clean_loop
clean_loop-same [] h = refl
clean_loop-same (c ∷ cs) h = clean_loop-kept [] c cs h

length-clean_loop-le : (done cs : List Text) → length (clean_loop done cs) ≤ length done + length cs
unfolding clean_loop
length-clean_loop-le done [] = omega arith
length-clean_loop-le done (c ∷ cs) = ground (
  arith,
  length-clean_loop-le done cs,
  length-clean_loop-le (done ++ (c ∷ [])) cs,
  length-append done (c ∷ []),
)

pub length-last_items-le :
    (limit : ℕ) (cs : List Text) → 1 ≤ limit → length (last_items limit cs) ≤ limit
length-last_items-le limit cs h = ground (arith, length-drop (length cs - limit) cs)

pub length-clean_last-le :
    (limit : ℕ) (cs : List Text) → 1 ≤ limit → length (clean_loop [] (last_items limit cs)) ≤ limit
length-clean_last-le limit cs h =
    omega (arith, length-clean_loop-le [] (last_items limit cs), length-last_items-le limit cs h)

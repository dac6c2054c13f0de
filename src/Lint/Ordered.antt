-- ===== src/Lint/Ordered.antt =====
-- Patterns that are to stand in order.
use hpc_client_gui.Base.{
  ℕ, zero, suc, ◌+◌, ◌-◌, ◌≤◌, ◌≡◌, ◌↔◌, refl, ap, ◌∙◌, List, [], ◌∷◌, true, length, drop,
  drop-drop, length-drop, Option, none, some, arith, Option-cases, Bool-cases, inl, inr,
}
use hpc_client_gui.Base.Text.{Text, starts_with}
use hpc_client_gui.Lint.Index.{LineIndex, position}
use hpc_client_gui.Lint.Rules.{find, find_from, ordered_loop}

abbrev Found : ℕ → Text → Text → ℕ → Type 0
Found at value s i = (at ≤ i) × (i ≤ at + length s) × (starts_with (drop (i - at) s) value ≡ true)

drop-suc :
    (i at : ℕ) (c : ℕ) (s : Text) → at + 1 ≤ i → drop (i - at) (c ∷ s) ≡ drop (i - (at + 1)) s
drop-suc i at c s h =
    let e : i - at ≡ suc (i - (at + 1)) = omega arith in ap (λ k. drop k (c ∷ s)) e

drop_here : (at : ℕ) (s : Text) → drop (at - at) s ≡ s
drop_here at s = let e : at - at ≡ 0 = omega arith in ap (λ k. drop k s) e

find_from-Found :
    (at : ℕ) (value s : Text) (i : ℕ) → find_from at value s ≡ some i → Found at value s i
unfolding find_from starts_with
find_from-Found at [] [] i h = ground (arith, drop_here at [])
find_from-Found at (v ∷ vs) [] i h = absurd (ground arith)
find_from-Found at value (c ∷ s) i h =
    ground (arith, find_from-Found (at + 1) value s i, drop-suc i at c s, drop_here at (c ∷ s))

-- The place that is found is the first.
abbrev FoundBy : ℕ → Option ℕ → Type 0
FoundBy limit o = (i : ℕ) × (o ≡ some i) × (i ≤ limit)

find_from-least :
    (at : ℕ) (value s : Text) (k : ℕ)
    → k ≤ length s
    → starts_with (drop k s) value ≡ true
    → FoundBy (at + k) (find_from at value s)
unfolding find_from starts_with
find_from-least at [] [] zero h e = (at, refl, omega arith)
find_from-least at (v ∷ vs) [] zero h e = absurd (ground arith)
find_from-least at value [] (suc k) h e = absurd (omega arith)
find_from-least at value (c ∷ s) zero h e = (at, ground arith, omega arith)
find_from-least at value (c ∷ s) (suc k) h e = elim (Bool-cases (starts_with (c ∷ s) value)) [
  | inl here ↦ (at, ground arith, omega arith)
  | inr later ↦
      let (i, found, least) = find_from-least (at + 1) value s k (omega arith) e in
      (i, ground arith, omega arith)
]

find-Found :
    (text value : Text) (cursor i : ℕ)
    → find text value cursor ≡ some i
    → (cursor ≤ i) × (i ≤ length text) × (starts_with (drop i text) value ≡ true)
unfolding find
find-Found text value cursor i h =
    ground
      (arith, find_from-Found cursor value (drop cursor text) i, length-drop cursor text, drop-at)
  where
    drop-at : cursor ≤ i → drop (i - cursor) (drop cursor text) ≡ drop i text
    drop-at l =
        let e : cursor + (i - cursor) ≡ i = omega arith in
        drop-drop (i - cursor) cursor text ∙ ap (λ k. drop k text) e

find-least :
    (text value : Text) (cursor j : ℕ)
    → cursor ≤ j
    → j ≤ length text
    → starts_with (drop j text) value ≡ true
    → FoundBy j (find text value cursor)
unfolding find
find-least text value cursor j l m e =
    let same : cursor + (j - cursor) ≡ j = omega arith in
    let there : starts_with (drop (j - cursor) (drop cursor text)) value ≡ true =
      ap (λ t. starts_with t value)
        (drop-drop (j - cursor) cursor text ∙ ap (λ k. drop k text) same)
      ∙ e in
    let (i, found, least) =
      find_from-least cursor value (drop cursor text) (j - cursor)
        (omega (arith, length-drop cursor text)) there in
    (i, ground (arith, found), omega arith)

-- The patterns stand in the text from the cursor on, in order and none over another.
pub InOrder : Text → ℕ → List Text → Type 0
InOrder text cursor [] = Unit
InOrder text cursor (value ∷ values) =
    (i : ℕ) × (cursor ≤ i)
    × (i ≤ length text)
    × (starts_with (drop i text) value ≡ true)
    × InOrder text (i + length value) values

InOrder-earlier :
    (text : Text) (cursor earlier : ℕ) (values : List Text)
    → earlier ≤ cursor
    → InOrder text cursor values
    → InOrder text earlier values
unfolding InOrder
InOrder-earlier text cursor earlier [] l h = tt
InOrder-earlier text cursor earlier (value ∷ values) l (i, after, inside, there, rest) =
    (i, omega arith, inside, there, rest)

ordered_loop-InOrder :
    (index : LineIndex) (text : Text) (cursor : ℕ) (last : Option (ℕ × ℕ)) (values : List Text)
    → (ordered_loop index text cursor last values).1 ≡ none
    → InOrder text cursor values
unfolding InOrder ordered_loop
ordered_loop-InOrder index text cursor last [] h = tt
ordered_loop-InOrder index text cursor last (value ∷ values) h =
    elim (Option-cases (find text value cursor)) [
      | inl missing ↦ absurd (ground arith)
      | inr (i, found) ↦
          let (after, inside, there) = find-Found text value cursor i found in
          (
            i,
            after,
            inside,
            there,
            ordered_loop-InOrder index text (i + length value) (some (position index i)) values
                (ground arith),
          )
    ]

InOrder-ordered_loop :
    (index : LineIndex) (text : Text) (cursor : ℕ) (last : Option (ℕ × ℕ)) (values : List Text)
    → InOrder text cursor values
    → (ordered_loop index text cursor last values).1 ≡ none
unfolding InOrder ordered_loop
InOrder-ordered_loop index text cursor last [] h = refl
InOrder-ordered_loop index text cursor last (value ∷ values) (j, after, inside, there, rest) =
    let (i, found, least) = find-least text value cursor j after inside there in
    ground (
      arith,
      found,
      InOrder-ordered_loop index text (i + length value) (some (position index i)) values
          (InOrder-earlier text (j + length value) (i + length value) values (omega arith) rest),
    )

-- The loop of an ordered_patterns rule finds the order kept exactly where the patterns stand in
-- the text in their order, each behind the end of the one before, though it takes the first
-- place for each.
pub ordered_loop-kept :
    (index : LineIndex) (text : Text) (values : List Text)
    → ((ordered_loop index text 0 none values).1 ≡ none) ↔ InOrder text 0 values
ordered_loop-kept index text values =
    (ordered_loop-InOrder index text 0 none values, InOrder-ordered_loop index text 0 none values)

-- ===== src/Transfer/Partial/Prefix.antt =====
-- An upload on top of a prefix of the source.
use hpc_client_gui.Base.{
  ℕ, zero, suc, ◌≡◌, refl, [], ◌∷◌, ◌++◌, Bool, true, length, take, drop, none, some, arith,
}
use hpc_client_gui.Base.Text.{Text, starts_with}
use hpc_client_gui.Transfer.Partial.{uploaded}

prefix_append-drop :
    (source old : Text) → starts_with source old ≡ true → old ++ drop (length old) source ≡ source
unfolding starts_with
prefix_append-drop source [] h = ground (arith)
prefix_append-drop [] (c ∷ old) h = ground (arith, h)
prefix_append-drop (d ∷ source) (c ∷ old) h = ground (arith, h, prefix_append-drop source old)

prefix_same :
    (source old : Text) → starts_with source old ≡ true → length old ≡ length source → old ≡ source
unfolding starts_with
prefix_same [] [] h e = refl
prefix_same (d ∷ source) [] h e = ground (arith, e)
prefix_same [] (c ∷ old) h e = ground (arith, h)
prefix_same (d ∷ source) (c ∷ old) h e = ground (arith, h, e, prefix_same source old)

starts_with-take : (n : ℕ) (source : Text) → starts_with source (take n source) ≡ true
unfolding starts_with
starts_with-take zero source = ground arith
starts_with-take (suc n) [] = refl
starts_with-take (suc n) (c ∷ source) = ground (arith, starts_with-take n source)

pub starts_with-same : (source : Text) → starts_with source source ≡ true
unfolding starts_with
starts_with-same [] = refl
starts_with-same (c ∷ source) = ground (arith, starts_with-same source)

starts_with-append_take :
    (n : ℕ) (source old : Text)
    → starts_with source old ≡ true
    → starts_with source (old ++ take n (drop (length old) source)) ≡ true
unfolding starts_with
starts_with-append_take n source [] h = starts_with-take n source
starts_with-append_take n [] (c ∷ old) h = ground (arith, h)
starts_with-append_take n (d ∷ source) (c ∷ old) h =
    ground (arith, h, starts_with-append_take n source old)

pub uploaded-whole :
    (source old : Text) (hidden : Bool)
    → starts_with source old ≡ true
    → uploaded source hidden none old ≡ source
unfolding uploaded
uploaded-whole source old hidden h =
    ground (arith, prefix_append-drop source old h, prefix_same source old h)

pub uploaded-prefix :
    (source old : Text) (hidden : Bool) (n : ℕ)
    → starts_with source old ≡ true
    → starts_with source (uploaded source hidden (some n) old) ≡ true
unfolding uploaded
uploaded-prefix source old hidden n h =
    ground (arith, h, starts_with-append_take n source old h, starts_with-take n source)

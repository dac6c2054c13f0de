-- ===== src/Queue/Normalize.antt =====
-- What `_normalize` does to the order of the items.
use Prim.Native.String.{String}
use text.Mathlib.TextEquality.{eq_iff}
use mathlib.Core.List.{Perm, perm_middle}
use mathlib.Core.List.Perm
use hpc_client_gui.Base.{
  ◌≡◌, refl, inl, inr, if◌then◌else◌, List, [], ◌∷◌, ◌++◌, Bool, true, false, ◌||◌, all, is_empty,
  arith, append-nil, Bool-cases,
}
use hpc_client_gui.Queue.{Ref, TransferItem, is_mkdir, is_transfer, select, normalize}

pub is_mkdir-not_transfer : (op : String) → is_mkdir op ≡ true → is_transfer op ≡ false
is_mkdir-not_transfer op h = ground (
  arith,
  eq_iff op "mkdir_remote",
  eq_iff op "mkdir_local",
  eq_iff op "upload",
  eq_iff op "download",
  eq_iff "mkdir_remote" "upload",
  eq_iff "mkdir_remote" "download",
  eq_iff "mkdir_local" "upload",
  eq_iff "mkdir_local" "download",
)

module _ (store : Ref → TransferItem) where
  abbrev pub makes : Ref → Bool
  makes r = is_mkdir (store r).op

  abbrev pub moves : Ref → Bool
  moves r = is_transfer (store r).op

  abbrev pub allowed : List Ref → Bool
  allowed rs = all (λ r. is_mkdir (store r).op || is_transfer (store r).op) rs

  -- A list without directories to make is its transfers, and the other way round.
  select-moves :
      (rs : List Ref) → allowed rs ≡ true → is_empty (select makes rs) ≡ true → select moves rs ≡ rs
  unfolding select
  select-moves [] h e = refl
  select-moves (r ∷ rs) h e = ground (arith, select-moves rs)

  select-makes :
      (rs : List Ref) → allowed rs ≡ true → is_empty (select moves rs) ≡ true → select makes rs ≡ rs
  unfolding select
  select-makes [] h e = refl
  select-makes (r ∷ rs) h e = ground (arith, select-makes rs)

  rest_allowed : (r : Ref) (rs : List Ref) → allowed (r ∷ rs) ≡ true → allowed rs ≡ true
  rest_allowed r rs h = ground arith

  head_moves :
      (r : Ref) (rs : List Ref) → allowed (r ∷ rs) ≡ true → makes r ≡ false → moves r ≡ true
  head_moves r rs h e = ground arith

  select-Perm : (rs : List Ref) → allowed rs ≡ true → Perm (select makes rs ++ select moves rs) rs
  unfolding select
  select-Perm [] h = Perm.refl []
  select-Perm (r ∷ rs) h = elim (Bool-cases (makes r)) [
    | inl make ↦
        rw (make, is_mkdir-not_transfer (store r).op make)
          (Perm.cons r (select-Perm rs (rest_allowed r rs h)))
    | inr other ↦
        rw (other, head_moves r rs h other)
          (Perm.trans (perm_middle (select makes rs) (select moves rs))
            (Perm.cons r (select-Perm rs (rest_allowed r rs h))))
  ]

  is_empty-nil : (rs : List Ref) → is_empty rs ≡ true → rs ≡ []
  is_empty-nil [] h = refl
  is_empty-nil (r ∷ rs) h = cc

  normalize-allowed :
      (rs : List Ref) → allowed rs ≡ true → normalize store rs ≡ select makes rs ++ select moves rs
  unfolding normalize
  normalize-allowed [] h = refl
  normalize-allowed (r ∷ rs) h = ground (
    arith,
    select-moves (r ∷ rs) h,
    select-makes (r ∷ rs) h,
    is_empty-nil (select makes (r ∷ rs)),
    is_empty-nil (select moves (r ∷ rs)),
    append-nil (select makes (r ∷ rs)),
  )

  normalize_other : (rs : List Ref) → allowed rs ≡ false → normalize store rs ≡ rs
  unfolding normalize
  normalize_other [] h = refl
  normalize_other (r ∷ rs) h = ground arith

  normalize-Perm : (rs : List Ref) → Perm (normalize store rs) rs
  normalize-Perm rs = elim (Bool-cases (allowed rs)) [
    | inl h ↦ rw (normalize-allowed rs h) (select-Perm rs h)
    | inr h ↦ rw (normalize_other rs h) (Perm.refl rs)
  ]

  -- The items are rearranged and none is lost or doubled. A queue of directories to make and of
  -- files to move has the directories first, each kind in its order; any other stays as it is.
  pub normalize_order :
      (rs : List Ref)
      → Perm (normalize store rs) rs
        × (normalize store rs ≡ (if allowed rs then select makes rs ++ select moves rs else rs))
  normalize_order rs = (normalize-Perm rs, ground (arith, normalize-allowed rs, normalize_other rs))

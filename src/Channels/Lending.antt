-- ===== src/Channels/Lending.antt =====
-- How the manager's calls go with the lives of the channels.
use hpc_client_gui.Base.{
  ◌≡◌, refl, List, [], ◌∷◌, Bool, true, false, if◌then◌else◌, Option, none, some, arith,
  Option-cases, inl, inr,
}
use hpc_client_gui.Channels.{
  Channel, Transport, Place, testing, opening, setting, ready, discarding, inside, clearing,
  closing, SftpChannelManager, Call, transfer, probe, enters, goes_on, leaves, drops_now,
  drop_steps, set_timeout, is_missing, at_places, enter, go_on, go_on_at, leave, leave_at, call,
  run, init,
}
use hpc_client_gui.Channels.Life.{was_opened, was_spoiled, is_orderly}
use hpc_client_gui.Channels.Invariant.{
  is_discarding, is_below, IsOrderly, IsOrderly-open, IsOrderly-probe, IsOrderly-at_places,
  IsOrderly-cleared, IsOrderly-closed, IsOrderly-timeout, IsOrderly-lent, IsOrderly-spoiled,
  IsOrderly-drop_reads, IsOrderly-open_listing, IsOrderly-drop_goes_on,
}

module _ (m : SftpChannelManager) where
  entered : (ps : List Place) → IsOrderly (at_places ps m) → IsOrderly (enter (at_places ps m))
  unfolding enter
  entered [] h = IsOrderly-at_places (at_places [] m) h (testing ∷ []) refl refl
  entered (testing ∷ ps) h = h
  entered (opening ∷ ps) h = h
  entered (setting ∷ ps) h = h
  entered (ready ∷ ps) h = h
  entered (discarding ∷ ps) h = h
  entered (inside c ∷ ps) h =
      IsOrderly-at_places (at_places (inside c ∷ ps) m) h (testing ∷ inside c ∷ ps) h.placed refl
  entered (clearing c ∷ ps) h = h
  entered (closing c ∷ ps) h = h

  module _ (t : Option Transport) (has_channel : Bool) (ps : List Place) where
    timed :
        IsOrderly (at_places (setting ∷ ps) m)
        → (has : Bool) (o : Option Channel) → is_below m.next o ≡ true
        → IsOrderly (
            at_places (ready ∷ ps) (elim o [
              | none ↦ at_places (setting ∷ ps) m
              | some c ↦ set_timeout has c 15 (at_places (setting ∷ ps) m)
            ]))
    timed h has none below =
        IsOrderly-at_places (at_places (setting ∷ ps) m) h (ready ∷ ps) h.placed refl
    timed h false (some c) below =
        IsOrderly-at_places (at_places (setting ∷ ps) m) h (ready ∷ ps) h.placed refl
    timed h true (some c) below =
        IsOrderly-timeout (at_places (ready ∷ ps) m)
          (IsOrderly-at_places (at_places (setting ∷ ps) m) h (ready ∷ ps) h.placed refl) 15
          (some c) below

    went_on :
        (p : Place)
        → IsOrderly (at_places (p ∷ ps) m)
        → IsOrderly (go_on_at p ps t has_channel (at_places (p ∷ ps) m))
    unfolding go_on_at
    went_on testing h =
        IsOrderly-at_places (at_places (testing ∷ ps) m) h
          ((if is_missing m.listing then opening else ready) ∷ ps) (ground (arith, h.placed)) refl
    went_on opening h =
        IsOrderly-open_listing (at_places (opening ∷ ps) m) h t ps (ground (arith, h.placed)) refl
    went_on setting h = timed h has_channel m.listing h.listed
    went_on ready h =
        IsOrderly-lent (at_places (inside m.listing ∷ ps) m)
          (IsOrderly-at_places (at_places (ready ∷ ps) m) h (inside m.listing ∷ ps)
            (ground (arith, h.placed, h.listed)) refl)
          m.listing h.listed (λ c e. ground (arith, h.fit c e))
    went_on (inside c) h = h
    went_on discarding h =
        IsOrderly-at_places (at_places (discarding ∷ ps) m) h (clearing m.listing ∷ ps)
          (ground (arith, h.placed, h.listed)) refl
    went_on (clearing c) h =
        IsOrderly-cleared (at_places (clearing c ∷ ps) m) h (closing c ∷ ps) m.drops h.placed
          h.dropped
    went_on (closing c) h =
        IsOrderly-closed (at_places ps m)
          (IsOrderly-at_places (at_places (closing c ∷ ps) m) h ps (ground (arith, h.placed)) refl)
          c (ground (arith, h.placed))

  left :
      (clean : Bool) (p : Place) (ps : List Place)
      → IsOrderly (at_places (p ∷ ps) m)
      → IsOrderly (leave_at p ps clean (at_places (p ∷ ps) m))
  unfolding leave_at
  left clean testing ps h = h
  left clean opening ps h = h
  left clean setting ps h = h
  left clean ready ps h = h
  left clean discarding ps h = h
  left true (inside c) ps h =
      IsOrderly-at_places (at_places (inside c ∷ ps) m) h ps (ground (arith, h.placed)) refl
  left false (inside c) ps h =
      IsOrderly-spoiled (at_places (discarding ∷ ps) m)
        (IsOrderly-at_places (at_places (inside c ∷ ps) m) h (discarding ∷ ps)
          (ground (arith, h.placed)) refl)
        c (ground (arith, h.placed)) refl
  left clean (clearing c) ps h = h
  left clean (closing c) ps h = h

  IsOrderly-go_on :
      (t : Option Transport) (has_channel : Bool) (ps : List Place)
      → IsOrderly (at_places ps m)
      → IsOrderly (go_on t has_channel (at_places ps m))
  unfolding go_on
  IsOrderly-go_on t has_channel [] h = h
  IsOrderly-go_on t has_channel (p ∷ ps) h = went_on t has_channel ps p h

  IsOrderly-leave :
      (clean : Bool) (ps : List Place)
      → IsOrderly (at_places ps m)
      → IsOrderly (leave clean (at_places ps m))
  unfolding leave
  IsOrderly-leave clean [] h = h
  IsOrderly-leave clean (p ∷ ps) h = left clean p ps h

IsOrderly-call : (c : Call) (m : SftpChannelManager) → IsOrderly m → IsOrderly (call c m)
unfolding call
IsOrderly-call (transfer t) m h = IsOrderly-open m h t
IsOrderly-call (probe t) m h = IsOrderly-probe m h t
IsOrderly-call enters m h = entered m m.places h
IsOrderly-call (goes_on t has_channel) m h = IsOrderly-go_on m t has_channel m.places h
IsOrderly-call (leaves clean) m h = IsOrderly-leave m clean m.places h
IsOrderly-call drops_now m h = IsOrderly-drop_reads m h
IsOrderly-call (drop_steps i) m h = IsOrderly-drop_goes_on m h i

IsOrderly-run : (calls : List Call) (m : SftpChannelManager) → IsOrderly m → IsOrderly (run calls m)
unfolding run
IsOrderly-run [] m h = h
IsOrderly-run (c ∷ calls) m h = IsOrderly-run calls (call c m) (IsOrderly-call c m h)

IsOrderly-init : IsOrderly init
unfolding is_orderly was_opened was_spoiled
IsOrderly-init = record {
  orderly = refl;
  names = λ c. ground arith;
  spoilt = λ c. refl;
  listed = refl;
  fit = λ c e. refl;
  placed = refl;
  dropped = refl;
}

-- A block has spoiled the channel that the next one would be lent.
abbrev pub is_listing_spoiled : SftpChannelManager → Bool
is_listing_spoiled m = elim m.listing [ none ↦ false | some c ↦ was_spoiled c m.log ]

-- Whatever is called, in whatever order the steps of the listings and of the drops of other threads
-- come, whatever the transport answers and however the blocks are left: a channel is opened at most
-- once, is lent, spoiled or closed only after that, and is never lent again once a block has
-- spoiled it; and where the listing channel is a spoiled one, the drop of that block is still to
-- clear it.
pub lending_is_orderly :
    (calls : List Call)
    → let m = run calls init in
      (is_orderly m.log ≡ true)
      × ((if is_listing_spoiled m then is_discarding m.places else true) ≡ true)
lending_is_orderly calls =
    let m = run calls init in
    let h = IsOrderly-run calls init IsOrderly-init in
    (
      h.orderly,
      elim (Option-cases m.listing) [
        | inl missing ↦ ground (arith, missing)
        | inr (c, there) ↦ ground (arith, there, h.fit c there)
      ],
    )

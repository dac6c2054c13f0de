-- ===== src/Channels/Invariant.antt =====
-- What the manager keeps to, and the steps that keep it.
use hpc_client_gui.Base.{
  ℕ, zero, suc, ◌+◌, ◌≡◌, refl, List, [], ◌∷◌, ◌++◌, Bool, true, false, ltb, all, get_elem?,
  if◌then◌else◌, Option, none, some, arith, Option-cases, inl, inr,
}
use hpc_client_gui.Channels.{
  Channel, Transport, closed, lent, spoiled, timeout, Place, testing, opening, setting, ready,
  discarding, inside, clearing, closing, Drop, reading, cleared, SftpChannelManager,
  open_transfer_sftp, open_listing, emit_for, at_places, set_drop, drop_reads, drop_goes_on,
  supports_transfer_sftp_channels,
}
use hpc_client_gui.Channels.Life.{was_opened, was_spoiled, is_orderly}

-- The lock's thread drops the channel that its block has spoiled, and has not cleared the field.
abbrev pub is_discarding : List Place → Bool
is_discarding [] = false
is_discarding (discarding ∷ ps) = true
is_discarding (clearing old ∷ ps) = true
is_discarding (p ∷ ps) = false

abbrev pub is_below : ℕ → Option Channel → Bool
is_below next none = true
is_below next (some c) = ltb c next

-- A place or a drop holds channels that there are.
abbrev pub place_below : ℕ → Place → Bool
place_below next testing = true
place_below next opening = true
place_below next setting = true
place_below next ready = true
place_below next discarding = true
place_below next (inside c) = is_below next c
place_below next (clearing c) = is_below next c
place_below next (closing c) = is_below next c

abbrev drop_below : ℕ → Drop → Bool
drop_below next (reading c) = is_below next c
drop_below next (cleared c) = is_below next c

pub record IsOrderly (m : SftpChannelManager) : Type 0 where
  pub orderly : is_orderly m.log ≡ true
  pub names : (c : Channel) → was_opened c m.log ≡ ltb c m.next
  pub spoilt : (c : Channel) → (if was_spoiled c m.log then ltb c m.next else true) ≡ true
  pub listed : is_below m.next m.listing ≡ true
  pub fit :
      (c : Channel)
      → m.listing ≡ some c
      → (if was_spoiled c m.log then is_discarding m.places else true) ≡ true
  pub placed : all (place_below m.next) m.places ≡ true
  pub dropped : all (drop_below m.next) m.drops ≡ true

is_below-suc : (n : ℕ) (o : Option Channel) → is_below n o ≡ true → is_below (n + 1) o ≡ true
is_below-suc n none h = refl
is_below-suc n (some c) h = ground arith

place_below-suc : (n : ℕ) (p : Place) → place_below n p ≡ true → place_below (n + 1) p ≡ true
place_below-suc n testing h = refl
place_below-suc n opening h = refl
place_below-suc n setting h = refl
place_below-suc n ready h = refl
place_below-suc n discarding h = refl
place_below-suc n (inside c) h = is_below-suc n c h
place_below-suc n (clearing c) h = is_below-suc n c h
place_below-suc n (closing c) h = is_below-suc n c h

places_below-suc :
    (n : ℕ) (ps : List Place) → all (place_below n) ps ≡ true → all (place_below (n + 1)) ps ≡ true
places_below-suc n [] h = refl
places_below-suc n (p ∷ ps) h = ground (arith, h, place_below-suc n p, places_below-suc n ps)

drop_below-suc : (n : ℕ) (d : Drop) → drop_below n d ≡ true → drop_below (n + 1) d ≡ true
drop_below-suc n (reading c) h = is_below-suc n c h
drop_below-suc n (cleared c) h = is_below-suc n c h

drops_below-suc :
    (n : ℕ) (ds : List Drop) → all (drop_below n) ds ≡ true → all (drop_below (n + 1)) ds ≡ true
drops_below-suc n [] h = refl
drops_below-suc n (d ∷ ds) h = ground (arith, h, drop_below-suc n d, drops_below-suc n ds)

dropped-append :
    (n : ℕ) (o : Option Channel) (ds : List Drop)
    → is_below n o ≡ true
    → all (drop_below n) ds ≡ true
    → all (drop_below n) (ds ++ (reading o ∷ [])) ≡ true
dropped-append n o [] below h = ground (arith, below)
dropped-append n o (d ∷ ds) below h = ground (arith, h, dropped-append n o ds below)

dropped-set_drop :
    (n i : ℕ) (d : Drop) (ds : List Drop)
    → drop_below n d ≡ true
    → all (drop_below n) ds ≡ true
    → all (drop_below n) (set_drop i d ds) ≡ true
dropped-set_drop n i d [] below h = refl
dropped-set_drop n zero d (e ∷ ds) below h = ground (arith, below, h)
dropped-set_drop n (suc i) d (e ∷ ds) below h = ground (arith, h, dropped-set_drop n i d ds below)

dropped-get :
    (n i : ℕ) (d : Drop) (ds : List Drop)
    → get_elem? ds i ≡ some d
    → all (drop_below n) ds ≡ true
    → drop_below n d ≡ true
dropped-get n i d [] e h = ground (arith, e)
dropped-get n zero d (f ∷ ds) e h = ground (arith, e, h)
dropped-get n (suc i) d (f ∷ ds) e h = dropped-get n i d ds e (ground (arith, h))

module _ (m : SftpChannelManager) (h : IsOrderly m) where
  pub IsOrderly-open : (t : Option Transport) → IsOrderly (open_transfer_sftp t m).0
  unfolding open_transfer_sftp is_orderly was_opened was_spoiled
  IsOrderly-open none = h
  IsOrderly-open (some t) = record {
    orderly = ground (arith, h.orderly, h.names m.next);
    names = λ c. ground (arith, h.names c);
    spoilt = λ c. ground (arith, h.spoilt c);
    listed = ground (arith, h.listed, is_below-suc m.next m.listing);
    fit = λ c e. ground (arith, h.fit c);
    placed = ground (arith, h.placed, places_below-suc m.next m.places);
    dropped = ground (arith, h.dropped, drops_below-suc m.next m.drops);
  }

  pub IsOrderly-probe : (t : Option Transport) → IsOrderly (supports_transfer_sftp_channels t m).0
  unfolding supports_transfer_sftp_channels open_transfer_sftp is_orderly was_opened was_spoiled
  IsOrderly-probe none = h
  IsOrderly-probe (some t) = record {
    orderly = ground (arith, h.orderly, h.names m.next);
    names = λ c. ground (arith, h.names c);
    spoilt = λ c. ground (arith, h.spoilt c);
    listed = ground (arith, h.listed, is_below-suc m.next m.listing);
    fit = λ c e. ground (arith, h.fit c);
    placed = ground (arith, h.placed, places_below-suc m.next m.places);
    dropped = ground (arith, h.dropped, drops_below-suc m.next m.drops);
  }

  -- Other places, of channels that there are, where no drop after a block is given up.
  pub IsOrderly-at_places :
      (ps : List Place)
      → all (place_below m.next) ps ≡ true
      → (if is_discarding m.places then is_discarding ps else true) ≡ true
      → IsOrderly (at_places ps m)
  IsOrderly-at_places ps below kept = record {
    orderly = h.orderly;
    names = h.names;
    spoilt = h.spoilt;
    listed = h.listed;
    fit = λ c e. ground (arith, h.fit c e, kept);
    placed = below;
    dropped = h.dropped;
  }

  -- The field is cleared.
  pub IsOrderly-cleared :
      (ps : List Place) (ds : List Drop)
      → all (place_below m.next) ps ≡ true
      → all (drop_below m.next) ds ≡ true
      → IsOrderly (record m { listing = none; places = ps; drops = ds })
  IsOrderly-cleared ps ds below drops_below = record {
    orderly = h.orderly;
    names = h.names;
    spoilt = h.spoilt;
    listed = refl;
    fit = λ c e. ground (arith, e);
    placed = below;
    dropped = drops_below;
  }

  pub IsOrderly-closed :
      (o : Option Channel) → is_below m.next o ≡ true → IsOrderly (emit_for closed o m)
  unfolding is_orderly was_opened was_spoiled
  IsOrderly-closed none below = h
  IsOrderly-closed (some d) below = record {
    orderly = ground (arith, h.orderly, h.names d, below);
    names = h.names;
    spoilt = h.spoilt;
    listed = h.listed;
    fit = h.fit;
    placed = h.placed;
    dropped = h.dropped;
  }

  pub IsOrderly-timeout :
      (seconds : ℕ) (o : Option Channel)
      → is_below m.next o ≡ true
      → IsOrderly (emit_for (λ c. timeout c seconds) o m)
  unfolding is_orderly was_opened was_spoiled
  IsOrderly-timeout seconds none below = h
  IsOrderly-timeout seconds (some d) below = record {
    orderly = ground (arith, h.orderly, h.names d, below);
    names = h.names;
    spoilt = h.spoilt;
    listed = h.listed;
    fit = h.fit;
    placed = h.placed;
    dropped = h.dropped;
  }

  -- A channel that no block has spoiled is lent.
  pub IsOrderly-lent :
      (o : Option Channel)
      → is_below m.next o ≡ true
      → ((c : Channel) → o ≡ some c → was_spoiled c m.log ≡ false)
      → IsOrderly (emit_for lent o m)
  unfolding is_orderly was_opened was_spoiled
  IsOrderly-lent none below fresh = h
  IsOrderly-lent (some d) below fresh = record {
    orderly = ground (arith, h.orderly, h.names d, below, fresh d refl);
    names = h.names;
    spoilt = h.spoilt;
    listed = h.listed;
    fit = h.fit;
    placed = h.placed;
    dropped = h.dropped;
  }

  -- A block spoils its channel where the drop is to follow.
  pub IsOrderly-spoiled :
      (o : Option Channel)
      → is_below m.next o ≡ true
      → is_discarding m.places ≡ true
      → IsOrderly (emit_for spoiled o m)
  unfolding is_orderly was_opened was_spoiled
  IsOrderly-spoiled none below drop = h
  IsOrderly-spoiled (some d) below drop = record {
    orderly = ground (arith, h.orderly, h.names d, below);
    names = h.names;
    spoilt = λ c. ground (arith, h.spoilt c, below);
    listed = h.listed;
    fit = λ c e. ground (arith, drop);
    placed = h.placed;
    dropped = h.dropped;
  }

  pub IsOrderly-drop_reads : IsOrderly (drop_reads m)
  unfolding drop_reads
  IsOrderly-drop_reads = record {
    orderly = h.orderly;
    names = h.names;
    spoilt = h.spoilt;
    listed = h.listed;
    fit = h.fit;
    placed = h.placed;
    dropped = dropped-append m.next m.listing m.drops h.listed h.dropped;
  }

  pub IsOrderly-open_listing :
      (t : Option Transport) (outer : List Place)
      → all (place_below m.next) outer ≡ true
      → is_discarding m.places ≡ false
      → IsOrderly (open_listing t outer m)
  unfolding open_listing open_transfer_sftp is_orderly was_opened was_spoiled
  IsOrderly-open_listing none outer below kept =
      IsOrderly-at_places outer below (ground (arith, kept))
  IsOrderly-open_listing (some t) outer below kept = record {
    orderly = ground (arith, h.orderly, h.names m.next);
    names = λ c. ground (arith, h.names c);
    spoilt = λ c. ground (arith, h.spoilt c);
    listed = ground (arith, h.listed, is_below-suc m.next m.listing);
    fit = λ c e. ground (arith, h.fit c, h.spoilt c, kept);
    placed = ground (arith, below, places_below-suc m.next outer);
    dropped = ground (arith, h.dropped, drops_below-suc m.next m.drops);
  }

  closed_after :
      (ds : List Drop)
      → all (drop_below m.next) ds ≡ true
      → (o : Option Channel) → is_below m.next o ≡ true
      → IsOrderly (emit_for closed o (record m { drops = ds }))
  unfolding is_orderly was_opened was_spoiled
  closed_after ds below none fit = record {
    orderly = h.orderly;
    names = h.names;
    spoilt = h.spoilt;
    listed = h.listed;
    fit = h.fit;
    placed = h.placed;
    dropped = below;
  }
  closed_after ds below (some d) fit = record {
    orderly = ground (arith, h.orderly, h.names d, fit);
    names = h.names;
    spoilt = h.spoilt;
    listed = h.listed;
    fit = h.fit;
    placed = h.placed;
    dropped = below;
  }

  pub IsOrderly-drop_goes_on : (i : ℕ) → IsOrderly (drop_goes_on i m)
  unfolding drop_goes_on
  IsOrderly-drop_goes_on i = elim (Option-cases (get_elem? m.drops i)) [
    | inl missing ↦ rw (drop_goes_on, missing) h
    | inr (reading old, there) ↦
        rw (drop_goes_on, there)
          (IsOrderly-cleared m.places (set_drop i (cleared old) m.drops) h.placed (
            dropped-set_drop m.next i (cleared old) m.drops
              (dropped-get m.next i (reading old) m.drops there h.dropped) h.dropped))
    | inr (cleared old, there) ↦
        rw (drop_goes_on, there)
          (closed_after (set_drop i (cleared none) m.drops)
            (dropped-set_drop m.next i (cleared none) m.drops refl h.dropped) old
            (dropped-get m.next i (cleared old) m.drops there h.dropped))
  ]

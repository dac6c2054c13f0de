-- ===== src/Channels/Tests.antt =====
-- A session that browses and breaks off a listing, and drops that come in between.
use hpc_client_gui.Base.{
  ◌≡◌, refl, List, [], ◌∷◌, ◌++◌, replicate, true, false, Option, none, some, if◌then◌else◌,
}
use hpc_client_gui.Channels.{
  Transport, opened, closed, lent, spoiled, timeout, inside, Call, enters, goes_on, leaves,
  drops_now, drop_steps, run, call, init, enter, go_on, go_on_at, open_listing, leave, leave_at,
  open_transfer_sftp, drop_reads, drop_goes_on,
}
use hpc_client_gui.Channels.Invariant.{is_discarding}
use hpc_client_gui.Channels.Lending.{is_listing_spoiled, lending_is_orderly}
use hpc_client_gui.Channels.Life.{is_orderly}

abbrev up : Option Transport
up = some (record { active = true; authenticated = some true; opens = true; has_channel = true })

abbrev session : List Call
session =
    enters ∷ replicate 4 (goes_on up true)
    ++ (leaves true ∷ enters ∷ replicate 2 (goes_on up true)
        ++ (leaves false ∷ replicate 3 (goes_on up true)))

events_of_session :
    (run session init).log
    ≡ closed 0 ∷ spoiled 0 ∷ lent 0 ∷ lent 0 ∷ timeout 0 15 ∷ timeout 0 60 ∷ opened 0 ∷ []
unfolding run call enter go_on go_on_at open_listing leave leave_at open_transfer_sftp
events_of_session = refl

-- Two threads drop the channel at once, and close it twice.
closed_twice :
    (run
      (enters ∷ replicate 4 (goes_on up true)
        ++ (drops_now ∷ drops_now ∷ drop_steps 0 ∷ drop_steps 1 ∷ drop_steps 0 ∷ drop_steps 1 ∷ []))
      init).log
    ≡ closed 0 ∷ closed 0 ∷ lent 0 ∷ timeout 0 15 ∷ timeout 0 60 ∷ opened 0 ∷ []
unfolding run call enter go_on go_on_at open_listing open_transfer_sftp drop_reads drop_goes_on
closed_twice = refl

-- A drop between the opening and the `yield`: the block is lent None.
none_is_lent :
    (run
      (enters ∷ replicate 3 (goes_on up true) ++ (drops_now ∷ drop_steps 0 ∷ goes_on up true ∷ []))
      init).places
    ≡ inside none ∷ []
unfolding run call enter go_on go_on_at open_listing open_transfer_sftp drop_reads drop_goes_on
none_is_lent = refl

lending_is_orderly_example :
    (is_orderly (run session init).log ≡ true)
    × ((if is_listing_spoiled (run session init)
          then is_discarding (run session init).places
          else true)
        ≡ true)
lending_is_orderly_example = lending_is_orderly session

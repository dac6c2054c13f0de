-- ===== src/Channels/Life.antt =====
-- What the log of the events says of a channel.
use hpc_client_gui.Base.{List, [], ◌∷◌, Bool, true, false, not, ◌&&◌, ◌||◌, ◌==◌}
use hpc_client_gui.Channels.{Channel, Event, opened, closed, lent, spoiled, timeout}

unfoldable pub was_opened : Channel → List Event → Bool
was_opened c [] = false
was_opened c (opened d ∷ log) = d == c || was_opened c log
was_opened c (closed d ∷ log) = was_opened c log
was_opened c (spoiled d ∷ log) = was_opened c log
was_opened c (lent d ∷ log) = was_opened c log
was_opened c (timeout d seconds ∷ log) = was_opened c log

unfoldable pub was_spoiled : Channel → List Event → Bool
was_spoiled c [] = false
was_spoiled c (opened d ∷ log) = was_spoiled c log
was_spoiled c (closed d ∷ log) = was_spoiled c log
was_spoiled c (spoiled d ∷ log) = d == c || was_spoiled c log
was_spoiled c (lent d ∷ log) = was_spoiled c log
was_spoiled c (timeout d seconds ∷ log) = was_spoiled c log

-- A channel is opened once; one that is lent was opened before, and no block has spoiled it.
unfoldable pub is_orderly : List Event → Bool
is_orderly [] = true
is_orderly (opened c ∷ log) = not (was_opened c log) && is_orderly log
is_orderly (closed c ∷ log) = was_opened c log && is_orderly log
is_orderly (spoiled c ∷ log) = was_opened c log && is_orderly log
is_orderly (lent c ∷ log) = was_opened c log && not (was_spoiled c log) && is_orderly log
is_orderly (timeout c seconds ∷ log) = was_opened c log && is_orderly log

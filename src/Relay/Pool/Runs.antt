-- ===== src/Relay/Pool/Runs.antt =====
-- src/relay-session.mjs: a history of a `RelayPool`, and all that it does outside.
use relayswarm.Base.{Bool, true, false, ℕ, List, [], ◌∷◌, ◌++◌, Text}
use relayswarm.Relay.Events.{RelayEvent}
use relayswarm.Relay.Pool.Frames.{Filter, Nostr}
use relayswarm.Relay.Pool.State.{Pool, Effect, Done, new_pool, on_message}
use relayswarm.Relay.Pool.Calls.{
  subscribe, unsubscribe, publish, on_open, on_close, publish_to, close, begin_connect, on_event,
  off_event, on_reject, off_reject, on_relay_open, off_relay_open,
}

-- What a page calls, and what the sockets report.
pub data Happening : Type 0 where
  connects : Happening
  opens : ℕ → Happening
  ends : ℕ → Happening
  receives : Text → Happening
  subscribes : Text → Filter → Happening
  unsubscribes : Text → Happening
  publishes : RelayEvent → Happening
  publishes_to : ℕ → RelayEvent → Happening
  listens : ℕ → Happening
  unlistens : ℕ → Happening
  watches_refusals : ℕ → Happening
  unwatches_refusals : ℕ → Happening
  watches_opening : ℕ → Happening
  unwatches_opening : ℕ → Happening
  closes : Happening

abbrev pub perform : Nostr → Happening → Pool → Done
perform n connects = begin_connect
perform n (opens s) = on_open s
perform n (ends s) = on_close s
perform n (receives t) = on_message n t
perform n (subscribes id f) = subscribe id f
perform n (unsubscribes id) = unsubscribe id
perform n (publishes e) = publish e
perform n (publishes_to s e) = publish_to s e
perform n (listens h) = on_event h
perform n (unlistens h) = off_event h
perform n (watches_refusals h) = on_reject h
perform n (unwatches_refusals h) = off_reject h
perform n (watches_opening h) = on_relay_open h
perform n (unwatches_opening h) = off_relay_open h
perform n closes = close

-- All but those by which sockets come and go.
abbrev pub is_calm : Happening → Bool
is_calm connects = false
is_calm (opens s) = false
is_calm (ends s) = false
is_calm closes = false
is_calm _ = true

pub record Log : Type 0 where
  pub pool : Pool
  pub effects : List Effect

abbrev pub logged : Log → Done → Log
logged l d = record { pool = d.pool; effects = l.effects ++ d.effects }

unfoldable pub run : Nostr → List Happening → Log → Log
run n [] l = l
run n (a ∷ rest) l = run n rest (logged l (perform n a l.pool))

abbrev pub new_log : Log
new_log = record { pool = new_pool; effects = [] }

abbrev pub All : {A : Type 0} → (A → Type 0) → List A → Type 0
All P [] = Unit {0}
All P (x ∷ xs) = P x × All P xs

pub anything : (happenings : List Happening) → All (λ a. Unit {0}) happenings
anything [] = tt
anything (a ∷ rest) = (tt, anything rest)

-- What every step keeps, a history keeps.
pub run-keeps :
    (n : Nostr) (P : Log → Type 0) (Q : Happening → Type 0)
    → ((a : Happening) (l : Log) → Q a → P l → P (logged l (perform n a l.pool)))
    → (happenings : List Happening) (l : Log) → All Q happenings
    → P l
    → P (run n happenings l)
unfolding run
run-keeps n P Q step [] l q p = p
run-keeps n P Q step (a ∷ rest) l q p =
    run-keeps n P Q step rest (logged l (perform n a l.pool)) q.1 (step a l q.0 p)

-- ===== src/Relay/Examples/Pending.antt =====
-- Dialling and waiting at concrete inputs (src/relay-session.mjs).
use relayswarm.Base.{ℕ, ◌≡◌, refl, Bool, true, false, Option, some, List, [], ◌∷◌, ◌==◌}
use relayswarm.Relay.Pool.Dialling.{
  Config, Dialler, new_dialler, ready, unreachable, connect_all, dials_of, settle, redial,
  redial_all,
}
use relayswarm.Relay.Pool.Listeners.{
  DialEvent, acts, fails, fires, dial_run, dial_step, connect, dial_opens, dial_fails, take_dial,
  socket_ends, close_all,
}
use relayswarm.Relay.Examples.{nostr}
use relayswarm.Relay.Pool.Runs.{connects, opens, ends}
use relayswarm.Relay.Pool.Calls.{on_open, on_close}
use relayswarm.Relay.Pool.Waiting.{IsAwaited}
use relayswarm.Relay.Pool.Waiting.Runs.{dial_run-new_dialler-IsAwaited}
use relayswarm.Relay.Pool.Over.{IsOver, dial_run-close_all}
use relayswarm.Relay.Session.Waits.{
  hears, expires, new_wait, wait_run, first_end, after, wait_run-new_wait,
}

abbrev two_relays : Bool → Config
two_relays again = record {
  first_url = 97 ∷ [];
  other_urls = (98 ∷ []) ∷ [];
  reconnect = again;
  ready_on_first_relay = false;
  reconnect_max_ms = 30000;
}

-- One of two relays fails, and with `reconnect` the other opens and is lost.
abbrev dialled_twice : List DialEvent
dialled_twice = acts connects ∷ fails 0 ∷ acts (opens 1) ∷ acts (ends 1) ∷ []

failing :
    (dial_run (two_relays false) nostr (acts connects ∷ fails 0 ∷ fails 1 ∷ []) new_dialler).answers
    ≡ (0, unreachable) ∷ []
unfolding dial_run dial_step connect connect_all dial_fails take_dial settle dials_of
failing = refl

reconnecting :
    (dial_run (two_relays true) nostr dialled_twice new_dialler).answers ≡ (0, ready) ∷ []
unfolding dial_run dial_step connect connect_all dial_fails dial_opens take_dial settle dials_of
    on_open on_close socket_ends redial redial_all
reconnecting = refl

dial_run-new_dialler-IsAwaited_example :
    IsAwaited (two_relays true) (dial_run (two_relays true) nostr dialled_twice new_dialler)
dial_run-new_dialler-IsAwaited_example =
    dial_run-new_dialler-IsAwaited (two_relays true) nostr dialled_twice

abbrev dialling : Dialler
dialling = dial_run (two_relays true) nostr (acts connects ∷ []) new_dialler

dial_run-close_all_example : IsOver (close_all dialling).answers (
    dial_run
      (two_relays true)
      nostr
      (acts (opens 0) ∷ fires 0 ∷ acts connects ∷ [])
      (close_all dialling))
dial_run-close_all_example =
    dial_run-close_all (two_relays true) nostr (acts (opens 0) ∷ fires 0 ∷ acts connects ∷ [])
      dialling

-- A number is awaited that is seven.
abbrev is_seven : ℕ → Option Bool
is_seven n = some (n == 7)

wait_run-new_wait_example :
    wait_run is_seven (hears 3 ∷ hears 7 ∷ expires ∷ []) (new_wait 1 [])
    ≡ after 1 (1 ∷ []) (first_end is_seven (hears 3 ∷ hears 7 ∷ expires ∷ []))
wait_run-new_wait_example = wait_run-new_wait is_seven (hears 3 ∷ hears 7 ∷ expires ∷ []) 1 []

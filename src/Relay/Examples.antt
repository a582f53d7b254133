-- ===== src/Relay/Examples.antt =====
-- The theorems on src/relay-session.mjs at concrete inputs, and tests.
mod Pending
mod Sessions
use relayswarm.Base.{
  ℕ, ◌≡◌, refl, subst, Bool, true, false, ◌||◌, ◌==◌, none, some, List, [], ◌∷◌, ◌++◌, Text, length,
  lookup, text_eq, is_hex64, every, arith, if◌then◌else◌, leb, ◌≤◌, insert,
}
use relayswarm.Base.Int.{pos}
use relayswarm.Relay.Events.{
  string, RelayEvent, kind_presence, kind_signal, is_token, is_request_id,
}
use relayswarm.Relay.Pool.Frames.{Filter, text, event, Nostr, read_frame, is_too_old}
use relayswarm.Relay.Pool.State.{Pool, new_pool, on_message, deliver_matching, is_seen, remember}
use relayswarm.Relay.Pool.Calls.{close, subscribe, on_open, begin_connect, on_event, publish}
use relayswarm.Relay.Pool.Runs.{
  Happening, connects, opens, listens, subscribes, receives, run, new_log, All,
}
use relayswarm.Relay.Pool.Recent.{IsSpaced}
use relayswarm.Relay.Pool.Steps.{dispatched}
use relayswarm.Relay.Pool.Delivered.{handed, run-IsSpaced}
use relayswarm.Relay.Pool.Genuine.{Genuine, run-Genuine}
use relayswarm.Relay.Pool.Bounds.{IsSmall, run-IsSmall}
use relayswarm.Relay.Pool.Closed.{IsShutting, close-IsSilent}
use relayswarm.Relay.Session.State.{Session, Signal, Outside}
use relayswarm.Relay.Session.Keys.{owned, conversation_key}
use relayswarm.Relay.Session.Sending.{
  Announcement, valid_signal, send_signal, valid_announcement, announced, announce_presence,
}
use relayswarm.Relay.Session.Receiving.{signal_from, presence_from, receive}
use relayswarm.Relay.Session.Derived.{Derives, conversation_key-Derives}
use relayswarm.Relay.Session.Sound.{Heard, receive-Heard}
use relayswarm.Relay.Session.Signals.{versioned, receive-send_signal}
use relayswarm.Relay.Session.Presences.{receive-announce_presence}
use relayswarm.Relay.Session.Start.{Names, start}
use relayswarm.Relay.Session.Starts.{Takes, start-Takes}

abbrev pub sixteen : ℕ → Text
sixteen c = c ∷ c ∷ c ∷ c ∷ c ∷ c ∷ c ∷ c ∷ c ∷ c ∷ c ∷ c ∷ c ∷ c ∷ c ∷ c ∷ []

abbrev pub hex64 : ℕ → Text
hex64 c = sixteen c ++ (sixteen c ++ (sixteen c ++ sixteen c))

abbrev pub swarm : Text
swarm = sixteen b's'

abbrev pub first_id : Text
first_id = b'1' ∷ []

abbrev signal_kind_filter : Filter
signal_kind_filter = record {
  kinds = kind_signal ∷ [];
  swarms = swarm ∷ [];
  recipients = none;
  since = none;
}

abbrev pub some_event : RelayEvent
some_event = record {
  id = string first_id;
  pubkey = hex64 b'b';
  kind = kind_signal;
  created_at = some (pos 1000);
  tags =
      (string (b'x' ∷ []) ∷ string swarm ∷ [])
      ∷ (string (b'p' ∷ []) ∷ string (hex64 b'a') ∷ [])
      ∷ [];
  content = b'{' ∷ b'}' ∷ [];
}

abbrev one_of : List ℕ → ℕ → Bool
one_of [] k = false
one_of (x ∷ xs) k = x == k || one_of xs k

-- Every message is read as the same event.
abbrev nostr : Nostr
nostr = record {
  utf8_length = length;
  parse_frame = λ t.
      some (text (b'E' ∷ b'V' ∷ b'E' ∷ b'N' ∷ b'T' ∷ []) ∷ text first_id ∷ event some_event ∷ []);
  matches = λ f e. some (one_of f.kinds e.kind);
  verifies = λ e. some true;
}

abbrev happenings : List Happening
happenings =
    connects
    ∷ opens 1
    ∷ listens 7
    ∷ subscribes first_id signal_kind_filter
    ∷ receives (b'a' ∷ [])
    ∷ receives (b'b' ∷ [])
    ∷ []

-- The event that comes twice is handed out once.
handed_once : handed (run nostr happenings new_log) ≡ first_id ∷ []
unfolding run begin_connect on_open on_event subscribe insert on_message read_frame text_eq
    deliver_matching is_seen remember lookup is_too_old
handed_once = refl

run-IsSpaced_example : IsSpaced (handed (run nostr happenings new_log))
run-IsSpaced_example = run-IsSpaced nostr happenings

run-Genuine_example :
    All
      (Genuine nostr (λ f. f ≡ signal_kind_filter))
      (dispatched (run nostr happenings new_log).effects)
run-Genuine_example =
    run-Genuine nostr (λ f. f ≡ signal_kind_filter) happenings
      (tt, (tt, (tt, (refl, (tt, (tt, tt))))))

run-IsSmall_example : IsSmall (run nostr happenings new_log)
run-IsSmall_example = run-IsSmall nostr happenings

close-IsSilent_example :
    All IsShutting
      (run nostr happenings (record { pool = (close new_pool).pool; effects = [] })).effects
close-IsSilent_example = close-IsSilent nostr new_pool happenings

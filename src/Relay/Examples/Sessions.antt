-- ===== src/Relay/Examples/Sessions.antt =====
-- Sessions at concrete inputs (src/relay-session.mjs).
use relayswarm.Base.{
  ◌≡◌, refl, subst, Bool, true, false, none, some, [], ◌∷◌, Text, length, lookup, text_eq, is_hex64,
  every, arith, if◌then◌else◌, leb, ◌≤◌, insert,
}
use relayswarm.Base.Int.{pos}
use relayswarm.Relay.Events.{
  string, RelayEvent, kind_presence, kind_signal, is_token, is_request_id,
}
use relayswarm.Relay.Pool.Frames.{Filter}
use relayswarm.Relay.Pool.State.{Pool, new_pool}
use relayswarm.Relay.Pool.Calls.{publish}
use relayswarm.Relay.Session.State.{Session, Signal, Outside}
use relayswarm.Relay.Session.Keys.{owned, conversation_key}
use relayswarm.Relay.Session.Sending.{
  Announcement, valid_signal, send_signal, valid_announcement, announced, announce_presence,
}
use relayswarm.Relay.Session.Receiving.{signal_from, presence_from, receive}
use relayswarm.Relay.Session.Derived.{Derives, conversation_key-Derives}
use relayswarm.Relay.Session.Sound.{Heard, receive-Heard}
use relayswarm.Relay.Session.Signals.{versioned, receive-send_signal}
use relayswarm.Relay.Session.Presences.{receive-announce_presence}
use relayswarm.Relay.Session.Start.{Names, start}
use relayswarm.Relay.Session.Starts.{Takes, start-Takes}
use relayswarm.Relay.Examples.{hex64, sixteen, some_event, first_id, swarm}

abbrev signal : Signal
signal = record {
  version = none;
  type = string (b'o' ∷ b'f' ∷ []);
  transport = string (b'r' ∷ b't' ∷ b'c' ∷ []);
  request_id = string (sixteen b'q');
  payload = some (b'{' ∷ b'}' ∷ []);
}

abbrev announcement : Announcement
announcement = record {
  role = b'v' ∷ [];
  transports =
      record { type = string (b'r' ∷ []); public_key = string (hex64 b'c'); obj = some 1 } ∷ [];
  have = string (hex64 b'd') ∷ string (hex64 b'd') ∷ [];
  open_slot = some true;
  ticket = none;
}

-- A secret key is its public key here, and nothing is hidden.
abbrev outside : Outside
outside = record {
  utf8_length = length;
  derive = λ secret pubkey. some (b'k' ∷ []);
  encrypt = λ t key. if leb (length t) 8192 then some t else none;
  decrypt = λ c key. some c;
  finalize = λ d secret. record {
    id = string first_id;
    pubkey = secret;
    kind = d.kind;
    created_at = some (pos d.created_at);
    tags = d.tags;
    content = d.content;
  };
  print_signal = λ m. b's' ∷ [];
  parse_signal = λ t. some (versioned signal);
  print_presence = λ m. b'p' ∷ [];
  parse_presence = λ t. some (announced announcement);
}

abbrev session_of : Text → Session
session_of key = record {
  swarm_id = swarm;
  secret_key = key;
  pubkey = key;
  max_event_age = 120;
  started = false;
  subscription_ids = [];
  last_presence = none;
  conversation_keys = [];
  conversation_key_owner = none;
  ahead_rejected = 0;
  stale_rejected = 0;
  max_ahead_seconds = 0;
  signal_ages = [];
}

abbrev sender : Session
sender = session_of (hex64 b'b')

abbrev receiver : Session
receiver = session_of (hex64 b'a')

abbrev open_pool : Pool
open_pool = record new_pool { sockets = 1 ∷ []; connected = true }

conversation_key-Derives_example :
    Derives outside receiver.pubkey sender (conversation_key outside receiver.pubkey sender)
conversation_key-Derives_example =
    conversation_key-Derives outside receiver.pubkey sender ((λ owner e. tt), omega arith)

receive-Heard_example :
    Heard outside 1010 some_event receiver (receive outside 1010 some_event receiver)
receive-Heard_example =
    receive-Heard outside 1010 some_event receiver
      ((omega arith, tt), ((λ owner e. tt), omega arith))

abbrev sent_signal : RelayEvent
sent_signal = record {
  id = string first_id;
  pubkey = hex64 b'b';
  kind = kind_signal;
  created_at = some (pos 1000);
  tags =
      (string (b'x' ∷ []) ∷ string swarm ∷ [])
      ∷ (string (b'p' ∷ []) ∷ string (hex64 b'a') ∷ [])
      ∷ [];
  content = b's' ∷ [];
}

is_sent : (send_signal outside 1000 (hex64 b'a') signal sender open_pool).event ≡ some sent_signal
unfolding send_signal is_hex64 every valid_signal is_token is_request_id conversation_key owned
    lookup insert publish
is_sent = refl

foreign : text_eq (hex64 b'b') (hex64 b'a') ≡ false
unfolding text_eq
foreign = refl

-- What the encryption of the example does.
sealed :
    (t c : Text)
    → (if leb (length t) 8192 then some t else none) ≡ some c
    → (some c ≡ some t) × (length c ≤ 65536)
sealed t c h = go (leb (length t) 8192) refl h
  where
    short : (w : Text) → leb (length w) 8192 ≡ true → length w ≤ 65536
    short w e = ground arith

    go :
        (b : Bool)
        → leb (length t) 8192 ≡ b
        → (if b then some t else none) ≡ some c
        → (some c ≡ some t) × (length c ≤ 65536)
    go true e h = (cc h, subst (λ w. length w ≤ 65536) (cc h) (short t e))
    go false e h = absurd (cc h)

receive-send_signal_example :
    (receive outside 1010 sent_signal receiver).delivery
    ≡ some (signal_from (hex64 b'b') (versioned signal))
receive-send_signal_example =
    receive-send_signal outside 1000 1010 sender receiver signal open_pool sent_signal is_sent
      ((λ owner e. tt), omega arith) ((λ owner e. tt), omega arith) refl foreign (omega arith)
      (omega arith) (λ d. ((refl, refl), refl, refl, refl)) refl (λ t key c few h. sealed t c h)
      refl

abbrev sent_presence : RelayEvent
sent_presence = record {
  id = string first_id;
  pubkey = hex64 b'b';
  kind = kind_presence;
  created_at = some (pos 1000);
  tags = (string (b'x' ∷ []) ∷ string swarm ∷ []) ∷ [];
  content = b'p' ∷ [];
}

is_made : (announce_presence outside 1000 announcement sender open_pool).event ≡ some sent_presence
unfolding announce_presence valid_announcement is_token every is_hex64 publish
is_made = refl

receive-announce_presence_example :
    (receive outside 1010 sent_presence receiver).delivery
    ≡ some (presence_from (hex64 b'b') (announced announcement))
receive-announce_presence_example =
    receive-announce_presence outside 1000 1010 sender receiver announcement open_pool sent_presence
      is_made refl foreign (omega arith) (omega arith) (λ d. ((refl, refl), refl, refl, refl)) refl

abbrev names : Names
names = record {
  event_handler = 7;
  open_handler = 8;
  presence_id = b'1' ∷ [];
  signal_id = b'2' ∷ [];
}

fresh_names :
    ((false ≡ false) × (false ≡ false))
    × (lookup {V = Filter} (b'1' ∷ []) [] ≡ none)
    × (text_eq (b'2' ∷ []) (b'1' ∷ []) ≡ false)
unfolding lookup text_eq
fresh_names = ((refl, refl), refl, refl)

start-Takes_example :
    Takes names 1000 receiver open_pool
      (start names 1000 receiver open_pool).outcome
      (start names 1000 receiver open_pool)
start-Takes_example = start-Takes names 1000 receiver open_pool refl fresh_names

-- ===== src/Relay/Session/State.antt =====
-- src/relay-session.mjs: the state of `RelaySwarmSession`, and the code outside that it calls. The
-- clock is read once for each operation, in whole seconds, and `maxEventAgeSeconds` is a whole number.
use relayswarm.Base.{
  ℕ, Bool, false, ◌&&◌, ◌||◌, not, Option, none, some, List, [], Text, Map, length, leb, ltb, ◌==◌,
  if◌then◌else◌,
}
use relayswarm.Base.Int.{ℤ}
use relayswarm.Relay.Events.{Value, RelayEvent}

pub record Session : Type 0 where
  pub swarm_id : Text
  pub secret_key : Text
  pub pubkey : Text
  pub max_event_age : ℕ
  pub started : Bool
  pub subscription_ids : List Text
  pub last_presence : Option RelayEvent
  pub conversation_keys : Map Text
  pub conversation_key_owner : Option Text
  pub ahead_rejected : ℕ
  pub stale_rejected : ℕ
  pub max_ahead_seconds : ℕ
  pub signal_ages : List ℤ

-- The object that a signal encrypts. `version` is `none` where it is no number, `payload` where it
-- is no object; an object is its JSON text.
pub record Signal : Type 0 where
  pub version : Option ℕ
  pub type : Value
  pub transport : Value
  pub request_id : Value
  pub payload : Option Text

-- `none` in a field: it is missing, or not of the type that the code looks for. `obj` is the framing.
pub record Transport : Type 0 where
  pub type : Value
  pub public_key : Value
  pub obj : Option ℕ

-- A transport is `none` where it is no object.
pub record Presence : Type 0 where
  pub version : Option ℕ
  pub role : Value
  pub transports : Option (List (Option Transport))
  pub have : Option (List Value)
  pub open_slot : Option Bool
  pub ticket : Option Text

-- What `finalizeEvent` signs.
pub record Draft : Type 0 where
  pub kind : ℕ
  pub created_at : ℕ
  pub tags : List (List Value)
  pub content : Text

-- nostr-tools, JSON and TextEncoder; `none` is an exception.
pub record Outside : Type 0 where
  pub utf8_length : Text → ℕ
  pub derive : Text → Text → Option Text
  pub encrypt : Text → Text → Option Text
  pub decrypt : Text → Text → Option Text
  pub finalize : Draft → Text → RelayEvent
  pub print_signal : Signal → Text
  pub parse_signal : Text → Option Signal
  pub print_presence : Presence → Text
  pub parse_presence : Text → Option Presence

abbrev pub max_presence_bytes : ℕ
max_presence_bytes = 16384

abbrev pub max_signal_ciphertext_bytes : ℕ
max_signal_ciphertext_bytes = 65536

abbrev pub max_signal_plaintext_bytes : ℕ
max_signal_plaintext_bytes = 8192

abbrev pub max_ticket_bytes : ℕ
max_ticket_bytes = 2048

abbrev pub clock_sample_capacity : ℕ
clock_sample_capacity = 64

abbrev pub conversation_key_capacity : ℕ
conversation_key_capacity = 256

-- `validTicket`, of a string.
unfoldable pub valid_ticket : Outside → Text → Bool
valid_ticket o t = not (length t == 0) && leb (o.utf8_length t) max_ticket_bytes

abbrev pub valid_object_framing : ℕ → Bool
valid_object_framing n = leb 1 n && leb n 15

-- `new RelaySwarmSession`, with the public key of its secret key.
abbrev pub new_session : Text → Text → Text → ℕ → Option Session
new_session swarm secret pubkey age =
    if ltb (length swarm) 8 || ltb 128 (length swarm)
    then none
    else some (record {
      swarm_id = swarm;
      secret_key = secret;
      pubkey = pubkey;
      max_event_age = age;
      started = false;
      subscription_ids = [];
      last_presence = none;
      conversation_keys = [];
      conversation_key_owner = none;
      ahead_rejected = 0;
      stale_rejected = 0;
      max_ahead_seconds = 0;
      signal_ages = [];
    })

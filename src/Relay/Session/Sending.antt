-- ===== src/Relay/Session/Sending.antt =====
-- src/relay-session.mjs: `sendSignal` and `announcePresence`.
use relayswarm.Base.{
  ℕ, Bool, true, false, ◌&&◌, ◌||◌, not, Option, none, some, List, [], ◌∷◌, Text, length, leb, ltb,
  every, text_eq, is_hex64, if◌then◌else◌,
}
use relayswarm.Relay.Events.{
  Value, string, shown, RelayEvent, swarm_tag, recipient_tag, relayswarm_version, kind_presence,
  kind_signal, valid_token, valid_request_id,
}
use relayswarm.Relay.Pool.State.{Pool, Outcome, returns, throws, Done}
use relayswarm.Relay.Pool.Calls.{refused, publish}
use relayswarm.Relay.Session.State.{
  Session, Signal, Transport, Presence, Draft, Outside, max_presence_bytes,
  max_signal_plaintext_bytes, valid_ticket, valid_object_framing,
}
use relayswarm.Relay.Session.Keys.{conversation_key}

pub record Sent : Type 0 where
  pub event : Option RelayEvent
  pub session : Session
  pub done : Done

abbrev pub thrown : Session → Pool → Sent
thrown s p = record { event = none; session = s; done = refused p }

abbrev pub is_some : {A : Type 0} → Option A → Bool
is_some none = false
is_some (some a) = true

unfoldable pub valid_signal : Signal → Bool
valid_signal m =
    valid_token m.type
    && valid_token m.transport
    && valid_request_id m.request_id
    && is_some m.payload

abbrev pub signal_draft : ℕ → Session → Text → Text → Draft
signal_draft now s to content = record {
  kind = kind_signal;
  created_at = now;
  tags = (string swarm_tag ∷ string s.swarm_id ∷ []) ∷ (string recipient_tag ∷ string to ∷ []) ∷ [];
  content = content;
}

abbrev pub published : Outcome → RelayEvent → Option RelayEvent
published returns e = some e
published throws e = none

abbrev pub publish_signal : RelayEvent → Session → Done → Sent
publish_signal e s d = record { event = published d.outcome e; session = s; done = d }

abbrev pub seal : Outside → ℕ → Text → Option Text → Session → Pool → Sent
seal o now to none s p = thrown s p
seal o now to (some content) s p =
    let e = o.finalize (signal_draft now s to content) s.secret_key in
    publish_signal e s (publish e p)

abbrev pub encrypted : Outside → Text → Option Text → Option Text
encrypted o plaintext none = none
encrypted o plaintext (some key) = o.encrypt plaintext key

abbrev pub send_with : Outside → ℕ → Text → Text → Option Text × Session → Pool → Sent
send_with o now to plaintext (key, s) p = seal o now to (encrypted o plaintext key) s p

-- `version` of the signal is the code's own.
unfoldable pub send_signal : Outside → ℕ → Text → Signal → Session → Pool → Sent
send_signal o now to m s p =
    let plaintext = o.print_signal (record m { version = some relayswarm_version }) in
    if not (is_hex64 to)
      || not (valid_signal m)
      || ltb max_signal_plaintext_bytes (o.utf8_length plaintext)
    then thrown s p
    else send_with o now to plaintext (conversation_key o to s) p

-- What a host gives to `announcePresence`.
pub record Announcement : Type 0 where
  pub role : Text
  pub transports : List Transport
  pub have : List Value
  pub open_slot : Option Bool
  pub ticket : Option Text

abbrev pub framing_allowed : Option ℕ → Bool
framing_allowed none = true
framing_allowed (some n) = valid_object_framing n

abbrev pub valid_transport : Transport → Bool
valid_transport t = valid_token t.type && is_hex64 (shown t.public_key) && framing_allowed t.obj

abbrev pub ticket_allowed : Outside → Option Text → Bool
ticket_allowed o none = true
ticket_allowed o (some t) = valid_ticket o t

unfoldable pub valid_announcement : Outside → Announcement → Bool
valid_announcement o a =
    ticket_allowed o a.ticket
    && valid_token (string a.role)
    && leb (length a.transports) 8
    && leb (length a.have) 32
    && every (λ h. is_hex64 (shown h)) a.have
    && every valid_transport a.transports

-- `new Set(have)`, of strings.
abbrev pub same_value : Value → Value → Bool
same_value (string a) (string b) = text_eq a b
same_value _ _ = false

abbrev pub is_among : Value → List Value → Bool
is_among v [] = false
is_among v (x ∷ xs) = same_value x v || is_among v xs

-- The values not met before, in order.
unfoldable pub distinct_from : List Value → List Value → List Value
distinct_from met [] = []
distinct_from met (v ∷ vs) =
    let rest = distinct_from (v ∷ met) vs in if is_among v met then rest else v ∷ rest

abbrev pub present : List Transport → List (Option Transport)
present [] = []
present (t ∷ ts) = some t ∷ present ts

abbrev pub announced : Announcement → Presence
announced a = record {
  version = some relayswarm_version;
  role = string a.role;
  transports = some (present a.transports);
  have = some (distinct_from [] a.have);
  open_slot = a.open_slot;
  ticket = a.ticket;
}

abbrev pub presence_draft : ℕ → Session → Text → Draft
presence_draft now s content = record {
  kind = kind_presence;
  created_at = now;
  tags = (string swarm_tag ∷ string s.swarm_id ∷ []) ∷ [];
  content = content;
}

abbrev pub remembered : Outcome → RelayEvent → Session → Done → Sent
remembered returns e s d = record {
  event = some e;
  session = record s { last_presence = some e };
  done = d;
}
remembered throws e s d = record { event = none; session = s; done = d }

abbrev pub remember_presence : RelayEvent → Session → Done → Sent
remember_presence e s d = remembered d.outcome e s d

unfoldable pub announce_presence : Outside → ℕ → Announcement → Session → Pool → Sent
announce_presence o now a s p =
    let content = o.print_presence (announced a) in
    if not (valid_announcement o a) || ltb max_presence_bytes (o.utf8_length content)
    then thrown s p
    else (let e = o.finalize (presence_draft now s content) s.secret_key in
        remember_presence e s (publish e p))

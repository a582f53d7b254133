-- ===== src/Relay/Session/Receiving.antt =====
-- src/relay-session.mjs: `receive`, `receivePresence` and `receiveSignal`. An exception inside the
-- two is caught, and hands out nothing.
use relayswarm.Base.{
  ℕ, suc, ◌+◌, Bool, false, ◌&&◌, ◌||◌, not, Option, none, some, List, [], ◌∷◌, ◌++◌, Text, length,
  drop, leb, ltb, ◌==◌, max, every, text_eq, is_hex64, if◌then◌else◌,
}
use relayswarm.Base.Int.{ℤ, pos, negsuc}
use relayswarm.Relay.Events.{
  Value, shown, RelayEvent, tag_values, unique_tag, is_text, swarm_tag, recipient_tag,
  relayswarm_version, kind_presence, kind_signal, saturating, valid_token, age_at,
}
use relayswarm.Relay.Session.State.{
  Session, Signal, Transport, Presence, Outside, max_presence_bytes, max_signal_ciphertext_bytes,
  max_signal_plaintext_bytes, clock_sample_capacity, valid_ticket, valid_object_framing,
}
use relayswarm.Relay.Session.Keys.{conversation_key}
use relayswarm.Relay.Session.Sending.{valid_signal}

pub data Delivery : Type 0 where
  presence_from : Text → Presence → Delivery
  signal_from : Text → Signal → Delivery

pub record Received : Type 0 where
  pub session : Session
  pub delivery : Option Delivery

abbrev pub nothing : Session → Received
nothing s = record { session = s; delivery = none }

abbrev pub is_version : Option ℕ → Bool
is_version none = false
is_version (some v) = v == relayswarm_version

abbrev pub valid_hash : Value → Bool
valid_hash v = is_hex64 (shown v)

-- `none` where a transport makes the code throw.
abbrev pub framed : Option ℕ → Option ℕ
framed none = none
framed (some n) = if valid_object_framing n then some n else none

abbrev pub read_transport : Option Transport → Option (Option Transport)
read_transport none = none
read_transport (some t) =
    if valid_token t.type && valid_hash t.public_key
    then some (some (record t { obj = framed t.obj }))
    else none

abbrev pub joined :
    Option (Option Transport) → Option (List (Option Transport)) → Option (List (Option Transport))
joined (some t) (some ts) = some (t ∷ ts)
joined _ _ = none

unfoldable pub read_transports : List (Option Transport) → Option (List (Option Transport))
read_transports [] = some []
read_transports (t ∷ ts) = joined (read_transport t) (read_transports ts)

abbrev pub read_ticket : Outside → Option Text → Option Text
read_ticket o none = none
read_ticket o (some t) = if valid_ticket o t then some t else none

abbrev pub few_transports : Option (List (Option Transport)) → Option (List (Option Transport))
few_transports none = none
few_transports (some ts) = if leb (length ts) 8 then read_transports ts else none

abbrev pub valid_have : Option (List Value) → Bool
valid_have none = false
valid_have (some hs) = leb (length hs) 32 && every valid_hash hs

abbrev pub present_transports :
    Outside → Presence → Option (List (Option Transport)) → Option Presence
present_transports o m none = none
present_transports o m (some ts) =
    some (record m { transports = some ts; ticket = read_ticket o m.ticket })

-- What a presence is read as.
unfoldable pub read_presence : Outside → Presence → Option Presence
unfolding read_transports
read_presence o m =
    if is_version m.version && valid_token m.role && valid_have m.have
    then present_transports o m (few_transports m.transports)
    else none

abbrev pub read_content : Outside → Option Presence → Option Presence
read_content o none = none
read_content o (some m) = read_presence o m

abbrev pub hand_presence : Text → Option Presence → Session → Received
hand_presence from none s = nothing s
hand_presence from (some m) s = record { session = s; delivery = some (presence_from from m) }

unfoldable pub receive_presence : Outside → RelayEvent → Session → Received
receive_presence o e s =
    if ltb max_presence_bytes (o.utf8_length e.content)
      || not (length (tag_values recipient_tag e.tags) == 0)
    then nothing s
    else hand_presence e.pubkey (read_content o (o.parse_presence e.content)) s

abbrev pub make_sample_room : List ℤ → List ℤ
make_sample_room ages = if leb clock_sample_capacity (length ages) then drop 1 ages else ages

abbrev pub hand_signal : ℤ → Text → Signal → Session → Received
hand_signal age from m s = record {
  session = record s { signal_ages = make_sample_room s.signal_ages ++ (age ∷ []) };
  delivery = some (signal_from from m);
}

abbrev pub on_signal : ℤ → Text → Option Signal → Session → Received
on_signal age from none s = nothing s
on_signal age from (some m) s =
    if is_version m.version && valid_signal m then hand_signal age from m s else nothing s

abbrev pub on_plaintext : Outside → ℤ → Text → Option Text → Session → Received
on_plaintext o age from none s = nothing s
on_plaintext o age from (some t) s =
    if ltb max_signal_plaintext_bytes (o.utf8_length t)
    then nothing s
    else on_signal age from (o.parse_signal t) s

abbrev pub decrypted : Outside → Text → Option Text → Option Text
decrypted o content none = none
decrypted o content (some key) = o.decrypt content key

abbrev pub signal_with : Outside → ℤ → RelayEvent → Option Text × Session → Received
signal_with o age e (key, s) = on_plaintext o age e.pubkey (decrypted o e.content key) s

unfoldable pub receive_signal : Outside → ℤ → RelayEvent → Session → Received
receive_signal o age e s =
    if ltb max_signal_ciphertext_bytes (o.utf8_length e.content)
      || not (is_text s.pubkey (unique_tag recipient_tag e))
    then nothing s
    else signal_with o age e (conversation_key o e.pubkey s)

-- `-age`, of an age below -30.
abbrev ahead_by : ℤ → ℕ
ahead_by (pos n) = 0
ahead_by (negsuc n) = suc n

abbrev pub is_ahead : ℤ → Bool
is_ahead (pos n) = false
is_ahead (negsuc n) = ltb 29 n

abbrev pub is_stale : ℤ → ℕ → Bool
is_stale (pos n) most = ltb most n
is_stale (negsuc n) most = false

abbrev pub ahead : ℤ → Session → Received
ahead age s = nothing (record s {
  ahead_rejected = saturating (s.ahead_rejected + 1);
  max_ahead_seconds = max s.max_ahead_seconds (saturating (ahead_by age));
})

abbrev pub stale : Session → Received
stale s = nothing (record s { stale_rejected = saturating (s.stale_rejected + 1) })

abbrev pub receive_live : Outside → ℤ → RelayEvent → Session → Received
receive_live o age e s =
    if e.kind == kind_presence then receive_presence o e s else receive_signal o age e s

abbrev pub receive_aged : Outside → ℤ → RelayEvent → Session → Received
receive_aged o age e s =
    if is_ahead age
    then ahead age s
    else (if is_stale age s.max_event_age then stale s else receive_live o age e s)

abbrev pub receive_at : Outside → ℕ → Option ℤ → RelayEvent → Session → Received
receive_at o now none e s = nothing s
receive_at o now (some created) e s = receive_aged o (age_at now created) e s

abbrev pub is_foreign : RelayEvent → Session → Bool
is_foreign e s =
    text_eq e.pubkey s.pubkey
    || not (e.kind == kind_presence || e.kind == kind_signal)
    || not (is_text s.swarm_id (unique_tag swarm_tag e))

unfoldable pub receive : Outside → ℕ → RelayEvent → Session → Received
receive o now e s = if is_foreign e s then nothing s else receive_at o now e.created_at e s

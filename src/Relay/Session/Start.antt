-- ===== src/Relay/Session/Start.antt =====
-- src/relay-session.mjs: `start`, the replay of a presence to a relay that opens, and `close`.
use relayswarm.Base.{
  ℕ, ◌-◌, Bool, true, false, ◌||◌, not, Option, none, some, List, [], ◌∷◌, ◌++◌, Text,
  if◌then◌else◌,
}
use relayswarm.Base.Int.{ℤ}
use relayswarm.Relay.Events.{RelayEvent, kind_presence, kind_signal, age_at}
use relayswarm.Relay.Pool.Frames.{Filter}
use relayswarm.Relay.Pool.State.{Pool, Effect, Outcome, returns, throws, Done}
use relayswarm.Relay.Pool.Calls.{
  subscribe, unsubscribe, on_event, off_event, on_relay_open, off_relay_open,
}
use relayswarm.Relay.Session.State.{Session}
use relayswarm.Relay.Session.Receiving.{is_ahead, is_stale}

-- The numbers of the two handlers, and the identifiers that the pool draws.
pub record Names : Type 0 where
  pub event_handler : ℕ
  pub open_handler : ℕ
  pub presence_id : Text
  pub signal_id : Text

pub record Started : Type 0 where
  pub outcome : Outcome
  pub session : Session
  pub pool : Pool
  pub effects : List Effect

abbrev pub presence_filter : ℕ → Session → Filter
presence_filter now s = record {
  kinds = kind_presence ∷ [];
  swarms = s.swarm_id ∷ [];
  recipients = none;
  since = some (now - s.max_event_age);
}

abbrev pub signal_filter : ℕ → Session → Filter
signal_filter now s = record {
  kinds = kind_signal ∷ [];
  swarms = s.swarm_id ∷ [];
  recipients = some (s.pubkey ∷ []);
  since = some (now - 2);
}

abbrev pub unsubscribe_all : List Text → Pool → Pool
unsubscribe_all [] p = p
unsubscribe_all (id ∷ rest) p = unsubscribe_all rest (unsubscribe id p).pool

abbrev unsubscribe_effects : List Text → Pool → List Effect
unsubscribe_effects [] p = []
unsubscribe_effects (id ∷ rest) p =
    (unsubscribe id p).effects ++ unsubscribe_effects rest (unsubscribe id p).pool

abbrev pub unlistened : Names → Pool → Pool
unlistened n p = (off_relay_open n.open_handler (off_event n.event_handler p).pool).pool

-- The `catch` of `start`.
abbrev pub rolled_back : Names → List Text → Session → List Effect → Pool → Started
rolled_back n ids s effects p = record {
  outcome = throws;
  session = record s { started = false; subscription_ids = []; last_presence = none };
  pool = unlistened n (unsubscribe_all ids p);
  effects = effects ++ unsubscribe_effects ids p;
}

abbrev pub on_second : Names → Session → List Effect → Outcome → Done → Started
on_second n s effects throws d = rolled_back n (n.presence_id ∷ []) s (effects ++ d.effects) d.pool
on_second n s effects returns d = record {
  outcome = returns;
  session = record s { started = true; subscription_ids = n.presence_id ∷ n.signal_id ∷ [] };
  pool = d.pool;
  effects = effects ++ d.effects;
}

abbrev second : Names → ℕ → Session → List Effect → Done → Started
second n now s effects d = on_second n s effects d.outcome d

abbrev pub on_first : Names → ℕ → Session → Outcome → Done → Started
on_first n now s throws d = rolled_back n [] s d.effects d.pool
on_first n now s returns d =
    second n now s d.effects (subscribe n.signal_id (signal_filter now s) d.pool)

abbrev first : Names → ℕ → Session → Done → Started
first n now s d = on_first n now s d.outcome d

abbrev pub listened : Names → Pool → Pool
listened n p = (on_relay_open n.open_handler (on_event n.event_handler p).pool).pool

abbrev unchanged : Session → Pool → Started
unchanged s p = record { outcome = returns; session = s; pool = p; effects = [] }

-- A session that is not started has no subscriptions.
unfoldable pub start : Names → ℕ → Session → Pool → Started
start n now s p =
    if s.started
    then unchanged s p
    else first n now s (subscribe n.presence_id (presence_filter now s) (listened n p))

-- The age of the presence that was last published.
abbrev is_replayed : Option ℤ → ℕ → ℕ → Bool
is_replayed none now most = false
is_replayed (some c) now most = not (is_ahead (age_at now c) || is_stale (age_at now c) most)

abbrev replay_of : RelayEvent → ℕ → Session → Option RelayEvent × Session
replay_of e now s =
    if is_replayed e.created_at now s.max_event_age
    then (some e, s)
    else (none, record s { last_presence = none })

abbrev last_of : Option RelayEvent → ℕ → Session → Option RelayEvent × Session
last_of none now s = (none, s)
last_of (some e) now s = replay_of e now s

-- What is published to a relay that has just opened.
unfoldable pub replay : ℕ → Session → Option RelayEvent × Session
replay now s = if s.started then last_of s.last_presence now s else (none, s)

-- `close`.
unfoldable pub close_session : Names → Session → Pool → Started
close_session n s p = record {
  outcome = returns;
  session = record s {
    started = false;
    subscription_ids = [];
    last_presence = none;
    conversation_keys = [];
    conversation_key_owner = none;
  };
  pool = unsubscribe_all s.subscription_ids (unlistened n p);
  effects = unsubscribe_effects s.subscription_ids (unlistened n p);
}

-- ===== src/Relay/Pool/Calls.antt =====
-- src/relay-session.mjs: the calls of `RelayPool`, and its sockets that open and close.
use relayswarm.Base.{
  ℕ, ◌+◌, Bool, true, false, ◌&&◌, ◌||◌, not, List, [], ◌∷◌, ◌++◌, Text, Map, map, length, leb,
  ◌==◌, insert, delete, has, if◌then◌else◌,
}
use relayswarm.Relay.Events.{RelayEvent}
use relayswarm.Relay.Pool.Frames.{Filter}
use relayswarm.Relay.Pool.State.{
  Pool, Effect, asks, unasks, sends, shuts, tells_open, Done, returns, throws, quietly,
  subscription_capacity,
}

abbrev pub has_relay : Pool → Bool
has_relay p = p.connected && not (length p.sockets == 0)

abbrev pub refused : Pool → Done
refused p = record { outcome = throws; pool = p; effects = [] }

-- The caller brings the random identifier.
abbrev pub cannot_subscribe : Pool → Bool
cannot_subscribe p = not (has_relay p) || leb subscription_capacity (length p.subscriptions)

abbrev pub subscribed : Text → Filter → Pool → Done
subscribed id f p = record {
  outcome = returns;
  pool = record p { subscriptions = insert id f p.subscriptions };
  effects = map (λ s. asks s id f) p.sockets;
}

unfoldable pub subscribe : Text → Filter → Pool → Done
subscribe id f p = if cannot_subscribe p then refused p else subscribed id f p

abbrev pub unsubscribed : Text → Pool → Done
unsubscribed id p = record {
  outcome = returns;
  pool = record p { subscriptions = delete id p.subscriptions };
  effects = map (λ s. unasks s id) p.sockets;
}

unfoldable pub unsubscribe : Text → Pool → Done
unsubscribe id p = if has id p.subscriptions then unsubscribed id p else quietly p

abbrev pub published_on : (List Effect) → Pool → Done
published_on effects p = record {
  outcome = returns;
  pool = record p { published = p.published + 1 };
  effects = effects;
}

abbrev pub sends_all : RelayEvent → List ℕ → List Effect
sends_all e = map (λ s. sends s e)

unfoldable pub publish : RelayEvent → Pool → Done
publish e p = if has_relay p then published_on (sends_all e p.sockets) p else refused p

abbrev pub asks_all : ℕ → Map Filter → List Effect
asks_all s [] = []
asks_all s ((id, f) ∷ m) = asks s id f ∷ asks_all s m

abbrev pub opened : ℕ → Pool → Done
opened s p = record {
  outcome = returns;
  pool = record p { sockets = p.sockets ++ (s ∷ []) };
  effects = asks_all s p.subscriptions ++ map (λ h. tells_open h s) p.relay_open_handlers;
}

abbrev pub shut : ℕ → Pool → Done
shut s p = record { outcome = returns; pool = p; effects = shuts s ∷ [] }

-- A dialled socket opens; one that opens after the pool has closed is shut.
unfoldable pub on_open : ℕ → Pool → Done
on_open s p = if p.closed then shut s p else opened s p

abbrev pub is_there : ℕ → List ℕ → Bool
is_there s [] = false
is_there s (x ∷ xs) = x == s || is_there s xs

abbrev pub without : ℕ → List ℕ → List ℕ
without s [] = []
without s (x ∷ xs) = let rest = without s xs in if x == s then rest else x ∷ rest

unfoldable pub on_close : ℕ → Pool → Done
on_close s p = quietly (record p { sockets = without s p.sockets })

-- What a handler of `onRelayOpen` may call for its socket.
unfoldable pub publish_to : ℕ → RelayEvent → Pool → Done
publish_to s e p =
    if p.closed || not (is_there s p.sockets) then quietly p else published_on (sends s e ∷ []) p

unfoldable pub close : Pool → Done
close p = record {
  outcome = returns;
  pool = record p {
    closed = true;
    connected = false;
    subscriptions = [];
    reject_handlers = [];
    sockets = [];
    handlers = [];
    relay_open_handlers = [];
    seen = [];
  };
  effects = map shuts p.sockets;
}

abbrev pub connecting : Pool → Done
connecting p = quietly (record p { connected = true })

-- `connect` starts a pool that is not closed.
unfoldable pub begin_connect : Pool → Done
begin_connect p = if p.closed then refused p else connecting p

abbrev pub added : ℕ → List ℕ → List ℕ
added h hs = if is_there h hs then hs else hs ++ (h ∷ [])

unfoldable pub on_event : ℕ → Pool → Done
on_event h p = quietly (record p { handlers = added h p.handlers })

unfoldable pub off_event : ℕ → Pool → Done
off_event h p = quietly (record p { handlers = without h p.handlers })

unfoldable pub on_reject : ℕ → Pool → Done
on_reject h p = quietly (record p { reject_handlers = added h p.reject_handlers })

unfoldable pub on_relay_open : ℕ → Pool → Done
on_relay_open h p = quietly (record p { relay_open_handlers = added h p.relay_open_handlers })

unfoldable pub off_reject : ℕ → Pool → Done
off_reject h p = quietly (record p { reject_handlers = without h p.reject_handlers })

unfoldable pub off_relay_open : ℕ → Pool → Done
off_relay_open h p = quietly (record p { relay_open_handlers = without h p.relay_open_handlers })

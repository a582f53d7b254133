-- ===== src/Relay/Pool/Listeners.antt =====
-- src/relay-session.mjs: the listeners of a socket, the timers of `RelayPool`, `connect` and `close`.
use relayswarm.Base.{
  ℕ, ◌+◌, Bool, false, ◌&&◌, ◌||◌, not, Option, none, some, List, [], ◌∷◌, ◌++◌, Text, map, ◌==◌,
  text_eq, if◌then◌else◌,
}
use relayswarm.Relay.Pool.State.{shuts}
use relayswarm.Relay.Pool.Calls.{has_relay, on_open, on_close, close, connecting, is_there}
use relayswarm.Relay.Pool.Frames.{Nostr}
use relayswarm.Relay.Pool.Runs.{Happening, connects, opens, ends, closes, is_calm, perform}
use relayswarm.Relay.Pool.Dialling.{
  Config, Caller, round, retry, Dial, Retry, Answer, ready, pool_closed, Dialler, with_done,
  connect_one, connect_all, redial, answered, settle,
}

abbrev pub has_url : Text → ℕ → List (ℕ × Text) → Bool
has_url url s [] = false
has_url url s ((n, u) ∷ made) = n == s && text_eq u url || has_url url s made

-- `sockets.some((socket) => socket.url === url)`.
abbrev pub is_open : Text → List (ℕ × Text) → List ℕ → Bool
is_open url made [] = false
is_open url made (s ∷ ss) = has_url url s made || is_open url made ss

-- The promise of `#connectOne` is rejected.
abbrev pub rejected : Config → Text → Caller → Dialler → Dialler
rejected c url (round id) d = settle c id (record d { refusals = (id, url) ∷ d.refusals })
rejected c url (retry attempt) d =
    if d.pool.connected && not (is_open url d.made d.pool.sockets)
    then redial c url (attempt + 1) d
    else d

-- It is resolved.
abbrev pub resolved : Config → Caller → Dialler → Dialler
resolved c (round id) d = settle c id d
resolved c (retry attempt) d = d

abbrev pub with_head : Dial → Option (Dial × List Dial) → Option (Dial × List Dial)
with_head x none = none
with_head x (some (y, ys)) = some (y, x ∷ ys)

-- The entry of a socket, and the other entries.
unfoldable pub take_dial : ℕ → List Dial → Option (Dial × List Dial)
take_dial s [] = none
take_dial s (x ∷ xs) =
    let rest = take_dial s xs in if x.socket == s then some (x, xs) else with_head x rest

-- `readyWaiters`: with both options the first open socket is enough.
abbrev pub waiters_ready : Config → Dialler → Dialler
waiters_ready c d =
    if c.reconnect || c.ready_on_first_relay then answered d.connecting ready d else d

abbrev pub dial_opened : Config → ℕ → Dial → List Dial → Dialler → Dialler
dial_opened c s x rest d =
    resolved c x.caller (waiters_ready c (with_done (on_open s d.pool) (record d { dials = rest })))

abbrev pub shut_late : ℕ → Dialler → Dialler
shut_late s d = record d { effects = d.effects ++ (shuts s ∷ []) }

abbrev pub opens_dial : Config → ℕ → Option (Dial × List Dial) → Dialler → Dialler
opens_dial c s none d = shut_late s d
opens_dial c s (some (x, rest)) d =
    if d.pool.closed then shut_late s d else dial_opened c s x rest d

-- The listener of "open".
unfoldable pub dial_opens : Config → ℕ → Dialler → Dialler
dial_opens c s d = opens_dial c s (take_dial s d.dials) d

abbrev pub fails_dial : Config → ℕ → Option (Dial × List Dial) → Dialler → Dialler
fails_dial c s none d = d
fails_dial c s (some (x, rest)) d =
    rejected c x.url x.caller (shut_late s (record d { dials = rest }))

-- `finish` with an error: the listener of "error", and the timer.
unfoldable pub dial_fails : Config → ℕ → Dialler → Dialler
dial_fails c s d = fails_dial c s (take_dial s d.dials) d

abbrev pub url_of : ℕ → List (ℕ × Text) → Option Text
url_of s [] = none
url_of s ((n, url) ∷ made) = if n == s then some url else url_of s made

abbrev pub redial_lost : Config → Option Text → Dialler → Dialler
redial_lost c none d = d
redial_lost c (some url) d = redial c url 1 d

-- The listener of "close".
unfoldable pub socket_ends : Config → ℕ → Dialler → Dialler
socket_ends c s d =
    let lost = dial_fails c s (with_done (on_close s d.pool) d) in
    if c.reconnect && d.pool.connected && is_there s d.pool.sockets
    then redial_lost c (url_of s d.made) lost
    else lost

abbrev pub with_next : Retry → Option (Retry × List Retry) → Option (Retry × List Retry)
with_next x none = none
with_next x (some (y, ys)) = some (y, x ∷ ys)

unfoldable pub take_retry : ℕ → List Retry → Option (Retry × List Retry)
take_retry t [] = none
take_retry t (x ∷ xs) =
    let rest = take_retry t xs in if x.timer == t then some (x, xs) else with_next x rest

abbrev pub fires_retry : Option (Retry × List Retry) → Dialler → Dialler
fires_retry none d = d
fires_retry (some (r, rest)) d =
    if not d.pool.connected
    then record d { retries = rest }
    else connect_one r.url (retry r.attempt) (record d { retries = rest })

-- The timer of a retry.
unfoldable pub retry_fires : ℕ → Dialler → Dialler
retry_fires t d = fires_retry (take_retry t d.retries) d

abbrev pub calling : Dialler → Dialler
calling d = record d {
  pool = (connecting d.pool).pool;
  connecting = some d.next_round;
  next_round = d.next_round + 1;
}

abbrev pub dials_all : Config → Dialler → Dialler
dials_all c d = connect_all (c.first_url ∷ c.other_urls) (round d.next_round) (calling d)

-- A call that comes while another one is pending has its promise.
abbrev pub connects_anew : Config → Option ℕ → Dialler → Dialler
connects_anew c (some id) d = d
connects_anew c none d = dials_all c d

-- A call that is answered at once.
abbrev pub immediate : Dialler → Option Answer
immediate d =
    if d.pool.closed then some pool_closed else if has_relay d.pool then some ready else none

abbrev pub connects_after : Config → Option Answer → Dialler → Dialler
connects_after c (some a) d = d
connects_after c none d = connects_anew c d.connecting d

unfoldable pub connect : Config → Dialler → Dialler × Option Answer
connect c d = let a = immediate d in (connects_after c a d, a)

-- `close`: all that is pending is cancelled.
abbrev pub cancelled : Dialler → Dialler
cancelled d = record d {
  pool = (close d.pool).pool;
  dials = [];
  retries = [];
  effects = d.effects ++ (map (λ x. shuts x.socket) d.dials ++ (close d.pool).effects);
}

unfoldable pub close_all : Dialler → Dialler
close_all d = answered d.connecting pool_closed (cancelled d)

-- A happening by which sockets come or go.
abbrev pub dials_by : Config → Happening → Dialler → Dialler
dials_by c connects d = (connect c d).0
dials_by c (opens s) d = dial_opens c s d
dials_by c (ends s) d = socket_ends c s d
dials_by c closes d = close_all d
dials_by c _ d = d

-- A call of the pool or what a socket reports; a dial that fails or times out; the timer of a retry.
pub data DialEvent : Type 0 where
  acts : Happening → DialEvent
  fails : ℕ → DialEvent
  fires : ℕ → DialEvent

unfoldable pub dial_step : Config → Nostr → DialEvent → Dialler → Dialler
dial_step c n (acts a) d = if is_calm a then with_done (perform n a d.pool) d else dials_by c a d
dial_step c n (fails s) d = dial_fails c s d
dial_step c n (fires t) d = retry_fires t d

unfoldable pub dial_run : Config → Nostr → List DialEvent → Dialler → Dialler
dial_run c n [] d = d
dial_run c n (e ∷ es) d = dial_run c n es (dial_step c n e d)

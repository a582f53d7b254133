-- ===== src/Relay/Pool/Dialling.antt =====
-- src/relay-session.mjs: how a `RelayPool` dials its relays: `#connectOne`, `#redial`, and the promise of
-- `connect`. A socket, a timer and a call of `connect` have a number. What a
-- promise's reaction does is done with the event that settles the promise.
use relayswarm.Base.{
  ℕ, ◌+◌, ◌*◌, ◌^◌, Bool, false, Option, none, some, List, [], ◌∷◌, ◌++◌, Text, length, min, ◌==◌,
  if◌then◌else◌,
}
use relayswarm.Relay.Pool.State.{Pool, Effect, Done, new_pool}

-- The options of the constructor, and its relays: between one and eight.
pub record Config : Type 0 where
  pub first_url : Text
  pub other_urls : List Text
  pub reconnect : Bool
  pub ready_on_first_relay : Bool
  pub reconnect_max_ms : ℕ

-- Who dials: a call of `connect`, or a retry with its number.
pub data Caller : Type 0 where
  round : ℕ → Caller
  retry : ℕ → Caller

-- An entry of `pendingSockets`, with what its closure knows.
pub record Dial : Type 0 where
  pub socket : ℕ
  pub url : Text
  pub caller : Caller

-- A retry's timer; its delay is between the half and the whole of `longest`.
pub record Retry : Type 0 where
  pub timer : ℕ
  pub url : Text
  pub attempt : ℕ
  pub longest : ℕ

-- What a call of `connect` ends with.
pub data Answer : Type 0 where
  ready : Answer
  pool_closed : Answer
  unreachable : Answer

-- `connecting` is the call whose promise is pending, `answers` what the promises were settled with.
-- `refusals` are the urls that failed for a call, and `made` the url that each socket was made with.
pub record Dialler : Type 0 where
  pub pool : Pool
  pub dials : List Dial
  pub retries : List Retry
  pub refusals : List (ℕ × Text)
  pub made : List (ℕ × Text)
  pub connecting : Option ℕ
  pub answers : List (ℕ × Answer)
  pub next_socket : ℕ
  pub next_timer : ℕ
  pub next_round : ℕ
  pub effects : List Effect

abbrev pub new_dialler : Dialler
new_dialler = record {
  pool = new_pool;
  dials = [];
  retries = [];
  refusals = [];
  made = [];
  connecting = none;
  answers = [];
  next_socket = 0;
  next_timer = 0;
  next_round = 0;
  effects = [];
}

abbrev pub with_done : Done → Dialler → Dialler
with_done r d = record d { pool = r.pool; effects = d.effects ++ r.effects }

-- `#connectOne`.
abbrev pub connect_one : Text → Caller → Dialler → Dialler
connect_one url caller d = record d {
  dials = d.dials ++ (record { socket = d.next_socket; url = url; caller = caller } ∷ []);
  made = d.made ++ ((d.next_socket, url) ∷ []);
  next_socket = d.next_socket + 1;
}

unfoldable pub connect_all : List Text → Caller → Dialler → Dialler
connect_all [] caller d = d
connect_all (url ∷ urls) caller d = connect_all urls caller (connect_one url caller d)

abbrev pub longest_delay : Config → ℕ → ℕ
longest_delay c attempt = min c.reconnect_max_ms (1000 * 2 ^ min attempt 5)

abbrev pub new_retry : Config → Text → ℕ → Dialler → Retry
new_retry c url attempt d = record {
  timer = d.next_timer;
  url = url;
  attempt = attempt;
  longest = longest_delay c attempt;
}

abbrev pub with_retry : Config → Text → ℕ → Dialler → Dialler
with_retry c url attempt d = record d {
  retries = d.retries ++ (new_retry c url attempt d ∷ []);
  next_timer = d.next_timer + 1;
}

unfoldable pub redial : Config → Text → ℕ → Dialler → Dialler
redial c url attempt d = if d.pool.closed then d else with_retry c url attempt d

-- The promise of this call, if it is pending, is settled.
abbrev pub answered : Option ℕ → Answer → Dialler → Dialler
answered none a d = d
answered (some id) a d = record d { connecting = none; answers = d.answers ++ ((id, a) ∷ []) }

abbrev pub is_round : ℕ → Caller → Bool
is_round id (round n) = n == id
is_round id (retry k) = false

unfoldable pub dials_of : ℕ → List Dial → ℕ
dials_of id [] = 0
dials_of id (x ∷ xs) = if is_round id x.caller then dials_of id xs + 1 else dials_of id xs

-- The urls that failed for a call, in any order: the delay of a retry is random.
unfoldable pub redial_all : Config → ℕ → List (ℕ × Text) → Dialler → Dialler
redial_all c id [] d = d
redial_all c id ((n, url) ∷ xs) d = redial_all c id xs (if n == id then redial c url 1 d else d)

abbrev pub same_round : Option ℕ → ℕ → Option ℕ
same_round none id = none
same_round (some n) id = if n == id then some n else none

abbrev pub outcome : Config → Dialler → Answer
outcome c d = if length d.pool.sockets == 0 then unreachable else ready

-- All that a call of `connect` has dialled is settled; with `readyOnFirstRelay` and an open socket its
-- promise is settled already.
abbrev pub round_settled : Config → ℕ → Dialler → Dialler
round_settled c id d =
    if c.reconnect
    then redial_all c id d.refusals d
    else answered (same_round d.connecting id) (outcome c d) d

unfoldable pub settle : Config → ℕ → Dialler → Dialler
settle c id d = if dials_of id d.dials == 0 then round_settled c id d else d

-- ===== src/Relay/Pool/State.antt =====
-- src/relay-session.mjs: the state of `RelayPool` and its operations.
use relayswarm.Base.{
  ℕ, ◌+◌, Bool, false, ◌&&◌, ◌||◌, not, Option, none, some, List, [], ◌∷◌, ◌++◌, Text, Map, map,
  length, drop, ltb, text_eq, lookup, if◌then◌else◌,
}
use relayswarm.Relay.Events.{Value, string, another, RelayEvent, saturating}
use relayswarm.Relay.Pool.Frames.{
  Filter, Item, text, Nostr, Reading, refusal, delivery, ignored, read_frame, is_too_old, is_match,
  is_timestamp_refusal, max_relay_frame_bytes,
}

pub record Pool : Type 0 where
  pub sockets : List ℕ
  pub handlers : List ℕ
  pub reject_handlers : List ℕ
  pub relay_open_handlers : List ℕ
  pub seen : List Text
  pub subscriptions : Map Filter
  pub connected : Bool
  pub closed : Bool
  pub published : ℕ
  pub rejected : ℕ
  pub rejected_timestamp : ℕ
  pub since_dropped : ℕ

-- A frame sent to a socket, a socket closed, an event given to the handlers in their order, or
-- another handler called.
pub data Effect : Type 0 where
  asks : ℕ → Text → Filter → Effect
  unasks : ℕ → Text → Effect
  sends : ℕ → RelayEvent → Effect
  shuts : ℕ → Effect
  hands : List ℕ → RelayEvent → Effect
  tells_refusal : ℕ → Item → Text → Effect
  tells_open : ℕ → ℕ → Effect

pub data Outcome : Type 0 where
  returns : Outcome
  throws : Outcome

pub record Done : Type 0 where
  pub outcome : Outcome
  pub pool : Pool
  pub effects : List Effect

-- The constructor.
abbrev pub new_pool : Pool
new_pool = record {
  sockets = [];
  handlers = [];
  reject_handlers = [];
  relay_open_handlers = [];
  seen = [];
  subscriptions = [];
  connected = false;
  closed = false;
  published = 0;
  rejected = 0;
  rejected_timestamp = 0;
  since_dropped = 0;
}

abbrev pub quietly : Pool → Done
quietly p = record { outcome = returns; pool = p; effects = [] }

abbrev pub seen_capacity : ℕ
seen_capacity = 10000

abbrev pub subscription_capacity : ℕ
subscription_capacity = 32

unfoldable pub is_seen : Text → List Text → Bool
is_seen id [] = false
is_seen id (x ∷ xs) = text_eq x id || is_seen id xs

-- A Set keeps the order of insertion, so its first value is the oldest.
unfoldable pub remember : Text → List Text → List Text
remember id seen =
    let grown = seen ++ (id ∷ []) in
    if ltb seen_capacity (length grown) then drop 1 grown else grown

unfoldable pub on_refusal : Item → Text → Pool → Done
on_refusal id message p = record {
  outcome = returns;
  pool = record p {
    rejected = p.rejected + 1;
    rejected_timestamp =
        if is_timestamp_refusal message
        then saturating (p.rejected_timestamp + 1)
        else p.rejected_timestamp;
  };
  effects = map (λ h. tells_refusal h id message) p.reject_handlers;
}

abbrev pub filter_of : Item → Map Filter → Option Filter
filter_of (text id) m = lookup id m
filter_of _ m = none

abbrev pub drop_counted : Nostr → Filter → RelayEvent → Pool → Pool
drop_counted n f e p = record p {
  since_dropped = if is_too_old n f e then saturating (p.since_dropped + 1) else p.since_dropped;
}

abbrev pub dispatch : Text → RelayEvent → Pool → Done
dispatch id e p = record {
  outcome = returns;
  pool = record p { seen = remember id p.seen };
  effects = hands p.handlers e ∷ [];
}

-- The tests that come before the handlers, after those of the filter's age.
unfoldable pub deliver_matching : Nostr → Filter → Value → RelayEvent → Pool → Done
unfolding is_seen
deliver_matching n f (another t) e p = quietly p
deliver_matching n f (string id) e p =
    if is_match (n.matches f e) && not (is_seen id p.seen) && is_match (n.verifies e)
    then dispatch id e p
    else quietly p

abbrev pub on_delivery : Nostr → Option Filter → RelayEvent → Pool → Done
on_delivery n none e p = quietly p
on_delivery n (some f) e p = deliver_matching n f e.id e (drop_counted n f e p)

abbrev pub on_reading : Nostr → Reading → Pool → Done
on_reading n (refusal id message) p = on_refusal id message p
on_reading n (delivery sub e) p = on_delivery n (filter_of sub p.subscriptions) e p
on_reading n ignored p = quietly p

abbrev pub on_frame : Nostr → Option (List Item) → Pool → Done
on_frame n none p = quietly p
on_frame n (some frame) p = on_reading n (read_frame frame) p

unfoldable pub on_message : Nostr → Text → Pool → Done
on_message n t p =
    if p.closed || ltb max_relay_frame_bytes (n.utf8_length t)
    then quietly p
    else on_frame n (n.parse_frame t) p

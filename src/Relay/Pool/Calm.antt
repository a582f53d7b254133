-- ===== src/Relay/Pool/Calm.antt =====
-- What leaves the sockets of a pool as they are (src/relay-session.mjs).
use relayswarm.Base.{
  if_keeps, ◌≡◌, refl, true, ◌||◌, ◌&&◌, not, Option, none, some, List, [], ◌∷◌, Text, has, ltb,
}
use relayswarm.Relay.Events.{Value, string, another, RelayEvent}
use relayswarm.Relay.Pool.Frames.{
  Filter, Item, Nostr, Reading, refusal, delivery, ignored, read_frame, max_relay_frame_bytes,
  is_match,
}
use relayswarm.Relay.Pool.State.{
  Pool, quietly, sends, on_message, on_frame, on_reading, on_delivery, filter_of, on_refusal,
  deliver_matching, Done, drop_counted, dispatch, is_seen,
}
use relayswarm.Relay.Pool.Calls.{
  refused, cannot_subscribe, subscribed, unsubscribed, published_on, sends_all, has_relay, is_there,
  subscribe, unsubscribe, publish, publish_to, on_event, off_event, on_reject, off_reject,
  on_relay_open, off_relay_open,
}
use relayswarm.Relay.Pool.Runs.{
  Happening, connects, opens, ends, receives, subscribes, unsubscribes, publishes, publishes_to,
  listens, unlistens, watches_refusals, unwatches_refusals, watches_opening, unwatches_opening,
  closes, perform, is_calm,
}

-- The sockets are the same, and whether the pool is connected or closed.
abbrev pub Calm : Pool → Pool → Type 0
Calm p q = (q.closed ≡ p.closed) × (q.connected ≡ p.connected) × (q.sockets ≡ p.sockets)

-- What a message leaves as it is.
abbrev Read : Pool → Done → Type 0
Read p d = Calm p d.pool × (d.pool.subscriptions ≡ p.subscriptions)

deliver_matching-Read :
    (n : Nostr) (f : Filter) (v : Value) (e : RelayEvent) (p : Pool)
    → Read p (deliver_matching n f v e p)
unfolding deliver_matching
deliver_matching-Read n f (another t) e p = ((refl, refl, refl), refl)
deliver_matching-Read n f (string id) e p =
    if_keeps (Read p)
      (is_match (n.matches f e) && not (is_seen id p.seen) && is_match (n.verifies e))
      (dispatch id e p) (quietly p) ((refl, refl, refl), refl) ((refl, refl, refl), refl)

on_reading-Read : (n : Nostr) (r : Reading) (p : Pool) → Read p (on_reading n r p)
unfolding on_refusal
on_reading-Read n (refusal i t) p = ((refl, refl, refl), refl)
on_reading-Read n (delivery sub e) p = go (filter_of sub p.subscriptions)
  where
    go : (o : Option Filter) → Read p (on_delivery n o e p)
    go none = ((refl, refl, refl), refl)
    go (some f) = deliver_matching-Read n f e.id e (drop_counted n f e p)
on_reading-Read n ignored p = ((refl, refl, refl), refl)

pub on_message-Read : (n : Nostr) (t : Text) (p : Pool) → Read p (on_message n t p)
unfolding on_message
on_message-Read n t p =
    if_keeps (Read p) (p.closed || ltb max_relay_frame_bytes (n.utf8_length t)) (quietly p)
      (on_frame n (n.parse_frame t) p) ((refl, refl, refl), refl) (go (n.parse_frame t))
  where
    go : (o : Option (List Item)) → Read p (on_frame n o p)
    go none = ((refl, refl, refl), refl)
    go (some frame) = on_reading-Read n (read_frame frame) p

-- A call or a message, but for those by which sockets come and go.
pub perform-Calm :
    (n : Nostr) (a : Happening) (p : Pool) → is_calm a ≡ true → Calm p (perform n a p).pool
unfolding subscribe unsubscribe publish publish_to on_event off_event on_reject off_reject
    on_relay_open off_relay_open
perform-Calm n connects p c = absurd (cc c)
perform-Calm n (opens s) p c = absurd (cc c)
perform-Calm n (ends s) p c = absurd (cc c)
perform-Calm n (receives t) p c = (on_message-Read n t p).0
perform-Calm n (subscribes id f) p c =
    if_keeps (λ d. Calm p d.pool) (cannot_subscribe p) (refused p) (subscribed id f p)
      (refl, refl, refl) (refl, refl, refl)
perform-Calm n (unsubscribes id) p c =
    if_keeps (λ d. Calm p d.pool) (has id p.subscriptions) (unsubscribed id p) (quietly p)
      (refl, refl, refl) (refl, refl, refl)
perform-Calm n (publishes e) p c =
    if_keeps (λ d. Calm p d.pool) (has_relay p) (published_on (sends_all e p.sockets) p) (refused p)
      (refl, refl, refl) (refl, refl, refl)
perform-Calm n (publishes_to s e) p c =
    if_keeps (λ d. Calm p d.pool) (p.closed || not (is_there s p.sockets)) (quietly p)
      (published_on (sends s e ∷ []) p) (refl, refl, refl) (refl, refl, refl)
perform-Calm n (listens h) p c = (refl, refl, refl)
perform-Calm n (unlistens h) p c = (refl, refl, refl)
perform-Calm n (watches_refusals h) p c = (refl, refl, refl)
perform-Calm n (unwatches_refusals h) p c = (refl, refl, refl)
perform-Calm n (watches_opening h) p c = (refl, refl, refl)
perform-Calm n (unwatches_opening h) p c = (refl, refl, refl)
perform-Calm n closes p c = absurd (cc c)

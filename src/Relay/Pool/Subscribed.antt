-- ===== src/Relay/Pool/Subscribed.antt =====
-- How a step changes the filters in force (src/relay-session.mjs).
use relayswarm.Base.{
  if_cases, ◌≡◌, refl, ◌<◌, ◌||◌, not, [], ◌∷◌, Text, length, insert, delete, has, arith,
}
use relayswarm.Relay.Pool.Frames.{Filter, Nostr}
use relayswarm.Relay.Pool.State.{Pool, quietly, sends, subscription_capacity}
use relayswarm.Relay.Pool.Calls.{
  refused, connecting, shut, opened, cannot_subscribe, subscribed, unsubscribed, published_on,
  sends_all, has_relay, is_there, subscribe, unsubscribe, publish, on_open, on_close, publish_to,
  close, begin_connect, on_event, off_event, on_reject, off_reject, on_relay_open, off_relay_open,
}
use relayswarm.Relay.Pool.Runs.{
  Happening, connects, opens, ends, receives, subscribes, unsubscribes, publishes, publishes_to,
  listens, unlistens, watches_refusals, unwatches_refusals, watches_opening, unwatches_opening,
  closes, perform,
}
use relayswarm.Relay.Pool.Calm.{on_message-Read}

pub data Subscribing (a : Happening) (p q : Pool) : Type 0 where
  kept : q.subscriptions ≡ p.subscriptions → Subscribing a p q
  inserted :
      (id : Text) (f : Filter)
      → length p.subscriptions < subscription_capacity
      → a ≡ subscribes id f
      → q.subscriptions ≡ insert id f p.subscriptions
      → Subscribing a p q
  deleted : (id : Text) → q.subscriptions ≡ delete id p.subscriptions → Subscribing a p q
  cleared : q.subscriptions ≡ [] → Subscribing a p q

pub perform-Subscribing :
    (n : Nostr) (a : Happening) (p : Pool) → Subscribing a p (perform n a p).pool
unfolding subscribe unsubscribe publish publish_to on_open on_close close begin_connect on_event
    off_event on_reject off_reject on_relay_open off_relay_open
perform-Subscribing n connects p =
    if_cases (λ d. Subscribing connects p d.pool) p.closed (refused p) (connecting p)
      (λ h. kept refl) (λ h. kept refl)
perform-Subscribing n (opens s) p =
    if_cases (λ d. Subscribing (opens s) p d.pool) p.closed (shut s p) (opened s p) (λ h. kept refl)
      (λ h. kept refl)
perform-Subscribing n (ends s) p = kept refl
perform-Subscribing n (receives t) p = kept (on_message-Read n t p).1
perform-Subscribing n (subscribes id f) p =
    if_cases (λ d. Subscribing (subscribes id f) p d.pool) (cannot_subscribe p) (refused p)
      (subscribed id f p) (λ h. kept refl) (λ h. inserted id f (ground (arith, h)) refl refl)
perform-Subscribing n (unsubscribes id) p =
    if_cases (λ d. Subscribing (unsubscribes id) p d.pool) (has id p.subscriptions)
      (unsubscribed id p) (quietly p) (λ h. deleted id refl) (λ h. kept refl)
perform-Subscribing n (publishes e) p =
    if_cases (λ d. Subscribing (publishes e) p d.pool) (has_relay p)
      (published_on (sends_all e p.sockets) p) (refused p) (λ h. kept refl) (λ h. kept refl)
perform-Subscribing n (publishes_to s e) p =
    if_cases (λ d. Subscribing (publishes_to s e) p d.pool) (p.closed || not (is_there s p.sockets))
      (quietly p) (published_on (sends s e ∷ []) p) (λ h. kept refl) (λ h. kept refl)
perform-Subscribing n (listens h) p = kept refl
perform-Subscribing n (unlistens h) p = kept refl
perform-Subscribing n (watches_refusals h) p = kept refl
perform-Subscribing n (unwatches_refusals h) p = kept refl
perform-Subscribing n (watches_opening h) p = kept refl
perform-Subscribing n (unwatches_opening h) p = kept refl
perform-Subscribing n closes p = cleared refl

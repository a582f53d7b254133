-- ===== src/Relay/Pool/Steps.antt =====
-- src/relay-session.mjs: what one step of a `RelayPool` hands to its handlers.
use relayswarm.Base.{
  if_keeps, ℕ, ◌≡◌, refl, ap, ap₂, ◌∙◌, ◌⊎◌, inl, inr, Bool, true, false, ◌&&◌, ◌||◌, not, Option,
  none, some, List, [], ◌∷◌, ◌++◌, Text, Map, map, lookup, has, ltb, if◌then◌else◌,
}
use relayswarm.Relay.Events.{Value, string, another, RelayEvent}
use relayswarm.Relay.Pool.Frames.{
  Filter, Item, text, no, event, other, Nostr, Reading, refusal, delivery, ignored, read_frame,
  is_match, max_relay_frame_bytes,
}
use relayswarm.Relay.Pool.State.{
  Pool, Effect, asks, unasks, sends, shuts, hands, tells_refusal, tells_open, Done, quietly,
  drop_counted, deliver_matching, on_delivery, on_reading, on_frame, on_message, on_refusal,
  is_seen, remember, dispatch,
}
use relayswarm.Relay.Pool.Calls.{
  refused, cannot_subscribe, subscribed, unsubscribed, sends_all, published_on, opened, shut,
  connecting, has_relay, is_there, asks_all, subscribe, unsubscribe, publish, on_open, on_close,
  publish_to, close, begin_connect, on_event, off_event, on_reject, off_reject, on_relay_open,
  off_relay_open,
}
use relayswarm.Relay.Pool.Runs.{
  Happening, connects, opens, ends, receives, subscribes, unsubscribes, publishes, publishes_to,
  listens, unlistens, watches_refusals, unwatches_refusals, watches_opening, unwatches_opening,
  closes, perform,
}

-- The events given to the handlers, in order.
abbrev pub dispatched : List Effect → List RelayEvent
dispatched [] = []
dispatched (hands hs e ∷ es) = e ∷ dispatched es
dispatched (effect ∷ es) = dispatched es

pub dispatched-append :
    (xs ys : List Effect) → dispatched (xs ++ ys) ≡ dispatched xs ++ dispatched ys
dispatched-append [] ys = refl
dispatched-append (hands hs e ∷ xs) ys = ap (◌∷◌ e) (dispatched-append xs ys)
dispatched-append (asks s id f ∷ xs) ys = dispatched-append xs ys
dispatched-append (unasks s id ∷ xs) ys = dispatched-append xs ys
dispatched-append (sends s e ∷ xs) ys = dispatched-append xs ys
dispatched-append (shuts s ∷ xs) ys = dispatched-append xs ys
dispatched-append (tells_refusal h i t ∷ xs) ys = dispatched-append xs ys
dispatched-append (tells_open h s ∷ xs) ys = dispatched-append xs ys

-- The pool has closed and forgotten what it has seen, or has kept it.
abbrev pub Keeps : Pool → Pool → Type 0
Keeps p q = ((q.closed ≡ true) × (q.seen ≡ [])) ⊎ ((q.closed ≡ p.closed) × (q.seen ≡ p.seen))

-- A step hands out nothing, or one event: new, verified, and matched by a filter in force.
pub data Stepped (n : Nostr) (p : Pool) (d : Done) : Type 0 where
  quiet : dispatched d.effects ≡ [] → Keeps p d.pool → Stepped n p d
  delivers :
      (e : RelayEvent) (id sub : Text) (f : Filter)
      → (dispatched d.effects ≡ e ∷ []) × (e.id ≡ string id)
      → (lookup sub p.subscriptions ≡ some f) × (n.matches f e ≡ some true)
      → (is_seen id p.seen ≡ false) × (n.verifies e ≡ some true)
      → (p.closed ≡ false) × (d.pool.closed ≡ false) × (d.pool.seen ≡ remember id p.seen)
      → Stepped n p d

abbrev same : (p : Pool) → Keeps p p
same p = inr (refl, refl)

quietly-Stepped : (n : Nostr) (p q : Pool) → Keeps p q → Stepped n p (quietly q)
quietly-Stepped n p q k = quiet refl k

-- Effects of which none hands out an event.
silent :
    (f : ℕ → Effect)
    → ((h : ℕ) → dispatched (f h ∷ []) ≡ [])
    → (hs : List ℕ) → dispatched (map f hs) ≡ []
silent f e [] = refl
silent f e (h ∷ hs) =
    dispatched-append (f h ∷ []) (map f hs) ∙ ap₂ (λ xs ys. xs ++ ys) (e h) (silent f e hs)

asks_all-silent : (s : ℕ) (m : Map Filter) → dispatched (asks_all s m) ≡ []
asks_all-silent s [] = refl
asks_all-silent s ((id, f) ∷ m) = asks_all-silent s m

opened-silent : (s : ℕ) (p : Pool) → dispatched ((opened s p).effects) ≡ []
opened-silent s p =
    dispatched-append (asks_all s p.subscriptions) (map (λ h. tells_open h s) p.relay_open_handlers)
    ∙ ap₂ (λ xs ys. xs ++ ys) (asks_all-silent s p.subscriptions)
        (silent (λ h. tells_open h s) (λ h. refl) p.relay_open_handlers)

deliver_matching-Stepped :
    (n : Nostr) (sub : Text) (f : Filter) (e : RelayEvent) (p : Pool) (v : Value)
    → lookup sub p.subscriptions ≡ some f
    → p.closed ≡ false
    → e.id ≡ v
    → Stepped n p (deliver_matching n f v e (drop_counted n f e p))
unfolding deliver_matching
deliver_matching-Stepped n sub f e p (another t) found live i = quietly-Stepped n p _ (same p)
deliver_matching-Stepped n sub f e p (string id) found live i =
    go (n.matches f e) refl (is_seen id p.seen) refl (n.verifies e) refl
  where
    q : Pool
    q = drop_counted n f e p

    go :
        (m : Option Bool)
        → n.matches f e ≡ m
        → (s : Bool) → is_seen id p.seen ≡ s
        → (v : Option Bool) → n.verifies e ≡ v
        → Stepped n p (if is_match m && not s && is_match v then dispatch id e q else quietly q)
    go none em s es v ev = quietly-Stepped n p q (same p)
    go (some false) em s es v ev = quietly-Stepped n p q (same p)
    go (some true) em true es v ev = quietly-Stepped n p q (same p)
    go (some true) em false es none ev = quietly-Stepped n p q (same p)
    go (some true) em false es (some false) ev = quietly-Stepped n p q (same p)
    go (some true) em false es (some true) ev =
        delivers e id sub f (refl, i) (found, em) (es, ev) (live, live, refl)

on_delivery-Stepped :
    (n : Nostr) (sub : Text) (e : RelayEvent) (p : Pool) (o : Option Filter)
    → lookup sub p.subscriptions ≡ o
    → p.closed ≡ false
    → Stepped n p (on_delivery n o e p)
on_delivery-Stepped n sub e p none found live = quietly-Stepped n p p (same p)
on_delivery-Stepped n sub e p (some f) found live =
    deliver_matching-Stepped n sub f e p e.id found live refl

on_reading-Stepped :
    (n : Nostr) (r : Reading) (p : Pool) → p.closed ≡ false → Stepped n p (on_reading n r p)
unfolding on_refusal
on_reading-Stepped n (refusal i t) p live =
    quiet (silent (λ h. tells_refusal h i t) (λ h. refl) p.reject_handlers) (same p)
on_reading-Stepped n (delivery (text sub) e) p live =
    on_delivery-Stepped n sub e p (lookup sub p.subscriptions) refl live
on_reading-Stepped n (delivery no e) p live = quietly-Stepped n p p (same p)
on_reading-Stepped n (delivery (event d) e) p live = quietly-Stepped n p p (same p)
on_reading-Stepped n (delivery (other t) e) p live = quietly-Stepped n p p (same p)
on_reading-Stepped n ignored p live = quietly-Stepped n p p (same p)

on_frame-Stepped :
    (n : Nostr) (o : Option (List Item)) (p : Pool)
    → p.closed ≡ false
    → Stepped n p (on_frame n o p)
on_frame-Stepped n none p live = quietly-Stepped n p p (same p)
on_frame-Stepped n (some frame) p live = on_reading-Stepped n (read_frame frame) p live

on_message-Stepped : (n : Nostr) (t : Text) (p : Pool) → Stepped n p (on_message n t p)
unfolding on_message
on_message-Stepped n t p = go p.closed refl (ltb max_relay_frame_bytes (n.utf8_length t))
  where
    go :
        (c : Bool)
        → p.closed ≡ c
        → (b : Bool) → Stepped n p (if c || b then quietly p else on_frame n (n.parse_frame t) p)
    go true e b = quietly-Stepped n p p (same p)
    go false e true = quietly-Stepped n p p (same p)
    go false e false = on_frame-Stepped n (n.parse_frame t) p e

-- A step of two branches.
refused-Stepped : (n : Nostr) (p : Pool) → Stepped n p (refused p)
refused-Stepped n p = quiet refl (same p)

pub perform-Stepped : (n : Nostr) (a : Happening) (p : Pool) → Stepped n p (perform n a p)
unfolding subscribe unsubscribe publish publish_to on_open on_close close begin_connect on_event
    off_event on_reject off_reject on_relay_open off_relay_open
perform-Stepped n connects p =
    if_keeps (Stepped n p) p.closed (refused p) (connecting p) (refused-Stepped n p)
      (quietly-Stepped n p _ (same p))
perform-Stepped n (opens s) p =
    if_keeps (Stepped n p) p.closed (shut s p) (opened s p) (quiet refl (same p))
      (quiet (opened-silent s p) (same p))
perform-Stepped n (ends s) p = quietly-Stepped n p _ (same p)
perform-Stepped n (receives t) p = on_message-Stepped n t p
perform-Stepped n (subscribes id f) p =
    if_keeps (Stepped n p) (cannot_subscribe p) (refused p) (subscribed id f p)
      (refused-Stepped n p) (quiet (silent (λ s. asks s id f) (λ h. refl) p.sockets) (same p))
perform-Stepped n (unsubscribes id) p =
    if_keeps (Stepped n p) (has id p.subscriptions) (unsubscribed id p) (quietly p)
      (quiet (silent (λ s. unasks s id) (λ h. refl) p.sockets) (same p))
      (quietly-Stepped n p p (same p))
perform-Stepped n (publishes e) p =
    if_keeps (Stepped n p) (has_relay p) (published_on (sends_all e p.sockets) p) (refused p)
      (quiet (silent (λ s. sends s e) (λ h. refl) p.sockets) (same p)) (refused-Stepped n p)
perform-Stepped n (publishes_to s e) p =
    if_keeps (Stepped n p) (p.closed || not (is_there s p.sockets)) (quietly p)
      (published_on (sends s e ∷ []) p) (quietly-Stepped n p p (same p)) (quiet refl (same p))
perform-Stepped n (listens h) p = quietly-Stepped n p _ (same p)
perform-Stepped n (unlistens h) p = quietly-Stepped n p _ (same p)
perform-Stepped n (watches_refusals h) p = quietly-Stepped n p _ (same p)
perform-Stepped n (unwatches_refusals h) p = quietly-Stepped n p _ (same p)
perform-Stepped n (watches_opening h) p = quietly-Stepped n p _ (same p)
perform-Stepped n (unwatches_opening h) p = quietly-Stepped n p _ (same p)
perform-Stepped n closes p = quiet (silent shuts (λ h. refl) p.sockets) (inl (refl, refl))

-- ===== src/Relay/Pool/Closed.antt =====
-- The silence of a `RelayPool` that has closed (src/relay-session.mjs).
use relayswarm.Base.{ℕ, ◌≡◌, refl, true, false, List, [], ◌∷◌, ◌++◌, has}
use relayswarm.Relay.Pool.Frames.{Nostr}
use relayswarm.Relay.Pool.State.{Pool, Effect, shuts, on_message}
use relayswarm.Relay.Pool.Calls.{
  subscribe, unsubscribe, publish, on_open, on_close, publish_to, close, begin_connect, on_event,
  off_event, on_reject, off_reject, on_relay_open, off_relay_open,
}
use relayswarm.Relay.Pool.Runs.{
  Happening, connects, opens, ends, receives, subscribes, unsubscribes, publishes, publishes_to,
  listens, unlistens, watches_refusals, unwatches_refusals, watches_opening, unwatches_opening,
  closes, perform, Log, logged, run, All, anything, run-keeps,
}

data IsClosed : Pool → Type 0 where
  is_closed :
      (hs rs os : List ℕ) (published rejected timestamps dropped : ℕ)
      → IsClosed (record {
        sockets = [];
        handlers = hs;
        reject_handlers = rs;
        relay_open_handlers = os;
        seen = [];
        subscriptions = [];
        connected = false;
        closed = true;
        published = published;
        rejected = rejected;
        rejected_timestamp = timestamps;
        since_dropped = dropped;
      })

abbrev pub IsShutting : Effect → Type 0
IsShutting e = (s : ℕ) × (e ≡ shuts s)

close-IsClosed : (p : Pool) → IsClosed (close p).pool
unfolding close
close-IsClosed p = is_closed [] [] [] p.published p.rejected p.rejected_timestamp p.since_dropped

perform-IsClosed :
    (n : Nostr) (a : Happening) (p : Pool)
    → IsClosed p
    → IsClosed (perform n a p).pool × All IsShutting (perform n a p).effects
unfolding on_message subscribe unsubscribe publish publish_to on_open on_close close begin_connect
    on_event off_event on_reject off_reject on_relay_open off_relay_open has
perform-IsClosed n connects p (is_closed hs rs os a b c d) = (is_closed hs rs os a b c d, tt)
perform-IsClosed n (opens s) p (is_closed hs rs os a b c d) =
    (is_closed hs rs os a b c d, ((s, refl), tt))
perform-IsClosed n (ends s) p (is_closed hs rs os a b c d) = (is_closed hs rs os a b c d, tt)
perform-IsClosed n (receives t) p (is_closed hs rs os a b c d) = (is_closed hs rs os a b c d, tt)
perform-IsClosed n (subscribes id f) p (is_closed hs rs os a b c d) =
    (is_closed hs rs os a b c d, tt)
perform-IsClosed n (unsubscribes id) p (is_closed hs rs os a b c d) =
    (is_closed hs rs os a b c d, tt)
perform-IsClosed n (publishes e) p (is_closed hs rs os a b c d) = (is_closed hs rs os a b c d, tt)
perform-IsClosed n (publishes_to s e) p (is_closed hs rs os a b c d) =
    (is_closed hs rs os a b c d, tt)
perform-IsClosed n (listens h) p (is_closed hs rs os a b c d) = (is_closed _ rs os a b c d, tt)
perform-IsClosed n (unlistens h) p (is_closed hs rs os a b c d) = (is_closed _ rs os a b c d, tt)
perform-IsClosed n (watches_refusals h) p (is_closed hs rs os a b c d) =
    (is_closed hs _ os a b c d, tt)
perform-IsClosed n (unwatches_refusals h) p (is_closed hs rs os a b c d) =
    (is_closed hs _ os a b c d, tt)
perform-IsClosed n (watches_opening h) p (is_closed hs rs os a b c d) =
    (is_closed hs rs _ a b c d, tt)
perform-IsClosed n (unwatches_opening h) p (is_closed hs rs os a b c d) =
    (is_closed hs rs _ a b c d, tt)
perform-IsClosed n closes p (is_closed hs rs os a b c d) = (is_closed [] [] [] a b c d, tt)

All-append :
    (xs ys : List Effect) → All IsShutting xs → All IsShutting ys → All IsShutting (xs ++ ys)
All-append [] ys hx hy = hy
All-append (x ∷ xs) ys hx hy = (hx.0, All-append xs ys hx.1 hy)

abbrev IsSilent : Log → Type 0
IsSilent l = IsClosed l.pool × All IsShutting l.effects

step-IsSilent :
    (n : Nostr) (a : Happening) (l : Log) → IsSilent l → IsSilent (logged l (perform n a l.pool))
step-IsSilent n a l (shut, silent) =
    let s = perform-IsClosed n a l.pool shut in
    (s.0, All-append l.effects (perform n a l.pool).effects silent s.1)

-- Once a pool has closed, whatever happens next, all that it does outside is to shut the sockets
-- that open late: it sends nothing, and calls no handler.
pub close-IsSilent :
    (n : Nostr) (p : Pool) (happenings : List Happening)
    → All IsShutting (run n happenings (record { pool = (close p).pool; effects = [] })).effects
close-IsSilent n p happenings =
    (run-keeps n IsSilent (λ a. Unit) (λ a l u h. step-IsSilent n a l h) happenings
      (record { pool = (close p).pool; effects = [] }) (anything happenings)
      (close-IsClosed p, tt)).1

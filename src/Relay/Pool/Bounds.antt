-- ===== src/Relay/Pool/Bounds.antt =====
-- The bounds of a `RelayPool`, and its silence once it has closed (src/relay-session.mjs).
use relayswarm.Base.{
  ◌≤◌, inl, inr, List, [], ◌∷◌, ◌++◌, Text, length, length-append, length-drop, length-insert-le,
  length-delete-le, arith,
}
use relayswarm.Relay.Pool.Frames.{Nostr}
use relayswarm.Relay.Pool.State.{Pool, Done, remember, seen_capacity, subscription_capacity}
use relayswarm.Relay.Pool.Subscribed.{
  Subscribing, kept, inserted, deleted, cleared, perform-Subscribing,
}
use relayswarm.Relay.Pool.Steps.{Stepped, quiet, delivers, perform-Stepped}
use relayswarm.Relay.Pool.Runs.{Happening, Log, run, new_log, anything, run-keeps}

length-remember :
    (id : Text) (seen : List Text)
    → length seen ≤ seen_capacity
    → length (remember id seen) ≤ seen_capacity
unfolding remember
length-remember id seen h =
    ground (arith, length-append seen (id ∷ []), length-drop 1 (seen ++ (id ∷ [])))

abbrev pub IsSmall : Log → Type 0
IsSmall l =
    (length l.pool.subscriptions ≤ subscription_capacity) × (length l.pool.seen ≤ seen_capacity)

Subscribing-le :
    (a : Happening) (p q : Pool)
    → Subscribing a p q
    → length p.subscriptions ≤ subscription_capacity
    → length q.subscriptions ≤ subscription_capacity
Subscribing-le a p q (kept e) h = rw e h
Subscribing-le a p q (inserted id f few is e) h =
    rw e (omega (arith, length-insert-le id f p.subscriptions))
Subscribing-le a p q (deleted id e) h = rw e (omega (arith, length-delete-le id p.subscriptions))
Subscribing-le a p q (cleared e) h = rw e (omega arith)

Stepped-le :
    (n : Nostr) (p : Pool) (d : Done)
    → Stepped n p d
    → length p.seen ≤ seen_capacity
    → length d.pool.seen ≤ seen_capacity
Stepped-le n p d (quiet out (inl (shut, forgot))) h = rw forgot (omega arith)
Stepped-le n p d (quiet out (inr (same, as_was))) h = rw as_was h
Stepped-le n p d (delivers e id sub f out found fresh (live, live', seen)) h =
    rw seen (length-remember id p.seen h)

-- In every history of a new pool, at most 32 filters are in force, and at most 10,000 identifiers
-- are remembered.
pub run-IsSmall : (n : Nostr) (happenings : List Happening) → IsSmall (run n happenings new_log)
run-IsSmall n happenings =
    run-keeps n IsSmall (λ a. Unit)
      (λ a l u h. (
        Subscribing-le a l.pool _ (perform-Subscribing n a l.pool) h.0,
        Stepped-le n l.pool _ (perform-Stepped n a l.pool) h.1,
      ))
      happenings new_log (anything happenings) (omega arith, omega arith)

-- ===== src/Relay/Session/Starts.antt =====
-- `start` takes both subscriptions or leaves the pool as it was (src/relay-session.mjs).
use relayswarm.Base.{
  ℕ, ◌≡◌, refl, ap, ◌∙◌, Bool, true, false, none, some, List, [], ◌∷◌, ◌++◌, Text, ==_refl, has,
  lookup, insert, text_eq, text_eq_refl, text_eq→eq, has-lookup, lookup-insert, lookup-delete,
  if◌then◌else◌, arith,
}
use relayswarm.Relay.Pool.Frames.{Filter}
use relayswarm.Relay.Pool.State.{Pool, Outcome, returns, throws, Done, quietly}
use relayswarm.Relay.Pool.Calls.{
  refused, subscribed, unsubscribed, cannot_subscribe, subscribe, unsubscribe, on_event, off_event,
  on_relay_open, off_relay_open, without, is_there, added,
}
use relayswarm.Relay.Session.State.{Session}
use relayswarm.Relay.Session.Start.{
  Names, Started, presence_filter, signal_filter, unlistened, on_second, on_first, listened, start,
}

without-append : (h : ℕ) (hs : List ℕ) → is_there h hs ≡ false → without h (hs ++ (h ∷ [])) ≡ hs
without-append h [] e = ground (arith, ==_refl h)
without-append h (x ∷ hs) e = ground (arith, without-append h hs)

without-added : (h : ℕ) (hs : List ℕ) → is_there h hs ≡ false → without h (added h hs) ≡ hs
without-added h hs e = rw e (without-append h hs e)

-- The pool hands events to the same handlers, and has the same filters in force.
abbrev pub IsAsBefore : Pool → Pool → Type 0
IsAsBefore p q =
    ((q.handlers ≡ p.handlers) × (q.relay_open_handlers ≡ p.relay_open_handlers))
    × ((id : Text) → lookup id q.subscriptions ≡ lookup id p.subscriptions)

-- What `start` leaves, when it returns and when it throws.
abbrev pub Takes : Names → ℕ → Session → Pool → Outcome → Started → Type 0
Takes n now s p returns r =
    ((lookup n.presence_id r.pool.subscriptions ≡ some (presence_filter now s))
      × (lookup n.signal_id r.pool.subscriptions ≡ some (signal_filter now s)))
    × (r.session.started ≡ true)
    × (r.pool.handlers ≡ added n.event_handler p.handlers)
Takes n now s p throws r = IsAsBefore p r.pool × (r.session.started ≡ false)

module _ (n : Names) (now : ℕ) (s : Session) (p : Pool) where
  abbrev f1 : Filter
  f1 = presence_filter now s

  abbrev f2 : Filter
  f2 = signal_filter now s

  abbrev waiting : Pool
  waiting = listened n p

  abbrev first_done : Done
  first_done = subscribed n.presence_id f1 waiting

  abbrev pub IsFresh : Type 0
  IsFresh =
      ((is_there n.event_handler p.handlers ≡ false)
        × (is_there n.open_handler p.relay_open_handlers ≡ false))
      × (lookup n.presence_id p.subscriptions ≡ none)
      × (text_eq n.signal_id n.presence_id ≡ false)

  unlistened-IsAsBefore :
      (q : Pool)
      → IsFresh
      → q.handlers ≡ added n.event_handler p.handlers
      → q.relay_open_handlers ≡ added n.open_handler p.relay_open_handlers
      → ((id : Text) → lookup id q.subscriptions ≡ lookup id p.subscriptions)
      → IsAsBefore p (unlistened n q)
  unfolding off_event off_relay_open
  unlistened-IsAsBefore q fresh hs os subs = (
    (
      ap (without n.event_handler) hs ∙ without-added n.event_handler p.handlers fresh.0.0,
      ap (without n.open_handler) os ∙ without-added n.open_handler p.relay_open_handlers fresh.0.1,
    ),
    subs,
  )

  -- Unsubscribing undoes the first subscription.
  undone :
      (q : Pool) (b : Bool)
      → q.subscriptions ≡ insert n.presence_id f1 p.subscriptions
      → has n.presence_id q.subscriptions ≡ b
      → lookup n.presence_id p.subscriptions ≡ none
      → (id : Text)
      → lookup id (if b then unsubscribed n.presence_id q else quietly q).pool.subscriptions
        ≡ lookup id p.subscriptions
  undone q true e h fresh id =
      lookup-delete n.presence_id id q.subscriptions
      ∙ go (text_eq n.presence_id id) refl
          (ap (lookup id) e ∙ lookup-insert n.presence_id id f1 p.subscriptions)
    where
      go :
          (b : Bool)
          → text_eq n.presence_id id ≡ b
          → lookup id q.subscriptions ≡ (if b then some f1 else lookup id p.subscriptions)
          → (if b then none else lookup id q.subscriptions) ≡ lookup id p.subscriptions
      go true same l = cc (text_eq→eq n.presence_id id same, fresh)
      go false same l = l
  undone q false e h fresh id = absurd (
      cc (
        has-lookup n.presence_id q.subscriptions h,
        ap (lookup n.presence_id) e,
        lookup-insert n.presence_id n.presence_id f1 p.subscriptions,
        text_eq_refl n.presence_id,
        fresh,
      ))

  cancelled-IsAsBefore :
      (q : Pool)
      → IsFresh
      → q.handlers ≡ added n.event_handler p.handlers
      → q.relay_open_handlers ≡ added n.open_handler p.relay_open_handlers
      → q.subscriptions ≡ insert n.presence_id f1 p.subscriptions
      → IsAsBefore p (unlistened n (unsubscribe n.presence_id q).pool)
  unfolding unsubscribe
  cancelled-IsAsBefore q fresh hs os e =
      go (has n.presence_id q.subscriptions)
        (undone q (has n.presence_id q.subscriptions) e refl fresh.1)
    where
      go :
          (b : Bool)
          → ((id : Text)
              → lookup id (if b then unsubscribed n.presence_id q else quietly q).pool.subscriptions
                ≡ lookup id p.subscriptions)
          → IsAsBefore p (unlistened n (if b then unsubscribed n.presence_id q else quietly q).pool)
      go true subs = unlistened-IsAsBefore (unsubscribed n.presence_id q).pool fresh hs os subs
      go false subs = unlistened-IsAsBefore q fresh hs os subs

  signal_done : Bool → Done
  unfolding on_event on_relay_open
  signal_done b = if b then refused first_done.pool else subscribed n.signal_id f2 first_done.pool

  second-Takes :
      (b : Bool)
      → IsFresh
      → (let r = on_second n s first_done.effects (signal_done b).outcome (signal_done b) in
          Takes n now s p r.outcome r)
  unfolding on_event on_relay_open signal_done
  second-Takes true fresh = (cancelled-IsAsBefore first_done.pool fresh refl refl refl, refl)
  second-Takes false fresh = (
    (
      lookup-insert n.signal_id n.presence_id f2 first_done.pool.subscriptions
          ∙ rw fresh.2 (
              lookup-insert n.presence_id n.presence_id f1 p.subscriptions
              ∙ rw (text_eq_refl n.presence_id) refl),
      lookup-insert n.signal_id n.signal_id f2 first_done.pool.subscriptions
          ∙ rw (text_eq_refl n.signal_id) refl,
    ),
    refl,
    refl,
  )

  first_result : Bool → Done
  first_result b = if b then refused waiting else first_done

  first-Takes :
      (b c : Bool)
      → cannot_subscribe first_done.pool ≡ c
      → IsFresh
      → (let r = on_first n now s (first_result b).outcome (first_result b) in
          Takes n now s p r.outcome r)
  unfolding on_event on_relay_open subscribe signal_done first_result
  first-Takes true c e fresh = (unlistened-IsAsBefore waiting fresh refl refl (λ id. refl), refl)
  first-Takes false c e fresh = rw e (second-Takes c fresh)

  -- A session that starts with new identifiers and handlers has both subscriptions in force and
  -- hears the pool, when `start` returns. When it throws, as for a pool with no relay or with no
  -- room for both, the pool has the handlers and the filters that it had, and the session is not
  -- started.
  pub start-Takes :
      s.started ≡ false → IsFresh → Takes n now s p (start n now s p).outcome (start n now s p)
  unfolding start subscribe first_result
  start-Takes idle fresh =
      rw idle (first-Takes (cannot_subscribe waiting) (cannot_subscribe first_done.pool) refl fresh)

-- ===== src/Relay/Pool/Over.antt =====
-- A pool that has closed dials nothing more (src/relay-session.mjs).
use relayswarm.Base.{
  ℕ, ◌∙◌, ◌≡◌, refl, sym, true, false, ◌&&◌, Option, none, some, List, [], ◌∷◌, if_cases, arith,
}
use relayswarm.Relay.Pool.Calls.{is_there, close, on_close}
use relayswarm.Relay.Pool.Frames.{Nostr}
use relayswarm.Relay.Pool.Runs.{
  Happening, connects, opens, ends, receives, subscribes, unsubscribes, publishes, publishes_to,
  listens, unlistens, watches_refusals, unwatches_refusals, watches_opening, unwatches_opening,
  closes, is_calm, perform,
}
use relayswarm.Relay.Pool.Calm.{perform-Calm}
use relayswarm.Relay.Pool.Dialling.{
  Config, Dial, Retry, Answer, pool_closed, Dialler, with_done, answered,
}
use relayswarm.Relay.Pool.Listeners.{
  take_dial, shut_late, opens_dial, dial_opens, fails_dial, dial_fails, socket_ends, take_retry,
  fires_retry, retry_fires, cancelled, connects_after, connect, close_all, DialEvent, fails, fires,
  dial_step, dial_run, acts, dials_by,
}

-- Nothing is pending, and these are all the answers that there are.
pub record IsOver (given : List (ℕ × Answer)) (d : Dialler) : Type 0 where
  pub closed : d.pool.closed ≡ true
  pub connected : d.pool.connected ≡ false
  pub sockets : d.pool.sockets ≡ []
  pub dials : d.dials ≡ []
  pub retries : d.retries ≡ []
  pub connecting : d.connecting ≡ none
  pub answers : d.answers ≡ given

same-IsOver :
    (given : List (ℕ × Answer)) (d e : Dialler)
    → e.pool.closed ≡ d.pool.closed
    → e.pool.connected ≡ d.pool.connected
    → e.pool.sockets ≡ d.pool.sockets
    → e.dials ≡ d.dials
    → e.retries ≡ d.retries
    → e.connecting ≡ d.connecting
    → e.answers ≡ d.answers
    → IsOver given d
    → IsOver given e
same-IsOver given d e p q s x r c a v = record {
  closed = p ∙ v.closed;
  connected = q ∙ v.connected;
  sockets = s ∙ v.sockets;
  dials = x ∙ v.dials;
  retries = r ∙ v.retries;
  connecting = c ∙ v.connecting;
  answers = a ∙ v.answers;
}

-- `close` settles what is pending, once.
close_all-IsOver : (d : Dialler) → IsOver (close_all d).answers (close_all d)
unfolding close_all close
close_all-IsOver d = go d.connecting refl
  where
    go :
        (o : Option ℕ)
        → d.connecting ≡ o
        → IsOver
            (answered o pool_closed (cancelled d)).answers
            (answered o pool_closed (cancelled d))
    go none e = record {
      closed = refl;
      connected = refl;
      sockets = refl;
      dials = refl;
      retries = refl;
      connecting = e;
      answers = refl;
    }
    go (some n) e = record {
      closed = refl;
      connected = refl;
      sockets = refl;
      dials = refl;
      retries = refl;
      connecting = refl;
      answers = refl;
    }

module _ (given : List (ℕ × Answer)) (c : Config) (d : Dialler) (v : IsOver given d) where
  connect-IsOver : IsOver given (connect c d).0
  unfolding connect
  connect-IsOver =
      if_cases (λ a. IsOver given (connects_after c a d)) d.pool.closed (some pool_closed) _
        (λ h. v) (λ h. absurd (cc (v.closed, h)))

  opens-IsOver : (s : ℕ) → IsOver given (dial_opens c s d)
  unfolding dial_opens take_dial
  opens-IsOver s = go d.dials v.dials
    where
      go : (xs : List Dial) → xs ≡ [] → IsOver given (opens_dial c s (take_dial s xs) d)
      go [] e = same-IsOver given d (shut_late s d) refl refl refl refl refl refl refl v
      go (x ∷ xs) e = absurd (cc e)

  fails-IsOver : (s : ℕ) → IsOver given (dial_fails c s d)
  unfolding dial_fails take_dial
  fails-IsOver s = go d.dials v.dials
    where
      go : (xs : List Dial) → xs ≡ [] → IsOver given (fails_dial c s (take_dial s xs) d)
      go [] e = v
      go (x ∷ xs) e = absurd (cc e)

  fires-IsOver : (t : ℕ) → IsOver given (retry_fires t d)
  unfolding retry_fires take_retry
  fires-IsOver t = go d.retries v.retries
    where
      go : (xs : List Retry) → xs ≡ [] → IsOver given (fires_retry (take_retry t xs) d)
      go [] e = v
      go (x ∷ xs) e = absurd (cc e)

  closes-IsOver : IsOver given (close_all d)
  unfolding close_all close
  closes-IsOver = go d.connecting v.connecting
    where
      go : (o : Option ℕ) → o ≡ none → IsOver given (answered o pool_closed (cancelled d))
      go none e =
          same-IsOver given d (cancelled d) (sym v.closed) (sym v.connected) (sym v.sockets)
            (sym v.dials) (sym v.retries) refl refl v
      go (some n) e = absurd (cc e)

  gone-IsOver : (s : ℕ) → IsOver given (with_done (on_close s d.pool) d)
  unfolding on_close
  gone-IsOver s =
      same-IsOver given d (with_done (on_close s d.pool) d) refl refl (rw v.sockets refl) refl refl
        refl refl v

ends-IsOver :
    (given : List (ℕ × Answer)) (c : Config) (d : Dialler) (s : ℕ)
    → IsOver given d
    → IsOver given (socket_ends c s d)
unfolding socket_ends
ends-IsOver given c d s v =
    if_cases (IsOver given) (c.reconnect && d.pool.connected && is_there s d.pool.sockets) _ _
      (λ h. absurd (ground (arith, h, v.connected)))
      (λ h. fails-IsOver given c (with_done (on_close s d.pool) d) (gone-IsOver given c d v s) s)

calm-IsOver :
    (given : List (ℕ × Answer)) (n : Nostr) (a : Happening) (d : Dialler)
    → is_calm a ≡ true
    → IsOver given d
    → IsOver given (with_done (perform n a d.pool) d)
calm-IsOver given n a d h v =
    let k = perform-Calm n a d.pool h in
    same-IsOver given d (with_done (perform n a d.pool) d) k.0 k.1 k.2 refl refl refl refl v

dials_by-IsOver :
    (given : List (ℕ × Answer)) (c : Config) (a : Happening) (d : Dialler)
    → IsOver given d
    → IsOver given (dials_by c a d)
dials_by-IsOver given c connects d v = connect-IsOver given c d v
dials_by-IsOver given c (opens s) d v = opens-IsOver given c d v s
dials_by-IsOver given c (ends s) d v = ends-IsOver given c d s v
dials_by-IsOver given c closes d v = closes-IsOver given c d v
dials_by-IsOver given c (receives t) d v = v
dials_by-IsOver given c (subscribes id f) d v = v
dials_by-IsOver given c (unsubscribes id) d v = v
dials_by-IsOver given c (publishes e) d v = v
dials_by-IsOver given c (publishes_to s e) d v = v
dials_by-IsOver given c (listens h) d v = v
dials_by-IsOver given c (unlistens h) d v = v
dials_by-IsOver given c (watches_refusals h) d v = v
dials_by-IsOver given c (unwatches_refusals h) d v = v
dials_by-IsOver given c (watches_opening h) d v = v
dials_by-IsOver given c (unwatches_opening h) d v = v

dial_step-IsOver :
    (given : List (ℕ × Answer)) (c : Config) (n : Nostr) (e : DialEvent) (d : Dialler)
    → IsOver given d
    → IsOver given (dial_step c n e d)
unfolding dial_step
dial_step-IsOver given c n (acts a) d v =
    if_cases (IsOver given) (is_calm a) (with_done (perform n a d.pool) d) (dials_by c a d)
      (λ h. calm-IsOver given n a d h v) (λ h. dials_by-IsOver given c a d v)
dial_step-IsOver given c n (fails s) d v = fails-IsOver given c d v s
dial_step-IsOver given c n (fires t) d v = fires-IsOver given c d v t

dial_run-IsOver :
    (given : List (ℕ × Answer)) (c : Config) (n : Nostr) (es : List DialEvent) (d : Dialler)
    → IsOver given d
    → IsOver given (dial_run c n es d)
unfolding dial_run
dial_run-IsOver given c n [] d v = v
dial_run-IsOver given c n (e ∷ es) d v =
    dial_run-IsOver given c n es (dial_step c n e d) (dial_step-IsOver given c n e d v)

-- A pool that was closed while it dialled has no socket, dial or retry any more and no call pending,
-- and whatever comes later starts none, and settles no promise again.
pub dial_run-close_all :
    (c : Config) (n : Nostr) (es : List DialEvent) (d : Dialler)
    → IsOver (close_all d).answers (dial_run c n es (close_all d))
dial_run-close_all c n es d =
    dial_run-IsOver (close_all d).answers c n es (close_all d) (close_all-IsOver d)

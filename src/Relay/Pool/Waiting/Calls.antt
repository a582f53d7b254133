-- ===== src/Relay/Pool/Waiting/Calls.antt =====
-- `connect` and `close` (src/relay-session.mjs).
use relayswarm.Base.{
  subst, ℕ, ◌≤◌, ◌≡◌, refl, ap, Bool, true, false, Option, none, some, List, [], ◌∷◌, Text, ==_refl,
  if_cases, arith,
}
use relayswarm.Relay.Pool.Calls.{close, has_relay}
use relayswarm.Relay.Pool.Dialling.{
  Config, round, Dial, Retry, Answer, ready, pool_closed, Dialler, connect_one, connect_all,
  answered, is_round, dials_of,
}
use relayswarm.Relay.Pool.Listeners.{
  cancelled, calling, cancelled, calling, dials_all, connects_anew, connects_after, connect,
  close_all,
}
use relayswarm.Relay.Pool.Waiting.{Counted, asked, awaited, IsAwaited, dials_of-le}
use relayswarm.Relay.Pool.Waiting.Settled.{answered-IsAwaited}
use relayswarm.Relay.Pool.Waiting.Steps.{dials_of-append}

-- What is dialled for a call, and nothing else that matters.
record Grown (n : ℕ) (d e : Dialler) : Type 0 where
  pool : e.pool ≡ d.pool
  connecting : e.connecting ≡ d.connecting
  answers : e.answers ≡ d.answers
  next_round : e.next_round ≡ d.next_round
  dials : dials_of n d.dials ≤ dials_of n e.dials

connect_all-Grown :
    (n : ℕ) (urls : List Text) (d : Dialler) → Grown n d (connect_all urls (round n) d)
unfolding connect_all
connect_all-Grown n [] d = record {
  pool = refl;
  connecting = refl;
  answers = refl;
  next_round = refl;
  dials = omega arith;
}
connect_all-Grown n (url ∷ urls) d =
    let k = connect_all-Grown n urls (connect_one url (round n) d) in
    record {
      pool = k.pool;
      connecting = k.connecting;
      answers = k.answers;
      next_round = k.next_round;
      dials = omega (arith, k.dials, dials_of-append n d.dials _);
    }

own_dial : (n : ℕ) (x : Dial) → x.caller ≡ round n → dials_of n (x ∷ []) ≡ 1
unfolding dials_of
own_dial n x e =
    if_cases (λ k. k ≡ 1) (is_round n x.caller) 1 0 (λ h. refl)
      (λ h. absurd (cc (ap (is_round n) e, ==_refl n, h)))

dials_all-IsAwaited :
    (c : Config) (d : Dialler)
    → IsAwaited c d
    → d.pool.closed ≡ false
    → has_relay d.pool ≡ false
    → d.connecting ≡ none
    → IsAwaited c (dials_all c d)
unfolding connect_all
dials_all-IsAwaited c d v open_still alone calm =
    let n = d.next_round in
    let dial : Dial = record { socket = d.next_socket; url = c.first_url; caller = round n } in
    let own : dials_of n (dial ∷ []) ≡ 1 = own_dial n dial refl in
    let k = connect_all-Grown n c.other_urls (connect_one c.first_url (round n) (calling d)) in
    record {
      idle = λ h. absurd (cc (ap (λ p. p.connected) k.pool, h));
      counted =
          rw (k.answers, k.connecting, k.next_round)
            (λ id. ground (arith, v.counted id, ap (λ q. asked q id) calm));
      standing = rw (k.connecting, k.pool) (open_still, refl, λ b. ground (arith, alone, v.idle));
      waits = rw k.connecting (
          go c.reconnect (dials_all c d).dials (dials_all c d).retries
            (omega (arith, k.dials, own, dials_of-append n d.dials (dial ∷ []))));
    }
  where
    go :
        (b : Bool) (ds : List Dial) (rs : List Retry)
        → 1 ≤ dials_of d.next_round ds
        → 1 ≤ awaited b (some d.next_round) ds rs
    go true ds rs h = omega (arith, h, dials_of-le d.next_round ds)
    go false ds rs h = h

pub connect-IsAwaited : (c : Config) (d : Dialler) → IsAwaited c d → IsAwaited c (connect c d).0
unfolding connect
connect-IsAwaited c d v =
    if_cases After d.pool.closed (some pool_closed) _ (λ h. v)
      (λ h. if_cases After (has_relay d.pool) (some ready) none (λ k. v) (anew d.connecting refl h))
  where
    After : Option Answer → Type 0
    After a = IsAwaited c (connects_after c a d)

    anew :
        (o : Option ℕ)
        → d.connecting ≡ o
        → d.pool.closed ≡ false
        → has_relay d.pool ≡ false
        → IsAwaited c (connects_anew c o d)
    anew none e h k = dials_all-IsAwaited c d v h k e
    anew (some id) e h k = v

pub close_all-IsAwaited : (c : Config) (d : Dialler) → IsAwaited c d → IsAwaited c (close_all d)
unfolding close_all close
close_all-IsAwaited c d v = go d.connecting refl
  where
    go : (o : Option ℕ) → d.connecting ≡ o → IsAwaited c (answered o pool_closed (cancelled d))
    go none e = record {
      idle = λ h. omega arith;
      counted = v.counted;
      standing = rw e tt;
      waits = rw e (omega arith);
    }
    go (some n) e =
        answered-IsAwaited c n pool_closed (cancelled d) (λ h. omega arith)
          (subst (λ q. Counted d.answers q d.next_round) e v.counted)

-- ===== src/Relay/Pool/Waiting/Runs.antt =====
-- A pending `connect` over any events (src/relay-session.mjs).
use relayswarm.Base.{
  ◌∙◌, sym, ℕ, ◌+◌, ◌≤◌, ◌≡◌, refl, ap, Bool, true, false, ◌&&◌, not, Option, none, some, List, [],
  ◌∷◌, ◌++◌, Text, length, length-append, ◌==◌, if_keeps, if_cases, arith,
}
use relayswarm.Relay.Pool.Calls.{is_there, on_close, without}
use relayswarm.Relay.Pool.Frames.{Nostr}
use relayswarm.Relay.Pool.Runs.{
  Happening, connects, opens, ends, receives, subscribes, unsubscribes, publishes, publishes_to,
  listens, unlistens, watches_refusals, unwatches_refusals, watches_opening, unwatches_opening,
  closes, is_calm, perform,
}
use relayswarm.Relay.Pool.Calm.{perform-Calm}
use relayswarm.Relay.Pool.Dialling.{
  Config, Caller, round, retry, Dial, Retry, Dialler, new_dialler, with_done, connect_one, redial,
}
use relayswarm.Relay.Pool.Listeners.{
  rejected, take_dial, shut_late, fails_dial, dial_fails, url_of, redial_lost, socket_ends,
  with_next, take_retry, fires_retry, retry_fires, DialEvent, fails, fires, dial_step, dial_run,
  acts, dials_by,
}
use relayswarm.Relay.Pool.Waiting.{times, Standing, awaited, IsAwaited, Kept-IsAwaited, redial-Kept}
use relayswarm.Relay.Pool.Waiting.Steps.{
  Taken, take_dial-Taken, round_fails-IsAwaited, retry_fails-IsAwaited,
}
use relayswarm.Relay.Pool.Waiting.Steps.{dials_of-append}
use relayswarm.Relay.Pool.Waiting.Calls.{connect-IsAwaited, close_all-IsAwaited}
use relayswarm.Relay.Pool.Waiting.Opening.{dial_opens-IsAwaited}

dial_fails-IsAwaited :
    (c : Config) (s : ℕ) (d : Dialler) → IsAwaited c d → IsAwaited c (dial_fails c s d)
unfolding dial_fails
dial_fails-IsAwaited c s d v = go (take_dial s d.dials) (take_dial-Taken s d.dials)
  where
    each :
        (x : Dial) (rest : List Dial) (k : Caller)
        → x.caller ≡ k
        → Taken d.dials (some (x, rest))
        → IsAwaited c (rejected c x.url k (shut_late s (record d { dials = rest })))
    each x rest (round id) e t = round_fails-IsAwaited c d v s id x rest e t
    each x rest (retry k) e t = retry_fails-IsAwaited c d v s k x rest e t

    go : (o : Option (Dial × List Dial)) → Taken d.dials o → IsAwaited c (fails_dial c s o d)
    go none t = v
    go (some (x, rest)) t = each x rest x.caller refl t

length-without : (s : ℕ) (xs : List ℕ) → length (without s xs) ≤ length xs
length-without s [] = omega arith
length-without s (x ∷ xs) = ground (arith, length-without s xs)

-- A socket that is gone.
gone-IsAwaited :
    (c : Config) (s : ℕ) (d : Dialler)
    → IsAwaited c d
    → IsAwaited c (with_done (on_close s d.pool) d)
unfolding on_close
gone-IsAwaited c s d v = record {
  idle = λ h. omega (arith, v.idle h, length-without s d.pool.sockets);
  counted = v.counted;
  standing = go d.connecting v.standing;
  waits = v.waits;
}
  where
    go :
        (o : Option ℕ)
        → Standing c.reconnect o d.pool
        → Standing c.reconnect o (record d.pool { sockets = without s d.pool.sockets })
    go none st = tt
    go (some n) st = (st.0, st.1, λ h. omega (arith, st.2 h, length-without s d.pool.sockets))

socket_ends-IsAwaited :
    (c : Config) (s : ℕ) (d : Dialler) → IsAwaited c d → IsAwaited c (socket_ends c s d)
unfolding socket_ends
socket_ends-IsAwaited c s d v =
    let lost = dial_fails c s (with_done (on_close s d.pool) d) in
    let w = dial_fails-IsAwaited c s (with_done (on_close s d.pool) d) (gone-IsAwaited c s d v) in
    if_keeps (IsAwaited c) (c.reconnect && d.pool.connected && is_there s d.pool.sockets) _ lost
      (go lost w (url_of s d.made)) w
  where
    go : (e : Dialler) → IsAwaited c e → (o : Option Text) → IsAwaited c (redial_lost c o e)
    go e w none = w
    go e w (some url) = Kept-IsAwaited c e (redial c url 1 e) (redial-Kept c url 1 e) w

abbrev Fewer : List Retry → Option (Retry × List Retry) → Type 0
Fewer xs none = Unit
Fewer xs (some (r, rest)) = length xs ≡ length rest + 1

take_retry-Fewer : (t : ℕ) (xs : List Retry) → Fewer xs (take_retry t xs)
unfolding take_retry
take_retry-Fewer t [] = tt
take_retry-Fewer t (x ∷ xs) =
    if_keeps (Fewer (x ∷ xs)) (x.timer == t) (some (x, xs)) (with_next x (take_retry t xs))
      (omega arith) (go (take_retry t xs) (take_retry-Fewer t xs))
  where
    go : (o : Option (Retry × List Retry)) → Fewer xs o → Fewer (x ∷ xs) (with_next x o)
    go none h = tt
    go (some (y, ys)) h = omega (arith, h)

retry_fires-IsAwaited :
    (c : Config) (t : ℕ) (d : Dialler) → IsAwaited c d → IsAwaited c (retry_fires t d)
unfolding retry_fires
retry_fires-IsAwaited c t d v = go (take_retry t d.retries) (take_retry-Fewer t d.retries)
  where
    unconnected :
        (b : Bool) (o : Option ℕ) (rest : List Retry)
        → d.pool.connected ≡ false
        → Standing b o d.pool
        → 1 ≤ awaited b o d.dials rest
    unconnected b none rest h st = omega arith
    unconnected b (some n) rest h st = absurd (cc (h, st.1))

    dialled :
        (b : Bool) (o : Option ℕ) (x : Dial) (rest : List Retry)
        → length d.retries ≡ length rest + 1
        → 1 ≤ awaited b o d.dials d.retries
        → 1 ≤ awaited b o (d.dials ++ (x ∷ [])) rest
    dialled b none x rest h w = omega arith
    dialled true (some n) x rest h w = omega (arith, length-append d.dials (x ∷ []))
    dialled false (some n) x rest h w = omega (arith, w, dials_of-append n d.dials (x ∷ []))

    go : (o : Option (Retry × List Retry)) → Fewer d.retries o → IsAwaited c (fires_retry o d)
    go none f = v
    go (some (r, rest)) f =
        if_cases (IsAwaited c) (not d.pool.connected) (record d { retries = rest })
          (connect_one r.url (retry r.attempt) (record d { retries = rest }))
          (λ h. record {
            idle = v.idle;
            counted = v.counted;
            standing = v.standing;
            waits = unconnected c.reconnect d.connecting rest (ground (arith, h)) v.standing;
          })
          (λ h. record {
            idle = λ e. absurd (ground (arith, h, e));
            counted = v.counted;
            standing = v.standing;
            waits = dialled c.reconnect d.connecting _ rest f v.waits;
          })

calm-IsAwaited :
    (c : Config) (n : Nostr) (a : Happening) (d : Dialler)
    → is_calm a ≡ true
    → IsAwaited c d
    → IsAwaited c (with_done (perform n a d.pool) d)
calm-IsAwaited c n a d h v =
    let k = perform-Calm n a d.pool h in
    record {
      idle = λ e. ap (λ xs. length xs + length d.dials) k.2 ∙ v.idle (sym k.1 ∙ e);
      counted = v.counted;
      standing = go d.connecting v.standing;
      waits = v.waits;
    }
  where
    go :
        (o : Option ℕ)
        → Standing c.reconnect o d.pool
        → Standing c.reconnect o (perform n a d.pool).pool
    go none st = tt
    go (some id) st =
        let k = perform-Calm n a d.pool h in
        (k.0 ∙ st.0, k.1 ∙ st.1, λ e. ap (λ xs. length xs) k.2 ∙ st.2 e)

dials_by-IsAwaited :
    (c : Config) (a : Happening) (d : Dialler) → IsAwaited c d → IsAwaited c (dials_by c a d)
dials_by-IsAwaited c connects d v = connect-IsAwaited c d v
dials_by-IsAwaited c (opens s) d v = dial_opens-IsAwaited c s d v
dials_by-IsAwaited c (ends s) d v = socket_ends-IsAwaited c s d v
dials_by-IsAwaited c closes d v = close_all-IsAwaited c d v
dials_by-IsAwaited c (receives t) d v = v
dials_by-IsAwaited c (subscribes id f) d v = v
dials_by-IsAwaited c (unsubscribes id) d v = v
dials_by-IsAwaited c (publishes e) d v = v
dials_by-IsAwaited c (publishes_to s e) d v = v
dials_by-IsAwaited c (listens h) d v = v
dials_by-IsAwaited c (unlistens h) d v = v
dials_by-IsAwaited c (watches_refusals h) d v = v
dials_by-IsAwaited c (unwatches_refusals h) d v = v
dials_by-IsAwaited c (watches_opening h) d v = v
dials_by-IsAwaited c (unwatches_opening h) d v = v

dial_step-IsAwaited :
    (c : Config) (n : Nostr) (e : DialEvent) (d : Dialler)
    → IsAwaited c d
    → IsAwaited c (dial_step c n e d)
unfolding dial_step
dial_step-IsAwaited c n (acts a) d v =
    if_cases (IsAwaited c) (is_calm a) (with_done (perform n a d.pool) d) (dials_by c a d)
      (λ h. calm-IsAwaited c n a d h v) (λ h. dials_by-IsAwaited c a d v)
dial_step-IsAwaited c n (fails s) d v = dial_fails-IsAwaited c s d v
dial_step-IsAwaited c n (fires t) d v = retry_fires-IsAwaited c t d v

dial_run-IsAwaited :
    (c : Config) (n : Nostr) (es : List DialEvent) (d : Dialler)
    → IsAwaited c d
    → IsAwaited c (dial_run c n es d)
unfolding dial_run
dial_run-IsAwaited c n [] d v = v
dial_run-IsAwaited c n (e ∷ es) d v =
    dial_run-IsAwaited c n es (dial_step c n e d) (dial_step-IsAwaited c n e d v)

-- Over any events, the promise of each call of `connect` that has dialled is either pending or has
-- been settled exactly once; and while one is pending the pool is open and something that settles it
-- is still to come: without `reconnect` a dial of this call, and with it, where no relay is open, a
-- dial or the timer of a retry.
pub dial_run-new_dialler-IsAwaited :
    (c : Config) (n : Nostr) (es : List DialEvent) → IsAwaited c (dial_run c n es new_dialler)
unfolding times
dial_run-new_dialler-IsAwaited c n es = dial_run-IsAwaited c n es new_dialler (record {
  idle = λ h. omega arith;
  counted = λ id. ground arith;
  standing = tt;
  waits = omega arith;
})

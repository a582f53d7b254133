-- ===== src/Relay/Pool/Waiting/Opening.antt =====
-- A socket of a pool that opens (src/relay-session.mjs).
use relayswarm.Base.{
  ℕ, ◌+◌, ◌∙◌, ◌≡◌, refl, sym, ap, subst, Bool, false, ◌||◌, Option, none, some, List, [], ◌∷◌,
  ◌++◌, length, if◌then◌else◌, if_cases, arith,
}
use relayswarm.Relay.Pool.State.{Pool}
use relayswarm.Relay.Pool.Calls.{opened, shut, on_open}
use relayswarm.Relay.Pool.Dialling.{
  Config, Caller, round, retry, Dial, ready, Dialler, with_done, answered, is_round, dials_of,
}
use relayswarm.Relay.Pool.Listeners.{
  resolved, take_dial, waiters_ready, dial_opened, shut_late, opens_dial, dial_opens,
}
use relayswarm.Relay.Pool.Waiting.{Counted, Standing, IsAwaited}
use relayswarm.Relay.Pool.Waiting.Settled.{answered-IsAwaited, settle-IsAwaited}
use relayswarm.Relay.Pool.Waiting.Steps.{
  Taken, take_dial-Taken, apart_left, retry_left, late-IsAwaited,
}

-- Without a pending call a settled dial changes nothing that is waited for.
quiet-IsAwaited :
    (c : Config) (k : Caller) (d : Dialler)
    → d.connecting ≡ none
    → (d.pool.connected ≡ false → length d.pool.sockets + length d.dials ≡ 0)
    → Counted d.answers none d.next_round
    → IsAwaited c (resolved c k d)
quiet-IsAwaited c (round id) d e idle q = settle-IsAwaited c id d (record {
  idle = idle;
  counted = rw e q;
  standing = rw e tt;
  others = λ b. rw e tt;
  retried = λ b. rw e tt;
})
quiet-IsAwaited c (retry k) d e idle q = record {
  idle = idle;
  counted = rw e q;
  standing = rw e tt;
  waits = rw e (omega arith);
}

on_open-opened : (s : ℕ) (p : Pool) → p.closed ≡ false → on_open s p ≡ opened s p
unfolding on_open
on_open-opened s p h =
    if_cases (λ r. r ≡ opened s p) p.closed (shut s p) (opened s p) (λ e. absurd (cc (h, e)))
      (λ e. refl)

module _ (c : Config) (d : Dialler) (v : IsAwaited c d) (s : ℕ) (x : Dial) (rest : List Dial)
    (t : Taken d.dials (some (x, rest))) where
  -- The pool with the new socket.
  abbrev with_socket : Dialler
  with_socket = with_done (opened s d.pool) (record d { dials = rest })

  idle_no_more : d.pool.connected ≡ false → length (d.pool.sockets ++ (s ∷ [])) + length rest ≡ 0
  idle_no_more h = absurd (omega (arith, v.idle h, t.0))

  settled :
      (o : Option ℕ)
      → d.connecting ≡ o
      → IsAwaited c (resolved c x.caller (answered o ready with_socket))
  settled none e =
      quiet-IsAwaited c x.caller with_socket e idle_no_more
        (subst (λ q. Counted d.answers q d.next_round) e v.counted)
  settled (some n) e =
      let once =
        answered-IsAwaited c n ready with_socket idle_no_more
          (subst (λ q. Counted d.answers q d.next_round) e v.counted) in
      quiet-IsAwaited c x.caller (answered (some n) ready with_socket) refl idle_no_more
        once.counted

  still_open :
      (b : Bool) (o : Option ℕ)
      → b ≡ false
      → Standing b o d.pool
      → Standing b o (opened s d.pool).pool
  still_open b none e st = tt
  still_open b (some n) e st = (st.0, st.1, λ h. absurd (cc (e, h)))

  one_of_all :
      (k : Caller) → x.caller ≡ k → c.reconnect ≡ false → IsAwaited c (resolved c k with_socket)
  one_of_all (round id) e b = settle-IsAwaited c id with_socket (record {
    idle = idle_no_more;
    counted = v.counted;
    standing = still_open c.reconnect d.connecting b v.standing;
    others = λ b.
        apart_left c.reconnect d.connecting id d.dials rest d.retries b v.waits
          (λ n. t.1 n ∙ ap (λ q. if is_round n q then dials_of n rest + 1 else dials_of n rest) e);
    retried = λ h. absurd (cc (b, h));
  })
  one_of_all (retry k) e b = record {
    idle = idle_no_more;
    counted = v.counted;
    standing = still_open c.reconnect d.connecting b v.standing;
    waits = rw b (
        retry_left d.connecting k d.dials rest d.retries (rw (sym b) v.waits)
          (λ n. t.1 n ∙ ap (λ q. if is_round n q then dials_of n rest + 1 else dials_of n rest) e));
  }

  dial_opened-IsAwaited : d.pool.closed ≡ false → IsAwaited c (dial_opened c s x rest d)
  dial_opened-IsAwaited h =
      subst
        (λ r.
          IsAwaited c
            (resolved c x.caller (waiters_ready c (with_done r (record d { dials = rest })))))
        (sym (on_open-opened s d.pool h))
        (if_cases (λ e. IsAwaited c (resolved c x.caller e)) (c.reconnect || c.ready_on_first_relay)
          (answered d.connecting ready with_socket) with_socket (λ b. settled d.connecting refl)
          (λ b. one_of_all x.caller refl (ground (arith, b))))

pub dial_opens-IsAwaited :
    (c : Config) (s : ℕ) (d : Dialler) → IsAwaited c d → IsAwaited c (dial_opens c s d)
unfolding dial_opens
dial_opens-IsAwaited c s d v = go (take_dial s d.dials) (take_dial-Taken s d.dials)
  where
    go : (o : Option (Dial × List Dial)) → Taken d.dials o → IsAwaited c (opens_dial c s o d)
    go none t = late-IsAwaited c d v s
    go (some (x, rest)) t =
        if_cases (IsAwaited c) d.pool.closed (shut_late s d) (dial_opened c s x rest d)
          (λ h. late-IsAwaited c d v s) (dial_opened-IsAwaited c d v s x rest t)

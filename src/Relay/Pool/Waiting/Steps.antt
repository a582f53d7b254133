-- ===== src/Relay/Pool/Waiting/Steps.antt =====
-- Every event of the sockets and the timers of a pool, and `connect` and `close`
-- (src/relay-session.mjs).
use relayswarm.Base.{
  ◌++◌, ℕ, ◌+◌, ◌≤◌, ◌∙◌, ◌≡◌, refl, ap, subst, Bool, true, false, ◌&&◌, not, Option, none, some,
  List, [], ◌∷◌, Text, length, ◌==◌, if◌then◌else◌, if_keeps, if_cases, arith,
}
use relayswarm.Relay.Pool.Dialling.{
  Config, round, retry, Dial, Retry, Dialler, redial, is_round, dials_of, redial_all,
}
use relayswarm.Relay.Pool.Listeners.{is_open, rejected, with_head, take_dial, shut_late}
use relayswarm.Relay.Pool.Waiting.{
  Standing, awaited, IsAwaited, Kept, same-Kept, Kept-IsAwaited, redial-Kept, redial-more,
  redial_all-first,
}
use relayswarm.Relay.Pool.Waiting.Settled.{Others, Retried, settle-IsAwaited}

-- The dials without the one that was settled.
abbrev pub Taken : List Dial → Option (Dial × List Dial) → Type 0
Taken xs none = Unit
Taken xs (some (x, rest)) =
    (length xs ≡ length rest + 1)
    × ((id : ℕ)
        → dials_of id xs
          ≡ (if is_round id x.caller then dials_of id rest + 1 else dials_of id rest))

with_head-Taken :
    (x : Dial) (xs : List Dial) (o : Option (Dial × List Dial))
    → Taken xs o
    → Taken (x ∷ xs) (with_head x o)
unfolding dials_of
with_head-Taken x xs none t = tt
with_head-Taken x xs (some (y, ys)) t = (omega (arith, t.0), λ id. ground (arith, t.1 id))

pub take_dial-Taken : (s : ℕ) (xs : List Dial) → Taken xs (take_dial s xs)
unfolding take_dial dials_of
take_dial-Taken s [] = tt
take_dial-Taken s (x ∷ xs) =
    if_keeps (Taken (x ∷ xs)) (x.socket == s) (some (x, xs)) (with_head x (take_dial s xs))
      (omega arith, λ id. refl) (with_head-Taken x xs (take_dial s xs) (take_dial-Taken s xs))

pub dials_of-append :
    (id : ℕ) (xs ys : List Dial) → dials_of id (xs ++ ys) ≡ dials_of id xs + dials_of id ys
unfolding dials_of
dials_of-append id [] ys = omega arith
dials_of-append id (x ∷ xs) ys = ground (arith, dials_of-append id xs ys)

-- A call that is pending still waits for another call's dial, or its own, on a retry's failure.
pub apart_left :
    (b : Bool) (o : Option ℕ) (id : ℕ) (xs rest : List Dial) (rs : List Retry)
    → b ≡ false
    → 1 ≤ awaited b o xs rs
    → ((n : ℕ)
        → dials_of n xs ≡ (if is_round n (round id) then dials_of n rest + 1 else dials_of n rest))
    → Others o id rest
apart_left b none id xs rest rs e w t = tt
apart_left true (some n) id xs rest rs e w t = absurd (cc e)
apart_left false (some n) id xs rest rs e w t = λ h. ground (arith, w, t n, h)

is_open-none :
    (url : Text) (made : List (ℕ × Text)) (ss : List ℕ)
    → length ss ≡ 0
    → is_open url made ss ≡ false
is_open-none url made [] e = refl
is_open-none url made (s ∷ ss) e = absurd (omega (arith, e))

-- A retry's own dial is no call's.
pub retry_left :
    (o : Option ℕ) (k : ℕ) (xs rest : List Dial) (rs : List Retry)
    → 1 ≤ awaited false o xs rs
    → ((n : ℕ)
        → dials_of n xs ≡ (if is_round n (retry k) then dials_of n rest + 1 else dials_of n rest))
    → 1 ≤ awaited false o rest rs
retry_left none k xs rest rs w t = omega arith
retry_left (some n) k xs rest rs w t = omega (arith, w, t n)

module _ (c : Config) (d : Dialler) (v : IsAwaited c d) where
  pub late-IsAwaited : (s : ℕ) → IsAwaited c (shut_late s d)
  late-IsAwaited s =
      Kept-IsAwaited c d (shut_late s d)
        (record {
          pool = refl;
          dials = refl;
          connecting = refl;
          answers = refl;
          next_round = refl;
          retries = omega arith;
        })
        v

  again_after :
      (id : ℕ) (url : Text) (xs : List (ℕ × Text)) (e : Dialler)
      → e.pool ≡ d.pool
      → Retried d.connecting (redial_all c id ((id, url) ∷ xs) e).retries
  again_after id url xs e same = go d.connecting v.standing
    where
      go :
          (o : Option ℕ)
          → Standing c.reconnect o d.pool
          → Retried o (redial_all c id ((id, url) ∷ xs) e).retries
      go none s = tt
      go (some n) s = redial_all-first c id url xs e (ap (λ p. p.closed) same ∙ s.0)

  -- A dial of a call fails.
  pub round_fails-IsAwaited :
      (s id : ℕ) (x : Dial) (rest : List Dial)
      → x.caller ≡ round id
      → Taken d.dials (some (x, rest))
      → IsAwaited c (rejected c x.url (round id) (shut_late s (record d { dials = rest })))
  round_fails-IsAwaited s id x rest e t = settle-IsAwaited c id _ (record {
    idle = λ h. omega (arith, v.idle h, t.0);
    counted = v.counted;
    standing = v.standing;
    others = λ b. apart_left c.reconnect d.connecting id d.dials rest d.retries b v.waits (
        subst
          (λ k.
            (n : ℕ)
            → dials_of n d.dials ≡ (if is_round n k then dials_of n rest + 1 else dials_of n rest))
          e t.1);
    retried = λ b. again_after id x.url d.refusals _ refl;
  })

  -- A retry fails.
  pub retry_fails-IsAwaited :
      (s k : ℕ) (x : Dial) (rest : List Dial)
      → x.caller ≡ retry k
      → Taken d.dials (some (x, rest))
      → IsAwaited c (rejected c x.url (retry k) (shut_late s (record d { dials = rest })))
  retry_fails-IsAwaited s k x rest e t =
      if_cases (IsAwaited c) test again left
        (λ h.
          known again (redial-Kept c x.url (k + 1) left)
            (more c.reconnect d.connecting v.standing v.waits))
        (λ h. known left (same-Kept left) (less c.reconnect d.connecting h v.standing v.waits))
    where
      test : Bool
      test = d.pool.connected && not (is_open x.url d.made d.pool.sockets)

      left : Dialler
      left = shut_late s (record d { dials = rest })

      again : Dialler
      again = redial c x.url (k + 1) left

      of_retry :
          (n : ℕ)
          → dials_of n d.dials
            ≡ (if is_round n (retry k) then dials_of n rest + 1 else dials_of n rest)
      of_retry =
          subst
            (λ q.
              (n : ℕ)
              → dials_of n d.dials
                ≡ (if is_round n q then dials_of n rest + 1 else dials_of n rest))
            e t.1

      known :
          (f : Dialler)
          → Kept left f
          → 1 ≤ awaited c.reconnect d.connecting rest f.retries
          → IsAwaited c f
      known f k w = record {
        idle = rw (k.pool, k.dials) (λ h. omega (arith, v.idle h, t.0));
        counted = rw (k.answers, k.connecting, k.next_round) v.counted;
        standing = rw (k.connecting, k.pool) v.standing;
        waits = rw (k.connecting, k.dials) w;
      }

      more :
          (b : Bool) (o : Option ℕ)
          → Standing b o d.pool
          → 1 ≤ awaited b o d.dials d.retries
          → 1 ≤ awaited b o rest again.retries
      more b none s w = omega arith
      more false (some n) s w = retry_left (some n) k d.dials rest d.retries w of_retry
      more true (some n) s w = omega (arith, redial-more c x.url (k + 1) left s.0)

      less :
          (b : Bool) (o : Option ℕ)
          → test ≡ false
          → Standing b o d.pool
          → 1 ≤ awaited b o d.dials d.retries
          → 1 ≤ awaited b o rest d.retries
      less b none h s w = omega arith
      less false (some n) h s w = retry_left (some n) k d.dials rest d.retries w of_retry
      less true (some n) h s w =
          ground (arith, h, s, is_open-none x.url d.made d.pool.sockets (s.2 refl))

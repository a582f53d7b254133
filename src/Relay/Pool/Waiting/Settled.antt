-- ===== src/Relay/Pool/Waiting/Settled.antt =====
-- A dial of a call is settled (src/relay-session.mjs).
use relayswarm.Base.{
  ◌++◌, ℕ, ◌+◌, ◌≤◌, subst, ◌≡◌, refl, Bool, true, false, Option, none, some, List, [], ◌∷◌, length,
  ◌==◌, if◌then◌else◌, if_cases, arith,
}
use relayswarm.Relay.Pool.Dialling.{
  Config, Dial, Retry, Answer, Dialler, answered, dials_of, redial_all, same_round, outcome,
  round_settled, settle,
}
use relayswarm.Relay.Pool.Waiting.{
  times, Counted, Standing, awaited, dials_of-le, redial_all-Kept, IsAwaited,
}

times-append :
    (id : ℕ) (xs ys : List (ℕ × Answer)) → times id (xs ++ ys) ≡ times id xs + times id ys
unfolding times
times-append id [] ys = omega arith
times-append id ((n, a) ∷ xs) ys = ground (arith, times-append id xs ys)

-- A promise that is settled is pending no more.
pub answered-IsAwaited :
    (c : Config) (n : ℕ) (a : Answer) (d : Dialler)
    → (d.pool.connected ≡ false → length d.pool.sockets + length d.dials ≡ 0)
    → Counted d.answers (some n) d.next_round
    → IsAwaited c (answered (some n) a d)
unfolding times
answered-IsAwaited c n a d idle counted = record {
  idle = idle;
  counted = λ id. ground (arith, times-append id d.answers ((n, a) ∷ []), counted id);
  standing = tt;
  waits = omega arith;
}

-- A call other than this one has a dial of its own.
abbrev pub Others : Option ℕ → ℕ → List Dial → Type 0
Others none id ds = Unit
Others (some n) id ds = (n == id) ≡ false → 1 ≤ dials_of n ds

abbrev pub Retried : Option ℕ → List Retry → Type 0
Retried none rs = Unit
Retried (some n) rs = 1 ≤ length rs

-- What is known when a dial of a call has been settled.
pub record IsDue (c : Config) (id : ℕ) (d : Dialler) : Type 0 where
  pub idle : d.pool.connected ≡ false → length d.pool.sockets + length d.dials ≡ 0
  pub counted : Counted d.answers d.connecting d.next_round
  pub standing : Standing c.reconnect d.connecting d.pool
  pub others : c.reconnect ≡ false → Others d.connecting id d.dials
  pub retried : c.reconnect ≡ true → Retried d.connecting (redial_all c id d.refusals d).retries

==_eq : (n m : ℕ) → (n == m) ≡ true → n ≡ m
==_eq n m e = ground arith

apart_lem :
    (o : Option ℕ) (n id : ℕ) (ds : List Dial)
    → o ≡ some n
    → Others o id ds
    → (n == id) ≡ false
    → 1 ≤ dials_of n ds
apart_lem o n id ds e h = subst (λ x. Others x id ds) e h

again_awaited :
    (b : Bool) (o : Option ℕ) (ds : List Dial) (rs : List Retry)
    → b ≡ true
    → Retried o rs
    → 1 ≤ awaited b o ds rs
again_awaited b none ds rs e h = omega arith
again_awaited true (some n) ds rs e h = omega (arith, h)
again_awaited false (some n) ds rs e h = absurd (cc e)

apart_awaited :
    (b : Bool) (o : Option ℕ) (id : ℕ) (ds : List Dial) (rs : List Retry)
    → (dials_of id ds == 0) ≡ false
    → (b ≡ false → Others o id ds)
    → 1 ≤ awaited b o ds rs
apart_awaited b none id ds rs z h = omega arith
apart_awaited true (some n) id ds rs z h = ground (arith, dials_of-le id ds)
apart_awaited false (some n) id ds rs z h = go (n == id) refl
  where
    go : (x : Bool) → (n == id) ≡ x → 1 ≤ dials_of n ds
    go false e = h refl e
    go true e = rw (==_eq n id e) (ground arith)

retried-IsAwaited :
    (c : Config) (id : ℕ) (d : Dialler)
    → IsDue c id d
    → c.reconnect ≡ true
    → IsAwaited c (redial_all c id d.refusals d)
retried-IsAwaited c id d v b =
    let e = redial_all c id d.refusals d in
    let k = redial_all-Kept c id d.refusals d in
    record {
      idle = rw (k.pool, k.dials) v.idle;
      counted = rw (k.answers, k.connecting, k.next_round) v.counted;
      standing = rw (k.connecting, k.pool) v.standing;
      waits =
          rw k.connecting
            (again_awaited c.reconnect d.connecting e.dials e.retries b (v.retried b));
    }

finished-IsAwaited :
    (c : Config) (id : ℕ) (a : Answer) (d : Dialler)
    → IsDue c id d
    → c.reconnect ≡ false
    → IsAwaited c (answered (same_round d.connecting id) a d)
finished-IsAwaited c id a d v b = go d.connecting refl
  where
    unanswered : 1 ≤ awaited c.reconnect d.connecting d.dials d.retries → IsAwaited c d
    unanswered w = record { idle = v.idle; counted = v.counted; standing = v.standing; waits = w }

    each :
        (n : ℕ) (x : Bool)
        → (n == id) ≡ x
        → d.connecting ≡ some n
        → IsAwaited c (answered (if x then some n else none) a d)
    each n true e o =
        answered-IsAwaited c n a d v.idle
          (subst (λ q. Counted d.answers q d.next_round) o v.counted)
    each n false e o = unanswered (rw (o, b) (apart_lem d.connecting n id d.dials o (v.others b) e))

    go : (o : Option ℕ) → d.connecting ≡ o → IsAwaited c (answered (same_round o id) a d)
    go none o = unanswered (rw o (omega arith))
    go (some n) o = each n (n == id) refl o

pub settle-IsAwaited :
    (c : Config) (id : ℕ) (d : Dialler) → IsDue c id d → IsAwaited c (settle c id d)
unfolding settle
settle-IsAwaited c id d v =
    if_cases (IsAwaited c) (dials_of id d.dials == 0) (round_settled c id d) d
      (λ z.
        if_cases (IsAwaited c) c.reconnect (redial_all c id d.refusals d) _
          (retried-IsAwaited c id d v) (finished-IsAwaited c id (outcome c d) d v))
      (λ z. record {
        idle = v.idle;
        counted = v.counted;
        standing = v.standing;
        waits = apart_awaited c.reconnect d.connecting id d.dials d.retries z v.others;
      })

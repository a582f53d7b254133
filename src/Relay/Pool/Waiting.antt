-- ===== src/Relay/Pool/Waiting.antt =====
-- A pending `connect` waits for something that is still to come (src/relay-session.mjs).
pub mod Settled
pub mod Steps
pub mod Opening
pub mod Calls
pub mod Runs
use relayswarm.Base.{
  ltb, if◌then◌else◌, ℕ, ◌+◌, ◌≤◌, ◌∙◌, subst, length-append, ◌≡◌, refl, sym, ap, Bool, true, false,
  ◌&&◌, ◌||◌, not, Option, none, some, List, [], ◌∷◌, ◌++◌, Text, length, ◌==◌, ==_refl, ◌⊎◌, inl,
  inr, if◌then◌else◌, if_keeps, if_cases, arith,
}
use relayswarm.Relay.Pool.State.{Pool, shuts}
use relayswarm.Relay.Pool.Dialling.{
  Config, Caller, round, retry, Dial, Retry, Answer, Dialler, connect_one, connect_all, redial,
  new_retry, with_retry, answered, is_round, dials_of, redial_all, same_round, outcome,
  round_settled, settle,
}

-- How often the promise of a call has been settled.
unfoldable pub times : ℕ → List (ℕ × Answer) → ℕ
times id [] = 0
times id ((n, a) ∷ xs) = let rest = times id xs in if n == id then rest + 1 else rest

abbrev pub asked : Option ℕ → ℕ → ℕ
asked none id = 0
asked (some n) id = if n == id then 1 else 0

-- Every call that has dialled is pending or has been settled, once.
abbrev pub Counted : List (ℕ × Answer) → Option ℕ → ℕ → Type 0
Counted xs o next = (id : ℕ) → times id xs + asked o id ≡ (if ltb id next then 1 else 0)

-- The pool is open, and has no open socket if it reconnects.
abbrev pub Standing : Bool → Option ℕ → Pool → Type 0
Standing b none p = Unit
Standing b (some id) p =
    (p.closed ≡ false) × (p.connected ≡ true) × (b ≡ true → length p.sockets ≡ 0)

-- What may still settle the promise of a call.
abbrev pub awaited : Bool → Option ℕ → List Dial → List Retry → ℕ
awaited b none ds rs = 1
awaited true (some id) ds rs = length ds + length rs
awaited false (some id) ds rs = dials_of id ds

pub record IsAwaited (c : Config) (d : Dialler) : Type 0 where
  pub idle : d.pool.connected ≡ false → length d.pool.sockets + length d.dials ≡ 0
  pub counted : Counted d.answers d.connecting d.next_round
  pub standing : Standing c.reconnect d.connecting d.pool
  pub waits : 1 ≤ awaited c.reconnect d.connecting d.dials d.retries

pub dials_of-le : (id : ℕ) (xs : List Dial) → dials_of id xs ≤ length xs
unfolding dials_of
dials_of-le id [] = omega arith
dials_of-le id (x ∷ xs) = ground (arith, dials_of-le id xs)

-- More retries, and nothing else that matters.
pub record Kept (d e : Dialler) : Type 0 where
  pub pool : e.pool ≡ d.pool
  pub dials : e.dials ≡ d.dials
  pub connecting : e.connecting ≡ d.connecting
  pub answers : e.answers ≡ d.answers
  pub next_round : e.next_round ≡ d.next_round
  pub retries : length d.retries ≤ length e.retries

abbrev pub same-Kept : (d : Dialler) → Kept d d
same-Kept d = record {
  pool = refl;
  dials = refl;
  connecting = refl;
  answers = refl;
  next_round = refl;
  retries = omega arith;
}

Kept-trans : (d e f : Dialler) → Kept d e → Kept e f → Kept d f
Kept-trans d e f h k = record {
  pool = k.pool ∙ h.pool;
  dials = k.dials ∙ h.dials;
  connecting = k.connecting ∙ h.connecting;
  answers = k.answers ∙ h.answers;
  next_round = k.next_round ∙ h.next_round;
  retries = omega (arith, h.retries, k.retries);
}

awaited_more :
    (b : Bool) (o : Option ℕ) (ds : List Dial) (rs ss : List Retry)
    → length rs ≤ length ss
    → awaited b o ds rs ≤ awaited b o ds ss
awaited_more b none ds rs ss k = omega arith
awaited_more true (some id) ds rs ss k = omega (arith, k)
awaited_more false (some id) ds rs ss k = omega arith

pub Kept-IsAwaited : (c : Config) (d e : Dialler) → Kept d e → IsAwaited c d → IsAwaited c e
Kept-IsAwaited c d e k v = record {
  idle = rw (k.pool, k.dials) v.idle;
  counted = rw (k.answers, k.connecting, k.next_round) v.counted;
  standing = rw (k.connecting, k.pool) v.standing;
  waits =
      rw (k.connecting, k.dials)
        (omega (
          arith,
          v.waits,
          awaited_more c.reconnect d.connecting d.dials d.retries e.retries k.retries,
        ));
}

pub redial-Kept : (c : Config) (url : Text) (k : ℕ) (d : Dialler) → Kept d (redial c url k d)
unfolding redial
redial-Kept c url k d =
    if_keeps (Kept d) d.pool.closed d (with_retry c url k d) (same-Kept d) (record {
      pool = refl;
      dials = refl;
      connecting = refl;
      answers = refl;
      next_round = refl;
      retries = omega (arith, length-append d.retries (new_retry c url k d ∷ []));
    })

redial-more :
    (c : Config) (url : Text) (k : ℕ) (d : Dialler)
    → d.pool.closed ≡ false
    → 1 ≤ length (redial c url k d).retries
unfolding redial
redial-more c url k d h = rw h (omega (arith, length-append d.retries (new_retry c url k d ∷ [])))

pub redial_all-Kept :
    (c : Config) (id : ℕ) (xs : List (ℕ × Text)) (d : Dialler) → Kept d (redial_all c id xs d)
unfolding redial_all
redial_all-Kept c id [] d = same-Kept d
redial_all-Kept c id ((n, url) ∷ xs) d =
    let e = if◌then◌else◌ {A = Dialler} (n == id) (redial c url 1 d) d in
    Kept-trans d e _ (if_keeps (Kept d) (n == id) _ d (redial-Kept c url 1 d) (same-Kept d))
      (redial_all-Kept c id xs e)

pub redial_all-first :
    (c : Config) (id : ℕ) (url : Text) (xs : List (ℕ × Text)) (d : Dialler)
    → d.pool.closed ≡ false
    → 1 ≤ length (redial_all c id ((id, url) ∷ xs) d).retries
unfolding redial_all
redial_all-first c id url xs d h =
    let k = redial_all-Kept c id xs (redial c url 1 d) in
    if_cases (λ e. 1 ≤ length (redial_all c id xs e).retries) (id == id) (redial c url 1 d) d
      (λ e. omega (arith, redial-more c url 1 d h, k.retries)) (λ e. absurd (cc (==_refl id, e)))

-- ===== src/Relay/Session/Waits.antt =====
-- src/relay-session.mjs: `#wait`, of `waitForPresence` and `waitForSignal`, and the set of handlers in
-- which it stands; `onPresence`, `onSignal` and `onError` add and delete in the same way. A value is
-- handed to the handlers that are in the set; a call that comes after the end changes nothing.
use relayswarm.Base.{
  ℕ, ◌≡◌, refl, Bool, true, false, Option, none, some, List, [], ◌∷◌, ◌++◌, ==_refl, arith,
  if◌then◌else◌, if_cases,
}
use relayswarm.Relay.Pool.Calls.{added, is_there, without}

pub data Ended {ℓ} (V : Type ℓ) : Type ℓ where
  resolved : V → Ended V
  predicate_threw : Ended V
  wait_timed_out : Ended V

-- The handler is in the set, and the timer is set, until the promise is settled.
pub record Wait {ℓ} (V : Type ℓ) : Type ℓ where
  pub handler : ℕ
  pub handlers : List ℕ
  pub has_timer : Bool
  pub ended : Option (Ended V)

pub data WaitEvent {ℓ} (V : Type ℓ) : Type ℓ where
  hears : V → WaitEvent V
  expires : WaitEvent V

is_there-without : (h : ℕ) (hs : List ℕ) → is_there h (without h hs) ≡ false
is_there-without h [] = refl
is_there-without h (x ∷ hs) = ground (arith, is_there-without h hs)

is_there-added : (h : ℕ) (hs : List ℕ) → is_there h (added h hs) ≡ true
is_there-added h hs =
    if_cases (λ xs. is_there h xs ≡ true) (is_there h hs) hs (hs ++ (h ∷ [])) (λ t. t)
      (λ f. last hs)
  where
    last : (xs : List ℕ) → is_there h (xs ++ (h ∷ [])) ≡ true
    last [] = ground (arith, ==_refl h)
    last (x ∷ xs) = ground (arith, last xs)

module _ {ℓ} {V : Type ℓ} where
  abbrev pub new_wait : ℕ → List ℕ → Wait V
  new_wait h hs = record { handler = h; handlers = added h hs; has_timer = true; ended = none }

  abbrev pub end_wait : Ended V → Wait V → Wait V
  end_wait e w = record w {
    handlers = without w.handler w.handlers;
    has_timer = false;
    ended = some e;
  }

  -- `none` is a predicate that throws.
  abbrev pub judged : Option Bool → V → Wait V → Wait V
  judged none v w = end_wait predicate_threw w
  judged (some true) v w = end_wait (resolved v) w
  judged (some false) v w = w

  abbrev pub wait_step : (V → Option Bool) → WaitEvent V → Wait V → Wait V
  wait_step predicate (hears v) w =
      if is_there w.handler w.handlers then judged (predicate v) v w else w
  wait_step predicate expires w = if w.has_timer then end_wait wait_timed_out w else w

  unfoldable pub wait_run : (V → Option Bool) → List (WaitEvent V) → Wait V → Wait V
  wait_run predicate [] w = w
  wait_run predicate (e ∷ es) w = wait_run predicate es (wait_step predicate e w)

  -- What ends a wait: the first value that the predicate accepts or throws on, if the timer has not
  -- fired before.
  abbrev judgement : Option Bool → V → Option (Ended V) → Option (Ended V)
  judgement none v rest = some predicate_threw
  judgement (some true) v rest = some (resolved v)
  judgement (some false) v rest = rest

  unfoldable pub first_end : (V → Option Bool) → List (WaitEvent V) → Option (Ended V)
  first_end predicate [] = none
  first_end predicate (hears v ∷ es) = judgement (predicate v) v (first_end predicate es)
  first_end predicate (expires ∷ es) = some wait_timed_out

  abbrev pub after : ℕ → List ℕ → Option (Ended V) → Wait V
  after h hs none = record { handler = h; handlers = hs; has_timer = true; ended = none }
  after h hs (some e) = record {
    handler = h;
    handlers = without h hs;
    has_timer = false;
    ended = some e;
  }

  -- Once it has ended nothing changes.
  run_ended :
      (predicate : V → Option Bool) (es : List (WaitEvent V)) (h : ℕ) (hs : List ℕ) (e : Ended V)
      → wait_run predicate es (after h hs (some e)) ≡ after h hs (some e)
  unfolding wait_run
  run_ended predicate [] h hs e = refl
  run_ended predicate (hears v ∷ es) h hs e =
      rw (is_there-without h hs) (run_ended predicate es h hs e)
  run_ended predicate (expires ∷ es) h hs e = run_ended predicate es h hs e

  run_waiting :
      (predicate : V → Option Bool) (es : List (WaitEvent V)) (h : ℕ) (hs : List ℕ)
      → is_there h hs ≡ true
      → wait_run predicate es (after h hs none) ≡ after h hs (first_end predicate es)
  unfolding wait_run first_end
  run_waiting predicate [] h hs t = refl
  run_waiting predicate (hears v ∷ es) h hs t =
      rw t (go (predicate v) (run_waiting predicate es h hs t))
    where
      go :
          (o : Option Bool)
          → wait_run predicate es (after h hs none) ≡ after h hs (first_end predicate es)
          → wait_run predicate es (judged o v (after h hs none))
            ≡ after h hs (judgement o v (first_end predicate es))
      go none r = run_ended predicate es h hs predicate_threw
      go (some true) r = run_ended predicate es h hs (resolved v)
      go (some false) r = r
  run_waiting predicate (expires ∷ es) h hs t = run_ended predicate es h hs wait_timed_out

  -- A wait settles with the first value that its predicate accepts or throws on, or by its timer if
  -- that fires first, and with nothing later; its handler is in the set until then, and not after.
  pub wait_run-new_wait :
      (predicate : V → Option Bool) (es : List (WaitEvent V)) (h : ℕ) (hs : List ℕ)
      → wait_run predicate es (new_wait h hs) ≡ after h (added h hs) (first_end predicate es)
  wait_run-new_wait predicate es h hs =
      run_waiting predicate es h (added h hs) (is_there-added h hs)

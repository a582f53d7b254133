-- ===== src/Bounded/Promise.antt =====
-- src/browser/bounded-operation.mjs: `boundedOperation`. The operation's value and its error are
-- numbers that stand for them.
use relayswarm.Base.{ℕ, Bool, true, false, Option, none, some, List, [], ◌∷◌, if◌then◌else◌}

pub data Outcome : Type 0 where
  resolved : ℕ → Outcome
  rejected : ℕ → Outcome
  cancelled : Outcome
  timed_out : Outcome

-- What happens to the promise: its first turn, the end of the operation, the caller's signal, the timer.
pub data Happening : Type 0 where
  begins : Happening
  returns : ℕ → Happening
  throws : ℕ → Happening
  aborts : Happening
  expires : Happening

-- `has_timer` and `is_listening` are the timer and the listener that are still there, `is_aborted` the
-- signal that the operation was given.
pub record Bounded : Type 0 where
  pub settled : Option Outcome
  pub has_timer : Bool
  pub is_listening : Bool
  pub is_aborted : Bool
  pub has_begun : Bool

abbrev pub finished : Outcome → Bool → Bounded → Bounded
finished o abort b = record b {
  settled = some o;
  has_timer = false;
  is_listening = false;
  is_aborted = abort;
}

abbrev finish_at : Option Outcome → Outcome → Bool → Bounded → Bounded
finish_at none o abort b = finished o abort b
finish_at (some first) o abort b = b

abbrev pub finish : Outcome → Bool → Bounded → Bounded
finish o abort b = finish_at b.settled o abort b

-- The operation is called only where nothing has settled the promise.
abbrev pub begin_at : Option Outcome → Bounded → Bounded
begin_at none b = record b { has_begun = true }
begin_at (some o) b = b

-- A value or an error is the operation's, once it has been called.
abbrev pub step : Happening → Bounded → Bounded
step begins b = begin_at b.settled b
step (returns v) b = if b.has_begun then finish (resolved v) false b else b
step (throws e) b = if b.has_begun then finish (rejected e) false b else b
step aborts b = if b.is_listening then finish cancelled true b else b
step expires b = if b.has_timer then finish timed_out true b else b

unfoldable pub run : List Happening → Bounded → Bounded
run [] b = b
run (h ∷ hs) b = run hs (step h b)

abbrev pub waiting : Bool → Bounded
waiting has_signal = record {
  settled = none;
  has_timer = true;
  is_listening = has_signal;
  is_aborted = false;
  has_begun = false;
}

-- `signal`, where there is one, and whether it is aborted.
abbrev pub bounded_operation : Option Bool → Bounded
bounded_operation none = waiting false
bounded_operation (some false) = waiting true
bounded_operation (some true) =
    finished cancelled true (record (waiting false) { has_timer = false })

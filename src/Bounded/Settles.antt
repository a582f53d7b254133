-- ===== src/Bounded/Settles.antt =====
-- How a bounded operation settles (src/browser/bounded-operation.mjs).
use relayswarm.Base.{◌≡◌, ◌≢◌, refl, Bool, true, false, Option, none, some, List, [], ◌∷◌}
use relayswarm.Bounded.Promise.{
  Outcome, resolved, rejected, cancelled, timed_out, Happening, begins, returns, throws, aborts,
  expires, Bounded, run, bounded_operation,
}

-- The first happening that counts: an end of the operation after its first turn, the signal where
-- there is one, or the timer.
abbrev pub first : Bool → Bool → List Happening → Option Outcome
first begun signal [] = none
first begun signal (begins ∷ hs) = first true signal hs
first true signal (returns v ∷ hs) = some (resolved v)
first false signal (returns v ∷ hs) = first false signal hs
first true signal (throws e ∷ hs) = some (rejected e)
first false signal (throws e ∷ hs) = first false signal hs
first begun true (aborts ∷ hs) = some cancelled
first begun false (aborts ∷ hs) = first begun false hs
first begun signal (expires ∷ hs) = some timed_out

-- Whether the operation's own signal is aborted.
abbrev pub gives_up : Option Outcome → Bool
gives_up none = false
gives_up (some (resolved v)) = false
gives_up (some (rejected e)) = false
gives_up (some cancelled) = true
gives_up (some timed_out) = true

abbrev open_at : Bool → Bool → Bounded
open_at begun signal = record {
  settled = none;
  has_timer = true;
  is_listening = signal;
  is_aborted = false;
  has_begun = begun;
}

abbrev closed_with : Outcome → Bool → Bool → Bounded
closed_with o abort begun = record {
  settled = some o;
  has_timer = false;
  is_listening = false;
  is_aborted = abort;
  has_begun = begun;
}

-- A promise that has settled stays as it is.
run-closed_with :
    (hs : List Happening) (o : Outcome) (abort begun : Bool)
    → run hs (closed_with o abort begun) ≡ closed_with o abort begun
unfolding run
run-closed_with [] o abort begun = refl
run-closed_with (begins ∷ hs) o abort begun = run-closed_with hs o abort begun
run-closed_with (returns v ∷ hs) o abort true = run-closed_with hs o abort true
run-closed_with (returns v ∷ hs) o abort false = run-closed_with hs o abort false
run-closed_with (throws e ∷ hs) o abort true = run-closed_with hs o abort true
run-closed_with (throws e ∷ hs) o abort false = run-closed_with hs o abort false
run-closed_with (aborts ∷ hs) o abort begun = run-closed_with hs o abort begun
run-closed_with (expires ∷ hs) o abort begun = run-closed_with hs o abort begun

abbrev pub Settles : Option Outcome → Bounded → Type 0
Settles o b =
    (b.settled ≡ o)
    × (b.is_aborted ≡ gives_up o)
    × (o ≢ none → (b.has_timer ≡ false) × (b.is_listening ≡ false))

closed-Settles :
    (hs : List Happening) (o : Outcome) (begun : Bool)
    → Settles (some o) (run hs (closed_with o (gives_up (some o)) begun))
closed-Settles hs o begun =
    rw (run-closed_with hs o (gives_up (some o)) begun) (refl, refl, λ n. (refl, refl))

run-Settles :
    (hs : List Happening) (begun signal : Bool)
    → Settles (first begun signal hs) (run hs (open_at begun signal))
unfolding run
run-Settles [] begun signal = (refl, refl, λ n. absurd (n refl))
run-Settles (begins ∷ hs) begun signal = run-Settles hs true signal
run-Settles (returns v ∷ hs) true signal = closed-Settles hs (resolved v) true
run-Settles (returns v ∷ hs) false signal = run-Settles hs false signal
run-Settles (throws e ∷ hs) true signal = closed-Settles hs (rejected e) true
run-Settles (throws e ∷ hs) false signal = run-Settles hs false signal
run-Settles (aborts ∷ hs) begun true = closed-Settles hs cancelled begun
run-Settles (aborts ∷ hs) begun false = run-Settles hs begun false
run-Settles (expires ∷ hs) begun signal = closed-Settles hs timed_out begun

-- How the promise is to settle: at once where the caller's signal is aborted already.
abbrev pub expected : Option Bool → List Happening → Option Outcome
expected none hs = first false false hs
expected (some false) hs = first false true hs
expected (some true) hs = some cancelled

-- In any history, the promise settles at once where the caller's signal is aborted already, and else
-- with the first of: an end of the operation once it has been called, the abort of the caller's
-- signal where there is one, the timer. So it has settled once the timer has fired, and never
-- changes. The operation's own signal is aborted just when the caller's signal or the timer came
-- first, and a settled promise leaves neither timer nor listener.
pub bounded_operation-Settles :
    (signal : Option Bool) (happenings : List Happening)
    → Settles (expected signal happenings) (run happenings (bounded_operation signal))
bounded_operation-Settles none hs = run-Settles hs false false
bounded_operation-Settles (some false) hs = run-Settles hs false true
bounded_operation-Settles (some true) hs = closed-Settles hs cancelled false

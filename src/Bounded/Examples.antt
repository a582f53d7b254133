-- ===== src/Bounded/Examples.antt =====
-- The theorem on src/browser/bounded-operation.mjs at concrete inputs, and a test.
use relayswarm.Base.{◌≡◌, refl, true, false, some, List, [], ◌∷◌}
use relayswarm.Bounded.Promise.{
  cancelled, timed_out, Happening, begins, returns, expires, run, bounded_operation,
}
use relayswarm.Bounded.Settles.{Settles, bounded_operation-Settles}

abbrev late : List Happening
late = begins ∷ expires ∷ returns 5 ∷ []

is_late : (run late (bounded_operation (some false))).settled ≡ some timed_out
unfolding run
is_late = refl

is_cancelled : (run late (bounded_operation (some true))).settled ≡ some cancelled
unfolding run
is_cancelled = refl

bounded_operation-Settles_example :
    Settles (some timed_out) (run late (bounded_operation (some false)))
bounded_operation-Settles_example = bounded_operation-Settles (some false) late

-- ===== src/Pacing/Examples.antt =====
-- The theorem on src/browser/upload-pacing.mjs at concrete inputs, and a test.
use relayswarm.Base.{ℕ, ◌-◌, ◌≡◌, refl, true, none, some, List, [], ◌∷◌, leb, if◌then◌else◌}
use relayswarm.Pacing.Pacer.{
  Geometry, takes, grants, answers_null, spends, refused, cancelled, Bucket, new_pacer, pump_rows,
  pump, acquire, finish_rows, finish, cancel_queued, cancel_reserved, cancel_all, cancel,
}
use relayswarm.Pacing.Balance.{IsBalanced}
use relayswarm.Pacing.Calls.{Call, acquires, finishes, cancels, run, run-IsBalanced}

-- A bucket of so many bytes, which never refills by itself.
abbrev bucket : Bucket ℕ
bucket = record {
  take = λ n b. if leb n b then some (b - n) else none;
  give = λ n b. b;
  delay = λ n b. if leb n b then 0 else 40;
  is_wanted = λ row. true;
  max_waiters = 2;
}

abbrev piece : ℕ → Geometry
piece charge = record { key = []; size = 1000; charge = charge; range = some (0, charge) }

abbrev calls : List Call
calls =
    acquires 0 1 (piece 60)
    ∷ acquires 10 2 (piece 60)
    ∷ acquires 20 2 (piece 10)
    ∷ finishes 0 true
    ∷ cancels 30 (some 2)
    ∷ []

-- The last thing done stands first.
answers_in_turn :
    (run bucket calls (new_pacer 100)).effects
    ≡ answers_null 1 cancelled ∷ spends 60 ∷ answers_null 2 refused ∷ grants 0 ∷ takes 60 ∷ []
unfolding run acquire pump pump_rows finish finish_rows cancel cancel_all cancel_queued
    cancel_reserved
answers_in_turn = refl

run-IsBalanced_example : IsBalanced bucket (run bucket calls (new_pacer 100))
run-IsBalanced_example = run-IsBalanced bucket 100 calls

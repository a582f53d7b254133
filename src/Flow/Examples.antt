-- ===== src/Flow/Examples.antt =====
-- The theorem on src/browser/verified-piece-flow.mjs at concrete inputs, and a test.
use relayswarm.Base.{◌≡◌, refl, some, none, List, [], ◌∷◌}
use relayswarm.Flow.Batch.{record_piece, flush}
use relayswarm.Flow.Rates.{Call, records, flushes, discards, run, new_log}

abbrev calls : List Call
calls =
    records (some 20000) (some 100) (some 350)
    ∷ records (some 20000) (some 90) (some 500)
    ∷ records (some 40000) (some 400) (some 550)
    ∷ records (some 40000) (some 600) (some 700)
    ∷ flushes (some 1000)
    ∷ discards none
    ∷ []

-- A piece that starts before the end of the last batch is dropped.
two_samples :
    (run calls new_log).samples
    ≡ record { bytes = 40000; flow_ms = 400 } ∷ record { bytes = 40000; flow_ms = 410 } ∷ []
unfolding run record_piece flush
two_samples = refl

-- ===== src/Flow/Rates.antt =====
-- What the samples of a transfer add up to (src/browser/verified-piece-flow.mjs).
use relayswarm.Base.{ℕ, ◌+◌, ◌≤◌, Option, none, some, List, [], ◌∷◌}
use relayswarm.Flow.Batch.{
  min_bytes, min_ms, Flow, Sample, Noted, new_flow, ended, record_piece, flush,
}

pub data Call : Type 0 where
  records : Option ℕ → Option ℕ → Option ℕ → Call
  flushes : Option ℕ → Call
  discards : Option ℕ → Call

abbrev pub call : Call → Flow → Noted
call (records fresh start at) = record_piece fresh start at
call (flushes at) = flush at
call (discards at) = ended at

-- The flow, and the samples so far, the last one first.
pub record Log : Type 0 where
  pub flow : Flow
  pub samples : List Sample

abbrev with_sample : Option Sample → List Sample → List Sample
with_sample none l = l
with_sample (some s) l = s ∷ l

abbrev pub logged : Noted → List Sample → Log
logged n l = record { flow = n.flow; samples = with_sample n.sample l }

unfoldable pub run : List Call → Log → Log
run [] l = l
run (c ∷ cs) l = run cs (logged (call c l.flow) l.samples)

abbrev pub total_ms : List Sample → ℕ
total_ms [] = 0
total_ms (s ∷ l) = s.flow_ms + total_ms l

abbrev pub total_bytes : List Sample → ℕ
total_bytes [] = 0
total_bytes (s ∷ l) = s.bytes + total_bytes l

-- The bytes that a call reports as verified.
abbrev pub fresh_of : Call → ℕ
fresh_of (records (some n) start at) = n
fresh_of _ = 0

abbrev pub fresh_total : List Call → ℕ
fresh_total [] = 0
fresh_total (c ∷ cs) = fresh_of c + fresh_total cs

abbrev pub AllFloors : List Sample → Type 0
AllFloors [] = Unit {0}
AllFloors (s ∷ l) = ((min_bytes ≤ s.bytes) × (min_ms ≤ s.flow_ms)) × AllFloors l

abbrev pub StartsAfter : ℕ → Option ℕ → Type 0
StartsAfter n none = Unit {0}
StartsAfter n (some s) = n ≤ s

abbrev pub IsFair : ℕ → Log → Type 0
IsFair fresh l =
    (total_ms l.samples ≤ l.flow.after_at)
    × (total_bytes l.samples + l.flow.bytes ≤ fresh)
    × StartsAfter l.flow.after_at l.flow.start_at
    × AllFloors l.samples

abbrev pub new_log : Log
new_log = record { flow = new_flow; samples = [] }

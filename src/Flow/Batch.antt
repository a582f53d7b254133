-- ===== src/Flow/Batch.antt =====
-- src/browser/verified-piece-flow.mjs: `VerifiedPieceFlow`. Times are whole milliseconds; `none` is a
-- number that is not finite, or is negative, which the code refuses in the same way, and a count of
-- bytes that is no safe integer of 0 or more. `after_at` is 0 for minus infinity: no start is lower.
use relayswarm.Base.{
  ℕ, ◌+◌, ◌-◌, Bool, ◌&&◌, not, Option, none, some, leb, ◌==◌, min, max, if◌then◌else◌,
}

abbrev pub min_bytes : ℕ
min_bytes = 32768

abbrev pub min_ms : ℕ
min_ms = 300

abbrev pub max_safe : ℕ
max_safe = 9007199254740991

pub record Flow : Type 0 where
  pub bytes : ℕ
  pub start_at : Option ℕ
  pub after_at : ℕ

pub record Sample : Type 0 where
  pub bytes : ℕ
  pub flow_ms : ℕ

pub record Noted : Type 0 where
  pub flow : Flow
  pub sample : Option Sample

abbrev pub new_flow : Flow
new_flow = record { bytes = 0; start_at = none; after_at = 0 }

abbrev pub later : Option ℕ → ℕ → ℕ
later none n = n
later (some t) n = max n t

abbrev pub discard : Option ℕ → Flow → Flow
discard at f = record { bytes = 0; start_at = none; after_at = later at f.after_at }

abbrev pub ended : Option ℕ → Flow → Noted
ended at f = record { flow = discard at f; sample = none }

abbrev pub earliest : ℕ → Option ℕ → ℕ
earliest start none = start
earliest start (some s) = min s start

abbrev pub is_sample : ℕ → ℕ → Bool
is_sample flow_ms bytes = leb min_ms flow_ms && leb min_bytes bytes

abbrev pub noted_from : ℕ → ℕ → ℕ → Flow → Noted
noted_from start bytes end f =
    if is_sample (end - start) bytes
    then record {
      flow = discard (some end) f;
      sample = some (record { bytes = bytes; flow_ms = end - start });
    }
    else record { flow = record f { bytes = bytes; start_at = some start }; sample = none }

abbrev pub record_between : ℕ → ℕ → ℕ → Flow → Noted
record_between fresh start end f =
    if leb (f.bytes + fresh) max_safe && leb start end && leb f.after_at start
    then noted_from (earliest start f.start_at) (f.bytes + fresh) end f
    else ended (some end) f

abbrev pub record_from : ℕ → Option ℕ → Option ℕ → Flow → Noted
record_from fresh (some start) (some end) f = record_between fresh start end f
record_from fresh _ at f = ended at f

abbrev record_some : ℕ → Option ℕ → Option ℕ → Flow → Noted
record_some fresh start at f =
    if fresh == 0 then record { flow = f; sample = none } else record_from fresh start at f

-- `record`.
unfoldable pub record_piece : Option ℕ → Option ℕ → Option ℕ → Flow → Noted
record_piece none start at f = ended at f
record_piece (some fresh) start at f = record_some fresh start at f

abbrev pub sampled : ℕ → ℕ → ℕ → Option Sample
sampled bytes start end =
    if not (bytes == 0) && leb start end && is_sample (end - start) bytes
    then some (record { bytes = bytes; flow_ms = end - start })
    else none

abbrev pub flushed : ℕ → Option ℕ → Option ℕ → Option Sample
flushed bytes (some start) (some end) = sampled bytes start end
flushed bytes _ _ = none

unfoldable pub flush : Option ℕ → Flow → Noted
flush at f = record { flow = discard at f; sample = flushed f.bytes f.start_at at }

-- ===== src/Transfer/Decode.antt =====
-- `decodeFrames` of src/object-transfer.mjs: frames out of a stream of chunks.
pub mod Laws
pub mod Chunks
pub mod RoundTrip
use relayswarm.Base.{
  ℕ, zero, suc, ◌+◌, ◌≡◌, refl, ap, Option, none, some, List, [], ◌∷◌, ◌++◌, arith, length,
}
use relayswarm.Transfer.Frame.{
  Bytes, Frame, TransferError, truncated, Front, more, bad, whole, next_frame,
}

-- The inner loop has yielded these frames, and waits with the bytes left or has thrown.
pub data Drained : Type 0 where
  waiting : List Frame → Bytes → Drained
  failed : List Frame → TransferError → Drained

abbrev pub yield_frame : Frame → Drained → Drained
yield_frame f (waiting fs rest) = waiting (f ∷ fs) rest
yield_frame f (failed fs e) = failed (f ∷ fs) e

-- Each round takes a whole frame off the front, so the bytes pending are fuel enough.
unfoldable pub drain_with : ℕ → Bytes → Drained
drain_with zero pending = waiting [] pending
drain_with (suc fuel) pending = elim (next_frame pending) [
  | more needed ↦ waiting [] pending
  | bad e ↦ failed [] e
  | whole kind payload rest ↦
      yield_frame (record { kind = kind; payload = payload }) (drain_with fuel rest)
]

unfoldable pub drain : Bytes → Drained
drain pending = drain_with (length pending) pending

-- What a consumer of the generator sees: the frames, and the error that ended it if one did.
pub record Decoded : Type 0 where
  pub frames : List Frame
  pub error : Option TransferError

abbrev pub yielded : List Frame → Decoded → Decoded
yielded fs d = record d { frames = fs ++ d.frames }

abbrev at_end : Bytes → Option TransferError
at_end [] = none
at_end (_ ∷ _) = some truncated

unfoldable pub decode_from : Bytes → List Bytes → Decoded
unfolding drain
decode_from pending [] = record { frames = []; error = at_end pending }
decode_from pending (chunk ∷ chunks) = elim (drain (pending ++ chunk)) [
  | waiting fs rest ↦ yielded fs (decode_from rest chunks)
  | failed fs e ↦ record { frames = fs; error = some e }
]

unfoldable pub decode_frames : List Bytes → Decoded
unfolding decode_from
decode_frames chunks = decode_from [] chunks

-- ===== src/Transfer/Serve.antt =====
-- src/object-transfer.mjs, `readFirstFrame`, `serveAuthorizedObject` and `requestObject`: the
-- serving side of a transfer, and the request. The stream accepts what is written to it until it is
-- destroyed.
pub mod Pieces
pub mod Delivery
pub mod Guards
use relayswarm.Base.{
  ℕ, zero, suc, ◌||◌, not, Option, none, some, List, [], ◌∷◌, ◌++◌, length, take, drop, map, ◌==◌,
  if◌then◌else◌, text_eq,
}
use relayswarm.Transfer.Frame.{
  Bytes, Frame, TransferError, Encoded, ok, err, Front, more, bad, whole, next_frame, encode_frame,
  max_frame_bytes, frame_request, frame_meta, frame_chunk, frame_eof, frame_error,
}
use relayswarm.Transfer.Identity.{
  Identity, Claims, Runtime, valid_identity, claims_of, is_text, is_size,
}
use relayswarm.Transfer.Receive.{Event, data_arrived, errored, ended, closed}

pub data ServeError : Type 0 where
  bad_frame : TransferError → ServeError
  bad_identity not_one_request not_an_object mismatched : ServeError
  unresolved wrong_object stream_error closed_early : ServeError

-- `readFirstFrame`: the promise is pending with these bytes, resolved or rejected. A rejection
-- destroys the stream.
pub data FirstRead : Type 0 where
  reading : Bytes → FirstRead
  got : ℕ → Bytes → FirstRead
  refused : ServeError → FirstRead

abbrev pub judge : Bytes → Front → FirstRead
judge pending (more n) = reading pending
judge pending (bad e) = refused (bad_frame e)
judge pending (whole kind payload rest) =
    if not (length rest == 0) then refused not_one_request else got kind payload

unfoldable pub on_first : FirstRead → Event → FirstRead
on_first (reading pending) (data_arrived chunk) =
    judge (pending ++ chunk) (next_frame (pending ++ chunk))
on_first (reading pending) errored = refused stream_error
on_first (reading pending) ended = refused closed_early
on_first (reading pending) closed = refused closed_early
on_first settled e = settled

unfoldable pub read_first : FirstRead → List Event → FirstRead
read_first s [] = s
read_first s (e ∷ es) = read_first (on_first s e) es

-- The loop `for (offset = 0; offset < length; offset += MAX_FRAME_BYTES)`.
unfoldable pub object_chunks_with : ℕ → Bytes → List Bytes
object_chunks_with zero bytes = []
object_chunks_with (suc fuel) [] = []
object_chunks_with (suc fuel) (x ∷ bytes) =
    take max_frame_bytes (x ∷ bytes) ∷ object_chunks_with fuel (drop max_frame_bytes (x ∷ bytes))

unfoldable pub object_chunks : Bytes → List Bytes
object_chunks bytes = object_chunks_with (length bytes) bytes

-- Frames written one after the other, up to one that `encodeFrame` refuses.
pub data Sent : Type 0 where
  sent : Bytes → Sent
  stopped : Bytes → TransferError → Sent

abbrev pub and_then : Bytes → Sent → Sent
and_then a (sent b) = sent (a ++ b)
and_then a (stopped b e) = stopped (a ++ b) e

abbrev pub send_one : Encoded → Sent → Sent
send_one (ok a) rest = and_then a rest
send_one (err e) rest = stopped [] e

unfoldable pub send : List Frame → Sent
send [] = sent []
send (f ∷ fs) = send_one (encode_frame f.kind f.payload) (send fs)

-- What the serving side wrote, and how its promise stands.
pub data Outcome : Type 0 where
  pending : Outcome
  served : Outcome
  failed : ServeError → Outcome

pub record Served : Type 0 where
  pub written : Bytes
  pub outcome : Outcome

abbrev pub metadata_of : Identity → Claims
metadata_of i = record { request_id = none; sha256 = some i.sha256; size = some i.size }

abbrev pub frame : ℕ → Bytes → Frame
frame kind payload = record { kind = kind; payload = payload }

-- META, the pieces and EOF.
unfoldable pub object_frames : Runtime → Identity → Bytes → List Frame
object_frames rt auth bytes =
    frame frame_meta (rt.stringify (metadata_of auth))
    ∷ (map (frame frame_chunk) (object_chunks bytes) ++ frame frame_eof [] ∷ [])

-- `rejection` is JSON.stringify({ code: "TRANSFER_REJECTED" }), `resolve` the host's resolver: `none`
-- where it throws.
module _ (rt : Runtime) (rejection : Bytes) (resolve : Identity → Option Bytes)
    (max_object_bytes : ℕ) where
  -- The `catch`, on a stream that is not destroyed: an ERROR frame, then the error again.
  abbrev reject : Bytes → ServeError → Served
  reject written e = elim (encode_frame frame_error rejection) [
    | ok wire ↦ record { written = written ++ wire; outcome = failed e }
    | err _ ↦ record { written = written; outcome = failed e }
  ]

  abbrev finish : Sent → Served
  finish (sent wire) = record { written = wire; outcome = served }
  finish (stopped wire e) = reject wire (bad_frame e)

  abbrev serve_object : Identity → Option Bytes → Served
  serve_object auth none = reject [] unresolved
  serve_object auth (some bytes) =
      if not (length bytes == auth.size) || not (text_eq (rt.sha256_hex bytes) auth.sha256)
      then reject [] wrong_object
      else finish (send (object_frames rt auth bytes))

  abbrev serve_request : Identity → Option Claims → Served
  serve_request auth none = reject [] not_an_object
  serve_request auth (some c) =
      if not (valid_identity c max_object_bytes)
      then reject [] bad_identity
      else if not (is_text c.request_id auth.request_id)
          || not (is_text c.sha256 auth.sha256)
          || not (is_size c.size auth.size)
      then reject [] mismatched
      else serve_object auth (resolve auth)

  abbrev serve_first : Identity → FirstRead → Served
  serve_first auth (reading bytes) = record { written = []; outcome = pending }
  serve_first auth (refused e) = record { written = []; outcome = failed e }
  serve_first auth (got kind payload) =
      if not (kind == frame_request)
      then reject [] not_one_request
      else serve_request auth (rt.parse payload)

  unfoldable pub serve_authorized_object : Identity → List Event → Served
  serve_authorized_object auth events =
      if not (valid_identity (claims_of auth) max_object_bytes)
      then record { written = []; outcome = failed bad_identity }
      else serve_first auth (read_first (reading []) events)

-- What `requestObject` writes before it waits for the answer.
unfoldable pub request_object : Runtime → ℕ → Identity → Option Encoded
request_object rt max_object_bytes expected =
    if valid_identity (claims_of expected) max_object_bytes
    then some (encode_frame frame_request (rt.stringify (claims_of expected)))
    else none

-- ===== src/Transfer/Receive.antt =====
-- src/object-transfer.mjs, `receiveObject`: the requesting side of a transfer.
pub mod Loop
pub mod Safety
pub mod Buffer
pub mod Chunks
use relayswarm.Base.{
  ℕ, zero, suc, ◌+◌, ◌-◌, ◌*◌, ◌/◌, max, Bool, true, false, ◌||◌, not, Option, none, some, List, [],
  ◌∷◌, ◌++◌, length, ltb, leb, ◌==◌, if◌then◌else◌, text_eq, flatten,
}
use relayswarm.Transfer.Frame.{
  Bytes, TransferError, more, bad, whole, next_frame, header_bytes, max_frame_bytes, frame_meta,
  frame_chunk, frame_eof, frame_error,
}
use relayswarm.Transfer.Identity.{Identity, Claims, Runtime, is_text, is_size}

pub data ReceiveError : Type 0 where
  bad_frame : TransferError → ReceiveError
  peer_rejected unexpected_metadata not_an_object wrong_metadata : ReceiveError
  bytes_before_metadata chunk_budget too_many_bytes : ReceiveError
  incomplete data_after_end wrong_digest unexpected_frame : ReceiveError
  stream_error closed_early connection_closed : ReceiveError

-- `object` holds the bytes written to the buffer so far, `hashed` those the hash was updated with.
pub record Progress : Type 0 where
  pub metadata_seen : Bool
  pub received_bytes : ℕ
  pub chunk_count : ℕ
  pub object : Bytes
  pub hashed : Bytes

pub record Receiver : Type 0 where
  pub progress : Progress
  pub parts : List Bytes
  pub part_bytes : ℕ
  pub needed : ℕ

unfoldable pub max_chunks : ℕ → ℕ
max_chunks size = max 1 ((size + (max_frame_bytes - 1)) / max_frame_bytes * 4)

abbrev pub start : Progress
start = record {
  metadata_seen = false;
  received_bytes = 0;
  chunk_count = 0;
  object = [];
  hashed = [];
}

abbrev pub new_receiver : Receiver
new_receiver = record { progress = start; parts = []; part_bytes = 0; needed = header_bytes }

-- One frame: the loop goes on, the promise resolves with the object, or the handler throws.
pub data Handled : Type 0 where
  continues : Progress → Handled
  done : Bytes → Handled
  throws : ReceiveError → Handled

-- The loop over the pending bytes: it waits for a number of bytes with those left over.
pub data Looped : Type 0 where
  waits : Progress → Bytes → ℕ → Looped
  finished : Bytes → Looped
  fails : ReceiveError → Looped

pub data Status : Type 0 where
  running : Receiver → Status
  resolved : Bytes → Status
  rejected : ReceiveError → Status

abbrev pub as_parts : Bytes → List Bytes
as_parts [] = []
as_parts (x ∷ xs) = (x ∷ xs) ∷ []

abbrev pub settle : Looped → Status
settle (waits p rest needed) =
    running
      (record { progress = p; parts = as_parts rest; part_bytes = length rest; needed = needed })
settle (finished object) = resolved object
settle (fails e) = rejected e

pub data Event : Type 0 where
  data_arrived : Bytes → Event
  errored ended closed : Event

abbrev pub after_frame : Handled → (Progress → Looped) → Looped
after_frame (continues p) next = next p
after_frame (done object) next = finished object
after_frame (throws e) next = fails e

module _ (rt : Runtime) (expected : Identity) (max_object_bytes : ℕ) where
  abbrev on_metadata : Option Claims → Progress → Handled
  on_metadata none p = throws not_an_object
  on_metadata (some c) p =
      if not (is_text c.sha256 expected.sha256) || not (is_size c.size expected.size)
      then throws wrong_metadata
      else continues (record p { metadata_seen = true })

  unfoldable pub on_frame : Progress → ℕ → Bytes → Bytes → Handled
  on_frame p kind payload pending =
      if kind == frame_error
      then throws peer_rejected
      else if kind == frame_meta
      then if p.metadata_seen || not (p.received_bytes == 0)
        then throws unexpected_metadata
        else on_metadata (rt.parse payload) p
      else if kind == frame_chunk
      then if not p.metadata_seen
        then throws bytes_before_metadata
        else if length payload == 0 || leb (max_chunks expected.size) p.chunk_count
        then throws chunk_budget
        else if ltb expected.size (p.received_bytes + length payload)
            || ltb max_object_bytes (p.received_bytes + length payload)
        then throws too_many_bytes
        else continues (record p {
          chunk_count = p.chunk_count + 1;
          received_bytes = p.received_bytes + length payload;
          object = p.object ++ payload;
          hashed = p.hashed ++ payload;
        })
      else if kind == frame_eof
      then if not (length payload == 0)
          || not p.metadata_seen
          || not (p.received_bytes == expected.size)
        then throws incomplete
        else if not (length pending == 0)
        then throws data_after_end
        else if not (text_eq (rt.sha256_hex p.hashed) expected.sha256)
        then throws wrong_digest
        else done p.object
      else throws unexpected_frame

  -- Each round takes a whole frame off the front, so the bytes pending are fuel enough.
  unfoldable pub loop_with : ℕ → Progress → Bytes → Looped
  loop_with zero p pending = waits p pending header_bytes
  loop_with (suc fuel) p pending = elim (next_frame pending) [
    | more needed ↦ waits p pending needed
    | bad e ↦ fails (bad_frame e)
    | whole kind payload rest ↦
        after_frame (on_frame p kind payload rest) (λ p'. loop_with fuel p' rest)
  ]

  unfoldable pub loop : Progress → Bytes → Looped
  loop p pending = loop_with (length pending) p pending

  unfoldable pub on_data : Receiver → Bytes → Status
  on_data r chunk =
      let r' = record r {
        parts = r.parts ++ chunk ∷ [];
        part_bytes = r.part_bytes + length chunk;
      } in
      if ltb r'.part_bytes r'.needed
      then running r'
      else settle (loop r.progress (flatten r'.parts))

  -- A settled promise has taken its listeners off the stream.
  unfoldable pub on_event : Status → Event → Status
  on_event (running r) (data_arrived chunk) = on_data r chunk
  on_event (running r) errored = rejected stream_error
  on_event (running r) ended = rejected closed_early
  on_event (running r) closed = rejected connection_closed
  on_event (resolved object) e = resolved object
  on_event (rejected x) e = rejected x

  unfoldable pub receive_from : Status → List Event → Status
  receive_from s [] = s
  receive_from s (e ∷ es) = receive_from (on_event s e) es

  unfoldable pub receive_object : List Event → Status
  receive_object = receive_from (running new_receiver)

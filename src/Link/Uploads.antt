-- ===== src/Link/Uploads.antt =====
-- src/browser/peer-link.mjs: `want`, `cancel` and the serving chain, one awaited step at a time. The
-- head of `uploads` is the response being served.
use relayswarm.Base.{
  ℕ, ◌+◌, ◌-◌, Bool, true, false, ◌&&◌, ◌||◌, not, Option, none, some, List, [], ◌∷◌, ◌++◌, Text,
  take, drop, min, if◌then◌else◌, leb, length, is_hex64,
}
use relayswarm.Base.Int.{ℤ, int_eq}
use relayswarm.Link.State.{
  Bytes, Link, Upload, Stage, queued, asking, sending, draining_buffer, sent_none, sent_meta,
  sent_eof, sent_chunk, chunk_bytes, close, send_text, serve_error, upload_queue,
  upload_drain_timeout,
}

abbrev pub enqueue : ℤ → Text → Link → Link
enqueue id k l =
    if not (is_hex64 k)
    then l
    else if leb l.max_queued_requests l.outbound_in_flight
    then close upload_queue l
    else record l {
      outbound_in_flight = l.outbound_in_flight + 1;
      uploads = l.uploads ++ record { id = id; key = k; cancelled = false; stage = queued } ∷ [];
    }

abbrev pub want_fields : Option ℤ → Option Text → Link → Link
want_fields (some id) (some k) l = enqueue id k l
want_fields _ _ l = l

-- An id that is no safe integer, or a key that is no string, is `none`.
unfoldable pub on_want : Option ℤ → Option Text → Link → Link
on_want id k l = if l.closed then l else want_fields id k l

unfoldable pub cancel_uploads : ℤ → List Upload → List Upload
cancel_uploads id [] = []
cancel_uploads id (u ∷ us) =
    (if int_eq u.id id then record u { cancelled = true } else u) ∷ cancel_uploads id us

abbrev pub cancel_field : Option ℤ → Link → Link
cancel_field none l = l
cancel_field (some id) l = record l { uploads = cancel_uploads id l.uploads }

unfoldable pub on_cancel : Option ℤ → Link → Link
on_cancel id l = if l.closed then l else cancel_field id l

-- The `finally` of the serving chain.
abbrev pub dequeue : List Upload → Link → Link
dequeue rest l = record l { uploads = rest; outbound_in_flight = l.outbound_in_flight - 1 }

abbrev pub refuse : Upload → List Upload → Link → Link
refuse u rest l = dequeue rest (send_text (sent_none u.id) l).0

abbrev pub at_stage : Upload → List Upload → Stage → Link → Link
at_stage u rest stage l = record l { uploads = record u { stage = stage } ∷ rest }

-- After the loop: the counters, and EOF.
abbrev pub end_response : Upload → List Upload → ℕ → ℕ → Link → Link
end_response u rest sent now l =
    dequeue rest
      (send_text (sent_eof u.id)
        (record l { bytes_out = l.bytes_out + sent; last_served_at = now })).0

-- `subarray(sent, end)`, and `end`.
abbrev pub slice : Bytes → ℕ → Bytes
slice bytes sent = take chunk_bytes (drop sent bytes)

abbrev pub slice_end : Bytes → ℕ → ℕ
slice_end bytes sent = min (sent + chunk_bytes) (length bytes)

-- The rest of a round of the loop, after the channel's buffer has room.
abbrev pub send_slice : Upload → List Upload → Bytes → ℕ → ℕ → Link → Link
send_slice u rest bytes sent now l =
    if l.closed
    then dequeue rest l
    else if u.cancelled
    then end_response u rest sent now l
    else if l.channel.is_open && l.channel.accepts
    then at_stage u rest (sending bytes (slice_end bytes sent))
        (record l { outbox = l.outbox ++ sent_chunk (slice bytes sent) ∷ [] })
    else dequeue rest (close serve_error l)

-- What the host, the channel and the timers tell the chain: the promise before it has settled, the
-- host's answer (`none` for nothing) or its failure, a turn of the loop with whether more than
-- HIGH_WATER_BYTES are buffered, room in the buffer (or the channel's close, or a cancellation), and
-- the drain timer.
pub data Turn : Type 0 where
  begin : Turn
  answered : Option Bytes → Turn
  host_failed : Turn
  round : Bool → Turn
  drained : Turn
  stalled : Turn

abbrev pub after_meta : Upload → List Upload → Bytes → Link × Bool → Link
after_meta u rest bytes (l, true) = at_stage u rest (sending bytes 0) l
after_meta u rest bytes (l, false) = dequeue rest l

abbrev pub answer : Option Bytes → Upload → List Upload → Link → Link
answer none u rest l = refuse u rest l
answer (some bytes) u rest l =
    if u.cancelled
    then refuse u rest l
    else after_meta u rest bytes (send_text (sent_meta u.id (length bytes)) l)

abbrev pub turn_round : Bool → Upload → List Upload → Bytes → ℕ → ℕ → Link → Link
turn_round high u rest bytes sent now l =
    if leb (length bytes) sent
    then end_response u rest sent now l
    else if l.closed
    then dequeue rest l
    else if high
    then at_stage u rest (draining_buffer bytes sent) l
    else send_slice u rest bytes sent now l

-- A turn that does not fit the stage does not happen, and changes nothing.
abbrev pub turn_at : Stage → Turn → Upload → List Upload → ℕ → Link → Link
turn_at queued begin u rest now l =
    if u.cancelled || l.closed then refuse u rest l else at_stage u rest asking l
turn_at asking (answered o) u rest now l = answer o u rest l
turn_at asking host_failed u rest now l = dequeue rest (close serve_error l)
turn_at (sending bytes sent) (round high) u rest now l = turn_round high u rest bytes sent now l
turn_at (draining_buffer bytes sent) drained u rest now l = send_slice u rest bytes sent now l
turn_at (draining_buffer bytes sent) stalled u rest now l =
    dequeue rest (close upload_drain_timeout l)
turn_at _ _ u rest now l = l

abbrev pub turn_head : List Upload → Turn → ℕ → Link → Link
turn_head [] t now l = l
turn_head (u ∷ rest) t now l = turn_at u.stage t u rest now l

unfoldable pub serve_turn : Turn → ℕ → Link → Link
serve_turn t now l = turn_head l.uploads t now l

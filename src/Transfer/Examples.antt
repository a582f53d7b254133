-- ===== src/Transfer/Examples.antt =====
-- The theorems on src/object-transfer.mjs at concrete inputs, and tests.
use relayswarm.Base.{
  ℕ, ◌≡◌, refl, ap, sym, true, Option, none, some, List, zero, [], ◌∷◌, ◌++◌, arith, length,
  flatten, map, Text, text_eq, every, is_hex64,
}
use relayswarm.Transfer.Frame.{
  Bytes, Frame, truncated, next_frame, read_body, encode_frame, ok, frame_request,
}
use relayswarm.Transfer.Decode.{drain, drain_with, decode_from, decode_frames}
use relayswarm.Transfer.Decode.Chunks.{decode_frames-flatten}
use relayswarm.Transfer.Decode.RoundTrip.{
  encode_all, decode_frames-encode_all, decode_frames_truncated,
}
use relayswarm.Transfer.Identity.{
  Identity, Claims, Runtime, valid_identity, valid_request_id, claims_of,
}
use relayswarm.Transfer.Receive.{
  receive_object, start, finished, Receiver, running, receive_from, on_event, on_data, on_frame,
  loop, loop_with, max_chunks, data_arrived, resolved,
}
use relayswarm.Transfer.Receive.Safety.{receive_object-IsExpected}
use relayswarm.Transfer.Serve.{
  Served, served, reading, got, on_first, read_first, object_chunks, object_chunks_with, send,
  object_frames, serve_authorized_object, request_object, metadata_of,
}
use relayswarm.Transfer.Serve.Guards.{Asks, Sends, serve_authorized_object-guarded}
use relayswarm.Transfer.Receive.Chunks.{receive_object-finished, view-receive_from, joined_from}
use relayswarm.Transfer.Receive.Buffer.{IsBuffered, Buffered, view, on_data-Buffered}
use relayswarm.Transfer.Serve.Delivery.{request_delivers}

-- Two frames of three and no bytes, and their wire image.
abbrev two_frames : List Frame
two_frames = record { kind = 3; payload = 7 ∷ 8 ∷ 9 ∷ [] } ∷ record { kind = 4; payload = [] } ∷ []

abbrev two_frames_wire : Bytes
two_frames_wire = 82 ∷ 83 ∷ 1 ∷ 3 ∷ 0 ∷ 0 ∷ 0 ∷ 3 ∷ 7 ∷ 8 ∷ 9 ∷ 82 ∷ 83 ∷ 1 ∷ 4 ∷ 0 ∷ 0 ∷ 0 ∷ 0 ∷ []

abbrev cut_chunks : List Bytes
cut_chunks =
    (82 ∷ 83 ∷ 1 ∷ [])
    ∷ (3 ∷ 0 ∷ 0 ∷ 0 ∷ 3 ∷ 7 ∷ 8 ∷ [])
    ∷ []
    ∷ (9 ∷ 82 ∷ 83 ∷ 1 ∷ 4 ∷ 0 ∷ 0 ∷ 0 ∷ 0 ∷ [])
    ∷ []

encode_two_frames : encode_all two_frames ≡ ok two_frames_wire
unfolding encode_frame
encode_two_frames = refl

decode_frames-encode_all_example :
    decode_frames cut_chunks ≡ record { frames = two_frames; error = none }
unfolding flatten
decode_frames-encode_all_example =
    decode_frames-encode_all two_frames cut_chunks encode_two_frames refl

decode_frames-flatten_example : decode_frames cut_chunks ≡ decode_frames (flatten cut_chunks ∷ [])
decode_frames-flatten_example = decode_frames-flatten cut_chunks

decode_frames_truncated_example :
    decode_frames ((two_frames_wire ++ 82 ∷ []) ∷ (83 ∷ 1 ∷ []) ∷ [])
    ≡ record { frames = two_frames; error = some truncated }
unfolding flatten next_frame
decode_frames_truncated_example =
    decode_frames_truncated two_frames _ (82 ∷ 83 ∷ 1 ∷ []) {n = 8} encode_two_frames refl (λ e. cc)
      refl

-- A stream with a bad magic is refused at its first frame.
decode_bad_header : (decode_frames ((1 ∷ 2 ∷ 3 ∷ 4 ∷ 5 ∷ 6 ∷ 7 ∷ 8 ∷ []) ∷ [])).frames ≡ []
unfolding decode_frames decode_from drain drain_with next_frame read_body
decode_bad_header = refl

abbrev digest : Text
digest =
    let eight : Text = 97 ∷ 97 ∷ 97 ∷ 97 ∷ 97 ∷ 97 ∷ 97 ∷ 97 ∷ [] in
    eight ++ (eight ++ (eight ++ (eight ++ (eight ++ (eight ++ (eight ++ eight))))))

abbrev auth : Identity
auth = record {
  request_id = 114 ∷ 101 ∷ 113 ∷ 45 ∷ 48 ∷ 48 ∷ 48 ∷ 49 ∷ [];
  sha256 = digest;
  size = 3;
}

-- A runtime that knows two JSON texts, and a digest that is the same for all objects.
abbrev parse_example : Bytes → Option Claims
parse_example [] = none
parse_example (zero ∷ _) = some (metadata_of auth)
parse_example _ = some (claims_of auth)

abbrev stringify_example : Claims → Bytes
stringify_example c = elim c.request_id [ none ↦ 0 ∷ [] | some t ↦ 1 ∷ [] ]

abbrev runtime : Runtime
runtime = record { sha256_hex = λ b. digest; parse = parse_example; stringify = stringify_example }

abbrev held_object : Bytes
held_object = 5 ∷ 6 ∷ 7 ∷ []

abbrev resolve_example : Identity → Option Bytes
resolve_example i = some held_object

abbrev request_wire : Bytes
request_wire = 82 ∷ 83 ∷ 1 ∷ 1 ∷ 0 ∷ 0 ∷ 0 ∷ 1 ∷ 1 ∷ []

abbrev request_chunks : List Bytes
request_chunks = (82 ∷ 83 ∷ []) ∷ (1 ∷ 1 ∷ 0 ∷ 0 ∷ 0 ∷ 1 ∷ 1 ∷ []) ∷ []

abbrev answer_wire : Bytes
answer_wire =
    82 ∷ 83 ∷ 1 ∷ 2 ∷ 0 ∷ 0 ∷ 0 ∷ 1 ∷ 0 ∷ 82 ∷ 83 ∷ 1 ∷ 3 ∷ 0 ∷ 0 ∷ 0 ∷ 3 ∷ 5 ∷ 6 ∷ 7 ∷ 82 ∷ 83 ∷ 1
    ∷ 4 ∷ 0 ∷ 0 ∷ 0 ∷ 0 ∷ []

abbrev answer_chunks : List Bytes
answer_chunks =
    (82 ∷ 83 ∷ 1 ∷ 2 ∷ 0 ∷ 0 ∷ 0 ∷ 1 ∷ 0 ∷ 82 ∷ 83 ∷ 1 ∷ 3 ∷ 0 ∷ 0 ∷ [])
    ∷ (0 ∷ 3 ∷ 5 ∷ 6 ∷ [])
    ∷ []
    ∷ (7 ∷ 82 ∷ 83 ∷ 1 ∷ 4 ∷ 0 ∷ 0 ∷ 0 ∷ 0 ∷ [])
    ∷ []

abbrev limit : ℕ
limit = 1000

abbrev answer : Served
answer =
    serve_authorized_object runtime [] resolve_example limit auth (map data_arrived request_chunks)

answer_written : answer ≡ record { written = answer_wire; outcome = served }
unfolding serve_authorized_object valid_identity valid_request_id is_hex64 every text_eq read_first
    on_first next_frame read_body send object_frames object_chunks object_chunks_with encode_frame
answer_written = refl

requested : request_object runtime limit auth ≡ some (ok request_wire)
unfolding request_object valid_identity valid_request_id is_hex64 every encode_frame
requested = refl

request_delivers_example :
    (answer.outcome ≡ served)
    × (receive_object runtime auth limit (map data_arrived answer_chunks) ≡ resolved held_object)
unfolding flatten
request_delivers_example =
    request_delivers runtime [] resolve_example limit auth held_object refl refl (omega arith) refl
      refl refl request_chunks answer_chunks requested refl
      (ap (λ s. s.written) (sym answer_written))

received : receive_object runtime auth limit (map data_arrived answer_chunks) ≡ resolved held_object
unfolding receive_object receive_from on_event on_data loop loop_with on_frame next_frame read_body
    max_chunks text_eq flatten
received = refl

receive_object-IsExpected_example :
    (length held_object ≡ auth.size) × (runtime.sha256_hex held_object ≡ auth.sha256)
receive_object-IsExpected_example =
    receive_object-IsExpected runtime auth limit (map data_arrived answer_chunks) received

loop_finishes : loop runtime auth limit start answer_wire ≡ finished held_object
unfolding loop loop_with on_frame next_frame read_body max_chunks text_eq
loop_finishes = refl

receive_object-finished_example :
    receive_object runtime auth limit (map data_arrived answer_chunks) ≡ resolved held_object
unfolding flatten
receive_object-finished_example =
    receive_object-finished runtime auth limit answer_chunks loop_finishes

first_part : Receiver
first_part = record { progress = start; parts = (82 ∷ 83 ∷ []) ∷ []; part_bytes = 2; needed = 8 }

first_part-IsBuffered : IsBuffered first_part
unfolding first_part flatten next_frame
first_part-IsBuffered = record {
  bytes_counted = refl;
  wanted = 8;
  waits_for = refl;
  not_late = omega arith;
  below_needed = omega arith;
  needed_bounded = omega arith;
}

view-receive_from_example :
    view (receive_from runtime auth limit (running first_part) (map data_arrived ((1 ∷ []) ∷ [])))
    ≡ joined_from runtime auth limit (view (running first_part)) ((1 ∷ []) ∷ [])
view-receive_from_example =
    view-receive_from runtime auth limit (running first_part) ((1 ∷ []) ∷ []) first_part-IsBuffered

on_data-Buffered_example : Buffered (on_data runtime auth limit first_part (1 ∷ []))
on_data-Buffered_example =
    on_data-Buffered runtime auth limit first_part (1 ∷ []) first_part-IsBuffered

abbrev Guarded : Type 0
Guarded =
    (valid_identity (claims_of auth) limit ≡ true)
    × ((payload : Bytes) × (c : Claims) × (read_first (reading []) (map data_arrived request_chunks)
          ≡ got frame_request payload)
        × (runtime.parse payload ≡ some c)
        × Asks runtime [] resolve_example limit auth c)
    × Sends runtime [] resolve_example limit auth answer

serve_authorized_object-guarded_example : Guarded
serve_authorized_object-guarded_example =
    serve_authorized_object-guarded runtime [] resolve_example limit auth
      (map data_arrived request_chunks) (ap (λ s. s.outcome) answer_written)

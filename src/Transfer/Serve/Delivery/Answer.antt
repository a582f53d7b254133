-- ===== src/Transfer/Serve/Delivery/Answer.antt =====
-- The frames that `serveAuthorizedObject` (src/object-transfer.mjs) writes, in the loop of
-- `receiveObject`.
use relayswarm.Base.{
  ℕ, ◌+◌, ◌≤◌, ◌≡◌, refl, ap, sym, ◌∙◌, List, [], ◌∷◌, ◌++◌, arith, length, flatten, map, true,
  false, subst, append_assoc, append-nil, length-append, text_eq_refl, ==_refl, some,
}
use relayswarm.Transfer.Frame.{
  Bytes, Frame, Encoded, ok, err, encode_frame, header, bad_kind, frame_meta, frame_chunk,
  frame_eof, max_frame_bytes,
}
use relayswarm.Transfer.Frame.Laws.{next_frame-encode}
use relayswarm.Transfer.Identity.{Identity, Runtime}
use relayswarm.Transfer.Receive.{
  Progress, Handled, continues, done, Looped, finished, after_frame, on_frame, loop, max_chunks,
  start,
}
use relayswarm.Transfer.Receive.Loop.{loop-whole}
use relayswarm.Transfer.Serve.{
  Sent, sent, stopped, send, send_one, frame, object_frames, object_chunks, metadata_of,
}
use relayswarm.Transfer.Serve.Pieces.{
  Pieces, object_chunks-Pieces, length-object_chunks-le, flatten-object_chunks,
}

send_one-sent :
    (x : Encoded) (rest : Sent) {wire : Bytes}
    → send_one x rest ≡ sent wire
    → (a : Bytes) × (b : Bytes) × (x ≡ ok a) × (rest ≡ sent b) × (wire ≡ a ++ b)
send_one-sent (ok a) (sent b) h = (a, b, refl, refl, ground arith)
send_one-sent (ok a) (stopped b e) h = cc
send_one-sent (err e) rest h = cc

send-sent :
    (f : Frame) (fs : List Frame) {wire : Bytes}
    → send (f ∷ fs) ≡ sent wire
    → (a : Bytes) × (b : Bytes) × (encode_frame f.kind f.payload ≡ ok a)
      × (send fs ≡ sent b)
      × (wire ≡ a ++ b)
unfolding send
send-sent f fs h = send_one-sent (encode_frame f.kind f.payload) (send fs) h

send-nil : {b : Bytes} → send [] ≡ sent b → [] ≡ b
unfolding send
send-nil h = cc

module _ (rt : Runtime) (expected : Identity) (max_object_bytes : ℕ) where
  abbrev run : Progress → Bytes → Looped
  run = loop rt expected max_object_bytes

  abbrev handle : Progress → ℕ → Bytes → Bytes → Handled
  handle = on_frame rt expected max_object_bytes

  -- What the receiver has of the object, and what the pieces still to come add.
  record IsReady (bytes : Bytes) (p : Progress) (cs : List Bytes) : Type 0 where
    announced : p.metadata_seen ≡ true
    counted : p.received_bytes ≡ length p.object
    hashes_all : p.hashed ≡ p.object
    completes : p.object ++ flatten cs ≡ bytes
    budget : p.chunk_count + length cs ≤ max_chunks expected.size
    pieces : Pieces cs

  abbrev grown : Progress → Bytes → Progress
  grown p c = record p {
    chunk_count = p.chunk_count + 1;
    received_bytes = p.received_bytes + length c;
    object = p.object ++ c;
    hashed = p.hashed ++ c;
  }

  module _ (bytes : Bytes) (size : length bytes ≡ expected.size)
      (digest : rt.sha256_hex bytes ≡ expected.sha256)
      (fits : expected.size ≤ max_object_bytes) where
    on_frame-chunk :
        (p : Progress) (c : Bytes) (cs : List Bytes) (rest : Bytes)
        → IsReady bytes p (c ∷ cs)
        → (handle p frame_chunk c rest ≡ continues (grown p c)) × IsReady bytes (grown p c) cs
    unfolding on_frame flatten
    on_frame-chunk p c cs rest r =
        let total : length p.object + (length c + length (flatten cs)) ≡ length bytes =
          ap (λ n. length p.object + n) (sym (length-append c (flatten cs)))
          ∙ sym (length-append p.object (c ++ flatten cs))
          ∙ ap length r.completes in
        let assoc : (p.object ++ c) ++ flatten cs ≡ bytes =
          append_assoc p.object c (flatten cs) ∙ r.completes in
        (
          ground arith,
          record {
            announced = r.announced;
            counted = omega (arith, length-append p.object c, r.counted);
            hashes_all = ap (λ q. q ++ c) r.hashes_all;
            completes = assoc;
            budget = omega (arith, r.budget);
            pieces = r.pieces.2;
          },
        )

    on_frame-eof : (p : Progress) → IsReady bytes p [] → handle p frame_eof [] [] ≡ done bytes
    unfolding on_frame flatten
    on_frame-eof p r =
        let whole_object : p.object ≡ bytes = sym (append-nil p.object) ∙ r.completes in
        let same_digest : rt.sha256_hex p.hashed ≡ expected.sha256 =
          ap rt.sha256_hex (r.hashes_all ∙ whole_object) ∙ digest in
        let all_received : p.received_bytes ≡ expected.size =
          r.counted ∙ ap length whole_object ∙ size in
        rw (r.announced, all_received, same_digest, text_eq_refl, ==_refl) (ap done whole_object)

    run-frame :
        (p : Progress) (k : ℕ) (b rest : Bytes) {a : Bytes}
        → encode_frame k b ≡ ok a
        → run p (a ++ rest) ≡ after_frame (handle p k b rest) (λ p'. run p' rest)
    run-frame p k b rest h =
        loop-whole rt expected max_object_bytes p _ (next_frame-encode k b rest h)

    run-pieces :
        (cs : List Bytes) (p : Progress) {wire : Bytes}
        → IsReady bytes p cs
        → send (map (frame frame_chunk) cs ++ frame frame_eof [] ∷ []) ≡ sent wire
        → run p wire ≡ finished bytes
    run-pieces [] p r h =
        let (a, b, x, y, e) = send-sent (frame frame_eof []) [] h in
        rw (e, ← send-nil y)
          (run-frame p frame_eof [] [] x
            ∙ ap (λ o. after_frame o (λ p'. run p' [])) (on_frame-eof p r))
    run-pieces (c ∷ cs) p r h =
        let (a, b, x, y, e) = send-sent (frame frame_chunk c) _ h in
        let (handled, ready) = on_frame-chunk p c cs b r in
        rw e (
          run-frame p frame_chunk c b x
          ∙ ap (λ o. after_frame o (λ p'. run p' b)) handled
          ∙ run-pieces cs (grown p c) ready y)

    on_frame-meta :
        (payload rest : Bytes)
        → rt.parse payload ≡ some (metadata_of expected)
        → handle start frame_meta payload rest ≡ continues (record start { metadata_seen = true })
    unfolding on_frame
    on_frame-meta payload rest h = rw (h, text_eq_refl expected.sha256, ==_refl expected.size)

    announced-IsReady : IsReady bytes (record start { metadata_seen = true }) (object_chunks bytes)
    announced-IsReady = record {
      announced = refl;
      counted = refl;
      hashes_all = refl;
      completes = flatten-object_chunks bytes;
      budget = omega (
        arith,
        subst (λ n. length (object_chunks bytes) ≤ max_chunks n) size
            (length-object_chunks-le bytes),
      );
      pieces = object_chunks-Pieces bytes;
    }

    -- All that the serving side writes for an object is taken, and completes it.
    pub loop-object_frames :
        {wire : Bytes}
        → rt.parse (rt.stringify (metadata_of expected)) ≡ some (metadata_of expected)
        → send (object_frames rt expected bytes) ≡ sent wire
        → loop rt expected max_object_bytes start wire ≡ finished bytes
    unfolding object_frames
    loop-object_frames json h =
        let (a, b, x, y, e) =
          send-sent (frame frame_meta (rt.stringify (metadata_of expected))) _ h in
        rw e (
          run-frame start frame_meta _ b x
          ∙ ap (λ o. after_frame o (λ p'. run p' b)) (on_frame-meta _ b json)
          ∙ run-pieces (object_chunks bytes) (record start { metadata_seen = true })
              announced-IsReady y)

-- Frames that fit are all written.
send_one-ok :
    {x : Encoded} {rest : Sent} {a b : Bytes}
    → x ≡ ok a
    → rest ≡ sent b
    → send_one x rest ≡ sent (a ++ b)
send_one-ok h k = rw (h, k)

encode_frame-fits :
    (k : ℕ) (b : Bytes)
    → bad_kind k ≡ false
    → length b ≤ max_frame_bytes
    → (a : Bytes) × (encode_frame k b ≡ ok a)
unfolding encode_frame
encode_frame-fits k b h l = (header k (length b) ++ b, ground arith)

send-Pieces :
    (cs : List Bytes)
    → Pieces cs
    → (wire : Bytes) × (send (map (frame frame_chunk) cs ++ frame frame_eof [] ∷ []) ≡ sent wire)
unfolding send
send-Pieces [] p =
    let (a, x) = encode_frame-fits frame_eof [] refl (omega arith) in (a ++ [], send_one-ok x refl)
send-Pieces (c ∷ cs) p =
    let (a, x) = encode_frame-fits frame_chunk c refl p.1 in
    let (b, y) = send-Pieces cs p.2 in (a ++ b, send_one-ok x y)

pub send-object_frames :
    (rt : Runtime) (auth : Identity) (bytes : Bytes)
    → length (rt.stringify (metadata_of auth)) ≤ max_frame_bytes
    → (wire : Bytes) × (send (object_frames rt auth bytes) ≡ sent wire)
unfolding send object_frames
send-object_frames rt auth bytes l =
    let (a, x) = encode_frame-fits frame_meta (rt.stringify (metadata_of auth)) refl l in
    let (b, y) = send-Pieces (object_chunks bytes) (object_chunks-Pieces bytes) in
    (a ++ b, send_one-ok x y)

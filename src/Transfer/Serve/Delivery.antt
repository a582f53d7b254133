-- ===== src/Transfer/Serve/Delivery.antt =====
-- A request, its answer and its receipt (src/object-transfer.mjs), end to end.
pub mod Request
pub mod Answer
use relayswarm.Base.{
  ℕ, ◌≤◌, ◌≡◌, refl, ap, sym, ◌∙◌, List, [], ◌∷◌, ◌++◌, arith, length, flatten, map, true, false,
  not, ◌&&◌, ◌||◌, ltb, ◌==◌, ==_refl, text_eq_refl, Option, some,
}
use relayswarm.Transfer.Frame.{Bytes, encode_frame, ok, max_frame_bytes, frame_request}
use relayswarm.Transfer.Identity.{Identity, Claims, Runtime, valid_identity, claims_of}
use relayswarm.Transfer.Receive.{Event, data_arrived, resolved, receive_object, loop, start}
use relayswarm.Transfer.Receive.Chunks.{receive_object-finished}
use relayswarm.Transfer.Serve.{
  Served, served, pending, reading, got, read_first, send, sent, serve_authorized_object,
  request_object, metadata_of, object_frames,
}
use Request.{read_first-encode}
use Answer.{loop-object_frames, send-object_frames}

valid_identity-size :
    (i : Identity) (max_object_bytes : ℕ)
    → valid_identity (claims_of i) max_object_bytes ≡ true
    → i.size ≤ max_object_bytes
unfolding valid_identity
valid_identity-size i m h = ground arith

module _ (rt : Runtime) (rejection : Bytes) (resolve : Identity → Option Bytes)
    (max_object_bytes : ℕ) (auth : Identity) (bytes : Bytes)
    (request_parses : rt.parse (rt.stringify (claims_of auth)) ≡ some (claims_of auth))
    (metadata_parses : rt.parse (rt.stringify (metadata_of auth)) ≡ some (metadata_of auth))
    (metadata_fits : length (rt.stringify (metadata_of auth)) ≤ max_frame_bytes)
    (held : resolve auth ≡ some bytes) (size : length bytes ≡ auth.size)
    (digest : rt.sha256_hex bytes ≡ auth.sha256) where
  request_object-ok :
      {request : Bytes}
      → request_object rt max_object_bytes auth ≡ some (ok request)
      → (valid_identity (claims_of auth) max_object_bytes ≡ true)
        × (encode_frame frame_request (rt.stringify (claims_of auth)) ≡ ok request)
  unfolding request_object
  request_object-ok h = ground arith

  serve-requested :
      (chunks : List Bytes) {request wire : Bytes}
      → request_object rt max_object_bytes auth ≡ some (ok request)
      → flatten chunks ≡ request
      → send (object_frames rt auth bytes) ≡ sent wire
      → serve_authorized_object rt rejection resolve max_object_bytes auth (map data_arrived chunks)
        ≡ record { written = wire; outcome = served }
  unfolding serve_authorized_object
  serve-requested chunks h cut s =
      let (valid, e) = request_object-ok h in
      rw
        (
          valid,
          read_first-encode frame_request _ chunks e cut,
          request_parses,
          valid,
          text_eq_refl auth.request_id,
          text_eq_refl auth.sha256,
          ==_refl auth.size,
          held,
          size,
          digest,
          ==_refl auth.size,
          text_eq_refl auth.sha256,
          s,
        )
        refl

  -- If the runtime's JSON parses back the request and the metadata that it prints, the metadata fits
  -- a frame and the resolver holds the authorised object, then a request cut into any chunks is
  -- served, and what the server has written, cut into any chunks, makes the requesting side resolve
  -- with that object.
  pub request_delivers :
      (request_chunks answer_chunks : List Bytes) {request : Bytes}
      → request_object rt max_object_bytes auth ≡ some (ok request)
      → flatten request_chunks ≡ request
      → flatten answer_chunks
        ≡ (serve_authorized_object rt rejection resolve max_object_bytes auth
            (map data_arrived request_chunks)).written
      → ((serve_authorized_object rt rejection resolve max_object_bytes auth
            (map data_arrived request_chunks)).outcome
          ≡ served)
        × (receive_object rt auth max_object_bytes (map data_arrived answer_chunks)
            ≡ resolved bytes)
  request_delivers request_chunks answer_chunks h cut answered =
      let (wire, s) = send-object_frames rt auth bytes metadata_fits in
      let e = serve-requested request_chunks h cut s in
      let fits = valid_identity-size auth max_object_bytes (request_object-ok h).0 in
      let received =
        loop-object_frames rt auth max_object_bytes bytes size digest fits metadata_parses s in
      (
        ap (λ a. a.outcome) e,
        receive_object-finished rt auth max_object_bytes answer_chunks (
            ap (loop rt auth max_object_bytes start) (answered ∙ ap (λ a. a.written) e) ∙ received),
      )

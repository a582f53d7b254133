-- ===== src/Transfer/Decode/RoundTrip.antt =====
-- Written frames read back (`encodeFrame` and `decodeFrames` of src/object-transfer.mjs).
use relayswarm.Base.{
  ℕ, ◌≡◌, ◌≢◌, refl, ap, sym, ◌∙◌, none, some, List, [], ◌∷◌, ◌++◌, arith, append_assoc, append-nil,
  flatten,
}
use relayswarm.Transfer.Frame.{
  Bytes, Frame, truncated, more, next_frame, encode_frame, Encoded, ok, err,
}
use relayswarm.Transfer.Frame.Laws.{next_frame-encode}
use relayswarm.Transfer.Decode.{yield_frame, drain, decode_frames, decode_from, at_end}
use relayswarm.Transfer.Decode.Laws.{drain-whole, drain-more}
use relayswarm.Transfer.Decode.Chunks.{
  prepend, prepend-nil, prepend-cons, continue-cons, continue, decode_frames-flatten,
}

abbrev both : Encoded → Encoded → Encoded
both (ok a) (ok b) = ok (a ++ b)
both (ok a) (err e) = err e
both (err e) _ = err e

-- The wire image of frames written one after the other.
abbrev pub encode_all : List Frame → Encoded
encode_all [] = ok []
encode_all (f ∷ fs) = both (encode_frame f.kind f.payload) (encode_all fs)

both-ok :
    (x y : Encoded) {wire : Bytes}
    → both x y ≡ ok wire
    → (a : Bytes) × (b : Bytes) × (x ≡ ok a) × (y ≡ ok b) × (wire ≡ a ++ b)
both-ok (ok a) (ok b) h = (a, b, refl, refl, ground arith)
both-ok (ok a) (err e) h = cc
both-ok (err e) _ h = cc

ok-injective : {a b : Bytes} → ok a ≡ ok b → a ≡ b
ok-injective h = cc

drain-encode_all :
    (fs : List Frame) (rest : Bytes) {wire : Bytes}
    → encode_all fs ≡ ok wire
    → drain (wire ++ rest) ≡ prepend fs (drain rest)
drain-encode_all [] rest {wire} h = rw (sym (ok-injective h)) (sym (prepend-nil (drain rest)))
drain-encode_all (f ∷ fs) rest {wire} h =
    let (a, b, x, y, e) = both-ok (encode_frame f.kind f.payload) (encode_all fs) h in
    rw (e, append_assoc a b rest)
      (drain-whole (a ++ (b ++ rest)) (next_frame-encode f.kind f.payload (b ++ rest) x)
        ∙ ap (yield_frame f) (drain-encode_all fs rest y)
        ∙ sym (prepend-cons f fs (drain rest)))

decode_frames-drain :
    (chunks : List Bytes) → decode_frames chunks ≡ continue (drain (flatten chunks)) []
unfolding decode_frames
decode_frames-drain chunks = decode_frames-flatten chunks ∙ continue-cons [] (flatten chunks) []

decode_frames-waiting :
    (fs : List Frame) (chunks : List Bytes) (partial : Bytes) {wire : Bytes} {n : ℕ}
    → encode_all fs ≡ ok wire
    → next_frame partial ≡ more n
    → flatten chunks ≡ wire ++ partial
    → decode_frames chunks ≡ record { frames = fs; error = at_end partial }
unfolding decode_from
decode_frames-waiting fs chunks partial h m c =
    decode_frames-drain chunks
    ∙ ap (λ b. continue (drain b) []) c
    ∙ ap (λ d. continue d []) (drain-encode_all fs partial h)
    ∙ ap (λ d. continue (prepend fs d) []) (drain-more partial m)
    ∙ rw (append-nil fs) (rw (append-nil fs))

nil-more : next_frame [] ≡ more 8
unfolding next_frame
nil-more = refl

at_end-truncated : (p : Bytes) → p ≢ [] → at_end p ≡ some truncated
at_end-truncated [] ne = absurd (ne refl)
at_end-truncated (x ∷ p) ne = refl

-- Frames that are written one after the other and cut into chunks anywhere are yielded again,
-- all of them, in order, and the decoder ends without an error.
pub decode_frames-encode_all :
    (fs : List Frame) (chunks : List Bytes) {wire : Bytes}
    → encode_all fs ≡ ok wire
    → flatten chunks ≡ wire
    → decode_frames chunks ≡ record { frames = fs; error = none }
decode_frames-encode_all fs chunks {wire} h c =
    decode_frames-waiting fs chunks [] h nil-more (c ∙ sym (append-nil wire))

-- A stream that ends inside a frame yields the whole frames before it, in order, and then fails as
-- truncated.
pub decode_frames_truncated :
    (fs : List Frame) (chunks : List Bytes) (partial : Bytes) {wire : Bytes} {n : ℕ}
    → encode_all fs ≡ ok wire
    → next_frame partial ≡ more n
    → partial ≢ []
    → flatten chunks ≡ wire ++ partial
    → decode_frames chunks ≡ record { frames = fs; error = some truncated }
decode_frames_truncated fs chunks partial h m ne c =
    rw (← at_end-truncated partial ne) (decode_frames-waiting fs chunks partial h m c)

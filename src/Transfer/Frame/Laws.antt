-- ===== src/Transfer/Frame/Laws.antt =====
-- What the frame reader sees at the front of a buffer (src/object-transfer.mjs).
use relayswarm.Base.{
  ℕ, ◌+◌, ◌*◌, ◌/◌, ◌%◌, ◌≤◌, ◌<◌, ◌≡◌, refl, ◌∙◌, false, ◌∷◌, ◌++◌, arith, length, length-drop,
  length-append, take-append, drop-append, take-length, drop-length, length-take,
}
use relayswarm.Transfer.Frame.{
  Bytes, more, bad, whole, next_frame, read_body, encode_frame, ok, TransferError, max_frame_bytes,
  bad_kind, header, header_bytes, read_uint32_be,
}

read_body-whole-append :
    (kind size : ℕ) (body after : Bytes) {k : ℕ} {p r : Bytes}
    → read_body kind size body ≡ whole k p r
    → read_body kind size (body ++ after) ≡ whole k p (r ++ after)
unfolding read_body
read_body-whole-append kind size body after h =
    ground
      (arith, length-append body after, take-append size body after, drop-append size body after)

read_body-bad-append :
    (kind size : ℕ) (body after : Bytes) {e : TransferError}
    → read_body kind size body ≡ bad e
    → read_body kind size (body ++ after) ≡ bad e
unfolding read_body
read_body-bad-append kind size body after h = ground arith

pub next_frame-whole-append :
    (p after : Bytes) {k : ℕ} {b r : Bytes}
    → next_frame p ≡ whole k b r
    → next_frame (p ++ after) ≡ whole k b (r ++ after)
unfolding next_frame
next_frame-whole-append (m0 ∷ m1 ∷ v ∷ kind ∷ a ∷ b ∷ c ∷ d ∷ body) after {k} {b = p} {r} h =
    ground (
      arith,
      read_body-whole-append kind (read_uint32_be a b c d) body after {k = k} {p = p} {r = r},
    )
next_frame-whole-append _ after h = cc

pub next_frame-bad-append :
    (p after : Bytes) {e : TransferError} → next_frame p ≡ bad e → next_frame (p ++ after) ≡ bad e
unfolding next_frame
next_frame-bad-append (m0 ∷ m1 ∷ v ∷ kind ∷ a ∷ b ∷ c ∷ d ∷ body) after {e} h =
    ground (arith, read_body-bad-append kind (read_uint32_be a b c d) body after {e = e})
next_frame-bad-append _ after h = cc

-- A whole frame shortens the buffer, by the header at least.
pub next_frame-lt :
    (p : Bytes) {k : ℕ} {b r : Bytes}
    → next_frame p ≡ whole k b r
    → length r + header_bytes + length b ≡ length p
unfolding next_frame read_body
next_frame-lt (m0 ∷ m1 ∷ v ∷ kind ∷ a ∷ b ∷ c ∷ d ∷ body) h = ground (
  arith,
  length-drop (a * 16777216 + b * 65536 + c * 256 + d) body,
  length-take (a * 16777216 + b * 65536 + c * 256 + d) body,
)
next_frame-lt _ h = cc

encode_frame-ok :
    (kind : ℕ) (body : Bytes) {wire : Bytes}
    → encode_frame kind body ≡ ok wire
    → (bad_kind kind ≡ false)
      × (length body ≤ max_frame_bytes)
      × (wire ≡ header kind (length body) ++ body)
unfolding encode_frame
encode_frame-ok kind body h = ground arith

read_body-length :
    (kind : ℕ) (body after : Bytes)
    → bad_kind kind ≡ false
    → length body ≤ max_frame_bytes
    → read_body kind (length body) (body ++ after) ≡ whole kind body after
unfolding read_body
read_body-length kind body after k h =
    ground (arith, length-append body after, take-length body after, drop-length body after)

read_uint32_be-uint32_be :
    (n : ℕ)
    → n ≤ max_frame_bytes
    → read_uint32_be (n / 16777216 % 256) (n / 65536 % 256) (n / 256 % 256) (n % 256) ≡ n
read_uint32_be-uint32_be n h = omega arith

-- The reader finds the frame that was written, and leaves what follows it.
pub next_frame-encode :
    (kind : ℕ) (body after : Bytes) {wire : Bytes}
    → encode_frame kind body ≡ ok wire
    → next_frame (wire ++ after) ≡ whole kind body after
unfolding next_frame
next_frame-encode kind body after h =
    let (k, l, e) = encode_frame-ok kind body h in
    rw (e, read_uint32_be-uint32_be (length body) l) (read_body-length kind body after k l)

-- What is still needed is at most one frame's header and payload, and more than is there.
pub next_frame-more :
    (p : Bytes) {n : ℕ}
    → next_frame p ≡ more n
    → (length p < n) × (n ≤ header_bytes + max_frame_bytes) × (header_bytes ≤ n)
unfolding next_frame read_body
next_frame-more (m0 ∷ m1 ∷ v ∷ kind ∷ a ∷ b ∷ c ∷ d ∷ body) h = ground arith
next_frame-more _ h = ground arith

pub more-injective : {m n : ℕ} → more m ≡ more n → m ≡ n
more-injective h = cc

next_frame_short : (p : Bytes) → length p < header_bytes → next_frame p ≡ more header_bytes
unfolding next_frame
next_frame_short (m0 ∷ m1 ∷ v ∷ kind ∷ a ∷ b ∷ c ∷ d ∷ body) h = absurd (omega arith)
next_frame_short _ h = refl

read_body-more-append :
    (kind size : ℕ) (body after : Bytes) {n : ℕ}
    → read_body kind size body ≡ more n
    → length (body ++ after) + header_bytes < n
    → read_body kind size (body ++ after) ≡ more n
unfolding read_body
read_body-more-append kind size body after h l = ground (arith, length-append body after)

-- While fewer bytes are there than a frame needs, the reader still waits for as many.
pub next_frame-more-append :
    (p after : Bytes) {n : ℕ}
    → next_frame p ≡ more n
    → length (p ++ after) < n
    → next_frame (p ++ after) ≡ more n
unfolding next_frame
next_frame-more-append (m0 ∷ m1 ∷ v ∷ kind ∷ a ∷ b ∷ c ∷ d ∷ body) after {n} h l =
    ground (arith, read_body-more-append kind (read_uint32_be a b c d) body after {n = n})
next_frame-more-append p after h l = next_frame_short (p ++ after) (rw (more-injective h) l) ∙ h

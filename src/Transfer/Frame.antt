-- ===== src/Transfer/Frame.antt =====
-- src/object-transfer.mjs: the frames of the native transfer protocol.
pub mod Laws
use relayswarm.Base.{
  ℕ, zero, suc, ◌+◌, ◌-◌, ◌*◌, ◌/◌, ◌%◌, ◌≤◌, ◌<◌, ◌≡◌, refl, ap, Bool, true, false, ◌||◌, List, [],
  ◌∷◌, ◌++◌, arith, length, take, drop, ltb, ◌==◌, not, if◌then◌else◌,
}

-- Bytes are numbers; the code's buffers hold each below 256.
abbrev pub Bytes : Type 0
Bytes = List ℕ

abbrev pub header_bytes : ℕ
header_bytes = 8

abbrev pub max_frame_bytes : ℕ
max_frame_bytes = 65536

abbrev pub magic_0 : ℕ
magic_0 = b'R'

abbrev pub magic_1 : ℕ
magic_1 = b'S'

abbrev pub version : ℕ
version = 1

-- The codes of `FRAME`.
abbrev pub frame_request : ℕ
frame_request = 1

abbrev pub frame_meta : ℕ
frame_meta = 2

abbrev pub frame_chunk : ℕ
frame_chunk = 3

abbrev pub frame_eof : ℕ
frame_eof = 4

abbrev pub frame_error : ℕ
frame_error = 5

pub record Frame : Type 0 where
  pub kind : ℕ
  pub payload : Bytes

-- The messages of the errors that the transfer throws.
pub data TransferError : Type 0 where
  bad_header bad_type too_large truncated : TransferError

pub data Encoded : Type 0 where
  ok : Bytes → Encoded
  err : TransferError → Encoded

-- writeUInt32BE.
abbrev pub uint32_be : ℕ → Bytes
uint32_be n = (n / 16777216 % 256) ∷ (n / 65536 % 256) ∷ (n / 256 % 256) ∷ (n % 256) ∷ []

-- readUInt32BE.
abbrev pub read_uint32_be : ℕ → ℕ → ℕ → ℕ → ℕ
read_uint32_be a b c d = a * 16777216 + b * 65536 + c * 256 + d

abbrev pub header : ℕ → ℕ → Bytes
header kind size = magic_0 ∷ magic_1 ∷ version ∷ kind ∷ uint32_be size

abbrev pub bad_kind : ℕ → Bool
bad_kind kind = ltb kind frame_request || ltb frame_error kind

unfoldable pub encode_frame : ℕ → Bytes → Encoded
encode_frame kind body =
    if bad_kind kind
    then err bad_type
    else if ltb max_frame_bytes (length body)
    then err too_large
    else ok (header kind (length body) ++ body)

-- What the front of the pending bytes holds: too few bytes (and how many are needed), an error,
-- or a whole frame with the bytes behind it.
pub data Front : Type 0 where
  more : ℕ → Front
  bad : TransferError → Front
  whole : ℕ → Bytes → Bytes → Front

unfoldable pub read_body : ℕ → ℕ → Bytes → Front
read_body kind size body =
    if bad_kind kind
    then bad bad_type
    else if ltb max_frame_bytes size
    then bad too_large
    else if ltb (length body) size
    then more (header_bytes + size)
    else whole kind (take size body) (drop size body)

unfoldable pub next_frame : Bytes → Front
next_frame (m0 ∷ m1 ∷ v ∷ kind ∷ a ∷ b ∷ c ∷ d ∷ body) =
    if not (m0 == magic_0) || not (m1 == magic_1) || not (v == version)
    then bad bad_header
    else read_body kind (read_uint32_be a b c d) body
next_frame _ = more header_bytes

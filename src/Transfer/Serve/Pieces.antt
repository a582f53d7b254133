-- ===== src/Transfer/Serve/Pieces.antt =====
-- The pieces in which `serveAuthorizedObject` (src/object-transfer.mjs) sends an object.
use relayswarm.Base.{
  ℕ, zero, suc, ◌+◌, ◌/◌, ◌≤◌, ◌<◌, ◌≡◌, refl, ap, ◌∙◌, List, [], ◌∷◌, ◌++◌, arith, length,
  length-take, length-drop, take-append-drop, take, drop, flatten,
}
use relayswarm.Transfer.Frame.{Bytes, max_frame_bytes}
use relayswarm.Transfer.Receive.{max_chunks}
use relayswarm.Transfer.Serve.{object_chunks_with, object_chunks}

-- Each piece fills a frame and none is empty.
abbrev pub Pieces : List Bytes → Type 0
Pieces [] = Unit {0}
Pieces (c ∷ cs) = (0 < length c) × (length c ≤ max_frame_bytes) × Pieces cs

flatten-object_chunks_with :
    (n : ℕ) (bytes : Bytes) → length bytes ≤ n → flatten (object_chunks_with n bytes) ≡ bytes
unfolding object_chunks_with flatten
flatten-object_chunks_with zero [] h = refl
flatten-object_chunks_with zero (x ∷ bytes) h = absurd (omega arith)
flatten-object_chunks_with (suc n) [] h = refl
flatten-object_chunks_with (suc n) (x ∷ bytes) h =
    ap (◌++◌ (take max_frame_bytes (x ∷ bytes))) (
      flatten-object_chunks_with n (drop max_frame_bytes (x ∷ bytes))
        (omega (arith, length-drop max_frame_bytes (x ∷ bytes))))
    ∙ take-append-drop max_frame_bytes (x ∷ bytes)

object_chunks_with-Pieces : (n : ℕ) (bytes : Bytes) → Pieces (object_chunks_with n bytes)
unfolding object_chunks_with
object_chunks_with-Pieces zero bytes = tt
object_chunks_with-Pieces (suc n) [] = tt
object_chunks_with-Pieces (suc n) (x ∷ bytes) = (
  omega (arith, length-take max_frame_bytes (x ∷ bytes)),
  omega (arith, length-take max_frame_bytes (x ∷ bytes)),
  object_chunks_with-Pieces n (drop max_frame_bytes (x ∷ bytes)),
)

length-object_chunks_with :
    (n : ℕ) (bytes : Bytes)
    → length bytes ≤ n
    → length (object_chunks_with n bytes) ≡ (length bytes + 65535) / 65536
unfolding object_chunks_with
length-object_chunks_with zero [] h = refl
length-object_chunks_with zero (x ∷ bytes) h = absurd (omega arith)
length-object_chunks_with (suc n) [] h = refl
length-object_chunks_with (suc n) (x ∷ bytes) h = omega (
  arith,
  length-object_chunks_with n (drop max_frame_bytes (x ∷ bytes)),
  length-drop max_frame_bytes (x ∷ bytes),
)

-- The pieces are the object, cut.
pub flatten-object_chunks : (bytes : Bytes) → flatten (object_chunks bytes) ≡ bytes
unfolding object_chunks
flatten-object_chunks bytes = flatten-object_chunks_with (length bytes) bytes (omega arith)

pub object_chunks-Pieces : (bytes : Bytes) → Pieces (object_chunks bytes)
unfolding object_chunks
object_chunks-Pieces bytes = object_chunks_with-Pieces (length bytes) bytes

-- They stay within the number of chunks that the receiver accepts for an object of this size.
pub length-object_chunks-le :
    (bytes : Bytes) → length (object_chunks bytes) ≤ max_chunks (length bytes)
unfolding object_chunks max_chunks
length-object_chunks-le bytes = omega (arith, length-object_chunks_with (length bytes) bytes)

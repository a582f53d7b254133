-- ===== src/Transfer/Decode/Chunks.antt =====
-- How the stream is cut does not matter to `decodeFrames` (src/object-transfer.mjs).
use relayswarm.Base.{
  ℕ, zero, suc, ◌<◌, ◌≡◌, refl, ap, sym, ◌∙◌, ◌≡⟨◌⟩◌, ◌∎, some, List, [], ◌∷◌, ◌++◌, arith, length,
  append_assoc, append-nil, flatten, inl, inr,
}
use relayswarm.Transfer.Frame.{Bytes, Frame, whole, next_frame}
use relayswarm.Transfer.Frame.Laws.{next_frame-lt, next_frame-whole-append, next_frame-bad-append}
use relayswarm.Transfer.Decode.{
  Drained, waiting, failed, yield_frame, drain_with, drain, Decoded, decode_from, decode_frames,
  yielded,
}
use relayswarm.Transfer.Decode.Laws.{Front-cases, drain-more, drain-bad, drain-whole}

abbrev pub prepend : List Frame → Drained → Drained
prepend fs (waiting gs rest) = waiting (fs ++ gs) rest
prepend fs (failed gs e) = failed (fs ++ gs) e

abbrev resume : Drained → Bytes → Drained
resume (waiting fs rest) after = prepend fs (drain (rest ++ after))
resume (failed fs e) after = failed fs e

pub prepend-cons :
    (f : Frame) (fs : List Frame) (d : Drained) → prepend (f ∷ fs) d ≡ yield_frame f (prepend fs d)
prepend-cons f fs (waiting gs r) = refl
prepend-cons f fs (failed gs e) = refl

pub prepend-nil : (d : Drained) → prepend [] d ≡ d
prepend-nil (waiting gs r) = refl
prepend-nil (failed gs e) = refl

resume-yield_frame :
    (f : Frame) (d : Drained) (after : Bytes)
    → resume (yield_frame f d) after ≡ yield_frame f (resume d after)
resume-yield_frame f (waiting fs r) after = prepend-cons f fs (drain (r ++ after))
resume-yield_frame f (failed fs e) after = refl

drain-append_whole :
    (p after : Bytes) {k : ℕ} {b r : Bytes}
    → next_frame p ≡ whole k b r
    → drain (r ++ after) ≡ resume (drain r) after
    → drain (p ++ after) ≡ resume (drain p) after
drain-append_whole p after {k} {b} {r} q ih =
    drain-whole (p ++ after) (next_frame-whole-append p after q)
    ∙ ap (yield_frame _) ih
    ∙ sym (ap (λ d. resume d after) (drain-whole p q) ∙ resume-yield_frame _ (drain r) after)

drain-append_within :
    (n : ℕ) (p after : Bytes) → length p < n → drain (p ++ after) ≡ resume (drain p) after
drain-append_within zero p after h = absurd (omega arith)
drain-append_within (suc n) p after h = elim (Front-cases (next_frame p)) [
  | inl (needed, e) ↦ rw (drain-more p e) (sym (prepend-nil _))
  | inr (inl (e, q)) ↦ rw (drain-bad p q) (drain-bad (p ++ after) (next_frame-bad-append p after q))
  | inr (inr (k, b, r, q)) ↦
      drain-append_whole p after q
        (drain-append_within n r after (omega (arith, next_frame-lt p q)))
]

-- Bytes that arrive later find the loop where the earlier ones left it.
drain-append : (p after : Bytes) → drain (p ++ after) ≡ resume (drain p) after
drain-append p after = drain-append_within (suc (length p)) p after (omega arith)

abbrev pub continue : Drained → List Bytes → Decoded
continue (waiting fs rest) chunks = yielded fs (decode_from rest chunks)
continue (failed fs e) chunks = record { frames = fs; error = some e }

pub continue-cons :
    (p chunk : Bytes) (chunks : List Bytes)
    → decode_from p (chunk ∷ chunks) ≡ continue (drain (p ++ chunk)) chunks
unfolding decode_from
continue-cons p chunk chunks = ground arith

continue-prepend :
    (fs : List Frame) (d : Drained) (chunks : List Bytes)
    → continue (prepend fs d) chunks ≡ yielded fs (continue d chunks)
continue-prepend fs (waiting gs r) chunks =
    ground (arith, append_assoc fs gs (decode_from r chunks).frames)
continue-prepend fs (failed gs e) chunks = refl

continue-resume :
    (d : Drained) (after : Bytes) (chunks : List Bytes)
    → continue (resume d after) chunks ≡ continue d (after ∷ chunks)
continue-resume (waiting fs r) after chunks =
    continue-prepend fs (drain (r ++ after)) chunks
    ∙ ap (yielded fs) (sym (continue-cons r after chunks))
continue-resume (failed fs e) after chunks = refl

decode_from-join :
    (p a b : Bytes) (chunks : List Bytes)
    → decode_from p (a ∷ b ∷ chunks) ≡ decode_from p ((a ++ b) ∷ chunks)
decode_from-join p a b chunks =
    decode_from p (a ∷ b ∷ chunks)
    ≡⟨ continue-cons p a (b ∷ chunks) ⟩ continue (drain (p ++ a)) (b ∷ chunks)
    ≡⟨ sym (continue-resume (drain (p ++ a)) b chunks) ⟩ continue (resume (drain (p ++ a)) b) chunks
    ≡⟨ ap (λ d. continue d chunks) (sym (drain-append (p ++ a) b)) ⟩
      continue (drain ((p ++ a) ++ b)) chunks
    ≡⟨ ap (λ q. continue (drain q) chunks) (append_assoc p a b) ⟩
      continue (drain (p ++ (a ++ b))) chunks
    ≡⟨ sym (continue-cons p (a ++ b) chunks) ⟩ decode_from p ((a ++ b) ∷ chunks) ∎

decode_from-flatten :
    (p a : Bytes) (chunks : List Bytes)
    → decode_from p (a ∷ chunks) ≡ decode_from p ((a ++ flatten chunks) ∷ [])
unfolding flatten
decode_from-flatten p a [] = rw (append-nil a)
decode_from-flatten p a (b ∷ chunks) =
    decode_from-join p a b chunks
    ∙ decode_from-flatten p (a ++ b) chunks
    ∙ ap (λ q. decode_from p (q ∷ [])) (append_assoc a b (flatten chunks))

-- The frames that the decoder yields, and the error that ends it, depend on the bytes of the
-- stream alone, not on how they are cut into chunks.
pub decode_frames-flatten :
    (chunks : List Bytes) → decode_frames chunks ≡ decode_frames (flatten chunks ∷ [])
unfolding decode_frames decode_from drain_with flatten
decode_frames-flatten [] = refl
decode_frames-flatten (a ∷ chunks) = decode_from-flatten [] a chunks

-- ===== src/Transfer/Receive/Buffer.antt =====
-- The parts that `receiveObject` (src/object-transfer.mjs) holds until a frame is whole, against a
-- receiver that joins and reads the pending bytes on every arrival.
use native.Mathlib.Nat.{le_refl}
use relayswarm.Base.{
  ℕ, zero, suc, ◌+◌, ◌≤◌, ◌<◌, ◌≡◌, refl, ap, sym, ◌∙◌, List, [], ◌∷◌, ◌++◌, arith, length, inl,
  inr, length-append, Bool-cases, ltb, ltb→lt, flatten, append_assoc, append-nil,
}
use relayswarm.Transfer.Frame.{Bytes, next_frame, more, max_frame_bytes, header_bytes}
use relayswarm.Transfer.Frame.Laws.{next_frame-lt, next_frame-more, next_frame-more-append}
use relayswarm.Transfer.Decode.Laws.{Front-cases}
use relayswarm.Transfer.Identity.{Identity, Runtime}
use relayswarm.Transfer.Receive.{
  Progress, Receiver, ReceiveError, Handled, continues, done, throws, Looped, waits, finished,
  fails, after_frame, loop, Status, running, resolved, rejected, on_data, settle, as_parts,
}
use relayswarm.Transfer.Receive.Loop.{loop-more, loop-bad, loop-whole}

flatten-append_single : (ps : List Bytes) (c : Bytes) → flatten (ps ++ c ∷ []) ≡ flatten ps ++ c
unfolding flatten
flatten-append_single [] c = append-nil c
flatten-append_single (p ∷ ps) c =
    ap (◌++◌ p) (flatten-append_single ps c) ∙ sym (append_assoc p (flatten ps) c)

flatten-as_parts : (p : Bytes) → flatten (as_parts p) ≡ p
unfolding flatten
flatten-as_parts [] = refl
flatten-as_parts (x ∷ p) = append-nil (x ∷ p)

-- The bytes held are counted, start with a frame that is not whole, and are fewer than one header
-- and one payload.
pub record IsBuffered (r : Receiver) : Type 0 where
  pub bytes_counted : r.part_bytes ≡ length (flatten r.parts)
  pub wanted : ℕ
  pub waits_for : next_frame (flatten r.parts) ≡ more wanted
  pub not_late : r.needed ≤ wanted
  pub below_needed : r.part_bytes < r.needed
  pub needed_bounded : r.needed ≤ header_bytes + max_frame_bytes

abbrev pub Buffered : Status → Type 0
Buffered (running r) = IsBuffered r
Buffered _ = Unit {0}

-- The receiver that holds one buffer.
pub data Joined : Type 0 where
  awaiting : Progress → Bytes → Joined
  complete : Bytes → Joined
  failing : ReceiveError → Joined

abbrev pub view : Status → Joined
view (running r) = awaiting r.progress (flatten r.parts)
view (resolved o) = complete o
view (rejected e) = failing e

abbrev pub drop_needed : Looped → Joined
drop_needed (waits p rest n) = awaiting p rest
drop_needed (finished o) = complete o
drop_needed (fails e) = failing e

view-settle : (l : Looped) → view (settle l) ≡ drop_needed l
view-settle (waits p rest n) = ap (awaiting p) (flatten-as_parts rest)
view-settle (finished o) = refl
view-settle (fails e) = refl

module _ (rt : Runtime) (expected : Identity) (max_object_bytes : ℕ) where
  abbrev run_loop : Progress → Bytes → Looped
  run_loop = loop rt expected max_object_bytes

  abbrev pub Stops : Looped → Type 0
  Stops (waits p rest n) = next_frame rest ≡ more n
  Stops _ = Unit {0}

  after_frame-Stops :
      (h : Handled) (next : Progress → Looped)
      → ((p : Progress) → Stops (next p))
      → Stops (after_frame h next)
  after_frame-Stops (continues p) next rest = rest p
  after_frame-Stops (done o) next rest = tt
  after_frame-Stops (throws e) next rest = tt

  -- The loop leaves no whole frame in the buffer.
  pub loop-Stops :
      (n : ℕ) (p : Progress) (pending : Bytes) → length pending < n → Stops (run_loop p pending)
  loop-Stops zero p pending h = absurd (omega arith)
  loop-Stops (suc n) p pending h = elim (Front-cases (next_frame pending)) [
    | inl (needed, e) ↦ rw (loop-more rt expected max_object_bytes p pending e) e
    | inr (inl (e, q)) ↦ rw (loop-bad rt expected max_object_bytes p pending q) tt
    | inr (inr (kind, b, r, q)) ↦
        rw (loop-whole rt expected max_object_bytes p pending q)
          (after_frame-Stops _ _ (λ p'. loop-Stops n p' r (omega (arith, next_frame-lt pending q))))
  ]

  settle-Buffered : (l : Looped) → Stops l → Buffered (settle l)
  settle-Buffered (waits p rest n) q =
      let m = next_frame-more rest q in
      record {
        bytes_counted = ap length (sym (flatten-as_parts rest));
        wanted = n;
        waits_for = ap next_frame (flatten-as_parts rest) ∙ q;
        not_late = le_refl n;
        below_needed = m.0;
        needed_bounded = m.1;
      }
  settle-Buffered (finished o) q = tt
  settle-Buffered (fails e) q = tt

  module _ (r : Receiver) (chunk : Bytes) (b : IsBuffered r) where
    still_more :
        r.part_bytes + length chunk < r.needed
        → next_frame (flatten r.parts ++ chunk) ≡ more b.wanted
    still_more h =
        next_frame-more-append (flatten r.parts) chunk b.waits_for
          (omega (arith, length-append (flatten r.parts) chunk, b.bytes_counted, b.not_late))

    short_Buffered :
        r.part_bytes + length chunk < r.needed
        → IsBuffered
            (record r { parts = r.parts ++ chunk ∷ []; part_bytes = r.part_bytes + length chunk })
    short_Buffered h = record {
      bytes_counted =
          ap (λ n. n + length chunk) b.bytes_counted
          ∙ sym (length-append (flatten r.parts) chunk)
          ∙ ap length (sym (flatten-append_single r.parts chunk));
      wanted = b.wanted;
      waits_for = ap next_frame (flatten-append_single r.parts chunk) ∙ still_more h;
      not_late = b.not_late;
      below_needed = h;
      needed_bounded = b.needed_bounded;
    }

    -- If a receiver counts exactly the bytes that it holds, and they are an unfinished frame and fewer
    -- than `needed`, which is no more than that frame needs and at most a header and the largest frame,
    -- then so it is after an arrival, unless the promise has settled.
    pub on_data-Buffered : Buffered (on_data rt expected max_object_bytes r chunk)
    unfolding on_data
    on_data-Buffered = elim (Bool-cases (ltb (r.part_bytes + length chunk) r.needed)) [
      | inl short ↦ rw (short, on_data) (short_Buffered (ltb→lt _ _ short))
      | inr enough ↦
          rw (enough, on_data) (settle-Buffered _ (loop-Stops _ r.progress _ (le_refl _)))
    ]

    -- Holding the parts until `needed` bytes are there changes nothing that a client can see: the
    -- outcome is that of joining and reading them on every arrival.
    pub view-on_data :
        view (on_data rt expected max_object_bytes r chunk)
        ≡ drop_needed (run_loop r.progress (flatten r.parts ++ chunk))
    unfolding on_data
    view-on_data = elim (Bool-cases (ltb (r.part_bytes + length chunk) r.needed)) [
      | inl short ↦
          rw (short, on_data)
            (ap (awaiting r.progress) (flatten-append_single r.parts chunk)
              ∙ sym (
                  ap drop_needed (
                    loop-more rt expected max_object_bytes r.progress (flatten r.parts ++ chunk)
                      (still_more (ltb→lt _ _ short)))))
      | inr enough ↦
          rw (enough, on_data)
            (view-settle _
              ∙ ap (λ q. drop_needed (run_loop r.progress q)) (flatten-append_single r.parts chunk))
    ]

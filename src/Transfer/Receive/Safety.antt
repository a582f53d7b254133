-- ===== src/Transfer/Receive/Safety.antt =====
-- What `receiveObject` (src/object-transfer.mjs) resolves with.
use relayswarm.Base.{
  ℕ, zero, suc, ◌+◌, ◌≤◌, ◌<◌, ◌≡◌, List, [], ◌∷◌, arith, length, inl, inr, length-append,
  Bool-cases, ltb, text_eq→eq, false, subst,
}
use native.Mathlib.Nat.{le_refl}
use relayswarm.Transfer.Frame.{Bytes, next_frame}
use relayswarm.Transfer.Frame.Laws.{next_frame-lt}
use relayswarm.Transfer.Decode.Laws.{Front-cases}
use relayswarm.Transfer.Identity.{Identity, Runtime}
use relayswarm.Transfer.Receive.{
  Progress, Receiver, Handled, continues, done, throws, Looped, waits, finished, fails, after_frame,
  on_frame, loop, Status, running, resolved, rejected, on_data, Event, data_arrived, on_event,
  receive_from, receive_object, max_chunks, settle, new_receiver, start,
}
use relayswarm.Transfer.Receive.Loop.{loop-more, loop-bad, loop-whole}

module _ (rt : Runtime) (expected : Identity) (max_object_bytes : ℕ) where
  pub record IsCounted (p : Progress) : Type 0 where
    pub counted : p.received_bytes ≡ length p.object
    pub hashes_all : p.hashed ≡ p.object
    pub within_size : p.received_bytes ≤ expected.size
    pub within_chunks : p.chunk_count ≤ max_chunks expected.size
    pub metadata_first : p.metadata_seen ≡ false → (p.received_bytes ≡ 0) × (p.chunk_count ≡ 0)

  abbrev pub IsExpected : Bytes → Type 0
  IsExpected o = (length o ≡ expected.size) × (rt.sha256_hex o ≡ expected.sha256)

  -- What holds of the outcome of a frame, of the loop and of an event.
  abbrev HandledRight : Handled → Type 0
  HandledRight (continues p) = IsCounted p
  HandledRight (done o) = IsExpected o
  HandledRight (throws e) = Unit

  abbrev LoopedRight : Looped → Type 0
  LoopedRight (waits p rest n) = IsCounted p
  LoopedRight (finished o) = IsExpected o
  LoopedRight (fails e) = Unit

  abbrev pub StatusRight : Status → Type 0
  StatusRight (running r) = IsCounted r.progress
  StatusRight (resolved o) = IsExpected o
  StatusRight (rejected e) = Unit

  on_frame-HandledRight :
      (p : Progress) (kind : ℕ) (payload pending : Bytes)
      → IsCounted p
      → HandledRight (on_frame rt expected max_object_bytes p kind payload pending)
  unfolding on_frame
  on_frame-HandledRight p kind payload pending c =
      ground
        (arith, length-append p.object payload, text_eq→eq (rt.sha256_hex p.hashed) expected.sha256)

  after_frame-LoopedRight :
      (h : Handled) (next : Progress → Looped)
      → HandledRight h
      → ((p : Progress) → IsCounted p → LoopedRight (next p))
      → LoopedRight (after_frame h next)
  after_frame-LoopedRight (continues p) next c rest = rest p c
  after_frame-LoopedRight (done o) next c rest = c
  after_frame-LoopedRight (throws e) next c rest = tt

  loop-LoopedRight :
      (n : ℕ) (p : Progress) (pending : Bytes)
      → length pending < n
      → IsCounted p
      → LoopedRight (loop rt expected max_object_bytes p pending)
  loop-LoopedRight zero p pending h c = absurd (omega arith)
  loop-LoopedRight (suc n) p pending h c = elim (Front-cases (next_frame pending)) [
    | inl (needed, e) ↦ rw (loop-more rt expected max_object_bytes p pending e) c
    | inr (inl (e, q)) ↦ rw (loop-bad rt expected max_object_bytes p pending q) tt
    | inr (inr (kind, b, r, q)) ↦ rw (loop-whole rt expected max_object_bytes p pending q) (
        after_frame-LoopedRight _ _ (on_frame-HandledRight p kind b r c)
          (λ p' c'. loop-LoopedRight n p' r (omega (arith, next_frame-lt pending q)) c'))
  ]

  settle-StatusRight : (l : Looped) → LoopedRight l → StatusRight (settle l)
  settle-StatusRight (waits p rest n) c = c
  settle-StatusRight (finished o) c = c
  settle-StatusRight (fails e) c = tt

  on_data-StatusRight :
      (r : Receiver) (chunk : Bytes)
      → IsCounted r.progress
      → StatusRight (on_data rt expected max_object_bytes r chunk)
  unfolding on_data
  on_data-StatusRight r chunk c = elim (Bool-cases (ltb (r.part_bytes + length chunk) r.needed)) [
    | inl short ↦ rw (short, on_data) c
    | inr enough ↦
        rw (enough, on_data) (settle-StatusRight _ (loop-LoopedRight _ r.progress _ (le_refl _) c))
  ]

  -- Every event keeps the counts of the running receiver within what was authorised.
  on_event-StatusRight :
      (s : Status) (e : Event)
      → StatusRight s
      → StatusRight (on_event rt expected max_object_bytes s e)
  unfolding on_event
  on_event-StatusRight (running r) (data_arrived chunk) c = on_data-StatusRight r chunk c
  on_event-StatusRight (running r) _ c = tt
  on_event-StatusRight (resolved o) _ c = c
  on_event-StatusRight (rejected e) _ c = tt

  receive_from-StatusRight :
      (s : Status) (es : List Event)
      → StatusRight s
      → StatusRight (receive_from rt expected max_object_bytes s es)
  unfolding receive_from
  receive_from-StatusRight s [] c = c
  receive_from-StatusRight s (e ∷ es) c =
      receive_from-StatusRight (on_event rt expected max_object_bytes s e) es
        (on_event-StatusRight s e c)

  start-IsCounted : IsCounted start
  start-IsCounted = ground arith

  -- Whatever arrives on the stream, an object that the transfer resolves with has the authorised
  -- size and the authorised SHA-256 digest.
  pub receive_object-IsExpected :
      (events : List Event) {object : Bytes}
      → receive_object rt expected max_object_bytes events ≡ resolved object
      → (length object ≡ expected.size) × (rt.sha256_hex object ≡ expected.sha256)
  unfolding receive_object
  receive_object-IsExpected events h =
      subst StatusRight h (receive_from-StatusRight (running new_receiver) events start-IsCounted)

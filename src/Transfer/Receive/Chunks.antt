-- ===== src/Transfer/Receive/Chunks.antt =====
-- `receiveObject` (src/object-transfer.mjs) under every way of cutting the stream.
use native.Mathlib.Nat.{le_refl}
use relayswarm.Base.{
  ℕ, zero, suc, ◌<◌, ◌≡◌, refl, ap, sym, ◌∙◌, List, [], ◌∷◌, ◌++◌, arith, length, inl, inr, ◌⊎◌,
  length-append, flatten, append_assoc, append-nil, subst, map,
}
use relayswarm.Transfer.Frame.{Bytes, next_frame, more}
use relayswarm.Transfer.Frame.Laws.{next_frame-lt, next_frame-whole-append, next_frame-bad-append}
use relayswarm.Transfer.Decode.Laws.{Front-cases}
use relayswarm.Transfer.Identity.{Identity, Runtime}
use relayswarm.Transfer.Receive.{
  Progress, ReceiveError, Handled, continues, done, throws, Looped, waits, finished, fails,
  after_frame, on_frame, loop, Status, running, resolved, rejected, on_data, start, new_receiver,
  data_arrived, on_event, receive_from, receive_object,
}
use relayswarm.Transfer.Receive.Loop.{loop-more, loop-bad, loop-whole}
use relayswarm.Transfer.Receive.Buffer.{
  IsBuffered, Buffered, view, drop_needed, awaiting, complete, failing, Joined, view-on_data,
  on_data-Buffered, Stops, loop-Stops,
}

abbrev Throws : Handled → Type 0
Throws (throws e) = Unit {0}
Throws _ = ⊥

abbrev Fails : Looped → Type 0
Fails (fails e) = Unit {0}
Fails _ = ⊥

-- How a frame is handled when more bytes stand behind it.
abbrev HandledExtends : Handled → Bytes → Handled → Type 0
HandledExtends (continues p) after h = h ≡ continues p
HandledExtends (done o) after h = ((after ≡ []) × (h ≡ done o)) ⊎ Throws h
HandledExtends (throws e) after h = Throws h

HandledExtends-self : (h : Handled) → HandledExtends h [] h
HandledExtends-self (continues p) = refl
HandledExtends-self (done o) = inl (refl, refl)
HandledExtends-self (throws e) = tt

waits-not-finished : {p : Progress} {q : Bytes} {n : ℕ} {o : Bytes} → waits p q n ≡ finished o → ⊥
waits-not-finished h = cc

module _ (rt : Runtime) (expected : Identity) (max_object_bytes : ℕ) where
  abbrev run : Progress → Bytes → Looped
  run = loop rt expected max_object_bytes

  abbrev handle : Progress → ℕ → Bytes → Bytes → Handled
  handle = on_frame rt expected max_object_bytes

  abbrev Extends : Looped → Bytes → Looped → Type 0
  Extends (waits p rest n) after l = l ≡ run p (rest ++ after)
  Extends (finished o) after l = ((after ≡ []) × (l ≡ finished o)) ⊎ Fails l
  Extends (fails e) after l = Fails l

  on_frame-append :
      (p : Progress) (k : ℕ) (b r after : Bytes)
      → HandledExtends (handle p k b r) after (handle p k b (r ++ after))
  unfolding on_frame
  on_frame-append p k b r [] =
      subst (λ q. HandledExtends (handle p k b r) [] (handle p k b q)) (sym (append-nil r))
        (HandledExtends-self (handle p k b r))
  on_frame-append p k b r (x ∷ after) = ground (arith, length-append r (x ∷ after))

  after_frame-Extends :
      (h h' : Handled) (r after : Bytes)
      → HandledExtends h after h'
      → ((p : Progress) → Extends (run p r) after (run p (r ++ after)))
      → Extends (after_frame h (λ p. run p r)) after (after_frame h' (λ p. run p (r ++ after)))
  after_frame-Extends (continues p) h' r after e rest = rw e (rest p)
  after_frame-Extends (done o) h' r after (inl (nothing, e)) rest = rw e (inl (nothing, refl))
  after_frame-Extends (done o) (throws e) r after (inr t) rest = inr tt
  after_frame-Extends (done o) (continues p) r after (inr t) rest = absurd t
  after_frame-Extends (done o) (done o') r after (inr t) rest = absurd t
  after_frame-Extends (throws e) (throws e') r after t rest = tt
  after_frame-Extends (throws e) (continues p) r after t rest = absurd t
  after_frame-Extends (throws e) (done o) r after t rest = absurd t

  -- More bytes go on from where the loop waited, change nothing of a resolved object if there are
  -- none of them, and make no failure good.
  loop-Extends :
      (n : ℕ) (p : Progress) (pending after : Bytes)
      → length pending < n
      → Extends (run p pending) after (run p (pending ++ after))
  loop-Extends zero p pending after h = absurd (omega arith)
  loop-Extends (suc n) p pending after h = elim (Front-cases (next_frame pending)) [
    | inl (needed, e) ↦ rw (loop-more rt expected max_object_bytes p pending e) refl
    | inr (inl (e, q)) ↦
        rw
          (
            loop-bad rt expected max_object_bytes p pending q,
            loop-bad rt expected max_object_bytes p (pending ++ after)
                (next_frame-bad-append pending after q),
          )
          tt
    | inr (inr (k, b, r, q)) ↦
        rw
          (
            loop-whole rt expected max_object_bytes p pending q,
            loop-whole rt expected max_object_bytes p (pending ++ after)
                (next_frame-whole-append pending after q),
          )
          (after_frame-Extends _ _ r after (on_frame-append p k b r after)
            (λ p'. loop-Extends n p' r after (omega (arith, next_frame-lt pending q))))
  ]

  -- The receiver with one buffer, over the chunks that arrive.
  pub joined_from : Joined → List Bytes → Joined
  joined_from (awaiting p q) [] = awaiting p q
  joined_from (awaiting p q) (c ∷ cs) = joined_from (drop_needed (run p (q ++ c))) cs
  joined_from (complete o) _ = complete o
  joined_from (failing e) _ = failing e

  joined_from-complete : (o : Bytes) (cs : List Bytes) → joined_from (complete o) cs ≡ complete o
  unfolding joined_from
  joined_from-complete o [] = refl
  joined_from-complete o (c ∷ cs) = refl

  joined_from-failing :
      (e : ReceiveError) (cs : List Bytes) → joined_from (failing e) cs ≡ failing e
  unfolding joined_from
  joined_from-failing e [] = refl
  joined_from-failing e (c ∷ cs) = refl

  joined_from-step :
      (l : Looped) (o : Bytes) (cs : List Bytes)
      → Extends l (flatten cs) (finished o)
      → Stops rt expected max_object_bytes l
      → ((p : Progress) (q : Bytes) (n : ℕ)
          → next_frame q ≡ more n
          → run p (q ++ flatten cs) ≡ finished o
          → joined_from (awaiting p q) cs ≡ complete o)
      → joined_from (drop_needed l) cs ≡ complete o
  joined_from-step (waits p rest n) o cs e stops ih = ih p rest n stops (sym e)
  joined_from-step (finished o') o cs (inl (nothing, e)) stops ih = joined_from-complete o' cs ∙ cc
  joined_from-step (finished o') o cs (inr t) stops ih = absurd t
  joined_from-step (fails e) o cs t stops ih = absurd t

  joined_from-finished :
      (cs : List Bytes) (o : Bytes) (p : Progress) (q : Bytes) (n : ℕ)
      → next_frame q ≡ more n
      → run p (q ++ flatten cs) ≡ finished o
      → joined_from (awaiting p q) cs ≡ complete o
  unfolding joined_from flatten
  joined_from-finished [] o p q n m h = absurd (
      waits-not-finished (
        sym (loop-more rt expected max_object_bytes p q m) ∙ (ap (run p) (sym (append-nil q)) ∙ h)))
  joined_from-finished (c ∷ cs) o p q n m h =
      joined_from-step (run p (q ++ c)) o cs
        (subst (Extends (run p (q ++ c)) (flatten cs))
          (ap (run p) (append_assoc q c (flatten cs)) ∙ h)
          (loop-Extends _ p (q ++ c) (flatten cs) (le_refl _)))
        (loop-Stops rt expected max_object_bytes _ p (q ++ c) (le_refl _))
        (joined_from-finished cs o)

  -- Over any chunks, a receiver whose buffer is counted and waits for no more than its bytes call for
  -- does what the receiver with one buffer does, which reads that buffer on every arrival.
  pub view-receive_from :
      (s : Status) (cs : List Bytes)
      → Buffered s
      → view (receive_from rt expected max_object_bytes s (map data_arrived cs))
        ≡ joined_from (view s) cs
  unfolding receive_from joined_from on_event
  view-receive_from (running r) [] b = refl
  view-receive_from (running r) (c ∷ cs) b =
      view-receive_from (on_data rt expected max_object_bytes r c) cs
        (on_data-Buffered rt expected max_object_bytes r c b)
      ∙ ap (λ j. joined_from j cs) (view-on_data rt expected max_object_bytes r c b)
  view-receive_from (resolved o) [] b = refl
  view-receive_from (resolved o) (c ∷ cs) b =
      view-receive_from (resolved o) cs tt ∙ joined_from-complete o cs
  view-receive_from (rejected e) [] b = refl
  view-receive_from (rejected e) (c ∷ cs) b =
      view-receive_from (rejected e) cs tt ∙ joined_from-failing e cs

  new_receiver-IsBuffered : IsBuffered new_receiver
  unfolding next_frame flatten
  new_receiver-IsBuffered = record {
    bytes_counted = refl;
    wanted = 8;
    waits_for = refl;
    not_late = le_refl 8;
    below_needed = omega arith;
    needed_bounded = omega arith;
  }

  view-resolved : (s : Status) (o : Bytes) → view s ≡ complete o → s ≡ resolved o
  view-resolved (running r) o h = cc
  view-resolved (resolved o') o h = cc
  view-resolved (rejected e) o h = cc

  nil-more : next_frame [] ≡ more 8
  unfolding next_frame
  nil-more = refl

  -- Bytes that make the loop finish in one piece make the transfer resolve with the same object in
  -- any pieces.
  pub receive_object-finished :
      (chunks : List Bytes) {object : Bytes}
      → loop rt expected max_object_bytes start (flatten chunks) ≡ finished object
      → receive_object rt expected max_object_bytes (map data_arrived chunks) ≡ resolved object
  unfolding receive_object flatten
  receive_object-finished chunks {object} h = view-resolved _ object (
      view-receive_from (running new_receiver) chunks new_receiver-IsBuffered
      ∙ joined_from-finished chunks object start [] 8 nil-more h)

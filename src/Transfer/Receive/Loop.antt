-- ===== src/Transfer/Receive/Loop.antt =====
-- The frame loop of `receiveObject` (src/object-transfer.mjs) by equations without fuel.
use relayswarm.Base.{
  ℕ, zero, suc, ◌≤◌, ◌≡◌, refl, ap, fun_ext, sym, ◌∙◌, [], ◌∷◌, arith, length, inl, inr, ◌⊎◌,
}
use relayswarm.Transfer.Frame.{Bytes, TransferError, more, bad, whole, next_frame, header_bytes}
use relayswarm.Transfer.Frame.Laws.{next_frame-lt, more-injective}
use relayswarm.Transfer.Decode.Laws.{Front-cases, nil-not-bad, nil-not-whole}
use relayswarm.Transfer.Identity.{Identity, Runtime}
use relayswarm.Transfer.Receive.{
  Progress, ReceiveError, bad_frame, Handled, continues, done, throws, Looped, waits, fails,
  after_frame, on_frame, loop_with, loop,
}

abbrev Cases : Handled → Type 0
Cases h =
    ((p : Progress) × (h ≡ continues p))
    ⊎ ((o : Bytes) × (h ≡ done o))
    ⊎ ((e : ReceiveError) × (h ≡ throws e))

Handled-Cases : (h : Handled) → Cases h
Handled-Cases (continues p) = inl (p, refl)
Handled-Cases (done o) = inr (inl (o, refl))
Handled-Cases (throws e) = inr (inr (e, refl))

next_frame-nil : next_frame [] ≡ more header_bytes
unfolding next_frame
next_frame-nil = refl

module _ (rt : Runtime) (expected : Identity) (max_object_bytes : ℕ) where
  abbrev handle : Progress → ℕ → Bytes → Bytes → Handled
  handle = on_frame rt expected max_object_bytes

  abbrev fueled : ℕ → Progress → Bytes → Looped
  fueled = loop_with rt expected max_object_bytes

  fueled-nil : (n : ℕ) (p : Progress) → fueled n p [] ≡ waits p [] header_bytes
  unfolding loop_with
  fueled-nil zero p = refl
  fueled-nil (suc n) p = rw (next_frame-nil, loop_with)

  fueled-enough :
      (m n : ℕ) (p : Progress) (pending : Bytes)
      → length pending ≤ m
      → length pending ≤ n
      → fueled m p pending ≡ fueled n p pending
  unfolding loop_with
  fueled-enough m n p [] h k = fueled-nil m p ∙ sym (fueled-nil n p)
  fueled-enough zero n p (x ∷ xs) h k = absurd (omega arith)
  fueled-enough m zero p (x ∷ xs) h k = absurd (omega arith)
  fueled-enough (suc m) (suc n) p (x ∷ xs) h k = elim (Front-cases (next_frame (x ∷ xs))) [
    | inl (needed, e) ↦ rw (e, loop_with)
    | inr (inl (e, q)) ↦ rw (q, loop_with)
    | inr (inr (kind, b, r, q)) ↦
        rw (q, loop_with)
          (ap (after_frame (handle p kind b r)) (
            fun_ext λ p'.
              fueled-enough m n p' r (omega (arith, next_frame-lt (x ∷ xs) q))
                (omega (arith, next_frame-lt (x ∷ xs) q))))
  ]

  pub loop-more :
      (p : Progress) (pending : Bytes) {n : ℕ}
      → next_frame pending ≡ more n
      → loop rt expected max_object_bytes p pending ≡ waits p pending n
  unfolding loop loop_with
  loop-more p [] h = ap (waits p []) (more-injective (sym next_frame-nil ∙ h))
  loop-more p (x ∷ xs) h = rw (h, loop, loop_with)

  pub loop-bad :
      (p : Progress) (pending : Bytes) {e : TransferError}
      → next_frame pending ≡ bad e
      → loop rt expected max_object_bytes p pending ≡ fails (bad_frame e)
  unfolding loop loop_with
  loop-bad p [] h = absurd (nil-not-bad h)
  loop-bad p (x ∷ xs) h = rw (h, loop, loop_with)

  pub loop-whole :
      (p : Progress) (pending : Bytes) {k : ℕ} {b r : Bytes}
      → next_frame pending ≡ whole k b r
      → loop rt expected max_object_bytes p pending
        ≡ after_frame (handle p k b r) (λ p'. loop rt expected max_object_bytes p' r)
  unfolding loop loop_with
  loop-whole p [] h = absurd (nil-not-whole h)
  loop-whole p (x ∷ xs) {k} {b} {r} h =
      rw (h, loop, loop_with)
        (ap (after_frame (handle p k b r)) (
          fun_ext λ p'.
            fueled-enough (length xs) (length r) p' r (omega (arith, next_frame-lt (x ∷ xs) h))
              (omega arith)))

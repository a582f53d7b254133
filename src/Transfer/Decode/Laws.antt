-- ===== src/Transfer/Decode/Laws.antt =====
-- The loop of `decodeFrames` (src/object-transfer.mjs) by equations without fuel.
use relayswarm.Base.{
  ℕ, zero, suc, ◌≤◌, ◌≡◌, refl, ap, sym, ◌∙◌, [], ◌∷◌, arith, length, ◌⊎◌, inl, inr,
}
use relayswarm.Transfer.Frame.{Bytes, TransferError, Front, more, bad, whole, next_frame}
use relayswarm.Transfer.Frame.Laws.{next_frame-lt}
use relayswarm.Transfer.Decode.{waiting, failed, yield_frame, drain_with, drain}

abbrev Fronts : Front → Type 0
Fronts f =
    ((n : ℕ) × (f ≡ more n))
    ⊎ ((e : TransferError) × (f ≡ bad e))
    ⊎ ((k : ℕ) × (b : Bytes) × (r : Bytes) × (f ≡ whole k b r))

pub Front-cases : (f : Front) → Fronts f
Front-cases (more n) = inl (n, refl)
Front-cases (bad e) = inr (inl (e, refl))
Front-cases (whole k b r) = inr (inr (k, b, r, refl))

drain_with-nil : (n : ℕ) → drain_with n [] ≡ waiting [] []
unfolding drain_with next_frame
drain_with-nil zero = refl
drain_with-nil (suc n) = refl

drain_with-enough :
    (m n : ℕ) (p : Bytes) → length p ≤ m → length p ≤ n → drain_with m p ≡ drain_with n p
unfolding drain_with
drain_with-enough m n [] h k = drain_with-nil m ∙ sym (drain_with-nil n)
drain_with-enough zero n (x ∷ p) h k = absurd (omega arith)
drain_with-enough m zero (x ∷ p) h k = absurd (omega arith)
drain_with-enough (suc m) (suc n) (x ∷ p) h k = elim (Front-cases (next_frame (x ∷ p))) [
  | inl (needed, e) ↦ rw (e, drain_with)
  | inr (inl (e, bad_front)) ↦ rw (bad_front, drain_with)
  | inr (inr (kind, b, r, e)) ↦
      rw (e, drain_with)
        (ap (yield_frame _) (
          drain_with-enough m n r (omega (arith, next_frame-lt (x ∷ p) e))
            (omega (arith, next_frame-lt (x ∷ p) e))))
]

pub drain-more : (p : Bytes) {n : ℕ} → next_frame p ≡ more n → drain p ≡ waiting [] p
unfolding drain drain_with
drain-more [] e = refl
drain-more (x ∷ p) e = rw (e, drain, drain_with)

pub nil-not-bad : {e : TransferError} → next_frame [] ≡ bad e → ⊥
unfolding next_frame
nil-not-bad h = cc

pub nil-not-whole : {k : ℕ} {b r : Bytes} → next_frame [] ≡ whole k b r → ⊥
unfolding next_frame
nil-not-whole h = cc

pub drain-bad : (p : Bytes) {e : TransferError} → next_frame p ≡ bad e → drain p ≡ failed [] e
unfolding drain drain_with
drain-bad [] h = absurd (nil-not-bad h)
drain-bad (x ∷ p) h = rw (h, drain, drain_with)

pub drain-whole :
    (p : Bytes) {k : ℕ} {b r : Bytes}
    → next_frame p ≡ whole k b r
    → drain p ≡ yield_frame (record { kind = k; payload = b }) (drain r)
unfolding drain drain_with
drain-whole [] h = absurd (nil-not-whole h)
drain-whole (x ∷ p) {r} h =
    rw (h, drain, drain_with)
      (ap (yield_frame _) (
        drain_with-enough (length p) (length r) r (omega (arith, next_frame-lt (x ∷ p) h))
          (omega arith)))

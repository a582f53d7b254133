-- ===== src/Transfer/Serve/Delivery/Request.antt =====
-- `readFirstFrame` (src/object-transfer.mjs) over a request cut anywhere.
use relayswarm.Base.{
  ℕ, ◌≡◌, refl, ap, sym, ◌∙◌, List, [], ◌∷◌, ◌++◌, arith, flatten, map, append_assoc, append-nil,
  inl, inr,
}
use relayswarm.Transfer.Frame.{Bytes, TransferError, more, bad, whole, next_frame, encode_frame, ok}
use relayswarm.Transfer.Frame.Laws.{
  next_frame-whole-append, next_frame-bad-append, next_frame-encode,
}
use relayswarm.Transfer.Decode.Laws.{Front-cases}
use relayswarm.Transfer.Receive.{data_arrived}
use relayswarm.Transfer.Serve.{reading, got, on_first, read_first, judge}

read_first-got :
    (k : ℕ) (b : Bytes) (cs : List Bytes) → read_first (got k b) (map data_arrived cs) ≡ got k b
unfolding read_first on_first
read_first-got k b [] = refl
read_first-got k b (c ∷ cs) = read_first-got k b cs

more-not-whole : {n k : ℕ} {b r : Bytes} → more n ≡ whole k b r → ⊥
more-not-whole h = cc

bad-not-whole : {e : TransferError} {k : ℕ} {b r : Bytes} → bad e ≡ whole k b r → ⊥
bad-not-whole h = cc

append-nil_inv : (r s : Bytes) → r ++ s ≡ [] → r ≡ []
append-nil_inv [] s h = refl
append-nil_inv (x ∷ r) s h = cc

judge-whole :
    (p after : Bytes) {k k' : ℕ} {b b' r : Bytes}
    → next_frame p ≡ whole k' b' r
    → next_frame (p ++ after) ≡ whole k b []
    → judge p (next_frame p) ≡ got k b
judge-whole p after {k} {k'} {b} {b'} {r} q h =
    let e : whole k' b' (r ++ after) ≡ whole k b [] = sym (next_frame-whole-append p after q) ∙ h in
    rw q (ground (arith, append-nil_inv r after))

read_first-whole :
    (cs : List Bytes) (p : Bytes) {n k : ℕ} {b : Bytes}
    → next_frame p ≡ more n
    → next_frame (p ++ flatten cs) ≡ whole k b []
    → read_first (reading p) (map data_arrived cs) ≡ got k b
unfolding read_first on_first flatten
read_first-whole [] p m h =
    absurd (more-not-whole (sym m ∙ (ap next_frame (sym (append-nil p)) ∙ h)))
read_first-whole (c ∷ cs) p {k} {b} m h =
    let joined : next_frame ((p ++ c) ++ flatten cs) ≡ whole k b [] =
      ap next_frame (append_assoc p c (flatten cs)) ∙ h in
    elim (Front-cases (next_frame (p ++ c))) [
      | inl (n', e) ↦
          ap (λ f. read_first (judge (p ++ c) f) (map data_arrived cs)) e
          ∙ read_first-whole cs (p ++ c) e joined
      | inr (inl (x, q)) ↦
          absurd (bad-not-whole (sym (next_frame-bad-append (p ++ c) (flatten cs) q) ∙ joined))
      | inr (inr (k', b', r, q)) ↦
          ap (λ s. read_first s (map data_arrived cs)) (judge-whole (p ++ c) (flatten cs) q joined)
          ∙ read_first-got k b cs
    ]

-- A frame that arrives alone is read, however it is cut.
pub read_first-encode :
    (kind : ℕ) (payload : Bytes) (chunks : List Bytes) {wire : Bytes}
    → encode_frame kind payload ≡ ok wire
    → flatten chunks ≡ wire
    → read_first (reading []) (map data_arrived chunks) ≡ got kind payload
unfolding next_frame
read_first-encode kind payload chunks {wire} h c =
    read_first-whole chunks [] refl
      (ap next_frame (c ∙ sym (append-nil wire)) ∙ next_frame-encode kind payload [] h)

-- ===== src/Transfer/Serve/Guards.antt =====
-- What `serveAuthorizedObject` (src/object-transfer.mjs) sends, and to which request.
use relayswarm.Base.{
  ℕ, ◌≡◌, refl, ap, sym, ◌∙◌, List, [], arith, length, true, false, Option, some, none, not, Bool,
  ==_iff, text_eq, text_eq→eq, Text, subst, if◌then◌else◌, ◌||◌, ◌==◌,
}
use relayswarm.Transfer.Frame.{Bytes, frame_request}
use relayswarm.Transfer.Identity.{
  Identity, Claims, Runtime, valid_identity, claims_of, is_text, is_size,
}
use relayswarm.Transfer.Receive.{Event}
use relayswarm.Transfer.Serve.{
  Served, served, failed, ServeError, bad_frame, unresolved, wrong_object, not_an_object,
  mismatched, bad_identity, not_one_request, FirstRead, reading, got, refused, read_first, Sent,
  sent, stopped, send, object_frames, serve_authorized_object, reject, finish, serve_object,
  serve_request, serve_first,
}

is_text-some : (o : Option Text) (t : Text) → is_text o t ≡ true → o ≡ some t
is_text-some none t h = cc
is_text-some (some s) t h = ap some (text_eq→eq s t h)

is_size-some : (o : Option ℕ) (n : ℕ) → is_size o n ≡ true → o ≡ some n
is_size-some none n h = cc
is_size-some (some m) n h = ap some ((==_iff m n).0 h)

abbrev if_valid : Bool → Served → Served
if_valid b s = if not b then record { written = []; outcome = failed bad_identity } else s

valid_first :
    (b : Bool) (s : Served) → (if_valid b s).outcome ≡ served → (b ≡ true) × (if_valid b s ≡ s)
valid_first true s h = (refl, refl)
valid_first false s h = cc

module _ (rt : Runtime) (rejection : Bytes) (resolve : Identity → Option Bytes)
    (max_object_bytes : ℕ) where
  abbrev pub Sends : Identity → Served → Type 0
  Sends auth s =
      (bytes : Bytes) × (resolve auth ≡ some bytes)
      × (length bytes ≡ auth.size)
      × (rt.sha256_hex bytes ≡ auth.sha256)
      × (send (object_frames rt auth bytes) ≡ sent s.written)

  abbrev pub Asks : Identity → Claims → Type 0
  Asks auth c =
      (c.request_id ≡ some auth.request_id)
      × (c.sha256 ≡ some auth.sha256)
      × (c.size ≡ some auth.size)

  reject_not_served :
      (w : Bytes) (e : ServeError)
      → (reject rt rejection resolve max_object_bytes w e).outcome ≡ served
      → ⊥
  reject_not_served w e h = ground arith

  abbrev rejecting : Bytes → ServeError → Served
  rejecting = reject rt rejection resolve max_object_bytes

  finish-served :
      (s : Sent)
      → (finish rt rejection resolve max_object_bytes s).outcome ≡ served
      → s ≡ sent (finish rt rejection resolve max_object_bytes s).written
  finish-served (sent wire) h = refl
  finish-served (stopped wire e) h = absurd (reject_not_served wire (bad_frame e) h)

  -- A guard that did not reject was false, and changed nothing.
  passed :
      (b : Bool) (w : Bytes) (e : ServeError) (s : Served)
      → (if b then rejecting w e else s).outcome ≡ served
      → (b ≡ false) × ((if b then rejecting w e else s) ≡ s)
  passed true w e s h = absurd (reject_not_served w e h)
  passed false w e s h = (refl, refl)

  serve_object-Sends :
      (auth : Identity) (o : Option Bytes)
      → resolve auth ≡ o
      → (serve_object rt rejection resolve max_object_bytes auth o).outcome ≡ served
      → Sends auth (serve_object rt rejection resolve max_object_bytes auth o)
  serve_object-Sends auth none held h = absurd (reject_not_served [] unresolved h)
  serve_object-Sends auth (some bytes) held h =
      let (right, e) =
        passed (not (length bytes == auth.size) || not (text_eq (rt.sha256_hex bytes) auth.sha256))
          [] wrong_object
          (finish rt rejection resolve max_object_bytes (send (object_frames rt auth bytes))) h in
      subst (Sends auth) (sym e) (
        bytes,
        held,
        ground arith,
        text_eq→eq _ _ (ground arith),
        finish-served _ (ap (λ s. s.outcome) (sym e) ∙ h),
      )

  serve_request-guarded :
      (auth : Identity) (o : Option Claims)
      → (serve_request rt rejection resolve max_object_bytes auth o).outcome ≡ served
      → ((c : Claims) × (o ≡ some c) × Asks auth c)
        × Sends auth (serve_request rt rejection resolve max_object_bytes auth o)
  serve_request-guarded auth none h = absurd (reject_not_served [] not_an_object h)
  serve_request-guarded auth (some c) h =
      let (valid, e) = passed (not (valid_identity c max_object_bytes)) [] bad_identity _ h in
      let (same, e') =
        passed
          (not (is_text c.request_id auth.request_id)
            || not (is_text c.sha256 auth.sha256)
            || not (is_size c.size auth.size))
          [] mismatched (serve_object rt rejection resolve max_object_bytes auth (resolve auth))
          (ap (λ s. s.outcome) (sym e) ∙ h) in
      (
        (
          c,
          refl,
          (
            is_text-some _ _ (ground arith),
            is_text-some _ _ (ground arith),
            is_size-some _ _ (ground arith),
          ),
        ),
        subst (Sends auth) (sym (e ∙ e'))
            (serve_object-Sends auth (resolve auth) refl (ap (λ s. s.outcome) (sym (e ∙ e')) ∙ h)),
      )

  serve_first-guarded :
      (auth : Identity) (r : FirstRead)
      → (serve_first rt rejection resolve max_object_bytes auth r).outcome ≡ served
      → ((payload : Bytes) × (c : Claims) × (r ≡ got frame_request payload)
          × (rt.parse payload ≡ some c)
          × Asks auth c)
        × Sends auth (serve_first rt rejection resolve max_object_bytes auth r)
  serve_first-guarded auth (reading bytes) h = cc
  serve_first-guarded auth (refused e) h = cc
  serve_first-guarded auth (got kind payload) h =
      let (right, e) = passed (not (kind == frame_request)) [] not_one_request _ h in
      let ((c, parsed, asks), sends) =
        serve_request-guarded auth (rt.parse payload) (ap (λ s. s.outcome) (sym e) ∙ h) in
      (
        (
          payload,
          c,
          ap (λ k. got k payload) ((==_iff kind frame_request).0 (ground arith)),
          parsed,
          asks,
        ),
        subst (Sends auth) (sym e) sends,
      )

  -- The server ends a transfer as served only if the identity that it was authorised for is valid,
  -- the first frame was a request whose JSON names that identity, and the resolver gave an object of
  -- its size and digest; it has then written that object's frames and nothing else.
  pub serve_authorized_object-guarded :
      (auth : Identity) (events : List Event)
      → (serve_authorized_object rt rejection resolve max_object_bytes auth events).outcome ≡ served
      → (valid_identity (claims_of auth) max_object_bytes ≡ true)
        × ((payload : Bytes) × (c : Claims) × (read_first (reading []) events
              ≡ got frame_request payload)
            × (rt.parse payload ≡ some c)
            × Asks auth c)
        × Sends auth (serve_authorized_object rt rejection resolve max_object_bytes auth events)
  unfolding serve_authorized_object
  serve_authorized_object-guarded auth events h =
      let (valid, e) = valid_first (valid_identity (claims_of auth) max_object_bytes) _ h in
      let (asked, sends) =
        serve_first-guarded auth (read_first (reading []) events)
          (ap (λ s. s.outcome) (sym e) ∙ h) in
      (valid, asked, subst (Sends auth) (sym e) sends)

-- ===== src/Link/Bounds/Serving.antt =====
-- The serving chain keeps the queue of uploads counted and within its limit
-- (src/browser/peer-link.mjs).
use relayswarm.Base.{
  ℕ, suc, ◌+◌, ◌≡◌, refl, ◌∙◌, ap, Bool, true, false, ◌||◌, Option, none, some, List, [], ◌∷◌, ◌++◌,
  arith, length, Text, length-append,
}
use relayswarm.Base.Int.{ℤ}
use relayswarm.Link.State.{
  Link, Upload, Stage, queued, asking, sending, draining_buffer, Outgoing, Reason, Bytes, send_text,
  close, finish, sent_none, sent_meta, sent_eof, sent_chunk, serve_error, upload_queue,
  upload_drain_timeout,
}
use relayswarm.Link.Uploads.{
  want_fields, on_want, cancel_uploads, on_cancel, dequeue, refuse, at_stage, end_response,
  send_slice, slice, slice_end, Turn, begin, answered, host_failed, round, drained, stalled, answer,
  after_meta, turn_round, turn_at, turn_head, serve_turn,
}
use relayswarm.Link.Bounds.{IsBounded, send_text-IsBounded, close-IsBounded, either}

uploads-close : (r : Reason) (l : Link) → (close r l).uploads ≡ l.uploads
unfolding close finish
uploads-close r l = ground arith

uploads-send_text : (m : Outgoing) (l : Link) → (send_text m l).0.uploads ≡ l.uploads
unfolding send_text
uploads-send_text m l = ground (arith, uploads-close Reason.send_error l)

length-cancel_uploads : (id : ℤ) (us : List Upload) → length (cancel_uploads id us) ≡ length us
unfolding cancel_uploads
length-cancel_uploads id [] = refl
length-cancel_uploads id (u ∷ us) = ap suc (length-cancel_uploads id us)

pub on_want-IsBounded :
    (id : Option ℤ) (k : Option Text) (l : Link) → IsBounded l → IsBounded (on_want id k l)
unfolding on_want
on_want-IsBounded id k l v = either l.closed v (go id k)
  where
    go : (id : Option ℤ) (k : Option Text) → IsBounded (want_fields id k l)
    go none k = v
    go (some id) none = v
    go (some id) (some k) =
        let u : Upload = record { id = id; key = k; cancelled = false; stage = queued } in
        ground (arith, close-IsBounded upload_queue l v, length-append l.uploads (u ∷ []))

pub on_cancel-IsBounded : (id : Option ℤ) (l : Link) → IsBounded l → IsBounded (on_cancel id l)
unfolding on_cancel
on_cancel-IsBounded none l v = either l.closed v v
on_cancel-IsBounded (some id) l v = ground (arith, length-cancel_uploads id l.uploads)

dequeue-IsBounded :
    (u : Upload) (rest : List Upload) (l : Link)
    → l.uploads ≡ u ∷ rest
    → IsBounded l
    → IsBounded (dequeue rest l)
dequeue-IsBounded u rest l e v = ground (arith, ap length e)

at_stage-IsBounded :
    (u : Upload) (rest : List Upload) (s : Stage) (l : Link)
    → l.uploads ≡ u ∷ rest
    → IsBounded l
    → IsBounded (at_stage u rest s l)
at_stage-IsBounded u rest s l e v = ground (arith, ap length e)

module _ (u : Upload) (rest : List Upload) (l : Link) (e : l.uploads ≡ u ∷ rest)
    (v : IsBounded l) where
  refuse-IsBounded : IsBounded (refuse u rest l)
  refuse-IsBounded =
      dequeue-IsBounded u rest _ (uploads-send_text (sent_none u.id) l ∙ e)
        (send_text-IsBounded (sent_none u.id) l v)

  shut-IsBounded : (r : Reason) → IsBounded (dequeue rest (close r l))
  shut-IsBounded r = dequeue-IsBounded u rest _ (uploads-close r l ∙ e) (close-IsBounded r l v)

  end_response-IsBounded : (sent now : ℕ) → IsBounded (end_response u rest sent now l)
  end_response-IsBounded sent now =
      let l' = record l { bytes_out = l.bytes_out + sent; last_served_at = now } in
      let v' : IsBounded l' = ground arith in
      dequeue-IsBounded u rest _ (uploads-send_text (sent_eof u.id) l' ∙ e)
        (send_text-IsBounded (sent_eof u.id) l' v')

  send_slice-IsBounded :
      (bytes : Bytes) (sent now : ℕ) → IsBounded (send_slice u rest bytes sent now l)
  send_slice-IsBounded bytes sent now =
      let l' = record l { outbox = l.outbox ++ sent_chunk (slice bytes sent) ∷ [] } in
      let v' : IsBounded l' = ground arith in
      either l.closed (dequeue-IsBounded u rest l e v) (
        either u.cancelled (end_response-IsBounded sent now) (
          either _ (at_stage-IsBounded u rest (sending bytes (slice_end bytes sent)) l' e v')
            (shut-IsBounded serve_error)))

  turn_round-IsBounded :
      (high : Bool) (bytes : Bytes) (sent now : ℕ)
      → IsBounded (turn_round high u rest bytes sent now l)
  turn_round-IsBounded high bytes sent now = either _ (end_response-IsBounded sent now) (
      either l.closed (dequeue-IsBounded u rest l e v) (
        either high (at_stage-IsBounded u rest (draining_buffer bytes sent) l e v)
          (send_slice-IsBounded bytes sent now)))

  after_meta-IsBounded :
      (bytes : Bytes) (r : Link × Bool)
      → r.0.uploads ≡ u ∷ rest
      → IsBounded r.0
      → IsBounded (after_meta u rest bytes r)
  after_meta-IsBounded bytes (l', true) e' v' = at_stage-IsBounded u rest (sending bytes 0) l' e' v'
  after_meta-IsBounded bytes (l', false) e' v' = dequeue-IsBounded u rest l' e' v'

  answer-IsBounded : (o : Option Bytes) → IsBounded (answer o u rest l)
  answer-IsBounded none = refuse-IsBounded
  answer-IsBounded (some bytes) =
      either u.cancelled refuse-IsBounded
        (after_meta-IsBounded bytes _ (uploads-send_text m l ∙ e) (send_text-IsBounded m l v))
    where
      m : Outgoing
      m = sent_meta u.id (length bytes)

  turn_at-IsBounded : (s : Stage) (t : Turn) (now : ℕ) → IsBounded (turn_at s t u rest now l)
  turn_at-IsBounded queued begin now =
      either (u.cancelled || l.closed) refuse-IsBounded (at_stage-IsBounded u rest asking l e v)
  turn_at-IsBounded asking (answered o) now = answer-IsBounded o
  turn_at-IsBounded asking host_failed now = shut-IsBounded serve_error
  turn_at-IsBounded (sending bytes sent) (round high) now = turn_round-IsBounded high bytes sent now
  turn_at-IsBounded (draining_buffer bytes sent) drained now = send_slice-IsBounded bytes sent now
  turn_at-IsBounded (draining_buffer bytes sent) stalled now = shut-IsBounded upload_drain_timeout
  turn_at-IsBounded _ _ now = v

pub serve_turn-IsBounded :
    (t : Turn) (now : ℕ) (l : Link) → IsBounded l → IsBounded (serve_turn t now l)
unfolding serve_turn
serve_turn-IsBounded t now l v = go l.uploads refl
  where
    go : (us : List Upload) → l.uploads ≡ us → IsBounded (turn_head us t now l)
    go [] e = v
    go (u ∷ rest) e = turn_at-IsBounded u rest l e v u.stage t now

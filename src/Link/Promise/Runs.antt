-- ===== src/Link/Promise/Runs.antt =====
-- The promises of a link are sound whatever the remote peer and the host do
-- (src/browser/peer-link.mjs).
use relayswarm.Base.{
  ℕ, ◌+◌, ◌≡◌, refl, Bool, true, false, ◌&&◌, ◌||◌, not, Option, none, some, List, [], ◌∷◌, length,
  Text, ltb, leb, ◌==◌, is_hex64,
}
use relayswarm.Base.Int.{ℤ}
use relayswarm.Link.State.{
  Link, Channel, Upload, Stage, queued, asking, sending, draining_buffer, Bytes, protocol,
  serve_error, upload_queue, upload_drain_timeout, send_text, sent_none, sent_meta, sent_eof,
  new_link,
}
use relayswarm.Link.Advice.{
  Rendition, null, text, invalid, accept_contribution, contribution_for, fetching_fields,
  on_contribution, on_fetching, on_have, send_have, send_have_change, send_contribution,
  send_fetching,
}
use relayswarm.Link.Uploads.{
  want_fields, on_want, cancel_field, on_cancel, send_slice, Turn, begin, answered, host_failed,
  round, drained, stalled, after_meta, turn_at, turn_head, serve_turn,
}
use relayswarm.Link.Messages.{
  Event, Message, step, run, on_text, on_control, parsed, contribution, fetching, have, want,
  cancel, meta, eof, nothing, unknown, text_frame, binary_frame, requested, abandoned, drain_timer,
  closes, announces, announces_change, contributes, leases, serves, channel_changed,
}
use relayswarm.Link.Promise.{
  IsSound, Numbered, AllFit, floor, close-IsSound, send_text-IsSound, either,
}
use relayswarm.Link.Promise.Counted.{requests, run-new_link-counted}
use relayswarm.Link.Promise.Responses.{
  on_binary-IsSound, on_meta-IsSound, on_eof-IsSound, on_none-IsSound,
}
use relayswarm.Link.Promise.Requests.{request-IsSound, abandon-IsSound, drain_timeout-IsSound}

module _ (l : Link) (v : IsSound l) where
  accepted-IsSound :
      (b : Bool) (r : Option Text) (now : ℕ) → IsSound (accept_contribution b r now l)
  accepted-IsSound true none now = v
  accepted-IsSound true (some r) now = v
  accepted-IsSound false none now = v
  accepted-IsSound false (some r) now = v

  contribution_for-IsSound :
      (b : Option Bool) (r : Rendition) (now : ℕ) → IsSound (contribution_for b r now l)
  contribution_for-IsSound none r now = v
  contribution_for-IsSound (some b) invalid now = v
  contribution_for-IsSound (some b) null now = accepted-IsSound b none now
  contribution_for-IsSound (some b) (text r) now =
      either (ltb 2048 (length r)) _ _ v (accepted-IsSound b (some r) now)

  fetching_fields-IsSound :
      (k : Option Text) (ms : Option ℕ) (now : ℕ) → IsSound (fetching_fields k ms now l)
  fetching_fields-IsSound none ms now = v
  fetching_fields-IsSound (some k) none now = v
  fetching_fields-IsSound (some k) (some ms) now =
      either (not (is_hex64 k) || ltb 2000 ms) _ _ v
        (either (ms == 0) _ _ v (either l.contribution.serving _ _ v v))

  want_fields-IsSound : (id : Option ℤ) (k : Option Text) → IsSound (want_fields id k l)
  want_fields-IsSound none k = v
  want_fields-IsSound (some id) none = v
  want_fields-IsSound (some id) (some k) = either (not (is_hex64 k)) _ _ v (
      either (leb l.max_queued_requests l.outbound_in_flight) _ _ (close-IsSound upload_queue l v)
        v)

  cancel_field-IsSound : (id : Option ℤ) → IsSound (cancel_field id l)
  cancel_field-IsSound none = v
  cancel_field-IsSound (some id) = v

  send_slice-IsSound :
      (u : Upload) (rest : List Upload) (bytes : Bytes) (sent now : ℕ)
      → IsSound (send_slice u rest bytes sent now l)
  send_slice-IsSound u rest bytes sent now = either l.closed _ _ v (
      either u.cancelled _ _
        (send_text-IsSound (sent_eof u.id)
          (record l { bytes_out = l.bytes_out + sent; last_served_at = now }) v)
        (either (l.channel.is_open && l.channel.accepts) _ _ v (close-IsSound serve_error l v)))

  after_meta-IsSound :
      (u : Upload) (rest : List Upload) (bytes : Bytes) (r : Link × Bool)
      → IsSound r.0
      → IsSound (after_meta u rest bytes r)
  after_meta-IsSound u rest bytes (l', true) w = w
  after_meta-IsSound u rest bytes (l', false) w = w

  turn_at-IsSound :
      (s : Stage) (t : Turn) (u : Upload) (rest : List Upload) (now : ℕ)
      → IsSound (turn_at s t u rest now l)
  turn_at-IsSound queued begin u rest now =
      either (u.cancelled || l.closed) _ _ (send_text-IsSound (sent_none u.id) l v) v
  turn_at-IsSound asking (answered none) u rest now = send_text-IsSound (sent_none u.id) l v
  turn_at-IsSound asking (answered (some b)) u rest now =
      either u.cancelled _ _ (send_text-IsSound (sent_none u.id) l v) (
        after_meta-IsSound u rest b (send_text (sent_meta u.id (length b)) l)
          (send_text-IsSound (sent_meta u.id (length b)) l v))
  turn_at-IsSound asking host_failed u rest now = close-IsSound serve_error l v
  turn_at-IsSound (sending b n) (round high) u rest now =
      either (leb (length b) n) _ _
        (send_text-IsSound (sent_eof u.id)
          (record l { bytes_out = l.bytes_out + n; last_served_at = now }) v)
        (either l.closed _ _ v (either high _ _ v (send_slice-IsSound u rest b n now)))
  turn_at-IsSound (draining_buffer b n) drained u rest now = send_slice-IsSound u rest b n now
  turn_at-IsSound (draining_buffer b n) stalled u rest now = close-IsSound upload_drain_timeout l v
  turn_at-IsSound _ _ u rest now = v

  turn_head-IsSound : (us : List Upload) (t : Turn) (now : ℕ) → IsSound (turn_head us t now l)
  turn_head-IsSound [] t now = v
  turn_head-IsSound (u ∷ rest) t now = turn_at-IsSound u.stage t u rest now

  on_control-IsSound : (m : Message) (now : ℕ) → IsSound (on_control m now l)
  unfolding on_control on_contribution on_fetching on_have on_want on_cancel
  on_control-IsSound (contribution b r) now =
      either l.closed _ _ v (contribution_for-IsSound b r now)
  on_control-IsSound (fetching k ms) now = either l.closed _ _ v (fetching_fields-IsSound k ms now)
  on_control-IsSound (have keys adds dels) now = either l.closed _ _ v v
  on_control-IsSound (want id k) now = either l.closed _ _ v (want_fields-IsSound id k)
  on_control-IsSound (cancel id) now = either l.closed _ _ v (cancel_field-IsSound id)
  on_control-IsSound (meta id n) now = on_meta-IsSound id n l v
  on_control-IsSound (eof id) now = on_eof-IsSound id now l v
  on_control-IsSound (nothing id) now = on_none-IsSound id l v
  on_control-IsSound unknown now = v

  parsed-IsSound : (m : Option Message) (now : ℕ) → IsSound (parsed m now l)
  parsed-IsSound none now = close-IsSound protocol l v
  parsed-IsSound (some m) now = on_control-IsSound m now

  -- Every event keeps the promises sound.
  step-IsSound : (now : ℕ) (e : Event) → IsSound (step now e l)
  unfolding step on_text send_have send_have_change send_contribution send_fetching serve_turn
  step-IsSound now (text_frame n m) =
      either l.closed _ _ v
        (either (ltb 65536 n) _ _ (close-IsSound protocol l v) (parsed-IsSound m now))
  step-IsSound now (binary_frame c) = on_binary-IsSound c l v
  step-IsSound now (requested k n b) = request-IsSound k n b l v
  step-IsSound now (abandoned id r) = abandon-IsSound id r l v
  step-IsSound now (drain_timer id) = drain_timeout-IsSound id l v
  step-IsSound now (closes r) = close-IsSound r l v
  step-IsSound now (announces ks) = send_text-IsSound _ l v
  step-IsSound now (announces_change adds dels) =
      either (ltb 0 (length adds) || ltb 0 (length dels)) _ _ (send_text-IsSound _ l v) v
  step-IsSound now (contributes b r) = send_text-IsSound _ l v
  step-IsSound now (leases k n) = send_text-IsSound _ l v
  step-IsSound now (serves t) = turn_head-IsSound l.uploads t now
  step-IsSound now (channel_changed c) = v

pub run-IsSound : (es : List (ℕ × Event)) (l : Link) → IsSound l → IsSound (run es l)
unfolding run
run-IsSound [] l v = v
run-IsSound ((now, e) ∷ es) l v = run-IsSound es (step now e l) (step-IsSound l v now e)

pub new_link-IsSound : (size queue : ℕ) (c : Channel) → IsSound (new_link size queue c)
unfolding new_link
new_link-IsSound size queue c = record {
  pending_sound = tt;
  all_fit = tt;
  numbered = tt;
  counted = refl;
}

-- Whatever the remote peer and the host do to a new link, each of its requests is refused at once,
-- with null, or is sent under the next number. The results recorded are those of the requests sent,
-- from the first one on, each exactly once and in the order of the requests: of every request sent,
-- save the pending one while its promise is still open. Each result is null, or at least one byte and
-- at most the link's `maxSegmentBytes`.
pub run-new_link-IsSound :
    (size queue : ℕ) (c : Channel) (es : List (ℕ × Event))
    → let l = run es (new_link size queue c) in
      (l.refused + l.next_id ≡ requests es + 1)
      × Numbered 1 l.resolved
      × (length l.resolved + 1 ≡ floor l.pending l.next_id)
      × AllFit l.max_segment_bytes l.resolved
run-new_link-IsSound size queue c es =
    let v = run-IsSound es (new_link size queue c) (new_link-IsSound size queue c) in
    (run-new_link-counted size queue c es, v.numbered, v.counted, v.all_fit)

-- ===== src/Link/Bounds/Runs.antt =====
-- A link stays within its limits whatever the remote peer and the host do
-- (src/browser/peer-link.mjs).
use relayswarm.Base.{ℕ, ◌≤◌, Option, none, some, List, [], ◌∷◌, arith, length, flatten}
use relayswarm.Link.State.{Link, Pending, Channel, chunk_limit, protocol, new_link}
use relayswarm.Link.Messages.{
  Event, Message, step, run, on_text, on_control, parsed, contribution, fetching, have, want,
  cancel, meta, eof, nothing, unknown, text_frame, binary_frame, requested, abandoned, drain_timer,
  closes, announces, announces_change, contributes, leases, serves, channel_changed,
}
use relayswarm.Link.Bounds.{IsBounded, close-IsBounded, either}
use relayswarm.Link.Bounds.Requests.{
  request-IsBounded, abandon-IsBounded, drain_timeout-IsBounded, on_binary-IsBounded,
  on_meta-IsBounded, on_eof-IsBounded, on_none-IsBounded,
}
use relayswarm.Link.Bounds.Advices.{
  on_have-IsBounded, on_contribution-IsBounded, on_fetching-IsBounded, send_have-IsBounded,
  send_have_change-IsBounded, send_contribution-IsBounded, send_fetching-IsBounded,
}
use relayswarm.Link.Bounds.Serving.{on_want-IsBounded, on_cancel-IsBounded, serve_turn-IsBounded}
use relayswarm.Link.Promise.{PendingSound}
use relayswarm.Link.Promise.Runs.{run-IsSound, new_link-IsSound}

new_link-IsBounded : (size queue : ℕ) (c : Channel) → IsBounded (new_link size queue c)
unfolding new_link
new_link-IsBounded size queue c = ground arith

on_control-IsBounded :
    (m : Message) (now : ℕ) (l : Link) → IsBounded l → IsBounded (on_control m now l)
unfolding on_control
on_control-IsBounded (contribution b r) now l v = on_contribution-IsBounded b r now l v
on_control-IsBounded (fetching k ms) now l v = on_fetching-IsBounded k ms now l v
on_control-IsBounded (have ks adds dels) now l v = on_have-IsBounded ks adds dels l v
on_control-IsBounded (want id k) now l v = on_want-IsBounded id k l v
on_control-IsBounded (cancel id) now l v = on_cancel-IsBounded id l v
on_control-IsBounded (meta id n) now l v = on_meta-IsBounded id n l v
on_control-IsBounded (eof id) now l v = on_eof-IsBounded id now l v
on_control-IsBounded (nothing id) now l v = on_none-IsBounded id l v
on_control-IsBounded unknown now l v = v

on_text-IsBounded :
    (n : ℕ) (m : Option Message) (now : ℕ) (l : Link) → IsBounded l → IsBounded (on_text n m now l)
unfolding on_text
on_text-IsBounded n m now l v = either l.closed v (either _ (close-IsBounded protocol l v) (go m))
  where
    go : (m : Option Message) → IsBounded (parsed m now l)
    go none = close-IsBounded protocol l v
    go (some m) = on_control-IsBounded m now l v

-- No event, from the remote peer or from the host, takes a table of a link past its limit: 256 held
-- keys, 24 leases, 8 renditions, 8 announced renditions and `max_queued_requests` uploads, and the
-- count of uploads in flight is exact.
step-IsBounded : (now : ℕ) (e : Event) (l : Link) → IsBounded l → IsBounded (step now e l)
unfolding step
step-IsBounded now (text_frame n m) l v = on_text-IsBounded n m now l v
step-IsBounded now (binary_frame c) l v = on_binary-IsBounded c l v
step-IsBounded now (requested k n b) l v = request-IsBounded k n b l v
step-IsBounded now (abandoned id r) l v = abandon-IsBounded id r l v
step-IsBounded now (drain_timer id) l v = drain_timeout-IsBounded id l v
step-IsBounded now (closes r) l v = close-IsBounded r l v
step-IsBounded now (announces ks) l v = send_have-IsBounded ks l v
step-IsBounded now (announces_change adds dels) l v = send_have_change-IsBounded adds dels l v
step-IsBounded now (contributes b r) l v = send_contribution-IsBounded b r l v
step-IsBounded now (leases k n) l v = send_fetching-IsBounded k n l v
step-IsBounded now (serves t) l v = serve_turn-IsBounded t now l v
step-IsBounded now (channel_changed c) l v = ground arith

run-IsBounded : (es : List (ℕ × Event)) (l : Link) → IsBounded l → IsBounded (run es l)
unfolding run
run-IsBounded [] l v = v
run-IsBounded ((now, e) ∷ es) l v = run-IsBounded es (step now e l) (step-IsBounded now e l v)

-- The parts of a response that a link is receiving: at most `maxChunks`, with at most
-- `maxSegmentBytes` bytes in all.
abbrev pub IsHeld : ℕ → Option Pending → Type 0
IsHeld max none = Unit
IsHeld max (some p) = (length p.parts ≤ chunk_limit max) × (length (flatten p.parts) ≤ max)

held : (max next : ℕ) (p : Option Pending) → PendingSound max next p → IsHeld max p
held max next none v = tt
held max next (some p) v = (omega (arith, v.3), v.3.2)

-- After any events, a new link holds at most its 24 leases, 8 renditions, 8 announcements and
-- `max_have_keys` keys, and has as many responses in flight as uploads, at most `maxQueuedRequests`. Of
-- the response that it receives it holds at most `maxChunks` parts, with at most `maxSegmentBytes`
-- bytes in all.
pub run-new_link-IsBounded :
    (size queue : ℕ) (c : Channel) (es : List (ℕ × Event))
    → let l = run es (new_link size queue c) in IsBounded l × IsHeld l.max_segment_bytes l.pending
run-new_link-IsBounded size queue c es =
    let l = run es (new_link size queue c) in
    let v = run-IsSound es (new_link size queue c) (new_link-IsSound size queue c) in
    (run-IsBounded es _ (new_link-IsBounded size queue c), held _ _ l.pending v.pending_sound)

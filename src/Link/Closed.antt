-- ===== src/Link/Closed.antt =====
-- A closed link (src/browser/peer-link.mjs).
use relayswarm.Base.{
  ℕ, ◌≡◌, sym, subst, some, Bool, true, false, Option, none, some, List, [], ◌∷◌, arith, Text,
}
use relayswarm.Link.State.{
  Link, Upload, Stage, queued, asking, sending, draining_buffer, Reason, Outgoing, known_reason,
  sent_have, sent_have_change, sent_contribution, sent_fetching, Bytes, close, finish, send_text,
}
use relayswarm.Link.Request.{request, abandon, drain_timeout}
use relayswarm.Link.Download.{on_binary}
use relayswarm.Link.Advice.{
  send_have, send_have_change, send_contribution, send_fetching, take_last,
}
use relayswarm.Link.Uploads.{
  serve_turn, Turn, begin, answered, host_failed, round, drained, stalled, turn_head, turn_at,
}
use relayswarm.Link.Messages.{
  Event, Message, step, run, on_text, text_frame, binary_frame, requested, abandoned, drain_timer,
  closes, announces, announces_change, contributes, leases, serves, channel_changed,
}

-- What a closed link shows: that it is closed and why, no request pending, and what it has sent and
-- settled.
pub record Shut (l l' : Link) : Type 0 where
  pub still_closed : l'.closed ≡ true
  pub same_reason : l'.close_reason ≡ l.close_reason
  pub no_request : l'.pending ≡ none
  pub nothing_sent : l'.outbox ≡ l.outbox
  pub nothing_settled : l'.resolved ≡ l.resolved
  pub same_tables : l'.have ≡ l.have

module _ (l : Link) (c : l.closed ≡ true) (p : l.pending ≡ none) where
  closed-send_text : (m : Outgoing) → send_text m l ≡ (l, false)
  unfolding send_text
  closed-send_text m = rw (c)

  closed-close : (r : Reason) → close r l ≡ l
  unfolding close
  closed-close r = rw c

  closed-turn_at :
      (u : Upload) (rest : List Upload) (s : Stage) (t : Turn) (now : ℕ)
      → Shut l (turn_at s t u rest now l)
  unfolding send_text close
  closed-turn_at u rest queued begin now = ground (arith)
  closed-turn_at u rest asking (answered none) now = ground arith
  closed-turn_at u rest asking (answered (some b)) now = ground arith
  closed-turn_at u rest asking host_failed now = ground arith
  closed-turn_at u rest (sending b n) (round high) now = ground arith
  closed-turn_at u rest (draining_buffer b n) drained now = ground arith
  closed-turn_at u rest (draining_buffer b n) stalled now = ground arith
  closed-turn_at u rest _ _ now = ground arith

  unchanged : Shut l l
  unchanged = ground arith

  closed-serve_turn : (t : Turn) (now : ℕ) → Shut l (serve_turn t now l)
  unfolding serve_turn
  closed-serve_turn t now = go l.uploads
    where
      go : (us : List Upload) → Shut l (turn_head us t now l)
      go [] = unchanged
      go (u ∷ rest) = closed-turn_at u rest u.stage t now

  closed-request : (k : Text) (n : Option ℕ) (b : Bool) → Shut l (request k n b l).0
  unfolding request
  closed-request k n b = rw c (ground arith)

  closed-abandon : (id : ℕ) (r : Reason) → abandon id r l ≡ l
  unfolding abandon
  closed-abandon id r = rw p

  closed-drain_timeout : (id : ℕ) → drain_timeout id l ≡ l
  unfolding drain_timeout
  closed-drain_timeout id = rw p

  closed-on_binary : (chunk : Bytes) → on_binary chunk l ≡ l
  unfolding on_binary
  closed-on_binary chunk = rw c

  closed-on_text : (n : ℕ) (m : Option Message) (now : ℕ) → on_text n m now l ≡ l
  unfolding on_text
  closed-on_text n m now = rw c

  closed-send_have_change : (ks ds : List Text) → send_have_change ks ds l ≡ l
  unfolding send_have_change
  closed-send_have_change ks ds = ground (arith, closed-send_text (sent_have_change ks ds))

  -- Nothing that happens to a closed link reopens it, changes its first reason, puts anything on the
  -- channel or settles a request.
  closed-step : (now : ℕ) (e : Event) → Shut l (step now e l)
  unfolding step send_have send_contribution send_fetching
  closed-step now (text_frame n m) = rw (closed-on_text n m now) unchanged
  closed-step now (binary_frame chunk) = rw (closed-on_binary chunk) unchanged
  closed-step now (requested k n b) = closed-request k n b
  closed-step now (abandoned id r) = rw (closed-abandon id r) unchanged
  closed-step now (drain_timer id) = rw (closed-drain_timeout id) unchanged
  closed-step now (closes r) = rw (closed-close r) unchanged
  closed-step now (announces ks) =
      subst (λ r. Shut l r.0) (sym (closed-send_text (sent_have (take_last 256 ks)))) unchanged
  closed-step now (announces_change ks ds) = rw (closed-send_have_change ks ds) unchanged
  closed-step now (contributes b r) =
      subst (λ r. Shut l r.0) (sym (closed-send_text (sent_contribution b r))) unchanged
  closed-step now (leases k n) =
      subst (λ r. Shut l r.0) (sym (closed-send_text (sent_fetching k n))) unchanged
  closed-step now (serves t) = closed-serve_turn t now
  closed-step now (channel_changed ch) = ground arith

Shut-trans : {a b d : Link} → Shut a b → Shut b d → Shut a d
Shut-trans s t = ground arith

closed-run_from :
    (es : List (ℕ × Event)) (l : Link) → l.closed ≡ true → l.pending ≡ none → Shut l (run es l)
unfolding run
closed-run_from [] l c p = unchanged l c p
closed-run_from ((now, e) ∷ es) l c p =
    let s = closed-step l c p now e in
    Shut-trans s (closed-run_from es (step now e l) s.still_closed s.no_request)

close-shuts :
    (r : Reason) (l : Link)
    → l.closed ≡ false
    → ((close r l).closed ≡ true) × ((close r l).pending ≡ none)
unfolding close finish
close-shuts r l open_before = ground arith

close-reason :
    (r : Reason) (l : Link) → l.closed ≡ false → (close r l).close_reason ≡ some (known_reason r)
unfolding close finish
close-reason r l open_before = ground arith

-- Closing an open link is final: after any later events it is closed, for the reason of that close
-- (`host` for one that is not in the code's list), has no request pending, and has sent and settled
-- nothing more.
pub close-run :
    (r : Reason) (es : List (ℕ × Event)) (l : Link)
    → l.closed ≡ false
    → ((close r l).close_reason ≡ some (known_reason r)) × Shut (close r l) (run es (close r l))
close-run r es l open_before =
    let (c, p) = close-shuts r l open_before in
    (close-reason r l open_before, closed-run_from es (close r l) c p)

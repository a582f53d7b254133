-- ===== src/Link/Promise/Counted.antt =====
-- How many requests a link has had (src/browser/peer-link.mjs).
use relayswarm.Base.{ℕ, ◌+◌, ◌≡◌, refl, Bool, Option, none, some, List, [], ◌∷◌, arith, Text}
use relayswarm.Link.State.{
  Link, Channel, Upload, Reason, Outgoing, Stage, queued, asking, sending, draining_buffer, Bytes,
  close, finish, send_text, sent_have_change, new_link,
}
use relayswarm.Link.Request.{request, abandon, drain_timeout}
use relayswarm.Link.Download.{on_binary, on_meta, on_eof, on_none}
use relayswarm.Link.Advice.{
  on_contribution, on_fetching, on_have, send_have, send_have_change, send_contribution,
  send_fetching,
}
use relayswarm.Link.Uploads.{
  on_want, on_cancel, serve_turn, Turn, begin, answered, host_failed, round, drained, stalled,
  turn_at, turn_head,
}
use relayswarm.Link.Messages.{
  Event, Message, step, run, on_text, on_control, parsed, contribution, fetching, have, want,
  cancel, meta, eof, nothing, unknown, text_frame, binary_frame, requested, abandoned, drain_timer,
  closes, announces, announces_change, contributes, leases, serves, channel_changed,
}

-- The requests that were sent or refused, and the number of the first one.
abbrev tickets : Link → ℕ
tickets l = l.refused + l.next_id

-- The calls of `request` among the events.
abbrev pub requests : List (ℕ × Event) → ℕ
requests [] = 0
requests ((now, requested k e a) ∷ es) = requests es + 1
requests ((now, _) ∷ es) = requests es

finish-tickets : (b : Option Bytes) (now : ℕ) (l : Link) → tickets (finish b now l) ≡ tickets l
unfolding finish
finish-tickets b now l = ground arith

close-tickets : (r : Reason) (l : Link) → tickets (close r l) ≡ tickets l
unfolding close finish
close-tickets r l = ground arith

send_text-tickets : (m : Outgoing) (l : Link) → tickets (send_text m l).0 ≡ tickets l
unfolding send_text
send_text-tickets m l = ground (arith, close-tickets Reason.send_error l)

request-tickets :
    (k : Text) (e : Option ℕ) (a : Bool) (l : Link) → tickets (request k e a l).0 ≡ tickets l + 1
unfolding request send_text close finish
request-tickets k e a l = ground arith

abandon-tickets : (id : ℕ) (r : Reason) (l : Link) → tickets (abandon id r l) ≡ tickets l
unfolding abandon send_text close finish
abandon-tickets id r l = ground arith

drain_timeout-tickets : (id : ℕ) (l : Link) → tickets (drain_timeout id l) ≡ tickets l
unfolding drain_timeout close finish
drain_timeout-tickets id l = ground arith

on_binary-tickets : (c : Bytes) (l : Link) → tickets (on_binary c l) ≡ tickets l
unfolding on_binary close finish
on_binary-tickets c l = ground arith

module _ (now : ℕ) (l : Link) where
  on_control-tickets : (m : Message) → tickets (on_control m now l) ≡ tickets l
  unfolding on_control on_contribution on_fetching on_have on_want on_cancel on_meta on_eof on_none
      close finish
  on_control-tickets (contribution b r) = ground arith
  on_control-tickets (fetching k ms) = ground arith
  on_control-tickets (have keys adds dels) = ground arith
  on_control-tickets (want id k) = ground arith
  on_control-tickets (cancel id) = ground arith
  on_control-tickets (meta id n) = ground arith
  on_control-tickets (eof id) = ground arith
  on_control-tickets (nothing id) = ground arith
  on_control-tickets unknown = refl

  turn_at-tickets :
      (s : Stage) (t : Turn) (u : Upload) (rest : List Upload)
      → tickets (turn_at s t u rest now l) ≡ tickets l
  unfolding send_text close finish
  turn_at-tickets queued begin u rest = ground arith
  turn_at-tickets asking (answered none) u rest = ground arith
  turn_at-tickets asking (answered (some b)) u rest = ground arith
  turn_at-tickets asking host_failed u rest = ground arith
  turn_at-tickets (sending b n) (round high) u rest = ground arith
  turn_at-tickets (draining_buffer b n) drained u rest = ground arith
  turn_at-tickets (draining_buffer b n) stalled u rest = ground arith
  turn_at-tickets _ _ u rest = refl

  turn_head-tickets : (us : List Upload) (t : Turn) → tickets (turn_head us t now l) ≡ tickets l
  turn_head-tickets [] t = refl
  turn_head-tickets (u ∷ rest) t = turn_at-tickets u.stage t u rest

  parsed-tickets : (m : Option Message) → tickets (parsed m now l) ≡ tickets l
  parsed-tickets none = close-tickets Reason.protocol l
  parsed-tickets (some m) = on_control-tickets m

  on_text-tickets : (n : ℕ) (m : Option Message) → tickets (on_text n m now l) ≡ tickets l
  unfolding on_text
  on_text-tickets n m = ground (arith, close-tickets Reason.protocol l, parsed-tickets m)

run-tickets : (es : List (ℕ × Event)) (l : Link) → tickets (run es l) ≡ tickets l + requests es
unfolding run step send_have send_have_change send_contribution send_fetching serve_turn
run-tickets [] l = omega arith
run-tickets ((now, e) ∷ es) l = after e (run-tickets es (step now e l))
  where
    same :
        (l' : Link)
        → tickets l' ≡ tickets l
        → tickets (run es l') ≡ tickets l' + requests es
        → tickets (run es l') ≡ tickets l + requests es
    same l' h ih = omega (arith, h, ih)

    said :
        (m : Outgoing)
        → tickets (run es (send_text m l).0) ≡ tickets (send_text m l).0 + requests es
        → tickets (run es (send_text m l).0) ≡ tickets l + requests es
    said m ih = same (send_text m l).0 (send_text-tickets m l) ih

    after :
        (e : Event)
        → tickets (run es (step now e l)) ≡ tickets (step now e l) + requests es
        → tickets (run es (step now e l)) ≡ tickets l + requests ((now, e) ∷ es)
    after (text_frame n m) ih = same _ (on_text-tickets now l n m) ih
    after (binary_frame c) ih = same _ (on_binary-tickets c l) ih
    after (requested k n b) ih = omega (arith, ih, request-tickets k n b l)
    after (abandoned id r) ih = same _ (abandon-tickets id r l) ih
    after (drain_timer id) ih = same _ (drain_timeout-tickets id l) ih
    after (closes r) ih = same _ (close-tickets r l) ih
    after (announces ks) ih = said _ ih
    after (announces_change adds dels) ih =
        same _ (ground (arith, send_text-tickets (sent_have_change adds dels) l)) ih
    after (contributes b r) ih = said _ ih
    after (leases k n) ih = said _ ih
    after (serves t) ih = same _ (turn_head-tickets now l l.uploads t) ih
    after (channel_changed c) ih = same _ refl ih

-- Every call of `request` is either refused or takes the next id.
pub run-new_link-counted :
    (size queue : ℕ) (c : Channel) (es : List (ℕ × Event))
    → let l = run es (new_link size queue c) in l.refused + l.next_id ≡ requests es + 1
unfolding new_link
run-new_link-counted size queue c es = omega (arith, run-tickets es (new_link size queue c))

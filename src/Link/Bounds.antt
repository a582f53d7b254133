-- ===== src/Link/Bounds.antt =====
-- The tables of a link stay within their limits (src/browser/peer-link.mjs).
pub mod Requests
pub mod Advices
pub mod Serving
pub mod Runs
use relayswarm.Base.{
  ℕ, suc, ◌+◌, ◌-◌, ◌≤◌, ◌≡◌, refl, Bool, true, false, Option, none, some, List, [], ◌∷◌, ◌++◌,
  arith, length, Text, length-append, if◌then◌else◌,
}
use relayswarm.Base.Int.{ℤ}
use relayswarm.Link.State.{
  Link, Reason, Outgoing, Upload, Pending, Bytes, max_have_keys, close, finish, send_text, settle,
  finish_pending, protocol, sent_want, sent_cancel,
}
use relayswarm.Link.Request.{
  request, after_want, start_draining, abandon_pending, new_pending, finish_id, abandon,
  drain_timeout,
}
use relayswarm.Link.Download.{
  grown, chunk_of, binary_for, keep_chunk, mismatched, set_size, meta_for, eof_for, none_for,
  on_binary, on_meta, on_eof, on_none,
}
use relayswarm.Link.Advice.{
  on_contribution, on_fetching, on_have, send_have, send_have_change, send_contribution,
  send_fetching,
}
use relayswarm.Link.Uploads.{on_want, on_cancel, serve_turn, cancel_uploads}
use relayswarm.Link.Messages.{Event, step, run, on_text, on_control}

-- What a remote peer can make the link hold.
pub record IsBounded (l : Link) : Type 0 where
  pub have_bounded : length l.have ≤ max_have_keys
  pub fetching_bounded : length l.fetching ≤ 24
  pub renditions_bounded : length l.renditions ≤ 8
  pub announced_bounded : length l.announced ≤ 8
  pub uploads_counted : l.outbound_in_flight ≡ length l.uploads
  pub uploads_bounded : l.outbound_in_flight ≤ l.max_queued_requests

pub finish-IsBounded :
    (b : Option Bytes) (now : ℕ) (l : Link) → IsBounded l → IsBounded (finish b now l)
unfolding finish
finish-IsBounded b now l v = ground arith

pub close-IsBounded : (r : Reason) (l : Link) → IsBounded l → IsBounded (close r l)
unfolding close finish
close-IsBounded r l v = ground arith

pub send_text-IsBounded : (m : Outgoing) (l : Link) → IsBounded l → IsBounded (send_text m l).0
unfolding send_text
send_text-IsBounded m l v = ground (arith, close-IsBounded Reason.send_error l)

pub with_pending :
    (p : Option Pending) (l : Link) → IsBounded l → IsBounded (record l { pending = p })
with_pending p l v = ground arith

pub either : (b : Bool) {x y : Link} → IsBounded x → IsBounded y → IsBounded (if b then x else y)
either true v w = v
either false v w = w

-- ===== src/Link/Request.antt =====
-- src/browser/peer-link.mjs: `request`, its abandonment, and the drain timer.
use relayswarm.Base.{
  ℕ, ◌+◌, Bool, true, false, ◌&&◌, ◌||◌, not, Option, none, some, [], Text, if◌then◌else◌, ◌==◌,
}
use relayswarm.Link.State.{
  Link, Pending, Channel, Reason, host, settle, finish, close, send_text, sent_want, sent_cancel,
  busy,
}

abbrev pub new_pending : ℕ → Text → Option ℕ → Pending
new_pending id key expected_size = record {
  id = id;
  key = key;
  expected_size = expected_size;
  size = none;
  parts = [];
  chunks = 0;
  received = 0;
  draining = false;
  cancelled = false;
  drain_reason = host;
}

-- The guard `this.pending?.id !== id` of `finish`.
abbrev pub finish_id : Option Pending → ℕ → Link → Link
finish_id none id l = l
finish_id (some p) id l = if p.id == id then finish none 0 l else l

abbrev pub after_want : ℕ → Link × Bool → Link
after_want id (l, true) = l
after_want id (l, false) = finish_id l.pending id l

-- The new link, and the request's id unless it is refused and has resolved with null at once.
unfoldable pub request : Text → Option ℕ → Bool → Link → Link × Option ℕ
request key expected_size aborted l =
    if l.closed || busy l || aborted
    then (record l { refused = l.refused + 1 }, none)
    else let id = l.next_id in
      let l' = record l { next_id = id + 1; pending = some (new_pending id key expected_size) } in
      (after_want id (send_text (sent_want id key) l'), some id)

abbrev pub mark_cancelled : Option Pending → Bool → Option Pending
mark_cancelled none sent = none
mark_cancelled (some p) sent = some (record p { cancelled = sent })

abbrev pub is_reliable : Channel → Bool
is_reliable c = c.ordered_reliable && c.is_open

-- The holder is asked to stop; the rest of its response is drained.
abbrev pub start_draining : Pending → Reason → Link → Link
start_draining p reason l =
    let l' = settle p none l in
    let p' = record p { draining = true; parts = []; drain_reason = reason } in
    let (l'', sent) = send_text (sent_cancel p.id) (record l' { pending = some p' }) in
    record l'' { pending = mark_cancelled l''.pending sent }

abbrev pub abandon_pending : Option Pending → ℕ → Reason → Link → Link
abandon_pending none id reason l = l
abandon_pending (some p) id reason l =
    if not (p.id == id) || p.draining
    then l
    else if is_reliable l.channel
    then start_draining p reason l
    else close reason (finish none 0 l)

-- `abandon` of the request with this id, by its timer or by its signal.
unfoldable pub abandon : ℕ → Reason → Link → Link
abandon id reason l = abandon_pending l.pending id reason l

abbrev pub drain_pending : Option Pending → ℕ → Link → Link
drain_pending none id l = l
drain_pending (some p) id l = if p.id == id && p.draining then close p.drain_reason l else l

-- The drain timer of the request with this id.
unfoldable pub drain_timeout : ℕ → Link → Link
drain_timeout id l = drain_pending l.pending id l

-- ===== src/Link/State.antt =====
-- src/browser/peer-link.mjs: the state of a `PeerLink`, and what it says on its channel. Times are
-- whole milliseconds of `Date.now()`; the timings that `onResult` only reports are left out.
use relayswarm.Base.{
  ℕ, ◌+◌, ◌-◌, ◌*◌, ◌/◌, max, Bool, true, false, not, Option, none, some, List, [], ◌∷◌, ◌++◌, Text,
  Map, if◌then◌else◌, ltb,
}
use relayswarm.Base.Int.{ℤ}

abbrev pub Bytes : Type 0
Bytes = List ℕ

abbrev pub chunk_bytes : ℕ
chunk_bytes = 16384

abbrev pub max_have_keys : ℕ
max_have_keys = 256

-- CLOSE_REASONS; `other` is any string that is not among them.
pub data Reason : Type 0 where
  host host_stop admission rotation integrity request_timeout request_abort : Reason
  native_failed native_closed native_disconnected channel_close channel_error : Reason
  protocol send_error serve_error upload_queue upload_drain_timeout : Reason
  other : Reason

abbrev pub known_reason : Reason → Reason
known_reason other = host
known_reason reason = reason

-- What #sendText and the upload loop put on the channel.
pub data Outgoing : Type 0 where
  sent_have : List Text → Outgoing
  sent_have_change : List Text → List Text → Outgoing
  sent_contribution : Bool → Option Text → Outgoing
  sent_fetching : Text → ℕ → Outgoing
  sent_want : ℕ → Text → Outgoing
  sent_cancel : ℕ → Outgoing
  sent_meta : ℤ → ℕ → Outgoing
  sent_none : ℤ → Outgoing
  sent_eof : ℤ → Outgoing
  sent_chunk : Bytes → Outgoing

pub record Contribution : Type 0 where
  pub serving : Bool
  pub rendition : Option Text
  pub at : ℕ

-- The request in flight. `size` is `none` until `meta` (-1 in the source); `expected_size` is `none`
-- where it is undefined; `drain_reason` is what the drain timer would close with.
pub record Pending : Type 0 where
  pub id : ℕ
  pub key : Text
  pub expected_size : Option ℕ
  pub size : Option ℕ
  pub parts : List Bytes
  pub chunks : ℕ
  pub received : ℕ
  pub draining : Bool
  pub cancelled : Bool
  pub drain_reason : Reason

-- Where #serve stands with an upload.
pub data Stage : Type 0 where
  queued : Stage
  asking : Stage
  sending : Bytes → ℕ → Stage
  draining_buffer : Bytes → ℕ → Stage

pub record Upload : Type 0 where
  pub id : ℤ
  pub key : Text
  pub cancelled : Bool
  pub stage : Stage

-- The data channel: its readyState, whether `send` returns, and whether it is ordered and fully
-- reliable.
pub record Channel : Type 0 where
  pub is_open : Bool
  pub accepts : Bool
  pub ordered_reliable : Bool

pub record Link : Type 0 where
  pub max_segment_bytes : ℕ
  pub max_queued_requests : ℕ
  pub channel : Channel
  pub contribution : Contribution
  pub fetching : Map ℕ
  pub renditions : Map ℕ
  pub announced : Map ℕ
  pub have : List Text
  pub pending : Option Pending
  pub next_id : ℕ
  pub closed : Bool
  pub close_reason : Option Reason
  pub last_served_at : ℕ
  pub last_delivered_at : ℕ
  pub outbound_in_flight : ℕ
  pub uploads : List Upload
  pub bytes_in : ℕ
  pub bytes_out : ℕ
  -- Everything sent, and every promise of a request that was sent and that has resolved, oldest first.
  pub outbox : List Outgoing
  pub resolved : List (ℕ × Option Bytes)
  -- The requests that were refused: their promises resolved with null at once.
  pub refused : ℕ

abbrev pub chunk_limit : ℕ → ℕ
chunk_limit max_segment_bytes = max 1 ((max_segment_bytes + (chunk_bytes - 1)) / chunk_bytes * 4)

unfoldable pub max_chunks : Link → ℕ
max_chunks l = chunk_limit l.max_segment_bytes

unfoldable pub new_link : ℕ → ℕ → Channel → Link
new_link max_segment_bytes max_queued_requests channel = record {
  max_segment_bytes = max_segment_bytes;
  max_queued_requests = max_queued_requests;
  channel = channel;
  contribution = record { serving = false; rendition = none; at = 0 };
  fetching = [];
  renditions = [];
  announced = [];
  have = [];
  pending = none;
  next_id = 1;
  closed = false;
  close_reason = none;
  last_served_at = 0;
  last_delivered_at = 0;
  outbound_in_flight = 0;
  uploads = [];
  bytes_in = 0;
  bytes_out = 0;
  outbox = [];
  resolved = [];
  refused = 0;
}

-- `resolve` of the request's promise: a draining request has resolved before, and a promise resolves
-- once.
abbrev pub settle : Pending → Option Bytes → Link → Link
settle p bytes l =
    if p.draining then l else record l { resolved = l.resolved ++ (p.id, bytes) ∷ [] }

abbrev pub delivered_at : Option Bytes → ℕ → ℕ → ℕ
delivered_at none now before = before
delivered_at (some bytes) now before = now

-- `finish` of the pending request, whose id the caller has matched.
abbrev pub finish_pending : Option Pending → Option Bytes → ℕ → Link → Link
finish_pending none bytes now l = l
finish_pending (some p) bytes now l =
    let l' = settle p bytes l in
    record l' { pending = none; last_delivered_at = delivered_at bytes now l.last_delivered_at }

unfoldable pub finish : Option Bytes → ℕ → Link → Link
finish bytes now l = finish_pending l.pending bytes now l

unfoldable pub close : Reason → Link → Link
close reason l =
    if l.closed
    then l
    else let l' = record l {
      closed = true;
      close_reason = some (known_reason reason);
      fetching = [];
      renditions = [];
      announced = [];
    } in
      let l'' = finish none 0 l' in record l'' { channel = record l''.channel { is_open = false } }

-- #sendText, with whether it returned true.
unfoldable pub send_text : Outgoing → Link → Link × Bool
send_text m l =
    if l.closed
    then (l, false)
    else if not l.channel.is_open
    then (l, false)
    else if l.channel.accepts
    then (record l { outbox = l.outbox ++ m ∷ [] }, true)
    else (close send_error l, false)

-- The getters.
unfoldable pub busy : Link → Bool
busy l = elim l.pending [ none ↦ false | some p ↦ true ]

unfoldable pub transferring : Link → Bool
transferring l = elim l.pending [ none ↦ ltb 0 l.outbound_in_flight | some p ↦ true ]

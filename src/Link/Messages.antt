-- ===== src/Link/Messages.antt =====
-- src/browser/peer-link.mjs: the dispatch of #onMessage, and every event of a link.
use relayswarm.Base.{ℕ, Bool, Option, none, some, List, [], ◌∷◌, Text, if◌then◌else◌, ltb}
use relayswarm.Base.Int.{ℤ}
use relayswarm.Link.State.{Link, Channel, Reason, Bytes, protocol, close}
use relayswarm.Link.Request.{request, abandon, drain_timeout}
use relayswarm.Link.Download.{on_binary, on_meta, on_eof, on_none}
use relayswarm.Link.Advice.{
  Rendition, on_contribution, on_fetching, on_have, send_have, send_have_change, send_contribution,
  send_fetching,
}
use relayswarm.Link.Uploads.{on_want, on_cancel, Turn, serve_turn}

-- A parsed control message, each field `none` where its type is not the one that the code tests for.
-- `unknown` is any other value that parses.
pub data Message : Type 0 where
  contribution : Option Bool → Rendition → Message
  fetching : Option Text → Option ℕ → Message
  have : Option (List Text) → Option (List Text) → Option (List Text) → Message
  want : Option ℤ → Option Text → Message
  cancel : Option ℤ → Message
  meta : Option ℤ → Option ℕ → Message
  eof : Option ℤ → Message
  nothing : Option ℤ → Message
  unknown : Message

unfoldable pub on_control : Message → ℕ → Link → Link
on_control (contribution serving rendition) now l = on_contribution serving rendition now l
on_control (fetching k ms) now l = on_fetching k ms now l
on_control (have keys added deleted) now l = on_have keys added deleted l
on_control (want id k) now l = on_want id k l
on_control (cancel id) now l = on_cancel id l
on_control (meta id size) now l = on_meta id size l
on_control (eof id) now l = on_eof id now l
on_control (nothing id) now l = on_none id l
on_control unknown now l = l

abbrev pub parsed : Option Message → ℕ → Link → Link
parsed none now l = close protocol l
parsed (some m) now l = on_control m now l

-- A text frame of this length, parsed by JSON.parse (`none` where it throws; the listener closes the
-- link then).
unfoldable pub on_text : ℕ → Option Message → ℕ → Link → Link
on_text size m now l =
    if l.closed then l else if ltb 65536 size then close protocol l else parsed m now l

-- Everything that can happen to a link: frames, the request's timer and signal, the drain timer, the
-- host's calls, the serving chain, and a change of the channel under it.
pub data Event : Type 0 where
  text_frame : ℕ → Option Message → Event
  binary_frame : Bytes → Event
  requested : Text → Option ℕ → Bool → Event
  abandoned : ℕ → Reason → Event
  drain_timer : ℕ → Event
  closes : Reason → Event
  announces : List Text → Event
  announces_change : List Text → List Text → Event
  contributes : Bool → Option Text → Event
  leases : Text → ℕ → Event
  serves : Turn → Event
  channel_changed : Channel → Event

unfoldable pub step : ℕ → Event → Link → Link
step now (text_frame size m) l = on_text size m now l
step now (binary_frame chunk) l = on_binary chunk l
step now (requested key expected_size aborted) l = (request key expected_size aborted l).0
step now (abandoned id reason) l = abandon id reason l
step now (drain_timer id) l = drain_timeout id l
step now (closes reason) l = close reason l
step now (announces keys) l = send_have keys l
step now (announces_change added deleted) l = send_have_change added deleted l
step now (contributes serving rendition) l = send_contribution serving rendition l
step now (leases key lease_ms) l = send_fetching key lease_ms l
step now (serves t) l = serve_turn t now l
step now (channel_changed c) l = record l { channel = c }

unfoldable pub run : List (ℕ × Event) → Link → Link
run [] l = l
run ((now, e) ∷ es) l = run es (step now e l)

-- ===== src/Link/Download.antt =====
-- src/browser/peer-link.mjs: binary frames, and `meta`, `eof` and `none`, in #onMessage.
use relayswarm.Base.{
  ℕ, ◌+◌, Bool, true, false, ◌&&◌, ◌||◌, not, Option, none, some, [], ◌∷◌, ◌++◌, if◌then◌else◌,
  ◌==◌, ltb, leb, length, flatten,
}
use relayswarm.Base.Int.{ℤ, pos, negsuc}
use relayswarm.Link.State.{Bytes, Link, Pending, protocol, finish, close, chunk_bytes, max_chunks}

abbrev pub is_none {ℓ} : {A : Type ℓ} → Option A → Bool
is_none none = true
is_none (some a) = false

abbrev pub grown : Pending → Bytes → Pending
grown p chunk = record p { chunks = p.chunks + 1; received = p.received + length chunk }

-- The chunk has been counted; `size` is what `meta` announced.
abbrev pub keep_chunk : Pending → Bytes → Link → Link
keep_chunk p chunk l =
    if p.draining
    then record l { pending = some (grown p chunk) }
    else record l { pending = some (record (grown p chunk) { parts = p.parts ++ chunk ∷ [] }) }

abbrev pub chunk_of : Pending → Option ℕ → Bytes → Link → Link
chunk_of p none chunk l = close protocol l
chunk_of p (some size) chunk l =
    if length chunk == 0 || ltb chunk_bytes (length chunk) || leb (max_chunks l) p.chunks
    then close protocol l
    else let l' = record l { bytes_in = l.bytes_in + length chunk } in
      if ltb size (p.received + length chunk)
      then close protocol (record l' { pending = some (grown p chunk) })
      else keep_chunk p chunk l'

abbrev pub binary_for : Option Pending → Bytes → Link → Link
binary_for none chunk l = l
binary_for (some p) chunk l = chunk_of p p.size chunk l

unfoldable pub on_binary : Bytes → Link → Link
on_binary chunk l = if l.closed then l else binary_for l.pending chunk l

-- `message.id === pending.id`; an id that is no safe integer is `none`.
abbrev pub same_id : Option ℤ → ℕ → Bool
same_id none id = false
same_id (some (pos m)) id = m == id
same_id (some (negsuc m)) id = false

-- A response to another request: a protocol error while draining, else ignored.
abbrev pub mismatched : Pending → Link → Link
mismatched p l = if p.draining then close protocol l else l

abbrev pub unexpected_size : Option ℕ → Option ℕ → Bool
unexpected_size none size = false
unexpected_size (some n) none = true
unexpected_size (some n) (some size) = not (n == size)

abbrev pub set_size : Pending → Option ℕ → Link → Link
set_size p none l = close protocol l
set_size p (some size) l =
    if ltb size 1 || ltb l.max_segment_bytes size
    then close protocol l
    else record l { pending = some (record p { size = some size }) }

abbrev pub meta_for : Option Pending → Option ℤ → Option ℕ → Link → Link
meta_for none id size l = l
meta_for (some p) id size l =
    if not (same_id id p.id)
    then mismatched p l
    else if not (is_none p.size)
    then close protocol l
    else if unexpected_size p.expected_size size
    then close protocol l
    else set_size p size l

-- `size` is `none` where it is no safe non-negative integer.
unfoldable pub on_meta : Option ℤ → Option ℕ → Link → Link
on_meta id size l = if l.closed then l else meta_for l.pending id size l

abbrev pub received_all : Option ℕ → ℕ → Bool
received_all none received = false
received_all (some size) received = received == size

abbrev pub eof_for : Option Pending → Option ℤ → ℕ → Link → Link
eof_for none id now l = l
eof_for (some p) id now l =
    if not (same_id id p.id)
    then mismatched p l
    else if p.cancelled && not (is_none p.size)
    then finish none now l
    else if not (received_all p.size p.received)
    then close protocol l
    else if p.draining
    then finish none now l
    else finish (some (flatten p.parts)) now l

unfoldable pub on_eof : Option ℤ → ℕ → Link → Link
on_eof id now l = if l.closed then l else eof_for l.pending id now l

abbrev pub none_for : Option Pending → Option ℤ → Link → Link
none_for none id l = l
none_for (some p) id l =
    if not (same_id id p.id)
    then mismatched p l
    else if not (is_none p.size)
    then close protocol l
    else finish none 0 l

unfoldable pub on_none : Option ℤ → Link → Link
on_none id l = if l.closed then l else none_for l.pending id l

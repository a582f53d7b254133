-- ===== src/Link/Bounds/Requests.antt =====
-- Requests and downloads keep the tables of a link within their limits (src/browser/peer-link.mjs).
use relayswarm.Base.{ℕ, ◌+◌, Bool, true, false, Option, none, some, arith, length, Text}
use relayswarm.Base.Int.{ℤ}
use relayswarm.Link.State.{
  Link, Reason, Pending, Bytes, close, finish, send_text, settle, protocol, sent_want, sent_cancel,
}
use relayswarm.Link.Request.{
  request, after_want, start_draining, abandon_pending, new_pending, finish_id, abandon,
  drain_timeout,
}
use relayswarm.Link.Download.{
  grown, chunk_of, binary_for, keep_chunk, mismatched, set_size, meta_for, eof_for, none_for,
  on_binary, on_meta, on_eof, on_none,
}
use relayswarm.Link.Bounds.{
  IsBounded, finish-IsBounded, close-IsBounded, send_text-IsBounded, with_pending, either,
}

settle-IsBounded :
    (p : Pending) (b : Option Bytes) (l : Link) → IsBounded l → IsBounded (settle p b l)
settle-IsBounded p b l v = ground arith

finish_id-IsBounded :
    (p : Option Pending) (id : ℕ) (l : Link) → IsBounded l → IsBounded (finish_id p id l)
finish_id-IsBounded none id l v = v
finish_id-IsBounded (some p) id l v = ground (arith, finish-IsBounded none 0 l v)

after_want-IsBounded : (id : ℕ) (r : Link × Bool) → IsBounded r.0 → IsBounded (after_want id r)
after_want-IsBounded id (l, true) v = v
after_want-IsBounded id (l, false) v = finish_id-IsBounded l.pending id l v

pub request-IsBounded :
    (k : Text) (e : Option ℕ) (a : Bool) (l : Link) → IsBounded l → IsBounded (request k e a l).0
unfolding request
request-IsBounded k e a l v =
    let started = record l {
      next_id = l.next_id + 1;
      pending = some (new_pending l.next_id k e);
    } in
    let started-IsBounded : IsBounded started = ground arith in
    let asked = send_text-IsBounded (sent_want l.next_id k) started started-IsBounded in
    ground (arith, after_want-IsBounded l.next_id (send_text (sent_want l.next_id k) started) asked)

start_draining-IsBounded :
    (p : Pending) (r : Reason) (l : Link) → IsBounded l → IsBounded (start_draining p r l)
start_draining-IsBounded p r l v =
    with_pending _ _
      (send_text-IsBounded (sent_cancel p.id) _ (with_pending _ _ (settle-IsBounded p none l v)))

pub abandon-IsBounded : (id : ℕ) (r : Reason) (l : Link) → IsBounded l → IsBounded (abandon id r l)
unfolding abandon
abandon-IsBounded id r l v = go l.pending
  where
    go : (p : Option Pending) → IsBounded (abandon_pending p id r l)
    go none = v
    go (some p) = ground (
      arith,
      start_draining-IsBounded p r l v,
      close-IsBounded r (finish none 0 l) (finish-IsBounded none 0 l v),
    )

pub drain_timeout-IsBounded : (id : ℕ) (l : Link) → IsBounded l → IsBounded (drain_timeout id l)
unfolding drain_timeout
drain_timeout-IsBounded id l v = grind (arith, close-IsBounded)

keep_chunk-IsBounded :
    (p : Pending) (c : Bytes) (l : Link) → IsBounded l → IsBounded (keep_chunk p c l)
keep_chunk-IsBounded p c l v = either p.draining (with_pending _ l v) (with_pending _ l v)

pub on_binary-IsBounded : (c : Bytes) (l : Link) → IsBounded l → IsBounded (on_binary c l)
unfolding on_binary
on_binary-IsBounded c l v = either l.closed v (go l.pending)
  where
    l' : Link
    l' = record l { bytes_in = l.bytes_in + length c }

    counted : IsBounded l'
    counted = ground arith

    of_size : (p : Pending) (n : Option ℕ) → IsBounded (chunk_of p n c l)
    of_size p none = close-IsBounded protocol l v
    of_size p (some n) = either _ (close-IsBounded protocol l v) (
        either _
          (close-IsBounded protocol (record l' { pending = some (grown p c) })
            (with_pending (some (grown p c)) l' counted))
          (keep_chunk-IsBounded p c l' counted))

    go : (p : Option Pending) → IsBounded (binary_for p c l)
    go none = v
    go (some p) = of_size p p.size

mismatched-IsBounded : (p : Pending) (l : Link) → IsBounded l → IsBounded (mismatched p l)
mismatched-IsBounded p l v = either p.draining (close-IsBounded protocol l v) v

pub on_meta-IsBounded :
    (i : Option ℤ) (n : Option ℕ) (l : Link) → IsBounded l → IsBounded (on_meta i n l)
unfolding on_meta
on_meta-IsBounded i n l v = either l.closed v (go l.pending)
  where
    shut : IsBounded (close protocol l)
    shut = close-IsBounded protocol l v

    sized : (p : Pending) (n : Option ℕ) → IsBounded (set_size p n l)
    sized p none = shut
    sized p (some n) = either _ shut (with_pending _ l v)

    go : (p : Option Pending) → IsBounded (meta_for p i n l)
    go none = v
    go (some p) = either _ (mismatched-IsBounded p l v) (either _ shut (either _ shut (sized p n)))

pub on_eof-IsBounded :
    (i : Option ℤ) (now : ℕ) (l : Link) → IsBounded l → IsBounded (on_eof i now l)
unfolding on_eof
on_eof-IsBounded i now l v = either l.closed v (go l.pending)
  where
    go : (p : Option Pending) → IsBounded (eof_for p i now l)
    go none = v
    go (some p) = either _ (mismatched-IsBounded p l v) (
        either _ (finish-IsBounded none now l v) (
          either _ (close-IsBounded protocol l v)
            (either _ (finish-IsBounded none now l v) (finish-IsBounded _ now l v))))

pub on_none-IsBounded : (i : Option ℤ) (l : Link) → IsBounded l → IsBounded (on_none i l)
unfolding on_none
on_none-IsBounded i l v = either l.closed v (go l.pending)
  where
    go : (p : Option Pending) → IsBounded (none_for p i l)
    go none = v
    go (some p) =
        either _ (mismatched-IsBounded p l v)
          (either _ (close-IsBounded protocol l v) (finish-IsBounded none 0 l v))

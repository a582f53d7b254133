-- ===== src/Link/Promise/Requests.antt =====
-- Requests and their abandonment keep a link's promises sound (src/browser/peer-link.mjs).
use relayswarm.Base.{
  ℕ, ◌+◌, ◌≤◌, ◌≡◌, refl, sym, subst, Bool, true, false, ◌&&◌, ◌||◌, not, Option, none, some, [],
  arith, Text, flatten, Bool-cases, inl, inr, ◌==◌,
}
use relayswarm.Link.State.{
  Link, Pending, Reason, chunk_limit, finish, send_text, settle, sent_want, sent_cancel, busy,
}
use relayswarm.Link.Request.{
  request, abandon, drain_timeout, after_want, start_draining, abandon_pending, mark_cancelled,
  new_pending, finish_id, drain_pending, is_reliable,
}
use relayswarm.Link.Promise.{
  Results, SizeFits, Sound, IsSound, settled-Sound, finish-IsSound, close-IsSound,
  send_text-IsSound, either,
}

mark_cancelled-Sound :
    (max next : ℕ) (p : Option Pending) (b : Bool) (rs : Results)
    → Sound max next p rs
    → Sound max next (mark_cancelled p b) rs
mark_cancelled-Sound max next none b rs v = v
mark_cancelled-Sound max next (some p) b rs v = record {
  pending_sound = v.pending_sound;
  all_fit = v.all_fit;
  numbered = v.numbered;
  counted = v.counted;
}

finish_id-IsSound :
    (p : Option Pending) (id : ℕ) (l : Link) → IsSound l → IsSound (finish_id p id l)
finish_id-IsSound none id l v = v
finish_id-IsSound (some p) id l v = either (p.id == id) _ _ (finish-IsSound none 0 l tt v) v

after_want-IsSound : (id : ℕ) (r : Link × Bool) → IsSound r.0 → IsSound (after_want id r)
after_want-IsSound id (l, true) v = v
after_want-IsSound id (l, false) v = finish_id-IsSound l.pending id l v

requested-Sound :
    (max next : ℕ) (k : Text) (e : Option ℕ) (rs : Results)
    → Sound max next none rs
    → Sound max (next + 1) (some (new_pending next k e)) rs
unfolding flatten
requested-Sound max next k e rs v = record {
  pending_sound = (refl, λ _. refl, tt, (omega arith, omega arith, omega arith));
  all_fit = v.all_fit;
  numbered = v.numbered;
  counted = v.counted;
}

abbrev asked : Text → Option ℕ → Link → Link
asked k e l = record l { next_id = l.next_id + 1; pending = some (new_pending l.next_id k e) }

request_refused :
    (k : Text) (e : Option ℕ) (a : Bool) (l : Link)
    → (l.closed || busy l || a) ≡ true
    → request k e a l ≡ (record l { refused = l.refused + 1 }, none)
unfolding request
request_refused k e a l h = rw h

request_idle :
    (k : Text) (e : Option ℕ) (a : Bool) (l : Link)
    → (l.closed || busy l || a) ≡ false
    → request k e a l
      ≡ (after_want l.next_id (send_text (sent_want l.next_id k) (asked k e l)), some l.next_id)
unfolding request
request_idle k e a l h = rw h

not_busy : (l : Link) → busy l ≡ false → l.pending ≡ none
unfolding busy
not_busy l h = ground arith

pub request-IsSound :
    (k : Text) (e : Option ℕ) (a : Bool) (l : Link) → IsSound l → IsSound (request k e a l).0
unfolding request
request-IsSound k e a l v = elim (Bool-cases (l.closed || busy l || a)) [
  | inl refused ↦ subst (λ r. IsSound r.0) (sym (request_refused k e a l refused)) v
  | inr idle ↦
      subst (λ r. IsSound r.0) (sym (request_idle k e a l idle))
        (after_want-IsSound l.next_id _ (
          send_text-IsSound (sent_want l.next_id k) (asked k e l) (
            requested-Sound l.max_segment_bytes l.next_id k e l.resolved (
              subst (λ p. Sound l.max_segment_bytes l.next_id p l.resolved)
                (not_busy l (ground arith)) v))))
]

-- An abandoned request has its result, and waits for the end of the response.
draining-Sound :
    (max next : ℕ) (p : Pending) (r : Reason) (rs : Results)
    → Sound max next none rs
    → p.id + 1 ≡ next
    → SizeFits max p.size
    → p.chunks ≤ chunk_limit max
    → Sound max next (some (record p { draining = true; parts = []; drain_reason = r })) rs
unfolding flatten
draining-Sound max next p r rs v h f b = record {
  pending_sound = (h, λ d. cc, f, (omega arith, b, omega arith));
  all_fit = v.all_fit;
  numbered = v.numbered;
  counted = v.counted;
}

settled_draining :
    (p : Pending) (r : Reason) (l : Link)
    → p.draining ≡ false
    → Sound l.max_segment_bytes l.next_id (some p) l.resolved
    → IsSound (record (settle p none l) {
      pending = some (record p { draining = true; parts = []; drain_reason = r });
    })
settled_draining p r l d v = rw d (
    draining-Sound _ _ p r _ (settled-Sound _ _ p none _ d tt v) v.pending_sound.0 v.pending_sound.2
      v.pending_sound.3.1)

start_draining-IsSound :
    (p : Pending) (r : Reason) (l : Link)
    → p.draining ≡ false
    → Sound l.max_segment_bytes l.next_id (some p) l.resolved
    → IsSound (start_draining p r l)
start_draining-IsSound p r l d v =
    mark_cancelled-Sound _ _ _ _ _
      (send_text-IsSound (sent_cancel p.id) _ (settled_draining p r l d v))

abandon_draining :
    (p : Pending) (id : ℕ) (r : Reason) (l : Link)
    → p.draining ≡ true
    → abandon_pending (some p) id r l ≡ l
abandon_draining p id r l d = ground arith

pub abandon-IsSound : (id : ℕ) (r : Reason) (l : Link) → IsSound l → IsSound (abandon id r l)
unfolding abandon
abandon-IsSound id r l v = go l.pending v
  where
    go :
        (p : Option Pending)
        → Sound l.max_segment_bytes l.next_id p l.resolved
        → IsSound (abandon_pending p id r l)
    go none w = v
    go (some p) w = elim (Bool-cases p.draining) [
      | inl d ↦ subst IsSound (sym (abandon_draining p id r l d)) v
      | inr d ↦ either (not (p.id == id) || p.draining) _ _ v (
          either (is_reliable l.channel) _ _ (start_draining-IsSound p r l d w)
            (close-IsSound r (finish none 0 l) (finish-IsSound none 0 l tt v)))
    ]

pub drain_timeout-IsSound : (id : ℕ) (l : Link) → IsSound l → IsSound (drain_timeout id l)
unfolding drain_timeout
drain_timeout-IsSound id l v = go l.pending
  where
    go : (p : Option Pending) → IsSound (drain_pending p id l)
    go none = v
    go (some p) = either (p.id == id && p.draining) _ _ (close-IsSound p.drain_reason l v) v

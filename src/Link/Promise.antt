-- ===== src/Link/Promise.antt =====
-- The promises of a link's requests (src/browser/peer-link.mjs): what they resolve with, and how
-- often.
pub mod Requests
mod Responses
pub mod Counted
pub mod Runs
use relayswarm.Base.{
  ℕ, suc, ◌+◌, ◌≤◌, ◌<◌, ◌≡◌, refl, Bool, true, false, not, Option, none, some, List, [], ◌∷◌, ◌++◌,
  arith, length, Text, flatten, if◌then◌else◌, Bool-cases, inl, inr, length-append,
}
use relayswarm.Link.State.{
  Link, Pending, Reason, Outgoing, Bytes, chunk_limit, send_error, close, finish, send_text, settle,
  finish_pending,
}

-- The results so far, oldest first.
abbrev pub Results : Type 0
Results = List (ℕ × Option Bytes)

abbrev pub Fits : ℕ → Option Bytes → Type 0
Fits max none = Unit
Fits max (some b) = (1 ≤ length b) × (length b ≤ max)

abbrev pub AllFit : ℕ → Results → Type 0
AllFit max [] = Unit
AllFit max ((id, b) ∷ rs) = Fits max b × AllFit max rs

-- The results are those of the requests from this number on, in their order.
abbrev pub Numbered : ℕ → Results → Type 0
Numbered n [] = Unit
Numbered n ((id, b) ∷ rs) = (id ≡ n) × Numbered (n + 1) rs

-- `meta` announced an acceptable size.
abbrev pub SizeFits : ℕ → Option ℕ → Type 0
SizeFits max none = Unit
SizeFits max (some n) = (1 ≤ n) × (n ≤ max)

-- The parts that are held: no more of them, and no more bytes, than the link's limits allow.
abbrev pub PartsBounded : ℕ → Pending → Type 0
PartsBounded max p =
    (length p.parts ≤ p.chunks) × (p.chunks ≤ chunk_limit max) × (length (flatten p.parts) ≤ max)

abbrev pub PendingSound : ℕ → ℕ → Option Pending → Type 0
PendingSound max next none = Unit
PendingSound max next (some p) =
    (p.id + 1 ≡ next)
    × (p.draining ≡ false → length (flatten p.parts) ≡ p.received)
    × SizeFits max p.size
    × PartsBounded max p

-- The ids that have results: those before the pending request, which has one once it drains.
abbrev pub floor : Option Pending → ℕ → ℕ
floor none next = next
floor (some p) next = if p.draining then next else p.id

pub record Sound (max next : ℕ) (pending : Option Pending) (resolved : Results) : Type 0 where
  pub pending_sound : PendingSound max next pending
  pub all_fit : AllFit max resolved
  pub numbered : Numbered 1 resolved
  pub counted : length resolved + 1 ≡ floor pending next

abbrev pub IsSound : Link → Type 0
IsSound l = Sound l.max_segment_bytes l.next_id l.pending l.resolved

AllFit-append :
    (max id : ℕ) (b : Option Bytes) (rs : Results)
    → AllFit max rs
    → Fits max b
    → AllFit max (rs ++ (id, b) ∷ [])
AllFit-append max id b [] h f = (f, tt)
AllFit-append max id b (r ∷ rs) h f = (h.0, AllFit-append max id b rs h.1 f)

Numbered-append :
    (n id : ℕ) (b : Option Bytes) (rs : Results)
    → Numbered n rs
    → id ≡ n + length rs
    → Numbered n (rs ++ (id, b) ∷ [])
Numbered-append n id b [] h e = (omega (arith, e), tt)
Numbered-append n id b ((j, x) ∷ rs) h e =
    (h.0, Numbered-append (n + 1) id b rs h.1 (omega (arith, e)))

-- The pending request resolves: its id is the next number.
pub settled-Sound :
    (max next : ℕ) (p : Pending) (b : Option Bytes) (rs : Results)
    → p.draining ≡ false
    → Fits max b
    → Sound max next (some p) rs
    → Sound max next none (rs ++ (p.id, b) ∷ [])
settled-Sound max next p b rs d f v =
    let count : length rs + 1 ≡ p.id = ground (arith, v.counted) in
    record {
      pending_sound = tt;
      all_fit = AllFit-append max p.id b rs v.all_fit f;
      numbered = Numbered-append 1 p.id b rs v.numbered (omega (arith, count));
      counted = omega (arith, count, v.pending_sound.0, length-append rs ((p.id, b) ∷ []));
    }

drained-Sound :
    (max next : ℕ) (p : Pending) (rs : Results)
    → p.draining ≡ true
    → Sound max next (some p) rs
    → Sound max next none rs
drained-Sound max next p rs d v = record {
  pending_sound = tt;
  all_fit = v.all_fit;
  numbered = v.numbered;
  counted = ground (arith, v.counted);
}

pub finish_some :
    (p : Pending) (b : Option Bytes) (now : ℕ) (l : Link)
    → Fits l.max_segment_bytes b
    → Sound l.max_segment_bytes l.next_id (some p) l.resolved
    → IsSound (finish_pending (some p) b now l)
finish_some p b now l f v = elim (Bool-cases p.draining) [
  | inl d ↦ rw d (drained-Sound _ _ p _ d v)
  | inr d ↦ rw d (settled-Sound _ _ p b _ d f v)
]

pub finish-IsSound :
    (b : Option Bytes) (now : ℕ) (l : Link)
    → Fits l.max_segment_bytes b
    → IsSound l
    → IsSound (finish b now l)
unfolding finish
finish-IsSound b now l f v = go l.pending v
  where
    go :
        (p : Option Pending)
        → Sound l.max_segment_bytes l.next_id p l.resolved
        → IsSound (finish_pending p b now l)
    go none w = v
    go (some p) w = finish_some p b now l f w

pub close-IsSound : (r : Reason) (l : Link) → IsSound l → IsSound (close r l)
unfolding close
close-IsSound r l v = elim (Bool-cases l.closed) [
  | inl c ↦ rw c v
  | inr c ↦ rw c (finish-IsSound none 0 _ tt v)
]

either_sent :
    (b : Bool) (x y : Link × Bool)
    → IsSound x.0
    → IsSound y.0
    → IsSound (if◌then◌else◌ {A = Link × Bool} b x y).0
either_sent true x y v w = v
either_sent false x y v w = w

pub send_text-IsSound : (m : Outgoing) (l : Link) → IsSound l → IsSound (send_text m l).0
unfolding send_text
send_text-IsSound m l v = either_sent l.closed _ _ v (
    either_sent (not l.channel.is_open) _ _ v
      (either_sent l.channel.accepts _ _ v (close-IsSound send_error l v)))

pub either :
    (b : Bool) (x y : Link) → IsSound x → IsSound y → IsSound (if◌then◌else◌ {A = Link} b x y)
either true x y v w = v
either false x y v w = w

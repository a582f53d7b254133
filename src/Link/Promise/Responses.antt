-- ===== src/Link/Promise/Responses.antt =====
-- The frames of a response keep a link's promises sound (src/browser/peer-link.mjs).
use relayswarm.Base.{
  ℕ, ◌+◌, ◌≤◌, ◌≡◌, refl, sym, ap, subst, ◌∙◌, Bool, true, false, ◌&&◌, ◌||◌, not, Option, none,
  some, List, [], ◌∷◌, ◌++◌, arith, length, flatten, if◌then◌else◌, Bool-cases, inl, inr,
  length-append, append-nil, ltb, leb, ◌==◌, ==_iff,
}
use relayswarm.Base.Int.{ℤ}
use relayswarm.Link.State.{
  Link, Pending, Bytes, protocol, close, finish, finish_pending, chunk_bytes, chunk_limit,
  max_chunks,
}
use relayswarm.Link.Download.{
  grown, chunk_of, binary_for, keep_chunk, mismatched, set_size, meta_for, eof_for, none_for,
  on_binary, on_meta, on_eof, on_none, is_none, same_id, received_all, unexpected_size,
}
use relayswarm.Link.Promise.{
  Results, Fits, SizeFits, Sound, IsSound, finish_some, finish-IsSound, close-IsSound, either,
}

mismatched-IsSound : (p : Pending) (l : Link) → IsSound l → IsSound (mismatched p l)
mismatched-IsSound p l v = either p.draining _ _ (close-IsSound protocol l v) v

flatten-single :
    (ps : List Bytes) (c : Bytes) → length (flatten (ps ++ c ∷ [])) ≡ length (flatten ps) + length c
unfolding flatten
flatten-single [] c = rw (append-nil c) (omega arith)
flatten-single (p ∷ ps) c = omega (
  arith,
  length-append p (flatten (ps ++ c ∷ [])),
  length-append p (flatten ps),
  flatten-single ps c,
)

grown-Sound :
    (max next : ℕ) (p : Pending) (c : Bytes) (rs : Results)
    → Sound max next (some p) rs
    → p.draining ≡ true
    → p.chunks + 1 ≤ chunk_limit max
    → Sound max next (some (grown p c)) rs
grown-Sound max next p c rs v d room = record {
  pending_sound = (
    v.pending_sound.0,
    λ e. cc,
    v.pending_sound.2,
    (omega (arith, v.pending_sound.3), room, v.pending_sound.3.2),
  );
  all_fit = v.all_fit;
  numbered = v.numbered;
  counted = v.counted;
}

kept-Sound :
    (max next : ℕ) (p : Pending) (c : Bytes) (rs : Results)
    → Sound max next (some p) rs
    → p.draining ≡ false
    → p.chunks + 1 ≤ chunk_limit max
    → p.received + length c ≤ max
    → Sound max next (some (record (grown p c) { parts = p.parts ++ c ∷ [] })) rs
kept-Sound max next p c rs v d room fits = record {
  pending_sound = (
    v.pending_sound.0,
    λ e. flatten-single p.parts c ∙ ap (λ n. n + length c) (v.pending_sound.1 e),
    v.pending_sound.2,
    (
      omega (arith, v.pending_sound.3, length-append p.parts (c ∷ [])),
      room,
      omega (arith, fits, flatten-single p.parts c, v.pending_sound.1 d),
    ),
  );
  all_fit = v.all_fit;
  numbered = v.numbered;
  counted = v.counted;
}

keep_chunk-IsSound :
    (p : Pending) (c : Bytes) (l : Link)
    → Sound l.max_segment_bytes l.next_id (some p) l.resolved
    → p.chunks + 1 ≤ chunk_limit l.max_segment_bytes
    → p.received + length c ≤ l.max_segment_bytes
    → IsSound (keep_chunk p c l)
keep_chunk-IsSound p c l v room fits = keep p.draining refl
  where
    keep :
        (b : Bool)
        → p.draining ≡ b
        → IsSound (
            if◌then◌else◌ {A = Link} b
              (record l { pending = some (grown p c) })
              (record l { pending = some (record (grown p c) { parts = p.parts ++ c ∷ [] }) }))
    keep true d = grown-Sound _ _ p c _ v d room
    keep false d = kept-Sound _ _ p c _ v d room fits

-- A link that is closed on account of a chunk drops its request.
close-grown :
    (p : Pending) (c : Bytes) (l : Link)
    → l.pending ≡ some (grown p c)
    → l.closed ≡ false
    → Sound l.max_segment_bytes l.next_id (some p) l.resolved
    → IsSound (close protocol l)
unfolding close finish
close-grown p c l e h w = go l.closed h l.pending e
  where
    shut : Link
    shut = record l {
      closed = true;
      close_reason = some protocol;
      fetching = [];
      renditions = [];
      announced = [];
    }

    go :
        (b : Bool)
        → b ≡ false
        → (q : Option Pending) → q ≡ some (grown p c)
        → IsSound (
            if◌then◌else◌ {A = Link} b l (record (finish_pending q none 0 shut) {
              channel = record (finish_pending q none 0 shut).channel { is_open = false };
            }))
    go true b q e = cc
    go false b q e =
        subst (λ q. IsSound (finish_pending q none 0 shut)) (sym e) (finish_some p none 0 shut tt w)

max_chunks_room :
    (l : Link) (n : ℕ) → leb (max_chunks l) n ≡ false → n + 1 ≤ chunk_limit l.max_segment_bytes
unfolding max_chunks
max_chunks_room l n h = ground (arith, h)

pub on_binary-IsSound : (c : Bytes) (l : Link) → IsSound l → IsSound (on_binary c l)
unfolding on_binary
on_binary-IsSound c l v = unless_closed l.closed refl
  where
    checked :
        (p : Pending) (n : ℕ)
        → SizeFits l.max_segment_bytes (some n)
        → Sound l.max_segment_bytes l.next_id (some p) l.resolved
        → l.closed ≡ false
        → (wrong : Bool)
        → (length c == 0 || ltb chunk_bytes (length c) || leb (max_chunks l) p.chunks) ≡ wrong
        → (over : Bool) → ltb n (p.received + length c) ≡ over
        → let l' : Link = record l { bytes_in = l.bytes_in + length c } in
          IsSound (
            if◌then◌else◌ {A = Link} wrong (close protocol l) (
              if◌then◌else◌ {A = Link} over
                (close protocol (record l' { pending = some (grown p c) }))
                (keep_chunk p c l')))
    checked p n f w h true e over o = close-IsSound protocol l v
    checked p n f w h false e true o =
        close-grown p c (record l { bytes_in = l.bytes_in + length c; pending = some (grown p c) })
          refl h w
    checked p n f w h false e false o =
        keep_chunk-IsSound p c (record l { bytes_in = l.bytes_in + length c }) w
          (max_chunks_room l p.chunks (ground (arith, e))) (ground (arith, o, f))

    of_size :
        (p : Pending) (n : Option ℕ)
        → p.size ≡ n
        → Sound l.max_segment_bytes l.next_id (some p) l.resolved
        → l.closed ≡ false
        → IsSound (chunk_of p n c l)
    of_size p none e w h = close-IsSound protocol l v
    of_size p (some n) e w h =
        checked p n (subst (SizeFits l.max_segment_bytes) e w.pending_sound.2) w h _ refl _ refl

    go :
        (p : Option Pending)
        → Sound l.max_segment_bytes l.next_id p l.resolved
        → l.closed ≡ false
        → IsSound (binary_for p c l)
    go none w h = v
    go (some p) w h = of_size p p.size refl w h

    unless_closed :
        (b : Bool)
        → l.closed ≡ b
        → IsSound (if◌then◌else◌ {A = Link} b l (binary_for l.pending c l))
    unless_closed true h = v
    unless_closed false h = go l.pending v h

set_size-IsSound :
    (p : Pending) (n : ℕ) (l : Link)
    → IsSound l
    → Sound l.max_segment_bytes l.next_id (some p) l.resolved
    → IsSound (set_size p (some n) l)
set_size-IsSound p n l v w = elim (Bool-cases (ltb n 1 || ltb l.max_segment_bytes n)) [
  | inl wrong ↦ rw wrong (close-IsSound protocol l v)
  | inr right ↦ rw right (record {
    pending_sound = (w.pending_sound.0, w.pending_sound.1, ground arith, w.pending_sound.3);
    all_fit = w.all_fit;
    numbered = w.numbered;
    counted = w.counted;
  })
]

pub on_meta-IsSound : (i : Option ℤ) (n : Option ℕ) (l : Link) → IsSound l → IsSound (on_meta i n l)
unfolding on_meta
on_meta-IsSound i n l v = either l.closed _ _ v (go l.pending v)
  where
    shut : IsSound (close protocol l)
    shut = close-IsSound protocol l v

    sized :
        (p : Pending) (n : Option ℕ)
        → Sound l.max_segment_bytes l.next_id (some p) l.resolved
        → IsSound (set_size p n l)
    sized p none w = shut
    sized p (some n) w = set_size-IsSound p n l v w

    go :
        (p : Option Pending)
        → Sound l.max_segment_bytes l.next_id p l.resolved
        → IsSound (meta_for p i n l)
    go none w = v
    go (some p) w = either (not (same_id i p.id)) _ _ (mismatched-IsSound p l v) (
        either (not (is_none p.size)) _ _ shut
          (either (unexpected_size p.expected_size n) _ _ shut (sized p n w)))

pub on_none-IsSound : (i : Option ℤ) (l : Link) → IsSound l → IsSound (on_none i l)
unfolding on_none
on_none-IsSound i l v = either l.closed _ _ v (go l.pending)
  where
    go : (p : Option Pending) → IsSound (none_for p i l)
    go none = v
    go (some p) = either (not (same_id i p.id)) _ _ (mismatched-IsSound p l v) (
        either (not (is_none p.size)) _ _ (close-IsSound protocol l v)
          (finish-IsSound none 0 l tt v))

-- A response that ends with every announced byte has an acceptable size.
received-Fits :
    (max next : ℕ) (p : Pending) (rs : Results)
    → Sound max next (some p) rs
    → p.draining ≡ false
    → received_all p.size p.received ≡ true
    → Fits max (some (flatten p.parts))
received-Fits max next p rs v d h = fits p.size v.pending_sound.2 h (v.pending_sound.1 d)
  where
    fits :
        (n : Option ℕ)
        → SizeFits max n
        → received_all n p.received ≡ true
        → length (flatten p.parts) ≡ p.received
        → Fits max (some (flatten p.parts))
    fits none f e g = cc
    fits (some n) f e g =
        let same = (==_iff p.received n).0 e in (omega (arith, f.0), omega (arith, f.1))

pub on_eof-IsSound : (i : Option ℤ) (now : ℕ) (l : Link) → IsSound l → IsSound (on_eof i now l)
unfolding on_eof
on_eof-IsSound i now l v = either l.closed _ _ v (go l.pending v)
  where
    ends :
        (p : Pending) (r d : Bool)
        → Sound l.max_segment_bytes l.next_id (some p) l.resolved
        → received_all p.size p.received ≡ r
        → p.draining ≡ d
        → IsSound (
            if◌then◌else◌ {A = Link} (not r) (close protocol l) (
              if◌then◌else◌ {A = Link} d
                (finish none now l)
                (finish (some (flatten p.parts)) now l)))
    ends p false d w h e = close-IsSound protocol l v
    ends p true true w h e = finish-IsSound none now l tt v
    ends p true false w h e = finish-IsSound _ now l (received-Fits _ _ p _ w e h) v

    go :
        (p : Option Pending)
        → Sound l.max_segment_bytes l.next_id p l.resolved
        → IsSound (eof_for p i now l)
    go none w = v
    go (some p) w = either (not (same_id i p.id)) _ _ (mismatched-IsSound p l v) (
        either (p.cancelled && not (is_none p.size)) _ _ (finish-IsSound none now l tt v)
          (ends p (received_all p.size p.received) p.draining w refl refl))

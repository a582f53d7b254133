-- ===== src/Origin/Exact.antt =====
-- What `fetchOriginRange` resolves with (src/browser/origin-range.mjs).
use relayswarm.Base.{
  ℕ, ◌+◌, ◌-◌, ◌<◌, ◌≡◌, refl, ap₂, ◌∙◌, ◌⊎◌, inl, inr, Bool, true, false, ◌||◌, not, Option, none,
  some, List, Text, length, leb, ltb, ◌==◌, if◌then◌else◌, arith,
}
use relayswarm.Origin.Range.{
  Context, Range, range_at, or_zero, origin_range_for, read_content_range, names,
  matching_content_range, Response, abort, invalid_request, error, wrong_size, payload, failed,
  read_body, read_response, fetch_range, fetch_origin_range,
}

-- As many bytes as the piece has: from the piece's start where the segment is a whole file, and so
-- far after the segment's start, and before its end, where it is a range of a file.
abbrev pub IsRange : Context → ℕ → ℕ → Range → Type 0
IsRange c from to r =
    (r.first + (to - from) ≡ r.last + 1)
    × (((or_zero c.range_end ≡ 0) × (r.first ≡ from))
        ⊎ ((r.first ≡ or_zero c.range_start + from) × (r.last < or_zero c.range_end)))

origin_range_for-IsRange :
    (c : Context) (from to : ℕ) (r : Range)
    → origin_range_for c from to ≡ some r
    → IsRange c from to r
unfolding origin_range_for
origin_range_for-IsRange c from to r h =
    go (leb to from) refl (or_zero c.range_end == 0) refl
      (ltb (or_zero c.range_end) (or_zero c.range_start + to)) refl h
  where
    is : (base : ℕ) → some (range_at base from to) ≡ some r → range_at base from to ≡ r
    is base e = cc e

    go :
        (a : Bool)
        → leb to from ≡ a
        → (b : Bool) → (or_zero c.range_end == 0) ≡ b
        → (d : Bool) → ltb (or_zero c.range_end) (or_zero c.range_start + to) ≡ d
        → (if a
            then none
            else (if b
                then some (range_at 0 from to)
                else (if d then none else some (range_at (or_zero c.range_start) from to))))
          ≡ some r
        → IsRange c from to r
    go true ea b eb d ed e = absurd (cc e)
    go false ea true eb d ed e =
        rw (← is 0 e) (ground (arith, ea), inl (ground (arith, eb), omega arith))
    go false ea false eb true ed e = absurd (cc e)
    go false ea false eb false ed e =
        rw (← is (or_zero c.range_start) e)
          (ground (arith, ea), inr (refl, ground (arith, ea, ed, eb)))

-- A header that is not exposed, or that names just this range.
abbrev pub Names : Option Text → Range → Type 0
Names header r =
    (header ≡ none)
    ⊎ ((t : Text) × (header ≡ some t) × (read_content_range t ≡ some (r.first, r.last)))

matching_content_range-Names :
    (header : Option Text) (r : Range) → matching_content_range header r ≡ true → Names header r
unfolding matching_content_range
matching_content_range-Names none r h = inl refl
matching_content_range-Names (some t) r h = go (read_content_range t) refl h
  where
    go : (w : Option (ℕ × ℕ)) → read_content_range t ≡ w → names w r ≡ true → Names (some t) r
    go none e n = absurd (cc n)
    go (some (first, last)) e n =
        let a : first ≡ r.first = ground (arith, n) in
        let b : last ≡ r.last = ground (arith, n) in inr (t, refl, e ∙ ap₂ (λ x y. some (x, y)) a b)

-- The response that the bytes come from.
abbrev pub Answers : Range → ℕ → Option Response → List ℕ → Type 0
Answers r size answer bytes =
    (w : Response) × (answer ≡ some w)
    × (w.status ≡ 206)
    × Names w.content_range r
    × (w.body ≡ some bytes)
    × (length bytes ≡ size)

read_body-bytes :
    (aborted : Bool) (size : ℕ) (body : Option (List ℕ)) (bytes : List ℕ)
    → (read_body aborted size body).bytes ≡ some bytes
    → (body ≡ some bytes) × (length bytes ≡ size)
read_body-bytes aborted size none bytes h = absurd (cc h)
read_body-bytes aborted size (some b) bytes h = go (length b == size) refl h
  where
    go :
        (x : Bool)
        → (length b == size) ≡ x
        → (if x
            then record { bytes = some b; ignored = false; report = payload }
            else failed true wrong_size).bytes
          ≡ some bytes
        → (some b ≡ some bytes) × (length bytes ≡ size)
    go true e g = (g, is (cc g) e)
      where
        is : b ≡ bytes → (length b == size) ≡ true → length bytes ≡ size
        is same e = rw (← same) (ground (arith, e))
    go false e g = absurd (cc g)

read_response-Answers :
    (aborted : Bool) (r : Range) (size : ℕ) (answer : Option Response) (bytes : List ℕ)
    → (read_response aborted r size answer).bytes ≡ some bytes
    → Answers r size answer bytes
read_response-Answers aborted r size none bytes h = absurd (cc h)
read_response-Answers aborted r size (some w) bytes h =
    go (w.status == 206) refl (matching_content_range w.content_range r) refl
      (w.status == 200 || w.status == 206) h
  where
    go :
        (s : Bool)
        → (w.status == 206) ≡ s
        → (m : Bool) → matching_content_range w.content_range r ≡ m
        → (x : Bool)
        → (if not s || not m
            then (if x then failed true wrong_size else failed false error)
            else read_body aborted size w.body).bytes
          ≡ some bytes
        → Answers r size (some w) bytes
    go false es m em true g = absurd (cc g)
    go false es m em false g = absurd (cc g)
    go true es false em true g = absurd (cc g)
    go true es false em false g = absurd (cc g)
    go true es true em x g =
        let read = read_body-bytes aborted size w.body bytes g in
        (
          w,
          refl,
          ground (arith, es),
          matching_content_range-Names w.content_range r em,
          read.0,
          read.1,
        )

-- Bytes that `fetchOriginRange` resolves with are the whole body of a response of status 206 to a
-- request for a range of just their number. The range starts `from` bytes after the segment's own
-- start and ends before the segment's end where the segment has a range, and starts at `from` where it
-- is a whole file; the response's Content-Range, where it is exposed, names just that range.
pub fetch_origin_range-Answers :
    (c : Context) (from to : ℕ) (before aborted : Bool) (answer : Range → Option Response)
    (bytes : List ℕ)
    → (fetch_origin_range c from to before aborted answer).bytes ≡ some bytes
    → (r : Range) × IsRange c from to r × Answers r (to - from) (answer r) bytes
unfolding fetch_origin_range
fetch_origin_range-Answers c from to before aborted answer bytes h =
    go (origin_range_for c from to) refl (not c.has_url || before) h
  where
    reads :
        (r : Range)
        → origin_range_for c from to ≡ some r
        → (x : Bool)
        → (if x
            then failed false (if before then abort else invalid_request)
            else read_response aborted r (to - from) (answer r)).bytes
          ≡ some bytes
        → (r : Range) × IsRange c from to r × Answers r (to - from) (answer r) bytes
    reads r e true g = absurd (cc g)
    reads r e false g = (
      r,
      origin_range_for-IsRange c from to r e,
      read_response-Answers aborted r (to - from) (answer r) bytes g,
    )

    go :
        (o : Option Range)
        → origin_range_for c from to ≡ o
        → (x : Bool)
        → (fetch_range o c.has_url before aborted (to - from) answer).bytes ≡ some bytes
        → (r : Range) × IsRange c from to r × Answers r (to - from) (answer r) bytes
    go none e x g = absurd (cc g)
    go (some r) e x g = reads r e (not c.has_url || before) g

-- ===== src/Pacing/Calls.antt =====
-- The balance of an upload pacer over its calls (src/browser/upload-pacing.mjs).
use relayswarm.Base.{
  ℕ, ◌∙◌, ◌+◌, ◌≤◌, ◌≡◌, refl, ap, ◌==◌, Bool, true, false, ◌&&◌, ◌||◌, not, Option, none, List, [],
  ◌∷◌, length, length-append, if◌then◌else◌, leb, ltb, arith,
}
use relayswarm.Pacing.Pacer.{
  has_link, is_whole, Geometry, Row, cancelled, Pacer, Bucket, new_pacer, remove, pump, turn_away,
  new_row, enqueue, acquire, settle, finish_rows, finish, is_of, keep_reserved, cancel_queued_row,
  cancel_queued, abort, cancel_reserved_row, cancel_reserved, cancel_all, cancel, stop,
}
use relayswarm.Pacing.Balance.{
  charges, Books, IsBalanced, remove-Books, remove-reserved, pump-IsBalanced,
}

module _ {B : Type 0} where
  -- The reserved rows that are left over, beside `c` bytes of others.
  abbrev Settled : ℕ → ℕ → Pacer B → Pacer B → Type 0
  Settled n c p q = Books n (charges q.reserved + c) q × (q.queued ≡ p.queued)

  settle-Books :
      (k : Bucket B) (sent : Bool) (row : Row) (rows : List Row) (p : Pacer B) (n c : ℕ)
      → Books n (row.geometry.charge + charges rows + c) p
      → Settled n c p (settle k sent row (record p { reserved = rows }))
  settle-Books k true row rows p n c h = ((omega (arith, h), omega (arith, h)), refl)
  settle-Books k false row rows p n c h = ((omega (arith, h), omega (arith, h)), refl)

  keep_reserved-Settled :
      (row : Row) (p q : Pacer B) (n c : ℕ)
      → Settled n (c + row.geometry.charge) p q
      → Settled n c p (keep_reserved row q)
  keep_reserved-Settled row p q n c (books, same) =
      ((omega (arith, books), omega (arith, books)), same)

  finish_rows-Settled :
      (k : Bucket B) (id : ℕ) (sent : Bool) (rows : List Row) (p : Pacer B) (n c : ℕ)
      → Books n (charges rows + c) p
      → Settled n c p (finish_rows k id sent rows p)
  unfolding finish_rows
  finish_rows-Settled k id sent [] p n c h = (h, refl)
  finish_rows-Settled k id sent (row ∷ rows) p n c h = go (row.id == id) (
      finish_rows-Settled k id sent rows p n (c + row.geometry.charge)
        (omega (arith, h), omega (arith, h)))
    where
      go :
          (b : Bool)
          → Settled n (c + row.geometry.charge) p (finish_rows k id sent rows p)
          → Settled n c p (
              if b
              then settle k sent row (record p { reserved = rows })
              else keep_reserved row (finish_rows k id sent rows p))
      go true ih = settle-Books k sent row rows p n c h
      go false ih = keep_reserved-Settled row p (finish_rows k id sent rows p) n c ih

  cancel_reserved-Settled :
      (k : Bucket B) (link : Option ℕ) (rows : List Row) (p : Pacer B) (n c : ℕ)
      → Books n (charges rows + c) p
      → Settled n c p (cancel_reserved k link rows p)
  unfolding cancel_reserved
  cancel_reserved-Settled k link [] p n c h = (h, refl)
  cancel_reserved-Settled k link (row ∷ rows) p n c h =
      go (is_of link row)
        (cancel_reserved-Settled k link rows (abort k row p) n c
          (omega (arith, h), omega (arith, h)))
        (cancel_reserved-Settled k link rows p n (c + row.geometry.charge)
          (omega (arith, h), omega (arith, h)))
    where
      next : Pacer B → Pacer B
      next q = cancel_reserved k link rows q

      go :
          (b : Bool)
          → Settled n c p (next (abort k row p))
          → Settled n (c + row.geometry.charge) p (next p)
          → Settled n c p (cancel_reserved_row k b row next p)
      go true off kept = off
      go false off kept = keep_reserved-Settled row p (next p) n c kept

  -- The queue that is left over, beside `n` others.
  abbrev Left : List Row → ℕ → ℕ → Pacer B → Pacer B → Type 0
  Left rows n c p q =
      (Books (length q.queued + n) c q × (q.reserved ≡ p.reserved))
      × (length q.queued ≤ length rows)

  cancel_queued-Left :
      (now : ℕ) (link : Option ℕ) (rows : List Row) (p : Pacer B) (n c : ℕ)
      → Books (length rows + n) c p
      → Left rows n c p (cancel_queued now link rows p)
  unfolding cancel_queued
  cancel_queued-Left now link [] p n c h = ((h, refl), omega arith)
  cancel_queued-Left now link (row ∷ rows) p n c h =
      go (is_of link row)
        (cancel_queued-Left now link rows (remove now row cancelled p) n c
          (remove-Books now row cancelled p (length rows + n) c (h.0, omega (arith, h))))
        (cancel_queued-Left now link rows p (n + 1) c (h.0, omega (arith, h)))
    where
      next : Pacer B → Pacer B
      next q = cancel_queued now link rows q

      go :
          (b : Bool)
          → Left rows n c (remove now row cancelled p) (next (remove now row cancelled p))
          → Left rows (n + 1) c p (next p)
          → Left (row ∷ rows) n c p (cancel_queued_row now b row next p)
      go true off kept =
          ((off.0.0, off.0.1 ∙ remove-reserved now row cancelled p), omega (arith, off))
      go false off kept = (((kept.0.0.0, omega (arith, kept)), kept.0.1), omega (arith, kept))

  cancel_all-IsBalanced :
      (k : Bucket B) (now : ℕ) (link : Option ℕ) (p : Pacer B)
      → IsBalanced k p
      → IsBalanced k (cancel_all k now link p)
  unfolding cancel_all
  cancel_all-IsBalanced k now link p (books, few) =
      let q = cancel_queued now link p.queued p in
      let left =
        cancel_queued-Left now link p.queued p 0 (charges p.reserved)
          (books.0, omega (arith, books)) in
      let same = ap charges left.0.1 in
      let done =
        cancel_reserved-Settled k link p.reserved q (length q.queued) 0
          (omega (arith, left.0.0), omega (arith, left.0.0)) in
      balanced q (cancel_reserved k link p.reserved q) done left.1
    where
      balanced :
          (q r : Pacer B)
          → Settled (length q.queued) 0 q r
          → length q.queued ≤ length p.queued
          → IsBalanced k r
      balanced q r (books, same) le =
          let e = ap length same in
          ((omega (arith, books), omega (arith, books, e)), omega (arith, e, le, few))

  acquire-IsBalanced :
      (k : Bucket B) (now link : ℕ) (g : Geometry) (p : Pacer B)
      → IsBalanced k p
      → IsBalanced k (acquire k now link g p)
  unfolding acquire
  acquire-IsBalanced k now link g p (books, few) =
      go p.closed (has_link link p.queued) (has_link link p.reserved)
        (leb k.max_waiters (length p.queued)) refl
        (is_whole g.range && (not (length p.queued == 0) || ltb 0 (k.delay g.charge p.bucket)))
    where
      away : IsBalanced k (turn_away p)
      away = ((omega (arith, books), omega (arith, books)), few)

      waits : leb k.max_waiters (length p.queued) ≡ false → IsBalanced k (enqueue now link g p)
      waits room = (
        (books.0, omega (arith, books, length-append p.queued (new_row now link g p ∷ []))),
        ground (arith, room, length-append p.queued (new_row now link g p ∷ [])),
      )

      go :
          (a b c d : Bool)
          → leb k.max_waiters (length p.queued) ≡ d
          → (e : Bool)
          → IsBalanced k
              (if a || b || c || d || e then turn_away p else pump k now (enqueue now link g p))
      go true b c d ed e = away
      go false true c d ed e = away
      go false false true d ed e = away
      go false false false true ed e = away
      go false false false false ed true = away
      go false false false false ed false = pump-IsBalanced k now (enqueue now link g p) (waits ed)

  finish-IsBalanced :
      (k : Bucket B) (id : ℕ) (sent : Bool) (p : Pacer B)
      → IsBalanced k p
      → IsBalanced k (finish k id sent p)
  unfolding finish
  finish-IsBalanced k id sent p (books, few) =
      let q = finish_rows k id sent p.reserved p in
      let done =
        finish_rows-Settled k id sent p.reserved p (length p.queued) 0
          (omega (arith, books), books.1) in
      let e = ap length done.1 in
      ((omega (arith, done), omega (arith, done, e)), omega (arith, e, few))

-- The calls of a page, each with its time, and the turns in which `finish` has left the pumping.
pub data Call : Type 0 where
  acquires : ℕ → ℕ → Geometry → Call
  finishes : ℕ → Bool → Call
  cancels : ℕ → Option ℕ → Call
  pumps : ℕ → Call
  stops : ℕ → Call

module _ {B : Type 0} where
  abbrev pub call : Bucket B → Call → Pacer B → Pacer B
  call k (acquires now link g) = acquire k now link g
  call k (finishes id sent) = finish k id sent
  call k (cancels now link) = cancel k now link
  call k (pumps now) = pump k now
  call k (stops now) = stop k now

  unfoldable pub run : Bucket B → List Call → Pacer B → Pacer B
  run k [] p = p
  run k (c ∷ cs) p = run k cs (call k c p)

  call-IsBalanced :
      (k : Bucket B) (c : Call) (p : Pacer B) → IsBalanced k p → IsBalanced k (call k c p)
  unfolding cancel stop
  call-IsBalanced k (acquires now link g) p h = acquire-IsBalanced k now link g p h
  call-IsBalanced k (finishes id sent) p h = finish-IsBalanced k id sent p h
  call-IsBalanced k (cancels now link) p h =
      pump-IsBalanced k now (cancel_all k now link p) (cancel_all-IsBalanced k now link p h)
  call-IsBalanced k (pumps now) p h = pump-IsBalanced k now p h
  call-IsBalanced k (stops now) p h =
      let q : Pacer B = record p { closed = true } in
      pump-IsBalanced k now (cancel_all k now none q) (cancel_all-IsBalanced k now none q h)

  run-IsBalanced_from :
      (k : Bucket B) (calls : List Call) (p : Pacer B)
      → IsBalanced k p
      → IsBalanced k (run k calls p)
  unfolding run
  run-IsBalanced_from k [] p h = h
  run-IsBalanced_from k (c ∷ cs) p h =
      run-IsBalanced_from k cs (call k c p) (call-IsBalanced k c p h)

  -- Over any calls, whatever the bucket answers: what a new pacer has taken from the bucket is what
  -- it has given back, what has been sent, and the charges of the rows still reserved; the answers
  -- and the rows that still wait are together as many as the requests; and no more wait than allowed.
  pub run-IsBalanced :
      (k : Bucket B) (b : B) (calls : List Call) → IsBalanced k (run k calls (new_pacer b))
  run-IsBalanced k b calls =
      run-IsBalanced_from k calls (new_pacer b) ((omega arith, omega arith), omega arith)

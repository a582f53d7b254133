-- ===== src/Pacing/Balance.antt =====
-- What an upload pacer takes from its bucket, and whom it answers (src/browser/upload-pacing.mjs).
use relayswarm.Base.{
  ℕ, ◌+◌, ◌≤◌, ◌≡◌, refl, Bool, true, false, not, Option, none, some, List, [], ◌∷◌, ◌++◌, length,
  leb, if◌then◌else◌, arith,
}
use relayswarm.Pacing.Pacer.{
  Row, Refusal, expired, cancelled, refused, Effect, takes, gives, spends, grants, answers_null,
  Pacer, Bucket, does, waited_row, hold, count, remove, reserve, taken, pump_row, pump_rows, pump,
}

-- What has been taken from the bucket, and what has been given back or sent.
abbrev pub total_taken : List Effect → ℕ
total_taken [] = 0
total_taken (takes n ∷ es) = n + total_taken es
total_taken (e ∷ es) = total_taken es

abbrev pub total_settled : List Effect → ℕ
total_settled [] = 0
total_settled (gives n ∷ es) = n + total_settled es
total_settled (spends n ∷ es) = n + total_settled es
total_settled (e ∷ es) = total_settled es

-- The promises that have resolved, with a row or with null.
abbrev pub total_answered : List Effect → ℕ
total_answered [] = 0
total_answered (grants i ∷ es) = 1 + total_answered es
total_answered (answers_null i r ∷ es) = 1 + total_answered es
total_answered (e ∷ es) = total_answered es

abbrev pub charges : List Row → ℕ
charges [] = 0
charges (row ∷ rows) = row.geometry.charge + charges rows

charges-append : (xs ys : List Row) → charges (xs ++ ys) ≡ charges xs + charges ys
charges-append [] ys = omega arith
charges-append (x ∷ xs) ys = omega (arith, charges-append xs ys)

module _ {B : Type 0} where
  -- The books, for a queue of `n` rows and reserved rows of `c` bytes.
  abbrev pub Books : ℕ → ℕ → Pacer B → Type 0
  Books n c p =
      (total_taken p.effects ≡ total_settled p.effects + c)
      × (total_answered p.effects + n ≡ p.next_id)

  abbrev pub IsBalanced : Bucket B → Pacer B → Type 0
  IsBalanced k p =
      Books (length p.queued) (charges p.reserved) p × (length p.queued ≤ k.max_waiters)

  -- A row leaves the queue with null.
  pub remove-Books :
      (now : ℕ) (row : Row) (r : Refusal) (p : Pacer B) (n c : ℕ)
      → Books (n + 1) c p
      → Books n c (remove now row r p)
  remove-Books now row r p n c h = go r row.waiting
    where
      go :
          (r : Refusal) (b : Bool)
          → Books n c (does (answers_null row.id r) (count r (waited_row b now row p)))
      go expired true = (omega (arith, h), omega (arith, h))
      go expired false = (omega (arith, h), omega (arith, h))
      go cancelled true = (omega (arith, h), omega (arith, h))
      go cancelled false = (omega (arith, h), omega (arith, h))
      go refused true = (omega (arith, h), omega (arith, h))
      go refused false = (omega (arith, h), omega (arith, h))

  pub remove-reserved :
      (now : ℕ) (row : Row) (r : Refusal) (p : Pacer B) → (remove now row r p).reserved ≡ p.reserved
  remove-reserved now row r p = go r row.waiting
    where
      go :
          (r : Refusal) (b : Bool)
          → (does (answers_null row.id r) (count r (waited_row b now row p))).reserved ≡ p.reserved
      go expired true = refl
      go expired false = refl
      go cancelled true = refl
      go cancelled false = refl
      go refused true = refl
      go refused false = refl

  -- A row leaves the queue with its charge reserved.
  reserve-Books :
      (now : ℕ) (row : Row) (b : B) (p : Pacer B) (n : ℕ)
      → Books (n + 1) (charges p.reserved) p
      → Books n (charges (reserve now row b p).reserved) (reserve now row b p)
  reserve-Books now row b p n h = go row.waiting
    where
      go :
          (w : Bool)
          → Books n
              (charges (hold row b (waited_row w now row p)).reserved)
              (hold row b (waited_row w now row p))
      go true = (omega (arith, h, charges-append p.reserved (row ∷ [])), omega (arith, h))
      go false = (omega (arith, h, charges-append p.reserved (row ∷ [])), omega (arith, h))

  abbrev Served : List Row → Pacer B → Type 0
  Served rows p = Books (length p.queued) (charges p.reserved) p × (length p.queued ≤ length rows)

  Served-more : (row : Row) (rows : List Row) (p : Pacer B) → Served rows p → Served (row ∷ rows) p
  Served-more row rows p h = (h.0, omega (arith, h.1))

  pump_row-Served :
      (k : Bucket B) (now : ℕ) (row : Row) (rest : List Row) (next : Pacer B → Pacer B)
      (p : Pacer B)
      → Books (length rest + 1) (charges p.reserved) p
      → ((q : Pacer B) → Books (length rest) (charges q.reserved) q → Served rest (next q))
      → Served (row ∷ rest) (pump_row k now row rest next p)
  pump_row-Served k now row rest next p h ih =
      go (leb row.deadline now) (k.is_wanted row) (k.take row.geometry.charge p.bucket)
    where
      off : (r : Refusal) → Served (row ∷ rest) (next (remove now row r p))
      off r = Served-more row rest (next (remove now row r p)) (
          ih (remove now row r p) (
            rw (remove-reserved now row r p)
              (remove-Books now row r p (length rest) (charges p.reserved) h)))

      go :
          (late wanted : Bool) (b : Option B)
          → Served (row ∷ rest) (
              if late
              then next (remove now row expired p)
              else (if not wanted
                  then next (remove now row cancelled p)
                  else taken k now row rest next p b))
      go true wanted b = off expired
      go false false b = off cancelled
      go false true none = ((h.0, omega (arith, h)), omega arith)
      go false true (some b) =
          Served-more row rest (next (reserve now row b p))
            (ih (reserve now row b p) (reserve-Books now row b p (length rest) h))

  pump_rows-Served :
      (k : Bucket B) (now : ℕ) (rows : List Row) (p : Pacer B)
      → Books (length rows) (charges p.reserved) p
      → Served rows (pump_rows k now rows p)
  unfolding pump_rows
  pump_rows-Served k now [] p h = (h, omega arith)
  pump_rows-Served k now (row ∷ rest) p h =
      pump_row-Served k now row rest (λ q. pump_rows k now rest q) p (h.0, omega (arith, h))
        (λ q g. pump_rows-Served k now rest q g)

  pub pump-IsBalanced :
      (k : Bucket B) (now : ℕ) (p : Pacer B) → IsBalanced k p → IsBalanced k (pump k now p)
  unfolding pump
  pump-IsBalanced k now p (books, few) = go p.closed
    where
      go :
          (b : Bool)
          → IsBalanced k (
              if b
              then record p { timer = none }
              else pump_rows k now p.queued (record p { timer = none }))
      go true = (books, few)
      go false =
          let r = pump_rows-Served k now p.queued (record p { timer = none }) books in
          (r.0, omega (arith, r.1))

-- ===== src/Budget/Limit.antt =====
-- The tabs of one origin together never reserve more than the largest limit (demo/upload-budget.mjs).
pub mod Runs
use relayswarm.Base.{
  ℕ, zero, suc, ◌+◌, ◌-◌, ◌≤◌, ◌≡◌, refl, Bool, true, false, not, Option, none, some, List, [], ◌∷◌,
  if◌then◌else◌, leb, ltb, ◌||◌, arith, Bool-cases, inl, inr,
}
use relayswarm.Budget.Ledger.{
  Ledger, Stored, absent, holds, unreadable, Tab, Write, kept, thrown, ignored, Host, Result,
  initial, read, refused, fail, reads_back, commit, updated, under_lock, transaction, with_limit,
  set_limit, spend, reserve, given_or, restored, reset_to, reset, read_into, refresh, open_tab,
  valid, valid_limit, max_safe, previous_revision,
}
use relayswarm.Budget.Tabs.{
  Action, sets_limit, reserves, resets, shows, perform, Origin, after_grant, Happening, opens, acts,
  counted, behind, act, happen, run_tabs,
}

module _ (most : ℕ) where
  -- `n` has been reserved since the last reset.
  pub record Agrees (l : Ledger) (n : ℕ) : Type 0 where
    pub spent_counted : l.spent ≡ n
    pub spent_below : l.spent ≤ most
    pub limit_below : l.limit ≤ most

  abbrev pub Holds : Stored → ℕ → Type 0
  Holds absent n = n ≡ 0
  Holds (holds l) n = Agrees l n
  Holds unreadable n = n ≤ most

  pub record IsWithin (t : Tab) : Type 0 where
    pub default_below : t.default_limit ≤ most
    pub state_below : t.state.limit ≤ most

  abbrev pub Keeps : Result → ℕ → ℕ → Type 0
  Keeps r granted n = IsWithin r.tab × Holds r.stored (if r.ok then granted else n)

  fail-Keeps : (t : Tab) (s : Stored) (g n : ℕ) → IsWithin t → Holds s n → Keeps (fail t s) g n
  fail-Keeps t s g n w h =
      (record { default_below = w.default_below; state_below = w.state_below }, h)

  reads_back-Holds :
      (s : Stored) (l : Ledger) (n : ℕ) → reads_back s l ≡ true → Agrees l n → Holds s n
  reads_back-Holds absent l n e a = cc
  reads_back-Holds (holds k) l n e a = ground (arith, a)
  reads_back-Holds unreadable l n e a = cc

  either :
      (b : Bool) (x y : Result) (g n : ℕ)
      → (b ≡ true → Keeps x g n)
      → (b ≡ false → Keeps y g n)
      → Keeps (if◌then◌else◌ {A = Result} b x y) g n
  either true x y g n u v = u refl
  either false x y g n u v = v refl

  with_state :
      (t : Tab) (l : Ledger) → IsWithin t → l.limit ≤ most → IsWithin (record t { state = l })
  with_state t l w h = record { default_below = w.default_below; state_below = h }

  with_failed : (t : Tab) → IsWithin t → IsWithin (record t { failed = true })
  with_failed t w = record { default_below = w.default_below; state_below = w.state_below }

  commit-Keeps :
      (w : Write) (l : Ledger) (t : Tab) (s : Stored) (g n : ℕ)
      → IsWithin t
      → Holds s n
      → Agrees l g
      → Keeps (commit w l t s) g n
  commit-Keeps kept l t s g n w h a = (with_state t l w a.limit_below, a)
  commit-Keeps thrown l t s g n w h a = fail-Keeps t s g n w h
  commit-Keeps ignored l t s g n w h a =
      either (reads_back s l) (record { tab = record t { state = l }; stored = s; ok = true })
        (fail t s) g n (λ e. (with_state t l w a.limit_below, reads_back-Holds s l g e a))
        (λ e. fail-Keeps t s g n w h)

  -- An update that agrees with `g` wherever the record agrees with `n`.
  abbrev Moves : (Ledger → Option Ledger) → ℕ → ℕ → Type 0
  Moves update g n = (l next : Ledger) → Agrees l n → update l ≡ some next → Agrees next g

  refused-Keeps :
      (t : Tab) (s : Stored) (g n : ℕ) → IsWithin t → Holds s n → Keeps (refused t s) g n
  refused-Keeps t s g n w h = (w, h)

  read-Agrees :
      (d : ℕ) (s : Stored) (n : ℕ) (l : Ledger)
      → d ≤ most
      → Holds s n
      → read d s ≡ some l
      → Agrees l n
  read-Agrees d absent n l b h e = ground arith
  read-Agrees d (holds k) n l b h e = ground arith
  read-Agrees d unreadable n l b h e = cc

  -- The revision is not part of the agreement.
  relabel : (l : Ledger) (n r : ℕ) → Agrees l n → Agrees (record l { revision = r }) n
  relabel l n r a = record {
    spent_counted = a.spent_counted;
    spent_below = a.spent_below;
    limit_below = a.limit_below;
  }

  updated-Keeps :
      (o : Option Ledger) (c : Ledger) (h : Host) (t : Tab) (s : Stored) (g n : ℕ)
      → IsWithin t
      → Holds s n
      → ((next : Ledger) → o ≡ some next → Agrees next g)
      → Keeps (updated o c h t s) g n
  updated-Keeps none c h t s g n w k m = refused-Keeps t s g n w k
  updated-Keeps (some next) c h t s g n w k m =
      let next' : Ledger = record next { revision = c.revision + 1 } in
      either (not (valid next')) (fail t s) (commit h.write next' t s) g n
        (λ e. fail-Keeps t s g n w k)
        (λ e.
          commit-Keeps h.write next' t s g n w k (relabel next g (c.revision + 1) (m next refl)))

  under_lock-Keeps :
      (update : Ledger → Option Ledger) (o : Option Ledger) (h : Host) (t : Tab) (s : Stored)
      (g n : ℕ)
      → IsWithin t
      → Holds s n
      → Moves update g n
      → ((l : Ledger) → o ≡ some l → Agrees l n)
      → Keeps (under_lock update o h t s) g n
  under_lock-Keeps update none h t s g n w k m a = fail-Keeps t s g n w k
  under_lock-Keeps update (some c) h t s g n w k m a =
      updated-Keeps (update c) c h (record t { state = c }) s g n
        (with_state t c w (a c refl).limit_below) k (λ next e. m c next (a c refl) e)

  transaction-Keeps :
      (update : Ledger → Option Ledger) (h : Host) (t : Tab) (s : Stored) (g n : ℕ)
      → IsWithin t
      → Holds s n
      → Moves update g n
      → Keeps (transaction update h t s) g n
  unfolding transaction
  transaction-Keeps update h t s g n w k m =
      let body = under_lock update (read t.default_limit s) h t s in
      let locked = if◌then◌else◌ {A = Result} h.aborted (refused t s) body in
      let unlocked = if◌then◌else◌ {A = Result} h.aborted (refused t s) (fail t s) in
      let f = fail-Keeps t s g n w k in
      let r = refused-Keeps t s g n w k in
      either (t.failed || not t.available) (fail t s)
        (if◌then◌else◌ {A = Result} (not h.lock_granted) unlocked locked) g n (λ e. f)
        (λ e.
          either (not h.lock_granted) unlocked locked g n
            (λ e'. either h.aborted (refused t s) (fail t s) g n (λ e''. r) (λ e''. f))
            (λ e'.
              either h.aborted (refused t s) body g n (λ e''. r)
                (λ e''.
                  under_lock-Keeps update (read t.default_limit s) h t s g n w k m
                    (λ l. read-Agrees t.default_limit s n l w.default_below k))))

  with_limit-Moves : (limit n : ℕ) → limit ≤ most → Moves (with_limit limit) n n
  with_limit-Moves limit n b l next a e = ground arith

  spend-Moves : (amount n : ℕ) → Moves (spend amount) (n + amount) n
  spend-Moves amount n l next a e = ground arith

  initial-Agrees :
      (r limit : ℕ) → limit ≤ most → Agrees (record { spent = 0; limit = limit; revision = r }) 0
  initial-Agrees r limit b = record {
    spent_counted = refl;
    spent_below = omega arith;
    limit_below = b;
  }

  restored-Keeps : (r : Result) (g n : ℕ) → Keeps r g n → Keeps (restored r) g n
  restored-Keeps r g n k =
      either r.ok (record r { tab = record r.tab { failed = false } }) r g n
        (λ e. (record { default_below = k.0.default_below; state_below = k.0.state_below }, k.1))
        (λ e. k)

  set_limit-Keeps :
      (limit : ℕ) (h : Host) (t : Tab) (s : Stored) (n : ℕ)
      → limit ≤ most
      → IsWithin t
      → Holds s n
      → Keeps (set_limit limit h t s) n n
  unfolding set_limit
  set_limit-Keeps limit h t s n b w k =
      either (not (valid_limit limit)) (refused t s) (transaction (with_limit limit) h t s) n n
        (λ e. refused-Keeps t s n n w k)
        (λ e. transaction-Keeps (with_limit limit) h t s n n w k (with_limit-Moves limit n b))

  reserve-Keeps :
      (amount : ℕ) (h : Host) (t : Tab) (s : Stored) (n : ℕ)
      → IsWithin t
      → Holds s n
      → Keeps (reserve amount h t s) (n + amount) n
  unfolding reserve
  reserve-Keeps amount h t s n w k =
      either (ltb max_safe amount || ltb amount 1) (refused t s) (transaction (spend amount) h t s)
        (n + amount) n (λ e. refused-Keeps t s (n + amount) n w k)
        (λ e. transaction-Keeps (spend amount) h t s (n + amount) n w k (spend-Moves amount n))

  reset_to-Keeps :
      (limit : ℕ) (h : Host) (t : Tab) (s : Stored) (n : ℕ)
      → limit ≤ most
      → IsWithin t
      → Holds s n
      → Keeps (reset_to limit h t s) 0 n
  reset_to-Keeps limit h t s n b w k =
      let revision = previous_revision s + 1 in
      let next : Ledger = record { spent = 0; limit = limit; revision = revision } in
      let stores = restored (commit h.write next t s) in
      let checks = if◌then◌else◌ {A = Result} (not (valid next)) (refused t s) stores in
      either (not (valid_limit limit) || not t.available) (refused t s)
        (if◌then◌else◌ {A = Result} (not h.lock_granted) (fail t s) checks) 0 n
        (λ e. refused-Keeps t s 0 n w k)
        (λ e.
          either (not h.lock_granted) (fail t s) checks 0 n (λ e'. fail-Keeps t s 0 n w k)
            (λ e'.
              either (not (valid next)) (refused t s) stores 0 n (λ e''. refused-Keeps t s 0 n w k)
                (λ e''.
                  restored-Keeps (commit h.write next t s) 0 n
                    (commit-Keeps h.write next t s 0 n w k (initial-Agrees revision limit b)))))

  pub refresh-IsWithin :
      (t : Tab) (s : Stored) (n : ℕ) → IsWithin t → Holds s n → IsWithin (refresh t s)
  unfolding refresh
  refresh-IsWithin t s n w k = elim (Bool-cases (not t.available)) [
    | inl e ↦ rw e (with_failed t w)
    | inr e ↦
        rw e
          (go (read t.default_limit s) (λ l. read-Agrees t.default_limit s n l w.default_below k))
  ]
    where
      go : (o : Option Ledger) → ((l : Ledger) → o ≡ some l → Agrees l n) → IsWithin (read_into o t)
      go none a = with_failed t w
      go (some l) a = with_state t l w (a l refl).limit_below

  abbrev pub Modest : Action → Type 0
  Modest (sets_limit limit h) = limit ≤ most
  Modest (resets (some limit) h) = limit ≤ most
  Modest _ = Unit {0}

  pub perform-Keeps :
      (a : Action) (t : Tab) (s : Stored) (n : ℕ)
      → Modest a
      → IsWithin t
      → Holds s n
      → Keeps (perform a t s) (after_grant a n) n
  unfolding perform reset
  perform-Keeps (sets_limit limit h) t s n m w k = set_limit-Keeps limit h t s n m w k
  perform-Keeps (reserves amount h) t s n m w k = reserve-Keeps amount h t s n w k
  perform-Keeps (resets (some limit) h) t s n m w k = reset_to-Keeps limit h t s n m w k
  perform-Keeps (resets none h) t s n m w k = reset_to-Keeps _ h t s n w.state_below w k
  perform-Keeps shows t s n m w k = (refresh-IsWithin t s n w k, k)

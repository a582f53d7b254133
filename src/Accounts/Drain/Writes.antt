-- ===== src/Accounts/Drain/Writes.antt =====
-- What is acknowledged is what is written (src/account-upload-budget.mjs).
use relayswarm.Base.{
  if_keeps, ℕ, ◌+◌, ◌≡◌, refl, Bool, true, false, ◌||◌, not, List, [], ◌∷◌, ◌++◌, map, arith, ltb,
  if◌then◌else◌,
}
use relayswarm.Accounts.State.{Data, Options, Clock, Work, Result, ok, err}
use relayswarm.Accounts.Canonical.{total_spent}
use relayswarm.Accounts.Drain.{
  Request, authorizes, inspects, reserves, renews, revokes, Reply, replies, writes_state, Waiting,
  Working, read_only, run_one, apply_waiting, has_written, Batch, recorded, run_batch, Server,
  first_batch, drain_batch, finish_batch, settle_server, released, unpersisted, cancelled,
}
use relayswarm.Accounts.Drain.Spending.{
  newly, replied, AllKeep, sum_new, inspects-After, run_batch-Spends, spent_of,
}
use relayswarm.Accounts.Charges.{After}

-- An outcome that is not held reserves nothing new.
abbrev Unheld : Request → Result Reply → Type 0
Unheld request r = has_written request r ≡ false → newly r ≡ 0

After-newly :
    (w : Work) (r : Result Reply × Work)
    → After (λ reply v. replied reply ≡ 0) r
    → newly (read_only w.state r).0 ≡ 0
After-newly w (ok reply, v) h = h
After-newly w (err e, v) h = refl

written-Unheld :
    (request : Request) (r : Result Reply) → writes_state request ≡ true → Unheld request r
written-Unheld request (ok reply) s h = cc
written-Unheld request (err e) s h = refl

run_one-Unheld :
    (options : Options) (c : Clock) (request : Request) (w : Work)
    → Unheld request (run_one options c request w).0
run_one-Unheld options c (inspects token) w h = After-newly w _ (inspects-After options c token w)
run_one-Unheld options c (authorizes p a) w h = written-Unheld (authorizes p a) _ refl h
run_one-Unheld options c (reserves t i n) w h = written-Unheld (reserves t i n) _ refl h
run_one-Unheld options c (renews f t i x) w h = written-Unheld (renews f t i x) _ refl h
run_one-Unheld options c (revokes t) w h = written-Unheld (revokes t) _ refl h

apply_waiting-Unheld :
    (options : Options) (e : Waiting) (s : Working) → Unheld e.request (apply_waiting options e s).0
unfolding apply_waiting
apply_waiting-Unheld options e s =
    let Kept : Result Reply × Working → Type 0 = λ r. Unheld e.request r.0 in
    if_keeps Kept e.aborted _ _ (λ h. refl)
      (if_keeps Kept (ltb e.clock.wall s.highest_wall) _ _ (λ h. refl)
        (if_keeps Kept (ltb e.clock.wall s.work.state.last_wall) _ _ (λ h. refl)
          (run_one-Unheld options e.clock e.request s.work)))

-- Every outcome is held, or reserves nothing new; and none is held if nothing is to be written.
abbrev AllHeld : Bool → List (Bool × Result Reply) → Type 0
AllHeld writes [] = Unit {0}
AllHeld writes ((held, r) ∷ os) =
    (held ≡ false → newly r ≡ 0) × (writes ≡ false → held ≡ false) × AllHeld writes os

AllHeld-more :
    (writes : Bool) (held : Bool) (r : Result Reply) (os : List (Bool × Result Reply))
    → AllHeld writes os
    → (held ≡ false → newly r ≡ 0)
    → (held ≡ false → writes ≡ false)
    → AllHeld held (os ++ (held, r) ∷ [])
AllHeld-more writes held r [] h u m = (u, (λ x. x), tt)
AllHeld-more writes held r ((b, x) ∷ os) h u m =
    (h.0, (λ e. h.1 (m e)), AllHeld-more writes held r os h.2 u m)

or-left : (a b : Bool) → a || b ≡ false → a ≡ false
or-left a b h = ground arith

or-right : (a b : Bool) → a || b ≡ false → b ≡ false
or-right a b h = ground arith

run_batch-AllHeld :
    (options : Options) (es : List Waiting) (b : Batch)
    → AllHeld b.writes b.outcomes
    → AllHeld (run_batch options es b).writes (run_batch options es b).outcomes
unfolding run_batch
run_batch-AllHeld options [] b h = h
run_batch-AllHeld options (e ∷ es) b h =
    let r = apply_waiting options e b.working in
    let held = b.writes || has_written e.request r.0 in
    run_batch-AllHeld options es (recorded e.request r b.writes b.outcomes) (
      AllHeld-more b.writes held r.0 b.outcomes h
        (λ e'. apply_waiting-Unheld options e b.working (or-right b.writes _ e'))
        (λ e'. or-left b.writes _ e'))

-- The bytes that the replies newly reserve.
unfoldable pub acknowledged : List (Result Reply) → ℕ
acknowledged [] = 0
acknowledged (r ∷ rs) = newly r + acknowledged rs

acknowledged-released :
    (os : List (Bool × Result Reply)) → acknowledged (map released os) ≡ sum_new os
unfolding acknowledged sum_new
acknowledged-released [] = refl
acknowledged-released ((held, r) ∷ os) = omega (arith, acknowledged-released os)

acknowledged-unpersisted :
    (writes : Bool) (os : List (Bool × Result Reply))
    → AllHeld writes os
    → acknowledged (map unpersisted os) ≡ 0
unfolding acknowledged
acknowledged-unpersisted writes [] h = refl
acknowledged-unpersisted writes ((true, r) ∷ os) h =
    omega (arith, acknowledged-unpersisted writes os h.2)
acknowledged-unpersisted writes ((false, r) ∷ os) h =
    omega (arith, h.0 refl, acknowledged-unpersisted writes os h.2)

sum_new-idle : (os : List (Bool × Result Reply)) → AllHeld false os → sum_new os ≡ 0
unfolding sum_new
sum_new-idle [] h = refl
sum_new-idle ((held, r) ∷ os) h = omega (arith, h.0 (h.1 refl), sum_new-idle os h.2)

acknowledged-cancelled : (es : List Waiting) → acknowledged (map cancelled es) ≡ 0
unfolding acknowledged
acknowledged-cancelled [] = refl
acknowledged-cancelled (e ∷ es) = omega (arith, acknowledged-cancelled es)

finish_batch-spent :
    (write_ok : Bool) (before : Data) (b : Batch)
    → AllHeld b.writes b.outcomes
    → spent_of b ≡ total_spent before.accounts + sum_new b.outcomes
    → let (s, rs) = finish_batch write_ok before b in
      total_spent s.state.accounts ≡ total_spent before.accounts + acknowledged rs
finish_batch-spent write_ok before b = go b.writes write_ok
  where
    os : List (Bool × Result Reply)
    os = b.outcomes

    go :
        (writes write_ok : Bool)
        → AllHeld writes os
        → spent_of b ≡ total_spent before.accounts + sum_new os
        → let x =
            if◌then◌else◌ {A = Server × List (Result Reply)}
              (not writes)
              (settle_server before false b, map released os)
              (if◌then◌else◌ {A = Server × List (Result Reply)} write_ok
                (settle_server b.working.work.state false b, map released os)
                (settle_server before true b, map unpersisted os)) in
          total_spent x.0.state.accounts ≡ total_spent before.accounts + acknowledged x.1
    go false written h e = omega (arith, acknowledged-released os, sum_new-idle os h)
    go true true h e = omega (arith, acknowledged-released os, e)
    go true false h e = omega (arith, acknowledged-unpersisted true os h)

sum_new-nil : sum_new [] ≡ 0
unfolding sum_new
sum_new-nil = refl

-- What the ledger has written as spent after a batch is what it had before and what the replies of
-- that batch newly reserve, whether the write succeeds or fails, if no authorisation in it resets an
-- account: no reservation is acknowledged that is not written, and none is written unacknowledged.
pub drain_batch-acknowledged :
    (options : Options) (write_ok : Bool) (es : List Waiting) (s : Server)
    → AllKeep es
    → let (s', replies) = drain_batch options write_ok es s in
      total_spent s'.state.accounts ≡ total_spent s.state.accounts + acknowledged replies
unfolding drain_batch
drain_batch-acknowledged options write_ok es s k = go s.broken
  where
    b : Batch
    b = run_batch options es (first_batch s)

    spent : spent_of b ≡ total_spent s.state.accounts + sum_new b.outcomes
    spent = omega (arith, run_batch-Spends options es (first_batch s) k, sum_new-nil)

    go :
        (broken : Bool)
        → let x =
            if◌then◌else◌ {A = Server × List (Result Reply)} broken
              (s, map cancelled es)
              (finish_batch write_ok s.state b) in
          total_spent x.0.state.accounts ≡ total_spent s.state.accounts + acknowledged x.1
    go true = omega (arith, acknowledged-cancelled es)
    go false =
        finish_batch-spent write_ok s.state b (run_batch-AllHeld options es (first_batch s) tt)
          spent

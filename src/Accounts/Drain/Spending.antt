-- ===== src/Accounts/Drain/Spending.antt =====
-- What a batch of operations adds to the sum spent (src/account-upload-budget.mjs).
use relayswarm.Base.{
  ℕ, ◌+◌, ◌≡◌, refl, Bool, true, false, ◌||◌, List, [], ◌∷◌, ◌++◌, arith, Text, ltb, if◌then◌else◌,
  Bool-cases, inl, inr,
}
use relayswarm.Accounts.State.{Options, Clock, Work, Code, Result, ok, err, Action, pure}
use relayswarm.Accounts.Canonical.{total_spent}
use relayswarm.Accounts.Validity.{valid_data}
use relayswarm.Accounts.Grants.{prune, Granted, grant, snapshot}
use relayswarm.Accounts.Requests.{
  Reservation, reserve, renew, inspect_grant, inspect_with, revoke_grant,
}
use relayswarm.Accounts.Authorise.{authorize}
use relayswarm.Accounts.Drain.{
  Request, authorizes, inspects, reserves, renews, revokes, Reply, granted, inspected, reserved,
  revoked, replies, operation, Waiting, Working, keep, read_only, run_one, at_time, apply_waiting,
  has_written, Batch, recorded, run_batch,
}
use relayswarm.Accounts.Charges.{
  After, >>=-After, Same, Found, grant-Same, snapshot-Same, read-After, Adds, nothing, Same-Adds,
}
use relayswarm.Accounts.Reserves.{newly_reserved, Reserves, reserve-Reserves}
use relayswarm.Accounts.Links.{then-Adds, renew-Adds, revoke_grant-Adds}
use relayswarm.Accounts.Links.Joined.{resets}
use relayswarm.Accounts.Links.Authorised.{authorize-Adds}

-- The bytes that an answer newly reserves.
abbrev pub replied : Reply → ℕ
replied (reserved r) = newly_reserved r
replied _ = 0

abbrev pub newly : Result Reply → ℕ
newly (ok reply) = replied reply
newly (err e) = 0

abbrev pub Keeps : Request → Type 0
Keeps (authorizes platform a) = resets a.settings ≡ false
Keeps _ = Unit {0}

replies-Adds :
    {A : Type 0} (f : A → Reply) (n : A → ℕ) (m : Action A) (w : Work)
    → ((a : A) → n a ≡ replied (f a))
    → After (Adds n w) (m w)
    → After (Adds replied w) (replies f m w)
replies-Adds f n m w e h =
    >>=-After m (λ a. pure (f a)) w (Adds n w) (Adds replied w) h (λ a v s. omega (arith, s, e a))

inspect_with-Same : (g : Granted) (w : Work) → After (Same (λ i. Unit {0}) w) (inspect_with g w)
inspect_with-Same g w =
    read-After (snapshot g.account_id g.account)
      (λ shown. pure (record { value = g.value; shown = shown })) w (λ s. Unit {0})
      (Same (λ i. Unit {0}) w) (snapshot-Same g.account_id g.account w) (λ s u. (refl, tt))

inspect_grant-Adds :
    (c : Clock) (token : Text) (w : Work) → After (Adds nothing w) (inspect_grant c token w)
unfolding inspect_grant
inspect_grant-Adds c token w =
    then-Adds (grant c token) inspect_with w
      (Same-Adds (Found w) w (grant c token w) (grant-Same c token w))
      (λ g v. Same-Adds (λ i. Unit {0}) v (inspect_with g v) (inspect_with-Same g v))

reserve-Adds :
    (options : Options) (c : Clock) (token id : Text) (bytes : ℕ) (w : Work)
    → After (Adds newly_reserved w) (reserve options c token id bytes w)
reserve-Adds options c token id bytes w =
    go (reserve options c token id bytes w) (reserve-Reserves options c token id bytes w)
  where
    go :
        (r : Result Reservation × Work)
        → After (Reserves c token id bytes w) r
        → After (Adds newly_reserved w) r
    go (ok a, v) (g, leads, s) = s.added
    go (err e, v) h = tt

operation-Adds :
    (options : Options) (c : Clock) (request : Request) (w : Work)
    → Keeps request
    → After (Adds replied w) (operation options c request w)
unfolding operation
operation-Adds options c (authorizes platform a) w k =
    replies-Adds granted nothing (authorize options platform c a) w (λ x. refl)
      (authorize-Adds options platform c a w k)
operation-Adds options c (inspects token) w k =
    replies-Adds inspected nothing (inspect_grant c token) w (λ x. refl)
      (inspect_grant-Adds c token w)
operation-Adds options c (reserves token id bytes) w k =
    replies-Adds reserved newly_reserved (reserve options c token id bytes) w (λ x. refl)
      (reserve-Adds options c token id bytes w)
operation-Adds options c (renews fresh token id website) w k =
    replies-Adds granted nothing (renew options c fresh token id website) w (λ x. refl)
      (renew-Adds options c fresh token id website w)
operation-Adds options c (revokes token) w k =
    replies-Adds (λ u. revoked) nothing (revoke_grant c token) w (λ x. refl)
      (revoke_grant-Adds c token w)

abbrev SpendsNew : ℕ → Result Reply × Work → Type 0
SpendsNew before r = total_spent r.1.state.accounts ≡ before + newly r.0

keep-SpendsNew :
    (options : Options) (c : Clock) (w : Work) (r : Result Reply × Work)
    → After (Adds replied w) r
    → SpendsNew (total_spent w.state.accounts) (keep options c w.state r)
keep-SpendsNew options c w (err e, v) h = omega arith
keep-SpendsNew options c w (ok reply, v) h =
    elim (Bool-cases (valid_data options c.wall (record v.state { last_wall = c.wall }))) [
      | inl valid ↦ rw valid h
      | inr invalid ↦ rw invalid (omega arith)
    ]

any-After : {A : Type 0} (r : Result A × Work) → After (λ a w. Unit {0}) r
any-After (ok a, w) = tt
any-After (err e, w) = tt

pub inspects-After :
    (options : Options) (c : Clock) (token : Text) (w : Work)
    → After (λ reply v. replied reply ≡ 0) (operation options c (inspects token) w)
unfolding operation
inspects-After options c token w =
    >>=-After (inspect_grant c token) (λ a. pure (inspected a)) w (λ a v. Unit {0})
      (λ reply v. replied reply ≡ 0) (any-After (inspect_grant c token w)) (λ a v u. refl)

read_only-SpendsNew :
    (w : Work) (r : Result Reply × Work)
    → After (λ reply v. replied reply ≡ 0) r
    → SpendsNew (total_spent w.state.accounts) (read_only w.state r)
read_only-SpendsNew w (ok a, v) h = omega (arith, h)
read_only-SpendsNew w (err e, v) h = omega arith

run_one-SpendsNew :
    (options : Options) (c : Clock) (request : Request) (w : Work)
    → Keeps request
    → SpendsNew (total_spent w.state.accounts) (run_one options c request w)
unfolding prune
run_one-SpendsNew options c (authorizes platform a) w k =
    keep-SpendsNew options c w _
      (operation-Adds options c (authorizes platform a) (prune c.wall w) k)
run_one-SpendsNew options c (reserves token id bytes) w k =
    keep-SpendsNew options c w _
      (operation-Adds options c (reserves token id bytes) (prune c.wall w) tt)
run_one-SpendsNew options c (renews fresh token id website) w k =
    keep-SpendsNew options c w _
      (operation-Adds options c (renews fresh token id website) (prune c.wall w) tt)
run_one-SpendsNew options c (revokes token) w k =
    keep-SpendsNew options c w _ (operation-Adds options c (revokes token) (prune c.wall w) tt)
run_one-SpendsNew options c (inspects token) w k =
    read_only-SpendsNew w (operation options c (inspects token) w)
      (inspects-After options c token w)

abbrev SpendsFrom : ℕ → Result Reply × Working → Type 0
SpendsFrom before r = total_spent r.1.work.state.accounts ≡ before + newly r.0

either :
    (b : Bool) (x y : Result Reply × Working) (n : ℕ)
    → SpendsFrom n x
    → SpendsFrom n y
    → SpendsFrom n (if◌then◌else◌ {A = Result Reply × Working} b x y)
either true x y n v w = v
either false x y n v w = w

apply_waiting-Spends :
    (options : Options) (e : Waiting) (s : Working)
    → Keeps e.request
    → SpendsFrom (total_spent s.work.state.accounts) (apply_waiting options e s)
unfolding apply_waiting
apply_waiting-Spends options e s k =
    let n = total_spent s.work.state.accounts in
    let ran = at_time e.clock.wall (run_one options e.clock e.request s.work) in
    let late : Result Reply × Working =
      (err Code.clock_unavailable, record s { highest_wall = e.clock.wall }) in
    let timed =
      if◌then◌else◌ {A = Result Reply × Working} (ltb e.clock.wall s.work.state.last_wall) late
        ran in
    let backward : Result Reply × Working = (err Code.clock_unavailable, s) in
    either e.aborted (err Code.operation_cancelled, s)
      (if◌then◌else◌ {A = Result Reply × Working} (ltb e.clock.wall s.highest_wall) backward timed)
      n (omega arith)
      (either (ltb e.clock.wall s.highest_wall) backward timed n (omega arith) (
        either (ltb e.clock.wall s.work.state.last_wall) late ran n (omega arith)
          (run_one-SpendsNew options e.clock e.request s.work k)))

-- The sum of what the outcomes newly reserve.
unfoldable pub sum_new : List (Bool × Result Reply) → ℕ
sum_new [] = 0
sum_new ((held, r) ∷ os) = newly r + sum_new os

sum_new-append :
    (os : List (Bool × Result Reply)) (b : Bool) (r : Result Reply)
    → sum_new (os ++ (b, r) ∷ []) ≡ sum_new os + newly r
unfolding sum_new
sum_new-append [] b r = omega arith
sum_new-append ((held, x) ∷ os) b r = omega (arith, sum_new-append os b r)

abbrev pub AllKeep : List Waiting → Type 0
AllKeep [] = Unit {0}
AllKeep (e ∷ es) = Keeps e.request × AllKeep es

abbrev pub spent_of : Batch → ℕ
spent_of b = total_spent b.working.work.state.accounts

pub run_batch-Spends :
    (options : Options) (es : List Waiting) (b : Batch)
    → AllKeep es
    → spent_of (run_batch options es b) + sum_new b.outcomes
      ≡ spent_of b + sum_new (run_batch options es b).outcomes
unfolding run_batch
run_batch-Spends options [] b k = refl
run_batch-Spends options (e ∷ es) b k =
    let r = apply_waiting options e b.working in
    let b' = recorded e.request r b.writes b.outcomes in
    omega (
      arith,
      run_batch-Spends options es b' k.1,
      apply_waiting-Spends options e b.working k.0,
      sum_new-append b.outcomes (b.writes || has_written e.request r.0) r.0,
    )

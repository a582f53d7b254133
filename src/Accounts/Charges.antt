-- ===== src/Accounts/Charges.antt =====
-- What each operation adds to the sum of what is spent (src/account-upload-budget.mjs).
use relayswarm.Base.{
  ℕ, ◌+◌, ◌≡◌, refl, subst, sym, lookup, Bool, true, false, Option, none, some, [], arith, Text,
  not, suc, length, ◌∙◌, ap,
}
use relayswarm.Accounts.State.{
  Funds, funds, Grant, Clock, Work, Code, Result, ok, err, Action, pure, refuse, ◌>>=◌, ◌>>◌,
  refuse_if, or_refuse,
}
use relayswarm.Accounts.Canonical.{
  total_spent, canonical_account, canonical_with, ended, canonical, find_account,
}
use relayswarm.Accounts.Canonical.Laws.{canonical_with-found}
use relayswarm.Accounts.Grants.{
  snapshot, Granted, grant, checked_grant, respond, response, granted_to, account_of, usable,
  find_grant, grant_response,
}

-- An operation that returns has left something true of its result, and of the copy.
abbrev pub After : {A : Type 0} → (A → Work → Type 0) → Result A × Work → Type 0
After P (ok a, w) = P a w
After P (err e, w) = Unit {0}

pub >>=-After :
    {A B : Type 0} (m : Action A) (k : A → Action B) (w : Work) (P : A → Work → Type 0)
    (Q : B → Work → Type 0)
    → After P (m w)
    → ((a : A) (w' : Work) → P a w' → After Q (k a w'))
    → After Q ((m >>= k) w)
>>=-After {A} {B} m k w P Q h next = go (m w) h
  where
    go :
        (r : Result A × Work)
        → After P r
        → After Q (let (x, w') = r in elim x [ ok a ↦ k a w' | err e ↦ refuse e w' ])
    go (ok a, w') h' = next a w' h'
    go (err e, w') h' = tt

pub guard-After :
    {B : Type 0} (b : Bool) (e : Code) (m : Action B) (w : Work) (Q : B → Work → Type 0)
    → (b ≡ false → After Q (m w))
    → After Q ((refuse_if b e >> m) w)
guard-After true e m w Q next = tt
guard-After false e m w Q next = next refl

pub or_refuse-After :
    {A B : Type 0} (o : Option A) (e : Code) (k : A → Action B) (w : Work) (Q : B → Work → Type 0)
    → ((a : A) → o ≡ some a → After Q (k a w))
    → After Q ((or_refuse o e >>= k) w)
or_refuse-After none e k w Q next = tt
or_refuse-After (some a) e k w Q next = next a refl

-- What an action reads, when it changes nothing.
abbrev pub Same : {A : Type 0} → (A → Type 0) → Work → A → Work → Type 0
Same P w a w' = (w' ≡ w) × P a

pub read-After :
    {A B : Type 0} (m : Action A) (k : A → Action B) (w : Work) (P : A → Type 0)
    (Q : B → Work → Type 0)
    → After (Same P w) (m w)
    → ((a : A) → P a → After Q (k a w))
    → After Q ((m >>= k) w)
read-After m k w P Q h next =
    >>=-After m k w (Same P w) Q h (λ a w' s. subst (λ v. After Q (k a v)) (sym s.0) (next a s.1))

-- The grant that is found is valid, and its account is one of the accounts; nothing has changed.
abbrev pub Found : Work → Granted → Type 0
Found w g = find_account g.account_id w.state.accounts ≡ some (funds g.account)

abbrev pub IsAccount : Work → Text × Funds → Type 0
IsAccount w a = find_account a.0 w.state.accounts ≡ some (funds a.1)

pub canonical_account-found :
    (id : Text) (w : Work) (end : Text) (f : Funds)
    → canonical_account id w.state.accounts ≡ some (end, f)
    → IsAccount w (end, f)
unfolding canonical_account
canonical_account-found id w end f h =
    let fuel = suc (length w.state.accounts) in
    go (canonical_with fuel [] id w.state.accounts) refl h
  where
    go :
        (o : Option (Option (Text × Funds)))
        → canonical_with (suc (length w.state.accounts)) [] id w.state.accounts ≡ o
        → ended o ≡ some (end, f)
        → IsAccount w (end, f)
    go none e g = absurd (cc g)
    go (some r) e g = canonical_with-found _ [] id w.state.accounts end f (e ∙ ap some g)

pub canonical-Same : (id : Text) (w : Work) → After (Same (IsAccount w) w) (canonical id w)
canonical-Same id w = go (canonical_account id w.state.accounts) refl
  where
    go :
        (o : Option (Text × Funds))
        → canonical_account id w.state.accounts ≡ o
        → After (Same (IsAccount w) w) (or_refuse o Code.state_invalid w)
    go none e = tt
    go (some (end, f)) e = (refl, canonical_account-found id w end f e)

granted_to-Same :
    (value : Grant) (a : Text × Funds) (w : Work)
    → IsAccount w a
    → After (Same (Found w) w) (granted_to value a w)
granted_to-Same value (id, f) w found = ground (arith, found)

pub grant-Same : (c : Clock) (token : Text) (w : Work) → After (Same (Found w) w) (grant c token w)
unfolding grant
grant-Same c token w =
    let Q = Same (Found w) w in
    or_refuse-After (find_grant token w.state.grants) _ (checked_grant c token) w Q (λ value e.
      guard-After (not (usable c (lookup token w.expiries) value)) _ (account_of value) w Q (λ u.
        read-After (canonical value.account_id) (granted_to value) w (IsAccount w) Q
          (canonical-Same value.account_id w) (λ a found. granted_to-Same value a w found)))

pub snapshot-Same :
    (id : Text) (f : Funds) (w : Work) → After (Same (λ s. Unit {0}) w) (snapshot id f w)
unfolding snapshot
snapshot-Same id f w = ground arith

respond-Same :
    (value : Grant) (fresh : Bool) (a : Text × Funds) (w : Work)
    → After (Same (λ r. Unit {0}) w) (respond value fresh a w)
respond-Same value fresh (id, f) w =
    read-After (snapshot id f) (λ shown. pure (response value fresh shown)) w (λ s. Unit {0})
      (Same (λ r. Unit {0}) w) (snapshot-Same id f w) (λ s u. (refl, tt))

pub grant_response-Same :
    (value : Grant) (fresh : Bool) (w : Work)
    → After (Same (λ r. Unit {0}) w) (grant_response value fresh w)
unfolding grant_response
grant_response-Same value fresh w =
    read-After (canonical value.account_id) (respond value fresh) w (IsAccount w)
      (Same (λ r. Unit {0}) w) (canonical-Same value.account_id w)
      (λ a found. respond-Same value fresh a w)

-- The copy has spent `n` more in all.
abbrev pub Adds : {A : Type 0} → (A → ℕ) → Work → A → Work → Type 0
Adds n w a w' = total_spent w'.state.accounts ≡ total_spent w.state.accounts + n a

abbrev pub nothing : {A : Type 0} → A → ℕ
nothing a = 0

pub Same-Adds :
    {A : Type 0} (P : A → Type 0) (w : Work) (r : Result A × Work)
    → After (Same P w) r
    → After (Adds nothing w) r
Same-Adds P w (ok a, w') h = rw h.0 (omega arith)
Same-Adds P w (err e, w') h = tt

-- From a copy that has spent the same.
pub rebase-Adds :
    {A : Type 0} (n : A → ℕ) (w v : Work) (r : Result A × Work)
    → total_spent v.state.accounts ≡ total_spent w.state.accounts
    → After (Adds n v) r
    → After (Adds n w) r
rebase-Adds n w v (ok a, w') e h = rw (← e) h
rebase-Adds n w v (err c, w') e h = tt

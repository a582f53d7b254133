-- ===== src/Accounts/Leads.antt =====
-- The account that a token leads to: `grant` of src/account-upload-budget.mjs.
use relayswarm.Base.{◌≡◌, refl, lookup, true, Option, none, some, arith, Text, not, ◌==◌}
use relayswarm.Accounts.State.{Funds, Grant, Clock, Work, Code, pure, or_refuse}
use relayswarm.Accounts.Canonical.{canonical_account, canonical}
use relayswarm.Accounts.Grants.{
  Granted, grant, checked_grant, granted_to, account_of, usable, find_grant,
}
use relayswarm.Accounts.Charges.{
  After, guard-After, or_refuse-After, read-After, Same, Found, canonical_account-found,
}

-- The token's grant is usable, and its account is the one at the end of the aliases of the grant's
-- account, at the revision that the grant was issued for.
abbrev pub Leads : Clock → Text → Work → Granted → Type 0
Leads c token w g =
    (find_grant token w.state.grants ≡ some g.value)
    × (usable c (lookup token w.expiries) g.value ≡ true)
    × (canonical_account g.value.account_id w.state.accounts ≡ some (g.account_id, g.account))
    × (g.account.revision ≡ g.value.epoch)

abbrev IsCanonical : Text → Work → Text × Funds → Type 0
IsCanonical id w a = canonical_account id w.state.accounts ≡ some a

canonical-IsCanonical : (id : Text) (w : Work) → After (Same (IsCanonical id w) w) (canonical id w)
canonical-IsCanonical id w = go (canonical_account id w.state.accounts) refl
  where
    go :
        (o : Option (Text × Funds))
        → canonical_account id w.state.accounts ≡ o
        → After (Same (IsCanonical id w) w) (or_refuse o Code.state_invalid w)
    go none e = tt
    go (some a) e = (refl, e)

granted_to-Leads :
    (c : Clock) (token : Text) (value : Grant) (a : Text × Funds) (w : Work)
    → find_grant token w.state.grants ≡ some value
    → usable c (lookup token w.expiries) value ≡ true
    → IsCanonical value.account_id w a
    → After (Same (Leads c token w) w) (granted_to value a w)
granted_to-Leads c token value (id, f) w found can end =
    let g : Granted = record { value = value; account_id = id; account = f } in
    guard-After (not (f.revision == value.epoch)) _ (pure g) w (Same (Leads c token w) w)
      (λ u. (refl, (found, can, end, ground (arith, u))))

pub grant-Leads :
    (c : Clock) (token : Text) (w : Work) → After (Same (Leads c token w) w) (grant c token w)
unfolding grant
grant-Leads c token w =
    let Q = Same (Leads c token w) w in
    or_refuse-After (find_grant token w.state.grants) _ (checked_grant c token) w Q (λ value e.
      guard-After (not (usable c (lookup token w.expiries) value)) _ (account_of value) w Q (λ u.
        read-After (canonical value.account_id) (granted_to value) w
          (IsCanonical value.account_id w) Q (canonical-IsCanonical value.account_id w)
          (λ a end. granted_to-Leads c token value a w e (ground (arith, u)) end)))

pub Leads-Found :
    (c : Clock) (token : Text) (w : Work) (g : Granted) → Leads c token w g → Found w g
Leads-Found c token w g leads =
    canonical_account-found g.value.account_id w g.account_id g.account leads.2

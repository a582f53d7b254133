-- ===== src/Accounts/Links.antt =====
-- Linking, renewing and revoking spend nothing and refund nothing (src/account-upload-budget.mjs).
pub mod Joined
pub mod Authorised
use relayswarm.Base.{
  ℕ, ◌+◌, ◌≡◌, ◌∙◌, refl, sym, Bool, true, false, Option, none, some, List, [], ◌∷◌, ◌++◌, arith,
  Text, not, ◌||◌, if◌then◌else◌, length, leb, ltb, text_eq, text_eq_refl, text_eq→eq, is_hex,
  lookup, zero, suc, min, max, ◌<◌,
}
use relayswarm.Accounts.State
use relayswarm.Accounts.State.{
  Method, Funds, funds, alias_to, Identity, Renewal, Grant, Data, Options, Clock, Work, Code,
  Result, ok, err, Action, pure, ◌>>=◌, ◌>>◌, refuse_if, gets, modify, or_refuse, is_hex_of,
  same_text_or_null, max_safe,
}
use relayswarm.Accounts.Canonical.{total_spent, set_account, find_account, canonical}
use relayswarm.Accounts.Canonical.Laws.{total_spent-set_account, find_account-set_account}
use relayswarm.Accounts.Grants.{Granted, grant, grant_response, GrantResponse, issue, expiry_of}
use relayswarm.Accounts.Requests.{
  revoke_all, revoke_where, revoke_grant, same_delegation, renew, renew_for, renew_again, renew_new,
  keep_renewal, with_renewal,
}
use relayswarm.Accounts.Authorise.{
  Claim, Settings, Authorisation, Platform, valid_authorisation, valid_claim, find_identity,
  create_identity, new_funds, found_or_created, identity_id, named_row, identity_row, identity_rows,
  bumped, merged, write_account, merge, bump, link_to, joined_with, linked, with_settings,
  configured, is_given, revoke_if, website_of, first_account, authorize,
}
use relayswarm.Accounts.Charges.{
  After, >>=-After, guard-After, or_refuse-After, read-After, Same, Found, IsAccount, grant-Same,
  canonical-Same, grant_response-Same, Adds, nothing, Same-Adds, rebase-Adds,
}

total_spent-append :
    (l : List State.Account) (a : State.Account)
    → total_spent (l ++ a ∷ []) ≡ total_spent l + total_spent (a ∷ [])
unfolding total_spent
total_spent-append [] a = omega arith
total_spent-append (b ∷ l) a = omega (arith, total_spent-append l a)

-- An action that leaves the sum as it is, and then another.
pub then-Adds :
    {A B : Type 0} (m : Action A) (k : A → Action B) (w : Work)
    → After (Adds nothing w) (m w)
    → ((a : A) (v : Work) → After (Adds nothing v) (k a v))
    → After (Adds nothing w) ((m >>= k) w)
then-Adds m k w h next =
    >>=-After m k w (Adds nothing w) (Adds nothing w) h
      (λ a v e. rebase-Adds nothing w v (k a v) (ground (arith, e)) (next a v))

pub issue-Adds :
    (options : Options) (c : Clock) (token id : Text) (f : Funds) (page : Text)
    (methods : List Method) (at : ℕ) (website : Option Text) (prior : Option State.Expiry)
    (w : Work)
    → After (Adds nothing w) (issue options c token id f page methods at website prior w)
unfolding issue
issue-Adds options c token id f page methods at website prior w = ground arith

pub revoke_all-Adds :
    (test : Grant → Bool) (id : Text) (w : Work) → After (Adds nothing w) (revoke_all test id w)
revoke_all-Adds test id w = go (revoke_where test id w.state.accounts w.state.grants)
  where
    go :
        (o : Option (List Grant))
        → After
            (Adds nothing w)
            ((or_refuse o Code.state_invalid >>= λ gs. modify (λ d. record d { grants = gs })) w)
    go none = tt
    go (some gs) = omega arith

pub revoke_grant-Adds :
    (c : Clock) (token : Text) (w : Work) → After (Adds nothing w) (revoke_grant c token w)
unfolding revoke_grant
revoke_grant-Adds c token w =
    then-Adds (grant c token) _ w (Same-Adds (Found w) w (grant c token w) (grant-Same c token w))
      (λ g v. revoke_all-Adds (same_delegation g.value) g.account_id v)

pub response-Adds :
    (value : Grant) (fresh : Bool) (w : Work)
    → After (Adds nothing w) (grant_response value fresh w)
response-Adds value fresh w =
    Same-Adds (λ r. Unit {0}) w (grant_response value fresh w) (grant_response-Same value fresh w)

grant-Adds : (c : Clock) (token : Text) (w : Work) → After (Adds nothing w) (grant c token w)
grant-Adds c token w = Same-Adds (Found w) w (grant c token w) (grant-Same c token w)

keep_renewal-Adds :
    (token id : Text) (next : Grant) (w : Work)
    → After (Adds nothing w) (keep_renewal token id next w)
keep_renewal-Adds token id next w =
    let w' : Work = record w { state = with_renewal token id next w.state } in
    rebase-Adds nothing w w' (grant_response next false w') refl (response-Adds next false w')

renew_new-Adds :
    (options : Options) (c : Clock) (fresh token id : Text) (g : Granted) (w : Work)
    → After (Adds nothing w) (renew_new options c fresh token id g w)
renew_new-Adds options c fresh token id g w =
    let value = g.value in
    let prior = lookup token w.expiries in
    then-Adds
      (issue options c fresh g.account_id g.account value.page_pubkey value.methods
        value.delegation_expires_at value.website_identity prior)
      (keep_renewal token id) w
      (issue-Adds options c fresh g.account_id g.account value.page_pubkey value.methods
        value.delegation_expires_at value.website_identity prior w)
      (keep_renewal-Adds token id)

pub renew-Adds :
    (options : Options) (c : Clock) (fresh token id : Text) (website : Option Text) (w : Work)
    → After (Adds nothing w) (renew options c fresh token id website w)
unfolding renew
renew-Adds options c fresh token id website w =
    then-Adds (grant c token) _ w (grant-Adds c token w) (λ g v.
      guard-After
        (not (is_hex_of 32 id) || not (same_text_or_null g.value.website_identity website))
        Code.renewal_invalid (renew_for options c fresh token id g g.value.renewal) v
        (Adds nothing v) (λ u. go g g.value.renewal v))
  where
    go :
        (g : Granted) (o : Option Renewal) (v : Work)
        → After (Adds nothing v) (renew_for options c fresh token id g o v)
    go g none v = renew_new-Adds options c fresh token id g v
    go g (some r) v =
        guard-After (not (text_eq r.operation_id id)) _
          (grant c r.token >>= λ next. grant_response next.value false) v (Adds nothing v)
          (λ u.
            then-Adds (grant c r.token) _ v (grant-Adds c r.token v)
              (λ next x. response-Adds next.value false x))

create_identity-Adds :
    (options : Options) (account_id id : Text) (method : Method) (w : Work)
    → After (Adds nothing w) (create_identity options account_id id method w)
unfolding total_spent
create_identity-Adds options account_id id method w = ground (
  arith,
  total_spent-append w.state.accounts
      (record { id = account_id; entry = funds (new_funds options) }),
  single,
)
  where
    single : total_spent (record { id = account_id; entry = funds (new_funds options) } ∷ []) ≡ 0
    single = omega arith

found_or_created-Adds :
    (options : Options) (account_id id : Text) (method : Method) (o : Option Identity) (w : Work)
    → After (Adds nothing w) (found_or_created options account_id id method o w)
found_or_created-Adds options account_id id method none w =
    create_identity-Adds options account_id id method w
found_or_created-Adds options account_id id method (some row) w = omega arith

identity_row-Adds :
    (options : Options) (platform : Platform) (i : ℕ) (claim : Claim) (w : Work)
    → After (Adds nothing w) (identity_row options platform i claim w)
unfolding identity_row
identity_row-Adds options platform i claim w =
    then-Adds (identity_id platform claim) (named_row options platform i claim) w (ground arith)
      (λ id v.
        found_or_created-Adds options (platform.account_id i) id claim.method
          (find_identity id v.state.identities) v)

pub identity_rows-Adds :
    (options : Options) (platform : Platform) (i : ℕ) (claims : List Claim) (w : Work)
    → After (Adds nothing w) (identity_rows options platform i claims w)
unfolding identity_rows
identity_rows-Adds options platform i [] w = omega arith
identity_rows-Adds options platform i (claim ∷ claims) w =
    then-Adds (identity_row options platform i claim) _ w
      (identity_row-Adds options platform i claim w)
      (λ row v.
        then-Adds (identity_rows options platform (i + 1) claims) (λ rows. pure (row ∷ rows)) v
          (identity_rows-Adds options platform (i + 1) claims v) (λ rows x. omega arith))

-- ===== src/Accounts/Requests.antt =====
-- src/account-upload-budget.mjs: `reserve`, `renew`, `inspectGrant` and `revokeGrant`.
use relayswarm.Base.{
  ℕ, ◌+◌, ◌-◌, Bool, true, false, ◌&&◌, ◌||◌, not, Option, none, some, List, [], ◌∷◌, ◌++◌, Text,
  length, leb, ◌==◌, text_eq, if◌then◌else◌,
}
use relayswarm.Accounts.State
use relayswarm.Accounts.State.{
  Funds, funds, Renewal, Grant, Operation, Data, Options, Clock, Work, Result, ok, err, Action,
  pure, refuse, ◌>>=◌, ◌>>◌, refuse_if, gets, modify, or_refuse, is_hex_of, is_amount,
  same_text_or_null, Code, reservation_invalid, operation_conflict, operation_capacity,
  renewal_invalid, renewal_conflict,
}
use relayswarm.Accounts.Canonical.{canonical_account, set_account}
use relayswarm.Accounts.Grants.{
  Snapshot, snapshot, Granted, grant, GrantResponse, grant_response, issue, expiry_of,
}

unfoldable pub find_operation : Text → Text → List Operation → Option Operation
find_operation token id [] = none
find_operation token id (o ∷ os) =
    if text_eq o.grant token && text_eq o.operation_id id
    then some o
    else find_operation token id os

pub record Reservation : Type 0 where
  pub accepted : Bool
  pub duplicate : Bool
  pub reserved_bytes : ℕ
  pub shown : Snapshot

abbrev pub reservation : Bool → Bool → ℕ → Snapshot → Reservation
reservation accepted duplicate bytes shown = record {
  accepted = accepted;
  duplicate = duplicate;
  reserved_bytes = if accepted then bytes else 0;
  shown = shown;
}

-- An operation that was decided before is answered again, and nothing is charged.
abbrev pub reserve_again : Operation → ℕ → Granted → Action Reservation
reserve_again previous bytes g = do
  refuse_if (not (previous.bytes == bytes)) operation_conflict
  shown ← snapshot g.account_id g.account
  pure (reservation previous.accepted true bytes shown)

-- `account.spent += bytes`.
abbrev pub charge : ℕ → Funds → Funds
charge bytes f = record f { spent = f.spent + bytes }

abbrev pub charged : Bool → ℕ → Funds → Funds
charged accepted bytes f = if accepted then charge bytes f else f

abbrev pub decide : Text → Text → ℕ → Granted → Bool → Data → Data
decide token id bytes g accepted d = record d {
  accounts =
      if accepted
      then set_account g.account_id (funds (charge bytes g.account)) d.accounts
      else d.accounts;
  operations =
      d.operations
      ++ record { grant = token; operation_id = id; bytes = bytes; accepted = accepted } ∷ [];
}

abbrev pub reserve_new : Options → Text → Text → ℕ → Granted → Action Reservation
reserve_new options token id bytes g = do
  decided ← gets (λ d. length d.operations)
  refuse_if (leb options.operation_capacity decided) operation_capacity
  let accepted = leb bytes (g.account.limit - g.account.spent)
  modify (decide token id bytes g accepted)
  shown ← snapshot g.account_id (charged accepted bytes g.account)
  pure (reservation accepted false bytes shown)

abbrev pub reserve_for : Options → Text → Text → ℕ → Granted → Option Operation → Action Reservation
reserve_for options token id bytes g none = reserve_new options token id bytes g
reserve_for options token id bytes g (some previous) = reserve_again previous bytes g

abbrev pub valid_reservation : Text → ℕ → Bool
valid_reservation id bytes = is_hex_of 32 id && is_amount bytes && leb 1 bytes

abbrev pub reserve_with : Options → Text → Text → ℕ → Granted → Action Reservation
reserve_with options token id bytes g = do
  refuse_if (not (valid_reservation id bytes)) reservation_invalid
  previous ← gets (λ d. find_operation token id d.operations)
  reserve_for options token id bytes g previous

unfoldable pub reserve : Options → Clock → Text → Text → ℕ → Action Reservation
reserve options c token id bytes = grant c token >>= reserve_with options token id bytes

-- `value.renewal = { operationId, token }`.
unfoldable pub set_renewal : Text → Renewal → List Grant → List Grant
set_renewal token r [] = []
set_renewal token r (g ∷ gs) =
    if text_eq g.token token then record g { renewal = some r } ∷ gs else g ∷ set_renewal token r gs

abbrev pub renew_again : Clock → Text → Renewal → Action GrantResponse
renew_again c id r = do
  refuse_if (not (text_eq r.operation_id id)) renewal_conflict
  next ← grant c r.token
  grant_response next.value false

abbrev pub with_renewal : Text → Text → Grant → Data → Data
with_renewal token id next d = record d {
  grants = set_renewal token (record { operation_id = id; token = next.token }) d.grants;
}

abbrev pub keep_renewal : Text → Text → Grant → Action GrantResponse
keep_renewal token id next = do modify (with_renewal token id next); grant_response next false

abbrev pub renew_new : Options → Clock → Text → Text → Text → Granted → Action GrantResponse
renew_new options c fresh token id g = do
  prior ← expiry_of token
  issue options c fresh g.account_id g.account g.value.page_pubkey g.value.methods
        g.value.delegation_expires_at g.value.website_identity prior
      >>= keep_renewal token id

abbrev pub renew_for :
    Options → Clock → Text → Text → Text → Granted → Option Renewal → Action GrantResponse
renew_for options c fresh token id g none = renew_new options c fresh token id g
renew_for options c fresh token id g (some r) = renew_again c id r

-- `fresh` is the token that a new grant takes from `randomBytes`.
unfoldable pub renew : Options → Clock → Text → Text → Text → Option Text → Action GrantResponse
renew options c fresh token id website_identity = do
  g ← grant c token
  refuse_if
      (not (is_hex_of 32 id) || not (same_text_or_null g.value.website_identity website_identity))
      renewal_invalid
  renew_for options c fresh token id g g.value.renewal

pub record Inspection : Type 0 where
  pub value : Grant
  pub shown : Snapshot

abbrev pub inspect_with : Granted → Action Inspection
inspect_with g = do
  shown ← snapshot g.account_id g.account
  pure (record { value = g.value; shown = shown })

unfoldable pub inspect_grant : Clock → Text → Action Inspection
inspect_grant c token = grant c token >>= inspect_with

-- The grants of an account that satisfy a test are revoked; `none` where `canonical` throws.
unfoldable pub revoke_where :
    (Grant → Bool) → Text → List State.Account → List Grant → Option (List Grant)
revoke_where test id accounts [] = some []
revoke_where test id accounts (g ∷ gs) =
    let rest = revoke_where test id accounts gs in
    elim (canonical_account g.account_id accounts) [
      | none ↦ none
      | some (end, f) ↦ elim rest [
        | none ↦ none
        | some others ↦
            some ((if text_eq end id && test g then record g { revoked = true } else g) ∷ others)
      ]
    ]

abbrev pub revoke_all : (Grant → Bool) → Text → Action (Unit {0})
revoke_all test id = do
  d ← gets (λ d. d)
  revoked ← or_refuse (revoke_where test id d.accounts d.grants) State.state_invalid
  modify (λ d. record d { grants = revoked })

-- The page's whole delegation ends, with the tokens of its renewals.
abbrev pub same_delegation : Grant → Grant → Bool
same_delegation value g =
    text_eq g.page_pubkey value.page_pubkey
    && g.delegation_expires_at == value.delegation_expires_at

unfoldable pub revoke_grant : Clock → Text → Action (Unit {0})
revoke_grant c token = do g ← grant c token; revoke_all (same_delegation g.value) g.account_id

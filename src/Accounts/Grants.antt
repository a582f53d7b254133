-- ===== src/Accounts/Grants.antt =====
-- src/account-upload-budget.mjs: `prune`, `snapshot`, `grant`, `grantResponse` and `issue`.
use relayswarm.Base.{
  ℕ, ◌+◌, ◌-◌, ◌*◌, min, Bool, false, ◌&&◌, ◌||◌, not, Option, none, some, List, [], ◌∷◌, ◌++◌, map,
  Text, Map, lookup, insert, length, leb, ltb, ◌==◌, text_eq, if◌then◌else◌,
}
use relayswarm.Accounts.State
use relayswarm.Accounts.State.{
  Method, nostr, website, Funds, Identity, Renewal, Grant, Operation, Data, Expiry, Options, Clock,
  Work, Code, grant_unavailable, grant_capacity, Result, ok, err, Action, pure, refuse, ◌>>=◌, ◌>>◌,
  refuse_if, gets, modify, or_refuse, same_method,
}
use relayswarm.Accounts.Canonical.{canonical, canonical_account, visited_has}

-- A dead grant is kept for 30 s; its operations go with it.
unfoldable pub live_grants : ℕ → List Grant → List Grant
live_grants at [] = []
live_grants at (g ∷ gs) =
    let rest = live_grants at gs in if ltb at (g.expires_at + 30000) then g ∷ rest else rest

unfoldable pub live_operations : List Text → List Operation → List Operation
live_operations tokens [] = []
live_operations tokens (o ∷ os) =
    let rest = live_operations tokens os in if visited_has o.grant tokens then o ∷ rest else rest

unfoldable pub live_expiries : List Text → Map Expiry → Map Expiry
live_expiries tokens [] = []
live_expiries tokens ((t, e) ∷ m) =
    let rest = live_expiries tokens m in if visited_has t tokens then (t, e) ∷ rest else rest

abbrev pub tokens_of : List Grant → List Text
tokens_of = map (λ (g : Grant). g.token)

abbrev pub with_grants : List Grant → Work → Work
with_grants live w = record {
  state = record w.state {
    grants = live;
    operations = live_operations (tokens_of live) w.state.operations;
  };
  expiries = live_expiries (tokens_of live) w.expiries;
}

unfoldable pub prune : ℕ → Work → Work
prune at w = with_grants (live_grants at w.state.grants) w

pub record Snapshot : Type 0 where
  pub limit : ℕ
  pub spent : ℕ
  pub remaining : ℕ
  pub revision : ℕ
  pub generation : ℕ
  pub linked_nostr : Bool
  pub linked_website : Bool

-- Whether an identity with this method leads to the account; `none` where `canonical` throws.
unfoldable pub links : Method → Text → List State.Account → List Identity → Option Bool
links method id accounts [] = some false
links method id accounts (i ∷ is) =
    let rest = links method id accounts is in
    elim (canonical_account i.account_id accounts) [
      | none ↦ none
      | some (end, f) ↦ elim rest [
        | none ↦ none
        | some b ↦ some (text_eq end id && same_method i.method method || b)
      ]
    ]

-- `linkedMethods`, sorted and without repetition, is read off its two flags.
abbrev pub shown_with : Funds → Bool → Bool → Snapshot
shown_with f with_nostr with_website = record {
  limit = f.limit;
  spent = f.spent;
  remaining = f.limit - f.spent;
  revision = f.revision;
  generation = f.generation;
  linked_nostr = with_nostr;
  linked_website = with_website;
}

abbrev pub linked_by : Method → Text → Action Bool
linked_by method id w =
    or_refuse (links method id w.state.accounts w.state.identities) State.state_invalid w

-- `linkedMethods`, sorted and without repetition, is read off its two flags.
unfoldable pub snapshot : Text → Funds → Action Snapshot
snapshot id f = do
  with_nostr ← linked_by nostr id
  with_website ← linked_by website id
  pure (shown_with f with_nostr with_website)

unfoldable pub find_grant : Text → List Grant → Option Grant
find_grant token [] = none
find_grant token (g ∷ gs) = if text_eq g.token token then some g else find_grant token gs

abbrev pub in_time : Clock → Option Expiry → Bool
in_time c none = false
in_time c (some e) = ltb c.mono e.grant_end && ltb c.mono e.delegation_end

abbrev pub usable : Clock → Option Expiry → Grant → Bool
usable c expiry g =
    not g.revoked
    && ltb c.wall g.expires_at
    && ltb c.wall g.delegation_expires_at
    && in_time c expiry

-- The grant, and its account with the account's id.
pub record Granted : Type 0 where
  pub value : Grant
  pub account_id : Text
  pub account : Funds

abbrev pub expiry_of : Text → Action (Option Expiry)
expiry_of token w = (ok (lookup token w.expiries), w)

abbrev pub granted_to : Grant → Text × Funds → Action Granted
granted_to value (id, f) = do
  refuse_if (not (f.revision == value.epoch)) grant_unavailable
  pure (record { value = value; account_id = id; account = f })

abbrev pub account_of : Grant → Action Granted
account_of value = canonical value.account_id >>= granted_to value

abbrev pub checked_grant : Clock → Text → Grant → Action Granted
checked_grant c token value = do
  expiry ← expiry_of token
  refuse_if (not (usable c expiry value)) grant_unavailable
  account_of value

unfoldable pub grant : Clock → Text → Action Granted
grant c token = do
  found ← gets (λ d. find_grant token d.grants)
  or_refuse found grant_unavailable >>= checked_grant c token

pub record GrantResponse : Type 0 where
  pub token : Text
  pub expires_at : ℕ
  pub delegation_expires_at : ℕ
  pub epoch : ℕ
  pub fresh_consent : Bool
  pub shown : Snapshot

abbrev pub response : Grant → Bool → Snapshot → GrantResponse
response value fresh shown = record {
  token = value.token;
  expires_at = value.expires_at;
  delegation_expires_at = value.delegation_expires_at;
  epoch = value.epoch;
  fresh_consent = fresh;
  shown = shown;
}

abbrev pub respond : Grant → Bool → Text × Funds → Action GrantResponse
respond value fresh (id, f) = do shown ← snapshot id f; pure (response value fresh shown)

unfoldable pub grant_response : Grant → Bool → Action GrantResponse
grant_response value fresh = canonical value.account_id >>= respond value fresh

abbrev pub set_expiry : Text → Expiry → Action (Unit {0})
set_expiry token e w = (ok tt, record w { expiries = insert token e w.expiries })

-- The end of the delegation on the monotonic clock: that of the grant which is renewed, or a new one.
abbrev pub delegation_end_of : Clock → ℕ → Option Expiry → ℕ
delegation_end_of c expires_at none = c.mono + (expires_at - c.wall)
delegation_end_of c expires_at (some prior) = prior.delegation_end

-- `token` is the new grant's, from `randomBytes`; `prior` the expiry of the grant which is renewed.
unfoldable pub issue :
    Options
    → Clock
    → Text
    → Text
    → Funds
    → Text
    → List Method
    → ℕ
    → Option Text
    → Option Expiry
    → Action Grant
issue options c token id f page_pubkey methods delegation_expires_at website_identity prior = do
  held ← gets (λ d. length d.grants)
  refuse_if (leb options.grant_capacity held) grant_capacity
  let expires_at = min (c.wall + options.grant_ttl_seconds * 1000) delegation_expires_at
  let value : Grant = record {
    token = token;
    account_id = id;
    page_pubkey = page_pubkey;
    methods = methods;
    website_identity = website_identity;
    epoch = f.revision;
    expires_at = expires_at;
    delegation_expires_at = delegation_expires_at;
    revoked = false;
    renewal = none;
  }
  set_expiry token (record {
    grant_end = c.mono + (expires_at - c.wall);
    delegation_end = delegation_end_of c delegation_expires_at prior;
  })
  modify (λ d. record d { grants = d.grants ++ value ∷ [] })
  pure value

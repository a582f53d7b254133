-- ===== src/Accounts/Authorise.antt =====
-- src/account-upload-budget.mjs: `identityId` and `authorize`, which links accounts and sets limits.
use relayswarm.Base.{
  ℕ, ◌+◌, ◌*◌, min, max, Bool, true, false, ◌&&◌, ◌||◌, not, Option, none, some, List, [], ◌∷◌,
  ◌++◌, Text, length, leb, ltb, ◌==◌, text_eq, if◌then◌else◌,
}
use relayswarm.Accounts.State.{
  Method, website, Funds, funds, alias_to, Entry, Identity, Options, Clock, Action, pure, refuse,
  ◌>>=◌, ◌>>◌, refuse_if, gets, modify, is_hex_of, is_amount, methods_valid, is_method, same_method,
  max_safe, identity_unavailable, account_capacity, authorisation_invalid, spend_overflow,
  state_invalid,
}
use relayswarm.Accounts.Canonical.{canonical, set_account}
use relayswarm.Accounts.Grants.{GrantResponse, grant_response, issue}
use relayswarm.Accounts.Requests.{revoke_all}

-- An identity that a caller has proved. An issuer or a subject that is no string is an empty text.
pub record Claim : Type 0 where
  pub method : Method
  pub issuer : Text
  pub subject : Text

pub record Settings : Type 0 where
  pub limit : ℕ
  pub reset : Bool

pub record Authorisation : Type 0 where
  pub identities : List Claim
  pub page_pubkey : Text
  pub methods : List Method
  pub delegation_expires_at : ℕ
  pub authorisation_expires_at : ℕ
  pub settings : Option Settings
  pub link : Bool

-- Node's crypto and the new names that `randomBytes` gives: the HMAC of a claim under a secret, the
-- bytes of a text, the id of an account that the i-th claim creates, and the grant's token.
pub record Platform : Type 0 where
  pub hmac : Text → Claim → Text
  pub byte_length : Text → ℕ
  pub account_id : ℕ → Text
  pub token : Text

abbrev pub claims_methods : List Claim → List Method → Bool
claims_methods [] [] = true
claims_methods (c ∷ cs) (m ∷ ms) = same_method c.method m && claims_methods cs ms
claims_methods _ _ = false

abbrev pub valid_settings : Option Settings → Bool
valid_settings none = true
valid_settings (some s) = is_amount s.limit

abbrev pub valid_authorisation : Options → Clock → Authorisation → Bool
valid_authorisation options c a =
    is_hex_of 64 a.page_pubkey
    && methods_valid a.methods
    && claims_methods a.identities a.methods
    && leb a.delegation_expires_at max_safe
    && ltb c.wall a.delegation_expires_at
    && leb a.delegation_expires_at (c.wall + options.delegation_ttl_seconds * 1000)
    && leb a.authorisation_expires_at max_safe
    && ltb c.wall a.authorisation_expires_at
    && (if length a.identities == 2 then a.link else not a.link)
    && valid_settings a.settings

abbrev pub valid_claim : Platform → Claim → Bool
valid_claim platform claim =
    is_method claim.method
    && ltb 0 (length claim.issuer)
    && leb (length claim.issuer) 128
    && ltb 0 (length claim.subject)
    && leb (platform.byte_length claim.subject) 512

abbrev pub identity_id : Platform → Claim → Action Text
identity_id platform claim = do
  refuse_if (not (valid_claim platform claim)) identity_unavailable
  gets (λ d. platform.hmac d.secret claim)

unfoldable pub find_identity : Text → List Identity → Option Identity
find_identity id [] = none
find_identity id (i ∷ is) = if text_eq i.id id then some i else find_identity id is

abbrev pub new_funds : Options → Funds
new_funds options = record {
  limit = options.default_limit;
  spent = 0;
  revision = 1;
  generation = 1;
}

abbrev pub create_identity : Options → Text → Text → Method → Action Identity
create_identity options account_id id method = do
  full ← gets (λ d.
      leb options.identity_capacity (length d.identities)
      || leb options.account_capacity (length d.accounts))
  refuse_if full account_capacity
  let row : Identity = record { id = id; method = method; account_id = account_id }
  modify (λ d. record d {
    accounts = d.accounts ++ record { id = account_id; entry = funds (new_funds options) } ∷ [];
    identities = d.identities ++ row ∷ [];
  })
  pure row

abbrev pub found_or_created : Options → Text → Text → Method → Option Identity → Action Identity
found_or_created options account_id id method (some row) = pure row
found_or_created options account_id id method none = create_identity options account_id id method

abbrev pub named_row : Options → Platform → ℕ → Claim → Text → Action Identity
named_row options platform i claim id = do
  row ← gets (λ d. find_identity id d.identities)
  found_or_created options (platform.account_id i) id claim.method row

unfoldable pub identity_row : Options → Platform → ℕ → Claim → Action Identity
identity_row options platform i claim =
    identity_id platform claim >>= named_row options platform i claim

unfoldable pub identity_rows : Options → Platform → ℕ → List Claim → Action (List Identity)
identity_rows options platform i [] = pure []
identity_rows options platform i (claim ∷ claims) = do
  row ← identity_row options platform i claim
  rows ← identity_rows options platform (i + 1) claims
  pure (row ∷ rows)

abbrev pub bumped : Funds → Funds
bumped f = record f { revision = f.revision + 1 }

abbrev pub merged : Funds → Funds → Funds
merged f g = record {
  limit = min f.limit g.limit;
  spent = f.spent + g.spent;
  revision = max f.revision g.revision + 1;
  generation = max f.generation g.generation + 1;
}

abbrev pub write_account : Text → Entry → Action (Unit {0})
write_account id e = modify (λ d. record d { accounts = set_account id e d.accounts })

abbrev pub merge : Text → Funds → Text → Funds → Action Funds
merge id f other_id g = do
  refuse_if (ltb max_safe (f.spent + g.spent)) spend_overflow
  write_account id (funds (merged f g))
  write_account other_id (alias_to id)
  pure (merged f g)

abbrev pub bump : Text → Funds → Action Funds
bump id f = do write_account id (funds (bumped f)); pure (bumped f)

abbrev pub joined_with : Text → Funds → Text × Funds → Action Funds
joined_with id f (other_id, g) = if text_eq other_id id then bump id f else merge id f other_id g

-- The accounts of two identities become one, which the first keeps.
unfoldable pub link_to : Text → Funds → List Identity → Action Funds
link_to id f (first ∷ second ∷ rows) = canonical second.account_id >>= joined_with id f
link_to id f rows = pure f

abbrev pub linked : Bool → Text → Funds → List Identity → Action Funds
linked true id f rows = link_to id f rows
linked false id f rows = pure f

abbrev pub with_settings : Settings → Funds → Funds
with_settings s f =
    if s.reset
    then record {
      limit = s.limit;
      spent = 0;
      revision = f.revision + 1;
      generation = f.generation + 1;
    }
    else record f { limit = s.limit; revision = f.revision + 1 }

abbrev pub configured : Option Settings → Text → Funds → Action Funds
configured none id f = pure f
configured (some s) id f = do write_account id (funds (with_settings s f)); pure (with_settings s f)

abbrev pub is_given {ℓ} : {A : Type ℓ} → Option A → Bool
is_given none = false
is_given (some a) = true

abbrev pub revoke_if : Bool → Text → Action (Unit {0})
revoke_if true id = revoke_all (λ g. true) id
revoke_if false id = pure tt

abbrev pub website_of : List Identity → Option Text
website_of [] = none
website_of (i ∷ is) = if same_method i.method website then some i.id else website_of is

-- The account of the first record; there is one, since `methods` is not empty.
abbrev pub first_account : List Identity → Action (Text × Funds)
first_account [] = refuse state_invalid
first_account (i ∷ is) = canonical i.account_id

abbrev pub issue_for :
    Options → Platform → Clock → Authorisation → List Identity → Text → Funds → Action GrantResponse
issue_for options platform c a rows id account = do
  revoke_if (a.link || is_given a.settings) id
  issued ←
      issue options c platform.token id account a.page_pubkey a.methods a.delegation_expires_at
        (website_of rows) none
  grant_response issued true

abbrev pub configure :
    Options → Platform → Clock → Authorisation → List Identity → Text → Funds → Action GrantResponse
configure options platform c a rows id joined =
    configured a.settings id joined >>= issue_for options platform c a rows id

abbrev pub link_rows :
    Options → Platform → Clock → Authorisation → List Identity → Text × Funds → Action GrantResponse
link_rows options platform c a rows (id, f) =
    linked a.link id f rows >>= configure options platform c a rows id

abbrev pub authorize_rows :
    Options → Platform → Clock → Authorisation → List Identity → Action GrantResponse
authorize_rows options platform c a rows =
    first_account rows >>= link_rows options platform c a rows

unfoldable pub authorize : Options → Platform → Clock → Authorisation → Action GrantResponse
authorize options platform c a = do
  refuse_if (not (valid_authorisation options c a)) authorisation_invalid
  identity_rows options platform 0 a.identities >>= authorize_rows options platform c a

-- ===== src/Accounts/Examples.antt =====
-- The theorems on src/account-upload-budget.mjs at concrete inputs, and tests.
use relayswarm.Base.{
  ℕ, ◌+◌, ◌≡◌, refl, Bool, true, false, none, some, List, [], ◌∷◌, ◌++◌, Text, length, lookup,
  every, text_eq,
}
use relayswarm.Accounts.State.{
  Method, nostr, website, Funds, funds, alias_to, Account, Grant, Data, Options, Clock, Work,
  Result, ok, err,
}
use relayswarm.Accounts.Canonical.{
  canonical_with, canonical_account, find_account, set_account, visited_has, total_spent,
}
use relayswarm.Accounts.Canonical.Laws.{canonical_account-ends}
use relayswarm.Accounts.Validity.{valid_data, all_distinct}
use relayswarm.Accounts.Grants.{
  prune, live_grants, live_operations, live_expiries, snapshot, links, find_grant, grant,
}
use relayswarm.Accounts.Requests.{Reservation, reserve, find_operation, inspect_grant}
use relayswarm.Accounts.Reserves.{Reserves, reserve-Reserves}
use relayswarm.Accounts.Authorise.{Claim, Authorisation, Platform, authorize}
use relayswarm.Accounts.Charges.{After, Adds, nothing}
use relayswarm.Accounts.Links.Authorised.{authorize-Adds}
use relayswarm.Accounts.Drain.{
  Waiting, reserves, inspects, Server, drain_batch, run_batch, apply_waiting, operation,
}
use relayswarm.Accounts.Drain.Writes.{acknowledged, drain_batch-acknowledged}

abbrev eight : ℕ → Text
eight n = n ∷ n ∷ n ∷ n ∷ n ∷ n ∷ n ∷ n ∷ []

abbrev hex32 : ℕ → Text
hex32 n = eight n ++ (eight n ++ (eight n ++ eight n))

abbrev hex64 : ℕ → Text
hex64 n = hex32 n ++ hex32 n

abbrev options : Options
options = record {
  default_limit = 1000;
  grant_ttl_seconds = 120;
  delegation_ttl_seconds = 10800;
  account_capacity = 256;
  identity_capacity = 512;
  grant_capacity = 1024;
  operation_capacity = 8192;
}

abbrev first_funds : Funds
first_funds = record { limit = 1000; spent = 300; revision = 1; generation = 1 }

abbrev second_funds : Funds
second_funds = record { limit = 800; spent = 200; revision = 4; generation = 1 }

-- Two accounts, an alias of the first, and a grant for that alias.
abbrev accounts : List Account
accounts =
    record { id = hex32 b'a'; entry = funds first_funds }
    ∷ record { id = hex32 b'b'; entry = funds second_funds }
    ∷ record { id = hex32 b'c'; entry = alias_to (hex32 b'a') }
    ∷ []

abbrev held_grant : Grant
held_grant = record {
  token = hex64 b'1';
  account_id = hex32 b'c';
  page_pubkey = hex64 b'2';
  methods = nostr ∷ [];
  website_identity = none;
  epoch = 1;
  expires_at = 100000;
  delegation_expires_at = 200000;
  revoked = false;
  renewal = none;
}

abbrev ledger : Data
ledger = record {
  secret = hex64 b'0';
  last_wall = 10;
  accounts = accounts;
  identities =
      record { id = hex64 b'3'; method = nostr; account_id = hex32 b'a' }
      ∷ record { id = hex64 b'4'; method = website; account_id = hex32 b'b' }
      ∷ [];
  grants = held_grant ∷ [];
  operations = [];
}

abbrev work : Work
work = record {
  state = ledger;
  expiries = (hex64 b'1', record { grant_end = 90000; delegation_end = 90000 }) ∷ [];
}

abbrev noon : Clock
noon = record { wall = 5000; mono = 5000 }

canonical_account-ends_example :
    canonical_with (7 + 4) [] (hex32 b'c') accounts ≡ some (canonical_account (hex32 b'c') accounts)
canonical_account-ends_example = canonical_account-ends 7 (hex32 b'c') accounts

end_of_alias : canonical_account (hex32 b'c') accounts ≡ some (hex32 b'a', first_funds)
unfolding canonical_account canonical_with find_account visited_has text_eq
end_of_alias = refl

reserve-Reserves_example :
    After
      (Reserves noon (hex64 b'1') (hex32 b'5') 400 work)
      (reserve options noon (hex64 b'1') (hex32 b'5') 400 work)
reserve-Reserves_example = reserve-Reserves options noon (hex64 b'1') (hex32 b'5') 400 work

abbrev is_accepted : Result Reservation → Bool
is_accepted (ok r) = r.accepted
is_accepted (err e) = false

reserve_run : is_accepted (reserve options noon (hex64 b'1') (hex32 b'5') 400 work).0 ≡ true
unfolding reserve grant snapshot links find_grant find_operation canonical_account canonical_with
    find_account set_account visited_has text_eq lookup every
reserve_run = refl

-- The two identities ask for one account.
abbrev linking : Authorisation
linking = record {
  identities =
      record { method = nostr; issuer = b'i' ∷ []; subject = b's' ∷ [] }
      ∷ record { method = website; issuer = b'i' ∷ []; subject = b't' ∷ [] }
      ∷ [];
  page_pubkey = hex64 b'2';
  methods = nostr ∷ website ∷ [];
  delegation_expires_at = 60000;
  authorisation_expires_at = 60000;
  settings = none;
  link = true;
}

abbrev keyed : Text → Claim → Text
keyed secret claim = if_nostr claim.method
  where
    if_nostr : Method → Text
    if_nostr nostr = hex64 b'3'
    if_nostr _ = hex64 b'4'

abbrev platform : Platform
platform = record {
  hmac = keyed;
  byte_length = length;
  account_id = λ i. hex32 b'd';
  token = hex64 b'6';
}

authorize-Adds_example : After (Adds nothing work) (authorize options platform noon linking work)
authorize-Adds_example = authorize-Adds options platform noon linking work refl

abbrev queue : List Waiting
queue =
    record { request = inspects (hex64 b'1'); clock = noon; aborted = false }
    ∷ record { request = reserves (hex64 b'1') (hex32 b'5') 400; clock = noon; aborted = false }
    ∷ record { request = reserves (hex64 b'1') (hex32 b'5') 400; clock = noon; aborted = false }
    ∷ record { request = reserves (hex64 b'1') (hex32 b'6') 400; clock = noon; aborted = false }
    ∷ []

abbrev server : Server
server = record { state = ledger; expiries = work.expiries; highest_wall = 10; broken = false }

-- The second reservation repeats the first, and the third does not fit.
queue_run : acknowledged (drain_batch options true queue server).1 ≡ 400
unfolding drain_batch run_batch apply_waiting operation acknowledged prune live_grants
    live_operations live_expiries valid_data all_distinct reserve grant snapshot links find_grant
    find_operation canonical_account canonical_with find_account set_account visited_has text_eq
    lookup every inspect_grant
queue_run = refl

drain_batch-acknowledged_example :
    total_spent (drain_batch options true queue server).0.state.accounts
    ≡ total_spent ledger.accounts + acknowledged (drain_batch options true queue server).1
drain_batch-acknowledged_example =
    drain_batch-acknowledged options true queue server (tt, (tt, (tt, (tt, tt))))

-- ===== src/Accounts/Reserves.antt =====
-- What a reservation does to the ledger (src/account-upload-budget.mjs).
use relayswarm.Base.{
  ℕ, ◌+◌, ◌-◌, ◌≤◌, ◌≡◌, refl, Bool, true, false, Option, none, some, List, [], ◌∷◌, arith, Text,
  not, if◌then◌else◌, length, leb, ◌==◌, text_eq, text_eq→eq, text_eq_refl, ◌++◌, ◌∙◌, ap,
}
use relayswarm.Accounts.State.{
  Funds, funds, Operation, Options, Clock, Work, pure, ◌>>=◌, ◌>>◌, gets, modify,
}
use relayswarm.Accounts.Canonical.{total_spent, find_account}
use relayswarm.Accounts.Canonical.Laws.{total_spent-set_account, find_account-set_account}
use relayswarm.Accounts.Grants.{Snapshot, snapshot, Granted, grant}
use relayswarm.Accounts.Requests.{
  Reservation, reservation, reserve, reserve_with, reserve_for, reserve_again, reserve_new, charge,
  charged, decide, find_operation, valid_reservation,
}
use relayswarm.Accounts.Charges.{After, guard-After, read-After, Found, snapshot-Same, Adds}
use relayswarm.Accounts.Leads.{Leads, Leads-Found, grant-Leads}

-- What a reservation charges: an operation that was decided before charges nothing.
abbrev pub newly_reserved : Reservation → ℕ
newly_reserved r = if r.duplicate then 0 else r.reserved_bytes

-- How an operation is decided, from the decision that the ledger has on it and the account's funds.
abbrev pub Decides : Option Operation → Funds → ℕ → Reservation → Type 0
Decides none f bytes r = (r.duplicate ≡ false) × (r.accepted ≡ leb bytes (f.limit - f.spent))
Decides (some previous) f bytes r =
    (r.duplicate ≡ true) × (r.accepted ≡ previous.accepted) × (previous.bytes ≡ bytes)

-- The account `id` with the funds `f` is charged within its limit, and no other account changes; the
-- decision stands in the ledger.
pub record Reserved (token operation : Text) (bytes : ℕ) (w : Work) (r : Reservation) (w' : Work)
    (id : Text) (f : Funds) : Type 0 where
  pub account_found : find_account id w.state.accounts ≡ some (funds f)
  pub account_charged :
      find_account id w'.state.accounts ≡ some (funds (charge (newly_reserved r) f))
  pub others_same :
      (j : Text)
      → text_eq id j ≡ false
      → find_account j w'.state.accounts ≡ find_account j w.state.accounts
  pub added : Adds newly_reserved w r w'
  pub decides : Decides (find_operation token operation w.state.operations) f bytes r
  pub reserved : r.reserved_bytes ≡ (if r.accepted then bytes else 0)
  pub within_limit : r.accepted ≡ true → r.duplicate ≡ false → f.spent + bytes ≤ f.limit
  pub decided :
      find_operation token operation w'.state.operations
      ≡ some
          (record { grant = token; operation_id = operation; bytes = bytes; accepted = r.accepted })

-- The account is the one that the token's grant leads to.
abbrev pub Reserves : Clock → Text → Text → ℕ → Work → Reservation → Work → Type 0
Reserves c token operation bytes w r w' =
    (g : Granted) × Leads c token w g × Reserved token operation bytes w r w' g.account_id g.account

find_operation-found :
    (token id : Text) (os : List Operation) (o : Operation)
    → find_operation token id os ≡ some o
    → (o.grant ≡ token) × (o.operation_id ≡ id)
unfolding find_operation
find_operation-found token id [] o h = cc
find_operation-found token id (p ∷ os) o h = ground (
  arith,
  text_eq→eq p.grant token,
  text_eq→eq p.operation_id id,
  find_operation-found token id os o,
)

find_operation-append :
    (token id : Text) (bytes : ℕ) (accepted : Bool) (os : List Operation)
    → find_operation token id os ≡ none
    → let o : Operation = record {
      grant = token;
      operation_id = id;
      bytes = bytes;
      accepted = accepted;
    } in
      find_operation token id (os ++ o ∷ []) ≡ some o
unfolding find_operation
find_operation-append token id bytes accepted [] h =
    ground (arith, text_eq_refl token, text_eq_refl id)
find_operation-append token id bytes accepted (p ∷ os) h =
    ground (arith, find_operation-append token id bytes accepted os)

again-Reserves :
    (token operation : Text) (bytes : ℕ) (g : Granted) (previous : Operation) (s : Snapshot)
    (w : Work)
    → Found w g
    → find_operation token operation w.state.operations ≡ some previous
    → previous.bytes ≡ bytes
    → Reserved token operation bytes w
        (reservation previous.accepted true bytes s)
        w
        g.account_id
        g.account
again-Reserves token operation bytes g previous s w found e b =
    let same = find_operation-found token operation w.state.operations previous e in
    record {
      account_found = found;
      account_charged =
          found ∙ ap (λ n. some (funds (record g.account { spent = n }))) (omega arith);
      others_same = λ j u. refl;
      added = omega arith;
      decides = rw e (refl, refl, b);
      reserved = refl;
      within_limit = λ a d. cc;
      decided = e ∙ ap some (ground (arith, b, same));
    }

decided-added :
    (token id : Text) (bytes : ℕ) (g : Granted) (accepted : Bool) (w : Work)
    → Found w g
    → total_spent (decide token id bytes g accepted w.state).accounts
      ≡ total_spent w.state.accounts + (if accepted then bytes else 0)
decided-added token id bytes g accepted w found =
    let law =
      total_spent-set_account g.account_id (funds (charge bytes g.account)) (funds g.account)
        w.state.accounts found in
    ground (arith, law)

decided-Reserves :
    (token operation : Text) (bytes : ℕ) (g : Granted) (accepted : Bool) (s : Snapshot) (w : Work)
    → Found w g
    → find_operation token operation w.state.operations ≡ none
    → accepted ≡ leb bytes (g.account.limit - g.account.spent)
    → (accepted ≡ true → g.account.spent + bytes ≤ g.account.limit)
    → Reserved token operation bytes w
        (reservation accepted false bytes s)
        (record w { state = decide token operation bytes g accepted w.state })
        g.account_id
        g.account
decided-Reserves token operation bytes g true s w found e test fits =
    let set = λ (j : Text).
      find_account-set_account g.account_id j (funds (charge bytes g.account)) (funds g.account)
        w.state.accounts found in
    record {
      account_found = found;
      account_charged = ground (arith, set g.account_id, text_eq_refl g.account_id);
      others_same = λ j u. ground (arith, set j, u);
      added = decided-added token operation bytes g true w found;
      decides = rw e (refl, test);
      reserved = refl;
      within_limit = λ a d. fits refl;
      decided = find_operation-append token operation bytes true w.state.operations e;
    }
decided-Reserves token operation bytes g false s w found e test fits = record {
  account_found = found;
  account_charged = found ∙ ap (λ n. some (funds (record g.account { spent = n }))) (omega arith);
  others_same = λ j u. refl;
  added = omega arith;
  decides = rw e (refl, test);
  reserved = refl;
  within_limit = λ a d. cc;
  decided = find_operation-append token operation bytes false w.state.operations e;
}

reserve_new-Reserves :
    (options : Options) (c : Clock) (token operation : Text) (bytes : ℕ) (g : Granted) (w : Work)
    → Leads c token w g
    → find_operation token operation w.state.operations ≡ none
    → 1 ≤ bytes
    → After (Reserves c token operation bytes w) (reserve_new options token operation bytes g w)
reserve_new-Reserves options c token operation bytes g w leads e pos =
    let accepted = leb bytes (g.account.limit - g.account.spent) in
    let w' : Work = record w { state = decide token operation bytes g accepted w.state } in
    let answer = λ (shown : Snapshot). pure (reservation accepted false bytes shown) in
    let shown = snapshot g.account_id (charged accepted bytes g.account) in
    guard-After (leb options.operation_capacity (length w.state.operations)) _
      (modify (decide token operation bytes g accepted) >> shown >>= answer) w
      (Reserves c token operation bytes w)
      (λ room.
        read-After shown answer w' (λ s. Unit {0}) (Reserves c token operation bytes w)
          (snapshot-Same g.account_id (charged accepted bytes g.account) w')
          (λ s u. (
            g,
            leads,
            decided-Reserves token operation bytes g accepted s w (Leads-Found c token w g leads) e
                refl (λ a. ground (arith, pos, a)),
          )))

reserve_again-Reserves :
    (c : Clock) (token operation : Text) (bytes : ℕ) (g : Granted) (previous : Operation) (w : Work)
    → Leads c token w g
    → find_operation token operation w.state.operations ≡ some previous
    → After (Reserves c token operation bytes w) (reserve_again previous bytes g w)
reserve_again-Reserves c token operation bytes g previous w leads e =
    let answer = λ (shown : Snapshot). pure (reservation previous.accepted true bytes shown) in
    let shown = snapshot g.account_id g.account in
    guard-After (not (previous.bytes == bytes)) _ (shown >>= answer) w
      (Reserves c token operation bytes w)
      (λ same.
        read-After shown answer w (λ s. Unit {0}) (Reserves c token operation bytes w)
          (snapshot-Same g.account_id g.account w)
          (λ s u. (
            g,
            leads,
            again-Reserves token operation bytes g previous s w (Leads-Found c token w g leads) e
                (ground (arith, same)),
          )))

reserve_with-Reserves :
    (options : Options) (c : Clock) (token operation : Text) (bytes : ℕ) (g : Granted) (w : Work)
    → Leads c token w g
    → After (Reserves c token operation bytes w) (reserve_with options token operation bytes g w)
reserve_with-Reserves options c token operation bytes g w leads =
    guard-After (not (valid_reservation operation bytes)) _
      (gets (λ d. find_operation token operation d.operations)
        >>= reserve_for options token operation bytes g)
      w (Reserves c token operation bytes w)
      (λ v. go (find_operation token operation w.state.operations) refl (ground (arith, v)))
  where
    go :
        (o : Option Operation)
        → find_operation token operation w.state.operations ≡ o
        → 1 ≤ bytes
        → After
            (Reserves c token operation bytes w)
            (reserve_for options token operation bytes g o w)
    go none e pos = reserve_new-Reserves options c token operation bytes g w leads e pos
    go (some previous) e pos = reserve_again-Reserves c token operation bytes g previous w leads e

-- A reservation that returns has found a usable grant for its token, and has charged, of all the
-- accounts, only the one that the grant leads to: by the bytes that it newly reserves, within that
-- account's limit. An operation that the ledger has no decision on for this token is accepted just if
-- its bytes fit what the account has left; one that was decided before gets that decision, for the same
-- bytes, and charges nothing. The sum of what the accounts have spent grows by just the charge, and the
-- decision stands in the ledger, where it is found again for the same token and operation.
pub reserve-Reserves :
    (options : Options) (c : Clock) (token operation : Text) (bytes : ℕ) (w : Work)
    → After (Reserves c token operation bytes w) (reserve options c token operation bytes w)
unfolding reserve
reserve-Reserves options c token operation bytes w =
    read-After (grant c token) (reserve_with options token operation bytes) w (Leads c token w)
      (Reserves c token operation bytes w) (grant-Leads c token w)
      (λ g leads. reserve_with-Reserves options c token operation bytes g w leads)

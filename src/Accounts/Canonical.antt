-- ===== src/Accounts/Canonical.antt =====
-- src/account-upload-budget.mjs: the account that an id stands for, at the end of its aliases.
pub mod Laws
use relayswarm.Base.{
  ℕ, zero, suc, ◌+◌, Bool, true, false, ◌||◌, Option, none, some, List, [], ◌∷◌, Text, length,
  text_eq, if◌then◌else◌,
}
use relayswarm.Accounts.State.{
  Account, Entry, Funds, funds, alias_to, Data, Action, or_refuse, gets, state_invalid,
}

-- `accounts.find((entry) => entry.id === id)`.
unfoldable pub find_account : Text → List Account → Option Entry
find_account id [] = none
find_account id (a ∷ accounts) = if text_eq a.id id then some a.entry else find_account id accounts

-- A write to the object that `find` gives.
unfoldable pub set_account : Text → Entry → List Account → List Account
set_account id e [] = []
set_account id e (a ∷ accounts) =
    if text_eq a.id id then record a { entry = e } ∷ accounts else a ∷ set_account id e accounts

unfoldable pub visited_has : Text → List Text → Bool
visited_has id [] = false
visited_has id (v ∷ visited) = text_eq v id || visited_has id visited

-- One round of the loop: whether the id was visited, what `find` gives, and the next round.
abbrev pub round :
    Bool
    → Option Entry
    → Text
    → (Text → Option (Option (Text × Funds)))
    → Option (Option (Text × Funds))
round true found id next = some none
round false none id next = some none
round false (some (funds f)) id next = some (some (id, f))
round false (some (alias_to target)) id next = next target

-- The loop, with the set of the ids visited: `some none` where it refuses the state, and `none` where
-- it has not ended in as many rounds as the fuel has.
unfoldable pub canonical_with : ℕ → List Text → Text → List Account → Option (Option (Text × Funds))
canonical_with zero visited id accounts = none
canonical_with (suc fuel) visited id accounts =
    round (visited_has id visited) (find_account id accounts) id
      (λ target. canonical_with fuel (id ∷ visited) target accounts)

-- What the loop that has ended resolves with; a loop without end has no result.
abbrev pub ended : {A : Type 0} → Option (Option A) → Option A
ended none = none
ended (some r) = r

-- Each round visits another account.
unfoldable pub canonical_account : Text → List Account → Option (Text × Funds)
canonical_account id accounts = ended (canonical_with (suc (length accounts)) [] id accounts)

abbrev pub canonical : Text → Action (Text × Funds)
canonical id w = or_refuse (canonical_account id w.state.accounts) state_invalid w

-- The sum of `spent` over the accounts that are no aliases.
abbrev pub entry_spent : Entry → ℕ
entry_spent (funds f) = f.spent
entry_spent (alias_to target) = 0

unfoldable pub total_spent : List Account → ℕ
total_spent [] = 0
total_spent (a ∷ accounts) = entry_spent a.entry + total_spent accounts

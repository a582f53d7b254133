-- ===== src/Budget/Examples.antt =====
-- The theorems on demo/upload-budget.mjs at concrete inputs, and a test.
use relayswarm.Base.{ℕ, ◌+◌, ◌≡◌, ◌≤◌, refl, true, false, List, [], ◌∷◌, arith}
use relayswarm.Budget.Ledger.{
  Ledger, absent, holds, Tab, Host, thrown, reserve, transaction, open_tab, refresh, set_limit,
  remaining,
}
use relayswarm.Budget.Tabs.{
  sets_limit, reserves, shows, Origin, Happening, opens, acts, run_tabs, happen, act, perform,
}
use relayswarm.Budget.Limit.Runs.{run_tabs-limit}
use relayswarm.Budget.Grants.{perform-failed}
use relayswarm.Budget.Turns.{working, requested, run_tabs-served}

abbrev full_disk : Host
full_disk = record { lock_granted = true; aborted = false; write = thrown }

abbrev two_tabs : List Happening
two_tabs =
    opens 100 true
    ∷ acts 0 (reserves 60 working)
    ∷ opens 100 true
    ∷ acts 0 (reserves 60 working)
    ∷ acts 1 (reserves 30 working)
    ∷ acts 0 (sets_limit 200 working)
    ∷ acts 0 (reserves 100 working)
    ∷ acts 1 (reserves 5 full_disk)
    ∷ acts 1 shows
    ∷ []

abbrev empty : Origin
empty = record { tabs = []; stored = absent; reserved = 0 }

-- The second tab is refused 60 of the 40 that are left.
two_tabs_run : (run_tabs two_tabs empty).reserved ≡ 190
unfolding run_tabs happen act perform reserve transaction open_tab refresh set_limit
two_tabs_run = refl

run_tabs-limit_example : (run_tabs two_tabs empty).reserved ≤ 200
run_tabs-limit_example = run_tabs-limit 200 two_tabs (ground arith)

abbrev half_spent : Ledger
half_spent = record { spent = 50; limit = 100; revision = 3 }

abbrev new_tab : Tab
new_tab = record { failed = false; state = half_spent; default_limit = 100; available = true }

abbrev spent_most : Ledger
spent_most = record { spent = 98; limit = 100; revision = 5 }

-- 20 bytes do not fit what the first tab's 40 leave, and 8 do.
abbrev in_turn : List (ℕ × ℕ)
in_turn = (0, 40) ∷ (1, 20) ∷ (1, 8) ∷ []

run_tabs-served_example :
    let o =
      run_tabs
        (requested in_turn)
        (record { tabs = new_tab ∷ new_tab ∷ []; stored = holds half_spent; reserved = 0 }) in
    (o.stored ≡ holds spent_most) × (o.reserved + 50 ≡ 0 + 98)
run_tabs-served_example =
    run_tabs-served in_turn (new_tab ∷ new_tab ∷ []) half_spent 0 ((refl, refl), ((refl, refl), tt))
      (omega arith, (omega arith, (omega arith, tt))) refl (omega arith)

abbrev broken_tab : Tab
broken_tab = record new_tab { failed = true }

perform-failed_example :
    ((perform (reserves 40 working) broken_tab (holds half_spent)).ok ≡ false)
    × ((perform (reserves 40 working) broken_tab (holds half_spent)).stored ≡ holds half_spent)
    × ((perform (reserves 40 working) broken_tab (holds half_spent)).tab.failed ≡ true)
    × (remaining (perform (reserves 40 working) broken_tab (holds half_spent)).tab ≡ 0)
perform-failed_example =
    perform-failed (reserves 40 working) broken_tab (holds half_spent) refl refl

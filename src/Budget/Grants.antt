-- ===== src/Budget/Grants.antt =====
-- A tab that has failed (demo/upload-budget.mjs).
use relayswarm.Base.{◌≡◌, refl, Bool, true, false, Option, none, some, arith}
use relayswarm.Budget.Tabs.{Action, sets_limit, reserves, resets, shows, perform}
use relayswarm.Budget.Ledger.{
  read, refresh, read_into, remaining, set_limit, Ledger, Stored, Tab, reserve, transaction,
}

abbrev is_reset : Action → Bool
is_reset (resets limit h) = true
is_reset _ = false

read_into-failed : (o : Option Ledger) (t : Tab) → t.failed ≡ true → (read_into o t).failed ≡ true
read_into-failed none t f = refl
read_into-failed (some l) t f = f

refresh-failed : (t : Tab) (s : Stored) → t.failed ≡ true → (refresh t s).failed ≡ true
unfolding refresh
refresh-failed t s f = ground (arith, read_into-failed (read t.default_limit s) t f)

-- A tab that has failed fails closed: whatever it does except a reset is not granted, leaves the
-- storage as it was and leaves the tab failed, with nothing remaining to show.
pub perform-failed :
    (a : Action) (t : Tab) (s : Stored)
    → t.failed ≡ true
    → is_reset a ≡ false
    → ((perform a t s).ok ≡ false)
      × ((perform a t s).stored ≡ s)
      × ((perform a t s).tab.failed ≡ true)
      × (remaining (perform a t s).tab ≡ 0)
unfolding perform set_limit reserve transaction remaining
perform-failed (sets_limit limit h) t s f n = ground arith
perform-failed (reserves amount h) t s f n = ground arith
perform-failed (resets limit h) t s f n = cc
perform-failed shows t s f n = ground (arith, refresh-failed t s f)

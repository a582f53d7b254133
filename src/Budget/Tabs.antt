-- ===== src/Budget/Tabs.antt =====
-- demo/upload-budget.mjs: several tabs of one origin over one storage, in any order.
use relayswarm.Base.{ℕ, zero, suc, ◌+◌, Bool, false, Option, List, [], ◌∷◌, if◌then◌else◌}
use relayswarm.Budget.Ledger.{
  Tab, Stored, Host, Result, set_limit, reserve, reset, refresh, open_tab, valid_limit,
}

pub data Action : Type 0 where
  sets_limit : ℕ → Host → Action
  reserves : ℕ → Host → Action
  resets : Option ℕ → Host → Action
  shows : Action

unfoldable pub perform : Action → Tab → Stored → Result
perform (sets_limit limit h) t s = set_limit limit h t s
perform (reserves amount h) t s = reserve amount h t s
perform (resets limit h) t s = reset limit h t s
perform shows t s = record { tab = refresh t s; stored = s; ok = false }

-- The tabs, the storage, and the sum of the reservations granted since the last reset.
pub record Origin : Type 0 where
  pub tabs : List Tab
  pub stored : Stored
  pub reserved : ℕ

-- The sum after an action that was granted.
abbrev pub after_grant : Action → ℕ → ℕ
after_grant (sets_limit limit h) n = n
after_grant (reserves amount h) n = n + amount
after_grant (resets limit h) n = 0
after_grant shows n = n

-- A tab opens with its own default, or the tab with this number acts.
pub data Happening : Type 0 where
  opens : ℕ → Bool → Happening
  acts : ℕ → Action → Happening

abbrev pub counted : Action → ℕ → Result → List Tab → Origin
counted a n r ts = record {
  tabs = r.tab ∷ ts;
  stored = r.stored;
  reserved = if r.ok then after_grant a n else n;
}

abbrev pub behind : Tab → Origin → Origin
behind t o = record o { tabs = t ∷ o.tabs }

unfoldable pub act : ℕ → Action → List Tab → Stored → ℕ → Origin
act i a [] s n = record { tabs = []; stored = s; reserved = n }
act zero a (t ∷ ts) s n = counted a n (perform a t s) ts
act (suc i) a (t ∷ ts) s n = behind t (act i a ts s n)

-- An invalid default limit is an exception, and no tab.
unfoldable pub happen : Happening → Origin → Origin
happen (opens limit available) o =
    if valid_limit limit then behind (open_tab limit available o.stored) o else o
happen (acts i a) o = act i a o.tabs o.stored o.reserved

unfoldable pub run_tabs : List Happening → Origin → Origin
run_tabs [] o = o
run_tabs (e ∷ es) o = run_tabs es (happen e o)

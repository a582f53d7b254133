-- ===== src/Budget/Limit/Runs.antt =====
-- The limit over a history of several tabs (demo/upload-budget.mjs).
use relayswarm.Base.{
  ℕ, zero, suc, ◌≤◌, refl, Bool, true, false, if◌then◌else◌, List, [], ◌∷◌, arith,
}
use relayswarm.Budget.Ledger.{
  Stored, absent, holds, unreadable, Tab, Result, initial, open_tab, refresh, valid_limit,
}
use relayswarm.Budget.Tabs.{
  Action, perform, Origin, after_grant, Happening, opens, acts, counted, act, happen, run_tabs,
}
use relayswarm.Budget.Limit.{Holds, IsWithin, Keeps, Modest, perform-Keeps, refresh-IsWithin}

module _ (most : ℕ) where
  abbrev AllWithin : List Tab → Type 0
  AllWithin [] = Unit {0}
  AllWithin (t ∷ ts) = IsWithin most t × AllWithin ts

  -- Limits that the viewer or an opening page brings are at most `most`.
  abbrev pub ModestOne : Happening → Type 0
  ModestOne (opens limit available) = limit ≤ most
  ModestOne (acts i a) = Modest most a

  abbrev pub AllModest : List Happening → Type 0
  AllModest [] = Unit {0}
  AllModest (e ∷ es) = ModestOne e × AllModest es

  abbrev IsSafe : Origin → Type 0
  IsSafe o = AllWithin o.tabs × Holds most o.stored o.reserved

  counted-IsSafe :
      (a : Action) (n : ℕ) (r : Result) (ts : List Tab)
      → Keeps most r (after_grant a n) n
      → AllWithin ts
      → IsSafe (counted a n r ts)
  counted-IsSafe a n r ts k ws = ((k.0, ws), k.1)

  act-IsSafe :
      (i : ℕ) (a : Action) (ts : List Tab) (s : Stored) (n : ℕ)
      → Modest most a
      → AllWithin ts
      → Holds most s n
      → IsSafe (act i a ts s n)
  unfolding act
  act-IsSafe zero a [] s n m ws h = (ws, h)
  act-IsSafe (suc i) a [] s n m ws h = (ws, h)
  act-IsSafe zero a (t ∷ ts) s n m ws h =
      counted-IsSafe a n (perform a t s) ts (perform-Keeps most a t s n m ws.0 h) ws.1
  act-IsSafe (suc i) a (t ∷ ts) s n m ws h =
      let rest = act-IsSafe i a ts s n m ws.1 h in ((ws.0, rest.0), rest.1)

  if_IsSafe :
      (b : Bool) (x y : Origin) → IsSafe x → IsSafe y → IsSafe (if◌then◌else◌ {A = Origin} b x y)
  if_IsSafe true x y v w = v
  if_IsSafe false x y v w = w

  happen-IsSafe : (e : Happening) (o : Origin) → ModestOne e → IsSafe o → IsSafe (happen e o)
  unfolding happen open_tab
  happen-IsSafe (opens limit available) o m v =
      if_IsSafe (valid_limit limit) _ o ((opened, v.0), v.1) v
    where
      fresh : Tab
      fresh = record {
        failed = false;
        state = initial limit;
        default_limit = limit;
        available = available;
      }

      opened : IsWithin most (refresh fresh o.stored)
      opened =
          refresh-IsWithin most fresh o.stored o.reserved
            (record { default_below = m; state_below = m }) v.1
  happen-IsSafe (acts i a) o m v = act-IsSafe i a o.tabs o.stored o.reserved m v.0 v.1

  run_tabs-IsSafe :
      (es : List Happening) (o : Origin) → AllModest es → IsSafe o → IsSafe (run_tabs es o)
  unfolding run_tabs
  run_tabs-IsSafe [] o m v = v
  run_tabs-IsSafe (e ∷ es) o m v = run_tabs-IsSafe es (happen e o) m.1 (happen-IsSafe e o m.0 v)

  Holds-le : (s : Stored) (n : ℕ) → Holds most s n → n ≤ most
  Holds-le absent n h = omega (arith, h)
  Holds-le (holds l) n h = omega (arith, h.spent_counted, h.spent_below)
  Holds-le unreadable n h = h

  -- From an empty storage, whatever tabs open, act and interleave and whatever becomes of their writes,
  -- if no default and no chosen limit is above `most`, the reservations granted since the last reset
  -- add up to at most `most`.
  pub run_tabs-limit :
      (es : List Happening)
      → AllModest es
      → (run_tabs es (record { tabs = []; stored = absent; reserved = 0 })).reserved ≤ most
  run_tabs-limit es m =
      let v =
        run_tabs-IsSafe es (record { tabs = []; stored = absent; reserved = 0 }) m (tt, refl) in
      Holds-le _ _ v.1

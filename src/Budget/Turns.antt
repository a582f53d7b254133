-- ===== src/Budget/Turns.antt =====
-- Reservations of several tabs, one after the other, where nothing fails (demo/upload-budget.mjs).
use relayswarm.Base.{
  ℕ, zero, suc, sym, subst, ◌∙◌, ◌+◌, ◌-◌, ◌≤◌, ◌<◌, ◌≡◌, refl, Bool, true, false, ◌&&◌, List, [],
  ◌∷◌, length, leb, if◌then◌else◌, arith,
}
use relayswarm.Budget.Tabs.{reserves, perform, Origin, Happening, acts, act, happen, run_tabs}
use relayswarm.Budget.Ledger.{Ledger, holds, Tab, Host, kept, reserve, transaction, valid, max_safe}

-- The lock is granted, the signal is not aborted and the write is kept.
abbrev pub working : Host
working = record { lock_granted = true; aborted = false; write = kept }

abbrev pub IsLive : Tab → Type 0
IsLive t = (t.failed ≡ false) × (t.available ≡ true)

abbrev pub AllLive : List Tab → Type 0
AllLive [] = Unit {0}
AllLive (t ∷ ts) = IsLive t × AllLive ts

-- Each request is the number of a tab and an amount.
abbrev pub AllThere : ℕ → List (ℕ × ℕ) → Type 0
AllThere n [] = Unit {0}
AllThere n ((i, amount) ∷ rs) = (i < n) × AllThere n rs

abbrev pub requested : List (ℕ × ℕ) → List Happening
requested [] = []
requested ((i, amount) ∷ rs) = acts i (reserves amount working) ∷ requested rs

-- First come, first served: an amount that fits what is left is spent, any other is passed over.
abbrev fits : ℕ → Ledger → Bool
fits amount l = leb 1 amount && leb amount (l.limit - l.spent)

abbrev pub served : ℕ → Ledger → Ledger
served amount l =
    if fits amount l then record l { spent = l.spent + amount; revision = l.revision + 1 } else l

abbrev pub all_served : List (ℕ × ℕ) → Ledger → Ledger
all_served [] l = l
all_served ((i, amount) ∷ rs) l = all_served rs (served amount l)

reserve-IsLive :
    (amount : ℕ) (t : Tab) (l : Ledger)
    → IsLive t
    → valid l ≡ true
    → l.revision < max_safe
    → let r = reserve amount working t (holds l) in
      IsLive r.tab × (r.stored ≡ holds (served amount l)) × (r.ok ≡ fits amount l)
unfolding reserve transaction
reserve-IsLive amount t l (f, a) v rv = ground (arith, f, a, v, rv)

served-valid :
    (amount : ℕ) (l : Ledger)
    → valid l ≡ true
    → l.revision < max_safe
    → valid (served amount l) ≡ true
served-valid amount l v rv = ground (arith, v, rv)

served-revision : (amount : ℕ) (l : Ledger) → (served amount l).revision ≤ l.revision + 1
served-revision amount l = ground arith

-- The tabs stay live, and as many; the record is served, and the sum of what is granted follows it.
Follows : List Tab → Ledger → Ledger → ℕ → Origin → Type 0
Follows ts l l' n o =
    AllLive o.tabs
    × (length o.tabs ≡ length ts)
    × (o.stored ≡ holds l')
    × (o.reserved + l.spent ≡ n + l'.spent)

act-Follows :
    (i amount : ℕ) (ts : List Tab) (l : Ledger) (n : ℕ)
    → i < length ts
    → AllLive ts
    → valid l ≡ true
    → l.revision < max_safe
    → Follows ts l (served amount l) n (act i (reserves amount working) ts (holds l) n)
unfolding act perform Follows
act-Follows i amount [] l n there live v rv = absurd (omega (arith, there))
act-Follows zero amount (t ∷ ts) l n there live v rv =
    let r = reserve-IsLive amount t l live.0 v rv in ((r.0, live.1), refl, r.1, ground (arith, r.2))
act-Follows (suc i) amount (t ∷ ts) l n there live v rv =
    let ih = act-Follows i amount ts l n (omega (arith, there)) live.1 v rv in
    ((live.0, ih.0), omega (arith, ih.1), ih.2, ih.3)

Follows-trans :
    (ts : List Tab) (l l' l'' : Ledger) (n : ℕ) (o o' : Origin)
    → Follows ts l l' n o
    → Follows o.tabs l' l'' o.reserved o'
    → Follows ts l l'' n o'
unfolding Follows
Follows-trans ts l l' l'' n o o' f g = (g.0, g.1 ∙ f.1, g.2, omega (arith, f.3, g.3))

run_tabs-Follows :
    (rs : List (ℕ × ℕ)) (ts : List Tab) (l : Ledger) (n : ℕ)
    → AllLive ts
    → AllThere (length ts) rs
    → valid l ≡ true
    → l.revision + length rs ≤ max_safe
    → Follows ts l
        (all_served rs l)
        n
        (run_tabs (requested rs) (record { tabs = ts; stored = holds l; reserved = n }))
unfolding run_tabs happen Follows
run_tabs-Follows [] ts l n live there v rv = (live, refl, refl, refl)
run_tabs-Follows ((i, amount) ∷ rs) ts l n live there v rv =
    let l' = served amount l in
    let o = act i (reserves amount working) ts (holds l) n in
    let f = act-Follows i amount ts l n there.0 live v (omega (arith, rv)) in
    let rest =
      run_tabs-Follows rs o.tabs l' o.reserved f.0 (subst (λ k. AllThere k rs) (sym f.1) there.1)
        (served-valid amount l v (omega (arith, rv)))
        (omega (arith, rv, served-revision amount l)) in
    Follows-trans ts l l' (all_served rs l') n o _ f (
      subst
        (λ s.
          Follows o.tabs l' (all_served rs l') o.reserved
            (run_tabs (requested rs) (record o { stored = s })))
        (sym f.2) rest)

-- Where nothing fails, tabs of one origin that reserve in any order share its record as one queue: if
-- no tab has failed, storage and locks are there, every lock is granted, no signal is aborted and every
-- write is kept, and the record is valid with a revision that has room for them, then the record in
-- the end is the one that serves the requests first come, first served, whichever tab each comes from.
-- An amount is granted just if it is at least one byte and fits what the earlier ones have left, and
-- what is granted in all is what the record has spent since.
pub run_tabs-served :
    (rs : List (ℕ × ℕ)) (ts : List Tab) (l : Ledger) (n : ℕ)
    → AllLive ts
    → AllThere (length ts) rs
    → valid l ≡ true
    → l.revision + length rs ≤ max_safe
    → let o = run_tabs (requested rs) (record { tabs = ts; stored = holds l; reserved = n }) in
      (o.stored ≡ holds (all_served rs l)) × (o.reserved + l.spent ≡ n + (all_served rs l).spent)
unfolding Follows
run_tabs-served rs ts l n live there v rv =
    let f = run_tabs-Follows rs ts l n live there v rv in (f.2, f.3)

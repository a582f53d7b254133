-- ===== src/Budget/Ledger.antt =====
-- demo/upload-budget.mjs: the stored record, and what one tab does with it. A transaction is the
-- callback that runs under the exclusive lock, from its check of the signal to its answer.
use relayswarm.Base.{
  ℕ, ◌+◌, ◌-◌, Bool, true, false, ◌&&◌, ◌||◌, not, Option, none, some, if◌then◌else◌, ltb, leb,
  ◌==◌,
}

pub record Ledger : Type 0 where
  pub spent : ℕ
  pub limit : ℕ
  pub revision : ℕ

-- What the storage has under the key: nothing, a record of version 1 with these numbers, or anything
-- else.
pub data Stored : Type 0 where
  absent : Stored
  holds : Ledger → Stored
  unreadable : Stored

abbrev pub max_safe : ℕ
max_safe = 9007199254740991

abbrev pub valid_limit : ℕ → Bool
valid_limit n = leb n 1000000000000

abbrev pub valid : Ledger → Bool
valid l = valid_limit l.limit && valid_limit l.spent && leb l.revision max_safe

-- The variables of the closure, its option, and whether storage and locks are there.
pub record Tab : Type 0 where
  pub failed : Bool
  pub state : Ledger
  pub default_limit : ℕ
  pub available : Bool

-- What `setItem` does: it keeps the text, throws, or does nothing.
pub data Write : Type 0 where
  kept : Write
  thrown : Write
  ignored : Write

-- Whether the lock is granted, whether the signal is aborted then, and the write.
pub record Host : Type 0 where
  pub lock_granted : Bool
  pub aborted : Bool
  pub write : Write

pub record Result : Type 0 where
  pub tab : Tab
  pub stored : Stored
  pub ok : Bool

abbrev pub initial : ℕ → Ledger
initial limit = record { spent = 0; limit = limit; revision = 0 }

abbrev checked : Ledger → Option Ledger
checked l = if valid l then some l else none

abbrev pub read : ℕ → Stored → Option Ledger
read default_limit absent = checked (initial default_limit)
read default_limit (holds l) = checked l
read default_limit unreadable = none

abbrev pub refused : Tab → Stored → Result
refused t s = record { tab = t; stored = s; ok = false }

abbrev pub fail : Tab → Stored → Result
fail t s = refused (record t { failed = true }) s

abbrev same : Ledger → Ledger → Bool
same a b = a.spent == b.spent && a.limit == b.limit && a.revision == b.revision

abbrev pub reads_back : Stored → Ledger → Bool
reads_back (holds l) next = same l next
reads_back _ next = false

abbrev pub commit : Write → Ledger → Tab → Stored → Result
commit kept next t s = record { tab = record t { state = next }; stored = holds next; ok = true }
commit thrown next t s = fail t s
commit ignored next t s =
    if reads_back s next
    then record { tab = record t { state = next }; stored = s; ok = true }
    else fail t s

abbrev pub updated : Option Ledger → Ledger → Host → Tab → Stored → Result
updated none current h t s = refused t s
updated (some next) current h t s =
    let next' = record next { revision = current.revision + 1 } in
    if not (valid next') then fail t s else commit h.write next' t s

abbrev pub under_lock : (Ledger → Option Ledger) → Option Ledger → Host → Tab → Stored → Result
under_lock update none h t s = fail t s
under_lock update (some current) h t s =
    updated (update current) current h (record t { state = current }) s

unfoldable pub transaction : (Ledger → Option Ledger) → Host → Tab → Stored → Result
transaction update h t s =
    if t.failed || not t.available
    then fail t s
    else if not h.lock_granted
    then (if h.aborted then refused t s else fail t s)
    else if h.aborted
    then refused t s
    else under_lock update (read t.default_limit s) h t s

abbrev pub with_limit : ℕ → Ledger → Option Ledger
with_limit limit current = some (record current { limit = limit })

unfoldable pub set_limit : ℕ → Host → Tab → Stored → Result
set_limit limit h t s =
    if not (valid_limit limit) then refused t s else transaction (with_limit limit) h t s

abbrev pub spend : ℕ → Ledger → Option Ledger
spend amount current =
    if leb amount (current.limit - current.spent)
    then some (record current { spent = current.spent + amount })
    else none

unfoldable pub reserve : ℕ → Host → Tab → Stored → Result
reserve amount h t s =
    if ltb max_safe amount || ltb amount 1 then refused t s else transaction (spend amount) h t s

-- A corrupt record, or none, has revision 0 here.
abbrev pub previous_revision : Stored → ℕ
previous_revision (holds l) = if valid l then l.revision else 0
previous_revision _ = 0

abbrev pub restored : Result → Result
restored r = if r.ok then record r { tab = record r.tab { failed = false } } else r

abbrev pub given_or {ℓ} : {A : Type ℓ} → Option A → A → A
given_or none a = a
given_or (some b) a = b

abbrev pub reset_to : ℕ → Host → Tab → Stored → Result
reset_to limit h t s =
    let next : Ledger = record { spent = 0; limit = limit; revision = previous_revision s + 1 } in
    if not (valid_limit limit) || not t.available
    then refused t s
    else if not h.lock_granted
    then fail t s
    else if not (valid next)
    then refused t s
    else restored (commit h.write next t s)

-- `reset(limit = state.limit)`.
unfoldable pub reset : Option ℕ → Host → Tab → Stored → Result
reset limit h t s = reset_to (given_or limit t.state.limit) h t s

abbrev pub read_into : Option Ledger → Tab → Tab
read_into none t = record t { failed = true }
read_into (some l) t = record t { state = l }

-- What `snapshot` does to the tab, and the `remaining` that it shows then.
unfoldable pub refresh : Tab → Stored → Tab
refresh t s =
    if not t.available then record t { failed = true } else read_into (read t.default_limit s) t

unfoldable pub remaining : Tab → ℕ
remaining t = if t.failed then 0 else t.state.limit - t.state.spent

-- A tab that opens: the closure's first values, then `snapshot()`.
unfoldable pub open_tab : ℕ → Bool → Stored → Tab
open_tab default_limit available s =
    refresh
      (record {
        failed = false;
        state = initial default_limit;
        default_limit = default_limit;
        available = available;
      })
      s

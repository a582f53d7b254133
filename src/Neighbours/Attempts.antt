-- ===== src/Neighbours/Attempts.antt =====
-- src/browser/neighbour-discovery.mjs: the window in which one neighbour may be replaced, from `begin`
-- to its end.
use relayswarm.Base.{
  ℕ, ◌+◌, Bool, true, false, ◌&&◌, ◌||◌, not, Option, none, some, [], Text, lookup, leb, ◌==◌, min,
  if◌then◌else◌, text_eq,
}
use relayswarm.Neighbours.State.{
  Discovery, Context, Candidate, Attempt, Ongoing, Window, with_entry, fresh, live_context,
  live_window,
}
use relayswarm.Neighbours.Candidates.{includes}
use relayswarm.Neighbours.Contexts.{current_context, is_absent}
use relayswarm.Neighbours.Window.{Found, spent, is_vacant}

-- `null + 30_000` is 30,000.
abbrev pub or_zero : Option ℕ → ℕ
or_zero none = 0
or_zero (some n) = n

abbrev pub new_window : Found → ℕ → Discovery → Window
new_window f now d = record {
  id = d.next_window;
  kind = f.kind;
  context = f.context.id;
  created_at = now;
  expires_at =
      min (now + 15000) (min (f.candidate.at + 60000) (or_zero f.context.last_demand_at + 30000));
  attempt = none;
  vacant = false;
  victim = none;
}

abbrev pub opened : Option Window → Found → ℕ → Discovery → Window × Discovery
opened (some w) f now d = (w, d)
opened none f now d =
    let w = new_window f now d in (w, record d { window = some w; next_window = d.next_window + 1 })

abbrev pub new_attempt : Window → Found → Discovery → Attempt
new_attempt w f d = record {
  id = d.next_attempt;
  window = w.id;
  pubkey = f.pubkey;
  ticket = f.candidate.ticket;
  key = f.key;
}

abbrev pub with_attempt : Option Ongoing → Window → Discovery → Discovery
with_attempt o w d = record d { window = some (record w { attempt = o }) }

abbrev pub attempted : Window → Found → Discovery → Option Attempt × Discovery
attempted w f d =
    let a = new_attempt w f d in
    (
      some a,
      with_attempt (some (record { attempt = a; dial = none })) w
          (record d { next_attempt = d.next_attempt + 1; checks = d.checks + 1 }),
    )

abbrev pub begin_in : Window × Discovery → Found → ℕ → Option Attempt × Discovery
begin_in (w, d) f now =
    if not (w.context == f.context.id) || not (is_absent w.attempt) || leb w.expires_at now
    then (none, d)
    else attempted w f d

unfoldable pub begin : Found → ℕ → Discovery → Option Attempt × Discovery
begin f now d = begin_in (opened d.window f now d) f now

abbrev pub is_ongoing : Option Ongoing → Attempt → Bool
is_ongoing none a = false
is_ongoing (some o) a = o.attempt.id == a.id

abbrev pub same_ticket : Option Text → Option Text → Bool
same_ticket none none = true
same_ticket (some s) (some t) = text_eq s t
same_ticket _ _ = false

abbrev pub is_good : Option Candidate → Attempt → ℕ → Bool
is_good none a now = false
is_good (some c) a now =
    fresh 60000 c.at now && same_ticket c.ticket a.ticket && includes a.key c.have

abbrev pub valid_in : Option Window → Attempt → ℕ → Discovery → Bool
valid_in none a now d = false
valid_in (some w) a now d =
    w.id == a.window
    && live_window (some w) now
    && is_ongoing w.attempt a
    && current_context (live_context w.kind w.context d) now
    && is_good (lookup a.pubkey d.candidates) a now

unfoldable pub valid : Attempt → ℕ → Discovery → Bool
valid a now d = valid_in d.window a now d

abbrev pub spend : Window → Context → Text → ℕ → Discovery → Discovery
spend w c victim now d =
    with_entry w.kind (record c { spent_at = some now })
      (record d {
        window = some (record w { vacant = true; victim = some victim });
        replacements = d.replacements + 1;
      })

abbrev pub replaced_in : Option Window → Option Context → Text → ℕ → Discovery → Discovery × Bool
replaced_in (some w) (some c) victim now d =
    if spent c then (d, false) else (spend w c victim now d, true)
replaced_in _ _ victim now d = (d, false)

abbrev pub window_context : Option Window → Discovery → Option Context
window_context none d = none
window_context (some w) d = live_context w.kind w.context d

unfoldable pub replaced : Attempt → Text → ℕ → Discovery → Discovery × Bool
unfolding valid
replaced a victim now d =
    if not (valid a now d)
    then (d, false)
    else replaced_in d.window (window_context d.window d) victim now d

abbrev pub dialled : Option Ongoing → Attempt → ℕ → Option Ongoing
dialled none a dial = none
dialled (some o) a dial =
    if o.attempt.id == a.id then some (record o { dial = some dial }) else some o

-- An attempt of an earlier window changes nothing that is read again.
abbrev pub allocated_in : Option Window → Attempt → ℕ → Discovery → Discovery
allocated_in none a dial d = d
allocated_in (some w) a dial d =
    if w.id == a.window
    then record d {
      window = some (record w { attempt = dialled w.attempt a dial; vacant = false });
    }
    else d

unfoldable pub allocated : Attempt → ℕ → Discovery → Discovery
allocated a dial d = allocated_in d.window a dial d

abbrev pub abandoned_in : Option Window → Attempt → Discovery → Discovery
abandoned_in none a d = d
abandoned_in (some w) a d = if is_ongoing w.attempt a then with_attempt none w d else d

unfoldable pub abandoned : Attempt → Discovery → Discovery
abandoned a d = abandoned_in d.window a d

-- A dial of `none` is one that the attempt has not been given.
abbrev pub has_dial : Option Ongoing → ℕ → Bool
has_dial none dial = false
has_dial (some o) dial = is_dial o.dial
  where
    is_dial : Option ℕ → Bool
    is_dial none = false
    is_dial (some n) = n == dial

abbrev pub failed_in : Option Window → ℕ → Discovery → Discovery
failed_in none dial d = d
failed_in (some w) dial d =
    if has_dial w.attempt dial
    then record d { window = some (record w { attempt = none; vacant = not (is_absent w.victim) }) }
    else d

unfoldable pub failed : ℕ → Discovery → Discovery
failed dial d = failed_in d.window dial d

abbrev pub end_in : Option Window → Option ℕ → Discovery → Discovery × Bool
end_in none id d = (d, false)
end_in (some w) none d = (record d { window = none }, true)
end_in (some w) (some id) d = if w.id == id then (record d { window = none }, true) else (d, false)

-- `end`, of the window that is open where none is given.
unfoldable pub end_window : Option ℕ → Discovery → Discovery × Bool
end_window id d = end_in d.window id d

unfoldable pub reserved : ℕ → Discovery → Bool
reserved now d =
    live_window d.window now
    && is_vacant d.window
    && current_context (window_context d.window d) now

abbrev pub is_victim : Option Window → Text → Bool
is_victim none pubkey = false
is_victim (some w) pubkey = same_ticket w.victim (some pubkey)

unfoldable pub suppresses : Text → ℕ → Discovery → Bool
suppresses pubkey now d = live_window d.window now && is_victim d.window pubkey

unfoldable pub clear : Discovery → Discovery
clear d = record d {
  window = none;
  main_context = none;
  audio_context = none;
  audio_first = false;
  candidates = [];
}

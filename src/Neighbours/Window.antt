-- ===== src/Neighbours/Window.antt =====
-- src/browser/neighbour-discovery.mjs: `choose`, which finds the neighbour to try next.
use relayswarm.Base.{
  ℕ, ◌+◌, Bool, true, false, ◌&&◌, ◌||◌, not, Option, none, some, List, [], ◌∷◌, Text, Map,
  if◌then◌else◌,
}
use relayswarm.Neighbours.State.{
  Discovery, Context, Candidate, MediaType, main, audio, Window, fresh, live_context,
}
use relayswarm.Neighbours.Candidates.{demanded, hinted_in}
use relayswarm.Neighbours.Contexts.{current_context, is_absent}

-- What `choose` gives, and `begin` takes.
pub record Found : Type 0 where
  pub kind : MediaType
  pub context : Context
  pub pubkey : Text
  pub candidate : Candidate
  pub key : Text

abbrev pub found_at : MediaType → Context → Option (Text × Candidate × Text) → Option Found
found_at kind c none = none
found_at kind c (some (pubkey, candidate, key)) =
    some (record { kind = kind; context = c; pubkey = pubkey; candidate = candidate; key = key })

-- `hinting`.
unfoldable pub hinting_in : List Text → ℕ → Map Candidate → Bool
hinting_in keys now [] = false
hinting_in keys now ((pubkey, c) ∷ m) =
    fresh 60000 c.at now && not (is_absent (demanded keys c.have)) || hinting_in keys now m

abbrev pub spent : Context → Bool
spent c = not (is_absent c.spent_at)

abbrev pub is_vacant : Option Window → Bool
is_vacant none = false
is_vacant (some w) = w.vacant

-- `room`, and what the host says of a candidate and of a context.
pub record Asked : Type 0 where
  pub eligible : Text → Candidate → Bool
  pub unmet : Context → Bool
  pub room : Bool

abbrev pub is_passed_over : Asked → ℕ → Context → Discovery → Bool
is_passed_over a now c d =
    not (current_context (some c) now)
    || not (a.unmet c)
    || not a.room && spent c && not (is_vacant d.window)

-- A search that finds nobody is counted once in a call, for each of two reasons.
pub record Search : Type 0 where
  pub found : Option Found
  pub no_hint : Bool
  pub ineligible : Bool
  pub discovery : Discovery

abbrev pub unfound : Bool → Search → Search
unfound true s = if s.ineligible then s else record s {
  ineligible = true;
  discovery = record s.discovery { unmet_ineligible = s.discovery.unmet_ineligible + 1 };
}
unfound false s = if s.no_hint then s else record s {
  no_hint = true;
  discovery = record s.discovery { unmet_no_hint = s.discovery.unmet_no_hint + 1 };
}

abbrev pub searched : ℕ → Context → Option Found → Search → Search
searched now c none s = unfound (hinting_in c.keys now s.discovery.candidates) s
searched now c (some f) s = record s { found = some f }

abbrev pub search_one : Asked → ℕ → MediaType → Option Context → Search → Search
search_one a now kind none s = s
search_one a now kind (some c) s =
    if not (is_absent s.found) || is_passed_over a now c s.discovery
    then s
    else searched now c (found_at kind c (hinted_in a.eligible c.keys now s.discovery.candidates)) s

abbrev pub searching : Discovery → Search
searching d = record { found = none; no_hint = false; ineligible = false; discovery = d }

-- The contexts in their order; a context of a window that is replaced is passed over as not current.
abbrev pub search_all : Asked → ℕ → Discovery → Search
search_all a now d =
    if d.audio_first
    then search_one a now main d.main_context (search_one a now audio d.audio_context (searching d))
    else search_one a now audio d.audio_context (search_one a now main d.main_context (searching d))

abbrev pub choose_in : Option Window → Asked → ℕ → Discovery → Search
choose_in none a now d = search_all a now d
choose_in (some w) a now d =
    if not (is_absent w.attempt)
    then searching d
    else search_one a now w.kind (live_context w.kind w.context d) (searching d)

unfoldable pub choose : Asked → ℕ → Discovery → Option Found × Discovery
unfolding hinting_in
choose a now d = let s = choose_in d.window a now d in (s.found, s.discovery)

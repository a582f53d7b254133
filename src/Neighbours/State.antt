-- ===== src/Neighbours/State.antt =====
-- src/browser/neighbour-discovery.mjs: the state of `NeighbourDiscovery`. An object that the code
-- compares by identity has a number, given out in order; a reference to it is that number. Each
-- operation reads the clock once, as `now`.
use relayswarm.Base.{
  ℕ, ◌-◌, Bool, true, false, ◌&&◌, Option, none, some, List, [], Text, Map, if◌then◌else◌, ltb, leb,
  ◌==◌,
}

pub data MediaType : Type 0 where
  main : MediaType
  audio : MediaType

pub record Holder : Type 0 where
  pub first_miss_at : ℕ
  pub misses : ℕ
  pub last_key : Text

pub record Context : Type 0 where
  pub id : ℕ
  pub rendition : Text
  pub keys : List Text
  pub last_demand_at : Option ℕ
  pub activity_at : ℕ
  pub spent_at : Option ℕ
  pub holders : Map Holder

pub record Candidate : Type 0 where
  pub have : List Text
  pub ticket : Option Text
  pub at : ℕ

-- An attempt, with the numbers of itself and of its window.
pub record Attempt : Type 0 where
  pub id : ℕ
  pub window : ℕ
  pub pubkey : Text
  pub ticket : Option Text
  pub key : Text

-- The attempt of a window, with its dial, once it has one.
pub record Ongoing : Type 0 where
  pub attempt : Attempt
  pub dial : Option ℕ

pub record Window : Type 0 where
  pub id : ℕ
  pub kind : MediaType
  pub context : ℕ
  pub created_at : ℕ
  pub expires_at : ℕ
  pub attempt : Option Ongoing
  pub vacant : Bool
  pub victim : Option Text

-- `main_context` and `audio_context` are the entries of `contexts`, the second before the first where
-- `audio_first` is true. `next_id` is the number of the next context.
pub record Discovery : Type 0 where
  pub main_context : Option Context
  pub audio_context : Option Context
  pub audio_first : Bool
  pub next_id : ℕ
  pub candidates : Map Candidate
  pub window : Option Window
  pub next_window : ℕ
  pub next_attempt : ℕ
  pub checks : ℕ
  pub replacements : ℕ
  pub rearmed : ℕ
  pub verified_count : ℕ
  pub unmet_no_hint : ℕ
  pub unmet_ineligible : ℕ

abbrev pub new_discovery : Discovery
new_discovery = record {
  main_context = none;
  audio_context = none;
  audio_first = false;
  next_id = 0;
  candidates = [];
  window = none;
  next_window = 0;
  next_attempt = 0;
  checks = 0;
  replacements = 0;
  rearmed = 0;
  verified_count = 0;
  unmet_no_hint = 0;
  unmet_ineligible = 0;
}

abbrev pub entry : MediaType → Discovery → Option Context
entry main d = d.main_context
entry audio d = d.audio_context

abbrev pub with_entry : MediaType → Context → Discovery → Discovery
with_entry main c d = record d { main_context = some c }
with_entry audio c d = record d { audio_context = some c }

-- At or after `since`, and less than `span` later.
abbrev pub fresh : ℕ → ℕ → ℕ → Bool
fresh span since now = leb since now && ltb (now - since) span

abbrev pub fresh_or_null : ℕ → Option ℕ → ℕ → Bool
fresh_or_null span none now = true
fresh_or_null span (some since) now = fresh span since now

abbrev pub fresh_demand : Option ℕ → ℕ → Bool
fresh_demand none now = false
fresh_demand (some since) now = fresh 30000 since now

-- The entry for the media type, if it is the object with this number.
abbrev pub is_id : Option Context → ℕ → Option Context
is_id none id = none
is_id (some c) id = if c.id == id then some c else none

abbrev pub live_context : MediaType → ℕ → Discovery → Option Context
live_context kind id d = is_id (entry kind d) id

-- `live`, of the window that is open.
abbrev pub live_window : Option Window → ℕ → Bool
live_window none now = false
live_window (some w) now = leb w.created_at now && ltb now w.expires_at

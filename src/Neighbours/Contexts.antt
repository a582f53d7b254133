-- ===== src/Neighbours/Contexts.antt =====
-- src/browser/neighbour-discovery.mjs: `context`, `demand`, and whether a context is current, spent
-- or re-armed.
use relayswarm.Base.{
  ℕ, ◌+◌, Bool, true, false, ◌==◌, ◌&&◌, ◌||◌, not, Option, none, some, List, [], ◌∷◌, ◌++◌, Text,
  take, if◌then◌else◌, is_hex64, text_eq,
}
use relayswarm.Neighbours.State.{
  Discovery, Context, MediaType, main, audio, Ongoing, Window, live_window, entry, with_entry,
  fresh, fresh_or_null, fresh_demand, live_context,
}
use relayswarm.Neighbours.Candidates.{unique_onto}

abbrev pub new_context : ℕ → Text → ℕ → Context
new_context id rendition now = record {
  id = id;
  rendition = rendition;
  keys = [];
  last_demand_at = none;
  activity_at = now;
  spent_at = none;
  holders = [];
}

abbrev pub forgotten : Context → Context
forgotten c = record c { keys = []; last_demand_at = none; holders = [] }

-- A context that has been idle for 30 s, or whose clock has gone back, forgets its demand.
abbrev pub touched : ℕ → Context → Context
touched now c =
    if not (fresh 30000 c.activity_at now) || not (fresh_or_null 30000 c.last_demand_at now)
    then record (forgotten c) { activity_at = now }
    else record c { activity_at = now }

abbrev pub is_main : MediaType → Bool
is_main main = true
is_main audio = false

abbrev pub is_absent {ℓ} : {A : Type ℓ} → Option A → Bool
is_absent none = true
is_absent (some a) = false

abbrev pub created : MediaType → Text → ℕ → Discovery → Context × Discovery
created kind rendition now d =
    let c = new_context d.next_id rendition now in
    (
      c,
      with_entry kind c (record d {
        next_id = d.next_id + 1;
        audio_first = d.audio_first || (not (is_main kind) && is_absent d.main_context);
      }),
    )

abbrev pub reused : MediaType → ℕ → Context → Discovery → Context × Discovery
reused kind now c d = (touched now c, with_entry kind (touched now c) d)

abbrev pub context_for : Option Context → MediaType → Text → ℕ → Discovery → Context × Discovery
context_for none kind rendition now d = created kind rendition now d
context_for (some c) kind rendition now d =
    if not (text_eq c.rendition rendition)
    then created kind rendition now d
    else reused kind now c d

unfoldable pub context : MediaType → Text → ℕ → Discovery → Context × Discovery
context kind rendition now d = context_for (entry kind d) kind rendition now d

abbrev pub as_list {ℓ} : {A : Type ℓ} → Option A → List A
as_list none = []
as_list (some a) = a ∷ []

-- The key of the attempt in this context's open window.
abbrev pub key_of : Option Ongoing → Option Text
key_of none = none
key_of (some o) = some o.attempt.key

abbrev pub pinned : Option Window → ℕ → ℕ → Option Text
pinned none id now = none
pinned (some w) id now =
    if live_window (some w) now && w.context == id then key_of w.attempt else none

-- The two keys that a viewer demands now.
abbrev pub demanding : Option Text → Text → ℕ → Context → Context
demanding first key now c = record c {
  keys = take 2 (unique_onto (as_list first ++ key ∷ c.keys) []);
  last_demand_at = some now;
}

unfoldable pub demand : MediaType → Text → Text → ℕ → Discovery → Discovery
demand kind rendition key now d =
    let (c, d') = context kind rendition now d in
    if not (is_hex64 key)
    then d'
    else with_entry kind (demanding (pinned d'.window c.id now) key now c) d'

abbrev pub current_context : Option Context → ℕ → Bool
current_context none now = false
current_context (some c) now = fresh 30000 c.activity_at now && fresh_demand c.last_demand_at now

unfoldable pub current : MediaType → ℕ → ℕ → Discovery → Bool
current kind id now d = current_context (live_context kind id d) now

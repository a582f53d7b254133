-- ===== src/Neighbours/Holders.antt =====
-- src/browser/neighbour-discovery.mjs: the misses of a context's holders, and re-arming.
use relayswarm.Base.{
  ℕ, ◌+◌, ◌-◌, Bool, true, false, ◌&&◌, ◌||◌, not, Option, none, some, Text, Map, lookup, insert,
  delete, drop, length, leb, if◌then◌else◌, is_hex64, text_eq,
}
use relayswarm.Neighbours.State.{
  Discovery, Context, Holder, MediaType, with_entry, fresh, fresh_demand, live_context,
}

-- A new entry; the oldest of eight makes room for it.
abbrev pub first_miss : Text → Text → ℕ → Map Holder → Map Holder
first_miss pubkey key now m =
    insert pubkey (record { first_miss_at = now; misses = 1; last_key = key })
      (if leb 8 (length m) then drop 1 m else m)

abbrev pub missed : Option Holder → Text → Text → ℕ → Map Holder → Map Holder × Bool
missed none pubkey key now m = (first_miss pubkey key now m, true)
missed (some h) pubkey key now m =
    if text_eq h.last_key key
    then (m, false)
    else (insert pubkey (record h { misses = h.misses + 1; last_key = key }) m, true)

abbrev pub miss_in : Option Context → MediaType → Text → Text → ℕ → Discovery → Discovery × Bool
miss_in none kind pubkey key now d = (d, false)
miss_in (some c) kind pubkey key now d =
    let (m, new) = missed (lookup pubkey c.holders) pubkey key now c.holders in
    (with_entry kind (record c { holders = m }) d, new)

unfoldable pub holder_miss : MediaType → ℕ → Text → Text → ℕ → Discovery → Discovery × Bool
holder_miss kind id pubkey key now d =
    if not (is_hex64 pubkey) || not (is_hex64 key)
    then (d, false)
    else miss_in (live_context kind id d) kind pubkey key now d

abbrev pub delivered_in : Option Context → MediaType → Text → Discovery → Discovery
delivered_in none kind pubkey d = d
delivered_in (some c) kind pubkey d =
    with_entry kind (record c { holders = delete pubkey c.holders }) d

-- `holderDelivered`, and `holderAhead`, which calls it.
unfoldable pub holder_delivered : MediaType → ℕ → Text → Discovery → Discovery
holder_delivered kind id pubkey d = delivered_in (live_context kind id d) kind pubkey d

abbrev pub is_stale : Option Holder → ℕ → Bool
is_stale none now = false
is_stale (some h) now = leb 4 h.misses && leb 10000 (now - h.first_miss_at)

abbrev pub stale_in : Option Context → Text → ℕ → Bool
stale_in none pubkey now = false
stale_in (some c) pubkey now = is_stale (lookup pubkey c.holders) now

unfoldable pub stale : MediaType → ℕ → Text → ℕ → Discovery → Bool
stale kind id pubkey now d = stale_in (live_context kind id d) pubkey now

abbrev pub rearm_spent : Option ℕ → Context → Bool → ℕ → Bool
rearm_spent none c all_stale now = false
rearm_spent (some spent) c all_stale now =
    leb spent now
    && leb 20000 (now - spent)
    && fresh 30000 c.activity_at now
    && fresh_demand c.last_demand_at now
    && all_stale

abbrev pub rearm_in : Option Context → MediaType → Bool → ℕ → Discovery → Discovery × Bool
rearm_in none kind all_stale now d = (d, false)
rearm_in (some c) kind all_stale now d =
    if rearm_spent c.spent_at c all_stale now
    then (
      with_entry kind (record c { spent_at = none }) (record d { rearmed = d.rearmed + 1 }),
      true,
    )
    else (d, false)

-- `all_stale` is what `allStale()` says.
unfoldable pub rearm : MediaType → ℕ → Bool → ℕ → Discovery → Discovery × Bool
rearm kind id all_stale now d = rearm_in (live_context kind id d) kind all_stale now d

abbrev pub verified_in : Option Context → MediaType → Discovery → Discovery × Bool
verified_in none kind d = (d, false)
verified_in (some c) kind d = (
  with_entry kind (record c { spent_at = none })
      (record d { verified_count = d.verified_count + 1 }),
  true,
)

-- A verified delivery.
unfoldable pub verified : MediaType → ℕ → Discovery → Discovery × Bool
verified kind id d = verified_in (live_context kind id d) kind d

abbrev pub forgotten_by : Text → Option Context → Option Context
forgotten_by pubkey none = none
forgotten_by pubkey (some c) = some (record c { holders = delete pubkey c.holders })

unfoldable pub forget : Text → Discovery → Discovery
forget pubkey d = record d {
  main_context = forgotten_by pubkey d.main_context;
  audio_context = forgotten_by pubkey d.audio_context;
}

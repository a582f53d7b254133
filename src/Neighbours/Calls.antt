-- ===== src/Neighbours/Calls.antt =====
-- The calls of src/browser/neighbour-discovery.mjs, in any order.
use relayswarm.Base.{ℕ, Bool, Option, List, [], ◌∷◌, Text}
use relayswarm.Neighbours.State.{Discovery, MediaType, Attempt}
use relayswarm.Neighbours.Candidates.{hint}
use relayswarm.Neighbours.Contexts.{demand}
use relayswarm.Neighbours.Window.{Asked, Found, choose}
use relayswarm.Neighbours.Attempts.{
  begin, replaced, allocated, abandoned, failed, end_window, clear,
}
use relayswarm.Neighbours.Holders.{holder_miss, holder_delivered, rearm, verified, forget}

-- A call of an operation that changes the state, by the host, with its clock.
pub data Call : Type 0 where
  hints : Text → Option (List Text) → Option Text → ℕ → Call
  demands : MediaType → Text → Text → ℕ → Call
  misses : MediaType → ℕ → Text → Text → ℕ → Call
  delivers : MediaType → ℕ → Text → Call
  rearms : MediaType → ℕ → Bool → ℕ → Call
  verifies : MediaType → ℕ → Call
  forgets : Text → Call
  chooses : Asked → ℕ → Call
  begins : Found → ℕ → Call
  replaces : Attempt → Text → ℕ → Call
  allocates : Attempt → ℕ → Call
  abandons : Attempt → Call
  fails : ℕ → Call
  ends : Option ℕ → Call
  clears : Call

unfoldable pub call : Call → Discovery → Discovery
call (hints p have ticket now) d = hint p have ticket now d
call (demands kind r key now) d = demand kind r key now d
call (misses kind id p key now) d = (holder_miss kind id p key now d).0
call (delivers kind id p) d = holder_delivered kind id p d
call (rearms kind id all_stale now) d = (rearm kind id all_stale now d).0
call (verifies kind id) d = (verified kind id d).0
call (forgets p) d = forget p d
call (chooses a now) d = (choose a now d).1
call (begins f now) d = (begin f now d).1
call (replaces a victim now) d = (replaced a victim now d).0
call (allocates a dial) d = allocated a dial d
call (abandons a) d = abandoned a d
call (fails dial) d = failed dial d
call (ends id) d = (end_window id d).0
call clears d = clear d

unfoldable pub calls : List Call → Discovery → Discovery
calls [] d = d
calls (c ∷ cs) d = calls cs (call c d)

-- ===== src/Neighbours/Bounds/Runs.antt =====
-- The tables stay small over any calls (src/browser/neighbour-discovery.mjs).
use relayswarm.Base.{
  if_keeps, ℕ, refl, true, false, not, Option, none, some, List, [], ◌∷◌, arith, Text,
}
use relayswarm.Neighbours.State.{Discovery, Context, Attempt, Window, new_discovery, live_context}
use relayswarm.Neighbours.Holders.{holder_delivered, rearm, verified, forget}
use relayswarm.Neighbours.Window.{spent}
use relayswarm.Neighbours.Attempts.{spend, valid, window_context, replaced_in, replaced, clear}
use relayswarm.Neighbours.Untouched.{
  Untouched, choose-Counted, begin-Untouched, allocated-Untouched, abandoned-Untouched,
  failed-Untouched, end_window-Untouched,
}
use relayswarm.Neighbours.Calls.{
  Call, hints, demands, misses, delivers, rearms, verifies, forgets, chooses, begins, replaces,
  allocates, abandons, fails, ends, clears, call, calls,
}
use relayswarm.Neighbours.Bounds.{SmallEntry, IsSmall, same-IsSmall, with_entry-IsSmall, live-Small}
use relayswarm.Neighbours.Bounds.Steps.{
  delivered_in-IsSmall, rearm_in-IsSmall, verified_in-IsSmall, demand-IsSmall, hint-IsSmall,
  holder_miss-IsSmall, forgotten_by-Small, Keeps,
}

untouched-IsSmall : (d e : Discovery) → Untouched d e → IsSmall d → IsSmall e
untouched-IsSmall d e u v = same-IsSmall d e u.0.0 u.0.1 u.1 v

replaced_in-IsSmall :
    (o : Option Window) (p : Text) (now : ℕ) (d : Discovery)
    → IsSmall d
    → IsSmall (replaced_in o (window_context o d) p now d).0
replaced_in-IsSmall none p now d v = v
replaced_in-IsSmall (some w) p now d v =
    go (live_context w.kind w.context d) (live-Small w.kind w.context d v)
  where
    go : (o : Option Context) → SmallEntry o → IsSmall (replaced_in (some w) o p now d).0
    go none s = v
    go (some c) s =
        if_keeps Keeps (spent c) (d, false) (spend w c p now d, true) v
          (with_entry-IsSmall w.kind _ _ s (same-IsSmall d _ refl refl refl v))

replaced-IsSmall :
    (a : Attempt) (p : Text) (now : ℕ) (d : Discovery) → IsSmall d → IsSmall (replaced a p now d).0
unfolding replaced
replaced-IsSmall a p now d v =
    if_keeps Keeps (not (valid a now d)) (d, false)
      (replaced_in d.window (window_context d.window d) p now d) v
      (replaced_in-IsSmall d.window p now d v)

call-IsSmall : (c : Call) (d : Discovery) → IsSmall d → IsSmall (call c d)
unfolding call holder_delivered rearm verified forget clear
call-IsSmall (hints p have ticket now) d v = hint-IsSmall p have ticket now d v
call-IsSmall (demands kind r key now) d v = demand-IsSmall kind r key now d v
call-IsSmall (misses kind id p key now) d v = holder_miss-IsSmall kind id p key now d v
call-IsSmall (delivers kind id p) d v =
    delivered_in-IsSmall (live_context kind id d) kind p d (live-Small kind id d v) v
call-IsSmall (rearms kind id b now) d v =
    rearm_in-IsSmall (live_context kind id d) kind b now d (live-Small kind id d v) v
call-IsSmall (verifies kind id) d v =
    verified_in-IsSmall (live_context kind id d) kind d (live-Small kind id d v) v
call-IsSmall (forgets p) d v = record {
  candidates_bounded = v.candidates_bounded;
  candidates_small = v.candidates_small;
  candidates_distinct = v.candidates_distinct;
  main_small = forgotten_by-Small p d.main_context v.main_small;
  audio_small = forgotten_by-Small p d.audio_context v.audio_small;
}
call-IsSmall (chooses a now) d v = untouched-IsSmall d _ (choose-Counted d a now).0 v
call-IsSmall (begins f now) d v = untouched-IsSmall d _ (begin-Untouched d f now) v
call-IsSmall (replaces a p now) d v = replaced-IsSmall a p now d v
call-IsSmall (allocates a dial) d v = untouched-IsSmall d _ (allocated-Untouched d a dial) v
call-IsSmall (abandons a) d v = untouched-IsSmall d _ (abandoned-Untouched d a) v
call-IsSmall (fails dial) d v = untouched-IsSmall d _ (failed-Untouched d dial) v
call-IsSmall (ends id) d v = untouched-IsSmall d _ (end_window-Untouched d id) v
call-IsSmall clears d v = record {
  candidates_bounded = omega arith;
  candidates_small = tt;
  candidates_distinct = tt;
  main_small = tt;
  audio_small = tt;
}

calls-IsSmall : (cs : List Call) (d : Discovery) → IsSmall d → IsSmall (calls cs d)
unfolding calls
calls-IsSmall [] d v = v
calls-IsSmall (c ∷ cs) d v = calls-IsSmall cs (call c d) (call-IsSmall c d v)

-- Whatever calls are made, in whatever order, at most 64 candidates with at most 8 keys each are kept,
-- no two of them with the same public key, and each context keeps at most 2 demanded keys and at most
-- 8 holders.
pub calls-new_discovery-IsSmall : (cs : List Call) → IsSmall (calls cs new_discovery)
calls-new_discovery-IsSmall cs = calls-IsSmall cs new_discovery (record {
  candidates_bounded = omega arith;
  candidates_small = tt;
  candidates_distinct = tt;
  main_small = tt;
  audio_small = tt;
})

-- ===== src/Neighbours/Frugal/Runs.antt =====
-- The replacements over any calls (src/browser/neighbour-discovery.mjs).
use relayswarm.Base.{
  if_keeps, if_cases, ℕ, ◌+◌, ◌≡◌, ◌∙◌, refl, ap, Bool, true, false, not, ◌||◌, Option, none, some,
  List, [], ◌∷◌, Text, delete, is_hex64, arith,
}
use relayswarm.Neighbours.State.{
  Discovery, Context, MediaType, main, audio, Attempt, Window, entry, with_entry, new_discovery,
  live_context,
}
use relayswarm.Neighbours.Holders.{
  holder_miss, miss_in, holder_delivered, delivered_in, rearm, rearm_in, rearm_spent, verified,
  verified_in, forget, forgotten_by,
}
use relayswarm.Neighbours.Window.{spent, choose}
use relayswarm.Neighbours.Attempts.{
  spend, valid, window_context, replaced_in, replaced, clear, begin, allocated, abandoned, failed,
  end_window,
}
use relayswarm.Neighbours.Untouched.{
  Untouched, choose-Counted, begin-Untouched, allocated-Untouched, abandoned-Untouched,
  failed-Untouched, end_window-Untouched,
}
use relayswarm.Neighbours.Calls.{
  Call, hints, demands, misses, delivers, rearms, verifies, forgets, chooses, begins, replaces,
  allocates, abandons, fails, ends, clears, call, calls,
}
use relayswarm.Neighbours.Frugal.{
  unspent_at, unspent, IsFrugal, paid-IsFrugal, is_id-unspent, live-IsFrugal, hint-IsFrugal,
  demand-IsFrugal,
}

abbrev Keeps : Discovery × Bool → Type 0
Keeps r = IsFrugal r.0

holder_miss-IsFrugal :
    (kind : MediaType) (id : ℕ) (p key : Text) (now : ℕ) (d : Discovery)
    → IsFrugal d
    → IsFrugal (holder_miss kind id p key now d).0
unfolding holder_miss
holder_miss-IsFrugal kind id p key now d h =
    if_keeps Keeps (not (is_hex64 p) || not (is_hex64 key)) (d, false) _ h
      (in_context (live_context kind id d) refl)
  where
    in_context :
        (o : Option Context) → live_context kind id d ≡ o → IsFrugal (miss_in o kind p key now d).0
    in_context none e = h
    in_context (some c) e = live-IsFrugal kind id d c _ e refl h

delivered_in-IsFrugal :
    (o : Option Context) (kind : MediaType) (id : ℕ) (p : Text) (d : Discovery)
    → live_context kind id d ≡ o
    → IsFrugal d
    → IsFrugal (delivered_in o kind p d)
delivered_in-IsFrugal none kind id p d e h = h
delivered_in-IsFrugal (some c) kind id p d e h =
    live-IsFrugal kind id d c (record c { holders = delete p c.holders }) e refl h

rearm_in-IsFrugal :
    (o : Option Context) (kind : MediaType) (b : Bool) (now : ℕ) (d : Discovery)
    → IsFrugal d
    → IsFrugal (rearm_in o kind b now d).0
rearm_in-IsFrugal none kind b now d h = h
rearm_in-IsFrugal (some c) kind b now d h =
    if_keeps Keeps (rearm_spent c.spent_at c b now) _ (d, false)
      (paid-IsFrugal kind (record c { spent_at = none }) d (record d { rearmed = d.rearmed + 1 }) h
        refl refl refl (omega arith))
      h

verified_in-IsFrugal :
    (o : Option Context) (kind : MediaType) (d : Discovery)
    → IsFrugal d
    → IsFrugal (verified_in o kind d).0
verified_in-IsFrugal none kind d h = h
verified_in-IsFrugal (some c) kind d h =
    paid-IsFrugal kind (record c { spent_at = none }) d
      (record d { verified_count = d.verified_count + 1 }) h refl refl refl (omega arith)

unspent-forgotten_by : (p : Text) (o : Option Context) → unspent (forgotten_by p o) ≡ unspent o
unspent-forgotten_by p none = refl
unspent-forgotten_by p (some c) = refl

-- What a replacement costs is what the context allowed.
spend-IsFrugal :
    (w : Window) (c : Context) (p : Text) (now : ℕ) (d : Discovery)
    → unspent (entry w.kind d) ≡ 1
    → IsFrugal d
    → IsFrugal (spend w c p now d)
spend-IsFrugal w c p now d one h = go w.kind one
  where
    go :
        (kind : MediaType)
        → unspent (entry kind d) ≡ 1
        → IsFrugal (
            with_entry kind
              (record c { spent_at = some now })
              (record d {
                window = some (record w { vacant = true; victim = some p });
                replacements = d.replacements + 1;
              }))
    go main one = omega (arith, one, h)
    go audio one = omega (arith, one, h)

spent-unspent_at : (c : Context) → spent c ≡ false → unspent_at c.spent_at ≡ 1
spent-unspent_at c e = go c.spent_at e
  where
    go : (o : Option ℕ) → spent (record c { spent_at = o }) ≡ false → unspent_at o ≡ 1
    go none e = refl
    go (some n) e = absurd (cc e)

replaced_in-IsFrugal :
    (o : Option Window) (p : Text) (now : ℕ) (d : Discovery)
    → IsFrugal d
    → IsFrugal (replaced_in o (window_context o d) p now d).0
replaced_in-IsFrugal none p now d h = h
replaced_in-IsFrugal (some w) p now d h = go (live_context w.kind w.context d) refl
  where
    go :
        (o : Option Context)
        → live_context w.kind w.context d ≡ o
        → IsFrugal (replaced_in (some w) o p now d).0
    go none e = h
    go (some c) e =
        if_cases Keeps (spent c) (d, false) (spend w c p now d, true) (λ s. h)
          (λ s.
            spend-IsFrugal w c p now d
              (is_id-unspent (entry w.kind d) w.context c e ∙ spent-unspent_at c s) h)

replaced-IsFrugal :
    (a : Attempt) (p : Text) (now : ℕ) (d : Discovery)
    → IsFrugal d
    → IsFrugal (replaced a p now d).0
unfolding replaced
replaced-IsFrugal a p now d h =
    if_keeps Keeps (not (valid a now d)) (d, false)
      (replaced_in d.window (window_context d.window d) p now d) h
      (replaced_in-IsFrugal d.window p now d h)

untouched-IsFrugal : (d e : Discovery) → Untouched d e → IsFrugal d → IsFrugal e
untouched-IsFrugal d e ((_, m), a, r, v, k, n) h =
    omega (arith, ap unspent m, ap unspent a, r, v, k, n, h)

call-IsFrugal : (c : Call) (d : Discovery) → IsFrugal d → IsFrugal (call c d)
unfolding call holder_delivered rearm verified forget clear
call-IsFrugal (hints p have ticket now) d h = hint-IsFrugal p have ticket now d h
call-IsFrugal (demands kind r key now) d h = demand-IsFrugal kind r key now d h
call-IsFrugal (misses kind id p key now) d h = holder_miss-IsFrugal kind id p key now d h
call-IsFrugal (delivers kind id p) d h =
    delivered_in-IsFrugal (live_context kind id d) kind id p d refl h
call-IsFrugal (rearms kind id b now) d h = rearm_in-IsFrugal (live_context kind id d) kind b now d h
call-IsFrugal (verifies kind id) d h = verified_in-IsFrugal (live_context kind id d) kind d h
call-IsFrugal (forgets p) d h =
    omega (arith, unspent-forgotten_by p d.main_context, unspent-forgotten_by p d.audio_context, h)
call-IsFrugal (chooses a now) d h =
    untouched-IsFrugal d (choose a now d).1 (choose-Counted d a now).0 h
call-IsFrugal (begins f now) d h =
    untouched-IsFrugal d (begin f now d).1 (begin-Untouched d f now) h
call-IsFrugal (replaces a p now) d h = replaced-IsFrugal a p now d h
call-IsFrugal (allocates a dial) d h =
    untouched-IsFrugal d (allocated a dial d) (allocated-Untouched d a dial) h
call-IsFrugal (abandons a) d h = untouched-IsFrugal d (abandoned a d) (abandoned-Untouched d a) h
call-IsFrugal (fails dial) d h = untouched-IsFrugal d (failed dial d) (failed-Untouched d dial) h
call-IsFrugal (ends id) d h = untouched-IsFrugal d (end_window id d).0 (end_window-Untouched d id) h
call-IsFrugal clears d h = omega (arith, h)

calls-IsFrugal : (cs : List Call) (d : Discovery) → IsFrugal d → IsFrugal (calls cs d)
unfolding calls
calls-IsFrugal [] d h = h
calls-IsFrugal (c ∷ cs) d h = calls-IsFrugal cs (call c d) (call-IsFrugal c d h)

-- Whatever calls are made, in whatever order, the replacements made, with one more for each context
-- that may still replace a neighbour, are at most the deliveries verified, the re-armings and the
-- contexts opened together.
pub calls-new_discovery-IsFrugal : (cs : List Call) → IsFrugal (calls cs new_discovery)
calls-new_discovery-IsFrugal cs = calls-IsFrugal cs new_discovery (omega arith)

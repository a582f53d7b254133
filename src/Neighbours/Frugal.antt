-- ===== src/Neighbours/Frugal.antt =====
-- How often a neighbour may be replaced (src/browser/neighbour-discovery.mjs).
pub mod Runs
use relayswarm.Base.{
  if_keeps, ℕ, ◌+◌, ◌≤◌, ◌≡◌, refl, sym, ap, ◌∙◌, Bool, true, false, not, ◌||◌, Option, none, some,
  List, [], ◌∷◌, Text, Map, lookup, delete, ◌==◌, is_hex64, text_eq, if◌then◌else◌, arith,
  Bool-cases, inl, inr,
}
use relayswarm.Neighbours.State.{
  Discovery, Context, Holder, MediaType, main, audio, Attempt, Window, entry, with_entry,
  new_discovery, is_id, live_context, fresh, fresh_or_null,
}
use relayswarm.Neighbours.Candidates.{hint, hinted_have}
use relayswarm.Neighbours.Contexts.{
  context, context_for, forgotten, created, reused, touched, new_context, demand, demanding, pinned,
}
use relayswarm.Neighbours.Search.{entry-with_entry}
use relayswarm.Neighbours.Holders.{
  holder_miss, miss_in, missed, holder_delivered, delivered_in, rearm, rearm_in, rearm_spent,
  verified, verified_in, forget, forgotten_by,
}
use relayswarm.Neighbours.Window.{spent}
use relayswarm.Neighbours.Attempts.{spend, valid, window_context, replaced_in, replaced, clear}
use relayswarm.Neighbours.Untouched.{
  Untouched, begin-Untouched, allocated-Untouched, abandoned-Untouched, failed-Untouched,
  end_window-Untouched,
}
use relayswarm.Neighbours.Calls.{
  Call, hints, demands, misses, delivers, rearms, verifies, forgets, chooses, begins, replaces,
  allocates, abandons, fails, ends, clears, call, calls,
}

-- A context that may still replace a neighbour counts one.
abbrev pub unspent_at : Option ℕ → ℕ
unspent_at none = 1
unspent_at (some at) = 0

abbrev pub unspent : Option Context → ℕ
unspent none = 0
unspent (some c) = unspent_at c.spent_at

-- The replacements so far, and those that the contexts still allow, are paid for by the contexts
-- opened, the deliveries verified and the re-armings.
abbrev pub IsFrugal : Discovery → Type 0
IsFrugal d =
    d.replacements + (unspent d.main_context + unspent d.audio_context)
    ≤ d.verified_count + (d.rearmed + d.next_id)

-- A context that allows no more than the one before it takes its place.
with_entry-IsFrugal :
    (kind : MediaType) (c : Context) (d : Discovery)
    → unspent (some c) ≤ unspent (entry kind d)
    → IsFrugal d
    → IsFrugal (with_entry kind c d)
with_entry-IsFrugal main c d le h = omega (arith, le, h)
with_entry-IsFrugal audio c d le h = omega (arith, le, h)

-- A context that allows one more is paid for.
pub paid-IsFrugal :
    (kind : MediaType) (c : Context) (d e : Discovery)
    → IsFrugal d
    → e.main_context ≡ d.main_context
    → e.audio_context ≡ d.audio_context
    → e.replacements ≡ d.replacements
    → e.verified_count + (e.rearmed + e.next_id) ≡ d.verified_count + (d.rearmed + d.next_id) + 1
    → IsFrugal (with_entry kind c e)
paid-IsFrugal kind c d e h m a r paid = go kind (unspent_at-le c.spent_at)
  where
    unspent_at-le : (s : Option ℕ) → unspent_at s ≤ 1
    unspent_at-le none = omega arith
    unspent_at-le (some at) = omega arith

    go : (kind : MediaType) → unspent_at c.spent_at ≤ 1 → IsFrugal (with_entry kind c e)
    go main one = omega (arith, one, h, ap unspent a, r, paid)
    go audio one = omega (arith, one, h, ap unspent m, r, paid)

pub is_id-unspent :
    (o : Option Context) (id : ℕ) (c : Context) → is_id o id ≡ some c → unspent o ≡ unspent (some c)
is_id-unspent none id c e = absurd (cc e)
is_id-unspent (some x) id c e = go (x.id == id) e
  where
    go : (b : Bool) → (if b then some x else none) ≡ some c → unspent (some x) ≡ unspent (some c)
    go true g = ap unspent g
    go false g = absurd (cc g)

-- What a call does to the context that it names.
pub live-IsFrugal :
    (kind : MediaType) (id : ℕ) (d : Discovery) (c x : Context)
    → live_context kind id d ≡ some c
    → x.spent_at ≡ c.spent_at
    → IsFrugal d
    → IsFrugal (with_entry kind x d)
live-IsFrugal kind id d c x live same h =
    with_entry-IsFrugal kind x d
      (omega (arith, is_id-unspent (entry kind d) id c live, ap unspent_at same)) h

pub hint-IsFrugal :
    (p : Text) (have : Option (List Text)) (ticket : Option Text) (now : ℕ) (d : Discovery)
    → IsFrugal d
    → IsFrugal (hint p have ticket now d)
unfolding hint
hint-IsFrugal p have ticket now d h =
    if_keeps IsFrugal (not (is_hex64 p)) d (hinted_have p have ticket now d) h (go have)
  where
    go : (have : Option (List Text)) → IsFrugal (hinted_have p have ticket now d)
    go none = h
    go (some keys) = h

touched-spent_at : (now : ℕ) (c : Context) → (touched now c).spent_at ≡ c.spent_at
touched-spent_at now c =
    if_keeps (λ x. x.spent_at ≡ c.spent_at)
      (not (fresh 30000 c.activity_at now) || not (fresh_or_null 30000 c.last_demand_at now))
      (record (forgotten c) { activity_at = now }) (record c { activity_at = now }) refl refl

-- The context that `context` gives is the entry, and nothing is spent for it.
abbrev Opens : MediaType → Context × Discovery → Type 0
Opens kind r = (entry kind r.1 ≡ some r.0) × IsFrugal r.1

context-Opens :
    (kind : MediaType) (r : Text) (now : ℕ) (d : Discovery)
    → IsFrugal d
    → Opens kind (context kind r now d)
unfolding context
context-Opens kind r now d h = go (entry kind d) refl
  where
    fresh_one : Opens kind (created kind r now d)
    fresh_one = (
      entry-with_entry kind (new_context d.next_id r now) _,
      paid-IsFrugal kind (new_context d.next_id r now) d _ h refl refl refl (omega arith),
    )

    go : (o : Option Context) → entry kind d ≡ o → Opens kind (context_for o kind r now d)
    go none e = fresh_one
    go (some c) e =
        if_keeps (Opens kind) (not (text_eq c.rendition r)) (created kind r now d)
          (reused kind now c d) fresh_one
          (
            entry-with_entry kind (touched now c) d,
            with_entry-IsFrugal kind (touched now c) d
                (omega (arith, ap unspent e, ap unspent_at (touched-spent_at now c))) h,
          )

pub demand-IsFrugal :
    (kind : MediaType) (r key : Text) (now : ℕ) (d : Discovery)
    → IsFrugal d
    → IsFrugal (demand kind r key now d)
unfolding demand
demand-IsFrugal kind r key now d h =
    let c = (context kind r now d).0 in
    let e = (context kind r now d).1 in
    let x = demanding (pinned e.window c.id now) key now c in
    let (at, f) = context-Opens kind r now d h in
    if_keeps IsFrugal (not (is_hex64 key)) e (with_entry kind x e) f
      (with_entry-IsFrugal kind x e (omega (arith, ap unspent at)) f)

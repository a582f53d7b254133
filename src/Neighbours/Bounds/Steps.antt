-- ===== src/Neighbours/Bounds/Steps.antt =====
-- The tables stay small over the calls on contexts and candidates
-- (src/browser/neighbour-discovery.mjs).
use relayswarm.Base.{
  if_keeps, ℕ, ◌+◌, ◌-◌, ◌≤◌, ◌≡◌, refl, Bool-cases, inl, inr, has-lookup, ltb, Bool, true, false,
  not, ◌||◌, Option, none, some, List, [], ◌∷◌, ◌++◌, arith, length, Text, Map, drop, insert,
  delete, lookup, has, length-take, length-drop, length-insert-le, length-delete-le,
  length-insert-has, is_hex64, text_eq,
}
use relayswarm.Neighbours.State.{
  Discovery, Context, Candidate, Holder, MediaType, entry, with_entry, live_context,
}
use relayswarm.Neighbours.Candidates.{hint, hinted_have, last_eight, unique_onto, hashes, within_64}
use relayswarm.Neighbours.Contexts.{
  context, context_for, created, touched, new_context, demand, demanding, as_list, pinned,
}
use relayswarm.Neighbours.Holders.{
  holder_miss, miss_in, missed, first_miss, delivered_in, rearm_in, rearm_spent, verified_in,
  forgotten_by,
}
use relayswarm.Neighbours.Bounds.{
  SmallContext, SmallEntry, SmallCandidates, IsSmall, same-IsSmall, entry-Small, with_entry-IsSmall,
  live-Small, delete-Small, insert-Small, drop_one-Small, IsDistinct, delete-Distinct,
  insert-Distinct, drop_one-Distinct,
}

abbrev pub Keeps : Discovery × Bool → Type 0
Keeps r = IsSmall r.0

within-Small : (m : Map Candidate) → SmallCandidates m → SmallCandidates (within_64 m)
within-Small m s = ground (arith, drop_one-Small m s)

within-Distinct : (m : Map Candidate) → IsDistinct m → IsDistinct (within_64 m)
within-Distinct m s = if_keeps IsDistinct (ltb 64 (length m)) (drop 1 m) m (drop_one-Distinct m s) s

pub hint-IsSmall :
    (p : Text) (have : Option (List Text)) (ticket : Option Text) (now : ℕ) (d : Discovery)
    → IsSmall d
    → IsSmall (hint p have ticket now d)
unfolding hint
hint-IsSmall p have ticket now d v =
    if_keeps IsSmall (not (is_hex64 p)) d (hinted_have p have ticket now d) v (go have)
  where
    go : (have : Option (List Text)) → IsSmall (hinted_have p have ticket now d)
    go none = v
    go (some keys) =
        let ks = unique_onto (hashes keys) [] in
        let c : Candidate = record { have = last_eight ks; ticket = ticket; at = now } in
        let m = insert p c (delete p d.candidates) in
        let small =
          insert-Small p c (delete p d.candidates) (omega (arith, length-drop (length ks - 8) ks))
            (delete-Small p d.candidates v.candidates_small) in
        record {
          candidates_bounded = ground (
            arith,
            v.candidates_bounded,
            length-insert-le p c (delete p d.candidates),
            length-delete-le p d.candidates,
            length-drop 1 m,
          );
          candidates_small = within-Small m small;
          candidates_distinct = within-Distinct m (
              insert-Distinct p c (delete p d.candidates)
                (delete-Distinct p d.candidates v.candidates_distinct));
          main_small = v.main_small;
          audio_small = v.audio_small;
        }

touched-Small : (now : ℕ) (c : Context) → SmallContext c → SmallContext (touched now c)
touched-Small now c s = ground (arith, s)

created-IsSmall :
    (kind : MediaType) (r : Text) (now : ℕ) (d : Discovery)
    → IsSmall d
    → SmallContext (created kind r now d).0 × IsSmall (created kind r now d).1
created-IsSmall kind r now d v =
    let small : SmallContext (new_context d.next_id r now) = (omega arith, omega arith) in
    (small, with_entry-IsSmall kind _ _ small (same-IsSmall d _ refl refl refl v))

context_for-IsSmall :
    (o : Option Context) (kind : MediaType) (r : Text) (now : ℕ) (d : Discovery)
    → SmallEntry o
    → IsSmall d
    → SmallContext (context_for o kind r now d).0 × IsSmall (context_for o kind r now d).1
context_for-IsSmall none kind r now d s v = created-IsSmall kind r now d v
context_for-IsSmall (some c) kind r now d s v = elim (Bool-cases (text_eq c.rendition r)) [
  | inl e ↦ rw e (touched-Small now c s, with_entry-IsSmall kind _ d (touched-Small now c s) v)
  | inr e ↦ rw e (created-IsSmall kind r now d v)
]

context-IsSmall :
    (kind : MediaType) (r : Text) (now : ℕ) (d : Discovery)
    → IsSmall d
    → SmallContext (context kind r now d).0 × IsSmall (context kind r now d).1
unfolding context
context-IsSmall kind r now d v =
    context_for-IsSmall (entry kind d) kind r now d (entry-Small kind d v) v

pub demand-IsSmall :
    (kind : MediaType) (r key : Text) (now : ℕ) (d : Discovery)
    → IsSmall d
    → IsSmall (demand kind r key now d)
unfolding demand
demand-IsSmall kind r key now d v =
    let small = context-IsSmall kind r now d v in
    let c = (context kind r now d).0 in
    let d' = (context kind r now d).1 in
    let first = pinned d'.window c.id now in
    if_keeps IsSmall (not (is_hex64 key)) d' (with_entry kind (demanding first key now c) d')
      small.1
      (with_entry-IsSmall kind (demanding first key now c) d'
        (omega (arith, length-take 2 (unique_onto (as_list first ++ key ∷ c.keys) [])), small.0.1)
        small.1)

length-first_miss :
    (p key : Text) (now : ℕ) (m : Map Holder) → length m ≤ 8 → length (first_miss p key now m) ≤ 8
length-first_miss p key now m h =
    let e : Holder = record { first_miss_at = now; misses = 1; last_key = key } in
    ground (arith, length-insert-le p e m, length-insert-le p e (drop 1 m), length-drop 1 m)

lookup-has : (p : Text) (m : Map Holder) (h : Holder) → lookup p m ≡ some h → has p m ≡ true
lookup-has p m h e = ground (arith, has-lookup p m)

length-missed :
    (o : Option Holder) (p key : Text) (now : ℕ) (m : Map Holder)
    → lookup p m ≡ o
    → length m ≤ 8
    → length (missed o p key now m).0 ≤ 8
length-missed none p key now m e h = length-first_miss p key now m h
length-missed (some k) p key now m e h =
    let k' : Holder = record k { misses = k.misses + 1; last_key = key } in
    ground (arith, length-insert-has p k' m (lookup-has p m k e))

miss_in-IsSmall :
    (o : Option Context) (kind : MediaType) (p key : Text) (now : ℕ) (d : Discovery)
    → SmallEntry o
    → IsSmall d
    → IsSmall (miss_in o kind p key now d).0
miss_in-IsSmall none kind p key now d s v = v
miss_in-IsSmall (some c) kind p key now d s v =
    with_entry-IsSmall kind _ d
      (s.0, length-missed (lookup p c.holders) p key now c.holders refl s.1) v

pub delivered_in-IsSmall :
    (o : Option Context) (kind : MediaType) (p : Text) (d : Discovery)
    → SmallEntry o
    → IsSmall d
    → IsSmall (delivered_in o kind p d)
delivered_in-IsSmall none kind p d s v = v
delivered_in-IsSmall (some c) kind p d s v =
    with_entry-IsSmall kind _ d (s.0, omega (arith, length-delete-le p c.holders, s.1)) v

pub rearm_in-IsSmall :
    (o : Option Context) (kind : MediaType) (b : Bool) (now : ℕ) (d : Discovery)
    → SmallEntry o
    → IsSmall d
    → IsSmall (rearm_in o kind b now d).0
rearm_in-IsSmall none kind b now d s v = v
rearm_in-IsSmall (some c) kind b now d s v =
    if_keeps Keeps (rearm_spent c.spent_at c b now) _ (d, false)
      (with_entry-IsSmall kind (record c { spent_at = none }) (record d { rearmed = d.rearmed + 1 })
        s (same-IsSmall d _ refl refl refl v))
      v

pub verified_in-IsSmall :
    (o : Option Context) (kind : MediaType) (d : Discovery)
    → SmallEntry o
    → IsSmall d
    → IsSmall (verified_in o kind d).0
verified_in-IsSmall none kind d s v = v
verified_in-IsSmall (some c) kind d s v =
    with_entry-IsSmall kind (record c { spent_at = none })
      (record d { verified_count = d.verified_count + 1 }) s (same-IsSmall d _ refl refl refl v)

pub forgotten_by-Small :
    (p : Text) (o : Option Context) → SmallEntry o → SmallEntry (forgotten_by p o)
forgotten_by-Small p none s = tt
forgotten_by-Small p (some c) s = (s.0, omega (arith, length-delete-le p c.holders, s.1))

pub holder_miss-IsSmall :
    (kind : MediaType) (id : ℕ) (p key : Text) (now : ℕ) (d : Discovery)
    → IsSmall d
    → IsSmall (holder_miss kind id p key now d).0
unfolding holder_miss
holder_miss-IsSmall kind id p key now d v =
    if_keeps Keeps (not (is_hex64 p) || not (is_hex64 key)) (d, false) _ v
      (miss_in-IsSmall (live_context kind id d) kind p key now d (live-Small kind id d v) v)

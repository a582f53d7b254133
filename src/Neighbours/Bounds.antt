-- ===== src/Neighbours/Bounds.antt =====
-- What other viewers can make the tables of src/browser/neighbour-discovery.mjs hold.
pub mod Steps
pub mod Runs
use relayswarm.Base.{
  ℕ, ◌+◌, ◌-◌, ◌≤◌, ◌≡◌, refl, sym, text_eq_refl, Bool, true, false, not, ◌||◌, Option, none, some,
  List, [], ◌∷◌, ◌++◌, arith, length, Text, Map, take, drop, insert, delete, lookup, has,
  length-take, length-drop, length-insert-le, length-delete-le, length-insert-has, is_hex64, ◌∙◌,
  lookup-delete, lookup-insert, text_eq→eq, text_eq, if◌then◌else◌,
}
use relayswarm.Neighbours.State.{
  Discovery, Context, Candidate, Holder, MediaType, main, audio, entry, with_entry, new_discovery,
  live_context, is_id,
}
use relayswarm.Neighbours.Candidates.{hint, hinted_have, last_eight, unique_onto, hashes, within_64}
use relayswarm.Neighbours.Contexts.{
  context, context_for, created, reused, touched, new_context, demand, demanding,
}
use relayswarm.Neighbours.Holders.{
  holder_miss, miss_in, missed, first_miss, holder_delivered, delivered_in, rearm, rearm_in,
  rearm_spent, verified, verified_in, forget, forgotten_by,
}

abbrev pub SmallContext : Context → Type 0
SmallContext c = (length c.keys ≤ 2) × (length c.holders ≤ 8)

abbrev pub SmallEntry : Option Context → Type 0
SmallEntry none = Unit {0}
SmallEntry (some c) = SmallContext c

abbrev pub SmallCandidates : Map Candidate → Type 0
SmallCandidates [] = Unit {0}
SmallCandidates ((p, c) ∷ m) = (length c.have ≤ 8) × SmallCandidates m

-- No two entries have the same key.
abbrev pub IsDistinct {ℓ} : {V : Type ℓ} → Map V → Type ℓ
IsDistinct [] = Unit
IsDistinct ((p, c) ∷ m) = (lookup p m ≡ none) × IsDistinct m

pub record IsSmall (d : Discovery) : Type 0 where
  pub candidates_bounded : length d.candidates ≤ 64
  pub candidates_small : SmallCandidates d.candidates
  pub candidates_distinct : IsDistinct d.candidates
  pub main_small : SmallEntry d.main_context
  pub audio_small : SmallEntry d.audio_context

-- The window and the counters are no part of it.
pub same-IsSmall :
    (d e : Discovery)
    → e.candidates ≡ d.candidates
    → e.main_context ≡ d.main_context
    → e.audio_context ≡ d.audio_context
    → IsSmall d
    → IsSmall e
same-IsSmall d e cs m a v = record {
  candidates_bounded = rw cs v.candidates_bounded;
  candidates_small = rw cs v.candidates_small;
  candidates_distinct = rw cs v.candidates_distinct;
  main_small = rw m v.main_small;
  audio_small = rw a v.audio_small;
}

pub entry-Small : (kind : MediaType) (d : Discovery) → IsSmall d → SmallEntry (entry kind d)
entry-Small main d v = v.main_small
entry-Small audio d v = v.audio_small

pub with_entry-IsSmall :
    (kind : MediaType) (c : Context) (d : Discovery)
    → SmallContext c
    → IsSmall d
    → IsSmall (with_entry kind c d)
with_entry-IsSmall main c d s v = record {
  candidates_bounded = v.candidates_bounded;
  candidates_small = v.candidates_small;
  candidates_distinct = v.candidates_distinct;
  main_small = s;
  audio_small = v.audio_small;
}
with_entry-IsSmall audio c d s v = record {
  candidates_bounded = v.candidates_bounded;
  candidates_small = v.candidates_small;
  candidates_distinct = v.candidates_distinct;
  main_small = v.main_small;
  audio_small = s;
}

is_id-Small : (o : Option Context) (id : ℕ) → SmallEntry o → SmallEntry (is_id o id)
is_id-Small none id s = tt
is_id-Small (some c) id s = ground (arith, s)

pub live-Small :
    (kind : MediaType) (id : ℕ) (d : Discovery) → IsSmall d → SmallEntry (live_context kind id d)
live-Small kind id d v = is_id-Small (entry kind d) id (entry-Small kind d v)

pub delete-Small : (p : Text) (m : Map Candidate) → SmallCandidates m → SmallCandidates (delete p m)
unfolding delete
delete-Small p [] s = tt
delete-Small p ((q, c) ∷ m) s = ground (arith, delete-Small p m s.1)

pub insert-Small :
    (p : Text) (c : Candidate) (m : Map Candidate)
    → length c.have ≤ 8
    → SmallCandidates m
    → SmallCandidates (insert p c m)
unfolding insert
insert-Small p c [] h s = (h, tt)
insert-Small p c ((q, e) ∷ m) h s = ground (arith, insert-Small p c m h s.1)

pub drop_one-Small : (m : Map Candidate) → SmallCandidates m → SmallCandidates (drop 1 m)
drop_one-Small [] s = tt
drop_one-Small (x ∷ m) s = s.1

pub delete-Distinct : (p : Text) (m : Map Candidate) → IsDistinct m → IsDistinct (delete p m)
unfolding delete
delete-Distinct p [] s = tt
delete-Distinct p ((q, c) ∷ m) s = go (text_eq q p) (lookup-delete p q m) (delete-Distinct p m s.1)
  where
    kept : (b : Bool) → (if◌then◌else◌ {A = Option Candidate} b none (lookup q m)) ≡ none
    kept true = refl
    kept false = s.0

    go :
        (b : Bool)
        → lookup q (delete p m) ≡ (if text_eq p q then none else lookup q m)
        → IsDistinct (delete p m)
        → IsDistinct (if b then delete p m else (q, c) ∷ delete p m)
    go true e rest = rest
    go false e rest = (e ∙ kept (text_eq p q), rest)

pub insert-Distinct :
    (p : Text) (c : Candidate) (m : Map Candidate) → IsDistinct m → IsDistinct (insert p c m)
unfolding insert lookup
insert-Distinct p c [] s = (refl, tt)
insert-Distinct p c ((q, e) ∷ m) s = go (text_eq q p) refl (insert-Distinct p c m s.1)
  where
    go :
        (b : Bool)
        → text_eq q p ≡ b
        → IsDistinct (insert p c m)
        → IsDistinct (if b then (p, c) ∷ m else (q, e) ∷ insert p c m)
    go true h rest = (rw (sym (text_eq→eq q p h)) s.0, s.1)
    go false h rest =
        (lookup-insert p q c m ∙ ground (arith, text_eq→eq p q, text_eq_refl q, h, s.0), rest)

pub drop_one-Distinct : (m : Map Candidate) → IsDistinct m → IsDistinct (drop 1 m)
drop_one-Distinct [] s = tt
drop_one-Distinct (x ∷ m) s = s.1

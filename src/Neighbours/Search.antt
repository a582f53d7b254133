-- ===== src/Neighbours/Search.antt =====
-- The search for a candidate and the memory of misses (src/browser/neighbour-discovery.mjs).
use mathlib.Core.Option.{some-injective, none-ne-some}
use relayswarm.Base.{
  subst, ℕ, ◌≡◌, refl, Bool, true, false, not, ◌||◌, Option, none, some, List, [], ◌∷◌, Text, Map,
  arith, lookup, delete, text_eq, text_eq_refl, lookup-delete, ◌==◌, if◌then◌else◌, Bool-cases, ◌⊎◌,
  inl, inr,
}
use relayswarm.Neighbours.State.{
  Discovery, Context, Candidate, Holder, MediaType, main, audio, fresh, entry, with_entry, is_id,
}
use relayswarm.Neighbours.Candidates.{includes, demanded, or_else, chosen, hinted_in, hinted}
use relayswarm.Neighbours.Holders.{holder_delivered, delivered_in, stale, stale_in, is_stale}

-- The candidate that was found stands in the map.
abbrev pub Known : Text → Candidate → Map Candidate → Type 0
Known p c [] = ⊥
Known p c ((q, e) ∷ m) = ((q ≡ p) × (e ≡ c)) ⊎ Known p c m

-- It is one that the search may return for these keys.
abbrev pub Helps : (Text → Candidate → Bool) → List Text → ℕ → Text → Candidate → Text → Type 0
Helps eligible keys now p c key =
    (fresh 60000 c.at now ≡ true)
    × (eligible p c ≡ true)
    × (includes key keys ≡ true)
    × (includes key c.have ≡ true)

demanded-includes :
    (ks have : List Text) (k : Text)
    → demanded ks have ≡ some k
    → (includes k ks ≡ true) × (includes k have ≡ true)
unfolding demanded includes
demanded-includes [] have k h = cc
demanded-includes (j ∷ ks) have k h = ground (arith, text_eq_refl j, demanded-includes ks have k)

abbrev pub Found :
    (Text → Candidate → Bool)
    → List Text
    → ℕ
    → Map Candidate
    → Option (Text × Candidate × Text)
    → Type 0
Found eligible keys now m o =
    (p : Text) (c : Candidate) (key : Text)
    → o ≡ some (p, c, key)
    → Known p c m × Helps eligible keys now p c key

here-Found :
    (eligible : Text → Candidate → Bool) (keys : List Text) (now : ℕ) (m : Map Candidate) (q : Text)
    (e : Candidate) (o : Option Text) (rest : Option (Text × Candidate × Text))
    → demanded keys e.have ≡ o
    → fresh 60000 e.at now ≡ true
    → eligible q e ≡ true
    → Found eligible keys now ((q, e) ∷ m) rest
    → Found eligible keys now ((q, e) ∷ m) (or_else (chosen q e o) rest)
here-Found eligible keys now m q e none rest d f el r p c key h = r p c key h
here-Found eligible keys now m q e (some k) rest d f el r p c key h =
    let a = demanded-includes keys e.have k d in
    let t : ◌≡◌ {A = Text × Candidate × Text} (q, e, k) (p, c, key) =
      some-injective (q, e, k) (p, c, key) h in
    subst (λ x. Known x.0 x.1 ((q, e) ∷ m) × Helps eligible keys now x.0 x.1 x.2) t
      (inl (refl, refl), (f, el, a.0, a.1))

pub hinted_in-Found :
    (eligible : Text → Candidate → Bool) (keys : List Text) (now : ℕ) (m : Map Candidate)
    → Found eligible keys now m (hinted_in eligible keys now m)
unfolding hinted_in
hinted_in-Found eligible keys now [] = λ p c key h. absurd (none-ne-some (p, c, key) h)
hinted_in-Found eligible keys now ((q, e) ∷ m) =
    go (fresh 60000 e.at now) refl (eligible q e) refl
      (λ p c key h. let r = hinted_in-Found eligible keys now m p c key h in (inr r.0, r.1))
  where
    go :
        (a : Bool)
        → fresh 60000 e.at now ≡ a
        → (b : Bool) → eligible q e ≡ b
        → Found eligible keys now ((q, e) ∷ m) (hinted_in eligible keys now m)
        → Found eligible keys now ((q, e) ∷ m) (
            if◌then◌else◌ {A = Option (Text × Candidate × Text)}
              (not a || not b)
              (hinted_in eligible keys now m)
              (or_else (chosen q e (demanded keys e.have)) (hinted_in eligible keys now m)))
    go false ea b eb r = r
    go true ea false eb r = r
    go true ea true eb r =
        here-Found eligible keys now m q e (demanded keys e.have) (hinted_in eligible keys now m)
          refl ea eb r

-- A candidate that the search gives for a context is one of those known, no older than 60 s and
-- eligible, and the key that it gives is both demanded by the context and held by the candidate.
pub hinted-Helps :
    (eligible : Text → Candidate → Bool) (x : Context) (now : ℕ) (d : Discovery) (p : Text)
    (c : Candidate) (key : Text)
    → hinted eligible x now d ≡ some (p, c, key)
    → Known p c d.candidates × Helps eligible x.keys now p c key
unfolding hinted
hinted-Helps eligible x now d = hinted_in-Found eligible x.keys now d.candidates

pub entry-with_entry :
    (kind : MediaType) (c : Context) (d : Discovery) → entry kind (with_entry kind c d) ≡ some c
entry-with_entry main c d = refl
entry-with_entry audio c d = refl

is_stale-delete :
    (p q : Text) (now : ℕ) (m : Map Holder)
    → is_stale (lookup q (delete p m)) now
      ≡ (if text_eq p q then false else is_stale (lookup q m) now)
is_stale-delete p q now m = rw (lookup-delete p q m) (go (text_eq p q))
  where
    go :
        (b : Bool)
        → is_stale (if b then none else lookup q m) now
          ≡ (if b then false else is_stale (lookup q m) now)
    go true = refl
    go false = refl

-- After a delivery from a link, that link is not stale for the context, and whether any other link is
-- stale for it is as before.
pub stale-holder_delivered :
    (kind : MediaType) (id : ℕ) (p q : Text) (now : ℕ) (d : Discovery)
    → stale kind id q now (holder_delivered kind id p d)
      ≡ (if text_eq p q then false else stale kind id q now d)
unfolding stale holder_delivered
stale-holder_delivered kind id p q now d = go (entry kind d) refl
  where
    go :
        (o : Option Context)
        → entry kind d ≡ o
        → stale_in (is_id (entry kind (delivered_in (is_id o id) kind p d)) id) q now
          ≡ (if text_eq p q then false else stale_in (is_id o id) q now)
    go none e = rw e (ground arith)
    go (some c) e = elim (Bool-cases (c.id == id)) [
      | inl same ↦
          rw (same, entry-with_entry kind (record c { holders = delete p c.holders }) d, same)
            (is_stale-delete p q now c.holders)
      | inr other ↦ rw (other, e, other) (ground arith)
    ]

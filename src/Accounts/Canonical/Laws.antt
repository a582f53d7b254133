-- ===== src/Accounts/Canonical/Laws.antt =====
-- The end of an account's aliases, and the sum of what is spent (src/account-upload-budget.mjs).
use relayswarm.Base.{
  ℕ, zero, suc, ◌+◌, ◌≤◌, ◌<◌, ◌≡◌, refl, ap, sym, ◌∙◌, Bool, true, false, Option, none, some, List,
  [], ◌∷◌, arith, Text, length, text_eq, text_eq_refl, text_eq→eq, if◌then◌else◌,
}
use relayswarm.Accounts.State.{Account, Entry, Funds, funds, alias_to}
use relayswarm.Accounts.Canonical.{
  find_account, set_account, visited_has, canonical_with, canonical_account, round, ended,
  entry_spent, total_spent,
}

pub find_account-set_account :
    (id j : Text) (e old : Entry) (l : List Account)
    → find_account id l ≡ some old
    → find_account j (set_account id e l) ≡ (if text_eq id j then some e else find_account j l)
unfolding find_account set_account
find_account-set_account id j e old [] h = cc
find_account-set_account id j e old (a ∷ l) h = ground (
  arith,
  text_eq→eq a.id id,
  text_eq→eq a.id j,
  text_eq→eq id j,
  text_eq_refl id,
  text_eq_refl j,
  find_account-set_account id j e old l,
)

pub total_spent-set_account :
    (id : Text) (e old : Entry) (l : List Account)
    → find_account id l ≡ some old
    → total_spent (set_account id e l) + entry_spent old ≡ total_spent l + entry_spent e
unfolding find_account set_account total_spent
total_spent-set_account id e old [] h = cc
total_spent-set_account id e old (a ∷ l) h = ground (arith, total_spent-set_account id e old l)

-- The canonical account is one of the accounts.
pub canonical_with-found :
    (fuel : ℕ) (visited : List Text) (id : Text) (l : List Account) (end : Text) (f : Funds)
    → canonical_with fuel visited id l ≡ some (some (end, f))
    → find_account end l ≡ some (funds f)
unfolding canonical_with
canonical_with-found zero visited id l end f h = cc
canonical_with-found (suc fuel) visited id l end f h =
    go (visited_has id visited) (find_account id l) refl
      (λ target. canonical_with-found fuel (id ∷ visited) target l end f) h
  where
    go :
        (b : Bool) (o : Option Entry)
        → find_account id l ≡ o
        → ((target : Text)
            → canonical_with fuel (id ∷ visited) target l ≡ some (some (end, f))
            → find_account end l ≡ some (funds f))
        → round b o id (λ target. canonical_with fuel (id ∷ visited) target l)
          ≡ some (some (end, f))
        → find_account end l ≡ some (funds f)
    go true o e ih r = cc
    go false none e ih r = cc
    go false (some (funds g)) e ih r = cc
    go false (some (alias_to target)) e ih r = ih target r

-- The accounts that have not been visited.
unvisited : List Text → List Account → ℕ
unvisited visited [] = 0
unvisited visited (a ∷ l) = (if visited_has a.id visited then 0 else 1) + unvisited visited l

unvisited_le : (visited : List Text) (l : List Account) → unvisited visited l ≤ length l
unfolding unvisited
unvisited_le visited [] = omega arith
unvisited_le visited (a ∷ l) = ground (arith, unvisited_le visited l)

unvisited_mono :
    (id : Text) (visited : List Text) (l : List Account)
    → unvisited (id ∷ visited) l ≤ unvisited visited l
unfolding unvisited visited_has
unvisited_mono id visited [] = omega arith
unvisited_mono id visited (a ∷ l) = ground (arith, unvisited_mono id visited l)

-- Visiting an account that is there leaves fewer of them.
unvisited_visit :
    (id : Text) (visited : List Text) (l : List Account) (e : Entry)
    → visited_has id visited ≡ false
    → find_account id l ≡ some e
    → unvisited (id ∷ visited) l < unvisited visited l
unfolding unvisited visited_has find_account
unvisited_visit id visited [] e v h = cc
unvisited_visit id visited (a ∷ l) e v h = ground (
  arith,
  text_eq→eq a.id id,
  text_eq_refl id,
  unvisited_mono id visited l,
  unvisited_visit id visited l e v,
)

-- With more fuel than unvisited accounts, the search has ended.
canonical_with_ends :
    (fuel : ℕ) (visited : List Text) (id : Text) (l : List Account)
    → unvisited visited l < fuel
    → (r : Option (Text × Funds)) × (canonical_with fuel visited id l ≡ some r)
unfolding canonical_with
canonical_with_ends zero visited id l h = absurd (omega arith)
canonical_with_ends (suc fuel) visited id l h =
    go (visited_has id visited) refl (find_account id l) refl
      (λ target. canonical_with_ends fuel (id ∷ visited) target l)
  where
    go :
        (b : Bool)
        → visited_has id visited ≡ b
        → (o : Option Entry) → find_account id l ≡ o
        → ((target : Text)
            → unvisited (id ∷ visited) l < fuel
            → (r : Option (Text × Funds)) × (canonical_with fuel (id ∷ visited) target l ≡ some r))
        → (r : Option (Text × Funds)) × (round b o id
              (λ target. canonical_with fuel (id ∷ visited) target l)
            ≡ some r)
    go true eb o eo ih = (none, refl)
    go false eb none eo ih = (none, refl)
    go false eb (some (funds f)) eo ih = (some (id, f), refl)
    go false eb (some (alias_to target)) eo ih =
        ih target (omega (arith, h, unvisited_visit id visited l (alias_to target) eb eo))

-- A search that has ended is the same with more fuel.
canonical_with_more :
    (n fuel : ℕ) (visited : List Text) (id : Text) (l : List Account) (r : Option (Text × Funds))
    → canonical_with fuel visited id l ≡ some r
    → canonical_with (n + fuel) visited id l ≡ some r
unfolding canonical_with
canonical_with_more n zero visited id l r h = absurd (cc h)
canonical_with_more n (suc fuel) visited id l r h =
    let e : n + suc fuel ≡ suc (n + fuel) = omega arith in
    ap (λ k. canonical_with k visited id l) e
    ∙ go (visited_has id visited) (find_account id l)
        (λ target. canonical_with_more n fuel (id ∷ visited) target l r) h
  where
    go :
        (b : Bool) (o : Option Entry)
        → ((target : Text)
            → canonical_with fuel (id ∷ visited) target l ≡ some r
            → canonical_with (n + fuel) (id ∷ visited) target l ≡ some r)
        → round b o id (λ target. canonical_with fuel (id ∷ visited) target l) ≡ some r
        → round b o id (λ target. canonical_with (n + fuel) (id ∷ visited) target l) ≡ some r
    go true o ih e = e
    go false none ih e = e
    go false (some (funds f)) ih e = e
    go false (some (alias_to target)) ih e = ih target e

-- The search for an account's canonical account ends, whatever the aliases, a cycle of them included:
-- in as many rounds as there are accounts and one more, or in any larger number of rounds, it has
-- ended, and its result is that of `canonical_account`.
pub canonical_account-ends :
    (n : ℕ) (id : Text) (l : List Account)
    → canonical_with (n + suc (length l)) [] id l ≡ some (canonical_account id l)
unfolding canonical_account
canonical_account-ends n id l =
    let (r, e) = canonical_with_ends (suc (length l)) [] id l (omega (arith, unvisited_le [] l)) in
    canonical_with_more n (suc (length l)) [] id l r e ∙ sym (ap (λ o. some (ended o)) e)

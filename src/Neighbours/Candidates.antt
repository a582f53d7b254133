-- ===== src/Neighbours/Candidates.antt =====
-- src/browser/neighbour-discovery.mjs: `hint`, and the search for a candidate.
use relayswarm.Base.{
  ℕ, ◌-◌, Bool, false, ◌||◌, not, Option, none, some, List, [], ◌∷◌, ◌++◌, Text, Map, insert,
  delete, drop, length, ltb, if◌then◌else◌, is_hex64, text_eq,
}
use relayswarm.Neighbours.State.{Discovery, Candidate, Context, fresh}

unfoldable pub includes : Text → List Text → Bool
includes k [] = false
includes k (j ∷ ks) = text_eq j k || includes k ks

-- `[...new Set(keys)]`.
unfoldable pub unique_onto : List Text → List Text → List Text
unique_onto [] seen = seen
unique_onto (k ∷ ks) seen = unique_onto ks (if includes k seen then seen else seen ++ k ∷ [])

unfoldable pub hashes : List Text → List Text
hashes [] = []
hashes (k ∷ ks) = let rest = hashes ks in if is_hex64 k then k ∷ rest else rest

-- `slice(-8)`.
abbrev pub last_eight : List Text → List Text
last_eight ks = drop (length ks - 8) ks

abbrev pub within_64 : Map Candidate → Map Candidate
within_64 m = if ltb 64 (length m) then drop 1 m else m

-- `have` is `none` where it is no array, and an element that is no string is a text that is no key;
-- `ticket` is `none` where `validTicket` refuses it.
abbrev pub hinted_have : Text → Option (List Text) → Option Text → ℕ → Discovery → Discovery
hinted_have pubkey none ticket now d = d
hinted_have pubkey (some keys) ticket now d = record d {
  candidates = within_64 (
      insert pubkey
        (record { have = last_eight (unique_onto (hashes keys) []); ticket = ticket; at = now })
        (delete pubkey d.candidates));
}

unfoldable pub hint : Text → Option (List Text) → Option Text → ℕ → Discovery → Discovery
hint pubkey have ticket now d =
    if not (is_hex64 pubkey) then d else hinted_have pubkey have ticket now d

-- `context.keys.find(value => candidate.have.includes(value))`.
unfoldable pub demanded : List Text → List Text → Option Text
demanded [] have = none
demanded (k ∷ ks) have = let rest = demanded ks have in if includes k have then some k else rest

abbrev pub or_else {ℓ} : {A : Type ℓ} → Option A → Option A → Option A
or_else none o = o
or_else (some a) o = some a

abbrev pub chosen : Text → Candidate → Option Text → Option (Text × Candidate × Text)
chosen pubkey c none = none
chosen pubkey c (some key) = some (pubkey, c, key)

-- `hinted`: the first fresh and eligible candidate that has a demanded key, and that key.
unfoldable pub hinted_in :
    (Text → Candidate → Bool) → List Text → ℕ → Map Candidate → Option (Text × Candidate × Text)
hinted_in eligible keys now [] = none
hinted_in eligible keys now ((pubkey, c) ∷ m) =
    let rest = hinted_in eligible keys now m in
    if not (fresh 60000 c.at now) || not (eligible pubkey c)
    then rest
    else or_else (chosen pubkey c (demanded keys c.have)) rest

unfoldable pub hinted :
    (Text → Candidate → Bool) → Context → ℕ → Discovery → Option (Text × Candidate × Text)
hinted eligible context now d = hinted_in eligible context.keys now d.candidates

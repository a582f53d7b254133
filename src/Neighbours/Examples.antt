-- ===== src/Neighbours/Examples.antt =====
-- The theorems on src/browser/neighbour-discovery.mjs at concrete inputs, and a test.
use relayswarm.Base.{
  ℕ, ◌≡◌, ◌++◌, refl, Bool, true, false, none, some, List, [], ◌∷◌, Text, if◌then◌else◌, text_eq,
  is_hex64, every, lookup, insert, delete,
}
use relayswarm.Neighbours.State.{Discovery, Context, Candidate, main, new_discovery}
use relayswarm.Neighbours.Candidates.{
  hinted, hinted_in, demanded, includes, hashes, unique_onto, hint,
}
use relayswarm.Neighbours.Contexts.{demand, context, new_context, demanding}
use relayswarm.Neighbours.Holders.{stale, holder_delivered, holder_miss}
use relayswarm.Neighbours.Calls.{Call, hints, demands, misses, begins, replaces, call, calls}
use relayswarm.Neighbours.Window.{Found, Asked, choose, hinting_in}
use relayswarm.Neighbours.Attempts.{begin, replaced, valid}
use relayswarm.Neighbours.Bounds.{IsSmall}
use relayswarm.Neighbours.Frugal.{IsFrugal}
use relayswarm.Neighbours.Frugal.Runs.{calls-new_discovery-IsFrugal}
use relayswarm.Neighbours.Chosen.Begun.{IsBegun, choose-begin}
use relayswarm.Neighbours.Bounds.Runs.{calls-new_discovery-IsSmall}
use relayswarm.Neighbours.Search.{Known, Helps, hinted-Helps, stale-holder_delivered}

abbrev hash_of : ℕ → Text
hash_of n =
    let eight : Text = n ∷ n ∷ n ∷ n ∷ n ∷ n ∷ n ∷ n ∷ [] in
    eight ++ (eight ++ (eight ++ (eight ++ (eight ++ (eight ++ (eight ++ eight))))))

abbrev peer : Text
peer = hash_of 97

abbrev segment : Text
segment = hash_of 98

-- The demand of a segment, a peer that has it, and four misses of that peer.
abbrev told : List Call
told =
    demands main [] segment 1000
    ∷ hints peer (some (segment ∷ [])) none 2000
    ∷ misses main 0 peer (hash_of 99) 3000
    ∷ misses main 0 peer (hash_of 100) 6000
    ∷ misses main 0 peer (hash_of 101) 9000
    ∷ misses main 0 peer (hash_of 102) 12000
    ∷ []

calls-new_discovery-IsSmall_example : IsSmall (calls told new_discovery)
calls-new_discovery-IsSmall_example = calls-new_discovery-IsSmall told

told-stale : stale main 0 peer 13000 (calls told new_discovery) ≡ true
unfolding calls call demand context hint holder_miss stale hashes unique_onto includes is_hex64
    every text_eq lookup insert delete
told-stale = refl

stale-holder_delivered_example :
    stale main 0 peer 13000 (holder_delivered main 0 peer (calls told new_discovery))
    ≡ (if text_eq peer peer then false else stale main 0 peer 13000 (calls told new_discovery))
stale-holder_delivered_example =
    stale-holder_delivered main 0 peer peer 13000 (calls told new_discovery)

abbrev demander : Context
demander = demanding none segment 1000 (new_context 0 [] 1000)

abbrev anyone : Text → Candidate → Bool
anyone p c = true

abbrev one_hint : Discovery
one_hint = record new_discovery {
  candidates = (peer, record { have = segment ∷ []; ticket = none; at = 2000 }) ∷ [];
}

hinted_once :
    hinted anyone demander 3000 one_hint
    ≡ some (peer, record { have = segment ∷ []; ticket = none; at = 2000 }, segment)
unfolding hinted hinted_in demanded includes unique_onto text_eq
hinted_once = refl

hinted-Helps_example :
    Known peer (record { have = segment ∷ []; ticket = none; at = 2000 }) one_hint.candidates
    × Helps anyone demander.keys 3000 peer
        (record { have = segment ∷ []; ticket = none; at = 2000 })
        segment
hinted-Helps_example =
    hinted-Helps anyone demander 3000 one_hint peer
      (record { have = segment ∷ []; ticket = none; at = 2000 }) segment hinted_once

abbrev asked : Asked
asked = record { eligible = anyone; unmet = λ c. true; room = true }

abbrev served : Candidate
served = record { have = segment ∷ []; ticket = none; at = 2000 }

abbrev demanding_one : Context
demanding_one = demanding none segment 1000 (new_context 0 [] 1000)

abbrev found_one : Found
found_one = record {
  kind = main;
  context = demanding_one;
  pubkey = peer;
  candidate = served;
  key = segment;
}

-- The demand and the hint, and then the replacement of a neighbour by the one that is found.
abbrev met : List Call
met = demands main [] segment 1000 ∷ hints peer (some (segment ∷ [])) none 2000 ∷ []

chosen_once : (choose asked 3000 (calls met new_discovery)).0 ≡ some found_one
unfolding choose calls call demand context hint hashes unique_onto includes is_hex64 every text_eq
    lookup insert delete hinted_in demanded hinting_in
chosen_once = refl

choose-begin_example :
    IsBegun (begin found_one 3000 (choose asked 3000 (calls met new_discovery)).1) 3000
unfolding calls call hint is_hex64 demand context
choose-begin_example = choose-begin met asked found_one 3000 chosen_once tt

abbrev turned : List Call
turned =
    demands main [] segment 1000
    ∷ hints peer (some (segment ∷ [])) none 2000
    ∷ begins found_one 3000
    ∷ replaces (record { id = 0; window = 0; pubkey = peer; ticket = none; key = segment })
        (hash_of 99) 4000
    ∷ []

turned_once : (calls turned new_discovery).replacements ≡ 1
unfolding calls call demand context hint hashes unique_onto includes is_hex64 every text_eq lookup
    insert delete begin replaced valid
turned_once = refl

calls-new_discovery-IsFrugal_example : IsFrugal (calls turned new_discovery)
calls-new_discovery-IsFrugal_example = calls-new_discovery-IsFrugal turned

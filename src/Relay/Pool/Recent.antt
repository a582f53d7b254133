-- ===== src/Relay/Pool/Recent.antt =====
-- The last values of a list, and `remember` (src/relay-session.mjs).
use relayswarm.Base.{
  ℕ, zero, suc, ◌+◌, ◌-◌, ◌≡◌, refl, sym, ap, ◌∙◌, Bool, true, false, List, [], ◌∷◌, ◌++◌, Text,
  length, drop, length-drop, length-append, drop-append, ltb, if◌then◌else◌, arith,
}
use relayswarm.Relay.Pool.State.{is_seen, remember, seen_capacity}

abbrev pub recent : List Text → List Text
recent ids = drop (length ids - seen_capacity) ids

drop_one : (m : ℕ) (xs : List Text) → drop 1 (drop m xs) ≡ drop (suc m) xs
drop_one zero xs = refl
drop_one (suc m) [] = refl
drop_one (suc m) (x ∷ xs) = drop_one m xs

-- `remember` keeps the last 10,000.
pub remember-recent :
    (id : Text) (ids : List Text) → remember id (recent ids) ≡ recent (ids ++ (id ∷ []))
unfolding remember
remember-recent id ids = go (ltb seen_capacity (length (recent ids ++ (id ∷ [])))) refl
  where
    m : ℕ
    m = length ids - seen_capacity

    size : length (recent ids ++ (id ∷ [])) ≡ length ids - m + 1
    size = omega (arith, length-append (drop m ids) (id ∷ []), length-drop m ids)

    grown : List Text
    grown = ids ++ (id ∷ [])

    grown_size : length grown ≡ length ids + 1
    grown_size = length-append ids (id ∷ [])

    inside : drop m grown ≡ drop m ids ++ (id ∷ [])
    inside = drop-append m ids (id ∷ []) (omega arith)

    go :
        (b : Bool)
        → ltb seen_capacity (length (recent ids ++ (id ∷ []))) ≡ b
        → (if b then drop 1 (recent ids ++ (id ∷ [])) else recent ids ++ (id ∷ []))
          ≡ recent (ids ++ (id ∷ []))
    go true e =
        ap (drop 1) (sym inside)
        ∙ drop_one m grown
        ∙ ap (λ k. drop k grown) {x = suc m} (ground (arith, size, grown_size, e))
    go false e = sym inside ∙ ap (λ k. drop k grown) {x = m} (ground (arith, size, grown_size, e))

-- No value is among the 10,000 before it.
pub data IsSpaced : List Text → Type 0 where
  nothing_yet : IsSpaced []
  then_new :
      (ids : List Text) (id : Text)
      → IsSpaced ids
      → is_seen id (recent ids) ≡ false
      → IsSpaced (ids ++ (id ∷ []))

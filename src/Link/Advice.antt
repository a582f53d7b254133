-- ===== src/Link/Advice.antt =====
-- src/browser/peer-link.mjs: `contribution`, `fetching` and `have`, both ways. Times are Date.now().
use relayswarm.Base.{
  ℕ, ◌+◌, ◌-◌, Bool, true, false, ◌||◌, not, Option, none, some, List, [], ◌∷◌, ◌++◌, Text, Map,
  has, insert, delete, take, drop, if◌then◌else◌, ◌==◌, ltb, leb, length, is_hex64, text_eq,
}
use relayswarm.Link.State.{
  Link, send_text, sent_have, sent_have_change, sent_contribution, sent_fetching, max_have_keys,
}

-- A rendition is null, a string, or anything else.
pub data Rendition : Type 0 where
  null : Rendition
  text : Text → Rendition
  invalid : Rendition

-- `announced`: refreshed to the end, with room made by dropping the oldest.
unfoldable pub announce : Text → ℕ → Map ℕ → Map ℕ
announce r now m =
    let rest = delete r m in insert r now (if leb 8 (length rest) then drop 1 rest else rest)

-- The entries of a map of times that are not older than 30 s, and those that have not expired.
unfoldable pub recent : ℕ → Map ℕ → Map ℕ
recent now [] = []
recent now ((k, seen) ∷ m) =
    let rest = recent now m in if ltb (seen + 30000) now then rest else (k, seen) ∷ rest

unfoldable pub unexpired : ℕ → Map ℕ → Map ℕ
unexpired now [] = []
unexpired now ((k, expires) ∷ m) =
    let rest = unexpired now m in if leb expires now then rest else (k, expires) ∷ rest

-- A key that is there, or room for one more.
unfoldable pub insert_within : ℕ → Text → ℕ → Map ℕ → Map ℕ
insert_within limit k v m = if has k m || ltb (length m) limit then insert k v m else m

abbrev pub contribute : Bool → Option Text → ℕ → Link → Link
contribute true none now l = l
contribute true (some r) now l = record l {
  renditions = insert_within 8 r now (recent now l.renditions);
}
contribute false rendition now l = record l { fetching = []; renditions = [] }

abbrev pub announce_in : Option Text → ℕ → Link → Link
announce_in none now l = l
announce_in (some r) now l = record l { announced = announce r now l.announced }

abbrev pub accept_contribution : Bool → Option Text → ℕ → Link → Link
accept_contribution serving rendition now l = contribute serving rendition now (
    announce_in rendition now
      (record l { contribution = record { serving = serving; rendition = rendition; at = now } }))

abbrev pub contribution_for : Option Bool → Rendition → ℕ → Link → Link
contribution_for none rendition now l = l
contribution_for (some serving) invalid now l = l
contribution_for (some serving) null now l = accept_contribution serving none now l
contribution_for (some serving) (text r) now l =
    if ltb 2048 (length r) then l else accept_contribution serving (some r) now l

unfoldable pub on_contribution : Option Bool → Rendition → ℕ → Link → Link
on_contribution serving rendition now l =
    if l.closed then l else contribution_for serving rendition now l

abbrev pub fetching_for : Text → ℕ → ℕ → Link → Link
fetching_for k ms now l =
    if not (is_hex64 k) || ltb 2000 ms
    then l
    else let live = unexpired now l.fetching in
      if ms == 0
      then record l { fetching = delete k live }
      else if l.contribution.serving
      then record l { fetching = insert_within 24 k (now + ms) live }
      else record l { fetching = live }

abbrev pub fetching_fields : Option Text → Option ℕ → ℕ → Link → Link
fetching_fields (some k) (some ms) now l = fetching_for k ms now l
fetching_fields _ _ now l = l

unfoldable pub on_fetching : Option Text → Option ℕ → ℕ → Link → Link
on_fetching k ms now l = if l.closed then l else fetching_fields k ms now l

-- JavaScript's Set of texts in insertion order.
unfoldable pub member : Text → List Text → Bool
member k [] = false
member k (j ∷ s) = text_eq j k || member k s

unfoldable pub add : Text → List Text → List Text
add k s = if member k s then s else s ++ k ∷ []

unfoldable pub remove : Text → List Text → List Text
remove k [] = []
remove k (j ∷ s) = let rest = remove k s in if text_eq j k then rest else j ∷ rest

-- `valid`: an element that is no string has been read as a text that is no key.
unfoldable pub keys_of : List Text → List Text
keys_of [] = []
keys_of (k ∷ ks) = let rest = keys_of ks in if is_hex64 k then k ∷ rest else rest

abbrev pub valid_keys : Option (List Text) → List Text
valid_keys none = []
valid_keys (some ks) = take max_have_keys (keys_of ks)

unfoldable pub add_all : List Text → List Text → List Text
add_all [] s = s
add_all (k ∷ ks) s = add_all ks (add k s)

-- `if (this.have.size >= MAX_HAVE_KEYS) break;` before each addition.
unfoldable pub add_bounded : List Text → List Text → List Text
add_bounded [] s = s
add_bounded (k ∷ ks) s = if leb max_have_keys (length s) then s else add_bounded ks (add k s)

unfoldable pub remove_all : List Text → List Text → List Text
remove_all [] s = s
remove_all (k ∷ ks) s = remove_all ks (remove k s)

abbrev pub replaced : Option (List Text) → List Text → List Text
replaced none s = s
replaced (some ks) s = add_all (valid_keys (some ks)) []

unfoldable pub on_have : Option (List Text) → Option (List Text) → Option (List Text) → Link → Link
on_have keys added deleted l = if l.closed then l else record l {
  have = remove_all (valid_keys deleted) (add_bounded (valid_keys added) (replaced keys l.have));
}

-- The last `n` elements, `slice(-n)`.
abbrev pub take_last {ℓ} : {A : Type ℓ} → ℕ → List A → List A
take_last n xs = drop (length xs - n) xs

unfoldable pub send_have : List Text → Link → Link
send_have keys l = (send_text (sent_have (take_last max_have_keys keys)) l).0

unfoldable pub send_have_change : List Text → List Text → Link → Link
send_have_change added deleted l =
    if ltb 0 (length added) || ltb 0 (length deleted)
    then (send_text (sent_have_change added deleted) l).0
    else l

unfoldable pub send_contribution : Bool → Option Text → Link → Link
send_contribution serving rendition l = (send_text (sent_contribution serving rendition) l).0

unfoldable pub send_fetching : Text → ℕ → Link → Link
send_fetching key lease_ms l = (send_text (sent_fetching key lease_ms) l).0

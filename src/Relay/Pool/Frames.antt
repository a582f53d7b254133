-- ===== src/Relay/Pool/Frames.antt =====
-- src/relay-session.mjs: what a relay sends, and the filters that it is asked for.
use relayswarm.Base.{
  ℕ, ◌+◌, Bool, true, false, ◌&&◌, ◌||◌, Option, none, some, List, [], ◌∷◌, Text, leb, ltb, ◌==◌,
  text_eq, if◌then◌else◌,
}
use relayswarm.Base.Int.{ℤ, pos, negsuc}
use relayswarm.Relay.Events.{RelayEvent}

-- The filters that this repository makes.
pub record Filter : Type 0 where
  pub kinds : List ℕ
  pub swarms : List Text
  pub recipients : Option (List Text)
  pub since : Option ℕ

-- An item of a frame: `no` is the JSON value false, `event` is an object.
pub data Item : Type 0 where
  text : Text → Item
  no : Item
  event : RelayEvent → Item
  other : Text → Item

-- The code outside: TextEncoder, JSON.parse (`none` where it throws, or the value is no array), and
-- matchFilter and verifyEvent of nostr-tools (`none` where they throw).
pub record Nostr : Type 0 where
  pub utf8_length : Text → ℕ
  pub parse_frame : Text → Option (List Item)
  pub matches : Filter → RelayEvent → Option Bool
  pub verifies : RelayEvent → Option Bool

abbrev pub max_relay_frame_bytes : ℕ
max_relay_frame_bytes = 1048576

abbrev pub lower : ℕ → ℕ
lower c = if leb b'A' c && leb c b'Z' then c + 32 else c

abbrev starts_with : Text → Text → Bool
starts_with [] t = true
starts_with (c ∷ cs) [] = false
starts_with (c ∷ cs) (d ∷ ds) = c == lower d && starts_with cs ds

abbrev contains : Text → Text → Bool
contains word [] = starts_with word []
contains word (d ∷ ds) = let rest = contains word ds in starts_with word (d ∷ ds) || rest

abbrev too : Text → Text
too word = b't' ∷ b'o' ∷ b'o' ∷ b' ' ∷ word

abbrev contains_any : List Text → Text → Bool
contains_any [] t = false
contains_any (w ∷ ws) t = contains w t || contains_any ws t

-- /created_at|timestamp|future|too (old|far|new)/i
abbrev timestamp_words : List Text
timestamp_words =
    (b'c' ∷ b'r' ∷ b'e' ∷ b'a' ∷ b't' ∷ b'e' ∷ b'd' ∷ b'_' ∷ b'a' ∷ b't' ∷ [])
    ∷ (b't' ∷ b'i' ∷ b'm' ∷ b'e' ∷ b's' ∷ b't' ∷ b'a' ∷ b'm' ∷ b'p' ∷ [])
    ∷ (b'f' ∷ b'u' ∷ b't' ∷ b'u' ∷ b'r' ∷ b'e' ∷ [])
    ∷ too (b'o' ∷ b'l' ∷ b'd' ∷ [])
    ∷ too (b'f' ∷ b'a' ∷ b'r' ∷ [])
    ∷ too (b'n' ∷ b'e' ∷ b'w' ∷ [])
    ∷ []

unfoldable pub is_timestamp_refusal : Text → Bool
is_timestamp_refusal t = contains_any timestamp_words t

-- `String(item || "")`, where the text of a falsy item is empty.
abbrev pub message_of : List Item → Text
message_of (text t ∷ rest) = t
message_of (other t ∷ rest) = t
message_of _ = []

abbrev pub is_word_ok : Text → Bool
is_word_ok t = text_eq t (b'O' ∷ b'K' ∷ [])

abbrev pub is_word_event : Text → Bool
is_word_event t = text_eq t (b'E' ∷ b'V' ∷ b'E' ∷ b'N' ∷ b'T' ∷ [])

-- What `onMessage` makes of a frame; any other frame is ignored.
pub data Reading : Type 0 where
  refusal : Item → Text → Reading
  delivery : Item → RelayEvent → Reading
  ignored : Reading

unfoldable pub read_frame : List Item → Reading
read_frame (text t ∷ i ∷ no ∷ rest) = if is_word_ok t then refusal i (message_of rest) else ignored
read_frame (text t ∷ i ∷ event e ∷ rest) = if is_word_event t then delivery i e else ignored
read_frame _ = ignored

-- `filter.since && Number.isSafeInteger(created_at) && created_at < filter.since`
abbrev pub is_before : Option ℤ → Option ℕ → Bool
is_before (some (pos c)) (some s) = ltb c s
is_before (some (negsuc n)) (some s) = ltb 0 s
is_before _ _ = false

abbrev pub is_match : Option Bool → Bool
is_match (some b) = b
is_match none = false

abbrev pub is_mismatch : Option Bool → Bool
is_mismatch (some true) = false
is_mismatch (some false) = true
is_mismatch none = false

unfoldable pub is_too_old : Nostr → Filter → RelayEvent → Bool
is_too_old n f e =
    is_mismatch (n.matches f e)
    && is_before e.created_at f.since
    && is_match (n.matches (record f { since = none }) e)

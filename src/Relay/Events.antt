-- ===== src/Relay/Events.antt =====
-- src/relay-session.mjs: Nostr events, their tags, and the tests on what they hold.
use relayswarm.Base.{
  ℕ, suc, ◌+◌, ◌-◌, Bool, false, ◌&&◌, ◌||◌, not, Option, none, some, List, [], ◌∷◌, Text, length,
  ltb, leb, ◌==◌, every, text_eq, is_word, if◌then◌else◌,
}
use relayswarm.Base.Int.{ℤ, pos, negsuc}

-- A JSON value: a string, or another value and what `String` makes of it.
pub data Value : Type 0 where
  string : Text → Value
  another : Text → Value

-- What `RegExp.test` reads.
abbrev pub shown : Value → Text
shown (string t) = t
shown (another t) = t

-- `created_at` is `none` where it is no safe integer. A tag that is no array is the empty one here,
-- which the code passes over in the same way.
pub record RelayEvent : Type 0 where
  pub id : Value
  pub pubkey : Text
  pub kind : ℕ
  pub created_at : Option ℤ
  pub tags : List (List Value)
  pub content : Text

-- `eventTagValues`.
abbrev pub tag_value : Text → List Value → Option Text
tag_value name (string n ∷ string v ∷ rest) = if text_eq n name then some v else none
tag_value name _ = none

abbrev with_value : Option Text → List Text → List Text
with_value none vs = vs
with_value (some v) vs = v ∷ vs

unfoldable pub tag_values : Text → List (List Value) → List Text
tag_values name [] = []
tag_values name (t ∷ ts) = with_value (tag_value name t) (tag_values name ts)

abbrev pub only : List Text → Option Text
only (v ∷ []) = some v
only _ = none

unfoldable pub unique_tag : Text → RelayEvent → Option Text
unfolding tag_values
unique_tag name e = only (tag_values name e.tags)

abbrev pub is_text : Text → Option Text → Bool
is_text t none = false
is_text t (some u) = text_eq u t

abbrev pub swarm_tag : Text
swarm_tag = b'x' ∷ []

abbrev pub recipient_tag : Text
recipient_tag = b'p' ∷ []

abbrev pub relayswarm_version : ℕ
relayswarm_version = 3

abbrev pub kind_presence : ℕ
kind_presence = 24170

abbrev pub kind_signal : ℕ
kind_signal = 24171

abbrev pub max_safe : ℕ
max_safe = 9007199254740991

abbrev pub saturating : ℕ → ℕ
saturating n = if leb n max_safe then n else max_safe

-- /^[a-z0-9](?:[a-z0-9-]{0,31})$/u
abbrev pub is_alphanumeric : ℕ → Bool
is_alphanumeric c = leb b'a' c && leb c b'z' || leb b'0' c && leb c b'9'

abbrev pub is_token_rest : ℕ → Bool
is_token_rest c = is_alphanumeric c || c == b'-'

unfoldable pub is_token : Text → Bool
is_token [] = false
is_token (c ∷ cs) = is_alphanumeric c && leb (length cs) 31 && every is_token_rest cs

abbrev pub valid_token : Value → Bool
unfolding is_token
valid_token (string t) = is_token t
valid_token (another t) = false

unfoldable pub is_request_id : Text → Bool
is_request_id t = not (ltb (length t) 8) && leb (length t) 64 && every is_word t

abbrev pub valid_request_id : Value → Bool
unfolding is_request_id
valid_request_id (string t) = is_request_id t
valid_request_id (another t) = false

-- The age of an event, in whole seconds; it is negative when the sender's clock is ahead.
unfoldable pub age_at : ℕ → ℤ → ℤ
age_at now (pos c) = if leb c now then pos (now - c) else negsuc (c - now - 1)
age_at now (negsuc n) = pos (now + suc n)

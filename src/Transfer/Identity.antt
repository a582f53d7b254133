-- ===== src/Transfer/Identity.antt =====
-- src/object-transfer.mjs: the identity of an object, and what a peer's JSON says of it.
use relayswarm.Base.{
  ℕ, Bool, false, ◌&&◌, not, Option, none, some, length, ltb, ◌==◌, Text, text_eq, is_hex64,
  is_word, every,
}
use relayswarm.Transfer.Frame.{Bytes}

-- The identity that both sides hold from their Nostr authorisation.
pub record Identity : Type 0 where
  pub request_id : Text
  pub sha256 : Text
  pub size : ℕ

-- The fields of a parsed JSON object: `none` where a field is missing, or is no string (no safe
-- non-negative integer for the size). A `sha256` that is no string is refused in either case: if its
-- text passes the test (as that of an array of one hash does), a later comparison with a string
-- refuses it, with another message.
pub record Claims : Type 0 where
  pub request_id : Option Text
  pub sha256 : Option Text
  pub size : Option ℕ

abbrev pub default_max_object_bytes : ℕ
default_max_object_bytes = 268435456

unfoldable pub valid_request_id : Text → Bool
valid_request_id t = not (ltb (length t) 8) && not (ltb 64 (length t)) && every is_word t

-- `validateObjectIdentity`, which throws where this is false.
unfoldable pub valid_identity : Claims → ℕ → Bool
valid_identity c max_object_bytes =
    holds valid_request_id c.request_id
    && holds is_hex64 c.sha256
    && holds (λ n. not (ltb max_object_bytes n)) c.size
  where
    holds : {A : Type 0} → (A → Bool) → Option A → Bool
    holds p none = false
    holds p (some a) = p a

abbrev pub claims_of : Identity → Claims
claims_of i = record { request_id = some i.request_id; sha256 = some i.sha256; size = some i.size }

abbrev pub is_text : Option Text → Text → Bool
is_text none t = false
is_text (some s) t = text_eq s t

abbrev pub is_size : Option ℕ → ℕ → Bool
is_size none n = false
is_size (some m) n = m == n

-- The runtime's SHA-256 and JSON, which the source calls: `parse` is `parseJsonObject`, `none` where
-- it throws.
pub record Runtime : Type 0 where
  pub sha256_hex : Bytes → Text
  pub parse : Bytes → Option Claims
  pub stringify : Claims → Bytes

-- ===== src/Accounts/Validity.antt =====
-- src/account-upload-budget.mjs: `validate`, after each operation that writes.
use relayswarm.Base.{
  ℕ, Bool, true, false, ◌&&◌, not, Option, none, some, List, [], ◌∷◌, ◌++◌, map, Text, length, leb,
  every,
}
use relayswarm.Accounts.State.{
  Account, Entry, funds, alias_to, Identity, Grant, Renewal, Operation, Data, Options, max_safe,
  is_hex_of, is_amount, methods_valid, is_method,
}
use relayswarm.Accounts.Canonical.{find_account, canonical_account, visited_has}

abbrev pub is_some {ℓ} : {A : Type ℓ} → Option A → Bool
is_some none = false
is_some (some a) = true

-- `new Set(texts).size === texts.length`.
unfoldable pub all_distinct : List Text → Bool
all_distinct [] = true
all_distinct (t ∷ ts) = not (visited_has t ts) && all_distinct ts

abbrev pub valid_entry : Entry → Bool
valid_entry (alias_to target) = is_hex_of 32 target
valid_entry (funds f) =
    is_amount f.limit
    && leb f.spent max_safe
    && leb 1 f.revision
    && leb f.revision max_safe
    && leb 1 f.generation
    && leb f.generation max_safe

abbrev pub valid_account : List Account → Account → Bool
valid_account accounts a =
    is_hex_of 32 a.id && valid_entry a.entry && is_some (canonical_account a.id accounts)

abbrev pub valid_identity : List Account → Identity → Bool
valid_identity accounts i =
    is_hex_of 64 i.id && is_method i.method && is_some (find_account i.account_id accounts)

abbrev pub hex64_or_null : Option Text → Bool
hex64_or_null none = true
hex64_or_null (some t) = is_hex_of 64 t

abbrev pub valid_renewal : Option Renewal → Bool
valid_renewal none = true
valid_renewal (some r) = is_hex_of 32 r.operation_id && is_hex_of 64 r.token

abbrev pub valid_grant : List Account → Grant → Bool
valid_grant accounts g =
    is_hex_of 64 g.token
    && is_hex_of 64 g.page_pubkey
    && methods_valid g.methods
    && is_some (find_account g.account_id accounts)
    && leb g.epoch max_safe
    && leb g.expires_at max_safe
    && leb g.delegation_expires_at max_safe
    && leb g.expires_at g.delegation_expires_at
    && hex64_or_null g.website_identity
    && valid_renewal g.renewal

abbrev pub valid_operation : List Text → Operation → Bool
valid_operation tokens o =
    visited_has o.grant tokens && is_hex_of 32 o.operation_id && is_amount o.bytes && leb 1 o.bytes

-- The key `${o.grant}:${o.operationId}`.
abbrev pub operation_key : Operation → Text
operation_key o = o.grant ++ b':' ∷ o.operation_id

abbrev pub within_capacities : Options → Data → Bool
within_capacities options d =
    leb (length d.accounts) options.account_capacity
    && leb (length d.identities) options.identity_capacity
    && leb (length d.grants) options.grant_capacity
    && leb (length d.operations) options.operation_capacity

abbrev pub ids_distinct : Data → Bool
ids_distinct d =
    all_distinct (map (λ (a : Account). a.id) d.accounts)
    && all_distinct (map (λ (i : Identity). i.id) d.identities)
    && all_distinct (map (λ (g : Grant). g.token) d.grants)
    && all_distinct (map operation_key d.operations)

-- Whether `validate(data)` returns, at this time.
unfoldable pub valid_data : Options → ℕ → Data → Bool
valid_data options at d =
    is_hex_of 64 d.secret
    && leb d.last_wall max_safe
    && leb d.last_wall at
    && within_capacities options d
    && ids_distinct d
    && every (valid_account d.accounts) d.accounts
    && every (valid_identity d.accounts) d.identities
    && every (valid_grant d.accounts) d.grants
    && every (valid_operation (map (λ (g : Grant). g.token) d.grants)) d.operations

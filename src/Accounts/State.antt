-- ===== src/Accounts/State.antt =====
-- src/account-upload-budget.mjs: the options, the ledger's state, and an operation on a copy of it.
-- Times are whole milliseconds; an operation reads both clocks once. A number that a caller sends and
-- that is no safe integer of 0 or more is one that the checks refuse in the same way: 0 for a time, a
-- count or a size, and 10^12 + 1 for a limit.
use relayswarm.Base.{
  ℕ, Bool, true, false, ◌&&◌, Option, none, some, List, [], ◌∷◌, Text, Map, length, leb, ◌==◌,
  every, text_eq, if◌then◌else◌, is_hex,
}

pub data Method : Type 0 where
  nostr : Method
  website : Method
  other_method : Method

pub record Funds : Type 0 where
  pub limit : ℕ
  pub spent : ℕ
  pub revision : ℕ
  pub generation : ℕ

-- A row of `accounts` after its `id`: an account, or an alias to another one.
pub data Entry : Type 0 where
  funds : Funds → Entry
  alias_to : Text → Entry

pub record Account : Type 0 where
  pub id : Text
  pub entry : Entry

pub record Identity : Type 0 where
  pub id : Text
  pub method : Method
  pub account_id : Text

pub record Renewal : Type 0 where
  pub operation_id : Text
  pub token : Text

pub record Grant : Type 0 where
  pub token : Text
  pub account_id : Text
  pub page_pubkey : Text
  pub methods : List Method
  pub website_identity : Option Text
  pub epoch : ℕ
  pub expires_at : ℕ
  pub delegation_expires_at : ℕ
  pub revoked : Bool
  pub renewal : Option Renewal

pub record Operation : Type 0 where
  pub grant : Text
  pub operation_id : Text
  pub bytes : ℕ
  pub accepted : Bool

pub record Data : Type 0 where
  pub secret : Text
  pub last_wall : ℕ
  pub accounts : List Account
  pub identities : List Identity
  pub grants : List Grant
  pub operations : List Operation

-- The ends of a grant and of its delegation on the monotonic clock.
pub record Expiry : Type 0 where
  pub grant_end : ℕ
  pub delegation_end : ℕ

pub record Options : Type 0 where
  pub default_limit : ℕ
  pub grant_ttl_seconds : ℕ
  pub delegation_ttl_seconds : ℕ
  pub account_capacity : ℕ
  pub identity_capacity : ℕ
  pub grant_capacity : ℕ
  pub operation_capacity : ℕ

pub record Clock : Type 0 where
  pub wall : ℕ
  pub mono : ℕ

-- The copy of the state that an operation changes, and `expiries`, which has no copy.
pub record Work : Type 0 where
  pub state : Data
  pub expiries : Map Expiry

pub data Code : Type 0 where
  state_invalid identity_unavailable grant_unavailable grant_capacity : Code
  authorisation_invalid account_capacity spend_overflow : Code
  reservation_invalid operation_conflict operation_capacity : Code
  renewal_invalid renewal_conflict : Code
  operation_cancelled clock_unavailable persistence_unavailable : Code

pub data Result {ℓ} (A : Type ℓ) : Type ℓ where
  ok : A → Result A
  err : Code → Result A

-- An operation: it changes the copy, and throws or returns.
abbrev pub Action : Type 0 → Type 0
Action A = Work → Result A × Work

abbrev pub pure : {A : Type 0} → A → Action A
pure a w = (ok a, w)

abbrev pub refuse : {A : Type 0} → Code → Action A
refuse e w = (err e, w)

infixl 5 ◌>>=◌ ◌>>◌
abbrev pub ◌>>=◌ : {A B : Type 0} → Action A → (A → Action B) → Action B
◌>>=◌ m f w = let (r, w') = m w in elim r [ ok a ↦ f a w' | err e ↦ refuse e w' ]

abbrev pub ◌>>◌ : {A B : Type 0} → Action A → Action B → Action B
m >> k = m >>= λ _. k

abbrev pub refuse_if : Bool → Code → Action (Unit {0})
refuse_if b e w = (if b then err e else ok tt, w)

abbrev pub gets : {A : Type 0} → (Data → A) → Action A
gets f w = (ok (f w.state), w)

abbrev pub modify : (Data → Data) → Action (Unit {0})
modify f w = (ok tt, record w { state = f w.state })

abbrev pub or_refuse : {A : Type 0} → Option A → Code → Action A
or_refuse none e = refuse e
or_refuse (some a) e = pure a

abbrev pub max_safe : ℕ
max_safe = 9007199254740991

abbrev pub is_hex_of : ℕ → Text → Bool
is_hex_of n t = length t == n && every is_hex t

abbrev pub is_amount : ℕ → Bool
is_amount n = leb n 1000000000000

abbrev pub methods_valid : List Method → Bool
methods_valid (nostr ∷ []) = true
methods_valid (website ∷ []) = true
methods_valid (nostr ∷ website ∷ []) = true
methods_valid _ = false

abbrev pub same_method : Method → Method → Bool
same_method nostr nostr = true
same_method website website = true
same_method other_method other_method = true
same_method _ _ = false

abbrev pub is_method : Method → Bool
is_method other_method = false
is_method _ = true

abbrev pub same_text_or_null : Option Text → Option Text → Bool
same_text_or_null none none = true
same_text_or_null (some a) (some b) = text_eq a b
same_text_or_null _ _ = false

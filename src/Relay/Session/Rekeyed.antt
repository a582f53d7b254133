-- ===== src/Relay/Session/Rekeyed.antt =====
-- `conversationKey` changes nothing of a session but its cache (src/relay-session.mjs).
use relayswarm.Base.{◌≡◌, refl, Bool, true, false, Option, none, some, [], Text, Map, if◌then◌else◌}
use relayswarm.Relay.Events.{is_text}
use relayswarm.Relay.Session.State.{Session, Outside}
use relayswarm.Relay.Session.Keys.{owned, derived_key, key_with, conversation_key}

abbrev pub with_cache : Session → Map Text → Option Text → Session
with_cache s m w = record s { conversation_keys = m; conversation_key_owner = w }

abbrev pub Rekeyed : Session → Session → Type 0
Rekeyed s t = (m : Map Text) × (w : Option Text) × (t ≡ with_cache s m w)

owned-Rekeyed : (s : Session) → Rekeyed s (owned s)
unfolding owned
owned-Rekeyed s = go (is_text s.secret_key s.conversation_key_owner)
  where
    go : (b : Bool) → Rekeyed s (if b then s else with_cache s [] (some s.secret_key))
    go true = (s.conversation_keys, s.conversation_key_owner, refl)
    go false = ([], some s.secret_key, refl)

key_with-Rekeyed :
    (o : Outside) (pubkey : Text) (w : Option Text) (s : Session)
    → Rekeyed s (key_with o pubkey w s).1
key_with-Rekeyed o pubkey (some key) s = (_, s.conversation_key_owner, refl)
key_with-Rekeyed o pubkey none s = go (o.derive s.secret_key pubkey)
  where
    go : (k : Option Text) → Rekeyed s (derived_key pubkey k s).1
    go none = (s.conversation_keys, s.conversation_key_owner, refl)
    go (some key) = (_, s.conversation_key_owner, refl)

Rekeyed-trans : (s t u : Session) → Rekeyed s t → Rekeyed t u → Rekeyed s u
Rekeyed-trans s t u (m, w, e) (m', w', e') = (m', w', cc (e, e'))

pub conversation_key-Rekeyed :
    (o : Outside) (pubkey : Text) (s : Session) → Rekeyed s (conversation_key o pubkey s).1
unfolding conversation_key
conversation_key-Rekeyed o pubkey s =
    Rekeyed-trans s (owned s) _ (owned-Rekeyed s) (key_with-Rekeyed o pubkey _ (owned s))

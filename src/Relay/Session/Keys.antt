-- ===== src/Relay/Session/Keys.antt =====
-- src/relay-session.mjs: `conversationKey`, a cache of the keys shared with other viewers.
use relayswarm.Base.{
  Option, none, some, [], ◌∷◌, Text, Map, length, leb, lookup, insert, delete, if◌then◌else◌,
}
use relayswarm.Relay.Events.{is_text}
use relayswarm.Relay.Session.State.{Session, Outside, conversation_key_capacity}

-- The code compares the key objects; here, the keys.
unfoldable pub owned : Session → Session
owned s =
    if is_text s.secret_key s.conversation_key_owner
    then s
    else record s { conversation_keys = []; conversation_key_owner = some s.secret_key }

abbrev pub without_oldest : Map Text → Map Text
without_oldest [] = []
without_oldest (k ∷ m) = m

abbrev pub make_room : Map Text → Map Text
make_room m = if leb conversation_key_capacity (length m) then without_oldest m else m

abbrev pub kept_key : Text → Text → Map Text → Session → Option Text × Session
kept_key pubkey key m s = (some key, record s { conversation_keys = insert pubkey key m })

abbrev pub derived_key : Text → Option Text → Session → Option Text × Session
derived_key pubkey none s = (none, s)
derived_key pubkey (some key) s = kept_key pubkey key (make_room s.conversation_keys) s

abbrev pub key_with : Outside → Text → Option Text → Session → Option Text × Session
key_with o pubkey (some key) s = kept_key pubkey key (delete pubkey s.conversation_keys) s
key_with o pubkey none s = derived_key pubkey (o.derive s.secret_key pubkey) s

unfoldable pub conversation_key : Outside → Text → Session → Option Text × Session
unfolding owned
conversation_key o pubkey s =
    key_with o pubkey (lookup pubkey (owned s).conversation_keys) (owned s)

-- ===== src/Relay/Session/Derived.antt =====
-- The cache of `conversationKey` and the derivation that it saves (src/relay-session.mjs).
use relayswarm.Base.{
  suc, ◌≤◌, ◌<◌, ◌≡◌, refl, sym, subst, ap, ◌∙◌, Bool, true, false, Option, none, some, [], ◌∷◌,
  Text, Map, length, leb, lookup, insert, delete, text_eq, text_eq→eq, length-insert-le,
  length-delete-le, if◌then◌else◌, arith,
}
use relayswarm.Relay.Events.{is_text}
use relayswarm.Relay.Session.State.{Session, Outside, conversation_key_capacity}
use relayswarm.Relay.Session.Keys.{
  owned, make_room, kept_key, derived_key, key_with, conversation_key,
}

length-delete_lt :
    (id key : Text) (m : Map Text) → lookup id m ≡ some key → length (delete id m) < length m
unfolding lookup delete
length-delete_lt id key [] h = absurd (cc h)
length-delete_lt id key ((j, v) ∷ m) h =
    ground (arith, length-delete-le id m, length-delete_lt id key m)

length-make_room :
    (m : Map Text)
    → length m ≤ conversation_key_capacity
    → length (make_room m) < conversation_key_capacity
length-make_room [] h = omega arith
length-make_room (k ∷ m) h = ground arith

owned-secret_key : (s : Session) → (owned s).secret_key ≡ s.secret_key
unfolding owned
owned-secret_key s = go (is_text s.secret_key s.conversation_key_owner)
  where
    go :
        (b : Bool)
        → (if b then s else record s {
          conversation_keys = [];
          conversation_key_owner = some s.secret_key;
        }).secret_key
          ≡ s.secret_key
    go true = refl
    go false = refl

module _ (o : Outside) where
  -- Every key of a map is the one that derivation gives `owner`.
  abbrev HoldsFor : Text → Map Text → Type 0
  HoldsFor owner [] = Unit {0}
  HoldsFor owner ((id, key) ∷ m) = (o.derive owner id ≡ some key) × HoldsFor owner m

  -- The keys of the cache are its owner's, and there are at most 256.
  abbrev pub IsCached : Session → Type 0
  IsCached s =
      ((owner : Text) → s.conversation_key_owner ≡ some owner → HoldsFor owner s.conversation_keys)
      × (length s.conversation_keys ≤ conversation_key_capacity)

  -- A cache of the secret key in use.
  abbrev IsOwned : Session → Type 0
  IsOwned s =
      (s.conversation_key_owner ≡ some s.secret_key)
      × HoldsFor s.secret_key s.conversation_keys
      × (length s.conversation_keys ≤ conversation_key_capacity)

  owned-IsOwned : (s : Session) → IsCached s → IsOwned (owned s)
  unfolding owned
  owned-IsOwned s (holds, few) = go s.conversation_key_owner refl
    where
      fresh : Session
      fresh = record s { conversation_keys = []; conversation_key_owner = some s.secret_key }

      choose :
          (owner : Text) (b : Bool)
          → s.conversation_key_owner ≡ some owner
          → text_eq owner s.secret_key ≡ b
          → IsOwned (if b then s else fresh)
      choose owner true e same =
          let is = e ∙ ap some (text_eq→eq owner s.secret_key same) in
          (is, holds s.secret_key is, few)
      choose owner false e same = (refl, tt, omega arith)

      go :
          (w : Option Text)
          → s.conversation_key_owner ≡ w
          → IsOwned (if is_text s.secret_key w then s else fresh)
      go none e = (refl, tt, omega arith)
      go (some owner) e = choose owner (text_eq owner s.secret_key) e refl

  HoldsFor-lookup :
      (owner id key : Text) (m : Map Text)
      → HoldsFor owner m
      → lookup id m ≡ some key
      → o.derive owner id ≡ some key
  unfolding lookup
  HoldsFor-lookup owner id key [] h found = absurd (cc found)
  HoldsFor-lookup owner id key ((j, v) ∷ m) h found =
      go (text_eq j id) refl found (HoldsFor-lookup owner id key m h.1)
    where
      go :
          (b : Bool)
          → text_eq j id ≡ b
          → (if b then some v else lookup id m) ≡ some key
          → (lookup id m ≡ some key → o.derive owner id ≡ some key)
          → o.derive owner id ≡ some key
      go true same e rest = cc (text_eq→eq j id same, h.0, e)
      go false same e rest = rest e

  HoldsFor-insert :
      (owner id key : Text) (m : Map Text)
      → o.derive owner id ≡ some key
      → HoldsFor owner m
      → HoldsFor owner (insert id key m)
  unfolding insert
  HoldsFor-insert owner id key [] derived h = (derived, tt)
  HoldsFor-insert owner id key ((j, v) ∷ m) derived h =
      go (text_eq j id) (HoldsFor-insert owner id key m derived h.1)
    where
      go :
          (b : Bool)
          → HoldsFor owner (insert id key m)
          → HoldsFor owner (if b then (id, key) ∷ m else (j, v) ∷ insert id key m)
      go true rest = (derived, h.1)
      go false rest = (h.0, rest)

  HoldsFor-delete :
      (owner id : Text) (m : Map Text) → HoldsFor owner m → HoldsFor owner (delete id m)
  unfolding delete
  HoldsFor-delete owner id [] h = tt
  HoldsFor-delete owner id ((j, v) ∷ m) h = go (text_eq j id) (HoldsFor-delete owner id m h.1)
    where
      go :
          (b : Bool)
          → HoldsFor owner (delete id m)
          → HoldsFor owner (if b then delete id m else (j, v) ∷ delete id m)
      go true rest = rest
      go false rest = (h.0, rest)

  HoldsFor-make_room :
      (owner : Text) (m : Map Text) → HoldsFor owner m → HoldsFor owner (make_room m)
  HoldsFor-make_room owner [] h = tt
  HoldsFor-make_room owner ((j, v) ∷ m) h = go (leb conversation_key_capacity (suc (length m)))
    where
      go : (b : Bool) → HoldsFor owner (if b then m else (j, v) ∷ m)
      go true = h.1
      go false = h

  -- What the source's call returns and leaves: the key that derivation gives, in a sound cache.
  abbrev pub Derives : Text → Session → Option Text × Session → Type 0
  Derives pubkey s r = (r.0 ≡ o.derive s.secret_key pubkey) × IsCached r.1

  kept_key-Derives :
      (pubkey key : Text) (m : Map Text) (s : Session)
      → s.conversation_key_owner ≡ some s.secret_key
      → o.derive s.secret_key pubkey ≡ some key
      → HoldsFor s.secret_key m
      → length m < conversation_key_capacity
      → Derives pubkey s (kept_key pubkey key m s)
  kept_key-Derives pubkey key m s own derived h few = (
    sym derived,
    (
      λ owner e.
          subst (λ w. HoldsFor w (insert pubkey key m)) (cc (own, e))
            (HoldsFor-insert s.secret_key pubkey key m derived h),
      omega (arith, length-insert-le pubkey key m),
    ),
  )

  key_with-Derives :
      (pubkey : Text) (s : Session)
      → IsOwned s
      → Derives pubkey s (key_with o pubkey (lookup pubkey s.conversation_keys) s)
  key_with-Derives pubkey s (own, holds, few) = go (lookup pubkey s.conversation_keys) refl
    where
      m : Map Text
      m = s.conversation_keys

      derive :
          (w : Option Text)
          → o.derive s.secret_key pubkey ≡ w
          → Derives pubkey s (derived_key pubkey w s)
      derive none e = (sym e, (λ owner is. subst (λ x. HoldsFor x m) (cc (own, is)) holds, few))
      derive (some key) e =
          kept_key-Derives pubkey key (make_room m) s own e
            (HoldsFor-make_room s.secret_key m holds) (length-make_room m few)

      go : (w : Option Text) → lookup pubkey m ≡ w → Derives pubkey s (key_with o pubkey w s)
      go none e = derive (o.derive s.secret_key pubkey) refl
      go (some key) e =
          kept_key-Derives pubkey key (delete pubkey m) s own
            (HoldsFor-lookup s.secret_key pubkey key m holds e)
            (HoldsFor-delete s.secret_key pubkey m holds)
            (omega (arith, length-delete_lt pubkey key m e))

  -- From a sound cache, whatever it holds and whichever secret key it was for, `conversationKey`
  -- returns just what deriving the key anew would, and leaves a sound cache of at most 256 keys.
  pub conversation_key-Derives :
      (pubkey : Text) (s : Session) → IsCached s → Derives pubkey s (conversation_key o pubkey s)
  unfolding conversation_key owned
  conversation_key-Derives pubkey s cached =
      let r = key_with-Derives pubkey (owned s) (owned-IsOwned s cached) in
      (r.0 ∙ ap (λ k. o.derive k pubkey) (owned-secret_key s), r.1)

-- ===== src/Relay/Session/Live.antt =====
-- The events of a live age, and what is signed (src/relay-session.mjs).
use relayswarm.Base.{ℕ, ◌+◌, ◌≤◌, ◌≡◌, refl, true, false, ◌||◌, some, Text, text_eq, ◌==◌, arith}
use relayswarm.Base.Int.{ℤ, pos}
use relayswarm.Relay.Events.{
  RelayEvent, age_at, kind_presence, kind_signal, unique_tag, is_text, swarm_tag,
}
use relayswarm.Relay.Session.State.{Session, Draft, Outside}
use relayswarm.Relay.Session.Receiving.{is_ahead, is_stale, receive_live, receive_aged, receive}

-- What `finalizeEvent` documents: the event carries the draft, and its author's public key.
abbrev pub Carries : Text → Draft → RelayEvent → Type 0
Carries pubkey d e =
    ((e.pubkey ≡ pubkey) × (e.kind ≡ d.kind))
    × (e.created_at ≡ some (pos d.created_at))
    × (e.tags ≡ d.tags)
    × (e.content ≡ d.content)

age_at-early : (now c : ℕ) → c ≤ now + 30 → is_ahead (age_at now (pos c)) ≡ false
unfolding age_at
age_at-early now c h = ground arith

age_at-late : (now c most : ℕ) → now ≤ c + most → is_stale (age_at now (pos c)) most ≡ false
unfolding age_at
age_at-late now c most h = ground arith

receive_aged-live :
    (o : Outside) (age : ℤ) (e : RelayEvent) (s : Session)
    → is_ahead age ≡ false
    → is_stale age s.max_event_age ≡ false
    → receive_aged o age e s ≡ receive_live o age e s
receive_aged-live o age e s early late = rw (early, late) refl

-- Another viewer's event of this swarm and of a live age.
pub receive-live :
    (o : Outside) (now c : ℕ) (e : RelayEvent) (s : Session)
    → text_eq e.pubkey s.pubkey ≡ false
    → is_text s.swarm_id (unique_tag swarm_tag e) ≡ true
    → (e.kind == kind_presence || e.kind == kind_signal) ≡ true
    → e.created_at ≡ some (pos c)
    → c ≤ now + 30
    → now ≤ c + s.max_event_age
    → receive o now e s ≡ receive_live o (age_at now (pos c)) e s
unfolding receive
receive-live o now c e s foreign here kind at_c early late =
    rw (foreign, kind, here, at_c)
      (receive_aged-live o (age_at now (pos c)) _ s (age_at-early now c early)
        (age_at-late now c s.max_event_age late))

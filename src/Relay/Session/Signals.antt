-- ===== src/Relay/Session/Signals.antt =====
-- A signal from one session to another (src/relay-session.mjs).
use relayswarm.Base.{
  arith, ℕ, ◌+◌, ◌≤◌, ◌≡◌, refl, sym, subst, ap, ◌∙◌, Bool, true, false, ◌||◌, not, Option, none,
  some, Text, text_eq, text_eq_refl, le→ltb, is_hex64, ltb, if◌then◌else◌,
}
use relayswarm.Base.Int.{ℤ, pos}
use relayswarm.Relay.Events.{
  RelayEvent, age_at, kind_signal, unique_tag, is_text, tag_values, recipient_tag, swarm_tag,
  relayswarm_version,
}
use relayswarm.Relay.Pool.State.{Pool, Outcome, returns, throws}
use relayswarm.Relay.Pool.Calls.{publish}
use relayswarm.Relay.Session.State.{
  Session, Signal, Draft, Outside, max_signal_plaintext_bytes, max_signal_ciphertext_bytes,
}
use relayswarm.Relay.Session.Keys.{conversation_key}
use relayswarm.Relay.Session.Rekeyed.{Rekeyed, conversation_key-Rekeyed}
use relayswarm.Relay.Session.Derived.{IsCached, conversation_key-Derives}
use relayswarm.Relay.Session.Live.{Carries, receive-live}
use relayswarm.Relay.Session.Sending.{
  thrown, valid_signal, signal_draft, published, seal, encrypted, send_with, send_signal,
}
use relayswarm.Relay.Session.Receiving.{signal_from, receive_signal, receive, is_version}

-- The signal as the code sends it.
abbrev pub versioned : Signal → Signal
versioned m = record m { version = some relayswarm_version }

-- What a signal that is sent has passed through.
record Passed (o : Outside) (now : ℕ) (to : Text) (m : Signal) (s : Session) (e : RelayEvent)
    : Type 0 where
  key : Text
  content : Text
  plain_fits : ltb max_signal_plaintext_bytes (o.utf8_length (o.print_signal (versioned m))) ≡ false
  is_valid : valid_signal m ≡ true
  has_key : (conversation_key o to s).0 ≡ some key
  has_content : o.encrypt (o.print_signal (versioned m)) key ≡ some content
  is_event : e ≡ o.finalize (signal_draft now s to content) s.secret_key

seal-event :
    (o : Outside) (now : ℕ) (to : Text) (w : Option Text) (s : Session) (p : Pool) (e : RelayEvent)
    → (seal o now to w s p).event ≡ some e
    → (content : Text) × (w ≡ some content)
      × (e ≡ o.finalize (signal_draft now s to content) s.secret_key)
seal-event o now to none s p e h = absurd (cc h)
seal-event o now to (some content) s p e h = go (publish event p).outcome h
  where
    event : RelayEvent
    event = o.finalize (signal_draft now s to content) s.secret_key

    go :
        (r : Outcome)
        → published r event ≡ some e
        → (c : Text) × (some content ≡ some c)
          × (e ≡ o.finalize (signal_draft now s to c) s.secret_key)
    go returns h = (content, refl, cc h)
    go throws h = absurd (cc h)

send_signal-Passed :
    (o : Outside) (now : ℕ) (to : Text) (m : Signal) (s : Session) (p : Pool) (e : RelayEvent)
    → (send_signal o now to m s p).event ≡ some e
    → Passed o now to m s e
unfolding send_signal
send_signal-Passed o now to m s p e h =
    go (is_hex64 to) (valid_signal m) refl
      (ltb max_signal_plaintext_bytes (o.utf8_length plaintext)) refl h
  where
    plaintext : Text
    plaintext = o.print_signal (versioned m)

    r : Option Text × Session
    r = conversation_key o to s

    with_key :
        (k : Option Text)
        → r.0 ≡ k
        → valid_signal m ≡ true
        → ltb max_signal_plaintext_bytes (o.utf8_length plaintext) ≡ false
        → Rekeyed s r.1
        → (seal o now to (encrypted o plaintext k) r.1 p).event ≡ some e
        → Passed o now to m s e
    with_key none ek v f same sent = absurd (cc sent)
    with_key (some key) ek v f (x, w, same) sent =
        let (content, has, is) = seal-event o now to (o.encrypt plaintext key) r.1 p e sent in
        record {
          key = key;
          content = content;
          plain_fits = f;
          is_valid = v;
          has_key = ek;
          has_content = has;
          is_event = is ∙ ap (λ t. o.finalize (signal_draft now t to content) t.secret_key) same;
        }

    go :
        (hex : Bool) (v : Bool)
        → valid_signal m ≡ v
        → (f : Bool) → ltb max_signal_plaintext_bytes (o.utf8_length plaintext) ≡ f
        → (if not hex || not v || f then thrown s p else send_with o now to plaintext r p).event
          ≡ some e
        → Passed o now to m s e
    go false v ev f ef sent = absurd (cc sent)
    go true false ev f ef sent = absurd (cc sent)
    go true true ev true ef sent = absurd (cc sent)
    go true true ev false ef sent = with_key r.0 refl ev ef (conversation_key-Rekeyed o to s) sent

receive-signal :
    (o : Outside) (now c : ℕ) (e : RelayEvent) (s : Session)
    → text_eq e.pubkey s.pubkey ≡ false
    → is_text s.swarm_id (unique_tag swarm_tag e) ≡ true
    → e.kind ≡ kind_signal
    → e.created_at ≡ some (pos c)
    → c ≤ now + 30
    → now ≤ c + s.max_event_age
    → receive o now e s ≡ receive_signal o (age_at now (pos c)) e s
receive-signal o now c e s foreign here kind at_c early late =
    receive-live o now c e s foreign here (rw kind refl) at_c early late ∙ rw kind refl

receive_signal-hands :
    (o : Outside) (age : ℤ) (e : RelayEvent) (s : Session) (m : Signal) (key plain : Text)
    → ltb max_signal_ciphertext_bytes (o.utf8_length e.content) ≡ false
    → is_text s.pubkey (unique_tag recipient_tag e) ≡ true
    → (conversation_key o e.pubkey s).0 ≡ some key
    → o.decrypt e.content key ≡ some plain
    → ltb max_signal_plaintext_bytes (o.utf8_length plain) ≡ false
    → o.parse_signal plain ≡ some m
    → is_version m.version ≡ true
    → valid_signal m ≡ true
    → (receive_signal o age e s).delivery ≡ some (signal_from e.pubkey m)
unfolding receive_signal
receive_signal-hands o age e s m key plain fits mine has opens plain_fits reads version valid =
    rw (fits, mine, has, opens, plain_fits, reads, version, valid) refl

ltb-le : (a b : ℕ) → ltb a b ≡ false → b ≤ a
ltb-le a b h = ground arith

valid_signal-versioned : (m : Signal) → valid_signal (versioned m) ≡ valid_signal m
unfolding valid_signal
valid_signal-versioned m = refl

signal_tags :
    (now : ℕ) (s : Session) (to content : Text) (e : RelayEvent)
    → e.tags ≡ (signal_draft now s to content).tags
    → (unique_tag swarm_tag e ≡ some s.swarm_id) × (unique_tag recipient_tag e ≡ some to)
unfolding unique_tag tag_values text_eq
signal_tags now s to content e h = rw h (refl, refl)

-- A signal that one session sends to the key of another reaches that session's handlers unchanged,
-- under the sender's key, whatever the state of either cache of keys. It takes that the clocks are
-- within the receiver's limits, that both are of one swarm and of different keys, and that the
-- code outside does what it documents: what is finalised carries the draft, the pair derives one
-- key, decryption undoes encryption, up to 8 KiB of text are encrypted in at most 64 KiB, and JSON
-- reads back the signal.
pub receive-send_signal :
    (o : Outside) (now later : ℕ) (sender receiver : Session) (m : Signal) (p : Pool)
    (e : RelayEvent)
    → (send_signal o now receiver.pubkey m sender p).event ≡ some e
    → IsCached o sender
    → IsCached o receiver
    → receiver.swarm_id ≡ sender.swarm_id
    → text_eq sender.pubkey receiver.pubkey ≡ false
    → now ≤ later + 30
    → later ≤ now + receiver.max_event_age
    → ((d : Draft) → Carries sender.pubkey d (o.finalize d sender.secret_key))
    → o.derive receiver.secret_key sender.pubkey ≡ o.derive sender.secret_key receiver.pubkey
    → ((t key c : Text)
        → o.utf8_length t ≤ max_signal_plaintext_bytes
        → o.encrypt t key ≡ some c
        → (o.decrypt c key ≡ some t) × (o.utf8_length c ≤ max_signal_ciphertext_bytes))
    → o.parse_signal (o.print_signal (versioned m)) ≡ some (versioned m)
    → (receive o later e receiver).delivery ≡ some (signal_from sender.pubkey (versioned m))
receive-send_signal o now later sender receiver m p e sent cached cached' swarm foreign early late
      carries pair seals reads =
    let passed = send_signal-Passed o now receiver.pubkey m sender p e sent in arrives passed
  where
    plaintext : Text
    plaintext = o.print_signal (versioned m)

    arrives :
        Passed o now receiver.pubkey m sender e
        → (receive o later e receiver).delivery ≡ some (signal_from sender.pubkey (versioned m))
    arrives h =
        let d = signal_draft now sender receiver.pubkey h.content in
        let (who, at_c, tags, content) =
          subst (Carries sender.pubkey d) (sym h.is_event) (carries d) in
        let found = signal_tags now sender receiver.pubkey h.content e tags in
        let key = sym (conversation_key-Derives o receiver.pubkey sender cached).0 ∙ h.has_key in
        let sealed =
          seals plaintext h.key h.content
            (ltb-le max_signal_plaintext_bytes (o.utf8_length plaintext) h.plain_fits)
            h.has_content in
        ap (λ r. r.delivery)
          (receive-signal o later now e receiver
            (ap (λ w. text_eq w receiver.pubkey) who.0 ∙ foreign)
            (ap (is_text receiver.swarm_id) (found.0 ∙ ap some (sym swarm))
              ∙ text_eq_refl receiver.swarm_id)
            who.1 at_c early late)
        ∙ receive_signal-hands o (age_at later (pos now)) e receiver (versioned m) h.key
            (o.print_signal (versioned m))
            (le→ltb max_signal_ciphertext_bytes (o.utf8_length e.content) (rw content sealed.1))
            (ap (is_text receiver.pubkey) found.1 ∙ text_eq_refl receiver.pubkey)
            ((conversation_key-Derives o e.pubkey receiver cached').0
              ∙ ap (o.derive receiver.secret_key) who.0
              ∙ pair
              ∙ key)
            (ap (λ w. o.decrypt w h.key) content ∙ sealed.0) h.plain_fits reads refl
            (valid_signal-versioned m ∙ h.is_valid)
        ∙ ap (λ w. some (signal_from w (versioned m))) who.0

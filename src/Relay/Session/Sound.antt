-- ===== src/Relay/Session/Sound.antt =====
-- What `receive` keeps of a session, over a history (src/relay-session.mjs).
use relayswarm.Base.{
  ℕ, suc, ◌≤◌, ◌<◌, ◌⊎◌, inl, inr, text_eq, ◌≡◌, refl, sym, subst, ap, Bool, true, false, ◌||◌,
  ◌&&◌, not, Option, none, some, List, [], ◌∷◌, ◌++◌, Text, length, length-append, leb, ltb, ◌==◌,
  if◌then◌else◌, arith,
}
use relayswarm.Base.Int.{ℤ, pos, negsuc}
use relayswarm.Relay.Events.{
  RelayEvent, age_at, kind_presence, kind_signal, unique_tag, is_text, tag_values, recipient_tag,
  swarm_tag,
}
use relayswarm.Relay.Session.State.{
  Session, Signal, Presence, Outside, clock_sample_capacity, max_signal_plaintext_bytes,
  max_signal_ciphertext_bytes, max_presence_bytes,
}
use relayswarm.Relay.Session.Sending.{valid_signal}
use relayswarm.Relay.Session.Keys.{conversation_key}
use relayswarm.Relay.Session.Rekeyed.{Rekeyed, conversation_key-Rekeyed}
use relayswarm.Relay.Session.Derived.{IsCached, conversation_key-Derives}
use relayswarm.Relay.Session.Receiving.{
  Received, nothing, read_content, hand_presence, receive_presence, make_sample_room, hand_signal,
  on_signal, on_plaintext, decrypted, signal_with, receive_signal, is_ahead, is_stale, ahead, stale,
  receive_live, receive_at, receive, is_version,
}

-- From 30 seconds ahead to the greatest age, both included.
abbrev pub IsRecent : ℕ → ℤ → Type 0
IsRecent most (pos n) = n ≤ most
IsRecent most (negsuc n) = n ≤ 29

abbrev pub AllRecent : ℕ → List ℤ → Type 0
AllRecent most [] = Unit {0}
AllRecent most (a ∷ as1) = IsRecent most a × AllRecent most as1

AllRecent-append :
    (most : ℕ) (a : ℤ) (ages : List ℤ)
    → AllRecent most ages
    → IsRecent most a
    → AllRecent most (ages ++ (a ∷ []))
AllRecent-append most a [] h r = (r, tt)
AllRecent-append most a (b ∷ ages) h r = (h.0, AllRecent-append most a ages h.1 r)

-- At most 64 samples of the clock, of accepted events alone, and a sound cache.
abbrev pub IsSampled : Session → Type 0
IsSampled s =
    (length s.signal_ages ≤ clock_sample_capacity) × AllRecent s.max_event_age s.signal_ages

abbrev pub IsSound : Outside → Session → Type 0
IsSound o s = IsSampled s × IsCached o s

AllRecent-make_sample_room :
    (most : ℕ) (ages : List ℤ) → AllRecent most ages → AllRecent most (make_sample_room ages)
AllRecent-make_sample_room most [] h = tt
AllRecent-make_sample_room most (a ∷ ages) h = go (leb clock_sample_capacity (suc (length ages)))
  where
    go : (b : Bool) → AllRecent most (if b then ages else a ∷ ages)
    go true = h.1
    go false = h

length-make_sample_room :
    (ages : List ℤ)
    → length ages ≤ clock_sample_capacity
    → length (make_sample_room ages) < clock_sample_capacity
length-make_sample_room [] h = omega arith
length-make_sample_room (a ∷ ages) h = ground arith

hand_signal-IsSound :
    (o : Outside) (age : ℤ) (from : Text) (m : Signal) (s : Session)
    → IsRecent s.max_event_age age
    → IsSound o s
    → IsSound o (hand_signal age from m s).session
hand_signal-IsSound o age from m s recent ((few, all), cached) = (
  (
    omega (
      arith,
      length-append (make_sample_room s.signal_ages) (age ∷ []),
      length-make_sample_room s.signal_ages few,
    ),
    AllRecent-append s.max_event_age age (make_sample_room s.signal_ages)
        (AllRecent-make_sample_room s.max_event_age s.signal_ages all) recent,
  ),
  cached,
)

on_plaintext-IsSound :
    (o : Outside) (age : ℤ) (from : Text) (plaintext : Option Text) (s : Session)
    → IsRecent s.max_event_age age
    → IsSound o s
    → IsSound o (on_plaintext o age from plaintext s).session
on_plaintext-IsSound o age from none s recent h = h
on_plaintext-IsSound o age from (some t) s recent h =
    go (ltb max_signal_plaintext_bytes (o.utf8_length t)) (o.parse_signal t)
  where
    check :
        (m : Signal) (b : Bool)
        → IsSound o (if b then hand_signal age from m s else nothing s).session
    check m true = hand_signal-IsSound o age from m s recent h
    check m false = h

    go :
        (b : Bool) (m : Option Signal)
        → IsSound o (if b then nothing s else on_signal age from m s).session
    go true m = h
    go false none = h
    go false (some m) = check m (is_version m.version && valid_signal m)

Rekeyed-IsSampled : (s t : Session) → Rekeyed s t → IsSampled s → IsSampled t
Rekeyed-IsSampled s t (m, w, e) h = subst IsSampled (sym e) h

Rekeyed-max_event_age : (s t : Session) → Rekeyed s t → t.max_event_age ≡ s.max_event_age
Rekeyed-max_event_age s t (m, w, e) = ap (λ u. u.max_event_age) e

receive_signal-IsSound :
    (o : Outside) (age : ℤ) (e : RelayEvent) (s : Session)
    → IsRecent s.max_event_age age
    → IsSound o s
    → IsSound o (receive_signal o age e s).session
unfolding receive_signal
receive_signal-IsSound o age e s recent h = go (
    ltb max_signal_ciphertext_bytes (o.utf8_length e.content)
    || not (is_text s.pubkey (unique_tag recipient_tag e)))
  where
    r : Option Text × Session
    r = conversation_key o e.pubkey s

    same : Rekeyed s r.1
    same = conversation_key-Rekeyed o e.pubkey s

    go : (b : Bool) → IsSound o (if b then nothing s else signal_with o age e r).session
    go true = h
    go false =
        on_plaintext-IsSound o age e.pubkey (decrypted o e.content r.0) r.1
          (subst (λ n. IsRecent n age) (sym (Rekeyed-max_event_age s r.1 same)) recent)
          (Rekeyed-IsSampled s r.1 same h.0, (conversation_key-Derives o e.pubkey s h.1).1)

receive_presence-session :
    (o : Outside) (e : RelayEvent) (s : Session) → (receive_presence o e s).session ≡ s
unfolding receive_presence
receive_presence-session o e s =
    go
      (ltb max_presence_bytes (o.utf8_length e.content)
        || not (length (tag_values recipient_tag e.tags) == 0))
      (read_content o (o.parse_presence e.content))
  where
    go :
        (b : Bool) (m : Option Presence)
        → (if b then nothing s else hand_presence e.pubkey m s).session ≡ s
    go true m = refl
    go false none = refl
    go false (some m) = refl

is_live-IsRecent :
    (most : ℕ) (age : ℤ) → is_ahead age ≡ false → is_stale age most ≡ false → IsRecent most age
is_live-IsRecent most (pos n) a b = ground arith
is_live-IsRecent most (negsuc n) a b = ground arith

-- Who may be heard, and when.
abbrev pub Accepts : ℕ → RelayEvent → Session → Type 0
Accepts now e s =
    ((c : ℤ) × (e.created_at ≡ some c) × IsRecent s.max_event_age (age_at now c))
    × (text_eq e.pubkey s.pubkey ≡ false)
    × (is_text s.swarm_id (unique_tag swarm_tag e) ≡ true)

-- An event that is handed on is one to accept, and the session stays sound.
abbrev pub Heard : Outside → ℕ → RelayEvent → Session → Received → Type 0
Heard o now e s r = IsSound o r.session × ((r.delivery ≡ none) ⊎ Accepts now e s)

receive_live-IsSound :
    (o : Outside) (age : ℤ) (e : RelayEvent) (s : Session)
    → IsRecent s.max_event_age age
    → IsSound o s
    → IsSound o (receive_live o age e s).session
receive_live-IsSound o age e s recent h = go (e.kind == kind_presence)
  where
    go :
        (b : Bool)
        → IsSound o (if b then receive_presence o e s else receive_signal o age e s).session
    go true = subst (IsSound o) (sym (receive_presence-session o e s)) h
    go false = receive_signal-IsSound o age e s recent h

-- Whatever event reaches a session of a sound state, the session keeps at most 64 samples of the
-- clock, all of events not more than 30 seconds ahead and not older than its limit, and a cache of
-- at most 256 keys, each the one that derivation gives. It hands on only an event of another
-- viewer, of just its swarm, whose age is within the same limits.
pub receive-Heard :
    (o : Outside) (now : ℕ) (e : RelayEvent) (s : Session)
    → IsSound o s
    → Heard o now e s (receive o now e s)
unfolding receive
receive-Heard o now e s h =
    go (text_eq e.pubkey s.pubkey) refl (not (e.kind == kind_presence || e.kind == kind_signal))
      (is_text s.swarm_id (unique_tag swarm_tag e)) refl
  where
    aged :
        (c : ℤ)
        → e.created_at ≡ some c
        → text_eq e.pubkey s.pubkey ≡ false
        → is_text s.swarm_id (unique_tag swarm_tag e) ≡ true
        → (a : Bool) → is_ahead (age_at now c) ≡ a
        → (b : Bool) → is_stale (age_at now c) s.max_event_age ≡ b
        → Heard o now e s (
            if a
            then ahead (age_at now c) s
            else (if b then stale s else receive_live o (age_at now c) e s))
    aged c at_c foreign here true ea b eb = (h, inl refl)
    aged c at_c foreign here false ea true eb = (h, inl refl)
    aged c at_c foreign here false ea false eb =
        let recent = is_live-IsRecent s.max_event_age (age_at now c) ea eb in
        (receive_live-IsSound o (age_at now c) e s recent h, inr ((c, at_c, recent), foreign, here))

    at_time :
        (w : Option ℤ)
        → e.created_at ≡ w
        → text_eq e.pubkey s.pubkey ≡ false
        → is_text s.swarm_id (unique_tag swarm_tag e) ≡ true
        → Heard o now e s (receive_at o now w e s)
    at_time none ew foreign here = (h, inl refl)
    at_time (some c) ew foreign here =
        aged c ew foreign here (is_ahead (age_at now c)) refl
          (is_stale (age_at now c) s.max_event_age) refl

    go :
        (own : Bool)
        → text_eq e.pubkey s.pubkey ≡ own
        → (kind : Bool) (swarm : Bool) → is_text s.swarm_id (unique_tag swarm_tag e) ≡ swarm
        → Heard o now e s
            (if own || kind || not swarm then nothing s else receive_at o now e.created_at e s)
    go true eo kind swarm es = (h, inl refl)
    go false eo true swarm es = (h, inl refl)
    go false eo false false es = (h, inl refl)
    go false eo false true es = at_time e.created_at refl eo es

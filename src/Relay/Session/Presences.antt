-- ===== src/Relay/Session/Presences.antt =====
-- A presence from one session to another (src/relay-session.mjs).
use relayswarm.Base.{
  ℕ, suc, ◌+◌, ◌≤◌, ◌≡◌, refl, sym, subst, ap, ◌∙◌, Bool, true, false, ◌||◌, ◌&&◌, not, Option,
  none, some, List, [], ◌∷◌, Text, length, every, text_eq, text_eq_refl, is_hex64, leb, ltb,
  if◌then◌else◌, arith,
}
use relayswarm.Base.Int.{pos}
use relayswarm.Relay.Events.{
  Value, string, shown, RelayEvent, kind_presence, unique_tag, is_text, tag_values, recipient_tag,
  swarm_tag, valid_token,
}
use relayswarm.Relay.Pool.State.{Pool, Outcome, returns, throws, Done}
use relayswarm.Relay.Pool.Calls.{publish}
use relayswarm.Relay.Session.State.{
  Session, Transport, Presence, Draft, Outside, max_presence_bytes,
}
use relayswarm.Relay.Session.Live.{Carries, receive-live}
use relayswarm.Relay.Session.Sending.{
  thrown, Announcement, framing_allowed, valid_transport, ticket_allowed, valid_announcement,
  distinct_from, present, announced, presence_draft, remembered, remember_presence,
  announce_presence,
}
use relayswarm.Relay.Session.Receiving.{
  presence_from, framed, read_transport, joined, read_transports, read_ticket, few_transports,
  valid_have, valid_hash, present_transports, read_presence, receive_presence, receive,
}

length-distinct_from : (met vs : List Value) → length (distinct_from met vs) ≤ length vs
unfolding distinct_from
length-distinct_from met [] = omega arith
length-distinct_from met (v ∷ vs) = ground (arith, length-distinct_from (v ∷ met) vs)

every-distinct_from :
    (q : Value → Bool) (met vs : List Value)
    → every q vs ≡ true
    → every q (distinct_from met vs) ≡ true
unfolding distinct_from every
every-distinct_from q met [] h = refl
every-distinct_from q met (v ∷ vs) h = ground (arith, every-distinct_from q (v ∷ met) vs)

length-present : (ts : List Transport) → length (present ts) ≡ length ts
length-present [] = refl
length-present (t ∷ ts) = ap (λ n. suc n) (length-present ts)

framed-allowed : (n : Option ℕ) → framing_allowed n ≡ true → framed n ≡ n
framed-allowed none h = refl
framed-allowed (some n) h = rw h refl

read_transport-valid :
    (t : Transport) → valid_transport t ≡ true → read_transport (some t) ≡ some (some t)
read_transport-valid t h =
    go (valid_token t.type) (is_hex64 (shown t.public_key)) (framing_allowed t.obj) refl h
  where
    go :
        (a b f : Bool)
        → framing_allowed t.obj ≡ f
        → (a && b && f) ≡ true
        → (if a && b then some (some (record t { obj = framed t.obj })) else none) ≡ some (some t)
    go false b f ef h = absurd (cc h)
    go true false f ef h = absurd (cc h)
    go true true false ef h = absurd (cc h)
    go true true true ef h = ap (λ w. some (some (record t { obj = w }))) (framed-allowed t.obj ef)

read_transports-present :
    (ts : List Transport)
    → every valid_transport ts ≡ true
    → read_transports (present ts) ≡ some (present ts)
unfolding read_transports every
read_transports-present [] h = refl
read_transports-present (t ∷ ts) h = go (valid_transport t) refl h (read_transports-present ts)
  where
    go :
        (b : Bool)
        → valid_transport t ≡ b
        → (b && every valid_transport ts) ≡ true
        → (every valid_transport ts ≡ true → read_transports (present ts) ≡ some (present ts))
        → joined (read_transport (some t)) (read_transports (present ts))
          ≡ some (some t ∷ present ts)
    go false e h rest = absurd (cc h)
    go true e h rest = rw (read_transport-valid t e, rest h) refl

read_ticket-allowed :
    (o : Outside) (t : Option Text) → ticket_allowed o t ≡ true → read_ticket o t ≡ t
read_ticket-allowed o none h = refl
read_ticket-allowed o (some t) h = rw h refl

-- A valid announcement is read as what was announced.
read_presence-announced :
    (o : Outside) (a : Announcement)
    → valid_announcement o a ≡ true
    → read_presence o (announced a) ≡ some (announced a)
unfolding read_presence valid_announcement
read_presence-announced o a h =
    go (ticket_allowed o a.ticket) refl (valid_token (string a.role)) refl
      (leb (length a.transports) 8) refl (leb (length a.have) 32) refl (every valid_hash a.have)
      refl (every valid_transport a.transports) refl h
  where
    hashes :
        every valid_hash a.have ≡ true
        → leb (length a.have) 32 ≡ true
        → valid_have (some (distinct_from [] a.have)) ≡ true
    hashes e few =
        let fits : leb (length (distinct_from [] a.have)) 32 ≡ true =
          ground (arith, few, length-distinct_from [] a.have) in
        rw (every-distinct_from valid_hash [] a.have e, fits) refl

    transports :
        every valid_transport a.transports ≡ true
        → leb (length a.transports) 8 ≡ true
        → few_transports (some (present a.transports)) ≡ some (present a.transports)
    transports e few =
        let fits : leb (length (present a.transports)) 8 ≡ true =
          rw (length-present a.transports) few in
        rw fits (read_transports-present a.transports e)

    go :
        (t : Bool)
        → ticket_allowed o a.ticket ≡ t
        → (r : Bool) → valid_token (string a.role) ≡ r
        → (n : Bool) → leb (length a.transports) 8 ≡ n
        → (k : Bool) → leb (length a.have) 32 ≡ k
        → (v : Bool) → every valid_hash a.have ≡ v
        → (w : Bool) → every valid_transport a.transports ≡ w
        → (t && r && n && k && v && w) ≡ true
        → (if valid_token (string a.role) && valid_have (some (distinct_from [] a.have))
            then present_transports o (announced a) (few_transports (some (present a.transports)))
            else none)
          ≡ some (announced a)
    go true et true er true en true ek true ev true ew h =
        rw (er, hashes ev ek, transports ew en, read_ticket-allowed o a.ticket et) refl
    go false et r er n en k ek v ev w ew h = absurd (cc h)
    go true et false er n en k ek v ev w ew h = absurd (cc h)
    go true et true er false en k ek v ev w ew h = absurd (cc h)
    go true et true er true en false ek v ev w ew h = absurd (cc h)
    go true et true er true en true ek false ev w ew h = absurd (cc h)
    go true et true er true en true ek true ev false ew h = absurd (cc h)

-- An announcement that is made was valid, and short enough.
announce_presence-made :
    (o : Outside) (now : ℕ) (a : Announcement) (s : Session) (p : Pool) (e : RelayEvent)
    → (announce_presence o now a s p).event ≡ some e
    → ((valid_announcement o a ≡ true)
        × (ltb max_presence_bytes (o.utf8_length (o.print_presence (announced a))) ≡ false))
      × (e ≡ o.finalize (presence_draft now s (o.print_presence (announced a))) s.secret_key)
unfolding announce_presence
announce_presence-made o now a s p e h =
    go (valid_announcement o a) refl (ltb max_presence_bytes (o.utf8_length content)) refl h
  where
    content : Text
    content = o.print_presence (announced a)

    event : RelayEvent
    event = o.finalize (presence_draft now s content) s.secret_key

    made : (d : Done) (r : Outcome) → (remembered r event s d).event ≡ some e → e ≡ event
    made d returns m = cc m
    made d throws m = absurd (cc m)

    go :
        (v : Bool)
        → valid_announcement o a ≡ v
        → (f : Bool) → ltb max_presence_bytes (o.utf8_length content) ≡ f
        → (if not v || f then thrown s p else remember_presence event s (publish event p)).event
          ≡ some e
        → ((valid_announcement o a ≡ true)
            × (ltb max_presence_bytes (o.utf8_length content) ≡ false))
          × (e ≡ event)
    go false ev f ef m = absurd (cc m)
    go true ev true ef m = absurd (cc m)
    go true ev false ef m = ((ev, ef), made (publish event p) (publish event p).outcome m)

presence_tags :
    (now : ℕ) (s : Session) (content : Text) (e : RelayEvent)
    → e.tags ≡ (presence_draft now s content).tags
    → (unique_tag swarm_tag e ≡ some s.swarm_id) × (tag_values recipient_tag e.tags ≡ [])
unfolding unique_tag tag_values text_eq
presence_tags now s content e h = rw h (refl, refl)

receive-presence :
    (o : Outside) (now c : ℕ) (e : RelayEvent) (s : Session)
    → text_eq e.pubkey s.pubkey ≡ false
    → is_text s.swarm_id (unique_tag swarm_tag e) ≡ true
    → e.kind ≡ kind_presence
    → e.created_at ≡ some (pos c)
    → c ≤ now + 30
    → now ≤ c + s.max_event_age
    → receive o now e s ≡ receive_presence o e s
receive-presence o now c e s foreign here kind at_c early late =
    receive-live o now c e s foreign here (rw kind refl) at_c early late ∙ rw kind refl

receive_presence-hands :
    (o : Outside) (e : RelayEvent) (s : Session) (m : Presence)
    → ltb max_presence_bytes (o.utf8_length e.content) ≡ false
    → tag_values recipient_tag e.tags ≡ []
    → o.parse_presence e.content ≡ some m
    → read_presence o m ≡ some m
    → (receive_presence o e s).delivery ≡ some (presence_from e.pubkey m)
unfolding receive_presence
receive_presence-hands o e s m fits alone parses reads = rw (fits, alone, parses, reads) refl

-- An announcement that one session makes reaches every other session of its swarm as it was made,
-- with repeated hashes left out. It takes that the clocks are within the receiver's limits, and that
-- the code outside does what it documents: what is finalised carries the draft, and JSON reads back
-- the presence.
pub receive-announce_presence :
    (o : Outside) (now later : ℕ) (sender receiver : Session) (a : Announcement) (p : Pool)
    (e : RelayEvent)
    → (announce_presence o now a sender p).event ≡ some e
    → receiver.swarm_id ≡ sender.swarm_id
    → text_eq sender.pubkey receiver.pubkey ≡ false
    → now ≤ later + 30
    → later ≤ now + receiver.max_event_age
    → ((d : Draft) → Carries sender.pubkey d (o.finalize d sender.secret_key))
    → o.parse_presence (o.print_presence (announced a)) ≡ some (announced a)
    → (receive o later e receiver).delivery ≡ some (presence_from sender.pubkey (announced a))
receive-announce_presence o now later sender receiver a p e made swarm foreign early late carries
      reads =
    let made1 = announce_presence-made o now a sender p e made in
    arrives made1.0.0 made1.0.1 made1.1
  where
    content : Text
    content = o.print_presence (announced a)

    arrives :
        valid_announcement o a ≡ true
        → ltb max_presence_bytes (o.utf8_length content) ≡ false
        → e ≡ o.finalize (presence_draft now sender content) sender.secret_key
        → (receive o later e receiver).delivery ≡ some (presence_from sender.pubkey (announced a))
    arrives valid fits is_event =
        let d = presence_draft now sender content in
        let (who, at_c, tags, text) = subst (Carries sender.pubkey d) (sym is_event) (carries d) in
        let found = presence_tags now sender content e tags in
        ap (λ r. r.delivery)
          (receive-presence o later now e receiver
            (ap (λ w. text_eq w receiver.pubkey) who.0 ∙ foreign)
            (ap (is_text receiver.swarm_id) (found.0 ∙ ap some (sym swarm))
              ∙ text_eq_refl receiver.swarm_id)
            who.1 at_c early late)
        ∙ receive_presence-hands o e receiver (announced a)
            (ap (λ w. ltb max_presence_bytes (o.utf8_length w)) text ∙ fits) found.1
            (ap o.parse_presence text ∙ reads) (read_presence-announced o a valid)
        ∙ ap (λ w. some (presence_from w (announced a))) who.0

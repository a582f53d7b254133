-- ===== src/Relay/Pool/Genuine.antt =====
-- Who has signed what a `RelayPool` hands out, and who has asked for it (src/relay-session.mjs).
use relayswarm.Base.{
  ◌≡◌, refl, sym, subst, Bool, true, false, none, some, List, [], ◌∷◌, ◌++◌, Text, Map, ap, ◌∙◌,
  if◌then◌else◌, lookup, lookup-insert, lookup-delete, text_eq,
}
use relayswarm.Relay.Events.{RelayEvent}
use relayswarm.Relay.Pool.Frames.{Filter, Nostr}
use relayswarm.Relay.Pool.State.{Pool, Done}
use relayswarm.Relay.Pool.Subscribed.{
  Subscribing, kept, inserted, deleted, cleared, perform-Subscribing,
}
use relayswarm.Relay.Pool.Steps.{
  dispatched, dispatched-append, Stepped, quiet, delivers, perform-Stepped,
}
use relayswarm.Relay.Pool.Runs.{
  Happening, subscribes, perform, Log, logged, run, new_log, All, run-keeps,
}

lookup_nil : (id : Text) → lookup {V = Filter} id [] ≡ none
unfolding lookup
lookup_nil id = refl

-- Every filter in force has the property `P`.
module _ (n : Nostr) (P : Filter → Type 0) where
  abbrev AllAsked : Map Filter → Type 0
  AllAsked m = (id : Text) (f : Filter) → lookup id m ≡ some f → P f

  -- A filter that is asked for has the property.
  abbrev pub Asks : Happening → Type 0
  Asks (subscribes id f) = P f
  Asks _ = Unit

  abbrev pub Genuine : RelayEvent → Type 0
  Genuine e = (f : Filter) × P f × (n.matches f e ≡ some true) × (n.verifies e ≡ some true)

  abbrev IsGenuine : Log → Type 0
  IsGenuine l = All Genuine (dispatched l.effects) × AllAsked l.pool.subscriptions

  All-append : (xs ys : List RelayEvent) → All Genuine xs → All Genuine ys → All Genuine (xs ++ ys)
  All-append [] ys gx gy = gy
  All-append (x ∷ xs) ys gx gy = (gx.0, All-append xs ys gx.1 gy)

  Stepped-Genuine :
      (p : Pool) (d : Done)
      → Stepped n p d
      → AllAsked p.subscriptions
      → All Genuine (dispatched d.effects)
  Stepped-Genuine p d (quiet none_out same) asked = rw none_out tt
  Stepped-Genuine p d (delivers e id sub f (out, i) (found, m) (unseen, v) same) asked =
      rw out ((f, asked sub f found, m, v), tt)

  Subscribing-AllAsked :
      (a : Happening) (p q : Pool)
      → Subscribing a p q
      → Asks a
      → AllAsked p.subscriptions
      → AllAsked q.subscriptions
  Subscribing-AllAsked a p q (kept e) asks asked = rw e asked
  Subscribing-AllAsked a p q (inserted id f few is e) asks asked = λ j g found.
      go j g (text_eq id j)
        (sym (lookup-insert id j f p.subscriptions) ∙ ap (lookup j) (sym e) ∙ found)
    where
      holds : P f
      holds = subst Asks is asks

      go :
          (j : Text) (g : Filter) (b : Bool)
          → (if b then some f else lookup j p.subscriptions) ≡ some g
          → P g
      go j g true h = subst P (cc h) holds
      go j g false h = asked j g h
  Subscribing-AllAsked a p q (deleted id e) asks asked = λ j g found.
      go j g (text_eq id j)
        (sym (lookup-delete id j p.subscriptions) ∙ ap (lookup j) (sym e) ∙ found)
    where
      go :
          (j : Text) (g : Filter) (b : Bool)
          → (if b then none else lookup j p.subscriptions) ≡ some g
          → P g
      go j g true h = absurd (cc h)
      go j g false h = asked j g h
  Subscribing-AllAsked a p q (cleared e) asks asked =
      rw e (λ j g found. absurd (cc (lookup_nil j, found)))

  step-IsGenuine :
      (a : Happening) (l : Log) → Asks a → IsGenuine l → IsGenuine (logged l (perform n a l.pool))
  step-IsGenuine a l asks (genuine, asked) = (
    subst (All Genuine) (sym (dispatched-append l.effects (perform n a l.pool).effects)) (
        All-append (dispatched l.effects) _ genuine
          (Stepped-Genuine l.pool _ (perform-Stepped n a l.pool) asked)),
    Subscribing-AllAsked a l.pool _ (perform-Subscribing n a l.pool) asks asked,
  )

  -- Every event that a history of a new pool hands to the handlers verifies, and is matched by a
  -- filter that the page has subscribed in that history: one with any property `P` that all the
  -- filters asked for have.
  pub run-Genuine :
      (happenings : List Happening)
      → All Asks happenings
      → All Genuine (dispatched (run n happenings new_log).effects)
  run-Genuine happenings asks =
      (run-keeps n IsGenuine Asks step-IsGenuine happenings new_log asks
        (tt, λ id f found. absurd (cc (lookup_nil id, found)))).0

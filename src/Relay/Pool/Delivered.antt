-- ===== src/Relay/Pool/Delivered.antt =====
-- The events that a `RelayPool` hands out over a history (src/relay-session.mjs).
use relayswarm.Base.{
  ◌≡◌, refl, sym, subst, ap, ◌∙◌, ◌⊎◌, inl, inr, true, false, List, [], ◌∷◌, ◌++◌, Text, append-nil,
  arith,
}
use relayswarm.Relay.Events.{Value, string, another, RelayEvent}
use relayswarm.Relay.Pool.Frames.{Nostr}
use relayswarm.Relay.Pool.State.{Done, remember, is_seen}
use relayswarm.Relay.Pool.Recent.{recent, remember-recent, IsSpaced, nothing_yet, then_new}
use relayswarm.Relay.Pool.Steps.{
  dispatched, dispatched-append, Stepped, quiet, delivers, perform-Stepped,
}
use relayswarm.Relay.Pool.Runs.{Happening, Log, logged, run, new_log, anything, run-keeps}

abbrev id_of : Value → Text
id_of (string t) = t
id_of (another t) = t

-- The identifiers of the events handed out, the oldest first.
abbrev pub ids : List RelayEvent → List Text
ids [] = []
ids (e ∷ es) = id_of e.id ∷ ids es

ids-append : (xs ys : List RelayEvent) → ids (xs ++ ys) ≡ ids xs ++ ids ys
ids-append [] ys = refl
ids-append (e ∷ es) ys = ap (◌∷◌ (id_of e.id)) (ids-append es ys)

abbrev pub handed : Log → List Text
handed l = ids (dispatched l.effects)

-- What is seen is the last of what has been handed out.
abbrev IsExact : Log → Type 0
IsExact l = IsSpaced (handed l) × ((l.pool.closed ≡ true) ⊎ (l.pool.seen ≡ recent (handed l)))

handed-logged : (l : Log) (d : Done) → handed (logged l d) ≡ handed l ++ ids (dispatched d.effects)
handed-logged l d =
    ap ids (dispatched-append l.effects d.effects)
    ∙ ids-append (dispatched l.effects) (dispatched d.effects)

handed-quiet : (l : Log) (d : Done) → dispatched d.effects ≡ [] → handed (logged l d) ≡ handed l
handed-quiet l d none_out =
    handed-logged l d ∙ ap (λ es. handed l ++ ids es) none_out ∙ append-nil (handed l)

handed-new :
    (l : Log) (d : Done) (e : RelayEvent) (id : Text)
    → dispatched d.effects ≡ e ∷ []
    → e.id ≡ string id
    → handed (logged l d) ≡ handed l ++ (id ∷ [])
handed-new l d e id out i =
    handed-logged l d ∙ ap (λ es. handed l ++ ids es) out ∙ ap (λ v. handed l ++ (id_of v ∷ [])) i

step-IsExact :
    (n : Nostr) (l : Log) (d : Done) → Stepped n l.pool d → IsExact l → IsExact (logged l d)
step-IsExact n l d (quiet none_out kept) (spaced, exact) =
    let same = handed-quiet l d none_out in
    (subst IsSpaced (sym same) spaced, ground (arith, same, kept, exact))
step-IsExact n l d (delivers e id sub f (out, i) found (unseen, v) (live, live', seen))
      (spaced, exact) =
    let grown = handed-new l d e id out i in go grown exact
  where
    go :
        handed (logged l d) ≡ handed l ++ (id ∷ [])
        → (l.pool.closed ≡ true) ⊎ (l.pool.seen ≡ recent (handed l))
        → IsExact (logged l d)
    go grown (inl shut) = cc (shut, live)
    go grown (inr last) = (
      subst IsSpaced (sym grown)
          (then_new (handed l) id spaced (subst (λ s. is_seen id s ≡ false) last unseen)),
      inr (seen ∙ ap (remember id) last ∙ remember-recent id (handed l) ∙ ap recent (sym grown)),
    )

-- In every history of a new pool, whatever its relays send and its page calls, the event handed to
-- the handlers is never one of the last 10,000 handed out before it.
pub run-IsSpaced :
    (n : Nostr) (happenings : List Happening) → IsSpaced (handed (run n happenings new_log))
run-IsSpaced n happenings =
    (run-keeps n IsExact (λ a. Unit) (λ a l u. step-IsExact n l _ (perform-Stepped n a l.pool))
      happenings new_log (anything happenings) (nothing_yet, inr refl)).0

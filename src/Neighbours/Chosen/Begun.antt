-- ===== src/Neighbours/Chosen/Begun.antt =====
-- From `choose` to `begin` and `valid` (src/browser/neighbour-discovery.mjs).
use relayswarm.Base.{
  ℕ, ◌≡◌, ◌∙◌, refl, sym, ap, Bool, true, false, ◌||◌, not, Option, none, some, List, Text,
  text_eq_refl, ◌==◌, ==_refl, leb, if◌then◌else◌, arith,
}
use relayswarm.Neighbours.State.{
  Discovery, MediaType, main, audio, Attempt, Window, entry, fresh, is_id, live_context,
  live_window, new_discovery,
}
use relayswarm.Neighbours.Contexts.{current_context, is_absent}
use relayswarm.Neighbours.Window.{Found, Asked, choose}
use relayswarm.Neighbours.Attempts.{
  new_window, opened, attempted, begin_in, begin, same_ticket, valid,
}
use relayswarm.Neighbours.Calls.{Call, calls}
use relayswarm.Neighbours.Bounds.Runs.{calls-new_discovery-IsSmall}
use relayswarm.Neighbours.Untouched.{choose-Counted}
use relayswarm.Neighbours.Chosen.{IsReady, Fits, choose_in-Ready}

-- There is an attempt, and it is valid.
abbrev pub IsBegun : Option Attempt × Discovery → ℕ → Type 0
IsBegun (none, d) now = ⊥
IsBegun (some a, d) now = valid a now d ≡ true

attempted-entry :
    (kind : MediaType) (w : Window) (f : Found) (d : Discovery)
    → entry kind (attempted w f d).1 ≡ entry kind d
attempted-entry main w f d = refl
attempted-entry audio w f d = refl

same_ticket_refl : (t : Option Text) → same_ticket t t ≡ true
same_ticket_refl none = refl
same_ticket_refl (some t) = text_eq_refl t

-- A live window without an attempt, in the context that was found.
begin_in-IsBegun :
    (w : Window) (d : Discovery) (f : Found) (now : ℕ)
    → IsReady d now f
    → Fits (some w) f
    → live_window (some w) now ≡ true
    → IsBegun (begin_in (w, d) f now) now
unfolding valid
begin_in-IsBegun w d f now (at, (current, known, young, has)) (kind, id, vacant) live =
    go (not (w.context == f.context.id) || not (is_absent w.attempt) || leb w.expires_at now)
      (rw (id, vacant) (ground (arith, live)))
  where
    kept : entry w.kind d ≡ some f.context
    kept = rw (sym kind) at

    self : is_id (some f.context) f.context.id ≡ some f.context
    self = ground (arith, ==_refl f.context.id)

    e : Discovery
    e = (attempted w f d).1

    here : live_context w.kind w.context e ≡ some f.context
    here = ap (λ o. is_id o w.context) (attempted-entry w.kind w f d ∙ kept) ∙ rw id self

    go :
        (b : Bool)
        → b ≡ false
        → IsBegun (if◌then◌else◌ {A = Option Attempt × Discovery} b (none, d) (attempted w f d)) now
    go true h = absurd (cc h)
    go false h =
        rw (here, known, same_ticket_refl f.candidate.ticket)
          (ground (arith, live, current, young, has))

new_window-live :
    (f : Found) (now : ℕ) (d : Discovery)
    → current_context (some f.context) now ≡ true
    → fresh 60000 f.candidate.at now ≡ true
    → live_window (some (new_window f now d)) now ≡ true
new_window-live f now d current young = ground (arith, current, young)

-- It is as ready where the contexts and the candidates are the same.
same-IsReady :
    (d e : Discovery) (now : ℕ) (f : Found)
    → e.candidates ≡ d.candidates
    → e.main_context ≡ d.main_context
    → e.audio_context ≡ d.audio_context
    → IsReady d now f
    → IsReady e now f
same-IsReady d e now f cs m a (at, (current, known, young, has)) =
    (go f.kind at, (current, rw cs known, young, has))
  where
    go : (kind : MediaType) → entry kind d ≡ some f.context → entry kind e ≡ some f.context
    go main at = m ∙ at
    go audio at = a ∙ at

-- The window has not expired, where one is open.
abbrev pub IsOpen : Option Window → ℕ → Type 0
IsOpen none now = Unit
IsOpen (some w) now = live_window (some w) now ≡ true

begin-IsBegun :
    (d : Discovery) (f : Found) (now : ℕ)
    → IsReady d now f
    → Fits d.window f
    → IsOpen d.window now
    → IsBegun (begin f now d) now
unfolding begin
begin-IsBegun d f now ready = go d.window
  where
    go :
        (o : Option Window)
        → Fits o f
        → IsOpen o now
        → IsBegun (begin_in (opened o f now d) f now) now
    go none fits free =
        begin_in-IsBegun (new_window f now d) (opened none f now d).1 f now
          (same-IsReady d (opened none f now d).1 now f refl refl refl ready) (refl, refl, refl)
          (new_window-live f now d ready.1.0 ready.1.2)
    go (some w) fits live = begin_in-IsBegun w d f now ready fits live

-- After any calls, a neighbour that `choose` finds can be tried at once: where the window that is open,
-- if one is, has not expired, `begin` gives an attempt, and the attempt is valid.
pub choose-begin :
    (cs : List Call) (a : Asked) (f : Found) (now : ℕ)
    → (choose a now (calls cs new_discovery)).0 ≡ some f
    → IsOpen (calls cs new_discovery).window now
    → IsBegun (begin f now (choose a now (calls cs new_discovery)).1) now
unfolding choose
choose-begin cs a f now e live =
    let d = calls cs new_discovery in
    let v = calls-new_discovery-IsSmall cs in
    let u = choose-Counted d a now in
    let (ready, fits) = choose_in-Ready d v.candidates_distinct a now d.window f e in
    begin-IsBegun (choose a now d).1 f now
      (same-IsReady d (choose a now d).1 now f u.0.0.0 u.0.0.1 u.0.1 ready) (rw u.1 fits)
      (rw u.1 live)

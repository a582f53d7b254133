-- ===== src/Neighbours/Untouched.antt =====
-- The calls on the window that leave the contexts and the candidates as they are
-- (src/browser/neighbour-discovery.mjs).
use relayswarm.Base.{
  if_keeps, ℕ, ◌≡◌, refl, Bool, true, false, ◌||◌, not, Option, none, some, leb, ◌==◌,
}
use relayswarm.Neighbours.State.{
  Discovery, Context, MediaType, main, audio, Attempt, Window, live_context,
}
use relayswarm.Neighbours.Candidates.{hinted_in}
use relayswarm.Neighbours.Contexts.{is_absent}
use relayswarm.Neighbours.Window.{
  Found, found_at, hinting_in, Asked, is_passed_over, Search, unfound, searched, search_one,
  searching, search_all, choose_in, choose,
}
use relayswarm.Neighbours.Attempts.{
  new_window, opened, attempted, begin_in, begin, is_ongoing, allocated_in, allocated, abandoned_in,
  abandoned, has_dial, failed_in, failed, end_in, end_window,
}

abbrev pub Untouched : Discovery → Discovery → Type 0
Untouched d e =
    ((e.candidates ≡ d.candidates) × (e.main_context ≡ d.main_context))
    × (e.audio_context ≡ d.audio_context)
    × (e.replacements ≡ d.replacements)
    × (e.verified_count ≡ d.verified_count)
    × (e.rearmed ≡ d.rearmed)
    × (e.next_id ≡ d.next_id)

same : (d : Discovery) → Untouched d d
same d = ((refl, refl), refl, refl, refl, refl, refl)

-- The window stays as well: only the counters may change.
abbrev pub Counted : Discovery → Discovery → Type 0
Counted d e = Untouched d e × (e.window ≡ d.window)

pub same-Counted : (d : Discovery) → Counted d d
same-Counted d = (same d, refl)

module _ (d : Discovery) where
  abbrev Keeps : Search → Type 0
  Keeps s = Counted d s.discovery

  unfound-Counted : (b : Bool) (s : Search) → Keeps s → Keeps (unfound b s)
  unfound-Counted true s u = if_keeps Keeps s.ineligible s _ u u
  unfound-Counted false s u = if_keeps Keeps s.no_hint s _ u u

  searched-Counted :
      (now : ℕ) (c : Context) (o : Option Found) (s : Search)
      → Counted d s.discovery
      → Counted d (searched now c o s).discovery
  searched-Counted now c none s u =
      unfound-Counted (hinting_in c.keys now s.discovery.candidates) s u
  searched-Counted now c (some f) s u = u

  pub search_one-Counted :
      (a : Asked) (now : ℕ) (kind : MediaType) (o : Option Context) (s : Search)
      → Counted d s.discovery
      → Counted d (search_one a now kind o s).discovery
  search_one-Counted a now kind none s u = u
  search_one-Counted a now kind (some c) s u =
      let o = found_at kind c (hinted_in a.eligible c.keys now s.discovery.candidates) in
      if_keeps Keeps (not (is_absent s.found) || is_passed_over a now c s.discovery) s
        (searched now c o s) u (searched-Counted now c o s u)

  search_all-Counted : (a : Asked) (now : ℕ) → Keeps (search_all a now d)
  search_all-Counted a now =
      if_keeps Keeps d.audio_first _ _
        (search_one-Counted a now main d.main_context _
          (search_one-Counted a now audio d.audio_context (searching d) (same-Counted d)))
        (search_one-Counted a now audio d.audio_context _
          (search_one-Counted a now main d.main_context (searching d) (same-Counted d)))

  choose_in-Counted : (o : Option Window) (a : Asked) (now : ℕ) → Keeps (choose_in o a now d)
  choose_in-Counted none a now = search_all-Counted a now
  choose_in-Counted (some w) a now =
      if_keeps Keeps (not (is_absent w.attempt)) (searching d) _ (same-Counted d) (
        search_one-Counted a now w.kind (live_context w.kind w.context d) (searching d)
          (same-Counted d))

  pub choose-Counted : (a : Asked) (now : ℕ) → Counted d (choose a now d).1
  unfolding choose
  choose-Counted a now = choose_in-Counted d.window a now

  begin_in-Untouched :
      (w : Window) (e : Discovery) (f : Found) (now : ℕ)
      → Untouched d e
      → Untouched d (begin_in (w, e) f now).1
  begin_in-Untouched w e f now u =
      if_keeps (λ (r : Option Attempt × Discovery). Untouched d r.1)
        (not (w.context == f.context.id) || not (is_absent w.attempt) || leb w.expires_at now)
        (none, e) (attempted w f e) u u

  pub begin-Untouched : (f : Found) (now : ℕ) → Untouched d (begin f now d).1
  unfolding begin
  begin-Untouched f now = go d.window
    where
      go : (o : Option Window) → Untouched d (begin_in (opened o f now d) f now).1
      go none = begin_in-Untouched (new_window f now d) (opened none f now d).1 f now (same d)
      go (some w) = begin_in-Untouched w d f now (same d)

  pub allocated-Untouched : (a : Attempt) (dial : ℕ) → Untouched d (allocated a dial d)
  unfolding allocated
  allocated-Untouched a dial = go d.window
    where
      go : (o : Option Window) → Untouched d (allocated_in o a dial d)
      go none = same d
      go (some w) = if_keeps (Untouched d) (w.id == a.window) _ d (same d) (same d)

  pub abandoned-Untouched : (a : Attempt) → Untouched d (abandoned a d)
  unfolding abandoned
  abandoned-Untouched a = go d.window
    where
      go : (o : Option Window) → Untouched d (abandoned_in o a d)
      go none = same d
      go (some w) = if_keeps (Untouched d) (is_ongoing w.attempt a) _ d (same d) (same d)

  pub failed-Untouched : (dial : ℕ) → Untouched d (failed dial d)
  unfolding failed
  failed-Untouched dial = go d.window
    where
      go : (o : Option Window) → Untouched d (failed_in o dial d)
      go none = same d
      go (some w) = if_keeps (Untouched d) (has_dial w.attempt dial) _ d (same d) (same d)

  pub end_window-Untouched : (id : Option ℕ) → Untouched d (end_window id d).0
  unfolding end_window
  end_window-Untouched id = go d.window id
    where
      go : (o : Option Window) (id : Option ℕ) → Untouched d (end_in o id d).0
      go none id = same d
      go (some w) none = same d
      go (some w) (some id) =
          if_keeps (λ (r : Discovery × Bool). Untouched d r.0) (w.id == id)
            (record d { window = none }, true) (d, false) (same d) (same d)

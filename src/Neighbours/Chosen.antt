-- ===== src/Neighbours/Chosen.antt =====
-- What `choose` finds (src/browser/neighbour-discovery.mjs).
pub mod Begun
use mathlib.Core.Option.{some-injective, none-ne-some}
use relayswarm.Base.{
  ℕ, ◌≡◌, subst, ◌∙◌, refl, sym, ap, Bool, true, false, ◌||◌, not, Option, none, some, List, [],
  ◌∷◌, Text, Map, ◌⊎◌, inl, inr, lookup, text_eq_refl, text_eq→eq, ◌==◌, ==_refl, leb,
  if◌then◌else◌, arith,
}
use relayswarm.Neighbours.State.{
  Discovery, Context, Candidate, MediaType, main, audio, Attempt, Ongoing, Window, entry, fresh,
  is_id, live_context, live_window, new_discovery,
}
use relayswarm.Neighbours.Candidates.{includes, hinted_in}
use relayswarm.Neighbours.Contexts.{current_context, is_absent}
use relayswarm.Neighbours.Window.{
  Found, found_at, hinting_in, Asked, is_passed_over, Search, unfound, searched, search_one,
  searching, search_all, choose_in, choose,
}
use relayswarm.Neighbours.Attempts.{
  new_window, opened, attempted, begin_in, begin, same_ticket, valid,
}
use relayswarm.Neighbours.Calls.{Call, calls}
use relayswarm.Neighbours.Bounds.{IsDistinct}
use relayswarm.Neighbours.Bounds.Runs.{calls-new_discovery-IsSmall}
use relayswarm.Neighbours.Untouched.{Counted, same-Counted, search_one-Counted, choose-Counted}
use relayswarm.Neighbours.Search.{Known, hinted_in-Found}

Known-lookup :
    (p : Text) (c : Candidate) (m : Map Candidate)
    → IsDistinct m
    → Known p c m
    → lookup p m ≡ some c
unfolding lookup
Known-lookup p c [] s k = absurd k
Known-lookup p c ((q, e) ∷ m) s (inl (same, this)) = ground (arith, same, this, text_eq_refl p)
Known-lookup p c ((q, e) ∷ m) s (inr k) =
    ground (arith, text_eq→eq q p, Known-lookup p c m s.1 k, s.0)

-- The context is current, and the candidate is known, fresh and has the key.
abbrev pub Usable : Discovery → ℕ → Found → Type 0
Usable d now f =
    (current_context (some f.context) now ≡ true)
    × (lookup f.pubkey d.candidates ≡ some f.candidate)
    × (fresh 60000 f.candidate.at now ≡ true)
    × (includes f.key f.candidate.have ≡ true)

-- What a search in this context may give.
abbrev Suits : Discovery → ℕ → MediaType → Option Context → Found → Type 0
Suits d now kind o f = ((f.kind ≡ kind) × (o ≡ some f.context)) × Usable d now f

-- What `choose` found is there to be used.
abbrev pub IsReady : Discovery → ℕ → Found → Type 0
IsReady d now f = (entry f.kind d ≡ some f.context) × Usable d now f

-- The window that is open, if one is, waits for it.
abbrev pub Fits : Option Window → Found → Type 0
Fits none f = Unit
Fits (some w) f = (f.kind ≡ w.kind) × (w.context ≡ f.context.id) × (w.attempt ≡ none)

is_id-entry :
    (o : Option Context) (id : ℕ) (c : Context) → is_id o id ≡ some c → (o ≡ some c) × (id ≡ c.id)
is_id-entry none id c e = absurd (none-ne-some c e)
is_id-entry (some x) id c e = ground (arith, some-injective x c)

module _ (d : Discovery) (distinct : IsDistinct d.candidates) (a : Asked) (now : ℕ) where
  found_at-Suits :
      (kind : MediaType) (c : Context) (o : Option (Text × Candidate × Text)) (f : Found)
      → hinted_in a.eligible c.keys now d.candidates ≡ o
      → current_context (some c) now ≡ true
      → found_at kind c o ≡ some f
      → Suits d now kind (some c) f
  found_at-Suits kind c none f h current e = absurd (none-ne-some f e)
  found_at-Suits kind c (some (p, x, key)) f h current e =
      let (known, (young, _, _, has)) =
        hinted_in-Found a.eligible c.keys now d.candidates p x key h in
      subst (Suits d now kind (some c))
        (some-injective (record { kind = kind; context = c; pubkey = p; candidate = x; key = key })
          f e)
        ((refl, refl), (current, Known-lookup p x d.candidates distinct known, young, has))

  -- What a search gives in one context, after the contexts before it.
  abbrev Finds : MediaType → Option Context → Search → Option Found → Type 0
  Finds kind o s r = (f : Found) → r ≡ some f → (s.found ≡ some f) ⊎ Suits d now kind o f

  search_one-Finds :
      (kind : MediaType) (o : Option Context) (s : Search)
      → Counted d s.discovery
      → Finds kind o s (search_one a now kind o s).found
  search_one-Finds kind none s u = λ f e. inl e
  search_one-Finds kind (some c) s u =
      go (not (is_absent s.found) || is_passed_over a now c s.discovery) refl
    where
      found : Option Found
      found = found_at kind c (hinted_in a.eligible c.keys now s.discovery.candidates)

      uncounted : (b : Bool) → (unfound b s).found ≡ s.found
      uncounted true = ground arith
      uncounted false = ground arith

      searched_one :
          (o : Option Found)
          → found ≡ o
          → current_context (some c) now ≡ true
          → Finds kind (some c) s (searched now c o s).found
      searched_one none h current f e =
          inl (sym (uncounted (hinting_in c.keys now s.discovery.candidates)) ∙ e)
      searched_one (some g) h current f e = inr (
          found_at-Suits kind c (hinted_in a.eligible c.keys now d.candidates) f refl current
            (rw (sym u.0.0.0) h ∙ e))

      go :
          (b : Bool)
          → not (is_absent s.found) || is_passed_over a now c s.discovery ≡ b
          → Finds kind (some c) s (if b then s else searched now c found s).found
      go true over = λ f e. inl e
      go false over = searched_one found refl (ground (arith, over))

  Suits-IsReady :
      (kind : MediaType) (f : Found) → Suits d now kind (entry kind d) f → IsReady d now f
  Suits-IsReady kind f s = (rw s.0.0 s.0.1, s.1)

  searching-Finds :
      (kind : MediaType) (o : Option Context) (f : Found)
      → (search_one a now kind o (searching d)).found ≡ some f
      → Suits d now kind o f
  searching-Finds kind o f e = elim (search_one-Finds kind o (searching d) (same-Counted d) f e) [
    | inl none_yet ↦ absurd (none-ne-some f none_yet)
    | inr suits ↦ suits
  ]

  both-Finds :
      (k j : MediaType) (f : Found)
      → (search_one a now k (entry k d) (search_one a now j (entry j d) (searching d))).found
        ≡ some f
      → IsReady d now f
  both-Finds k j f e =
      let u = search_one-Counted d a now j (entry j d) (searching d) (same-Counted d) in
      elim (search_one-Finds k (entry k d) (search_one a now j (entry j d) (searching d)) u f e) [
        | inl before ↦ Suits-IsReady j f (searching-Finds j (entry j d) f before)
        | inr suits ↦ Suits-IsReady k f suits
      ]

  search_all-Ready : (f : Found) → (search_all a now d).found ≡ some f → IsReady d now f
  search_all-Ready f = go d.audio_first
    where
      go :
          (b : Bool)
          → (if b
              then search_one a now main d.main_context
                  (search_one a now audio d.audio_context (searching d))
              else search_one a now audio d.audio_context
                  (search_one a now main d.main_context (searching d))).found
            ≡ some f
          → IsReady d now f
      go true = both-Finds main audio f
      go false = both-Finds audio main f

  window-Ready :
      (w : Window) (f : Found)
      → Suits d now w.kind (live_context w.kind w.context d) f
      → w.attempt ≡ none
      → IsReady d now f × Fits (some w) f
  window-Ready w f s vacant =
      let (here, id) = is_id-entry (entry w.kind d) w.context f.context s.0.1 in
      (Suits-IsReady w.kind f ((s.0.0, here), s.1), (s.0.0, id, vacant))

  pub choose_in-Ready :
      (o : Option Window) (f : Found)
      → (choose_in o a now d).found ≡ some f
      → IsReady d now f × Fits o f
  choose_in-Ready none f e = (search_all-Ready f e, tt)
  choose_in-Ready (some w) f e = go w.attempt refl e
    where
      go :
          (o : Option Ongoing)
          → w.attempt ≡ o
          → (if not (is_absent o)
              then searching d
              else search_one a now w.kind (live_context w.kind w.context d) (searching d)).found
            ≡ some f
          → IsReady d now f × Fits (some w) f
      go (some x) vacant e = absurd (none-ne-some f e)
      go none vacant e =
          window-Ready w f (searching-Finds w.kind (live_context w.kind w.context d) f e) vacant

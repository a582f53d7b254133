-- ===== src/Accounts/Links/Joined.antt =====
-- What becomes of an account's funds by a link (src/account-upload-budget.mjs).
use relayswarm.Base.{
  ◌≡◌, refl, Bool, true, false, Option, none, some, List, [], ◌∷◌, arith, Text, if◌then◌else◌,
  text_eq, text_eq_refl, text_eq→eq,
}
use relayswarm.Accounts.State.{Funds, funds, alias_to, Identity, Work}
use relayswarm.Accounts.Canonical.{set_account, find_account, canonical}
use relayswarm.Accounts.Canonical.Laws.{total_spent-set_account, find_account-set_account}
use relayswarm.Accounts.Authorise.{
  Settings, bumped, merged, merge, bump, link_to, joined_with, linked, with_settings, configured,
}
use relayswarm.Accounts.Charges.{After, read-After, IsAccount, canonical-Same, Adds, nothing}

-- The account's funds after the link, in the copy, whose sum is as before.
abbrev pub Joins : Text → Work → Funds → Work → Type 0
Joins id w f w' = Adds nothing w f w' × IsAccount w' (id, f)

bump-Joins :
    (id : Text) (f : Funds) (w : Work) → IsAccount w (id, f) → After (Joins id w) (bump id f w)
bump-Joins id f w found =
    let e = funds (bumped f) in
    (
      ground (arith, total_spent-set_account id e (funds f) w.state.accounts found),
      ground (
        arith,
        find_account-set_account id id e (funds f) w.state.accounts found,
        text_eq_refl id,
      ),
    )

merge-Joins :
    (id : Text) (f : Funds) (other : Text) (g : Funds) (w : Work)
    → IsAccount w (id, f)
    → IsAccount w (other, g)
    → text_eq other id ≡ false
    → After (Joins id w) (merge id f other g w)
merge-Joins id f other g w found found_other ne =
    let apart : text_eq id other ≡ false =
      ground (arith, ne, text_eq→eq id other, text_eq_refl id) in
    let e = funds (merged f g) in
    let l = w.state.accounts in
    let l' = set_account id e l in
    let other_kept : find_account other l' ≡ some (funds g) =
      ground (arith, find_account-set_account id other e (funds f) l found, apart, found_other) in
    let kept : find_account id l' ≡ some e =
      ground (arith, find_account-set_account id id e (funds f) l found, text_eq_refl id) in
    ground (
      arith,
      total_spent-set_account id e (funds f) l found,
      total_spent-set_account other (alias_to id) (funds g) l' other_kept,
      find_account-set_account other id (alias_to id) (funds g) l' other_kept,
      kept,
      ne,
    )

link_to-Joins :
    (id : Text) (f : Funds) (rows : List Identity) (w : Work)
    → IsAccount w (id, f)
    → After (Joins id w) (link_to id f rows w)
unfolding link_to
link_to-Joins id f [] w found = (omega arith, found)
link_to-Joins id f (first ∷ []) w found = (omega arith, found)
link_to-Joins id f (first ∷ second ∷ rows) w found =
    read-After (canonical second.account_id) (joined_with id f) w (IsAccount w) (Joins id w)
      (canonical-Same second.account_id w) (λ a found_other. go a found_other (text_eq a.0 id) refl)
  where
    go :
        (a : Text × Funds)
        → IsAccount w a
        → (b : Bool) → text_eq a.0 id ≡ b
        → After (Joins id w) ((if b then bump id f else merge id f a.0 a.1) w)
    go a found_other true e = bump-Joins id f w found
    go a found_other false e = merge-Joins id f a.0 a.1 w found found_other e

pub linked-Joins :
    (b : Bool) (id : Text) (f : Funds) (rows : List Identity) (w : Work)
    → IsAccount w (id, f)
    → After (Joins id w) (linked b id f rows w)
linked-Joins true id f rows w found = link_to-Joins id f rows w found
linked-Joins false id f rows w found = (omega arith, found)

-- Whether the settings set the sum spent back to 0.
abbrev pub resets : Option Settings → Bool
resets none = false
resets (some s) = s.reset

pub configured-Adds :
    (o : Option Settings) (id : Text) (f : Funds) (w : Work)
    → resets o ≡ false
    → IsAccount w (id, f)
    → After (Adds nothing w) (configured o id f w)
configured-Adds none id f w r found = omega arith
configured-Adds (some s) id f w r found =
    let e = funds (with_settings s f) in
    ground (arith, r, total_spent-set_account id e (funds f) w.state.accounts found)

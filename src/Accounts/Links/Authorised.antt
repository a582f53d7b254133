-- ===== src/Accounts/Links/Authorised.antt =====
-- An authorisation that resets nothing conserves what is spent (src/account-upload-budget.mjs).
use relayswarm.Base.{◌≡◌, Bool, true, false, ◌||◌, not, none, List, [], ◌∷◌, arith, Text}
use relayswarm.Accounts.State.{Funds, Identity, Grant, Options, Clock, Work, Code, ◌>>=◌}
use relayswarm.Accounts.Grants.{grant_response, issue}
use relayswarm.Accounts.Authorise.{
  Authorisation, Platform, valid_authorisation, identity_rows, linked, configured, is_given,
  revoke_if, website_of, first_account, issue_for, configure, link_rows, authorize_rows, authorize,
}
use relayswarm.Accounts.Charges.{
  After, >>=-After, guard-After, read-After, Same, IsAccount, canonical-Same, Adds, nothing,
  rebase-Adds,
}
use relayswarm.Accounts.Links.{
  then-Adds, issue-Adds, revoke_all-Adds, response-Adds, identity_rows-Adds,
}
use relayswarm.Accounts.Links.Joined.{Joins, linked-Joins, resets, configured-Adds}

revoke_if-Adds : (b : Bool) (id : Text) (w : Work) → After (Adds nothing w) (revoke_if b id w)
revoke_if-Adds true id w = revoke_all-Adds (λ g. true) id w
revoke_if-Adds false id w = omega arith

issue_for-Adds :
    (options : Options) (platform : Platform) (c : Clock) (a : Authorisation) (rows : List Identity)
    (id : Text) (f : Funds) (w : Work)
    → After (Adds nothing w) (issue_for options platform c a rows id f w)
issue_for-Adds options platform c a rows id f w =
    let new_grant =
      issue options c platform.token id f a.page_pubkey a.methods a.delegation_expires_at
        (website_of rows) none in
    let respond = λ (issued : Grant). grant_response issued true in
    then-Adds (revoke_if (a.link || is_given a.settings) id) (λ u. new_grant >>= respond) w
      (revoke_if-Adds (a.link || is_given a.settings) id w)
      (λ u v.
        then-Adds new_grant respond v
          (issue-Adds options c platform.token id f a.page_pubkey a.methods a.delegation_expires_at
            (website_of rows) none v)
          (λ issued x. response-Adds issued true x))

configure-Adds :
    (options : Options) (platform : Platform) (c : Clock) (a : Authorisation) (rows : List Identity)
    (id : Text) (f : Funds) (w : Work)
    → resets a.settings ≡ false
    → IsAccount w (id, f)
    → After (Adds nothing w) (configure options platform c a rows id f w)
configure-Adds options platform c a rows id f w r found =
    then-Adds (configured a.settings id f) (issue_for options platform c a rows id) w
      (configured-Adds a.settings id f w r found) (issue_for-Adds options platform c a rows id)

link_rows-Adds :
    (options : Options) (platform : Platform) (c : Clock) (a : Authorisation) (rows : List Identity)
    (x : Text × Funds) (w : Work)
    → resets a.settings ≡ false
    → IsAccount w x
    → After (Adds nothing w) (link_rows options platform c a rows x w)
link_rows-Adds options platform c a rows (id, f) w r found =
    >>=-After (linked a.link id f rows) (configure options platform c a rows id) w (Joins id w)
      (Adds nothing w) (linked-Joins a.link id f rows w found)
      (λ joined v j.
        rebase-Adds nothing w v (configure options platform c a rows id joined v)
          (omega (arith, j.0)) (configure-Adds options platform c a rows id joined v r j.1))

first_account-Same :
    (rows : List Identity) (w : Work) → After (Same (IsAccount w) w) (first_account rows w)
first_account-Same [] w = tt
first_account-Same (i ∷ rows) w = canonical-Same i.account_id w

-- An authorisation that does not reset an account neither adds to nor takes from the sum of what the
-- accounts have spent, also where it creates accounts or links two of them.
pub authorize-Adds :
    (options : Options) (platform : Platform) (c : Clock) (a : Authorisation) (w : Work)
    → resets a.settings ≡ false
    → After (Adds nothing w) (authorize options platform c a w)
unfolding authorize
authorize-Adds options platform c a w r =
    guard-After (not (valid_authorisation options c a)) Code.authorisation_invalid
      (identity_rows options platform 0 a.identities >>= authorize_rows options platform c a) w
      (Adds nothing w)
      (λ u.
        then-Adds (identity_rows options platform 0 a.identities)
          (authorize_rows options platform c a) w
          (identity_rows-Adds options platform 0 a.identities w)
          (λ rows v.
            read-After (first_account rows) (link_rows options platform c a rows) v (IsAccount v)
              (Adds nothing v) (first_account-Same rows v)
              (λ x found. link_rows-Adds options platform c a rows x v r found)))

-- ===== src/Link/Bounds/Advices.antt =====
-- Advice from the remote peer keeps the tables of a link within their limits
-- (src/browser/peer-link.mjs).
use relayswarm.Base.{
  ℕ, ◌+◌, ◌≤◌, Bool, true, false, Option, none, some, List, [], ◌∷◌, arith, length, Text, Map,
  length-append, drop, length-take, length-drop, length-insert-le, length-insert-has,
  length-delete-le, delete,
}
use relayswarm.Link.State.{Link, max_have_keys}
use relayswarm.Link.Advice.{
  Rendition, null, text, invalid, announce, recent, unexpired, insert_within, contribute,
  announce_in, accept_contribution, contribution_for, fetching_fields, on_contribution, on_fetching,
  add, remove, add_all, add_bounded, remove_all, keys_of, valid_keys, replaced, on_have, send_have,
  send_have_change, send_contribution, send_fetching,
}
use relayswarm.Link.Bounds.{IsBounded, send_text-IsBounded, either}

length-recent-le : (now : ℕ) (m : Map ℕ) → length (recent now m) ≤ length m
unfolding recent
length-recent-le now [] = omega arith
length-recent-le now ((k, seen) ∷ m) = ground (arith, length-recent-le now m)

length-unexpired-le : (now : ℕ) (m : Map ℕ) → length (unexpired now m) ≤ length m
unfolding unexpired
length-unexpired-le now [] = omega arith
length-unexpired-le now ((k, seen) ∷ m) = ground (arith, length-unexpired-le now m)

length-insert_within :
    (n : ℕ) (k : Text) (v : ℕ) (m : Map ℕ) → length m ≤ n → length (insert_within n k v m) ≤ n
unfolding insert_within
length-insert_within n k v m h = ground (arith, length-insert-le k v m, length-insert-has k v m)

length-announce : (r : Text) (now : ℕ) (m : Map ℕ) → length m ≤ 8 → length (announce r now m) ≤ 8
unfolding announce
length-announce r now m h =
    let rest = delete r m in
    ground (
      arith,
      length-delete-le r m,
      length-insert-le r now rest,
      length-insert-le r now (drop 1 rest),
      length-drop 1 rest,
    )

length-add-le : (k : Text) (s : List Text) → length (add k s) ≤ length s + 1
unfolding add
length-add-le k s = ground (arith, length-append s (k ∷ []))

length-add_bounded :
    (ks s : List Text) → length s ≤ max_have_keys → length (add_bounded ks s) ≤ max_have_keys
unfolding add_bounded
length-add_bounded [] s h = h
length-add_bounded (k ∷ ks) s h = ground (arith, length-add-le k s, length-add_bounded ks (add k s))

length-add_all : (ks s : List Text) → length (add_all ks s) ≤ length ks + length s
unfolding add_all
length-add_all [] s = omega arith
length-add_all (k ∷ ks) s = omega (arith, length-add-le k s, length-add_all ks (add k s))

length-remove-le : (k : Text) (s : List Text) → length (remove k s) ≤ length s
unfolding remove
length-remove-le k [] = omega arith
length-remove-le k (j ∷ s) = ground (arith, length-remove-le k s)

length-remove_all-le : (ks s : List Text) → length (remove_all ks s) ≤ length s
unfolding remove_all
length-remove_all-le [] s = omega arith
length-remove_all-le (k ∷ ks) s =
    omega (arith, length-remove-le k s, length-remove_all-le ks (remove k s))

length-replaced :
    (ks : Option (List Text)) (s : List Text)
    → length s ≤ max_have_keys
    → length (replaced ks s) ≤ max_have_keys
length-replaced none s h = h
length-replaced (some ks) s h =
    omega (arith, length-add_all (valid_keys (some ks)) [], length-take max_have_keys (keys_of ks))

pub on_have-IsBounded :
    (keys added deleted : Option (List Text)) (l : Link)
    → IsBounded l
    → IsBounded (on_have keys added deleted l)
unfolding on_have
on_have-IsBounded keys added deleted l v =
    let held = replaced keys l.have in
    let more_held = add_bounded (valid_keys added) held in
    ground (
      arith,
      length-replaced keys l.have,
      length-add_bounded (valid_keys added) held,
      length-remove_all-le (valid_keys deleted) more_held,
    )

announce_in-IsBounded :
    (r : Option Text) (now : ℕ) (l : Link) → IsBounded l → IsBounded (announce_in r now l)
announce_in-IsBounded none now l v = v
announce_in-IsBounded (some r) now l v = ground (arith, length-announce r now l.announced)

contribute-IsBounded :
    (b : Bool) (r : Option Text) (now : ℕ) (l : Link)
    → IsBounded l
    → IsBounded (contribute b r now l)
contribute-IsBounded true none now l v = v
contribute-IsBounded true (some r) now l v = ground (
  arith,
  length-recent-le now l.renditions,
  length-insert_within 8 r now (recent now l.renditions),
)
contribute-IsBounded false r now l v = ground arith

pub on_contribution-IsBounded :
    (b : Option Bool) (r : Rendition) (now : ℕ) (l : Link)
    → IsBounded l
    → IsBounded (on_contribution b r now l)
unfolding on_contribution
on_contribution-IsBounded b r now l v = either l.closed v (go b r)
  where
    accepted : (b : Bool) (r : Option Text) → IsBounded (accept_contribution b r now l)
    accepted b r = contribute-IsBounded b r now _ (announce_in-IsBounded r now _ (ground arith))

    go : (b : Option Bool) (r : Rendition) → IsBounded (contribution_for b r now l)
    go none r = v
    go (some b) invalid = v
    go (some b) null = accepted b none
    go (some b) (text r) = either _ v (accepted b (some r))

pub on_fetching-IsBounded :
    (k : Option Text) (ms : Option ℕ) (now : ℕ) (l : Link)
    → IsBounded l
    → IsBounded (on_fetching k ms now l)
unfolding on_fetching
on_fetching-IsBounded k ms now l v = either l.closed v (go k ms)
  where
    go : (k : Option Text) (ms : Option ℕ) → IsBounded (fetching_fields k ms now l)
    go none ms = v
    go (some k) none = v
    go (some k) (some ms) =
        let live = unexpired now l.fetching in
        ground (
          arith,
          length-unexpired-le now l.fetching,
          length-delete-le k live,
          length-insert_within 24 k (now + ms) live,
        )

pub send_have-IsBounded : (keys : List Text) (l : Link) → IsBounded l → IsBounded (send_have keys l)
unfolding send_have
send_have-IsBounded keys l v = send_text-IsBounded _ l v

pub send_have_change-IsBounded :
    (added deleted : List Text) (l : Link)
    → IsBounded l
    → IsBounded (send_have_change added deleted l)
unfolding send_have_change
send_have_change-IsBounded added deleted l v = either _ (send_text-IsBounded _ l v) v

pub send_contribution-IsBounded :
    (b : Bool) (r : Option Text) (l : Link) → IsBounded l → IsBounded (send_contribution b r l)
unfolding send_contribution
send_contribution-IsBounded b r l v = send_text-IsBounded _ l v

pub send_fetching-IsBounded :
    (k : Text) (ms : ℕ) (l : Link) → IsBounded l → IsBounded (send_fetching k ms l)
unfolding send_fetching
send_fetching-IsBounded k ms l v = send_text-IsBounded _ l v

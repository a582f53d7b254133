-- ===== src/Link/Examples.antt =====
-- The theorems on src/browser/peer-link.mjs at concrete inputs, and tests.
use relayswarm.Base.{
  ℕ, ◌+◌, length, ◌≡◌, refl, true, false, none, some, List, [], ◌∷◌, ◌++◌, Text, flatten, is_hex64,
}
use relayswarm.Base.Int.{pos}
use relayswarm.Link.State.{
  Link, Channel, Reason, close, finish, send_text, new_link, max_chunks, busy,
}
use relayswarm.Link.Request.{request, abandon}
use relayswarm.Link.Download.{on_binary, on_meta, on_eof}
use relayswarm.Link.Uploads.{on_want}
use relayswarm.Link.Messages.{
  Event, step, run, on_text, on_control, want, meta, eof, text_frame, binary_frame, requested,
  abandoned,
}
use relayswarm.Link.Bounds.{IsBounded}
use relayswarm.Link.Bounds.Runs.{IsHeld, run-new_link-IsBounded}
use relayswarm.Link.Promise.{Numbered, AllFit, floor}
use relayswarm.Link.Promise.Counted.{requests}
use relayswarm.Link.Promise.Runs.{run-new_link-IsSound}
use relayswarm.Link.Closed.{Shut, close-run}

abbrev reliable : Channel
reliable = record { is_open = true; accepts = true; ordered_reliable = true }

abbrev some_key : Text
some_key =
    let eight : Text = 97 ∷ 97 ∷ 97 ∷ 97 ∷ 97 ∷ 97 ∷ 97 ∷ 97 ∷ [] in
    eight ++ (eight ++ (eight ++ (eight ++ (eight ++ (eight ++ (eight ++ eight))))))

-- A request that is answered by five bytes in two chunks, one that is refused meanwhile, and one that
-- is abandoned.
abbrev history : List (ℕ × Event)
history =
    (10, requested some_key (some 5) false)
    ∷ (10, requested some_key none false)
    ∷ (11, text_frame 20 (some (meta (some (pos 1)) (some 5))))
    ∷ (12, binary_frame (1 ∷ 2 ∷ []))
    ∷ (13, binary_frame (3 ∷ 4 ∷ 5 ∷ []))
    ∷ (14, text_frame 20 (some (eof (some (pos 1)))))
    ∷ (15, requested some_key none false)
    ∷ (16, abandoned 2 Reason.request_timeout)
    ∷ (17, text_frame 90 (some (want (some (pos 7)) (some some_key))))
    ∷ []

abbrev after : Link
after = run history (new_link 100 4 reliable)

history_resolves :
    (after.resolved ≡ (1, some (1 ∷ 2 ∷ 3 ∷ 4 ∷ 5 ∷ [])) ∷ (2, none) ∷ []) × (after.refused ≡ 1)
unfolding run step request busy send_text on_text on_control on_meta on_binary on_eof finish abandon
    max_chunks flatten new_link on_want is_hex64
history_resolves = (refl, refl)

run-new_link-IsBounded_example : IsBounded after × IsHeld after.max_segment_bytes after.pending
run-new_link-IsBounded_example = run-new_link-IsBounded 100 4 reliable history

run-new_link-IsSound_example :
    (after.refused + after.next_id ≡ requests history + 1)
    × Numbered 1 after.resolved
    × (length after.resolved + 1 ≡ floor after.pending after.next_id)
    × AllFit after.max_segment_bytes after.resolved
run-new_link-IsSound_example = run-new_link-IsSound 100 4 reliable history

close-run_example :
    ((close Reason.rotation (new_link 100 4 reliable)).close_reason ≡ some Reason.rotation)
    × Shut
        (close Reason.rotation (new_link 100 4 reliable))
        (run history (close Reason.rotation (new_link 100 4 reliable)))
unfolding new_link
close-run_example = close-run Reason.rotation history (new_link 100 4 reliable) refl

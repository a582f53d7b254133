-- ===== src/Origin/Examples.antt =====
-- The theorem on src/browser/origin-range.mjs at concrete inputs, and tests.
use relayswarm.Base.{◌≡◌, refl, true, false, Option, none, some, [], ◌∷◌, Text, text_eq}
use relayswarm.Origin.Range.{
  Context, Range, Response, read_content_range, matching_content_range, origin_range_for,
  fetch_origin_range,
}
use relayswarm.Origin.Exact.{IsRange, Answers, fetch_origin_range-Answers}

-- Bytes 100 to 199 of a file.
abbrev context : Context
context = record { has_url = true; range_start = some 100; range_end = some 200 }

abbrev header : Text
header =
    b'b' ∷ b'y' ∷ b't' ∷ b'e' ∷ b's' ∷ b' ' ∷ b'1' ∷ b'1' ∷ b'0' ∷ b'-' ∷ b'1' ∷ b'1' ∷ b'2' ∷ b'/'
    ∷ b'*' ∷ []

abbrev answer : Range → Option Response
answer r = some (record { status = 206; content_range = some header; body = some (7 ∷ 8 ∷ 9 ∷ []) })

is_read : read_content_range header ≡ some (110, 112)
unfolding read_content_range text_eq
is_read = refl

past_the_end : origin_range_for context 90 101 ≡ none
unfolding origin_range_for
past_the_end = refl

is_fetched : (fetch_origin_range context 10 13 false false answer).bytes ≡ some (7 ∷ 8 ∷ 9 ∷ [])
unfolding fetch_origin_range origin_range_for matching_content_range read_content_range text_eq
is_fetched = refl

fetch_origin_range-Answers_example :
    (r : Range) × IsRange context 10 13 r × Answers r 3 (answer r) (7 ∷ 8 ∷ 9 ∷ [])
fetch_origin_range-Answers_example =
    fetch_origin_range-Answers context 10 13 false false answer (7 ∷ 8 ∷ 9 ∷ []) is_fetched

-- ===== src/Origin/Range.antt =====
-- src/browser/origin-range.mjs: `originRangeFor`, `matchingContentRange` and `fetchOriginRange`. In the
-- context, `none` is no safe integer, or a negative end; a start is not negative.
use relayswarm.Base.{
  ℕ, ◌+◌, ◌-◌, ◌*◌, Bool, true, false, ◌&&◌, ◌||◌, not, Option, none, some, List, [], ◌∷◌, Text,
  length, leb, ltb, ◌==◌, text_eq, if◌then◌else◌,
}

pub record Context : Type 0 where
  pub has_url : Bool
  pub range_start : Option ℕ
  pub range_end : Option ℕ

pub record Range : Type 0 where
  pub first : ℕ
  pub last : ℕ

abbrev pub range_at : ℕ → ℕ → ℕ → Range
range_at base from to = record { first = base + from; last = base + to - 1 }

abbrev pub or_zero : Option ℕ → ℕ
or_zero none = 0
or_zero (some n) = n

-- An end of 0 stands for no end.
abbrev pub within : Context → ℕ → ℕ → ℕ → Option Range
within c end from to =
    if end == 0
    then some (range_at 0 from to)
    else (if ltb end (or_zero c.range_start + to)
        then none
        else some (range_at (or_zero c.range_start) from to))

unfoldable pub origin_range_for : Context → ℕ → ℕ → Option Range
origin_range_for c from to = if leb to from then none else within c (or_zero c.range_end) from to

-- /^bytes (\d+)-(\d+)\/(\d+|\*)$/u, read from left to right.
abbrev pub is_digit : ℕ → Bool
is_digit c = leb b'0' c && leb c b'9'

-- The number read so far, and what follows its digits.
abbrev pub digits : ℕ → Text → ℕ × Text
digits n [] = (n, [])
digits n (c ∷ cs) = elim (is_digit c) [ true ↦ digits (n * 10 + (c - 48)) cs | false ↦ (n, c ∷ cs) ]

abbrev pub number : Text → Option (ℕ × Text)
number [] = none
number (c ∷ cs) = if is_digit c then some (digits 0 (c ∷ cs)) else none

abbrev pub after_prefix : Text → Text → Option Text
after_prefix [] t = some t
after_prefix (p ∷ ps) [] = none
after_prefix (p ∷ ps) (c ∷ cs) = let rest = after_prefix ps cs in if p == c then rest else none

abbrev pub is_total : Text → Bool
is_total t = text_eq t (b'*' ∷ []) || ends (number t)
  where
    ends : Option (ℕ × Text) → Bool
    ends none = false
    ends (some (n, [])) = true
    ends (some (n, c ∷ cs)) = false

abbrev pub then_number : Option Text → Option (ℕ × Text)
then_number none = none
then_number (some t) = number t

abbrev pub total_after : ℕ → ℕ → Option Text → Option (ℕ × ℕ)
total_after first last none = none
total_after first last (some t) = if is_total t then some (first, last) else none

abbrev pub last_after : ℕ → Option (ℕ × Text) → Option (ℕ × ℕ)
last_after first none = none
last_after first (some (last, t)) = total_after first last (after_prefix (b'/' ∷ []) t)

abbrev pub first_after : Option (ℕ × Text) → Option (ℕ × ℕ)
first_after none = none
first_after (some (first, t)) = last_after first (then_number (after_prefix (b'-' ∷ []) t))

unfoldable pub read_content_range : Text → Option (ℕ × ℕ)
unfolding text_eq
read_content_range t =
    first_after (then_number (after_prefix (b'b' ∷ b'y' ∷ b't' ∷ b'e' ∷ b's' ∷ b' ' ∷ []) t))

abbrev pub names : Option (ℕ × ℕ) → Range → Bool
names none r = false
names (some (first, last)) r = first == r.first && last == r.last

-- A header of `none` is not exposed. `trimmed` is the header without the white space around it.
unfoldable pub matching_content_range : Option Text → Range → Bool
matching_content_range none r = true
matching_content_range (some trimmed) r = names (read_content_range trimmed) r

pub record Response : Type 0 where
  pub status : ℕ
  pub content_range : Option Text
  pub body : Option (List ℕ)

pub data Report : Type 0 where
  abort : Report
  invalid_request : Report
  error : Report
  wrong_size : Report
  payload : Report

pub record Fetched : Type 0 where
  pub bytes : Option (List ℕ)
  pub ignored : Bool
  pub report : Report

abbrev pub failed : Bool → Report → Fetched
failed ignored report = record { bytes = none; ignored = ignored; report = report }

abbrev pub error_or_abort : Bool → Report
error_or_abort true = abort
error_or_abort false = error

abbrev pub read_body : Bool → ℕ → Option (List ℕ) → Fetched
read_body aborted size none = failed false (error_or_abort aborted)
read_body aborted size (some bytes) =
    if length bytes == size
    then record { bytes = some bytes; ignored = false; report = payload }
    else failed true wrong_size

-- A response that never came is `none`; so is a body that fails. `aborted` is the signal when one of
-- them fails.
abbrev pub read_response : Bool → Range → ℕ → Option Response → Fetched
read_response aborted r size none = failed false (error_or_abort aborted)
read_response aborted r size (some w) =
    if not (w.status == 206) || not (matching_content_range w.content_range r)
    then (if w.status == 200 || w.status == 206 then failed true wrong_size else failed false error)
    else read_body aborted size w.body

-- The `Range` that is asked for, with what comes of it. `aborted_before` is the signal at the call.
abbrev pub fetch_range : Option Range → Bool → Bool → Bool → ℕ → (Range → Option Response) → Fetched
fetch_range none has_url before aborted size answer =
    failed false (if before then abort else invalid_request)
fetch_range (some r) has_url before aborted size answer =
    if not has_url || before
    then failed false (if before then abort else invalid_request)
    else read_response aborted r size (answer r)

unfoldable pub fetch_origin_range :
    Context → ℕ → ℕ → Bool → Bool → (Range → Option Response) → Fetched
unfolding origin_range_for matching_content_range read_content_range
fetch_origin_range c from to before aborted answer =
    fetch_range (origin_range_for c from to) c.has_url before aborted (to - from) answer

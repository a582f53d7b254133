-- ===== src/Pacing/Pacer.antt =====
-- src/browser/upload-pacing.mjs: `createUploadPacer`. A link is a number; each call reads the clock
-- once. The bucket, and the test whether a request is still wanted, are the page's.
use relayswarm.Base.{
  ℕ, ◌+◌, ◌-◌, Bool, true, false, ◌&&◌, ◌||◌, not, Option, none, some, List, [], ◌∷◌, ◌++◌, Text,
  length, leb, ltb, ◌==◌, min, max, if◌then◌else◌,
}

pub record Geometry : Type 0 where
  pub key : Text
  pub size : ℕ
  pub charge : ℕ
  pub range : Option (ℕ × ℕ)

pub record Row : Type 0 where
  pub id : ℕ
  pub link : ℕ
  pub geometry : Geometry
  pub queued_at : ℕ
  pub deadline : ℕ
  pub waiting : Bool

pub data Refusal : Type 0 where
  expired : Refusal
  cancelled : Refusal
  refused : Refusal

-- What is done outside: a charge taken from the bucket or given back, a charge whose bytes have been
-- sent, a promise resolved with its row or with null, a row's signal aborted.
pub data Effect : Type 0 where
  takes : ℕ → Effect
  gives : ℕ → Effect
  spends : ℕ → Effect
  grants : ℕ → Effect
  answers_null : ℕ → Refusal → Effect
  aborts : ℕ → Effect

pub record Pacer (B : Type 0) : Type 0 where
  pub queued : List Row
  pub reserved : List Row
  pub waited : ℕ
  pub wait_total_ms : ℕ
  pub wait_max_ms : ℕ
  pub granted : ℕ
  pub expired : ℕ
  pub cancelled : ℕ
  pub refused : ℕ
  pub closed : Bool
  pub timer : Option ℕ
  pub next_id : ℕ
  pub bucket : B
  pub effects : List Effect

pub record Bucket (B : Type 0) : Type 0 where
  pub take : ℕ → B → Option B
  pub give : ℕ → B → B
  pub delay : ℕ → B → ℕ
  pub is_wanted : Row → Bool
  pub max_waiters : ℕ

abbrev pub has_link : ℕ → List Row → Bool
has_link link [] = false
has_link link (row ∷ rows) = row.link == link || has_link link rows

abbrev pub is_whole : Option (ℕ × ℕ) → Bool
is_whole none = true
is_whole (some r) = false

abbrev pub is_of : Option ℕ → Row → Bool
is_of none row = true
is_of (some link) row = row.link == link

module _ {B : Type 0} where
  abbrev pub new_pacer : B → Pacer B
  new_pacer b = record {
    queued = [];
    reserved = [];
    waited = 0;
    wait_total_ms = 0;
    wait_max_ms = 0;
    granted = 0;
    expired = 0;
    cancelled = 0;
    refused = 0;
    closed = false;
    timer = none;
    next_id = 0;
    bucket = b;
    effects = [];
  }

  abbrev pub does : Effect → Pacer B → Pacer B
  does e p = record p { effects = e ∷ p.effects }

  abbrev pub waited_row : Bool → ℕ → Row → Pacer B → Pacer B
  waited_row true now row p = record p {
    waited = p.waited + 1;
    wait_total_ms = p.wait_total_ms + (now - row.queued_at);
    wait_max_ms = max p.wait_max_ms (now - row.queued_at);
  }
  waited_row false now row p = p

  abbrev pub record_wait : ℕ → Row → Pacer B → Pacer B
  record_wait now row p = waited_row row.waiting now row p

  abbrev pub count : Refusal → Pacer B → Pacer B
  count expired p = record p { expired = p.expired + 1 }
  count cancelled p = record p { cancelled = p.cancelled + 1 }
  count refused p = record p { refused = p.refused + 1 }

  -- `remove`, of a row that is taken off the queue.
  abbrev pub remove : ℕ → Row → Refusal → Pacer B → Pacer B
  remove now row reason p = does (answers_null row.id reason) (count reason (record_wait now row p))

  abbrev pub hold : Row → B → Pacer B → Pacer B
  hold row b p = record p {
    reserved = p.reserved ++ (row ∷ []);
    granted = p.granted + 1;
    bucket = b;
    effects = grants row.id ∷ takes row.geometry.charge ∷ p.effects;
  }

  abbrev pub reserve : ℕ → Row → B → Pacer B → Pacer B
  reserve now row b p = hold row b (record_wait now row p)

  -- A round of `pump`; `next` goes on with the rest of the queue.
  abbrev pub wait_for : Bucket B → ℕ → Row → List Row → Pacer B → Pacer B
  wait_for k now row rest p = record p {
    queued = record row { waiting = true } ∷ rest;
    timer = some (max 1 (min (row.deadline - now) (k.delay row.geometry.charge p.bucket)));
  }

  abbrev pub taken :
      Bucket B → ℕ → Row → List Row → (Pacer B → Pacer B) → Pacer B → Option B → Pacer B
  taken k now row rest next p none = wait_for k now row rest p
  taken k now row rest next p (some b) = next (reserve now row b p)

  abbrev pub pump_row : Bucket B → ℕ → Row → List Row → (Pacer B → Pacer B) → Pacer B → Pacer B
  pump_row k now row rest next p =
      if leb row.deadline now
      then next (remove now row expired p)
      else (if not (k.is_wanted row)
          then next (remove now row cancelled p)
          else taken k now row rest next p (k.take row.geometry.charge p.bucket))

  unfoldable pub pump_rows : Bucket B → ℕ → List Row → Pacer B → Pacer B
  pump_rows k now [] p = record p { queued = [] }
  pump_rows k now (row ∷ rest) p = pump_row k now row rest (λ q. pump_rows k now rest q) p

  unfoldable pub pump : Bucket B → ℕ → Pacer B → Pacer B
  unfolding pump_rows
  pump k now p =
      if p.closed
      then record p { timer = none }
      else pump_rows k now p.queued (record p { timer = none })

  abbrev pub is_refused : Bucket B → ℕ → Geometry → Pacer B → Bool
  is_refused k link g p =
      p.closed
      || has_link link p.queued
      || has_link link p.reserved
      || leb k.max_waiters (length p.queued)
      || is_whole g.range && (not (length p.queued == 0) || ltb 0 (k.delay g.charge p.bucket))

  abbrev pub numbered : Pacer B → Pacer B
  numbered p = record p { next_id = p.next_id + 1 }

  abbrev pub turn_away : Pacer B → Pacer B
  turn_away p = numbered (does (answers_null p.next_id refused) (count refused p))

  abbrev pub new_row : ℕ → ℕ → Geometry → Pacer B → Row
  new_row now link g p = record {
    id = p.next_id;
    link = link;
    geometry = g;
    queued_at = now;
    deadline = now + 250;
    waiting = not (length p.queued == 0);
  }

  abbrev pub enqueue : ℕ → ℕ → Geometry → Pacer B → Pacer B
  enqueue now link g p = numbered (record p { queued = p.queued ++ (new_row now link g p ∷ []) })

  unfoldable pub acquire : Bucket B → ℕ → ℕ → Geometry → Pacer B → Pacer B
  acquire k now link g p =
      if is_refused k link g p then turn_away p else pump k now (enqueue now link g p)

  -- `finish` of a row that is no longer reserved does nothing; it leaves the pumping to a later turn.
  abbrev pub settle : Bucket B → Bool → Row → Pacer B → Pacer B
  settle k true row p = does (spends row.geometry.charge) p
  settle k false row p =
      does (gives row.geometry.charge) (record p { bucket = k.give row.geometry.charge p.bucket })

  abbrev pub keep_reserved : Row → Pacer B → Pacer B
  keep_reserved row p = record p { reserved = row ∷ p.reserved }

  unfoldable pub finish_rows : Bucket B → ℕ → Bool → List Row → Pacer B → Pacer B
  finish_rows k id sent [] p = record p { reserved = [] }
  finish_rows k id sent (row ∷ rows) p =
      if row.id == id
      then settle k sent row (record p { reserved = rows })
      else keep_reserved row (finish_rows k id sent rows p)

  unfoldable pub finish : Bucket B → ℕ → Bool → Pacer B → Pacer B
  unfolding finish_rows
  finish k id sent p = finish_rows k id sent p.reserved p

  abbrev pub keep_queued : Row → Pacer B → Pacer B
  keep_queued row p = record p { queued = row ∷ p.queued }

  abbrev pub cancel_queued_row : ℕ → Bool → Row → (Pacer B → Pacer B) → Pacer B → Pacer B
  cancel_queued_row now true row next p = next (remove now row cancelled p)
  cancel_queued_row now false row next p = keep_queued row (next p)

  unfoldable pub cancel_queued : ℕ → Option ℕ → List Row → Pacer B → Pacer B
  cancel_queued now link [] p = record p { queued = [] }
  cancel_queued now link (row ∷ rows) p =
      cancel_queued_row now (is_of link row) row (λ q. cancel_queued now link rows q) p

  abbrev pub abort : Bucket B → Row → Pacer B → Pacer B
  abort k row p = settle k false row (does (aborts row.id) (count cancelled p))

  abbrev pub cancel_reserved_row : Bucket B → Bool → Row → (Pacer B → Pacer B) → Pacer B → Pacer B
  cancel_reserved_row k true row next p = next (abort k row p)
  cancel_reserved_row k false row next p = keep_reserved row (next p)

  unfoldable pub cancel_reserved : Bucket B → Option ℕ → List Row → Pacer B → Pacer B
  cancel_reserved k link [] p = record p { reserved = [] }
  cancel_reserved k link (row ∷ rows) p =
      cancel_reserved_row k (is_of link row) row (λ q. cancel_reserved k link rows q) p

  unfoldable pub cancel_all : Bucket B → ℕ → Option ℕ → Pacer B → Pacer B
  unfolding cancel_queued cancel_reserved
  cancel_all k now link p = cancel_reserved k link p.reserved (cancel_queued now link p.queued p)

  unfoldable pub cancel : Bucket B → ℕ → Option ℕ → Pacer B → Pacer B
  unfolding cancel_all pump
  cancel k now link p = pump k now (cancel_all k now link p)

  unfoldable pub stop : Bucket B → ℕ → Pacer B → Pacer B
  unfolding cancel
  stop k now p = record (cancel k now none (record p { closed = true })) { timer = none }

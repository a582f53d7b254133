-- ===== src/Accounts/Drain.antt =====
-- src/account-upload-budget.mjs: `transact` and `drain`, which apply the waiting operations one at a
-- time, each on its own copy of the state, and write the last copy once.
pub mod Spending
pub mod Writes
use relayswarm.Base.{
  ℕ, Bool, true, false, ◌&&◌, ◌||◌, not, Option, none, some, List, [], ◌∷◌, ◌++◌, map, Text, Map,
  ltb, max, if◌then◌else◌,
}
use relayswarm.Accounts.State.{
  Data, Expiry, Options, Clock, Work, Result, ok, err, Action, pure, ◌>>=◌, ◌>>◌, Code,
  operation_cancelled, clock_unavailable, state_invalid, persistence_unavailable,
}
use relayswarm.Accounts.Validity.{valid_data}
use relayswarm.Accounts.Grants.{GrantResponse, prune}
use relayswarm.Accounts.Requests.{
  Reservation, reserve, renew, Inspection, inspect_grant, revoke_grant,
}
use relayswarm.Accounts.Authorise.{Authorisation, Platform, authorize}

pub data Request : Type 0 where
  authorizes : Platform → Authorisation → Request
  inspects : Text → Request
  reserves : Text → Text → ℕ → Request
  renews : Text → Text → Text → Option Text → Request
  revokes : Text → Request

pub data Reply : Type 0 where
  granted : GrantResponse → Reply
  inspected : Inspection → Reply
  reserved : Reservation → Reply
  revoked : Reply

abbrev pub writes_state : Request → Bool
writes_state (inspects token) = false
writes_state _ = true

abbrev pub replies : {A : Type 0} → (A → Reply) → Action A → Action Reply
replies f m = do a ← m; pure (f a)

unfoldable pub operation : Options → Clock → Request → Action Reply
operation options c (authorizes platform a) = replies granted (authorize options platform c a)
operation options c (inspects token) = replies inspected (inspect_grant c token)
operation options c (reserves token id bytes) = replies reserved (reserve options c token id bytes)
operation options c (renews fresh token id website_identity) =
    replies granted (renew options c fresh token id website_identity)
operation options c (revokes token) = do revoke_grant c token; pure revoked

-- A waiting operation, with the clocks when it is applied, and whether its signal is aborted then.
pub record Waiting : Type 0 where
  pub request : Request
  pub clock : Clock
  pub aborted : Bool

-- The state that the next operation sees, `expiries`, and the greatest time read so far.
pub record Working : Type 0 where
  pub work : Work
  pub highest_wall : ℕ

-- An operation that has run on its copy `copied` is kept if the result is valid. A refused one leaves
-- the state as it was.
abbrev pub keep : Options → Clock → Data → Result Reply × Work → Result Reply × Work
keep options c before (err e, w) = (err e, record w { state = before })
keep options c before (ok reply, w) =
    let next = record w.state { last_wall = c.wall } in
    if valid_data options c.wall next
    then (ok reply, record w { state = next })
    else (err state_invalid, record w { state = before })

abbrev pub read_only : Data → Result Reply × Work → Result Reply × Work
read_only before (r, w) = (r, record w { state = before })

abbrev pub run_one : Options → Clock → Request → Work → Result Reply × Work
run_one options c request w =
    if writes_state request
    then keep options c w.state (operation options c request (prune c.wall w))
    else read_only w.state (operation options c request w)

abbrev pub at_time : ℕ → Result Reply × Work → Result Reply × Working
at_time highest (r, w) = (r, record { work = w; highest_wall = highest })

unfoldable pub apply_waiting : Options → Waiting → Working → Result Reply × Working
apply_waiting options e s =
    if e.aborted
    then (err operation_cancelled, s)
    else if ltb e.clock.wall s.highest_wall
    then (err clock_unavailable, s)
    else if ltb e.clock.wall s.work.state.last_wall
    then (err clock_unavailable, record s { highest_wall = e.clock.wall })
    else at_time e.clock.wall (run_one options e.clock e.request s.work)

-- Whether the operation changed the state that is to be written.
abbrev pub has_written : Request → Result Reply → Bool
has_written request (ok reply) = writes_state request
has_written request (err e) = false

-- The outcomes in arrival order, each with whether it is held until the write.
pub record Batch : Type 0 where
  pub working : Working
  pub writes : Bool
  pub outcomes : List (Bool × Result Reply)

abbrev pub recorded : Request → Result Reply × Working → Bool → List (Bool × Result Reply) → Batch
recorded request (r, s) writes outcomes =
    let held = writes || has_written request r in
    record { working = s; writes = held; outcomes = outcomes ++ (held, r) ∷ [] }

unfoldable pub run_batch : Options → List Waiting → Batch → Batch
run_batch options [] b = b
run_batch options (e ∷ es) b =
    run_batch options es
      (recorded e.request (apply_waiting options e b.working) b.writes b.outcomes)

-- The server between batches: what is written, `expiries`, `highestWall` and `broken`.
pub record Server : Type 0 where
  pub state : Data
  pub expiries : Map Expiry
  pub highest_wall : ℕ
  pub broken : Bool

abbrev pub first_batch : Server → Batch
first_batch s = record {
  working = record {
    work = record { state = s.state; expiries = s.expiries };
    highest_wall = s.highest_wall;
  };
  writes = false;
  outcomes = [];
}

abbrev pub released : Bool × Result Reply → Result Reply
released (held, r) = r

abbrev pub unpersisted : Bool × Result Reply → Result Reply
unpersisted (true, r) = err persistence_unavailable
unpersisted (false, r) = r

abbrev pub settle_server : Data → Bool → Batch → Server
settle_server state broken b = record {
  state = state;
  expiries = b.working.work.expiries;
  highest_wall = b.working.highest_wall;
  broken = broken;
}

-- `write_ok` says whether `store.write` succeeds, if there is something to write.
abbrev pub finish_batch : Bool → Data → Batch → Server × List (Result Reply)
finish_batch write_ok before b =
    if not b.writes
    then (settle_server before false b, map released b.outcomes)
    else if write_ok
    then (settle_server b.working.work.state false b, map released b.outcomes)
    else (settle_server before true b, map unpersisted b.outcomes)

abbrev pub cancelled : Waiting → Result Reply
cancelled e = err operation_cancelled

unfoldable pub drain_batch : Options → Bool → List Waiting → Server → Server × List (Result Reply)
drain_batch options write_ok es s =
    if s.broken
    then (s, map cancelled es)
    else finish_batch write_ok s.state (run_batch options es (first_batch s))

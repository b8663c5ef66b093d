-- ===== src/Charter/Store.antt =====
-- agent/charter_requests.py: `RequestStore`, the executor's SQLite state. A table is a list of its
-- rows, the newest first; `spec.canonical()` and the signature check are the platform's. The
-- statements of `_transition` are definitions of their own: outside a transaction each commits by
-- itself, and the histories (Store/History.antt) take them one at a time.
pub mod Open
pub mod Authorize
pub mod Settle
pub mod Steps
pub mod Trail
pub mod Audit
pub mod History
pub mod Quota
pub mod Moves
pub mod Finality
pub mod Granting
use sentinel_security_platfo.Base.{
  ℕ, ◌+◌, String, Bool, true, false, not, ◌&&◌, ◌||◌, Option, none, some, List, [], ◌∷◌, ◌++◌,
  Result, ok, err, ◌>>=◌, ◌>>◌, require, Txn, commit, commit_raise, rollback, run_txn, any,
  count_if, length, leb, ltb, is_some, ◌==◌, if◌then◌else◌,
}
use sentinel_security_platfo.Base.Table.{find, update}
use sentinel_security_platfo.Charter.Spec.{
  CharterRequestError, Checked, RequestSpec, Expiry, finite, non_finite, not_a_number,
  CharterApproval, Platform, seconds, validate_spec, invalid_approval, approval_replay,
  approval_revoked, approval_rejected, request_expired, request_replay, quota_exhausted,
  post_quota_exhausted, illegal_transition, recovery_required, projection_unverifiable,
}

-- The texts of the `state` column; `observed` is that of rows which an earlier version wrote.
pub data RequestState : Type 0 where
  prepared dispatched unknown terminal observed : RequestState

pub record RequestRow : Type 0 where
  pub id : String
  pub run : String
  pub method : String
  pub path : String
  pub query : String
  pub state : RequestState
  pub ts : ℕ
  pub spec_digest : String
  pub receipt_digest : Option String

pub record DecisionRow : Type 0 where
  pub nonce : String
  pub request_id : String
  pub decision : String
  pub ts : ℕ

pub record RevocationRow : Type 0 where
  pub request_id : String
  pub nonce : String
  pub ts : ℕ

pub record EventRow : Type 0 where
  pub id : String
  pub state : RequestState
  pub ts : ℕ

pub record RequestStore : Type 0 where
  pub requests : List RequestRow
  pub decisions : List DecisionRow
  pub revocations : List RevocationRow
  pub events : List EventRow

abbrev pub row_id : RequestRow → String
row_id r = r.id

abbrev pub row_nonce : DecisionRow → String
row_nonce d = d.nonce

abbrev pub revoked_id : RevocationRow → String
revoked_id v = v.request_id

abbrev pub event_id : EventRow → String
event_id e = e.id

abbrev pub empty_store : RequestStore
empty_store = record { requests = []; decisions = []; revocations = []; events = [] }

-- A method of the store: the state that it leaves, and what it returns or raises.
abbrev pub Action : Type 0
Action = RequestStore → RequestStore × Checked Unit

unfoldable pub find_request : String → RequestStore → Option RequestRow
find_request i s = find row_id i s.requests

abbrev pub row_state : Option RequestRow → Option RequestState
row_state none = none
row_state (some r) = some r.state

-- `state`
unfoldable pub request_state : String → RequestStore → Option RequestState
unfolding find_request
request_state i s = row_state (find_request i s)

unfoldable pub is_revoked : String → RequestStore → Bool
is_revoked i s = is_some (find revoked_id i s.revocations)

-- What an open of the store does to a row, and the event that it records for it.
unfoldable pub recovered_state : RequestState → RequestState
recovered_state prepared = terminal
recovered_state dispatched = unknown
recovered_state s = s

abbrev pub recovered_row : RequestRow → RequestRow
recovered_row r = record r { state = recovered_state r.state }

abbrev pub state_event : RequestState → ℕ → RequestRow → EventRow
state_event state now r = record { id = r.id; state = state; ts = now }

abbrev pub is_prepared : RequestState → Bool
is_prepared prepared = true
is_prepared _ = false

abbrev pub is_dispatched : RequestState → Bool
is_dispatched dispatched = true
is_dispatched _ = false

-- The events of the rows whose state passes the test, one for each row.
unfoldable pub events_for :
    (RequestState → Bool) → RequestState → ℕ → List RequestRow → List EventRow
events_for test state now [] = []
events_for test state now (r ∷ rows) =
    let rest = events_for test state now rows in
    if test r.state then state_event state now r ∷ rest else rest

unfoldable pub recovered_rows : List RequestRow → List RequestRow
unfolding recovered_state
recovered_rows [] = []
recovered_rows (r ∷ rows) = recovered_row r ∷ recovered_rows rows

-- The recovery of `__init__`, on a store whose schema is the expected one.
unfoldable pub open_store : ℕ → RequestStore → RequestStore
unfolding recovered_rows events_for
open_store now s = record s {
  requests = recovered_rows s.requests;
  events =
      events_for is_dispatched unknown now s.requests
      ++ (events_for is_prepared terminal now s.requests ++ s.events);
}

-- The `allowed` table of `_transition`.
unfoldable pub allowed : RequestState → RequestState → Bool
allowed prepared dispatched = true
allowed prepared terminal = true
allowed dispatched unknown = true
allowed dispatched terminal = true
allowed _ _ = false

-- COALESCE(new, old)
abbrev pub coalesce : Option String → Option String → Option String
coalesce none old = old
coalesce (some d) old = some d

abbrev pub set_state : RequestState → Option String → RequestRow → RequestRow
set_state state receipt r = record r {
  state = state;
  receipt_digest = coalesce receipt r.receipt_digest;
}

-- UPDATE requests ... WHERE id=?: whatever the state of the row is by then.
unfoldable pub update_state : String → RequestState → Option String → RequestStore → RequestStore
update_state i state receipt s = record s {
  requests = update row_id i (set_state state receipt) s.requests;
}

-- INSERT INTO events
unfoldable pub insert_event : String → RequestState → ℕ → RequestStore → RequestStore
insert_event i state now s = record s {
  events = record { id = i; state = state; ts = now } ∷ s.events;
}

-- The two statements, with nothing between them.
unfoldable pub write_state : String → RequestState → Option String → ℕ → RequestStore → RequestStore
unfolding update_state insert_event
write_state i state receipt now s = insert_event i state now (update_state i state receipt s)

abbrev pub may_become : RequestState → Option RequestState → Bool
may_become state none = false
may_become state (some from) = allowed from state

-- `_transition`: its SELECT, UPDATE and INSERT, with no other opener and no crash between them. In
-- `dispatch_if_not_revoked` they stand inside its transaction.
unfoldable pub transition : String → RequestState → Option String → ℕ → Action
unfolding request_state write_state allowed
transition i state receipt now s =
    if may_become state (request_state i s)
    then (write_state i state receipt now s, ok tt)
    else (s, err illegal_transition)

unfoldable pub terminalize_pre_target_failure : String → ℕ → Action
unfolding transition
terminalize_pre_target_failure i now = transition i terminal none now

unfoldable pub mark_dispatched : String → ℕ → Action
unfolding transition
mark_dispatched i now = transition i dispatched none now

unfoldable pub mark_unknown : String → ℕ → Action
unfolding transition
mark_unknown i now = transition i unknown none now

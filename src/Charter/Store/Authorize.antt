-- ===== src/Charter/Store/Authorize.antt =====
-- agent/charter_requests.py: `authorize_prepare` and `dispatch_if_not_revoked`.
use sentinel_security_platfo.Base.{
  ℕ, ◌+◌, String, Bool, false, not, ◌&&◌, none, List, ◌∷◌, ok, err, Txn, commit, commit_raise,
  rollback, run_txn, any, count_if, leb, ltb, is_some, ◌==◌, if◌then◌else◌,
}
use sentinel_security_platfo.Base.Table.{find}
use sentinel_security_platfo.Charter.Spec.{
  CharterRequestError, Checked, RequestSpec, Expiry, finite, CharterApproval, Platform, seconds,
  validate_spec, invalid_approval, approval_replay, approval_revoked, approval_rejected,
  request_expired, request_replay, quota_exhausted, post_quota_exhausted,
}
use sentinel_security_platfo.Charter.Approval.{digest, verify}
use sentinel_security_platfo.Charter.Store.{
  prepared, dispatched, terminal, RequestRow, DecisionRow, RevocationRow, RequestStore, Action,
  row_nonce, find_request, is_revoked, transition,
}

abbrev pub StoreTxn : Type 0
StoreTxn = Txn RequestStore CharterRequestError Unit

unfoldable pub has_nonce : String → RequestStore → Bool
has_nonce n s = is_some (find row_nonce n s.decisions)

-- `spec.expires_at <= now`
abbrev pub is_expired : Expiry → ℕ → Bool
is_expired (finite t) now = leb t now
is_expired _ now = false

-- `ts > now - 60`, with nothing taken from a clock that stands below sixty seconds
abbrev pub is_recent : ℕ → RequestRow → Bool
is_recent now r = ltb now (r.ts + seconds 60)

unfoldable pub recent_requests : ℕ → List RequestRow → ℕ
unfolding count_if
recent_requests now = count_if (is_recent now)

abbrev pub is_post_of : String → RequestRow → Bool
is_post_of run r = r.run == run && r.method == "POST"

unfoldable pub has_post : String → List RequestRow → Bool
unfolding any
has_post run = any (is_post_of run)

abbrev pub decision_row : CharterApproval → RequestSpec → ℕ → DecisionRow
decision_row a spec now = record {
  nonce = a.nonce;
  request_id = spec.request_id;
  decision = a.decision;
  ts = now;
}

unfoldable pub add_decision : DecisionRow → RequestStore → RequestStore
add_decision d s = record s { decisions = d ∷ s.decisions }

-- INSERT ... ON CONFLICT(request_id) DO NOTHING
unfoldable pub add_revocation : RevocationRow → RequestStore → RequestStore
unfolding is_revoked
add_revocation v s =
    if is_revoked v.request_id s then s else record s { revocations = v ∷ s.revocations }

abbrev pub prepared_row : Platform → RequestSpec → ℕ → RequestRow
prepared_row p spec now = record {
  id = spec.request_id;
  run = spec.run_id;
  method = spec.method;
  path = spec.path;
  query = spec.query;
  state = prepared;
  ts = now;
  spec_digest = digest p spec;
  receipt_digest = none;
}

unfoldable pub add_request : RequestRow → RequestStore → RequestStore
add_request r s = record s {
  requests = r ∷ s.requests;
  events = record { id = r.id; state = r.state; ts = r.ts } ∷ s.events;
}

-- The tests that follow an approving decision; `s` holds the decision already.
unfoldable pub reserve_txn : Platform → RequestSpec → ℕ → RequestStore → StoreTxn
unfolding is_revoked find_request recent_requests has_post add_request
reserve_txn p spec now s =
    if is_revoked spec.request_id s
    then rollback approval_revoked
    else if is_expired spec.expires_at now
    then rollback request_expired
    else if is_some (find_request spec.request_id s)
    then rollback request_replay
    else if leb 5 (recent_requests now s.requests)
    then rollback quota_exhausted
    else if spec.method == "POST" && has_post spec.run_id s.requests
    then rollback post_quota_exhausted
    else commit (add_request (prepared_row p spec now) s) tt

-- The transaction of `authorize_prepare`.
unfoldable pub authorize_txn :
    Platform → RequestSpec → CharterApproval → ℕ → RequestStore → StoreTxn
unfolding has_nonce add_decision add_revocation reserve_txn
authorize_txn p spec a now s =
    let decided = add_decision (decision_row a spec now) s in
    if has_nonce a.nonce s
    then rollback approval_replay
    else if a.decision == "revoke"
    then commit_raise
        (add_revocation (record { request_id = spec.request_id; nonce = a.nonce; ts = now })
          decided)
        approval_revoked
    else if not (a.decision == "approve")
    then commit_raise decided approval_rejected
    else reserve_txn p spec now decided

-- `verify` reads the clock first, at `checked`, and the transaction at `now`.
unfoldable pub authorize_prepare : Platform → RequestSpec → CharterApproval → ℕ → ℕ → Action
unfolding authorize_txn
authorize_prepare p spec a checked now s = elim (validate_spec p spec) [
  | err e ↦ (s, err e)
  | ok u ↦
      if verify p a spec checked
      then run_txn s (authorize_txn p spec a now s)
      else (s, err invalid_approval)
]

-- A transition inside a transaction: its refusal rolls the transaction back.
unfoldable pub after_transition : RequestStore × Checked Unit → (RequestStore → StoreTxn) → StoreTxn
after_transition (t, ok u) done = done t
after_transition (t, err e) done = rollback e

-- A revocation that was recorded first makes the request terminal.
unfoldable pub dispatch_txn : String → ℕ → RequestStore → StoreTxn
unfolding is_revoked transition after_transition
dispatch_txn i now s =
    if is_revoked i s
    then after_transition (transition i terminal none now s) (λ t. commit_raise t approval_revoked)
    else after_transition (transition i dispatched none now s) (λ t. commit t tt)

unfoldable pub dispatch_if_not_revoked : String → ℕ → Action
unfolding dispatch_txn
dispatch_if_not_revoked i now s = run_txn s (dispatch_txn i now s)

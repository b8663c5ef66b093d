-- ===== src/Charter/Tests.antt =====
-- Runs of the charter store and executor on concrete requests, and their theorems at them.
use sentinel_security_platfo.Base.{
  All, none, ◌≡◌, refl, ◌≢◌, ◌↔◌, ◌⊎◌, inr, true, false, some, [], ◌∷◌, ok, codes, arith, count_if,
  any,
}
use sentinel_security_platfo.Base.Table.{find, update}
use sentinel_security_platfo.Charter.Fixtures.{platform, spec, approval, spec-IsGranted, executor}
use sentinel_security_platfo.Charter.Spec.{CharterApproval, validate_spec, purpose_for}
use sentinel_security_platfo.Charter.Approval.{verify}
use sentinel_security_platfo.Charter.Store.{
  RequestStore, dispatched, unknown, empty_store, request_state, is_revoked, open_store,
  update_state,
}
use sentinel_security_platfo.Charter.Store.Authorize.{
  has_nonce, add_decision, add_request, authorize_prepare, dispatch_if_not_revoked,
}
use sentinel_security_platfo.Charter.Store.Settle.{refuse_observed}
use sentinel_security_platfo.Charter.Store.Audit.{
  IsConsistent, History-IsConsistent, empty_store-IsConsistent,
}
use sentinel_security_platfo.Charter.Store.Quota.{
  IsMetered, History-IsMetered, empty_store-IsMetered,
}
use sentinel_security_platfo.Charter.Store.Granting.{
  IsGranted, reserved, IsRecorded, authorize_prepare_iff, authorize_prepare-refused,
}
use sentinel_security_platfo.Charter.Store.Finality.{
  History-revoked, History-IsOver, IsOver, replay_refused,
}
use sentinel_security_platfo.Charter.Store.History.{
  History, here, then_call, opens, authorizes, dispatches, overwrites,
}
use sentinel_security_platfo.Charter.Guard.{guard_response_preview}
use sentinel_security_platfo.Charter.Guard.Media.{text_eq}
use sentinel_security_platfo.Charter.Guard.Prefix.{prefix_from, encoded_length}
use sentinel_security_platfo.Charter.Execute.{response_receipt, preview_receipt, execute}
use sentinel_security_platfo.Charter.Execute.Stages.{IsCleared}
use sentinel_security_platfo.Charter.Execute.Network.{
  UsesNetwork, execute-UsesNetwork, execute-io_known, execute-target, IsCharterCall,
}
use sentinel_security_platfo.Charter.Execute.Settled.{IsAnswered, execute-ok}

executor-cleared : IsCleared executor spec approval empty_store
executor-cleared = spec-IsGranted

execute_run :
    (execute executor spec approval empty_store).result
    ≡ ok (preview_receipt "r1" 200 2 "r1" (codes "[]") false)
unfolding execute purpose_for validate_spec refuse_observed authorize_prepare
    dispatch_if_not_revoked find update count_if any guard_response_preview prefix_from
    encoded_length text_eq response_receipt verify
execute_run = refl

execute-UsesNetwork_example :
    UsesNetwork executor spec approval empty_store (execute executor spec approval empty_store).io
execute-UsesNetwork_example = execute-UsesNetwork executor spec approval empty_store

execute-ok_example : IsAnswered executor spec approval empty_store
execute-ok_example = execute-ok executor spec approval empty_store _ execute_run

-- A store in which the request was prepared.
abbrev prepared_store : RequestStore
prepared_store = reserved platform spec approval 1 2 empty_store

abbrev revoked_store : RequestStore
revoked_store = record empty_store {
  revocations = record { request_id = "r1"; nonce = "n0"; ts = 1 } ∷ [];
}

abbrev revoked_prepared : RequestStore
revoked_prepared = record prepared_store { revocations = revoked_store.revocations }

execute-io_known_example : (execute executor spec approval revoked_store).io ≡ []
unfolding is_revoked find
execute-io_known_example = execute-io_known executor spec approval revoked_store (inr refl)

execute-target_example :
    All (IsCharterCall spec.query) (execute executor spec approval empty_store).io
execute-target_example = execute-target executor spec approval empty_store

authorize_prepare_iff_example :
    (authorize_prepare platform spec approval 1 2 empty_store
      ≡ (reserved platform spec approval 1 2 empty_store, ok tt))
    ↔ IsGranted platform spec approval 1 2 empty_store
authorize_prepare_iff_example = authorize_prepare_iff platform spec approval 1 2 empty_store

abbrev revoke : CharterApproval
revoke = record approval { decision = "revoke" }

authorize_prepare-refused_example :
    ((authorize_prepare platform spec revoke 1 2 empty_store).0 ≡ empty_store)
    ⊎ IsRecorded platform spec revoke 1 2 empty_store
        (authorize_prepare platform spec revoke 1 2 empty_store).0
unfolding authorize_prepare purpose_for validate_spec find verify
authorize_prepare-refused_example =
    authorize_prepare-refused platform spec revoke 1 2 empty_store (λ e. cc)

-- A reservation, a dispatch, and an open that finds the request in flight.
abbrev after_dispatch : RequestStore
after_dispatch =
    (dispatch_if_not_revoked "r1" 3 (authorize_prepare platform spec approval 1 2 empty_store).0).0

run-History : History 0 empty_store 9 (open_store 9 after_dispatch)
run-History =
    then_call
      (then_call (then_call here (omega arith) (authorizes platform spec approval 1)) (omega arith)
        (dispatches "r1"))
      (omega arith) opens

recovered : request_state "r1" (open_store 9 after_dispatch) ≡ some unknown
unfolding open_store dispatch_if_not_revoked authorize_prepare purpose_for validate_spec find update
    count_if any verify request_state
recovered = refl

History-IsMetered_example : IsMetered 9 (open_store 9 after_dispatch)
History-IsMetered_example = History-IsMetered run-History (empty_store-IsMetered 0)

History-IsConsistent_example : IsConsistent (open_store 9 after_dispatch)
History-IsConsistent_example = History-IsConsistent run-History empty_store-IsConsistent

abbrev revoked_history : RequestStore
revoked_history = (dispatch_if_not_revoked "r1" 4 revoked_store).0

revoked_calls : History 0 revoked_store 4 revoked_history
revoked_calls = then_call here (omega arith) (dispatches "r1")

History-revoked_example :
    (is_revoked "r1" revoked_history ≡ true)
    × (request_state "r1" revoked_history ≢ some dispatched)
unfolding is_revoked find request_state
History-revoked_example = History-revoked "r1" revoked_calls (refl, λ e. cc)

abbrev terminal_store : RequestStore
terminal_store = (dispatch_if_not_revoked "r1" 4 revoked_prepared).0

-- The UPDATE of an `unknown` whose SELECT came before the request was settled, then an open.
abbrev overwritten : RequestStore
overwritten = open_store 9 (update_state "r1" unknown none terminal_store)

late_update : History 0 terminal_store 9 overwritten
late_update =
    then_call (then_call {now = 0} {later = 5} here (omega arith) (overwrites "r1" unknown refl))
      (omega arith) opens

History-IsOver_example : IsOver (request_state "r1" overwritten)
unfolding dispatch_if_not_revoked is_revoked find update request_state add_request
History-IsOver_example = History-IsOver "r1" late_update ((λ e. cc), (λ e. cc), (λ e. cc))

reverted : request_state "r1" overwritten ≡ some unknown
unfolding dispatch_if_not_revoked is_revoked find update request_state add_request update_state
    open_store
reverted = refl

prepared_reopened : History 0 prepared_store 5 (open_store 5 prepared_store)
prepared_reopened = then_call here (omega arith) opens

replay_refused_example :
    ((authorize_prepare platform spec approval 5 6 (open_store 5 prepared_store)).0
      ≡ open_store 5 prepared_store)
    × ((authorize_prepare platform spec approval 5 6 (open_store 5 prepared_store)).1 ≢ ok tt)
unfolding has_nonce add_decision add_request find
replay_refused_example = replay_refused platform spec approval 5 6 refl prepared_reopened

-- ===== src/Workbench/Dispatch.antt =====
-- workbench/b3_dispatcher.py: `B3Dispatcher.dispatch`, one provider call for one reading of one unit.
-- Other processes share the attempt database: `meanwhile` is what they do before the dispatch is
-- recorded, `during_call` what they do while the provider answers. A transport that raises answers
-- none. The run keeps the prompts that were handed to the transport.
pub mod Outcome
pub mod Sent
pub mod Settled
pub mod Once
use sentinel_security_platfo.Base.{
  ℕ, String, Bool, true, false, not, ◌||◌, Option, none, some, List, [], ◌∷◌, Result, ok, err, ltb,
  if◌then◌else◌,
}
use sentinel_security_platfo.Workbench.Attempts.{
  AttemptStatus, succeeded, AttemptStoreViolation, bad_digest, primary_key_used, B3Attempt,
  AttemptStore, Reservation, reserve, mark_dispatched, mark_unknown, mark_terminal, mark_rejected,
}
use sentinel_security_platfo.Workbench.Egress.{
  EgressViolation, EgressTools, SelectionManifest, PreparedB3Request, ProviderResponse,
  QuarantinedResponse, admitted_unit_ids, prepare_b3_request, quarantine_response,
}

pub data B3DispatcherViolation : Type 0 where
  unauthorized_dispatch route_unhealthy provider_unknown : B3DispatcherViolation
  reservation_refused : AttemptStoreViolation → B3DispatcherViolation
  egress_refused : EgressViolation → B3DispatcherViolation
  dispatch_refused : AttemptStoreViolation → B3DispatcherViolation
  -- What the store raised, where nothing catches it.
  store_raised : AttemptStoreViolation → B3DispatcherViolation

pub record B3DispatchReceipt : Type 0 where
  pub attempt_id : String
  pub run_id : String
  pub reading : ℕ
  pub unit_id : String
  pub status : AttemptStatus
  pub proposal_ids : List String
  pub response_digest : String

pub record Host : Type 0 where
  pub tools : EgressTools
  pub route_id : String
  pub is_healthy : Bool
  pub transport : String → Option ProviderResponse
  pub meanwhile : AttemptStore → AttemptStore
  pub during_call : AttemptStore → AttemptStore

-- The arguments of `dispatch`, and the attempt id that `reserve` draws.
pub record DispatchRequest : Type 0 where
  pub run_id : String
  pub selection : SelectionManifest
  pub reading : ℕ
  pub unit_id : String
  pub fresh_id : String

pub record DispatchRun : Type 0 where
  pub store : AttemptStore
  pub sent : List String
  pub result : Result B3DispatcherViolation B3DispatchReceipt

abbrev pub run :
    AttemptStore → List String → Result B3DispatcherViolation B3DispatchReceipt → DispatchRun
run s sent r = record { store = s; sent = sent; result = r }

abbrev pub reservation : Host → DispatchRequest → Reservation
reservation h q = record {
  run_id = q.run_id;
  arm = "B3";
  replication = q.reading;
  selection_manifest_digest = q.selection.digest;
  profile = h.route_id;
  unit_id = q.unit_id;
}

-- The last handler: the outcome is unknown, and a store that refuses even that is passed over.
unfoldable pub lose_outcome : String → List String → AttemptStore → DispatchRun
lose_outcome i sent s =
    run (mark_unknown i "provider-transport-or-quarantine-failed" s).0 sent (err provider_unknown)

unfoldable pub close :
    DispatchRequest
    → String
    → List String
    → QuarantinedResponse
    → AttemptStore × Result AttemptStoreViolation B3Attempt
    → DispatchRun
unfolding lose_outcome
close q i sent kept (s, err e) = lose_outcome i sent s
close q i sent kept (s, ok a) = run s sent (
    ok (record {
      attempt_id = i;
      run_id = q.run_id;
      reading = q.reading;
      unit_id = q.unit_id;
      status = succeeded;
      proposal_ids = kept.proposals;
      response_digest = kept.response_digest;
    }))

unfoldable pub after_quarantine :
    DispatchRequest
    → String
    → List String
    → Result EgressViolation QuarantinedResponse
    → AttemptStore
    → DispatchRun
unfolding close lose_outcome
after_quarantine q i sent (err e) s = lose_outcome i sent s
after_quarantine q i sent (ok kept) s = close q i sent kept (mark_terminal i succeeded s)

unfoldable pub after_call :
    Host
    → DispatchRequest
    → String
    → List String
    → Option ProviderResponse
    → AttemptStore
    → DispatchRun
unfolding after_quarantine lose_outcome
after_call h q i sent none s = lose_outcome i sent s
after_call h q i sent (some response) s =
    after_quarantine q i sent (quarantine_response h.tools (admitted_unit_ids q.selection) response)
      s

unfoldable pub after_mark :
    Host
    → DispatchRequest
    → String
    → String
    → AttemptStore × Result AttemptStoreViolation B3Attempt
    → DispatchRun
unfolding after_call
after_mark h q i prompt (s, err e) =
    run (mark_rejected i "revoked-or-invalid-before-provider-dispatch" s).0 []
      (err (dispatch_refused e))
after_mark h q i prompt (s, ok a) =
    after_call h q i (prompt ∷ []) (h.transport prompt) (h.during_call s)

unfoldable pub refuse_egress :
    EgressViolation → AttemptStore × Result AttemptStoreViolation B3Attempt → DispatchRun
refuse_egress e (s, ok a) = run s [] (err (egress_refused e))
refuse_egress e (s, err v) = run s [] (err (store_raised v))

unfoldable pub after_prepare :
    Host
    → DispatchRequest
    → String
    → Result EgressViolation PreparedB3Request
    → AttemptStore
    → DispatchRun
unfolding after_mark refuse_egress
after_prepare h q i (err e) s = refuse_egress e (mark_rejected i "egress-admission-failed" s)
after_prepare h q i (ok prepared) s =
    after_mark h q i prepared.prompt (mark_dispatched i h.route_id (h.meanwhile s))

-- `except AttemptStoreViolation`
abbrev pub reservation_error : AttemptStoreViolation → B3DispatcherViolation
reservation_error bad_digest = store_raised bad_digest
reservation_error primary_key_used = store_raised primary_key_used
reservation_error e = reservation_refused e

unfoldable pub after_reserve :
    Host → DispatchRequest → AttemptStore × Result AttemptStoreViolation B3Attempt → DispatchRun
unfolding after_prepare
after_reserve h q (s, err e) = run s [] (err (reservation_error e))
after_reserve h q (s, ok a) =
    after_prepare h q a.attempt_id (prepare_b3_request h.tools q.selection q.unit_id h.route_id) s

unfoldable pub dispatch : Host → DispatchRequest → AttemptStore → DispatchRun
unfolding after_reserve
dispatch h q s =
    if not q.selection.is_authorized || (ltb q.reading 1 || ltb 3 q.reading)
    then run s [] (err unauthorized_dispatch)
    else if not h.is_healthy
    then run s [] (err route_unhealthy)
    else after_reserve h q (reserve (reservation h q) q.fresh_id s)

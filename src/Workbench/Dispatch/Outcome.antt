-- ===== src/Workbench/Dispatch/Outcome.antt =====
-- What a dispatch leaves in the attempt store, and that a reading is sent to the provider once.
use sentinel_security_platfo.Base.{String, Option, none, some, List, [], ◌∷◌, Result, ok, err}
use sentinel_security_platfo.Workbench.Attempts.{
  succeeded, AttemptStoreViolation, B3Attempt, AttemptStore, mark_dispatched, mark_terminal,
  mark_rejected,
}
use sentinel_security_platfo.Workbench.Attempts.History.{
  AttemptHistory, start, and_call, marks_dispatched, marks_unknown, marks_terminal, marks_rejected,
}
use sentinel_security_platfo.Workbench.Egress.{
  EgressViolation, PreparedB3Request, ProviderResponse, QuarantinedResponse, prepare_b3_request,
  quarantine_response, admitted_unit_ids,
}
use sentinel_security_platfo.Workbench.Dispatch.{
  Host, DispatchRequest, lose_outcome, close, after_quarantine, after_call, after_mark,
  refuse_egress, after_prepare, after_reserve,
}

pub trans_history :
    {s t u : AttemptStore} → AttemptHistory s t → AttemptHistory t u → AttemptHistory s u
trans_history first start = first
trans_history first (and_call hist call) = and_call (trans_history first hist) call

-- The other processes only call the store's methods.
abbrev pub IsShared : Host → Type 0
IsShared h =
    ((s : AttemptStore) → AttemptHistory s (h.meanwhile s))
    × ((s : AttemptStore) → AttemptHistory s (h.during_call s))

lose_outcome-History :
    (i : String) (sent : List String) (s : AttemptStore)
    → AttemptHistory s (lose_outcome i sent s).store
unfolding lose_outcome
lose_outcome-History i sent s =
    and_call start (marks_unknown i "provider-transport-or-quarantine-failed")

close-History :
    (q : DispatchRequest) (i : String) (sent : List String) (kept : QuarantinedResponse)
    (r : AttemptStore × Result AttemptStoreViolation B3Attempt)
    → AttemptHistory r.0 (close q i sent kept r).store
unfolding close
close-History q i sent kept (s, err e) = lose_outcome-History i sent s
close-History q i sent kept (s, ok a) = start

after_quarantine-History :
    (q : DispatchRequest) (i : String) (sent : List String)
    (r : Result EgressViolation QuarantinedResponse) (s : AttemptStore)
    → AttemptHistory s (after_quarantine q i sent r s).store
unfolding after_quarantine
after_quarantine-History q i sent (err e) s = lose_outcome-History i sent s
after_quarantine-History q i sent (ok kept) s =
    trans_history (and_call start (marks_terminal i succeeded))
      (close-History q i sent kept (mark_terminal i succeeded s))

pub after_call-History :
    (h : Host) (q : DispatchRequest) (i : String) (sent : List String) (r : Option ProviderResponse)
    (s : AttemptStore)
    → AttemptHistory s (after_call h q i sent r s).store
unfolding after_call
after_call-History h q i sent none s = lose_outcome-History i sent s
after_call-History h q i sent (some r) s =
    after_quarantine-History q i sent
      (quarantine_response h.tools (admitted_unit_ids q.selection) r) s

module _ (h : Host) (shared : IsShared h) (q : DispatchRequest) where
  pub after_mark-History :
      (i prompt : String) (r : AttemptStore × Result AttemptStoreViolation B3Attempt)
      → AttemptHistory r.0 (after_mark h q i prompt r).store
  unfolding after_mark
  after_mark-History i prompt (s, err e) =
      and_call start (marks_rejected i "revoked-or-invalid-before-provider-dispatch")
  after_mark-History i prompt (s, ok a) =
      trans_history (shared.1 s)
        (after_call-History h q i (prompt ∷ []) (h.transport prompt) (h.during_call s))

  refuse_egress-History :
      (e : EgressViolation) (r : AttemptStore × Result AttemptStoreViolation B3Attempt)
      → AttemptHistory r.0 (refuse_egress e r).store
  unfolding refuse_egress
  refuse_egress-History e (s, ok a) = start
  refuse_egress-History e (s, err v) = start

  pub after_prepare-History :
      (i : String) (r : Result EgressViolation PreparedB3Request) (s : AttemptStore)
      → AttemptHistory s (after_prepare h q i r s).store
  unfolding after_prepare
  after_prepare-History i (err e) s =
      trans_history (and_call start (marks_rejected i "egress-admission-failed"))
        (refuse_egress-History e (mark_rejected i "egress-admission-failed" s))
  after_prepare-History i (ok prepared) s =
      trans_history (and_call (shared.0 s) (marks_dispatched i h.route_id))
        (after_mark-History i prepared.prompt (mark_dispatched i h.route_id (h.meanwhile s)))

  pub after_reserve-History :
      (r : AttemptStore × Result AttemptStoreViolation B3Attempt)
      → AttemptHistory r.0 (after_reserve h q r).store
  unfolding after_reserve
  after_reserve-History (s, err e) = start
  after_reserve-History (s, ok a) =
      after_prepare-History a.attempt_id
        (prepare_b3_request h.tools q.selection q.unit_id h.route_id) s

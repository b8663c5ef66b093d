-- ===== src/Workbench/Dispatch/Settled.antt =====
-- A prompt that was handed to the transport leaves a settled attempt, and no later dispatch sends
-- its reading again.
use sentinel_security_platfo.Base.{
  String, ◌≡◌, refl, ◌≢◌, inl, inr, not, ◌||◌, Option, none, some, List, [], ◌∷◌, Result, ok, err,
  ltb, Bool-cases,
}
use sentinel_security_platfo.Base.Table.{IsKeyed}
use sentinel_security_platfo.Workbench.Attempts.{
  succeeded, unknown, AttemptStoreViolation, B3Attempt, AttemptStore, attempt_key, reserve,
  mark_dispatched, mark_unknown, mark_terminal,
}
use sentinel_security_platfo.Workbench.Attempts.History.{
  start, and_call, marks_dispatched, marks_terminal, AttemptHistory-IsExactlyOnce, IsExactlyOnce,
}
use sentinel_security_platfo.Workbench.Egress.{
  EgressViolation, PreparedB3Request, ProviderResponse, QuarantinedResponse, prepare_b3_request,
  quarantine_response, admitted_unit_ids,
}
use sentinel_security_platfo.Workbench.Dispatch.{
  Host, DispatchRequest, reservation, lose_outcome, close, after_quarantine, after_call, after_mark,
  refuse_egress, after_prepare, after_reserve, dispatch,
}
use sentinel_security_platfo.Workbench.Dispatch.Outcome.{IsShared}
use sentinel_security_platfo.Workbench.Dispatch.Sent.{
  IsUnderway, IsSettledAt, transition-settles, settled-IsUnderway, History-IsUnderway,
  dispatched-IsUnderway,
}

lose_outcome-settles :
    (i : String) (sent : List String) (s : AttemptStore)
    → IsKeyed attempt_key s.attempts
    → IsUnderway i s
    → IsSettledAt i (lose_outcome i sent s).store
unfolding lose_outcome mark_unknown
lose_outcome-settles i sent s keyed going =
    transition-settles i unknown (some "provider-transport-or-quarantine-failed") s refl keyed going

close-settles :
    (q : DispatchRequest) (i : String) (sent : List String) (kept : QuarantinedResponse)
    (r : AttemptStore × Result AttemptStoreViolation B3Attempt)
    → IsKeyed attempt_key r.0.attempts
    → IsSettledAt i r.0
    → IsSettledAt i (close q i sent kept r).store
unfolding close
close-settles q i sent kept (s, err e) keyed done =
    lose_outcome-settles i sent s keyed (settled-IsUnderway i s done)
close-settles q i sent kept (s, ok a) keyed done = done

mark_terminal-settles :
    (i : String) (s : AttemptStore)
    → IsKeyed attempt_key s.attempts
    → IsUnderway i s
    → IsSettledAt i (mark_terminal i succeeded s).0
unfolding mark_terminal
mark_terminal-settles i s keyed going = transition-settles i succeeded none s refl keyed going

after_quarantine-settles :
    (q : DispatchRequest) (i : String) (sent : List String)
    (r : Result EgressViolation QuarantinedResponse) (s : AttemptStore)
    → IsExactlyOnce s
    → IsUnderway i s
    → IsSettledAt i (after_quarantine q i sent r s).store
unfolding after_quarantine
after_quarantine-settles q i sent (err e) s once going = lose_outcome-settles i sent s once.1 going
after_quarantine-settles q i sent (ok kept) s once going =
    let then_once =
      AttemptHistory-IsExactlyOnce (and_call start (marks_terminal i succeeded)) once in
    close-settles q i sent kept (mark_terminal i succeeded s) then_once.1
      (mark_terminal-settles i s once.1 going)

after_call-settles :
    (h : Host) (q : DispatchRequest) (i : String) (sent : List String) (r : Option ProviderResponse)
    (s : AttemptStore)
    → IsExactlyOnce s
    → IsUnderway i s
    → IsSettledAt i (after_call h q i sent r s).store
unfolding after_call
after_call-settles h q i sent none s once going = lose_outcome-settles i sent s once.1 going
after_call-settles h q i sent (some r) s once going =
    after_quarantine-settles q i sent
      (quarantine_response h.tools (admitted_unit_ids q.selection) r) s once going

module _ (h : Host) (shared : IsShared h) (q : DispatchRequest) where
  after_mark-settles :
      (i prompt : String) (r : AttemptStore × Result AttemptStoreViolation B3Attempt)
      → IsExactlyOnce r.0
      → ((b : B3Attempt) → r.1 ≡ ok b → IsUnderway i r.0)
      → (after_mark h q i prompt r).sent ≢ []
      → IsSettledAt i (after_mark h q i prompt r).store
  unfolding after_mark
  after_mark-settles i prompt (s, err e) once going sent = absurd (sent refl)
  after_mark-settles i prompt (s, ok a) once going sent =
      after_call-settles h q i (prompt ∷ []) (h.transport prompt) (h.during_call s)
        (AttemptHistory-IsExactlyOnce (shared.1 s) once)
        (History-IsUnderway i (shared.1 s) (going a refl))

  refuse_egress-silent :
      (e : EgressViolation) (r : AttemptStore × Result AttemptStoreViolation B3Attempt)
      → (refuse_egress e r).sent ≡ []
  unfolding refuse_egress
  refuse_egress-silent e (s, ok a) = refl
  refuse_egress-silent e (s, err v) = refl

  after_prepare-settles :
      (i : String) (r : Result EgressViolation PreparedB3Request) (s : AttemptStore)
      → IsExactlyOnce s
      → (after_prepare h q i r s).sent ≢ []
      → IsSettledAt i (after_prepare h q i r s).store
  unfolding after_prepare
  after_prepare-settles i (err e) s once sent = absurd (sent (refuse_egress-silent e _))
  after_prepare-settles i (ok prepared) s once sent =
      let before = AttemptHistory-IsExactlyOnce (shared.0 s) once in
      after_mark-settles i prepared.prompt (mark_dispatched i h.route_id (h.meanwhile s))
        (AttemptHistory-IsExactlyOnce (and_call (shared.0 s) (marks_dispatched i h.route_id)) once)
        (λ b done. dispatched-IsUnderway i h.route_id (h.meanwhile s) b before.1 done) sent

  pub after_reserve-settles :
      (s : AttemptStore) (r : AttemptStore × Result AttemptStoreViolation B3Attempt)
      → IsExactlyOnce r.0
      → (after_reserve h q r).sent ≢ []
      → (a : B3Attempt) × (r.1 ≡ ok a) × IsSettledAt a.attempt_id (after_reserve h q r).store
  unfolding after_reserve
  after_reserve-settles s (t, err e) once sent = absurd (sent refl)
  after_reserve-settles s (t, ok a) once sent = (
    a,
    refl,
    after_prepare-settles a.attempt_id (prepare_b3_request h.tools q.selection q.unit_id h.route_id)
        t once sent,
  )

  -- A dispatch that sends anything passes its guards.
  pub sent_after_reserve :
      (s : AttemptStore)
      → (dispatch h q s).sent ≢ []
      → dispatch h q s ≡ after_reserve h q (reserve (reservation h q) q.fresh_id s)
  unfolding dispatch
  sent_after_reserve s sent =
      elim (Bool-cases (not q.selection.is_authorized || (ltb q.reading 1 || ltb 3 q.reading))) [
        | inl refused ↦ absurd (sent (rw refused refl))
        | inr admitted ↦ elim (Bool-cases h.is_healthy) [
          | inr down ↦ absurd (sent (rw (admitted, down) refl))
          | inl up ↦ rw (admitted, up) refl
        ]
      ]

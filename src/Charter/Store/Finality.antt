-- ===== src/Charter/Store/Finality.antt =====
-- What no history undoes: revocations, used nonces, the end of a request.
use sentinel_security_platfo.Base.{
  ℕ, String, ◌≡◌, refl, ◌≢◌, inl, inr, Bool, true, Option, none, some, ok, arith, Bool-cases,
  Result-cases,
}
use sentinel_security_platfo.Base.Table.{find}
use sentinel_security_platfo.Charter.Spec.{RequestSpec, CharterApproval, Platform, validate_spec}
use sentinel_security_platfo.Charter.Approval.{verify}
use sentinel_security_platfo.Charter.Store.{
  RequestState, prepared, dispatched, unknown, terminal, observed, RequestStore, request_state,
  is_revoked, open_store, write_state, update_state, insert_event,
}
use sentinel_security_platfo.Charter.Store.Authorize.{
  has_nonce, add_decision, add_revocation, add_request, authorize_prepare, authorize_txn,
}
use sentinel_security_platfo.Charter.Store.Steps.{
  dispatch, give_up, fail, lose, settle, Write, decide, revoke, reserve, move, recover, overwrite,
  log, is_ending,
}
use sentinel_security_platfo.Charter.Store.Moves.{StateStep, same, born, moved, late, Write-StepOf}
use sentinel_security_platfo.Charter.Store.History.{History, History_induction}

-- Revocations and used nonces are never deleted.
Write-is_revoked :
    (i : String) {now : ℕ} {s t : RequestStore}
    → Write now s t
    → is_revoked i s ≡ true
    → is_revoked i t ≡ true
unfolding is_revoked add_decision add_revocation add_request write_state open_store find
    update_state insert_event
Write-is_revoked i (decide d s new) h = h
Write-is_revoked i (revoke v s) h = ground arith
Write-is_revoked i (reserve r s new live room post at fresh) h = h
Write-is_revoked i (move j from to receipt s found legal) h = h
Write-is_revoked i (recover s) h = h
Write-is_revoked i (overwrite j to s ends) h = h
Write-is_revoked i (log j to s ends) h = h

Write-has_nonce :
    (n : String) {now : ℕ} {s t : RequestStore}
    → Write now s t
    → has_nonce n s ≡ true
    → has_nonce n t ≡ true
unfolding has_nonce add_decision add_revocation add_request write_state open_store find update_state
    insert_event
Write-has_nonce n (decide d s new) h = ground arith
Write-has_nonce n (revoke v s) h = ground arith
Write-has_nonce n (reserve r s new live room post at fresh) h = h
Write-has_nonce n (move j from to receipt s found legal) h = h
Write-has_nonce n (recover s) h = h
Write-has_nonce n (overwrite j to s ends) h = h
Write-has_nonce n (log j to s ends) h = h

-- The request exists, and is neither waiting to be sent nor in flight.
abbrev pub IsOver : Option RequestState → Type 0
IsOver o = (o ≢ none) × (o ≢ some prepared) × (o ≢ some dispatched)

ending-IsOver : (to : RequestState) → is_ending to ≡ true → IsOver (some to)
ending-IsOver prepared h = cc
ending-IsOver dispatched h = cc
ending-IsOver observed h = cc
ending-IsOver unknown h = ((λ e. cc), (λ e. cc), (λ e. cc))
ending-IsOver terminal h = ((λ e. cc), (λ e. cc), (λ e. cc))

step-IsOver : {o o' : Option RequestState} {b : Bool} → StateStep o o' b → IsOver o → IsOver o'
step-IsOver same h = h
step-IsOver born h = absurd (h.0 refl)
step-IsOver (moved dispatch) h = absurd (h.1 refl)
step-IsOver (moved give_up) h = ending-IsOver terminal refl
step-IsOver (moved fail) h = ending-IsOver terminal refl
step-IsOver (moved lose) h = ending-IsOver unknown refl
step-IsOver (moved settle) h = ending-IsOver terminal refl
step-IsOver (late {to = to} ends) h = ending-IsOver to ends

-- A step of a revoked request does not dispatch it.
step_revoked :
    {o o' : Option RequestState} {b : Bool}
    → StateStep o o' b
    → b ≡ true
    → o ≢ some dispatched
    → o' ≢ some dispatched
step_revoked same r h = h
step_revoked born r h = cc
step_revoked (moved dispatch) r h = cc
step_revoked (moved give_up) r h = cc
step_revoked (moved fail) r h = cc
step_revoked (moved lose) r h = cc
step_revoked (moved settle) r h = cc
step_revoked (late {to = to} ends) r h = (ending-IsOver to ends).2

-- A request that is in the table, and neither prepared nor in flight (it is unknown, terminal, or a
-- row of an earlier version), is in no history prepared or in flight again, nor removed, whichever
-- statements are interleaved or lost in a crash. It may pass between unknown and terminal.
pub History-IsOver :
    (i : String) {start : ℕ} {s : RequestStore} {now : ℕ} {t : RequestStore}
    → History start s now t
    → IsOver (request_state i s)
    → IsOver (request_state i t)
History-IsOver i =
    History_induction (λ c s. IsOver (request_state i s)) (λ c now s le h. h)
      (λ now s t w h. step-IsOver (Write-StepOf i w) h)

-- Once a revocation is recorded, it stays recorded, and a request that was not in flight then is
-- never dispatched in any history.
pub History-revoked :
    (i : String) {start : ℕ} {s : RequestStore} {now : ℕ} {t : RequestStore}
    → History start s now t
    → (is_revoked i s ≡ true) × (request_state i s ≢ some dispatched)
    → (is_revoked i t ≡ true) × (request_state i t ≢ some dispatched)
History-revoked i =
    History_induction (λ c s. (is_revoked i s ≡ true) × (request_state i s ≢ some dispatched))
      (λ c now s le h. h)
      (λ now s t w h. (Write-is_revoked i w h.0, step_revoked (Write-StepOf i w) h.0 h.1))

pub History-has_nonce :
    (n : String) {start : ℕ} {s : RequestStore} {now : ℕ} {t : RequestStore}
    → History start s now t
    → has_nonce n s ≡ true
    → has_nonce n t ≡ true
History-has_nonce n =
    History_induction (λ c s. has_nonce n s ≡ true) (λ c now s le h. h)
      (λ now s t w h. Write-has_nonce n w h)

used_nonce_refused :
    (p : Platform) (spec : RequestSpec) (a : CharterApproval) (checked now : ℕ) (s : RequestStore)
    → has_nonce a.nonce s ≡ true
    → ((authorize_prepare p spec a checked now s).0 ≡ s)
      × ((authorize_prepare p spec a checked now s).1 ≢ ok tt)
unfolding authorize_prepare authorize_txn
used_nonce_refused p spec a checked now s used = elim (Result-cases (validate_spec p spec)) [
  | inr (e, h) ↦ rw (h, authorize_prepare) (refl, λ x. cc)
  | inl (u, h) ↦
      rw (h, authorize_prepare)
        elim (Bool-cases (verify p a spec checked)) [
          | inr unsigned ↦ rw unsigned (refl, λ x. cc)
          | inl signed ↦ rw (signed, used) (refl, λ x. cc)
        ]
]

-- An approval whose nonce was used is refused by every later call, with any spec and at any time,
-- and the call writes nothing.
pub replay_refused :
    (p : Platform) (spec : RequestSpec) (a : CharterApproval) (checked later : ℕ) {start : ℕ}
    {s : RequestStore} {now : ℕ} {t : RequestStore}
    → has_nonce a.nonce s ≡ true
    → History start s now t
    → ((authorize_prepare p spec a checked later t).0 ≡ t)
      × ((authorize_prepare p spec a checked later t).1 ≢ ok tt)
replay_refused p spec a checked later {t = t} used hist =
    used_nonce_refused p spec a checked later t (History-has_nonce a.nonce hist used)

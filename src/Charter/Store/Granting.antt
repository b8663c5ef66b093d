-- ===== src/Charter/Store/Granting.antt =====
-- `authorize_prepare`, branch by branch: when it reserves, and what a refusal leaves behind.
use sentinel_security_platfo.Base.{
  ℕ, ◌<◌, String, ◌≡◌, refl, ap, ◌≢◌, ◌↔◌, ◌⊎◌, inl, inr, Bool, true, false, ◌&&◌, none, ok,
  run_txn, rollback, is_some, leb, arith, ◌==◌, eq_iff, if◌then◌else◌, Bool-cases, Result-cases,
}
use sentinel_security_platfo.Base.Table.{find}
use sentinel_security_platfo.Charter.Spec.{
  CharterRequestError, Checked, RequestSpec, CharterApproval, Platform, validate_spec,
}
use sentinel_security_platfo.Charter.Approval.{verify}
use sentinel_security_platfo.Charter.Store.{RequestStore, find_request, is_revoked}
use sentinel_security_platfo.Charter.Store.Authorize.{
  StoreTxn, has_nonce, recent_requests, has_post, is_expired, add_decision, add_revocation,
  add_request, decision_row, prepared_row, reserve_txn, authorize_txn, authorize_prepare,
}

module _ (p : Platform) (spec : RequestSpec) (a : CharterApproval) (checked now : ℕ)
    (s : RequestStore) where
  -- All that an approval and the store must satisfy for a request to be reserved.
  pub record IsGranted : Type 0 where
    pub valid : validate_spec p spec ≡ ok tt
    pub verified : verify p a spec checked ≡ true
    pub fresh : has_nonce a.nonce s ≡ false
    pub decision : a.decision ≡ "approve"
    pub live : is_revoked spec.request_id s ≡ false
    pub in_time : is_expired spec.expires_at now ≡ false
    pub new : find_request spec.request_id s ≡ none
    pub room : recent_requests now s.requests < 5
    pub post : spec.method ≡ "POST" → has_post spec.run_id s.requests ≡ false

  abbrev pub decided : RequestStore
  decided = add_decision (decision_row a spec now) s

  abbrev pub reserved : RequestStore
  reserved = add_request (prepared_row p spec now) decided

  differ : ◌≢◌ {A = String} "approve" "revoke"
  differ = ground (arith, eq_iff "approve" "revoke")

  not_revoke : a.decision ≡ "approve" → (a.decision == "revoke") ≡ false
  not_revoke h = ground (arith, differ, eq_iff a.decision "revoke", h)

  pub granted-reserves : IsGranted → authorize_prepare p spec a checked now s ≡ (reserved, ok tt)
  unfolding authorize_prepare authorize_txn
  granted-reserves g =
      ground (arith, not_revoke g.decision, eq_iff a.decision "approve", eq_iff spec.method "POST")

  pub reserved-IsGranted : (authorize_prepare p spec a checked now s).1 ≡ ok tt → IsGranted
  unfolding authorize_prepare authorize_txn
  reserved-IsGranted h = ground (arith, eq_iff a.decision "approve", eq_iff spec.method "POST")

  -- The call reserves a request exactly when the spec is admissible, the approval verifies, says
  -- "approve" and has a fresh nonce, the request is neither revoked, expired nor known, and both
  -- quotas have room; it then records the decision and a prepared row for it, and nothing else.
  pub authorize_prepare_iff :
      (authorize_prepare p spec a checked now s ≡ (reserved, ok tt)) ↔ IsGranted
  authorize_prepare_iff = (λ h. reserved-IsGranted (ap (λ r. r.1) h), granted-reserves)

  -- What a recorded refusal leaves: the decision is consumed, no request is touched, and a
  -- revocation is on record.
  pub record IsRecorded (t : RequestStore) : Type 0 where
    pub decision : a.decision ≢ "approve"
    pub verified : verify p a spec checked ≡ true
    pub consumed : has_nonce a.nonce t ≡ true
    pub requests : t.requests ≡ s.requests
    pub events : t.events ≡ s.events
    pub revoked : a.decision ≡ "revoke" → is_revoked spec.request_id t ≡ true

  abbrev Leaves : RequestStore × Checked Unit → Type 0
  Leaves r = r.1 ≢ ok tt → (r.0 ≡ s) ⊎ IsRecorded r.0

  guard-Leaves :
      (b : Bool) (e : CharterRequestError) (m : StoreTxn)
      → (b ≡ false → Leaves (run_txn s m))
      → Leaves (run_txn s (if b then rollback e else m))
  guard-Leaves true e m h = λ x. inl refl
  guard-Leaves false e m h = h refl

  reserve-Leaves : Leaves (run_txn s (reserve_txn p spec now decided))
  unfolding reserve_txn
  reserve-Leaves = guard-Leaves (is_revoked spec.request_id decided) _ _ λ b.
      guard-Leaves (is_expired spec.expires_at now) _ _ λ b.
        guard-Leaves (is_some (find_request spec.request_id decided)) _ _ λ b.
          guard-Leaves (leb 5 (recent_requests now decided.requests)) _ _ λ b.
            guard-Leaves (spec.method == "POST" && has_post spec.run_id decided.requests) _ _
              λ b x. absurd (x refl)

  abbrev revoking : RequestStore
  revoking =
      add_revocation (record { request_id = spec.request_id; nonce = a.nonce; ts = now }) decided

  revoking-IsRecorded : verify p a spec checked ≡ true → a.decision ≡ "revoke" → IsRecorded revoking
  unfolding add_revocation add_decision has_nonce is_revoked find
  revoking-IsRecorded signed e =
      ground (arith, differ, eq_iff a.nonce a.nonce, eq_iff spec.request_id spec.request_id)

  rejecting-IsRecorded :
      verify p a spec checked ≡ true
      → a.decision ≢ "revoke"
      → a.decision ≢ "approve"
      → IsRecorded decided
  unfolding add_decision has_nonce find
  rejecting-IsRecorded signed e e' = ground (arith, eq_iff a.nonce a.nonce)

  txn-Leaves : verify p a spec checked ≡ true → Leaves (run_txn s (authorize_txn p spec a now s))
  unfolding authorize_txn
  txn-Leaves signed = guard-Leaves (has_nonce a.nonce s) _ _ λ fresh.
      elim (Bool-cases (a.decision == "revoke")) [
        | inl e ↦ rw e (λ x. inr (revoking-IsRecorded signed ((eq_iff a.decision "revoke").0 e)))
        | inr e ↦ rw e elim (Bool-cases (a.decision == "approve")) [
          | inl e' ↦ rw e' reserve-Leaves
          | inr e' ↦ rw e' (λ x. inr (
              rejecting-IsRecorded signed (ground (arith, eq_iff a.decision "revoke"))
                (ground (arith, eq_iff a.decision "approve"))))
        ]
      ]

  -- A call that raises leaves the store as it was, or it recorded a verified reject or revoke
  -- decision: the decision's nonce is used up, no request and no event changed, and after a revoke
  -- the request is revoked.
  pub authorize_prepare-refused :
      (authorize_prepare p spec a checked now s).1 ≢ ok tt
      → ((authorize_prepare p spec a checked now s).0 ≡ s)
        ⊎ IsRecorded (authorize_prepare p spec a checked now s).0
  unfolding authorize_prepare
  authorize_prepare-refused = elim (Result-cases (validate_spec p spec)) [
    | inr (e, h) ↦ rw (h, authorize_prepare) (λ x. inl refl)
    | inl (u, h) ↦
        rw (h, authorize_prepare)
          elim (Bool-cases (verify p a spec checked)) [
            | inr unsigned ↦ rw unsigned (λ x. inl refl)
            | inl signed ↦ rw signed (txn-Leaves signed)
          ]
  ]

-- ===== src/Charter/Approval.antt =====
-- agent/charter_approval.py: signed decisions. Signing and verifying run the platform's Ed25519;
-- the fresh ids, the nonce and the clock readings are arguments.
use sentinel_security_platfo.Base.{
  ℕ, ◌+◌, String, ◌≡◌, ◌↔◌, ◌⊎◌, Bool, true, ◌&&◌, ◌||◌, ◌≤◌, ◌<◌, Result, ok, err, leb, ltb, ◌==◌,
  eq_iff, if◌then◌else◌, arith,
}
use sentinel_security_platfo.Charter.Spec.{RequestSpec, CharterApproval, Platform, seconds}

-- sha256 over `spec.canonical()`
unfoldable pub digest : Platform → RequestSpec → String
digest p spec = p.sha256 (p.spec_json spec)

unfoldable pub is_decision : String → Bool
is_decision d = d == "approve" || d == "reject" || d == "revoke"

-- `payload`: the approval's fields, with the domain added and the signature emptied.
unfoldable pub payload : Platform → CharterApproval → String
payload p a = p.approval_json (record a { signature = "" })

pub data ApprovalError : Type 0 where
  invalid_decision : ApprovalError

-- `sign`, where `signature` is what the private key makes of a payload.
unfoldable pub sign :
    Platform
    → (String → String)
    → RequestSpec
    → String
    → ℕ
    → String
    → ℕ
    → String
    → Result ApprovalError CharterApproval
unfolding digest is_decision payload
sign p signature spec decision ttl decision_id now nonce =
    let unsigned : CharterApproval = record {
      decision_id = decision_id;
      decision = decision;
      request_id = spec.request_id;
      run_id = spec.run_id;
      spec_digest = digest p spec;
      policy_digest = spec.policy_digest;
      issued_at = now;
      expires_at = now + seconds ttl;
      nonce = nonce;
      signature = "";
    } in
    if is_decision decision
    then ok (record unsigned { signature = signature (payload p unsigned) })
    else err invalid_decision

-- `verify`: any exception inside is a refusal.
unfoldable pub verify : Platform → CharterApproval → RequestSpec → ℕ → Bool
unfolding digest is_decision payload
verify p a spec now =
    p.ed25519_verify a.signature (payload p a)
    && is_decision a.decision
    && a.request_id == spec.request_id
    && a.run_id == spec.run_id
    && a.spec_digest == digest p spec
    && a.policy_digest == spec.policy_digest
    && ltb now a.expires_at
    && leb a.issued_at a.expires_at

-- What a verified approval is bound to.
pub record IsBound (p : Platform) (a : CharterApproval) (spec : RequestSpec) (now : ℕ)
    : Type 0 where
  pub signed : p.ed25519_verify a.signature (payload p a) ≡ true
  pub decision : (a.decision ≡ "approve") ⊎ ((a.decision ≡ "reject") ⊎ (a.decision ≡ "revoke"))
  pub request_id : a.request_id ≡ spec.request_id
  pub run_id : a.run_id ≡ spec.run_id
  pub spec_digest : a.spec_digest ≡ digest p spec
  pub policy_digest : a.policy_digest ≡ spec.policy_digest
  pub live : now < a.expires_at
  pub ordered : a.issued_at ≤ a.expires_at

is_decision_iff :
    (d : String) → (is_decision d ≡ true) ↔ ((d ≡ "approve") ⊎ ((d ≡ "reject") ⊎ (d ≡ "revoke")))
unfolding is_decision
is_decision_iff d = ground (arith, eq_iff d "approve", eq_iff d "reject", eq_iff d "revoke")

-- `verify` accepts exactly the approvals that are signed, carry one of the three decisions, are
-- bound to the request, run, digest and policy of the spec, and have not expired.
pub verify_iff :
    (p : Platform) (a : CharterApproval) (spec : RequestSpec) (now : ℕ)
    → (verify p a spec now ≡ true) ↔ IsBound p a spec now
unfolding verify
verify_iff p a spec now = ground (
  arith,
  is_decision_iff a.decision,
  eq_iff a.request_id spec.request_id,
  eq_iff a.run_id spec.run_id,
  eq_iff a.spec_digest (digest p spec),
  eq_iff a.policy_digest spec.policy_digest,
)

-- What `sign` writes into a decision.
record IsSigned (p : Platform) (signature : String → String) (spec : RequestSpec) (now : ℕ)
    (ttl : ℕ) (a : CharterApproval) : Type 0 where
  decision : is_decision a.decision ≡ true
  request_id : a.request_id ≡ spec.request_id
  run_id : a.run_id ≡ spec.run_id
  spec_digest : a.spec_digest ≡ digest p spec
  policy_digest : a.policy_digest ≡ spec.policy_digest
  issued_at : a.issued_at ≡ now
  expires_at : a.expires_at ≡ now + seconds ttl
  signed : a.signature ≡ signature (payload p a)

sign-IsSigned :
    (p : Platform) (signature : String → String) (spec : RequestSpec) (d : String) (ttl : ℕ)
    (i : String) (now : ℕ) (nonce : String) (a : CharterApproval)
    → sign p signature spec d ttl i now nonce ≡ ok a
    → IsSigned p signature spec now ttl a
unfolding sign
sign-IsSigned p signature spec d ttl i now nonce a h = ground arith

signed-IsBound :
    (p : Platform) (signature : String → String) (spec : RequestSpec) (now ttl : ℕ)
    (a : CharterApproval) (later : ℕ)
    → ((m : String) → p.ed25519_verify (signature m) m ≡ true)
    → IsSigned p signature spec now ttl a
    → later < now + seconds ttl
    → IsBound p a spec later
unfolding payload
signed-IsBound p signature spec now ttl a later pair s live = record {
  signed = rw s.signed (pair (payload p a));
  decision = (is_decision_iff a.decision).0 s.decision;
  request_id = s.request_id;
  run_id = s.run_id;
  spec_digest = s.spec_digest;
  policy_digest = s.policy_digest;
  live = omega (arith, s.expires_at);
  ordered = omega (arith, s.expires_at, s.issued_at);
}

-- A decision that `sign` made verifies for its spec until its time to live is over, if the key
-- pair's check accepts what the private key signed.
pub verify-sign :
    (p : Platform) (signature : String → String) (spec : RequestSpec) (d : String) (ttl : ℕ)
    (i : String) (now : ℕ) (nonce : String) (a : CharterApproval) (later : ℕ)
    → ((m : String) → p.ed25519_verify (signature m) m ≡ true)
    → sign p signature spec d ttl i now nonce ≡ ok a
    → later < now + seconds ttl
    → verify p a spec later ≡ true
verify-sign p signature spec d ttl i now nonce a later pair h live = (verify_iff p a spec later).1 (
    signed-IsBound p signature spec now ttl a later pair
      (sign-IsSigned p signature spec d ttl i now nonce a h) live)

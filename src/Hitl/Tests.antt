-- ===== src/Hitl/Tests.antt =====
-- The theorems of the human approval at a signed token, its replay and a refused run.
use sentinel_security_platfo.Base.{◌≡◌, refl, ◌↔◌, ◌+◌, true, false, some, [], ◌==◌}
use sentinel_security_platfo.Hitl.{
  Proposal, ApprovalToken, Verifier, ApprovalLedger, verify_approval,
}
use sentinel_security_platfo.Hitl.SingleUse.{
  IsApproved, start, verify_approval_iff, verify_approval-once,
}
use sentinel_security_platfo.Hitl.StateChange.{
  Surroundings, sound, token_value, state_change_node, simulated, runs, state_change_node-audited,
}

abbrev verifier : Verifier
verifier = record {
  sha256 = λ t. "hash";
  canonical_payload = λ p h i ttl n. n;
  check_signature = λ s m. s == m;
  redact_persisted = λ d. d;
}

abbrev proposal : Proposal
proposal = record {
  endpoint = "/login";
  vuln_class = "sqli";
  technique = "t";
  justification = "j";
  expected_impact = "e";
}

abbrev token : ApprovalToken
token = record {
  token_proposal = "/login::sqli";
  proposal_hash = "hash";
  issued_at = 0;
  ttl_seconds = 300;
  nonce = "n1";
  signature = "n1";
}

abbrev empty_ledger : ApprovalLedger
empty_ledger = record { consumed_nonces = []; audit_log = [] }

token-accepted : (verify_approval verifier (some token) proposal 10 empty_ledger).1 ≡ true
unfolding verify_approval
token-accepted = refl

verify_approval_iff_example :
    ((verify_approval verifier (some token) proposal 10 empty_ledger).1 ≡ true)
    ↔ IsApproved verifier token proposal 10 empty_ledger
verify_approval_iff_example = verify_approval_iff verifier token proposal 10 empty_ledger

verify_approval-once_example :
    verify_approval verifier
      (some token)
      proposal
      20
      (verify_approval verifier (some token) proposal 10 empty_ledger).0
    ≡ ((verify_approval verifier (some token) proposal 10 empty_ledger).0, false)
verify_approval-once_example =
    verify_approval-once verifier verifier token token proposal proposal 10 20 empty_ledger
      token-accepted start refl

abbrev surroundings : Surroundings
surroundings = record {
  verifier = verifier;
  infrastructure = sound;
  now = 10;
  pretty_dump = "{}";
  pii_classes = "none";
}

state_change_node-audited_example :
    simulated
      (state_change_node surroundings (some proposal) (token_value (some token)) empty_ledger).0
    ≡ simulated empty_ledger
      + runs
          (state_change_node surroundings (some proposal) (token_value (some token)) empty_ledger).1
state_change_node-audited_example =
    state_change_node-audited surroundings (some proposal) (token_value (some token)) empty_ledger

-- ===== src/Hitl/StateChange.antt =====
-- agent/supervisor.py: `state_change_node`, the one consumer of an approval token. It simulates the
-- state change and audits it; the text of the simulated dump and its PII classes are arguments.
use Prim.Native.String.{◌++◌}
use sentinel_security_platfo.Base.{
  ℕ, ◌+◌, String, ◌≡◌, refl, ap, ◌∙◌, Bool, true, false, Option, none, some, Result, ok, err,
  count_if, arith, ◌==◌,
}
use sentinel_security_platfo.Hitl.{
  Proposal, ApprovalToken, Verifier, AuditRow, ApprovalLedger, proposal_id, record_audit,
  verify_approval, consume_nonce,
}

-- `state["approval_token"]`: no dictionary, or one that parses or not.
pub data TokenValue : Type 0 where
  no_token : TokenValue
  token_value : Option ApprovalToken → TokenValue

-- Whether the public key loads and the ledger answers.
pub data Infrastructure : Type 0 where
  sound bad_ledger : Infrastructure
  -- the exception's type
  bad_key : String → Infrastructure

-- The PermissionErrors.
pub data Refusal : Type 0 where
  nothing_to_verify check_errored unverified : Refusal

pub record StateChangeResult : Type 0 where
  pub changed_proposal : String
  pub endpoint : String
  pub dump : Option String
  pub pii_redacted : String

pub record Surroundings : Type 0 where
  pub verifier : Verifier
  pub infrastructure : Infrastructure
  pub now : ℕ
  pub pretty_dump : String
  pub pii_classes : String

abbrev pub audit_of : Surroundings → String → String → String → AuditRow
audit_of x pid action detail = record {
  ts = x.now;
  audited = pid;
  approver = none;
  decision = none;
  action = action;
  detail = some detail;
}

unfoldable pub refuse :
    Surroundings
    → String
    → String
    → Refusal
    → ApprovalLedger
    → ApprovalLedger × Result Refusal StateChangeResult
unfolding record_audit
refuse x pid detail e l = (record_audit x.verifier (audit_of x pid "refused" detail) l, err e)

-- After `verify_approval`
unfoldable pub after_verify :
    Surroundings
    → Proposal
    → ApprovalLedger × Bool
    → ApprovalLedger × Result Refusal StateChangeResult
unfolding refuse record_audit proposal_id
after_verify x p (l, false) =
    refuse x (proposal_id p)
      "approval token failed verification (bad signature, expired, already consumed, or bound to a different proposal)"
      unverified l
after_verify x p (l, true) = (
  record_audit x.verifier
      (audit_of x (proposal_id p) "simulated-execute" (
        "SIMULATED: would execute proposal against " ++ p.endpoint
        ++ "; dump PII redacted at capture [" ++ x.pii_classes ++ "]"))
      l,
  ok (record {
    changed_proposal = proposal_id p;
    endpoint = p.endpoint;
    dump = x.verifier.redact_persisted (some x.pretty_dump);
    pii_redacted = x.pii_classes;
  }),
)

-- With a proposal and a token.
unfoldable pub check_token :
    Surroundings
    → Proposal
    → Option ApprovalToken
    → ApprovalLedger
    → Infrastructure
    → ApprovalLedger × Result Refusal StateChangeResult
unfolding after_verify refuse verify_approval proposal_id
check_token x p o l bad_ledger = (l, err check_errored)
check_token x p o l (bad_key name) =
    refuse x (proposal_id p) ("approval infrastructure error — refusing (fail-closed): " ++ name)
      check_errored l
check_token x p o l sound = after_verify x p (verify_approval x.verifier o p x.now l)

unfoldable pub state_change_node :
    Surroundings
    → Option Proposal
    → TokenValue
    → ApprovalLedger
    → ApprovalLedger × Result Refusal StateChangeResult
unfolding check_token refuse proposal_id
state_change_node x none token l =
    refuse x "<no-proposal>" "state_change_node reached with no proposal or no token"
      nothing_to_verify l
state_change_node x (some p) no_token l =
    refuse x (proposal_id p) "state_change_node reached with no proposal or no token"
      nothing_to_verify l
state_change_node x (some p) (token_value o) l = check_token x p o l x.infrastructure

abbrev pub is_simulated : AuditRow → Bool
is_simulated row = row.action == "simulated-execute"

abbrev pub simulated : ApprovalLedger → ℕ
unfolding count_if
simulated l = count_if is_simulated l.audit_log

abbrev pub runs : Result Refusal StateChangeResult → ℕ
runs (ok r) = 1
runs (err e) = 0

refuse-simulated :
    (x : Surroundings) (pid detail : String) (e : Refusal) (l : ApprovalLedger)
    → simulated (refuse x pid detail e l).0 ≡ simulated l + runs (refuse x pid detail e l).1
unfolding refuse record_audit count_if simulated
refuse-simulated x pid detail e l = omega arith

after_verify-simulated :
    (x : Surroundings) (p : Proposal) (r : ApprovalLedger × Bool)
    → simulated (after_verify x p r).0 ≡ simulated r.0 + runs (after_verify x p r).1
unfolding after_verify refuse record_audit count_if simulated
after_verify-simulated x p (l, false) = omega arith
after_verify-simulated x p (l, true) = omega arith

verify-audit_log :
    (v : Verifier) (o : Option ApprovalToken) (p : Proposal) (now : ℕ) (l : ApprovalLedger)
    → (verify_approval v o p now l).0.audit_log ≡ l.audit_log
unfolding verify_approval consume_nonce
verify-audit_log v none p now l = refl
verify-audit_log v (some t) p now l = ground arith

check_token-simulated :
    (x : Surroundings) (p : Proposal) (o : Option ApprovalToken) (l : ApprovalLedger)
    (i : Infrastructure)
    → simulated (check_token x p o l i).0 ≡ simulated l + runs (check_token x p o l i).1
unfolding check_token simulated
check_token-simulated x p o l bad_ledger = omega arith
check_token-simulated x p o l (bad_key name) =
    refuse-simulated x (proposal_id p)
      ("approval infrastructure error — refusing (fail-closed): " ++ name) check_errored l
check_token-simulated x p o l sound =
    let checked = verify_approval x.verifier o p x.now l in
    let same : simulated checked.0 ≡ simulated l =
      ap (count_if is_simulated) (verify-audit_log x.verifier o p x.now l) in
    after_verify-simulated x p checked ∙ ap (λ n. n + runs (after_verify x p checked).1) same

-- Every run of the node that returns adds exactly one "simulated-execute" row to the audit log, and
-- a run that refuses adds none, whatever the proposal, the token and the infrastructure are.
pub state_change_node-audited :
    (x : Surroundings) (p : Option Proposal) (token : TokenValue) (l : ApprovalLedger)
    → simulated (state_change_node x p token l).0
      ≡ simulated l + runs (state_change_node x p token l).1
unfolding state_change_node
state_change_node-audited x none token l =
    refuse-simulated x "<no-proposal>" "state_change_node reached with no proposal or no token"
      nothing_to_verify l
state_change_node-audited x (some p) no_token l =
    refuse-simulated x (proposal_id p) "state_change_node reached with no proposal or no token"
      nothing_to_verify l
state_change_node-audited x (some p) (token_value o) l =
    check_token-simulated x p o l x.infrastructure

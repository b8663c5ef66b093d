-- ===== src/Hitl.antt =====
-- agent/approval.py: the human approval of an exploit proposal. A missing field of a proposal is the
-- empty text. Times are microseconds, the time to live whole seconds; `Verifier` holds SHA-256, JSON
-- and the Ed25519 check under the approver's public key, none where `bytes.fromhex` or it raises.
pub mod SingleUse
pub mod StateChange
mod Tests
use Prim.Native.String.{◌++◌}
use sentinel_security_platfo.Base.{
  ℕ, ◌+◌, ◌*◌, String, Bool, true, false, not, ◌||◌, ◌&&◌, Option, none, some, List, [], ◌∷◌, any,
  ltb, ◌==◌, if◌then◌else◌,
}

pub record Proposal : Type 0 where
  pub endpoint : String
  pub vuln_class : String
  pub technique : String
  pub justification : String
  pub expected_impact : String

pub record ApprovalToken : Type 0 where
  pub token_proposal : String
  pub proposal_hash : String
  pub issued_at : ℕ
  pub ttl_seconds : ℕ
  pub nonce : String
  pub signature : String

pub record Verifier : Type 0 where
  pub sha256 : String → String
  -- `canonical_payload`: json.dumps of the five signed fields
  pub canonical_payload : String → String → ℕ → ℕ → String → String
  pub check_signature : String → String → Bool
  -- `trace.redact_persisted`
  pub redact_persisted : Option String → Option String

unfoldable pub proposal_id : Proposal → String
proposal_id p = p.endpoint ++ "::" ++ p.vuln_class

unfoldable pub proposal_content_hash : Verifier → Proposal → String
proposal_content_hash v p = v.sha256 (
    p.endpoint ++ "\u{1f}" ++ p.vuln_class ++ "\u{1f}" ++ p.technique ++ "\u{1f}" ++ p.justification
    ++ "\u{1f}" ++ p.expected_impact)

pub record AuditRow : Type 0 where
  pub ts : ℕ
  pub audited : String
  pub approver : Option String
  pub decision : Option String
  pub action : String
  pub detail : Option String

-- Both tables stand newest first.
pub record ApprovalLedger : Type 0 where
  pub consumed_nonces : List String
  pub audit_log : List AuditRow

unfoldable pub is_consumed : String → ApprovalLedger → Bool
unfolding any
is_consumed nonce l = any (λ n. n == nonce) l.consumed_nonces

unfoldable pub consume_nonce : String → ApprovalLedger → ApprovalLedger × Bool
unfolding is_consumed
consume_nonce nonce l =
    if is_consumed nonce l
    then (l, false)
    else (record l { consumed_nonces = nonce ∷ l.consumed_nonces }, true)

-- `record`, whose `ts` is the clock's
unfoldable pub record_audit : Verifier → AuditRow → ApprovalLedger → ApprovalLedger
record_audit v row l = record l {
  audit_log = record row { detail = v.redact_persisted row.detail } ∷ l.audit_log;
}

abbrev pub clock_skew_tolerance : ℕ
clock_skew_tolerance = 5000000

abbrev pub seconds : ℕ → ℕ
seconds n = n * 1000000

-- The signature check; a token that does not parse is none.
unfoldable pub is_signed : Verifier → ApprovalToken → Bool
is_signed v t =
    v.check_signature t.signature
      (v.canonical_payload t.token_proposal t.proposal_hash t.issued_at t.ttl_seconds t.nonce)

unfoldable pub verify_token :
    Verifier → ApprovalToken → Proposal → ℕ → ApprovalLedger → ApprovalLedger × Bool
unfolding is_signed proposal_id proposal_content_hash consume_nonce
verify_token v t p now l =
    if not (is_signed v t)
    then (l, false)
    else if ltb (now + clock_skew_tolerance) t.issued_at
    then (l, false)
    else if ltb (t.issued_at + seconds t.ttl_seconds) now
    then (l, false)
    else if not (t.token_proposal == proposal_id p)
        || not (t.proposal_hash == proposal_content_hash v p)
    then (l, false)
    else consume_nonce t.nonce l

unfoldable pub verify_approval :
    Verifier → Option ApprovalToken → Proposal → ℕ → ApprovalLedger → ApprovalLedger × Bool
unfolding verify_token
verify_approval v none p now l = (l, false)
verify_approval v (some t) p now l = verify_token v t p now l

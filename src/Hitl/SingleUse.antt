-- ===== src/Hitl/SingleUse.antt =====
-- A token is accepted for the proposal it was signed for, inside its time, and once.
use sentinel_security_platfo.Base.{
  ℕ, ◌+◌, ◌≤◌, String, ◌≡◌, ◌↔◌, true, false, Option, none, some, any, arith, eq_iff,
}
use sentinel_security_platfo.Hitl.{
  Proposal, ApprovalToken, Verifier, AuditRow, ApprovalLedger, proposal_id, proposal_content_hash,
  is_consumed, consume_nonce, record_audit, clock_skew_tolerance, seconds, is_signed,
  verify_approval,
}

-- What a human's approval has to be.
pub record IsApproved (v : Verifier) (t : ApprovalToken) (p : Proposal) (now : ℕ)
    (l : ApprovalLedger) : Type 0 where
  pub signed : is_signed v t ≡ true
  pub issued : t.issued_at ≤ now + clock_skew_tolerance
  pub alive : now ≤ t.issued_at + seconds t.ttl_seconds
  pub names : t.token_proposal ≡ proposal_id p
  pub reviewed : t.proposal_hash ≡ proposal_content_hash v p
  pub unused : is_consumed t.nonce l ≡ false

-- A token is accepted exactly when it is signed, was issued at most five seconds from now, is within
-- its time to live, names the proposal and the content that was reviewed, and its nonce is unused.
pub verify_approval_iff :
    (v : Verifier) (t : ApprovalToken) (p : Proposal) (now : ℕ) (l : ApprovalLedger)
    → ((verify_approval v (some t) p now l).1 ≡ true) ↔ IsApproved v t p now l
unfolding verify_approval consume_nonce
verify_approval_iff v t p now l = (
  λ h. record {
    signed = ground arith;
    issued = ground arith;
    alive = ground arith;
    names = ground (arith, eq_iff t.token_proposal (proposal_id p));
    reviewed = ground (arith, eq_iff t.proposal_hash (proposal_content_hash v p));
    unused = ground arith;
  },
  λ ok_. ground (
    arith,
    ok_.signed,
    ok_.issued,
    ok_.alive,
    ok_.names,
    ok_.reviewed,
    ok_.unused,
    eq_iff t.token_proposal (proposal_id p),
    eq_iff t.proposal_hash (proposal_content_hash v p),
  ),
)

-- Calls on one ledger file, by the approver's tool and by the graph.
pub data LedgerHistory (l : ApprovalLedger) : ApprovalLedger → Type 0 where
  start : LedgerHistory l l
  verifies :
      {m : ApprovalLedger} (v : Verifier) (o : Option ApprovalToken) (p : Proposal) (now : ℕ)
      → LedgerHistory l m
      → LedgerHistory l (verify_approval v o p now m).0
  records :
      {m : ApprovalLedger} (v : Verifier) (row : AuditRow)
      → LedgerHistory l m
      → LedgerHistory l (record_audit v row m)

verify-is_consumed :
    (n : String) (v : Verifier) (o : Option ApprovalToken) (p : Proposal) (now : ℕ)
    (m : ApprovalLedger)
    → is_consumed n m ≡ true
    → is_consumed n (verify_approval v o p now m).0 ≡ true
unfolding verify_approval consume_nonce is_consumed any
verify-is_consumed n v none p now m h = h
verify-is_consumed n v (some t) p now m h = ground arith

History-is_consumed :
    (n : String) {l m : ApprovalLedger}
    → LedgerHistory l m
    → is_consumed n l ≡ true
    → is_consumed n m ≡ true
unfolding record_audit is_consumed
History-is_consumed n start h = h
History-is_consumed n (verifies {m = m} v o p now hist) h =
    verify-is_consumed n v o p now m (History-is_consumed n hist h)
History-is_consumed n (records v row hist) h = History-is_consumed n hist h

accepted-is_consumed :
    (v : Verifier) (t : ApprovalToken) (p : Proposal) (now : ℕ) (l : ApprovalLedger)
    → (verify_approval v (some t) p now l).1 ≡ true
    → is_consumed t.nonce (verify_approval v (some t) p now l).0 ≡ true
unfolding verify_approval consume_nonce is_consumed any
accepted-is_consumed v t p now l h = ground (arith, eq_iff t.nonce t.nonce)

consumed_refused :
    (v : Verifier) (t : ApprovalToken) (p : Proposal) (now : ℕ) (m : ApprovalLedger)
    → is_consumed t.nonce m ≡ true
    → verify_approval v (some t) p now m ≡ (m, false)
unfolding verify_approval consume_nonce
consumed_refused v t p now m used = ground arith

-- Once a token was accepted, every later call with a token of its nonce is refused and changes
-- nothing, for any proposal, at any time, whatever calls stand between.
pub verify_approval-once :
    (v w : Verifier) (t u : ApprovalToken) (p q : Proposal) (now later : ℕ) (l : ApprovalLedger)
    {m : ApprovalLedger}
    → (verify_approval v (some t) p now l).1 ≡ true
    → LedgerHistory (verify_approval v (some t) p now l).0 m
    → t.nonce ≡ u.nonce
    → verify_approval w (some u) q later m ≡ (m, false)
verify_approval-once v w t u p q now later l {m} accepted hist same =
    let used : is_consumed u.nonce m ≡ true =
      rw (← same) (History-is_consumed t.nonce hist (accepted-is_consumed v t p now l accepted)) in
    consumed_refused w u q later m used

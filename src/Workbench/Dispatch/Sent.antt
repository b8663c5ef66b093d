-- ===== src/Workbench/Dispatch/Sent.antt =====
-- What a prompt that was handed to the transport leaves behind: a settled attempt, and a reading
-- that no later dispatch sends again.
use sentinel_security_platfo.Base.{
  String, ◌≡◌, refl, ◌∙◌, ◌⊎◌, inl, inr, Bool, true, false, not, Option, some, Result, ok, err,
  count_if, arith, eq_iff, if◌then◌else◌, nat_eq, Bool-cases, Option-cases, run_txn,
}
use sentinel_security_platfo.Base.Table.{find, IsKeyed, find-update_where, find-key}
use sentinel_security_platfo.Base.Count.{count_if-key, row_passes}
use sentinel_security_platfo.Workbench.Attempts.{
  AttemptStatus, reserved, dispatched, succeeded, failed, unknown, AttemptStoreViolation,
  not_dispatched, B3Attempt, AttemptStore, attempt_key, find_attempt, add_attempt, set_status,
  is_reserved, is_dispatched, alter, update_one, then_status, dispatched_row, mark_dispatched,
  transition,
}
use sentinel_security_platfo.Workbench.Attempts.Steps.{
  Alters, dispatches, settles, Write, keep, book, revoke, change, Legal, reject, succeed, fail,
  lose,
}
use sentinel_security_platfo.Workbench.Attempts.History.{
  AttemptHistory, AttemptHistory_induction, is_settled, Alters-id,
}
use sentinel_security_platfo.Workbench.Attempts.Outcomes.{mark_dispatched-row}

abbrev pub IsSettledAt : String → AttemptStore → Type 0
IsSettledAt i s = row_passes (λ a. is_settled a.status) (find_attempt i s) ≡ true

abbrev pub IsUnderway : String → AttemptStore → Type 0
IsUnderway i s = row_passes (λ a. not (is_reserved a.status)) (find_attempt i s) ≡ true

legal-underway : {x y : AttemptStatus} → Legal x y → is_reserved y ≡ false
legal-underway reject = refl
legal-underway succeed = refl
legal-underway fail = refl
legal-underway lose = refl

Alters-underway : {s : AttemptStore} {a b : B3Attempt} → Alters s a b → is_reserved b.status ≡ false
Alters-underway (dispatches at live) = refl
Alters-underway (settles reason legal) = legal-underway legal

Write-IsUnderway : (i : String) (s t : AttemptStore) → Write s t → IsUnderway i s → IsUnderway i t
unfolding find_attempt add_attempt alter find
Write-IsUnderway i s t keep h = h
Write-IsUnderway i s t (revoke p) h = h
Write-IsUnderway i s t (book r j unread new) h = ground (arith, eq_iff j i)
Write-IsUnderway i s t (change test f alters) h =
    let moved : (b : B3Attempt) → test b ≡ true → is_reserved (f b).status ≡ false =
      λ b sel. Alters-underway (alters b sel) in
    elim (Option-cases (find attempt_key i s.attempts)) [
      | inl missing ↦ ground arith
      | inr (a, found) ↦ ground (
        arith,
        find-update_where attempt_key test f (λ b sel. Alters-id (alters b sel)) i s.attempts,
        moved a,
      )
    ]

then_status-state :
    (i : String) (r : AttemptStore × Result AttemptStoreViolation Unit) → (then_status i r).0 ≡ r.0
then_status-state i (s, ok u) = refl
then_status-state i (s, err e) = refl

update_one-state :
    (test : B3Attempt → Bool) (f : B3Attempt → B3Attempt) (e : AttemptStoreViolation)
    (s : AttemptStore)
    → (run_txn s (update_one test f e s)).0
      ≡ (if nat_eq (count_if test s.attempts) 1 then alter test f s else s)
unfolding update_one
update_one-state test f e s = elim (Bool-cases (nat_eq (count_if test s.attempts) 1)) [
  | inl one ↦ rw one refl
  | inr other ↦ rw other refl
]

transition-state :
    (i : String) (to : AttemptStatus) (reason : Option String) (s : AttemptStore)
    → (transition i to reason s).0 ≡ (
        if nat_eq (count_if (dispatched_row i) s.attempts) 1
        then alter (dispatched_row i) (set_status to reason) s
        else s)
unfolding transition
transition-state i to reason s =
    then_status-state i
      (run_txn s (update_one (dispatched_row i) (set_status to reason) not_dispatched s))
    ∙ update_one-state (dispatched_row i) (set_status to reason) not_dispatched s

not_reserved_cases :
    (x : AttemptStatus)
    → not (is_reserved x) ≡ true
    → (is_dispatched x ≡ true) ⊎ ((is_dispatched x ≡ false) × (is_settled x ≡ true))
not_reserved_cases reserved h = cc
not_reserved_cases dispatched h = inl refl
not_reserved_cases succeeded h = inr (refl, refl)
not_reserved_cases failed h = inr (refl, refl)
not_reserved_cases unknown h = inr (refl, refl)

found_underway :
    (i : String) (s : AttemptStore)
    → IsUnderway i s
    → (a : B3Attempt) × (find_attempt i s ≡ some a) × (not (is_reserved a.status) ≡ true)
found_underway i s h = elim (Option-cases (find_attempt i s)) [
  | inl missing ↦ ground arith
  | inr (a, found) ↦ (a, found, ground arith)
]

-- A settling transition settles whatever is underway: it moves a dispatched attempt, and refuses
-- only one that is settled already.
pub transition-settles :
    (i : String) (to : AttemptStatus) (reason : Option String) (s : AttemptStore)
    → is_settled to ≡ true
    → IsKeyed attempt_key s.attempts
    → IsUnderway i s
    → IsSettledAt i (transition i to reason s).0
unfolding find_attempt alter
transition-settles i to reason s settled keyed underway =
    let (a, found, going) = found_underway i s underway in
    rw (transition-state i to reason s) elim (not_reserved_cases a.status going) [
      | inl flying ↦ ground (
        arith,
        count_if-key attempt_key (λ b. is_dispatched b.status) i s.attempts keyed,
        find-update_where attempt_key (dispatched_row i) (set_status to reason) (λ b sel. refl) i
            s.attempts,
        find-key attempt_key i a s.attempts,
        eq_iff a.attempt_id i,
      )
      | inr landed ↦
          ground (arith, count_if-key attempt_key (λ b. is_dispatched b.status) i s.attempts keyed)
    ]

settled_not_reserved : (x : AttemptStatus) → is_settled x ≡ true → not (is_reserved x) ≡ true
settled_not_reserved reserved h = cc
settled_not_reserved dispatched h = cc
settled_not_reserved succeeded h = refl
settled_not_reserved failed h = refl
settled_not_reserved unknown h = refl

pub settled-IsUnderway : (i : String) (s : AttemptStore) → IsSettledAt i s → IsUnderway i s
settled-IsUnderway i s h = elim (Option-cases (find_attempt i s)) [
  | inl missing ↦ ground arith
  | inr (a, found) ↦ ground (arith, settled_not_reserved a.status)
]

pub History-IsUnderway :
    (i : String) {s t : AttemptStore} → AttemptHistory s t → IsUnderway i s → IsUnderway i t
History-IsUnderway i = AttemptHistory_induction (IsUnderway i) (Write-IsUnderway i)

pub dispatched-IsUnderway :
    (i p : String) (s : AttemptStore) (b : B3Attempt)
    → IsKeyed attempt_key s.attempts
    → (mark_dispatched i p s).1 ≡ ok b
    → IsUnderway i (mark_dispatched i p s).0
dispatched-IsUnderway i p s b keyed h =
    let (found, flying) = mark_dispatched-row i p s b keyed h in rw (found, flying) refl

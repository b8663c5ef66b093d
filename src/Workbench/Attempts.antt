-- ===== src/Workbench/Attempts.antt =====
-- workbench/b3_attempt_store.py: `B3AttemptStore`, the exactly-once reservations of B3 readings.
-- Rows stand newest first. The fresh attempt id is an argument; a crash inside a transaction rolls
-- it back, so it leaves the state before.
pub mod Steps
pub mod History
pub mod Outcomes
use sentinel_security_platfo.Base.{
  ℕ, String, Bool, true, false, not, ◌&&◌, ◌||◌, Option, none, some, List, [], ◌∷◌, Result, ok, err,
  Txn, commit, rollback, run_txn, any, leb, ltb, nat_eq, is_some, is_digest, has_white, text_length,
  ◌==◌, if◌then◌else◌, count_if, map,
}
use sentinel_security_platfo.Base.Table.{find, update_where}

pub data AttemptStatus : Type 0 where
  reserved dispatched succeeded failed unknown : AttemptStatus

-- What the methods raise: the messages of `AttemptStoreViolation`, `ContractViolation` for
-- `bad_digest`, and the database's IntegrityError for `primary_key_used`.
pub data AttemptStoreViolation : Type 0 where
  unlabelled_run unlabelled_profile unbounded_unit bad_replication bad_digest :
      AttemptStoreViolation
  duplicate_attempt primary_key_used profile_revoked not_reserved_for_profile :
      AttemptStoreViolation
  reason_required bad_terminal_status not_dispatched not_reserved : AttemptStoreViolation
  unknown_attempt unknown_not_retryable : AttemptStoreViolation

pub record B3Attempt : Type 0 where
  pub attempt_id : String
  pub run_id : String
  pub arm : String
  pub replication : ℕ
  pub selection_manifest_digest : String
  pub unit_id : String
  pub profile : String
  pub status : AttemptStatus
  pub terminal_reason : Option String

pub record AttemptStore : Type 0 where
  pub attempts : List B3Attempt
  pub revoked_profiles : List String

abbrev pub Call : Type 0 → Type 0
Call A = AttemptStore → AttemptStore × Result AttemptStoreViolation A

abbrev pub AttemptTxn : Type 0 → Type 0
AttemptTxn A = Txn AttemptStore AttemptStoreViolation A

abbrev pub attempt_key : B3Attempt → String
attempt_key a = a.attempt_id

unfoldable pub find_attempt : String → AttemptStore → Option B3Attempt
find_attempt i s = find attempt_key i s.attempts

-- The arguments of `reserve`.
pub record Reservation : Type 0 where
  pub run_id : String
  pub arm : String
  pub replication : ℕ
  pub selection_manifest_digest : String
  pub profile : String
  pub unit_id : String

-- The columns of the UNIQUE constraint.
unfoldable pub same_reading : Reservation → B3Attempt → Bool
same_reading q a =
    a.run_id == q.run_id
    && a.arm == q.arm
    && nat_eq a.replication q.replication
    && a.selection_manifest_digest == q.selection_manifest_digest
    && a.unit_id == q.unit_id

unfoldable pub has_reading : Reservation → List B3Attempt → Bool
unfolding any same_reading
has_reading q = any (same_reading q)

abbrev pub new_attempt : Reservation → String → B3Attempt
new_attempt q i = record {
  attempt_id = i;
  run_id = q.run_id;
  arm = q.arm;
  replication = q.replication;
  selection_manifest_digest = q.selection_manifest_digest;
  unit_id = q.unit_id;
  profile = q.profile;
  status = reserved;
  terminal_reason = none;
}

unfoldable pub add_attempt : B3Attempt → AttemptStore → AttemptStore
add_attempt a s = record s { attempts = a ∷ s.attempts }

unfoldable pub reserve_txn : Reservation → String → AttemptStore → AttemptTxn B3Attempt
unfolding has_reading find_attempt add_attempt
reserve_txn q i s =
    if has_reading q s.attempts
    then rollback duplicate_attempt
    else if is_some (find_attempt i s)
    then rollback primary_key_used
    else commit (add_attempt (new_attempt q i) s) (new_attempt q i)

unfoldable pub reserve : Reservation → String → Call B3Attempt
unfolding reserve_txn
reserve q i s =
    if q.run_id == "" || not (q.arm == "B3")
    then (s, err unlabelled_run)
    else if q.profile == ""
    then (s, err unlabelled_profile)
    else if q.unit_id == "" || ltb 256 (text_length q.unit_id) || has_white q.unit_id
    then (s, err unbounded_unit)
    else if ltb q.replication 1
    then (s, err bad_replication)
    else if not (is_digest q.selection_manifest_digest)
    then (s, err bad_digest)
    else run_txn s (reserve_txn q i s)

unfoldable pub profile_is_revoked : String → AttemptStore → Bool
unfolding any
profile_is_revoked p s = any (λ q. q == p) s.revoked_profiles

unfoldable pub revoke_profile : String → Call Unit
unfolding profile_is_revoked
revoke_profile p s =
    if p == ""
    then (s, err unlabelled_profile)
    else if profile_is_revoked p s
    then (s, ok tt)
    else (record s { revoked_profiles = p ∷ s.revoked_profiles }, ok tt)

abbrev pub set_status : AttemptStatus → Option String → B3Attempt → B3Attempt
set_status status reason a = record a { status = status; terminal_reason = reason }

-- `mark_dispatched` leaves the `terminal_reason` column as it is.
abbrev pub set_dispatched : B3Attempt → B3Attempt
set_dispatched a = record a { status = dispatched }

abbrev pub is_reserved : AttemptStatus → Bool
is_reserved reserved = true
is_reserved _ = false

abbrev pub is_dispatched : AttemptStatus → Bool
is_dispatched dispatched = true
is_dispatched _ = false

unfoldable pub status : String → AttemptStore → Result AttemptStoreViolation B3Attempt
unfolding find_attempt
status i s = elim (find_attempt i s) [ none ↦ err unknown_attempt | some a ↦ ok a ]

unfoldable pub alter : (B3Attempt → Bool) → (B3Attempt → B3Attempt) → AttemptStore → AttemptStore
alter test change s = record s { attempts = update_where test change s.attempts }

-- An UPDATE whose `rowcount` has to be 1.
unfoldable pub update_one :
    (B3Attempt → Bool)
    → (B3Attempt → B3Attempt)
    → AttemptStoreViolation
    → AttemptStore
    → AttemptTxn Unit
unfolding count_if alter
update_one test change e s =
    if nat_eq (count_if test s.attempts) 1 then commit (alter test change s) tt else rollback e

-- `return self.status(attempt_id)` after a transaction.
abbrev pub then_status :
    String
    → AttemptStore × Result AttemptStoreViolation Unit
    → AttemptStore × Result AttemptStoreViolation B3Attempt
then_status i (s, ok u) = (s, status i s)
then_status i (s, err e) = (s, err e)

-- The WHERE clauses.
abbrev pub may_dispatch : String → String → B3Attempt → Bool
may_dispatch i p a = a.attempt_id == i && (a.profile == p && is_reserved a.status)

abbrev pub dispatched_row : String → B3Attempt → Bool
dispatched_row i a = a.attempt_id == i && is_dispatched a.status

abbrev pub reserved_row : String → B3Attempt → Bool
reserved_row i a = a.attempt_id == i && is_reserved a.status

unfoldable pub dispatch_txn : String → String → AttemptStore → AttemptTxn Unit
unfolding profile_is_revoked update_one
dispatch_txn i p s =
    if profile_is_revoked p s
    then rollback profile_revoked
    else update_one (may_dispatch i p) set_dispatched not_reserved_for_profile s

unfoldable pub mark_dispatched : String → String → Call B3Attempt
unfolding profile_is_revoked dispatch_txn
mark_dispatched i p s =
    if profile_is_revoked p s
    then (s, err profile_revoked)
    else then_status i (run_txn s (dispatch_txn i p s))

-- `_transition`
unfoldable pub transition : String → AttemptStatus → Option String → Call B3Attempt
unfolding update_one
transition i to reason s =
    then_status i
      (run_txn s (update_one (dispatched_row i) (set_status to reason) not_dispatched s))

-- `_transition_from_reserved`
unfoldable pub transition_from_reserved : String → AttemptStatus → String → Call B3Attempt
unfolding update_one
transition_from_reserved i to reason s =
    then_status i
      (run_txn s (update_one (reserved_row i) (set_status to (some reason)) not_reserved s))

unfoldable pub mark_unknown : String → String → Call B3Attempt
unfolding transition
mark_unknown i reason s =
    if reason == "" then (s, err reason_required) else transition i unknown (some reason) s

-- `status not in {"succeeded", "failed"}`
abbrev pub is_outcome : AttemptStatus → Bool
is_outcome succeeded = true
is_outcome failed = true
is_outcome _ = false

unfoldable pub mark_terminal : String → AttemptStatus → Call B3Attempt
unfolding transition
mark_terminal i to s =
    if not (is_outcome to) then (s, err bad_terminal_status) else transition i to none s

unfoldable pub mark_rejected : String → String → Call B3Attempt
unfolding transition_from_reserved
mark_rejected i reason s =
    if reason == "" then (s, err reason_required) else transition_from_reserved i failed reason s

unfoldable pub retryable : String → AttemptStore → Result AttemptStoreViolation Bool
unfolding status
retryable i s = elim (status i s) [
  | err e ↦ err e
  | ok a ↦ elim a.status [ unknown ↦ err unknown_not_retryable | _ ↦ ok (is_reserved a.status) ]
]

-- `_recover_stranded_dispatches`, at the end of `__init__`
unfoldable pub recover_stranded_dispatches : AttemptStore → AttemptStore
unfolding alter
recover_stranded_dispatches s =
    alter (λ a. is_dispatched a.status) (set_status unknown (some "restart-after-dispatch")) s

-- A row of the table as it was before `unit_id`.
pub record LegacyAttempt : Type 0 where
  pub attempt_id : String
  pub run_id : String
  pub arm : String
  pub replication : ℕ
  pub selection_manifest_digest : String
  pub profile : String
  pub status : AttemptStatus
  pub terminal_reason : Option String

abbrev pub per_unit : LegacyAttempt → B3Attempt
per_unit a = record {
  attempt_id = a.attempt_id;
  run_id = a.run_id;
  arm = a.arm;
  replication = a.replication;
  selection_manifest_digest = a.selection_manifest_digest;
  unit_id = "legacy-unspecified";
  profile = a.profile;
  status = a.status;
  terminal_reason = a.terminal_reason;
}

-- `_migrate_attempts_to_per_unit_reservations`
unfoldable pub migrate_attempts : List LegacyAttempt → List B3Attempt
migrate_attempts rows = map per_unit rows

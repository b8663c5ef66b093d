-- ===== src/Workbench/Attempts/Steps.antt =====
-- The guarded writes that every method of `B3AttemptStore` is made of.
use sentinel_security_platfo.Base.{
  String, ◌≡◌, refl, inl, inr, Bool, true, false, not, ◌&&◌, ◌||◌, Option, none, some, ◌∷◌, Result,
  ok, err, run_txn, rollback, count_if, is_some, nat_eq, ltb, is_digest, has_white, text_length,
  arith, ◌==◌, if◌then◌else◌, Bool-cases, eq_iff,
}
use sentinel_security_platfo.Workbench.Attempts.{
  AttemptStatus, reserved, dispatched, succeeded, failed, unknown, AttemptStoreViolation,
  not_dispatched, not_reserved, B3Attempt, AttemptStore, AttemptTxn, Reservation, find_attempt,
  has_reading, new_attempt, add_attempt, reserve_txn, reserve, profile_is_revoked, revoke_profile,
  set_status, set_dispatched, is_reserved, is_dispatched, alter, update_one, then_status,
  may_dispatch, dispatched_row, reserved_row, dispatch_txn, mark_dispatched, transition,
  transition_from_reserved, mark_unknown, mark_terminal, mark_rejected, recover_stranded_dispatches,
}

-- The moves of one attempt's state machine.
pub data Legal : AttemptStatus → AttemptStatus → Type 0 where
  reject : Legal reserved failed
  succeed : Legal dispatched succeeded
  fail : Legal dispatched failed
  lose : Legal dispatched unknown

-- What an UPDATE does to a row that its WHERE clause selects.
pub data Alters (s : AttemptStore) (a : B3Attempt) : B3Attempt → Type 0 where
  dispatches :
      a.status ≡ reserved → profile_is_revoked a.profile s ≡ false → Alters s a (set_dispatched a)
  settles :
      {to : AttemptStatus} (reason : Option String)
      → Legal a.status to
      → Alters s a (set_status to reason a)

pub data Write (s : AttemptStore) : AttemptStore → Type 0 where
  keep : Write s s
  book :
      (q : Reservation) (i : String)
      → has_reading q s.attempts ≡ false
      → find_attempt i s ≡ none
      → Write s (add_attempt (new_attempt q i) s)
  revoke : (p : String) → Write s (record s { revoked_profiles = p ∷ s.revoked_profiles })
  change :
      (test : B3Attempt → Bool) (f : B3Attempt → B3Attempt)
      → ((a : B3Attempt) → test a ≡ true → Alters s a (f a))
      → Write s (alter test f s)

-- A test that refuses.
guard-Write :
    {A : Type 0} {s : AttemptStore} (b : Bool) (e : AttemptStoreViolation)
    (r : AttemptStore × Result AttemptStoreViolation A)
    → (b ≡ false → Write s r.0)
    → Write s (if b then (s, err e) else r).0
guard-Write true e r w = keep
guard-Write false e r w = w refl

guard_txn-Write :
    {A : Type 0} {s : AttemptStore} (b : Bool) (e : AttemptStoreViolation) (x : AttemptTxn A)
    → (b ≡ false → Write s (run_txn s x).0)
    → Write s (run_txn s (if b then rollback e else x)).0
guard_txn-Write true e x w = keep
guard_txn-Write false e x w = w refl

then_status-Write :
    {s : AttemptStore} (i : String) (r : AttemptStore × Result AttemptStoreViolation Unit)
    → Write s r.0
    → Write s (then_status i r).0
then_status-Write i (t, ok u) w = w
then_status-Write i (t, err e) w = w

-- The row's status when a WHERE clause selects it.
is_reserved-eq : (x : AttemptStatus) → is_reserved x ≡ true → x ≡ reserved
is_reserved-eq reserved h = refl
is_reserved-eq dispatched h = cc
is_reserved-eq succeeded h = cc
is_reserved-eq failed h = cc
is_reserved-eq unknown h = cc

is_dispatched-eq : (x : AttemptStatus) → is_dispatched x ≡ true → x ≡ dispatched
is_dispatched-eq reserved h = cc
is_dispatched-eq dispatched h = refl
is_dispatched-eq succeeded h = cc
is_dispatched-eq failed h = cc
is_dispatched-eq unknown h = cc

middle : (x y z : Bool) → (x && (y && z)) ≡ true → y ≡ true
middle x y z h = ground arith

last : (x y z : Bool) → (x && (y && z)) ≡ true → z ≡ true
last x y z h = ground arith

profile_of : (i p : String) (a : B3Attempt) → may_dispatch i p a ≡ true → a.profile ≡ p
profile_of i p a h = (eq_iff a.profile p).0 (middle _ _ _ h)

both_right : (x y : Bool) → (x && y) ≡ true → y ≡ true
both_right x y h = ground arith

update_one-Write :
    (test : B3Attempt → Bool) (f : B3Attempt → B3Attempt) (e : AttemptStoreViolation)
    (s : AttemptStore)
    → ((a : B3Attempt) → test a ≡ true → Alters s a (f a))
    → Write s (run_txn s (update_one test f e s)).0
unfolding update_one
update_one-Write test f e s h = elim (Bool-cases (nat_eq (count_if test s.attempts) 1)) [
  | inl one ↦ rw one (change test f h)
  | inr other ↦ rw other keep
]

lose_row :
    (s : AttemptStore) (a : B3Attempt) (reason : Option String) {to : AttemptStatus}
    → is_dispatched a.status ≡ true
    → Legal dispatched to
    → Alters s a (set_status to reason a)
lose_row s a reason h legal = settles reason (rw (is_dispatched-eq a.status h) legal)

unused :
    (i : String) (s : AttemptStore) → is_some (find_attempt i s) ≡ false → find_attempt i s ≡ none
unused i s h = ground arith

pub reserve-Write : (q : Reservation) (i : String) (s : AttemptStore) → Write s (reserve q i s).0
unfolding reserve reserve_txn
reserve-Write q i s =
    guard-Write {A = B3Attempt} (q.run_id == "" || not (q.arm == "B3")) _ _ λ labelled.
      guard-Write {A = B3Attempt} (q.profile == "") _ _ λ profiled.
        guard-Write {A = B3Attempt}
          (q.unit_id == "" || ltb 256 (text_length q.unit_id) || has_white q.unit_id) _ _
          λ bounded. guard-Write {A = B3Attempt} (ltb q.replication 1) _ _ λ positive.
            guard-Write {A = B3Attempt} (not (is_digest q.selection_manifest_digest)) _ _ λ digest.
              guard_txn-Write (has_reading q s.attempts) _ _ λ unread.
                guard_txn-Write (is_some (find_attempt i s)) _ _
                  λ new. book q i unread (unused i s new)

pub revoke_profile-Write : (p : String) (s : AttemptStore) → Write s (revoke_profile p s).0
unfolding revoke_profile
revoke_profile-Write p s = guard-Write {A = Unit} (p == "") _ _ λ a.
    elim (Bool-cases (profile_is_revoked p s)) [
      | inl there ↦ rw there keep
      | inr fresh ↦ rw fresh (revoke p)
    ]

pub mark_dispatched-Write : (i p : String) (s : AttemptStore) → Write s (mark_dispatched i p s).0
unfolding mark_dispatched dispatch_txn
mark_dispatched-Write i p s = guard-Write {A = B3Attempt} (profile_is_revoked p s) _ _ λ live.
    then_status-Write i (run_txn s (dispatch_txn i p s)) (
      guard_txn-Write (profile_is_revoked p s) _ _ λ still.
        update_one-Write (may_dispatch i p) set_dispatched _ s λ a h.
          dispatches (is_reserved-eq a.status (last _ _ _ h)) (rw (profile_of i p a h) still))

transition-Write :
    (i : String) (to : AttemptStatus) (reason : Option String) (s : AttemptStore)
    → Legal dispatched to
    → Write s (transition i to reason s).0
unfolding transition
transition-Write i to reason s legal =
    then_status-Write i
      (run_txn s (update_one (dispatched_row i) (set_status to reason) not_dispatched s))
      (update_one-Write (dispatched_row i) (set_status to reason) _ s
        λ a h. lose_row s a reason (both_right (a.attempt_id == i) _ h) legal)

pub mark_unknown-Write :
    (i reason : String) (s : AttemptStore) → Write s (mark_unknown i reason s).0
unfolding mark_unknown
mark_unknown-Write i reason s =
    guard-Write {A = B3Attempt} (reason == "") _ _
      λ given. transition-Write i unknown (some reason) s lose

pub mark_terminal-Write :
    (i : String) (to : AttemptStatus) (s : AttemptStore) → Write s (mark_terminal i to s).0
unfolding mark_terminal
mark_terminal-Write i succeeded s = transition-Write i succeeded none s succeed
mark_terminal-Write i failed s = transition-Write i failed none s fail
mark_terminal-Write i reserved s = keep
mark_terminal-Write i dispatched s = keep
mark_terminal-Write i unknown s = keep

pub mark_rejected-Write :
    (i reason : String) (s : AttemptStore) → Write s (mark_rejected i reason s).0
unfolding mark_rejected transition_from_reserved
mark_rejected-Write i reason s = guard-Write {A = B3Attempt} (reason == "") _ _ λ given.
    then_status-Write i
      (run_txn s (update_one (reserved_row i) (set_status failed (some reason)) not_reserved s))
      (update_one-Write (reserved_row i) (set_status failed (some reason)) _ s λ a h.
        settles (some reason)
          (rw (is_reserved-eq a.status (both_right (a.attempt_id == i) _ h)) reject))

pub recover-Write : (s : AttemptStore) → Write s (recover_stranded_dispatches s)
unfolding recover_stranded_dispatches
recover-Write s =
    change (λ a. is_dispatched a.status) (set_status unknown (some "restart-after-dispatch"))
      λ a h. lose_row s a (some "restart-after-dispatch") h lose

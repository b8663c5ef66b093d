-- ===== src/Workbench/Attempts/Outcomes.antt =====
-- When the methods of `B3AttemptStore` succeed, and what they leave.
use sentinel_security_platfo.Base.{
  String, ◌≡◌, refl, sym, ap, ◌∙◌, ◌↔◌, ◌⊎◌, inl, inr, Bool-cases, Option-cases, Result, Bool, true,
  false, ◌&&◌, not, none, some, List, [], ◌∷◌, ok, err, count_if, any, arith, ◌==◌, eq_iff, ltb,
  text_length, has_white, is_digest,
}
use sentinel_security_platfo.Base.Table.{update_where, IsKeyed, find-update_where, find-key}
use sentinel_security_platfo.Base.Count.{count_if-key, row_passes}
use sentinel_security_platfo.Workbench.Attempts.{
  dispatched, unknown, B3Attempt, AttemptStore, Reservation, attempt_key, find_attempt,
  same_reading, has_reading, new_attempt, add_attempt, reserve, reserve_txn, profile_is_revoked,
  set_status, set_dispatched, is_reserved, is_dispatched, status, alter, update_one, may_dispatch,
  dispatch_txn, mark_dispatched, then_status, recover_stranded_dispatches, is_reserved,
}
use sentinel_security_platfo.Workbench.Attempts.Steps.{Write, keep, book, revoke, change}
use sentinel_security_platfo.Workbench.Attempts.History.{
  AttemptHistory, AttemptHistory_induction, Alters-same_reading, in_flight,
}

abbrev pub is_ok : {E A : Type 0} → Result E A → Bool
is_ok (ok a) = true
is_ok (err e) = false

same_ok : {E A : Type 0} {a b : A} → ◌≡◌ {A = Result E A} (ok a) (ok b) → a ≡ b
same_ok h = cc

ok_refused : {E A B : Type 0} {r : Result E A} {a : A} → r ≡ ok a → is_ok r ≡ false → B
ok_refused {a = a} h refused = cc

-- An attempt that `mark_dispatched` accepts.
abbrev pub IsDispatchable : String → String → AttemptStore → B3Attempt → Type 0
IsDispatchable i p s a =
    (profile_is_revoked p s ≡ false)
    × (find_attempt i s ≡ some a)
    × (a.profile ≡ p)
    × (is_reserved a.status ≡ true)

one_dispatchable :
    (i p : String) (s : AttemptStore) (a : B3Attempt)
    → IsKeyed attempt_key s.attempts
    → IsDispatchable i p s a
    → count_if (may_dispatch i p) s.attempts ≡ 1
unfolding find_attempt
one_dispatchable i p s a keyed h = ground (
  arith,
  count_if-key attempt_key (λ b. b.profile == p && is_reserved b.status) i s.attempts keyed,
  eq_iff a.profile p,
)

find-dispatched :
    (i p : String) (s : AttemptStore) (a : B3Attempt)
    → IsDispatchable i p s a
    → find_attempt i (alter (may_dispatch i p) set_dispatched s) ≡ some (set_dispatched a)
unfolding find_attempt alter
find-dispatched i p s a h = ground (
  arith,
  find-update_where attempt_key (may_dispatch i p) set_dispatched (λ b sel. refl) i s.attempts,
  find-key attempt_key i a s.attempts,
  eq_iff a.profile p,
  eq_iff a.attempt_id i,
)

then_status-found :
    (i : String) (t : AttemptStore) (b : B3Attempt)
    → find_attempt i t ≡ some b
    → then_status i (t, ok tt) ≡ (t, ok b)
unfolding status
then_status-found i t b h =
    let found : status i t ≡ ok b = rw (status, h) refl in ap (λ r. (t, r)) found

mark_dispatched-found :
    (i p : String) (s : AttemptStore) (a : B3Attempt)
    → IsKeyed attempt_key s.attempts
    → IsDispatchable i p s a
    → mark_dispatched i p s ≡ (alter (may_dispatch i p) set_dispatched s, ok (set_dispatched a))
unfolding mark_dispatched dispatch_txn update_one
mark_dispatched-found i p s a keyed h =
    rw (h.0, one_dispatchable i p s a keyed h)
      (then_status-found i (alter (may_dispatch i p) set_dispatched s) (set_dispatched a)
        (find-dispatched i p s a h))

IsDispatchable-cases :
    (i p : String) (s : AttemptStore)
    → ((a : B3Attempt) × IsDispatchable i p s a)
      ⊎ ((profile_is_revoked p s ≡ true)
          ⊎ (row_passes (λ a. a.profile == p && is_reserved a.status) (find_attempt i s) ≡ false))
IsDispatchable-cases i p s = elim (Bool-cases (profile_is_revoked p s)) [
  | inl dead ↦ inr (inl dead)
  | inr live ↦ elim (Option-cases (find_attempt i s)) [
    | inl missing ↦ inr (inr (rw missing refl))
    | inr (a, found) ↦ elim (Bool-cases (a.profile == p && is_reserved a.status)) [
      | inl good ↦ inl (a, (live, found, ground (arith, eq_iff a.profile p), ground arith))
      | inr bad ↦ inr (inr (rw found bad))
    ]
  ]
]

none_dispatchable :
    (i p : String) (s : AttemptStore)
    → IsKeyed attempt_key s.attempts
    → (profile_is_revoked p s ≡ true)
      ⊎ (row_passes (λ a. a.profile == p && is_reserved a.status) (find_attempt i s) ≡ false)
    → is_ok (mark_dispatched i p s).1 ≡ false
unfolding mark_dispatched dispatch_txn update_one find_attempt
none_dispatchable i p s keyed (inl dead) = rw dead refl
none_dispatchable i p s keyed (inr h) = elim (Bool-cases (profile_is_revoked p s)) [
  | inl dead ↦ rw dead refl
  | inr live ↦
      let none_selected : count_if (may_dispatch i p) s.attempts ≡ 0 = ground (
        arith,
        count_if-key attempt_key (λ b. b.profile == p && is_reserved b.status) i s.attempts keyed,
      ) in
      rw (live, none_selected) refl
]

dispatched_only :
    (i p : String) (s : AttemptStore) (b : B3Attempt)
    → IsKeyed attempt_key s.attempts
    → (mark_dispatched i p s).1 ≡ ok b
    → (a : B3Attempt) × IsDispatchable i p s a × (b ≡ set_dispatched a)
dispatched_only i p s b keyed h = elim (IsDispatchable-cases i p s) [
  | inl (a, can) ↦
      (a, can, same_ok (sym h ∙ ap (λ r. r.1) (mark_dispatched-found i p s a keyed can)))
  | inr cannot ↦ ok_refused h (none_dispatchable i p s keyed cannot)
]

-- A dispatched attempt's row, as the store then holds it.
pub mark_dispatched-row :
    (i p : String) (s : AttemptStore) (b : B3Attempt)
    → IsKeyed attempt_key s.attempts
    → (mark_dispatched i p s).1 ≡ ok b
    → (find_attempt i (mark_dispatched i p s).0 ≡ some b) × (b.status ≡ dispatched)
mark_dispatched-row i p s b keyed h =
    let (a, can, same) = dispatched_only i p s b keyed h in
    rw (mark_dispatched-found i p s a keyed can)
      (find-dispatched i p s a can ∙ ap some (sym same), ap (λ r. r.status) same)

-- Where attempt ids are unique, an attempt is dispatched exactly when it is reserved, bound to the
-- profile that asks, and the profile is not revoked; the row that the call returns is then that
-- attempt, now dispatched.
pub mark_dispatched_iff :
    (i p : String) (s : AttemptStore) (b : B3Attempt)
    → IsKeyed attempt_key s.attempts
    → ((mark_dispatched i p s).1 ≡ ok b)
      ↔ ((a : B3Attempt) × IsDispatchable i p s a × (b ≡ set_dispatched a))
mark_dispatched_iff i p s b keyed = (
  dispatched_only i p s b keyed,
  λ (a, can, same). rw same (ap (λ r. r.1) (mark_dispatched-found i p s a keyed can)),
)

altered_reading :
    (q : Reservation) (test : B3Attempt → Bool) (f : B3Attempt → B3Attempt)
    → ((a : B3Attempt) → test a ≡ true → same_reading q (f a) ≡ same_reading q a)
    → (rows : List B3Attempt) → has_reading q rows ≡ true
    → has_reading q (update_where test f rows) ≡ true
unfolding has_reading any update_where
altered_reading q test f same [] h = h
altered_reading q test f same (a ∷ rows) h =
    ground (arith, same a, altered_reading q test f same rows)

Write-has_reading :
    (q : Reservation) (s t : AttemptStore)
    → Write s t
    → has_reading q s.attempts ≡ true
    → has_reading q t.attempts ≡ true
unfolding has_reading any add_attempt alter
Write-has_reading q s t keep h = h
Write-has_reading q s t (revoke p) h = h
Write-has_reading q s t (book r i unread new) h = ground arith
Write-has_reading q s t (change test f alters) h =
    altered_reading q test f (λ a sel. Alters-same_reading q (alters a sel)) s.attempts h

-- The arguments that `reserve` checks before the transaction.
abbrev pub is_well_formed : Reservation → Bool
unfolding has_white is_digest
is_well_formed q =
    not (q.run_id == "")
    && q.arm == "B3"
    && not (q.profile == "")
    && not (q.unit_id == "")
    && not (ltb 256 (text_length q.unit_id))
    && not (has_white q.unit_id)
    && not (ltb q.replication 1)
    && is_digest q.selection_manifest_digest

-- A reading is reserved exactly when its arguments are well formed and neither the reading nor the
-- fresh id has an attempt; the row is then the new one, in front of the old rows.
pub reserve_iff :
    (q : Reservation) (i : String) (s : AttemptStore) (a : B3Attempt) (t : AttemptStore)
    → (reserve q i s ≡ (t, ok a)) ↔ (
        (is_well_formed q ≡ true)
        × (has_reading q s.attempts ≡ false)
        × (find_attempt i s ≡ none)
        × (a ≡ new_attempt q i)
        × (t ≡ add_attempt a s))
unfolding reserve reserve_txn is_well_formed
reserve_iff q i s a t = (λ h. ground arith, λ h. ground arith)

pub History-has_reading :
    (q : Reservation) {s t : AttemptStore}
    → AttemptHistory s t
    → has_reading q s.attempts ≡ true
    → has_reading q t.attempts ≡ true
History-has_reading q =
    AttemptHistory_induction (λ u. has_reading q u.attempts ≡ true) (Write-has_reading q)

-- Once a reading has an attempt, no later call reserves it again, whatever the id and the profile.
pub reserve-once :
    (q : Reservation) (i : String) {s t : AttemptStore}
    → has_reading q s.attempts ≡ true
    → AttemptHistory s t
    → ((reserve q i t).0 ≡ t) × (is_ok (reserve q i t).1 ≡ false)
unfolding reserve reserve_txn
reserve-once q i {s} {t} taken hist =
    let still : has_reading q t.attempts ≡ true = History-has_reading q hist taken in ground arith

recovered-idle :
    (p : String) (rows : List B3Attempt)
    → in_flight p (
        update_where
          (λ a. is_dispatched a.status)
          (set_status unknown (some "restart-after-dispatch"))
          rows)
      ≡ 0
unfolding in_flight count_if update_where
recovered-idle p [] = refl
recovered-idle p (a ∷ rows) = ground (arith, recovered-idle p rows)

-- After a restart nothing is in flight under any profile.
pub restart-idle :
    (p : String) (s : AttemptStore) → in_flight p (recover_stranded_dispatches s).attempts ≡ 0
unfolding recover_stranded_dispatches alter
restart-idle p s = recovered-idle p s.attempts

-- ===== src/Workbench/Attempts/History.antt =====
-- Histories of the attempt store: calls of its methods, restarts among them, in any order.
use sentinel_security_platfo.Base.{
  ℕ, ◌≤◌, String, ◌≡◌, refl, Bool, true, false, ◌&&◌, some, List, [], ◌∷◌, count_if, any, arith,
  ◌==◌, eq_iff,
}
use sentinel_security_platfo.Base.Table.{find, IsKeyed, find-update_where, update_where-IsKeyed}
use sentinel_security_platfo.Base.Count.{count_if-update_where, count_if_of_any}
use sentinel_security_platfo.Workbench.Attempts.{
  AttemptStatus, succeeded, failed, unknown, B3Attempt, AttemptStore, Reservation, attempt_key,
  find_attempt, same_reading, has_reading, new_attempt, add_attempt, reserve, profile_is_revoked,
  revoke_profile, is_dispatched, alter, mark_dispatched, mark_unknown, mark_terminal, mark_rejected,
  recover_stranded_dispatches,
}
use sentinel_security_platfo.Workbench.Attempts.Steps.{
  Legal, reject, succeed, fail, lose, Alters, dispatches, settles, Write, keep, book, revoke,
  change, reserve-Write, revoke_profile-Write, mark_dispatched-Write, mark_unknown-Write,
  mark_terminal-Write, mark_rejected-Write, recover-Write,
}

pub data Calls (s : AttemptStore) : AttemptStore → Type 0 where
  reserves : (q : Reservation) (i : String) → Calls s (reserve q i s).0
  revokes : (p : String) → Calls s (revoke_profile p s).0
  marks_dispatched : (i p : String) → Calls s (mark_dispatched i p s).0
  marks_unknown : (i reason : String) → Calls s (mark_unknown i reason s).0
  marks_terminal : (i : String) (to : AttemptStatus) → Calls s (mark_terminal i to s).0
  marks_rejected : (i reason : String) → Calls s (mark_rejected i reason s).0
  restarts : Calls s (recover_stranded_dispatches s)

pub data AttemptHistory (s : AttemptStore) : AttemptStore → Type 0 where
  start : AttemptHistory s s
  and_call : {t u : AttemptStore} → AttemptHistory s t → Calls t u → AttemptHistory s u

Calls-Write : {s t : AttemptStore} → Calls s t → Write s t
Calls-Write {s} (reserves q i) = reserve-Write q i s
Calls-Write {s} (revokes p) = revoke_profile-Write p s
Calls-Write {s} (marks_dispatched i p) = mark_dispatched-Write i p s
Calls-Write {s} (marks_unknown i reason) = mark_unknown-Write i reason s
Calls-Write {s} (marks_terminal i to) = mark_terminal-Write i to s
Calls-Write {s} (marks_rejected i reason) = mark_rejected-Write i reason s
Calls-Write {s} restarts = recover-Write s

pub AttemptHistory_induction :
    (P : AttemptStore → Type 0)
    → ((s t : AttemptStore) → Write s t → P s → P t)
    → {s t : AttemptStore} → AttemptHistory s t
    → P s
    → P t
AttemptHistory_induction P keeps start h = h
AttemptHistory_induction P keeps (and_call {t = t} {u = u} hist call) h =
    keeps t u (Calls-Write call) (AttemptHistory_induction P keeps hist h)

pub Alters-same_reading :
    (q : Reservation) {s : AttemptStore} {a b : B3Attempt}
    → Alters s a b
    → same_reading q b ≡ same_reading q a
unfolding same_reading
Alters-same_reading q (dispatches at live) = refl
Alters-same_reading q (settles reason legal) = refl

pub Alters-id : {s : AttemptStore} {a b : B3Attempt} → Alters s a b → b.attempt_id ≡ a.attempt_id
Alters-id (dispatches at live) = refl
Alters-id (settles reason legal) = refl

-- At most one row stands for each reading, and for each attempt id.
abbrev pub IsExactlyOnce : AttemptStore → Type 0
IsExactlyOnce s =
    ((q : Reservation) → count_if (same_reading q) s.attempts ≤ 1) × IsKeyed attempt_key s.attempts

-- Two reservations that a new row answers have the same rows.
same_reading_trans :
    (q r : Reservation) (i : String) (a : B3Attempt)
    → same_reading q (new_attempt r i) ≡ true
    → same_reading q a ≡ same_reading r a
unfolding same_reading
same_reading_trans q r i a same = ground (
  arith,
  eq_iff r.run_id q.run_id,
  eq_iff r.arm q.arm,
  eq_iff r.unit_id q.unit_id,
  eq_iff r.selection_manifest_digest q.selection_manifest_digest,
)

new_reading :
    (q r : Reservation) (i : String) (rows : List B3Attempt)
    → has_reading r rows ≡ false
    → same_reading q (new_attempt r i) ≡ true
    → has_reading q rows ≡ false
unfolding has_reading any
new_reading q r i [] h same = refl
new_reading q r i (a ∷ rows) h same =
    ground (arith, same_reading_trans q r i a same, new_reading q r i rows)

Write-IsExactlyOnce : (s t : AttemptStore) → Write s t → IsExactlyOnce s → IsExactlyOnce t
unfolding add_attempt alter find_attempt count_if has_reading
Write-IsExactlyOnce s t keep h = h
Write-IsExactlyOnce s t (revoke p) h = h
Write-IsExactlyOnce s t (book r i unread new) h = (
  λ q. ground (
    arith,
    h.0 q,
    new_reading q r i s.attempts unread,
    count_if_of_any (same_reading q) s.attempts,
  ),
  (new, h.1),
)
Write-IsExactlyOnce s t (change test f alters) h = (
  λ q. omega (
    arith,
    h.0 q,
    count_if-update_where (same_reading q) test f
        (λ a sel same. rw (← Alters-same_reading q (alters a sel)) same) s.attempts,
  ),
  update_where-IsKeyed attempt_key test f (λ a sel. Alters-id (alters a sel)) s.attempts h.1,
)

-- In a store where a reading (run, arm, replication, manifest digest, unit) has at most one attempt
-- and no two attempts share an id, this stays so, whatever calls are made and however often the
-- process restarts.
pub AttemptHistory-IsExactlyOnce :
    {s t : AttemptStore} → AttemptHistory s t → IsExactlyOnce s → IsExactlyOnce t
AttemptHistory-IsExactlyOnce = AttemptHistory_induction IsExactlyOnce Write-IsExactlyOnce

-- A status that no UPDATE of the source matches.
abbrev pub is_settled : AttemptStatus → Bool
is_settled succeeded = true
is_settled failed = true
is_settled unknown = true
is_settled _ = false

open_of : {x y : AttemptStatus} → Legal x y → is_settled x ≡ false
open_of reject = refl
open_of succeed = refl
open_of fail = refl
open_of lose = refl

Alters-open : {s : AttemptStore} {a b : B3Attempt} → Alters s a b → is_settled a.status ≡ false
Alters-open {a = a} (dispatches at live) = rw at refl
Alters-open {a = a} (settles reason legal) = open_of legal

Write-settled :
    (i : String) (a : B3Attempt)
    → is_settled a.status ≡ true
    → (s t : AttemptStore) → Write s t
    → find_attempt i s ≡ some a
    → find_attempt i t ≡ some a
unfolding find_attempt add_attempt alter find
Write-settled i a done s t keep h = h
Write-settled i a done s t (revoke p) h = h
Write-settled i a done s t (book r j unread new) h = ground (arith, eq_iff j i)
Write-settled i a done s t (change test f alters) h =
    let open_row : (b : B3Attempt) → test b ≡ true → is_settled b.status ≡ false =
      λ b sel. Alters-open (alters b sel) in
    ground (
      arith,
      find-update_where attempt_key test f (λ b sel. Alters-id (alters b sel)) i s.attempts,
      open_row a,
    )

-- The row of an attempt that succeeded, failed or became unknown is never changed again: its
-- status, its reason and every other column stay, through any calls and restarts.
pub AttemptHistory-settled :
    (i : String) (a : B3Attempt) {s t : AttemptStore}
    → is_settled a.status ≡ true
    → AttemptHistory s t
    → find_attempt i s ≡ some a
    → find_attempt i t ≡ some a
AttemptHistory-settled i a done =
    AttemptHistory_induction (λ s. find_attempt i s ≡ some a) (Write-settled i a done)

-- The number of attempts in flight under a profile.
unfoldable pub in_flight : String → List B3Attempt → ℕ
unfolding count_if
in_flight p = count_if (λ a. a.profile == p && is_dispatched a.status)

settled_in_flight : {x y : AttemptStatus} → Legal x y → is_dispatched y ≡ false
settled_in_flight reject = refl
settled_in_flight succeed = refl
settled_in_flight fail = refl
settled_in_flight lose = refl

Alters-in_flight :
    (p : String) {s : AttemptStore} {a b : B3Attempt}
    → profile_is_revoked p s ≡ true
    → Alters s a b
    → (b.profile == p && is_dispatched b.status) ≡ true
    → (a.profile == p && is_dispatched a.status) ≡ true
Alters-in_flight p {a = a} dead (dispatches at live) = ground (arith, eq_iff a.profile p)
Alters-in_flight p {a = a} dead (settles reason legal) = ground (arith, settled_in_flight legal)

Write-in_flight :
    (p : String) (n : ℕ) (s t : AttemptStore)
    → Write s t
    → (profile_is_revoked p s ≡ true) × (in_flight p s.attempts ≤ n)
    → (profile_is_revoked p t ≡ true) × (in_flight p t.attempts ≤ n)
unfolding in_flight profile_is_revoked any add_attempt alter count_if
Write-in_flight p n s t keep h = h
Write-in_flight p n s t (revoke r) h = ground arith
Write-in_flight p n s t (book r i unread new) h = ground arith
Write-in_flight p n s t (change test f alters) h = (
  h.0,
  omega (
    arith,
    h.1,
    count_if-update_where (λ a. a.profile == p && is_dispatched a.status) test f
        (λ a sel. Alters-in_flight p h.0 (alters a sel)) s.attempts,
  ),
)

-- Once a profile is revoked it stays revoked, and the number of its attempts in flight never
-- rises: no attempt is dispatched under it, whatever calls follow.
pub AttemptHistory-revoked :
    (p : String) (n : ℕ) {s t : AttemptStore}
    → AttemptHistory s t
    → (profile_is_revoked p s ≡ true) × (in_flight p s.attempts ≤ n)
    → (profile_is_revoked p t ≡ true) × (in_flight p t.attempts ≤ n)
AttemptHistory-revoked p n =
    AttemptHistory_induction (λ s. (profile_is_revoked p s ≡ true) × (in_flight p s.attempts ≤ n))
      (Write-in_flight p n)

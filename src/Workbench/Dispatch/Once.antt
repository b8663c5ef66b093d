-- ===== src/Workbench/Dispatch/Once.antt =====
-- The two promises of the dispatch boundary: a sent prompt's attempt is settled, and its reading is
-- not sent again.
use sentinel_security_platfo.Base.{
  String, ◌≡◌, refl, sym, ap, ◌∙◌, ◌≢◌, true, false, List, [], ◌∷◌, Result, ok, err, arith, any,
  eq_iff,
}
use sentinel_security_platfo.Workbench.Attempts.{
  AttemptStoreViolation, B3Attempt, AttemptStore, Reservation, has_reading, same_reading,
  add_attempt, new_attempt, reserve,
}
use sentinel_security_platfo.Workbench.Attempts.History.{
  AttemptHistory, start, and_call, reserves, AttemptHistory-IsExactlyOnce, IsExactlyOnce,
}
use sentinel_security_platfo.Workbench.Attempts.Outcomes.{
  reserve_iff, reserve-once, is_ok, History-has_reading,
}
use sentinel_security_platfo.Workbench.Dispatch.{
  Host, DispatchRequest, reservation, after_reserve, dispatch,
}
use sentinel_security_platfo.Workbench.Dispatch.Outcome.{IsShared, after_reserve-History}
use sentinel_security_platfo.Workbench.Dispatch.Sent.{IsSettledAt}
use sentinel_security_platfo.Workbench.Dispatch.Settled.{after_reserve-settles, sent_after_reserve}

reserved_row :
    (q : Reservation) (i : String) (s : AttemptStore) (a : B3Attempt)
    → (reserve q i s).1 ≡ ok a
    → (a ≡ new_attempt q i) × ((reserve q i s).0 ≡ add_attempt a s)
reserved_row q i s a h =
    let (form, unread, new, row, state) =
      (reserve_iff q i s a (reserve q i s).0).0 (ap (λ r. ((reserve q i s).0, r)) h) in
    (row, state)

settled_at : {i j : String} (u : AttemptStore) → i ≡ j → IsSettledAt i u → IsSettledAt j u
settled_at u same done = rw (← same) done

new_reading-found :
    (q : Reservation) (i : String) (s : AttemptStore)
    → has_reading q (add_attempt (new_attempt q i) s).attempts ≡ true
unfolding has_reading any add_attempt same_reading
new_reading-found q i s = ground (
  arith,
  eq_iff q.run_id q.run_id,
  eq_iff q.arm q.arm,
  eq_iff q.unit_id q.unit_id,
  eq_iff q.selection_manifest_digest q.selection_manifest_digest,
)

module _ (h : Host) (shared : IsShared h) (q : DispatchRequest) where
  abbrev after_reservation : AttemptStore → AttemptStore × Result AttemptStoreViolation B3Attempt
  after_reservation s = reserve (reservation h q) q.fresh_id s

  -- From a store with at most one attempt per reading and per id, and among processes that only
  -- call the store's methods: when a dispatch hands a prompt to the provider, its attempt is settled
  -- at the end, succeeded, failed or unknown, whatever the provider answers and whether the call
  -- returns or raises.
  pub dispatch-settles :
      (s : AttemptStore)
      → IsExactlyOnce s
      → (dispatch h q s).sent ≢ []
      → IsSettledAt q.fresh_id (dispatch h q s).store
  dispatch-settles s once sent =
      let same = sent_after_reserve h shared q s sent in
      let booked =
        AttemptHistory-IsExactlyOnce (and_call start (reserves (reservation h q) q.fresh_id))
          once in
      let (a, made, done) =
        after_reserve-settles h shared q s (after_reservation s) booked (rw (← same) sent) in
      let row = (reserved_row (reservation h q) q.fresh_id s a made).0 in
      let id : a.attempt_id ≡ q.fresh_id = ap (λ r. r.attempt_id) row in
      rw same (settled_at (after_reserve h q (after_reservation s)).store id done)

  sent-has_reading :
      (s : AttemptStore)
      → IsExactlyOnce s
      → (dispatch h q s).sent ≢ []
      → has_reading (reservation h q) (dispatch h q s).store.attempts ≡ true
  sent-has_reading s once sent =
      let same = sent_after_reserve h shared q s sent in
      let booked =
        AttemptHistory-IsExactlyOnce (and_call start (reserves (reservation h q) q.fresh_id))
          once in
      let (a, made, done) =
        after_reserve-settles h shared q s (after_reservation s) booked (rw (← same) sent) in
      let (row, state) = reserved_row (reservation h q) q.fresh_id s a made in
      rw same (
        History-has_reading (reservation h q)
          (after_reserve-History h shared q (after_reservation s))
          (rw (state, row) (new_reading-found (reservation h q) q.fresh_id s)))

-- Two requests for the same reading of the same unit.
abbrev pub IsSameReading : DispatchRequest → DispatchRequest → Type 0
IsSameReading q r =
    (q.run_id ≡ r.run_id)
    × (q.reading ≡ r.reading)
    × (q.unit_id ≡ r.unit_id)
    × (q.selection.digest ≡ r.selection.digest)

same_readings :
    (h h' : Host) (q q' : DispatchRequest)
    → IsSameReading q q'
    → (rows : List B3Attempt)
    → has_reading (reservation h q) rows ≡ has_reading (reservation h' q') rows
unfolding has_reading any same_reading
same_readings h h' q q' same [] = refl
same_readings h h' q q' same (a ∷ rows) =
    rw (same.0, same.1, same.2, same.3, same_readings h h' q q' same rows) refl

refused_silent :
    (h : Host) (q : DispatchRequest) (r : AttemptStore × Result AttemptStoreViolation B3Attempt)
    → is_ok r.1 ≡ false
    → (after_reserve h q r).sent ≡ []
unfolding after_reserve
refused_silent h q (s, err e) refused = refl
refused_silent h q (s, ok a) refused = cc

taken_silent :
    (h : Host) (q : DispatchRequest) (t : AttemptStore)
    → has_reading (reservation h q) t.attempts ≡ true
    → (dispatch h q t).sent ≡ []
unfolding dispatch
taken_silent h q t taken =
    let refused : is_ok (reserve (reservation h q) q.fresh_id t).1 ≡ false =
      (reserve-once (reservation h q) q.fresh_id taken start).1 in
    ground (arith, refused_silent h q (reserve (reservation h q) q.fresh_id t) refused)

-- From a store with at most one attempt per reading and per id, and among processes that only call
-- the store's methods: once a reading of a unit was sent to the provider, no later dispatch of that
-- reading sends anything, by any host, with any profile, after any calls and restarts.
pub dispatch-once :
    (h h' : Host) (q q' : DispatchRequest) (s : AttemptStore) {t : AttemptStore}
    → IsShared h
    → IsSameReading q q'
    → IsExactlyOnce s
    → (dispatch h q s).sent ≢ []
    → AttemptHistory (dispatch h q s).store t
    → (dispatch h' q' t).sent ≡ []
dispatch-once h h' q q' s {t} shared same once sent hist = taken_silent h' q' t (
    sym (same_readings h h' q q' same t.attempts)
    ∙ History-has_reading (reservation h q) hist (sent-has_reading h shared q s once sent))

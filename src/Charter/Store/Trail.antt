-- ===== src/Charter/Store/Trail.antt =====
-- What the trail of events says of dispatches, across every write.
use sentinel_security_platfo.Base.{
  ℕ, ◌+◌, ◌≤◌, String, ◌≡◌, refl, Bool, true, false, ◌&&◌, Option, none, some, List, [], ◌∷◌, ◌++◌,
  arith, eq_iff, if◌then◌else◌, inl, inr, Bool-cases, count_if, ◌==◌, is_some,
}
use mathlib.Core.Path.{subst}
use sentinel_security_platfo.Base.Count.{count_if-append}
use sentinel_security_platfo.Charter.Store.{
  RequestState, prepared, dispatched, unknown, terminal, observed, RequestRow, EventRow,
  RequestStore, find_request, request_state, recovered_state, events_for, open_store, write_state,
  update_state, insert_event, is_prepared, is_dispatched,
}
use sentinel_security_platfo.Charter.Store.Authorize.{add_request}
use sentinel_security_platfo.Charter.Store.Moves.{
  after_open, no_state, request_state-add_request, request_state-update_state,
  request_state-write_state,
}
use sentinel_security_platfo.Charter.Store.Steps.{
  Legal, dispatch, give_up, fail, lose, settle, is_ending,
}

abbrev is_dispatch_of : String → EventRow → Bool
is_dispatch_of i e = e.id == i && is_dispatched e.state

-- How often the trail says that the request was dispatched.
unfoldable pub dispatches_of : String → RequestStore → ℕ
dispatches_of i s = count_if (is_dispatch_of i) s.events

-- How often that may be, in a state of the request.
abbrev pub IsLogged : Option RequestState → ℕ → Type 0
IsLogged none n = n ≡ 0
IsLogged (some prepared) n = n ≡ 0
IsLogged (some dispatched) n = n ≡ 1
IsLogged (some unknown) n = n ≤ 1
IsLogged (some terminal) n = n ≤ 1
IsLogged (some observed) n = n ≤ 1

events_for-dispatches :
    (i : String) (test : RequestState → Bool) (state : RequestState) (now : ℕ)
    (rows : List RequestRow)
    → is_dispatched state ≡ false
    → count_if (is_dispatch_of i) (events_for test state now rows) ≡ 0
unfolding count_if events_for
events_for-dispatches i test state now [] h = refl
events_for-dispatches i test state now (r ∷ rows) h =
    ground (arith, events_for-dispatches i test state now rows h, h)

pub open_store-dispatches :
    (i : String) (now : ℕ) (s : RequestStore)
    → dispatches_of i (open_store now s) ≡ dispatches_of i s
unfolding dispatches_of open_store
open_store-dispatches i now s =
    let lost = events_for is_dispatched unknown now s.requests in
    let dropped = events_for is_prepared terminal now s.requests in
    omega (
      arith,
      count_if-append (is_dispatch_of i) lost (dropped ++ s.events),
      count_if-append (is_dispatch_of i) dropped s.events,
      events_for-dispatches i is_dispatched unknown now s.requests refl,
      events_for-dispatches i is_prepared terminal now s.requests refl,
    )

pub opened-IsLogged : (o : Option RequestState) (n : ℕ) → IsLogged o n → IsLogged (after_open o) n
unfolding recovered_state
opened-IsLogged none n h = h
opened-IsLogged (some prepared) n h = omega (arith, h)
opened-IsLogged (some dispatched) n h = omega (arith, h)
opened-IsLogged (some unknown) n h = h
opened-IsLogged (some terminal) n h = h
opened-IsLogged (some observed) n h = h

at_most_once : (from : RequestState) (n : ℕ) → IsLogged (some from) n → n ≤ 1
at_most_once prepared n h = omega (arith, h)
at_most_once dispatched n h = omega (arith, h)
at_most_once unknown n h = h
at_most_once terminal n h = h
at_most_once observed n h = h

-- A late UPDATE only forgets.
late-IsLogged :
    (o : Option RequestState) (to : RequestState) (n : ℕ)
    → is_ending to ≡ true
    → IsLogged o n
    → IsLogged (if is_some o then some to else none) n
late-IsLogged none to n ends h = h
late-IsLogged (some from) prepared n ends h = cc
late-IsLogged (some from) dispatched n ends h = cc
late-IsLogged (some from) observed n ends h = cc
late-IsLogged (some from) unknown n ends h = at_most_once from n h
late-IsLogged (some from) terminal n ends h = at_most_once from n h

legal-IsLogged :
    {from to : RequestState} {b : Bool} (n : ℕ)
    → Legal from to b
    → IsLogged (some from) n
    → IsLogged (some to) ((if is_dispatched to then 1 else 0) + n)
legal-IsLogged n dispatch h = omega (arith, h)
legal-IsLogged n give_up h = omega (arith, h)
legal-IsLogged n fail h = omega (arith, h)
legal-IsLogged n lose h = omega (arith, h)
legal-IsLogged n settle h = omega (arith, h)

write_state-dispatches :
    (i j : String) (to : RequestState) (receipt : Option String) (now : ℕ) (s : RequestStore)
    → dispatches_of j (write_state i to receipt now s)
      ≡ (if i == j && is_dispatched to then 1 else 0) + dispatches_of j s
unfolding dispatches_of write_state count_if
write_state-dispatches i j to receipt now s = ground arith

plus_nothing : (n : ℕ) → n ≡ 0 + n
plus_nothing n = omega arith

pub write_state-IsLogged :
    (i j : String) {from to : RequestState} {b : Bool} (receipt : Option String) (now : ℕ)
    (s : RequestStore)
    → request_state i s ≡ some from
    → Legal from to b
    → IsLogged (request_state j s) (dispatches_of j s)
    → IsLogged
        (request_state j (write_state i to receipt now s))
        (dispatches_of j (write_state i to receipt now s))
write_state-IsLogged i j {from} {to} receipt now s found legal h = elim (Bool-cases (i == j)) [
  | inl e ↦
      let here : i ≡ j = (eq_iff i j).0 e in
      let found' : request_state j s ≡ some from = rw (← here) found in
      rw
        (
          write_state-dispatches i j to receipt now s,
          request_state-write_state i j to receipt now s,
          e,
          found',
        )
        (legal-IsLogged (dispatches_of j s) legal (rw found' at h))
  | inr e ↦
      rw
        (
          write_state-dispatches i j to receipt now s,
          request_state-write_state i j to receipt now s,
          e,
        )
        (subst (IsLogged (request_state j s)) (plus_nothing (dispatches_of j s)) h)
]

insert_event-dispatches :
    (i j : String) (to : RequestState) (now : ℕ) (s : RequestStore)
    → is_ending to ≡ true
    → dispatches_of j (insert_event i to now s) ≡ dispatches_of j s
unfolding dispatches_of insert_event count_if
insert_event-dispatches i j prepared now s ends = cc
insert_event-dispatches i j dispatched now s ends = cc
insert_event-dispatches i j observed now s ends = cc
insert_event-dispatches i j unknown now s ends = ground arith
insert_event-dispatches i j terminal now s ends = ground arith

update_state-IsLogged :
    (i j : String) (to : RequestState) (s : RequestStore)
    → is_ending to ≡ true
    → IsLogged (request_state j s) (dispatches_of j s)
    → IsLogged (request_state j (update_state i to none s)) (dispatches_of j s)
update_state-IsLogged i j to s ends h = elim (Bool-cases (i == j)) [
  | inl e ↦
      rw (request_state-update_state i j to none s, e)
        (late-IsLogged (request_state j s) to (dispatches_of j s) ends h)
  | inr e ↦ rw (request_state-update_state i j to none s, e) h
]

add_request-dispatches :
    (j : String) (r : RequestRow) (s : RequestStore)
    → r.state ≡ prepared
    → dispatches_of j (add_request r s) ≡ dispatches_of j s
unfolding dispatches_of add_request count_if
add_request-dispatches j r s fresh = ground (arith, fresh)

pub add_request-IsLogged :
    (j : String) (r : RequestRow) (s : RequestStore)
    → find_request r.id s ≡ none
    → r.state ≡ prepared
    → IsLogged (request_state j s) (dispatches_of j s)
    → IsLogged (request_state j (add_request r s)) (dispatches_of j (add_request r s))
add_request-IsLogged j r s new fresh h = elim (Bool-cases (r.id == j)) [
  | inl e ↦
      let here : r.id ≡ j = (eq_iff r.id j).0 e in
      let unborn : request_state j s ≡ none = rw (← here) (no_state r.id s new) in
      rw (add_request-dispatches j r s fresh, request_state-add_request j r s, e, fresh)
        (rw unborn at h)
  | inr e ↦ rw (add_request-dispatches j r s fresh, request_state-add_request j r s, e) h
]

pub overwritten-IsLogged :
    (i j : String) (to : RequestState) (s : RequestStore)
    → is_ending to ≡ true
    → IsLogged (request_state j s) (dispatches_of j s)
    → IsLogged
        (request_state j (update_state i to none s))
        (dispatches_of j (update_state i to none s))
unfolding dispatches_of update_state
overwritten-IsLogged i j to s ends h = update_state-IsLogged i j to s ends h

same_states :
    (i j : String) (to : RequestState) (now n : ℕ) (s : RequestStore)
    → IsLogged (request_state j s) n
    → IsLogged (request_state j (insert_event i to now s)) n
unfolding insert_event request_state
same_states i j to now n s h = h

pub inserted-IsLogged :
    (i j : String) (to : RequestState) (now : ℕ) (s : RequestStore)
    → is_ending to ≡ true
    → IsLogged (request_state j s) (dispatches_of j s)
    → IsLogged
        (request_state j (insert_event i to now s))
        (dispatches_of j (insert_event i to now s))
inserted-IsLogged i j to now s ends h =
    rw (insert_event-dispatches i j to now s ends) (same_states i j to now (dispatches_of j s) s h)

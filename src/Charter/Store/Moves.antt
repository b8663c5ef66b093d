-- ===== src/Charter/Store/Moves.antt =====
-- How each write changes the state of each request: the state machine of the requests.
use sentinel_security_platfo.Base.{
  ℕ, String, ◌≡◌, refl, inl, inr, Bool, true, false, List, [], ◌∷◌, Option, none, some, is_some,
  arith, ◌==◌, eq_iff, if◌then◌else◌, Bool-cases,
}
use sentinel_security_platfo.Base.Table.{find, find-update}
use sentinel_security_platfo.Charter.Store.{
  RequestState, prepared, dispatched, unknown, terminal, observed, RequestRow, RequestStore, row_id,
  find_request, request_state, is_revoked, recovered_state, recovered_row, recovered_rows,
  update_state, insert_event, open_store, write_state, set_state,
}
use sentinel_security_platfo.Charter.Store.Authorize.{add_decision, add_revocation, add_request}
use sentinel_security_platfo.Charter.Store.Steps.{
  Legal, give_up, lose, Write, decide, revoke, reserve, move, recover, overwrite, log, is_ending,
}

-- Recovery and the table lookups.
abbrev recovered_option : Option RequestRow → Option RequestRow
recovered_option none = none
recovered_option (some r) = some (recovered_row r)

pub find-recovered_rows :
    (i : String) (rows : List RequestRow)
    → find row_id i (recovered_rows rows) ≡ recovered_option (find row_id i rows)
unfolding find recovered_rows
find-recovered_rows i [] = refl
find-recovered_rows i (r ∷ rows) = ground (arith, find-recovered_rows i rows)

pub no_state : (j : String) (s : RequestStore) → find_request j s ≡ none → request_state j s ≡ none
unfolding request_state
no_state j s h = rw h

-- How each write changes the state of a request.
pub request_state-write_state :
    (i j : String) (to : RequestState) (receipt : Option String) (now : ℕ) (s : RequestStore)
    → request_state j (write_state i to receipt now s) ≡ (
        if i == j
        then (if is_some (request_state j s) then some to else none)
        else request_state j s)
unfolding request_state write_state
request_state-write_state i j to receipt now s =
    ground (arith, find-update row_id (set_state to receipt) (λ r. refl) i j s.requests)

abbrev pub after_open : Option RequestState → Option RequestState
after_open none = none
after_open (some x) = some (recovered_state x)

pub request_state-open_store :
    (j : String) (now : ℕ) (s : RequestStore)
    → request_state j (open_store now s) ≡ after_open (request_state j s)
unfolding request_state open_store
request_state-open_store j now s = ground (arith, find-recovered_rows j s.requests)

pub request_state-add_request :
    (j : String) (r : RequestRow) (s : RequestStore)
    → request_state j (add_request r s) ≡ (if r.id == j then some r.state else request_state j s)
unfolding request_state add_request find
request_state-add_request j r s = ground arith

-- What one write may do to the state of a request: nothing, reserve it, a legal move, or a late
-- UPDATE, which asks for no state.
pub data StateStep : Option RequestState → Option RequestState → Bool → Type 0 where
  same : {o : Option RequestState} {b : Bool} → StateStep o o b
  born : StateStep none (some prepared) false
  moved : {from to : RequestState} {b : Bool} → Legal from to b → StateStep (some from) (some to) b
  late :
      {from to : RequestState} {b : Bool} → is_ending to ≡ true → StateStep (some from) (some to) b

opened-StateStep : (o : Option RequestState) {b : Bool} → StateStep o (after_open o) b
unfolding recovered_state
opened-StateStep none = same
opened-StateStep (some prepared) = moved give_up
opened-StateStep (some dispatched) = moved lose
opened-StateStep (some unknown) = same
opened-StateStep (some terminal) = same
opened-StateStep (some observed) = same

abbrev pub StepOf : String → RequestStore → RequestStore → Type 0
StepOf j s t = StateStep (request_state j s) (request_state j t) (is_revoked j s)

reserve-StepOf :
    (j : String) (r : RequestRow) (s : RequestStore)
    → find_request r.id s ≡ none
    → is_revoked r.id s ≡ false
    → r.state ≡ prepared
    → StepOf j s (add_request r s)
reserve-StepOf j r s new live fresh = elim (Bool-cases (r.id == j)) [
  | inl e ↦
      let here : r.id ≡ j = (eq_iff r.id j).0 e in
      rw (request_state-add_request j r s, e, fresh, ← here, no_state r.id s new, live) born
  | inr e ↦ rw (request_state-add_request j r s, e) same
]

move-StepOf :
    (i j : String) (from to : RequestState) (receipt : Option String) (now : ℕ) (s : RequestStore)
    → request_state i s ≡ some from
    → Legal from to (is_revoked i s)
    → StepOf j s (write_state i to receipt now s)
move-StepOf i j from to receipt now s found legal = elim (Bool-cases (i == j)) [
  | inl e ↦
      let here : i ≡ j = (eq_iff i j).0 e in
      rw (request_state-write_state i j to receipt now s, e, ← here, found) (moved legal)
  | inr e ↦ rw (request_state-write_state i j to receipt now s, e) same
]

pub request_state-update_state :
    (i j : String) (to : RequestState) (receipt : Option String) (s : RequestStore)
    → request_state j (update_state i to receipt s) ≡ (
        if i == j
        then (if is_some (request_state j s) then some to else none)
        else request_state j s)
unfolding request_state update_state
request_state-update_state i j to receipt s =
    ground (arith, find-update row_id (set_state to receipt) (λ r. refl) i j s.requests)

late-StateStep :
    (o : Option RequestState) (to : RequestState) {b : Bool}
    → is_ending to ≡ true
    → StateStep o (if is_some o then some to else none) b
late-StateStep none to ends = same
late-StateStep (some from) to ends = late ends

update-StepOf :
    (i j : String) (to : RequestState) (s : RequestStore)
    → is_ending to ≡ true
    → StepOf j s (update_state i to none s)
update-StepOf i j to s ends = elim (Bool-cases (i == j)) [
  | inl e ↦
      rw (request_state-update_state i j to none s, e) (late-StateStep (request_state j s) to ends)
  | inr e ↦ rw (request_state-update_state i j to none s, e) same
]

-- One write moves every request along the state machine, overwrites its state with an ending one,
-- or leaves it where it is.
pub Write-StepOf : (j : String) {now : ℕ} {s t : RequestStore} → Write now s t → StepOf j s t
unfolding add_decision add_revocation request_state insert_event
Write-StepOf j (decide d s new) = same
Write-StepOf j (revoke v s) = elim (Bool-cases (is_revoked v.request_id s)) [
  | inl e ↦ rw e same
  | inr e ↦ rw e same
]
Write-StepOf j (reserve r s new live room post at fresh) = reserve-StepOf j r s new live fresh
Write-StepOf j {now} (move i from to receipt s found legal) =
    move-StepOf i j from to receipt now s found legal
Write-StepOf j {now} (recover s) =
    rw (request_state-open_store j now s) (opened-StateStep (request_state j s))
Write-StepOf j (overwrite i to s ends) = update-StepOf i j to s ends
Write-StepOf j (log i to s ends) = same

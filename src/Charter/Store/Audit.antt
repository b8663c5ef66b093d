-- ===== src/Charter/Store/Audit.antt =====
-- The keys of the tables, and what the trail of events says of dispatches, across every write.
use sentinel_security_platfo.Base.{
  ℕ, String, ◌≡◌, refl, Option, none, List, [], ◌∷◌, arith, inl, inr, Bool-cases, count_if,
}
use sentinel_security_platfo.Base.Table.{find, IsKeyed, update-IsKeyed}
use sentinel_security_platfo.Charter.Store.{
  RequestState, RequestRow, RequestStore, empty_store, row_id, row_nonce, find_request,
  request_state, is_revoked, recovered_rows, open_store, write_state, update_state, insert_event,
  set_state,
}
use sentinel_security_platfo.Charter.Store.Authorize.{
  has_nonce, add_decision, add_request, add_revocation,
}
use sentinel_security_platfo.Charter.Store.History.{History, History_induction}
use sentinel_security_platfo.Charter.Store.Moves.{find-recovered_rows, request_state-open_store}
use sentinel_security_platfo.Charter.Store.Steps.{
  not_found, Write, decide, revoke, reserve, move, recover, overwrite, log,
}
use sentinel_security_platfo.Charter.Store.Trail.{
  dispatches_of, IsLogged, open_store-dispatches, opened-IsLogged, write_state-IsLogged,
  add_request-IsLogged, overwritten-IsLogged, inserted-IsLogged,
}

pub record IsConsistent (s : RequestStore) : Type 0 where
  pub keyed : IsKeyed row_id s.requests
  pub nonces : IsKeyed row_nonce s.decisions
  pub logged : (i : String) → IsLogged (request_state i s) (dispatches_of i s)

recovered_rows-IsKeyed :
    (rows : List RequestRow) → IsKeyed row_id rows → IsKeyed row_id (recovered_rows rows)
unfolding recovered_rows
recovered_rows-IsKeyed [] h = tt
recovered_rows-IsKeyed (r ∷ rows) h =
    (ground (arith, find-recovered_rows r.id rows, h.0), recovered_rows-IsKeyed rows h.1)

-- The tables that a write leaves alone, and the keys of the one that it changes.
add_request-IsKeyed :
    (r : RequestRow) (s : RequestStore)
    → find_request r.id s ≡ none
    → IsKeyed row_id s.requests
    → IsKeyed row_id (add_request r s).requests
unfolding add_request find_request
add_request-IsKeyed r s new h = (new, h)

add_request-nonces :
    (r : RequestRow) (s : RequestStore)
    → IsKeyed row_nonce s.decisions
    → IsKeyed row_nonce (add_request r s).decisions
unfolding add_request
add_request-nonces r s h = h

write_state-IsKeyed :
    (i : String) (to : RequestState) (receipt : Option String) (now : ℕ) (s : RequestStore)
    → IsKeyed row_id s.requests
    → IsKeyed row_id (write_state i to receipt now s).requests
unfolding write_state
write_state-IsKeyed i to receipt now s h =
    update-IsKeyed row_id (set_state to receipt) (λ r. refl) i s.requests h

write_state-nonces :
    (i : String) (to : RequestState) (receipt : Option String) (now : ℕ) (s : RequestStore)
    → IsKeyed row_nonce s.decisions
    → IsKeyed row_nonce (write_state i to receipt now s).decisions
unfolding write_state
write_state-nonces i to receipt now s h = h

update_state-IsKeyed :
    (i : String) (to : RequestState) (s : RequestStore)
    → IsKeyed row_id s.requests
    → IsKeyed row_id (update_state i to none s).requests
unfolding update_state
update_state-IsKeyed i to s h = update-IsKeyed row_id (set_state to none) (λ r. refl) i s.requests h

update_state-nonces :
    (i : String) (to : RequestState) (s : RequestStore)
    → IsKeyed row_nonce s.decisions
    → IsKeyed row_nonce (update_state i to none s).decisions
unfolding update_state
update_state-nonces i to s h = h

insert_event-IsKeyed :
    (i : String) (to : RequestState) (now : ℕ) (s : RequestStore)
    → IsKeyed row_id s.requests
    → IsKeyed row_id (insert_event i to now s).requests
unfolding insert_event
insert_event-IsKeyed i to now s h = h

insert_event-nonces :
    (i : String) (to : RequestState) (now : ℕ) (s : RequestStore)
    → IsKeyed row_nonce s.decisions
    → IsKeyed row_nonce (insert_event i to now s).decisions
unfolding insert_event
insert_event-nonces i to now s h = h

open_store-IsKeyed :
    (now : ℕ) (s : RequestStore)
    → IsKeyed row_id s.requests
    → IsKeyed row_id (open_store now s).requests
unfolding open_store
open_store-IsKeyed now s h = recovered_rows-IsKeyed s.requests h

open_store-nonces :
    (now : ℕ) (s : RequestStore)
    → IsKeyed row_nonce s.decisions
    → IsKeyed row_nonce (open_store now s).decisions
unfolding open_store
open_store-nonces now s h = h

-- Every write keeps the primary keys and the agreement of the trail's dispatches with the states.
Write-IsConsistent :
    {now : ℕ} {s t : RequestStore} → Write now s t → IsConsistent s → IsConsistent t
unfolding has_nonce add_decision add_revocation request_state dispatches_of
Write-IsConsistent (decide d s new) h = record {
  keyed = h.keyed;
  nonces = (not_found (find row_nonce d.nonce s.decisions) new, h.nonces);
  logged = h.logged;
}
Write-IsConsistent (revoke v s) h = elim (Bool-cases (is_revoked v.request_id s)) [
  | inl e ↦ rw e h
  | inr e ↦ rw e (record { keyed = h.keyed; nonces = h.nonces; logged = h.logged })
]
Write-IsConsistent (reserve r s new live room post at fresh) h = record {
  keyed = add_request-IsKeyed r s new h.keyed;
  nonces = add_request-nonces r s h.nonces;
  logged = λ j. add_request-IsLogged j r s new fresh (h.logged j);
}
Write-IsConsistent {now} (move i from to receipt s found legal) h = record {
  keyed = write_state-IsKeyed i to receipt now s h.keyed;
  nonces = write_state-nonces i to receipt now s h.nonces;
  logged = λ j. write_state-IsLogged i j receipt now s found legal (h.logged j);
}
Write-IsConsistent {now} (recover s) h = record {
  keyed = open_store-IsKeyed now s h.keyed;
  nonces = open_store-nonces now s h.nonces;
  logged = λ j.
      rw (open_store-dispatches j now s, request_state-open_store j now s)
        (opened-IsLogged (request_state j s) (dispatches_of j s) (h.logged j));
}
Write-IsConsistent (overwrite i to s ends) h = record {
  keyed = update_state-IsKeyed i to s h.keyed;
  nonces = update_state-nonces i to s h.nonces;
  logged = λ j. overwritten-IsLogged i j to s ends (h.logged j);
}
Write-IsConsistent {now} (log i to s ends) h = record {
  keyed = insert_event-IsKeyed i to now s h.keyed;
  nonces = insert_event-nonces i to now s h.nonces;
  logged = λ j. inserted-IsLogged i j to now s ends (h.logged j);
}

pub empty_store-IsConsistent : IsConsistent empty_store
unfolding dispatches_of request_state find count_if
empty_store-IsConsistent = record { keyed = tt; nonces = tt; logged = λ i. refl }

-- In every history from a consistent store, whichever statements are interleaved or lost in a
-- crash, no request id and no nonce occurs twice, and the trail of events has each request
-- dispatched at most once: not yet while it is prepared, and once if it is in flight.
pub History-IsConsistent :
    {start : ℕ} {s : RequestStore} {now : ℕ} {t : RequestStore}
    → History start s now t
    → IsConsistent s
    → IsConsistent t
History-IsConsistent =
    History_induction (λ c. IsConsistent) (λ c now s le h. h)
      (λ now s t w h. Write-IsConsistent w h)

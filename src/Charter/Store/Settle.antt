-- ===== src/Charter/Store/Settle.antt =====
-- agent/charter_requests.py: how a dispatched or an unknown request becomes terminal, by a
-- response or by audit evidence.
use sentinel_security_platfo.Base.{
  ℕ, String, ◌≡◌, arith, Bool, true, false, Option, none, some, ok, err, commit, rollback, run_txn,
  if◌then◌else◌,
}
use sentinel_security_platfo.Charter.Spec.{illegal_transition, recovery_required}
use sentinel_security_platfo.Charter.Store.{
  RequestState, prepared, dispatched, unknown, terminal, observed, RequestStore, Action,
  request_state, write_state,
}
use sentinel_security_platfo.Charter.Store.Authorize.{StoreTxn}

-- The row's state is the expected one.
abbrev pub stands_in : RequestState → Option RequestState → Bool
stands_in expected none = false
stands_in dispatched (some dispatched) = true
stands_in unknown (some unknown) = true
stands_in observed (some observed) = true
stands_in prepared (some prepared) = true
stands_in terminal (some terminal) = true
stands_in _ (some _) = false

pub stands_in-eq :
    (expected : RequestState) (o : Option RequestState)
    → stands_in expected o ≡ true
    → o ≡ some expected
stands_in-eq expected none h = cc
stands_in-eq dispatched (some o) h = ground arith
stands_in-eq unknown (some o) h = ground arith
stands_in-eq observed (some o) h = ground arith
stands_in-eq prepared (some o) h = ground arith
stands_in-eq terminal (some o) h = ground arith

unfoldable pub terminalize_txn : String → String → RequestState → ℕ → RequestStore → StoreTxn
unfolding request_state write_state
terminalize_txn i receipt expected now s =
    if stands_in expected (request_state i s)
    then commit (write_state i terminal (some receipt) now s) tt
    else rollback illegal_transition

-- `_terminalize_from`; its two hooks for tests do nothing.
unfoldable pub terminalize_from : String → String → RequestState → ℕ → Action
unfolding terminalize_txn
terminalize_from i receipt expected now s = run_txn s (terminalize_txn i receipt expected now s)

unfoldable pub terminalize_response : String → String → ℕ → Action
unfolding terminalize_from
terminalize_response i receipt now = terminalize_from i receipt dispatched now

unfoldable pub terminalize_audit : String → String → ℕ → Action
unfolding terminalize_from
terminalize_audit i receipt now = terminalize_from i receipt unknown now

-- `refuse_observed`
unfoldable pub refuse_observed : String → Action
unfolding request_state
refuse_observed i s =
    if stands_in observed (request_state i s) then (s, err recovery_required) else (s, ok tt)

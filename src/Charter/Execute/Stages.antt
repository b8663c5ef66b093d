-- ===== src/Charter/Execute/Stages.antt =====
-- The stages of `execute`: when each goes through, and what it leaves.
use sentinel_security_platfo.Base.{
  ◌⊎◌, ◌≢◌, ℕ, String, ◌≡◌, refl, ◌≢◌, false, none, some, [], ok, err, eq_iff, arith, Bool-cases,
  Result-cases, inl, inr,
}
use sentinel_security_platfo.Base.Table.{find}
use sentinel_security_platfo.Charter.Spec.{
  CharterRequestError, Checked, RequestSpec, CharterApproval,
}
use sentinel_security_platfo.Charter.Store.{
  prepared, dispatched, unknown, terminal, observed, RequestStore, request_state, is_revoked,
  write_state, mark_unknown, terminalize_pre_target_failure,
}
use sentinel_security_platfo.Charter.Store.Authorize.{
  add_decision, add_request, authorize_prepare, dispatch_if_not_revoked,
}
use sentinel_security_platfo.Charter.Store.Settle.{stands_in, terminalize_response, refuse_observed}
use sentinel_security_platfo.Charter.Store.Granting.{
  IsGranted, reserved, granted-reserves, reserved-IsGranted,
}
use sentinel_security_platfo.Charter.Store.Moves.{request_state-write_state}
use sentinel_security_platfo.Charter.Execute.{Executor, Outcome, Receipt, send, act, then_act}

refuse_observed-new :
    (i : String) (s : RequestStore) → request_state i s ≡ none → refuse_observed i s ≡ (s, ok tt)
unfolding refuse_observed
refuse_observed-new i s h = ground arith

pub dispatch-prepared :
    (i : String) (now : ℕ) (s : RequestStore)
    → request_state i s ≡ some prepared
    → is_revoked i s ≡ false
    → dispatch_if_not_revoked i now s ≡ (write_state i dispatched none now s, ok tt)
unfolding dispatch_if_not_revoked
dispatch-prepared i now s h live = ground arith

pub mark_unknown-dispatched :
    (i : String) (now : ℕ) (s : RequestStore)
    → request_state i s ≡ some dispatched
    → mark_unknown i now s ≡ (write_state i unknown none now s, ok tt)
unfolding mark_unknown
mark_unknown-dispatched i now s h = ground arith

pub give_up-dispatched :
    (i : String) (now : ℕ) (s : RequestStore)
    → request_state i s ≡ some dispatched
    → terminalize_pre_target_failure i now s ≡ (write_state i terminal none now s, ok tt)
unfolding terminalize_pre_target_failure
give_up-dispatched i now s h = ground arith

pub terminalize_response-dispatched :
    (i receipt : String) (now : ℕ) (s : RequestStore)
    → request_state i s ≡ some dispatched
    → terminalize_response i receipt now s ≡ (write_state i terminal (some receipt) now s, ok tt)
unfolding terminalize_response
terminalize_response-dispatched i receipt now s h = ground arith

-- An action that raises leaves nothing for the network.
then_act-refused :
    (m : RequestStore × Checked Unit) (next : RequestStore → Outcome) (e : CharterRequestError)
    → m.1 ≡ err e
    → ((then_act m next).io ≡ []) × ((r : Receipt) → (then_act m next).result ≢ ok r)
then_act-refused (t, ok u) next e h = cc
then_act-refused (t, err f) next e h = (refl, λ r k. cc)

module _ (x : Executor) (spec : RequestSpec) (a : CharterApproval) (s : RequestStore) where
  -- The store once the dispatch is durable.
  abbrev pub in_flight : RequestStore
  in_flight =
      write_state spec.request_id dispatched none x.dispatched_at
        (reserved x.platform spec a x.checked_at x.authorized_at s)

  abbrev pub IsCleared : Type 0
  IsCleared = IsGranted x.platform spec a x.checked_at x.authorized_at s

  state-reserved :
      request_state spec.request_id (reserved x.platform spec a x.checked_at x.authorized_at s)
      ≡ some prepared
  unfolding request_state add_request add_decision find
  state-reserved = ground (arith, eq_iff spec.request_id spec.request_id)

  live-reserved :
      IsCleared
      → is_revoked spec.request_id (reserved x.platform spec a x.checked_at x.authorized_at s)
        ≡ false
  unfolding is_revoked add_request add_decision
  live-reserved g = g.live

  pub state-in_flight : request_state spec.request_id in_flight ≡ some dispatched
  state-in_flight = ground (
    arith,
    request_state-write_state spec.request_id spec.request_id dispatched none x.dispatched_at
        (reserved x.platform spec a x.checked_at x.authorized_at s),
    state-reserved,
    eq_iff spec.request_id spec.request_id,
  )

  no_state : IsCleared → request_state spec.request_id s ≡ none
  unfolding request_state
  no_state g = ground (arith, g.new)

  -- A cleared call goes on to the network with the dispatch on record.
  pub cleared-act : IsCleared → act x spec a s ≡ send x spec in_flight x.mint
  unfolding act
  cleared-act g = rw (
    refuse_observed-new spec.request_id s (no_state g),
    granted-reserves x.platform spec a x.checked_at x.authorized_at s g,
    dispatch-prepared spec.request_id x.dispatched_at
        (reserved x.platform spec a x.checked_at x.authorized_at s) state-reserved
        (live-reserved g),
  )

  -- Nothing went out, and nothing was returned.
  abbrev pub IsRefused : Outcome → Type 0
  IsRefused o = (o.io ≡ []) × ((r : Receipt) → o.result ≢ ok r)

  -- A call is cleared or refused.
  pub act-cases : IsCleared ⊎ IsRefused (act x spec a s)
  unfolding act refuse_observed
  act-cases = elim (Bool-cases (stands_in observed (request_state spec.request_id s))) [
    | inl e ↦ inr (rw e (refl, λ r h. cc))
    | inr e ↦
        elim (Result-cases (authorize_prepare x.platform spec a x.checked_at x.authorized_at s).1) [
          | inl (u, granted) ↦
              inl (reserved-IsGranted x.platform spec a x.checked_at x.authorized_at s granted)
          | inr (failure, refused) ↦ inr (rw e (then_act-refused _ _ failure refused))
        ]
  ]

-- ===== src/Charter/Store/Steps.antt =====
-- The store as a transition system: every method is a sequence of guarded writes, made at a clock
-- that never runs backwards.
use sentinel_security_platfo.Base.{
  ℕ, ◌<◌, String, ◌≡◌, refl, ◌&&◌, inl, inr, Bool, true, false, Option, none, some, ok, err,
  run_txn, rollback, is_some, arith, ◌==◌, eq_iff, if◌then◌else◌, leb, Bool-cases, Option-cases,
  Result-cases,
}
use sentinel_security_platfo.Charter.Spec.{
  CharterRequestError, Checked, RequestSpec, CharterApproval, Platform, validate_spec,
}
use sentinel_security_platfo.Charter.Approval.{verify}
use sentinel_security_platfo.Charter.Store.{
  RequestState, prepared, dispatched, unknown, terminal, RequestRow, DecisionRow, RevocationRow,
  RequestStore, find_request, request_state, is_revoked, allowed, write_state, transition,
  open_store, update_state, insert_event,
}
use sentinel_security_platfo.Charter.Store.Authorize.{
  StoreTxn, is_expired, after_transition, has_nonce, recent_requests, has_post, add_decision,
  add_revocation, add_request, reserve_txn, authorize_txn, authorize_prepare, prepared_row,
  dispatch_if_not_revoked, decision_row,
}
use sentinel_security_platfo.Charter.Store.Settle.{
  stands_in, stands_in-eq, terminalize_from, terminalize_response, terminalize_audit,
}

pub not_found {ℓ} : {A : Type ℓ} (o : Option A) → is_some o ≡ false → o ≡ none
not_found none h = refl
not_found (some a) h = cc

-- A move between states, of a request that is or is not revoked.
pub data Legal : RequestState → RequestState → Bool → Type 0 where
  dispatch : Legal prepared dispatched false
  give_up : {b : Bool} → Legal prepared terminal b
  fail : {b : Bool} → Legal dispatched terminal b
  lose : {b : Bool} → Legal dispatched unknown b
  settle : {b : Bool} → Legal unknown terminal b

-- The states that `terminalize_pre_target_failure` and `unknown` write outside a transaction.
abbrev pub is_ending : RequestState → Bool
is_ending unknown = true
is_ending terminal = true
is_ending _ = false

-- The last two are statements of `_transition` that commit by themselves.
pub data Write (now : ℕ) : RequestStore → RequestStore → Type 0 where
  decide :
      (d : DecisionRow) (s : RequestStore)
      → has_nonce d.nonce s ≡ false
      → Write now s (add_decision d s)
  revoke : (v : RevocationRow) (s : RequestStore) → Write now s (add_revocation v s)
  reserve :
      (r : RequestRow) (s : RequestStore)
      → find_request r.id s ≡ none
      → is_revoked r.id s ≡ false
      → recent_requests now s.requests < 5
      → (r.method ≡ "POST" → has_post r.run s.requests ≡ false)
      → r.ts ≡ now
      → r.state ≡ prepared
      → Write now s (add_request r s)
  move :
      (i : String) (from to : RequestState) (receipt : Option String) (s : RequestStore)
      → request_state i s ≡ some from
      → Legal from to (is_revoked i s)
      → Write now s (write_state i to receipt now s)
  recover : (s : RequestStore) → Write now s (open_store now s)
  overwrite :
      (i : String) (to : RequestState) (s : RequestStore)
      → is_ending to ≡ true
      → Write now s (update_state i to none s)
  log :
      (i : String) (to : RequestState) (s : RequestStore)
      → is_ending to ≡ true
      → Write now s (insert_event i to now s)

pub data Writes (now : ℕ) : RequestStore → RequestStore → Type 0 where
  done : (s : RequestStore) → Writes now s s
  then_write : {s t u : RequestStore} → Writes now s t → Write now t u → Writes now s u

pub one_write : {now : ℕ} {s t : RequestStore} → Write now s t → Writes now s t
one_write {s = s} w = then_write (done s) w

-- A test that rolls the transaction back when it passes.
guard-Writes :
    {now : ℕ} {s : RequestStore} (b : Bool) (e : CharterRequestError) (m : StoreTxn)
    → (b ≡ false → Writes now s (run_txn s m).0)
    → Writes now s (run_txn s (if b then rollback e else m)).0
guard-Writes {s = s} true e m h = done s
guard-Writes false e m h = h refl

reserve-Writes :
    (p : Platform) (spec : RequestSpec) (now : ℕ) (s₀ s : RequestStore)
    → Writes now s₀ s
    → Writes now s₀ (run_txn s₀ (reserve_txn p spec now s)).0
unfolding reserve_txn
reserve-Writes p spec now s₀ s before = guard-Writes (is_revoked spec.request_id s) _ _ λ live.
    guard-Writes (is_expired spec.expires_at now) _ _ λ fresh.
      guard-Writes (is_some (find_request spec.request_id s)) _ _ λ new.
        guard-Writes (leb 5 (recent_requests now s.requests)) _ _ λ room.
          guard-Writes (spec.method == "POST" && has_post spec.run_id s.requests) _ _ λ post.
            then_write before (
              reserve (prepared_row p spec now) s (not_found (find_request spec.request_id s) new)
                live (ground arith) (λ is_post. ground (arith, eq_iff spec.method "POST")) refl
                refl)

authorize_txn-Writes :
    (p : Platform) (spec : RequestSpec) (a : CharterApproval) (now : ℕ) (s : RequestStore)
    → Writes now s (run_txn s (authorize_txn p spec a now s)).0
unfolding authorize_txn
authorize_txn-Writes p spec a now s = guard-Writes (has_nonce a.nonce s) _ _ λ fresh.
    let d = decision_row a spec now in
    let decided = one_write (decide d s fresh) in
    elim (Bool-cases (a.decision == "revoke")) [
      | inl e ↦ rw e (then_write decided (revoke _ (add_decision d s)))
      | inr e ↦ rw e elim (Bool-cases (a.decision == "approve")) [
        | inl e' ↦ rw e' (reserve-Writes p spec now s (add_decision d s) decided)
        | inr e' ↦ rw e' decided
      ]
    ]

pub authorize_prepare-Writes :
    (p : Platform) (spec : RequestSpec) (a : CharterApproval) (checked now : ℕ) (s : RequestStore)
    → Writes now s (authorize_prepare p spec a checked now s).0
unfolding authorize_prepare
authorize_prepare-Writes p spec a checked now s = elim (Result-cases (validate_spec p spec)) [
  | inl (u, e) ↦
      rw (e, authorize_prepare)
        elim (Bool-cases (verify p a spec checked)) [
          | inl e' ↦ rw e' (authorize_txn-Writes p spec a now s)
          | inr e' ↦ rw e' (done s)
        ]
  | inr (x, e) ↦ rw (e, authorize_prepare) (done s)
]

-- A transition that is refused writes nothing; one that is made is a legal move.
transition-Writes :
    (i : String) (to : RequestState) (receipt : Option String) (now : ℕ) (s : RequestStore)
    → ((from : RequestState) → allowed from to ≡ true → Legal from to (is_revoked i s))
    → Writes now s (transition i to receipt now s).0
unfolding transition
transition-Writes i to receipt now s legal = elim (Option-cases (request_state i s)) [
  | inl e ↦ rw e (done s)
  | inr (from, e) ↦ rw e elim (Bool-cases (allowed from to)) [
    | inl e' ↦ rw e' (one_write (move i from to receipt s e (legal from e')))
    | inr e' ↦ rw e' (done s)
  ]
]

Legal-terminal :
    {b : Bool} (from : RequestState) → allowed from terminal ≡ true → Legal from terminal b
unfolding allowed
Legal-terminal prepared h = give_up
Legal-terminal dispatched h = fail
Legal-terminal unknown h = settle
Legal-terminal _ h = cc

Legal-dispatched :
    (from : RequestState) → allowed from dispatched ≡ true → Legal from dispatched false
unfolding allowed
Legal-dispatched prepared h = dispatch
Legal-dispatched _ h = cc

after_transition-Writes :
    {now : ℕ} {s : RequestStore} (m : RequestStore × Checked Unit) (k : RequestStore → StoreTxn)
    → ((t : RequestStore) → (run_txn s (k t)).0 ≡ t)
    → Writes now s m.0
    → Writes now s (run_txn s (after_transition m k)).0
unfolding after_transition
after_transition-Writes (t, ok u) k same w = rw (same t) w
after_transition-Writes {s = s} (t, err e) k same w = done s

pub dispatch_if_not_revoked-Writes :
    (i : String) (now : ℕ) (s : RequestStore) → Writes now s (dispatch_if_not_revoked i now s).0
unfolding dispatch_if_not_revoked
dispatch_if_not_revoked-Writes i now s = elim (Bool-cases (is_revoked i s)) [
  | inl e ↦ rw e (
      after_transition-Writes (transition i terminal none now s) _ (λ t. refl)
        (transition-Writes i terminal none now s Legal-terminal))
  | inr e ↦ rw e (
      after_transition-Writes (transition i dispatched none now s) _ (λ t. refl)
        (transition-Writes i dispatched none now s (λ from h. rw e (Legal-dispatched from h))))
]

-- A terminalization is a legal move from the state that it expects.
terminalize_from-Writes :
    (i receipt : String) (expected : RequestState) (now : ℕ) (s : RequestStore)
    → Legal expected terminal (is_revoked i s)
    → Writes now s (terminalize_from i receipt expected now s).0
unfolding terminalize_from
terminalize_from-Writes i receipt expected now s legal =
    elim (Bool-cases (stands_in expected (request_state i s))) [
      | inl e ↦ rw e (
          one_write (
            move i expected terminal (some receipt) s (stands_in-eq expected (request_state i s) e)
              legal))
      | inr e ↦ rw e (done s)
    ]

pub terminalize_response-Writes :
    (i receipt : String) (now : ℕ) (s : RequestStore)
    → Writes now s (terminalize_response i receipt now s).0
unfolding terminalize_response
terminalize_response-Writes i receipt now s =
    terminalize_from-Writes i receipt dispatched now s fail

pub terminalize_audit-Writes :
    (i receipt : String) (now : ℕ) (s : RequestStore)
    → Writes now s (terminalize_audit i receipt now s).0
unfolding terminalize_audit
terminalize_audit-Writes i receipt now s = terminalize_from-Writes i receipt unknown now s settle

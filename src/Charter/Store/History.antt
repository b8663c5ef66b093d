-- ===== src/Charter/Store/History.antt =====
-- Histories of the store: the transactions of its methods and the statements that commit by
-- themselves, in any order and by any number of executors that share the file, under a clock that
-- does not run backwards.
use sentinel_security_platfo.Base.{
  ℕ, ◌≤◌, String, none, ◌≡◌, refl, true, arith, inl, inr, Bool-cases,
}
use sentinel_security_platfo.Charter.Spec.{RequestSpec, CharterApproval, Platform}
use sentinel_security_platfo.Charter.Store.{
  RequestState, unknown, terminal, request_state, may_become, transition, write_state, update_state,
  insert_event, RequestStore, open_store, terminalize_pre_target_failure, mark_unknown,
}
use sentinel_security_platfo.Charter.Store.Authorize.{authorize_prepare, dispatch_if_not_revoked}
use sentinel_security_platfo.Charter.Store.Settle.{terminalize_response, terminalize_audit}
use sentinel_security_platfo.Charter.Store.Steps.{
  Write, recover, overwrite, log, is_ending, Writes, done, then_write, one_write,
  authorize_prepare-Writes, dispatch_if_not_revoked-Writes, terminalize_response-Writes,
  terminalize_audit-Writes,
}

-- One commit, or a call that raises and writes nothing. `terminalize_pre_target_failure` and
-- `unknown` run SELECT, UPDATE and INSERT with no transaction, so their statements are steps of
-- their own: by the time the UPDATE or the INSERT commits, any other steps may have come after the
-- SELECT that allowed it, so neither step has a condition on the store, and a crash may keep
-- either from happening. The method `dispatched`, which only the tests of the repository call, is
-- no step: it would dispatch without a look at the revocations.
pub data Call (now : ℕ) (s : RequestStore) : RequestStore → Type 0 where
  opens : Call now s (open_store now s)
  authorizes :
      (p : Platform) (spec : RequestSpec) (a : CharterApproval) (checked : ℕ)
      → Call now s (authorize_prepare p spec a checked now s).0
  dispatches : (i : String) → Call now s (dispatch_if_not_revoked i now s).0
  overwrites :
      (i : String) (to : RequestState) → is_ending to ≡ true → Call now s (update_state i to none s)
  logs :
      (i : String) (to : RequestState) → is_ending to ≡ true → Call now s (insert_event i to now s)
  receives : (i receipt : String) → Call now s (terminalize_response i receipt now s).0
  audits : (i receipt : String) → Call now s (terminalize_audit i receipt now s).0

pub data History (start : ℕ) (s : RequestStore) : ℕ → RequestStore → Type 0 where
  here : History start s start s
  then_call :
      {now later : ℕ} {t u : RequestStore}
      → History start s now t
      → now ≤ later
      → Call later t u
      → History start s later u

-- A call of the two methods that nothing interrupts is made of those steps.
written-History :
    (i : String) (to : RequestState) (now : ℕ) (s : RequestStore)
    → is_ending to ≡ true
    → History now s now (write_state i to none now s)
unfolding write_state
written-History i to now s ends =
    let le : now ≤ now = omega arith in
    then_call {now = now} (then_call {now = now} here le (overwrites i to ends)) le (logs i to ends)

transition-History :
    (i : String) (to : RequestState) (now : ℕ) (s : RequestStore)
    → is_ending to ≡ true
    → History now s now (transition i to none now s).0
unfolding transition
transition-History i to now s ends = elim (Bool-cases (may_become to (request_state i s))) [
  | inl e ↦ rw e (written-History i to now s ends)
  | inr e ↦ rw e here
]

terminalize_pre_target_failure-History :
    (i : String) (now : ℕ) (s : RequestStore)
    → History now s now (terminalize_pre_target_failure i now s).0
unfolding terminalize_pre_target_failure
terminalize_pre_target_failure-History i now s = transition-History i terminal now s refl

mark_unknown-History :
    (i : String) (now : ℕ) (s : RequestStore) → History now s now (mark_unknown i now s).0
unfolding mark_unknown
mark_unknown-History i now s = transition-History i unknown now s refl

pub Call-Writes : {now : ℕ} {s t : RequestStore} → Call now s t → Writes now s t
Call-Writes {now} {s} opens = one_write (recover s)
Call-Writes {now} {s} (authorizes p spec a checked) =
    authorize_prepare-Writes p spec a checked now s
Call-Writes {now} {s} (dispatches i) = dispatch_if_not_revoked-Writes i now s
Call-Writes {now} {s} (overwrites i to ends) = one_write (overwrite i to s ends)
Call-Writes {now} {s} (logs i to ends) = one_write (log i to s ends)
Call-Writes {now} {s} (receives i receipt) = terminalize_response-Writes i receipt now s
Call-Writes {now} {s} (audits i receipt) = terminalize_audit-Writes i receipt now s

-- What every write keeps, at its own clock and at later ones, every history keeps.
module _ (P : ℕ → RequestStore → Type 0)
    (wait : (c now : ℕ) (s : RequestStore) → c ≤ now → P c s → P now s)
    (keep : (now : ℕ) (s t : RequestStore) → Write now s t → P now s → P now t) where
  Writes_induction : {now : ℕ} {s t : RequestStore} → Writes now s t → P now s → P now t
  Writes_induction (done s) h = h
  Writes_induction {now} {s} {t} (then_write {t = mid} ws w) h =
      keep now mid t w (Writes_induction ws h)

  pub History_induction :
      {start : ℕ} {s : RequestStore} {now : ℕ} {t : RequestStore}
      → History start s now t
      → P start s
      → P now t
  History_induction here h = h
  History_induction (then_call {now = now} {later = later} {t = mid} hist le call) h =
      Writes_induction (Call-Writes call) (wait now later mid le (History_induction hist h))

-- ===== src/Charter/Reconcile.antt =====
-- agent/charter_requests.py: settling an unknown request from the gateway's audit log. A record is
-- what `parse_kong_file_log` makes of a line: the texts, and numbers that are `none` where the
-- value is no int or lies below zero.
pub mod Records
pub mod Evidence
use sentinel_security_platfo.Base.{
  is_digest, ℕ, zero, suc, String, ◌≤◌, ◌<◌, ◌≡◌, refl, ◌≢◌, ◌↔◌, ◌⊎◌, inl, inr, Bool, true, false,
  not, ◌&&◌, ◌||◌, Option, none, some, List, [], ◌∷◌, Result, ok, err, ◌>>=◌, require, codes, all,
  length, nat_eq, ltb, leb, ◌==◌, eq_iff, if◌then◌else◌, arith, Bool-cases, Option-cases,
  Result-cases,
}
use sentinel_security_platfo.Charter.Spec.{
  CharterRequestError, Checked, charter_search_path, charter_basket_path, invalid_window,
  not_reconcilable, audit_ambiguous, audit_unverifiable, projection_unverifiable,
}
use sentinel_security_platfo.Charter.Store.{
  RequestState, prepared, dispatched, unknown, terminal, observed, RequestRow, RequestStore,
  find_request, request_state,
}
use sentinel_security_platfo.Charter.Store.Settle.{stands_in, terminalize_audit}
use sentinel_security_platfo.Charter.Execute.{int, status_matches_policy}

abbrev pub executor_consumer : String
executor_consumer = "sentinel-charter-executor"

pub record KongRecord : Type 0 where
  pub request_id : String
  pub consumer : String
  pub method : String
  pub path : String
  pub query : String
  pub status : Option ℕ
  pub started_at : Option ℕ
  pub source_digest : String

pub record AuditCandidate : Type 0 where
  pub request_id : String
  pub status : ℕ
  pub started_at : ℕ
  pub source_digest : String

-- The row's method and path are those of the two charter requests.
unfoldable pub is_charter_row : RequestRow → Bool
is_charter_row r =
    (r.method == "GET" && r.path == charter_search_path)
    || (r.method == "POST" && r.path == charter_basket_path)

unfoldable pub is_candidate : String → RequestRow → KongRecord → Bool
is_candidate i r k =
    k.request_id == i
    && k.consumer == executor_consumer
    && k.method == r.method
    && k.path == r.path
    && k.query == r.query

unfoldable pub candidates : String → RequestRow → List KongRecord → List KongRecord
unfolding is_candidate
candidates i r [] = []
candidates i r (k ∷ records) =
    let rest = candidates i r records in if is_candidate i r k then k ∷ rest else rest

-- The tests of the one record that is left.
unfoldable pub check_match :
    String → RequestRow → ℕ → ℕ → Option ℕ → Option ℕ → String → Checked AuditCandidate
unfolding status_matches_policy is_digest
check_match i r created recovery (some status) (some started) digest =
    if status_matches_policy r.method (int status)
      && leb created started
      && leb started recovery
      && is_digest digest
    then ok
        (record { request_id = i; status = status; started_at = started; source_digest = digest })
    else err audit_unverifiable
check_match i r created recovery _ _ digest = err audit_unverifiable

unfoldable pub single_match : String → RequestRow → ℕ → ℕ → List KongRecord → Checked AuditCandidate
unfolding check_match
single_match i r created recovery (k ∷ []) =
    check_match i r created recovery k.status k.started_at k.source_digest
single_match i r created recovery _ = err audit_ambiguous

unfoldable pub candidate_for_row :
    String → Option RequestRow → List KongRecord → ℕ → ℕ → Checked AuditCandidate
unfolding is_charter_row candidates single_match
candidate_for_row i none records created recovery = err not_reconcilable
candidate_for_row i (some r) records created recovery =
    if not (stands_in unknown (some r.state))
    then err not_reconcilable
    else if not (is_charter_row r)
    then err not_reconcilable
    else single_match i r created recovery (candidates i r records)

-- `audit_candidate`, at times in milliseconds
unfoldable pub audit_candidate :
    String → List KongRecord → ℕ → ℕ → RequestStore → Checked AuditCandidate
unfolding candidate_for_row find_request
audit_candidate i records created recovery s =
    if ltb recovery created
    then err invalid_window
    else candidate_for_row i (find_request i s) records created recovery

-- A candidate, and the settlement by it.
abbrev pub settled_by :
    RequestStore × Checked Unit → AuditCandidate → RequestStore × Checked AuditCandidate
settled_by (t, ok u) c = (t, ok c)
settled_by (t, err e) c = (t, err e)

unfoldable pub reconcile_audit :
    String → List KongRecord → ℕ → ℕ → ℕ → RequestStore → RequestStore × Checked AuditCandidate
unfolding audit_candidate terminalize_audit
reconcile_audit i records created recovery now s =
    elim (audit_candidate i records created recovery s) [
      | err e ↦ (s, err e)
      | ok c ↦ settled_by (terminalize_audit i c.source_digest now s) c
    ]

unfoldable pub terminalize_audit_projection :
    String → String → ℕ → RequestStore → RequestStore × Checked Unit
unfolding is_digest terminalize_audit
terminalize_audit_projection i digest now s =
    if is_digest digest then terminalize_audit i digest now s else (s, err projection_unverifiable)

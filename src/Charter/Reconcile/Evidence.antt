-- ===== src/Charter/Reconcile/Evidence.antt =====
-- What settles an unknown request: exactly one matching record inside the recovery window.
use sentinel_security_platfo.Base.{
  is_digest, ℕ, String, eq_iff, ◌⊎◌, ◌≤◌, ◌≡◌, refl, ◌≢◌, inl, inr, true, Option, none, some, List,
  [], ◌∷◌, ok, err, ltb, arith, Bool-cases, Option-cases, Result-cases,
}
use mathlib.Core.Path.{subst}
use mathlib.Core.Option.{some-injective}
use sentinel_security_platfo.Charter.Spec.{
  CharterRequestError, charter_search_path, charter_basket_path,
}
use sentinel_security_platfo.Charter.Store.{
  unknown, terminal, RequestRow, RequestStore, find_request, request_state, write_state,
}
use sentinel_security_platfo.Charter.Store.Settle.{stands_in, stands_in-eq, terminalize_audit}
use sentinel_security_platfo.Charter.Execute.{int, status_matches_policy}
use sentinel_security_platfo.Charter.Execute.Settled.{IsExpected, status-IsExpected}
use sentinel_security_platfo.Charter.Reconcile.{
  KongRecord, AuditCandidate, is_charter_row, candidates, check_match, single_match,
  candidate_for_row, audit_candidate, reconcile_audit,
}
use sentinel_security_platfo.Charter.Reconcile.Records.{IsOnly, one_candidate}

-- What a record must show to settle a request.
pub record IsEvidence (i : String) (r : RequestRow) (records : List KongRecord)
    (created recovery : ℕ) (c : AuditCandidate) : Type 0 where
  pub match : KongRecord
  pub only : IsOnly i r match records
  pub status : match.status ≡ some c.status
  pub expected : IsExpected r.method c.status
  pub started : match.started_at ≡ some c.started_at
  pub after_creation : created ≤ c.started_at
  pub before_recovery : c.started_at ≤ recovery
  pub digest : match.source_digest ≡ c.source_digest
  pub well_formed : is_digest c.source_digest ≡ true
  pub named : c.request_id ≡ i

check_match-ok :
    (i : String) (r : RequestRow) (created recovery : ℕ) (status started : Option ℕ) (d : String)
    (c : AuditCandidate)
    → check_match i r created recovery status started d ≡ ok c
    → (status ≡ some c.status)
      × (status_matches_policy r.method (int c.status) ≡ true)
      × (started ≡ some c.started_at)
      × (created ≤ c.started_at)
      × (c.started_at ≤ recovery)
      × (d ≡ c.source_digest)
      × (is_digest c.source_digest ≡ true)
      × (c.request_id ≡ i)
unfolding check_match
check_match-ok i r created recovery (some status) (some started) d c h = ground arith
check_match-ok i r created recovery none started d c h = cc
check_match-ok i r created recovery (some status) none d c h = cc

single_match-ok :
    (i : String) (r : RequestRow) (records found : List KongRecord) (created recovery : ℕ)
    (c : AuditCandidate)
    → candidates i r records ≡ found
    → single_match i r created recovery found ≡ ok c
    → IsEvidence i r records created recovery c
unfolding single_match
single_match-ok i r records [] created recovery c e h = cc
single_match-ok i r records (k ∷ j ∷ rest) created recovery c e h = cc
single_match-ok i r records (k ∷ []) created recovery c e h =
    let (status, expected, started, after, before, digest, well_formed, named) =
      check_match-ok i r created recovery k.status k.started_at k.source_digest c h in
    record {
      match = k;
      only = one_candidate i r k records e;
      status = status;
      expected = status-IsExpected r.method c.status expected;
      started = started;
      after_creation = after;
      before_recovery = before;
      digest = digest;
      well_formed = well_formed;
      named = named;
    }

abbrev pub IsCharterRow : RequestRow → Type 0
IsCharterRow r =
    ((r.method ≡ "GET") × (r.path ≡ charter_search_path))
    ⊎ ((r.method ≡ "POST") × (r.path ≡ charter_basket_path))

row-IsCharterRow : (r : RequestRow) → is_charter_row r ≡ true → IsCharterRow r
unfolding is_charter_row
row-IsCharterRow r h = ground (
  arith,
  eq_iff r.method "GET",
  eq_iff r.method "POST",
  eq_iff r.path charter_search_path,
  eq_iff r.path charter_basket_path,
)

-- The row that a candidate is for.
pub record IsProven (i : String) (records : List KongRecord) (created recovery : ℕ)
    (s : RequestStore) (c : AuditCandidate) : Type 0 where
  pub row : RequestRow
  pub found : find_request i s ≡ some row
  pub unsettled : row.state ≡ unknown
  pub charter : IsCharterRow row
  pub evidence : IsEvidence i row records created recovery c

row-facts :
    (i : String) (r : RequestRow) (records : List KongRecord) (created recovery : ℕ)
    (c : AuditCandidate)
    → candidate_for_row i (some r) records created recovery ≡ ok c
    → (stands_in unknown (some r.state) ≡ true)
      × (is_charter_row r ≡ true)
      × (single_match i r created recovery (candidates i r records) ≡ ok c)
unfolding candidate_for_row
row-facts i r records created recovery c h = ground arith

in_window :
    (i : String) (records : List KongRecord) (created recovery : ℕ) (s : RequestStore)
    (c : AuditCandidate)
    → audit_candidate i records created recovery s ≡ ok c
    → candidate_for_row i (find_request i s) records created recovery ≡ ok c
unfolding audit_candidate
in_window i records created recovery s c h = elim (Bool-cases (ltb recovery created)) [
  | inl e ↦ absurd (ground (arith, e))
  | inr e ↦ rw e at h
]

no_row :
    (i : String) (records : List KongRecord) (created recovery : ℕ) (c : AuditCandidate)
    → candidate_for_row i none records created recovery ≢ ok c
unfolding candidate_for_row
no_row i records created recovery c h = cc

audit_candidate-IsProven :
    (i : String) (records : List KongRecord) (created recovery : ℕ) (s : RequestStore)
    (c : AuditCandidate)
    → audit_candidate i records created recovery s ≡ ok c
    → IsProven i records created recovery s c
audit_candidate-IsProven i records created recovery s c h =
    let h' = in_window i records created recovery s c h in
    elim (Option-cases (find_request i s)) [
      | inl e ↦ absurd (no_row i records created recovery c (rw e at h'))
      | inr (r, e) ↦
          let (unsettled, charter, single) =
            row-facts i r records created recovery c (rw e at h') in
          record {
            row = r;
            found = e;
            unsettled = some-injective _ _ (stands_in-eq unknown (some r.state) unsettled);
            charter = row-IsCharterRow r charter;
            evidence =
                single_match-ok i r records (candidates i r records) created recovery c refl single;
          }
    ]

settles :
    (i d : String) (now : ℕ) (s : RequestStore)
    → request_state i s ≡ some unknown
    → terminalize_audit i d now s ≡ (write_state i terminal (some d) now s, ok tt)
unfolding terminalize_audit
settles i d now s h = ground arith

row_unknown :
    (i : String) (r : RequestRow) (s : RequestStore)
    → find_request i s ≡ some r
    → r.state ≡ unknown
    → request_state i s ≡ some unknown
unfolding request_state
row_unknown i r s f e = ground arith

-- A reconciliation that succeeds had an unknown charter request, and in the log exactly one record
-- of the executor's consumer with its id, method, path and query; that record has the status which
-- the method expects, was made between the request's creation and the recovery, and has a
-- well-formed digest, which becomes the receipt of the request, now terminal.
pub reconcile_audit-ok :
    (i : String) (records : List KongRecord) (created recovery now : ℕ) (s : RequestStore)
    (c : AuditCandidate)
    → (reconcile_audit i records created recovery now s).1 ≡ ok c
    → IsProven i records created recovery s c
      × ((reconcile_audit i records created recovery now s).0
          ≡ write_state i terminal (some c.source_digest) now s)
unfolding reconcile_audit
reconcile_audit-ok i records created recovery now s c h =
    elim (Result-cases (audit_candidate i records created recovery s)) [
      | inr (e, k) ↦ absurd (ground (arith, k))
      | inl (d, k) ↦
          let proven = audit_candidate-IsProven i records created recovery s d k in
          let write =
            settles i d.source_digest now s
              (row_unknown i proven.row s proven.found proven.unsettled) in
          let same : d ≡ c = ground (arith, k, write) in
          (
            subst (IsProven i records created recovery s) same proven,
            ground (arith, k, write, same),
          )
    ]

-- A reconciliation that raises leaves the store as it was.
pub reconcile_audit-err :
    (i : String) (records : List KongRecord) (created recovery now : ℕ) (s : RequestStore)
    (e : CharterRequestError)
    → (reconcile_audit i records created recovery now s).1 ≡ err e
    → (reconcile_audit i records created recovery now s).0 ≡ s
unfolding reconcile_audit terminalize_audit
reconcile_audit-err i records created recovery now s e h = ground arith

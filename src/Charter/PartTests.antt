-- ===== src/Charter/PartTests.antt =====
-- Runs of the parts of the charter path: specs, approvals, the response guard, reconciliation.
use sentinel_security_platfo.Base.{
  ℕ, ltb, lt→ltb, ◌<◌, if◌then◌else◌, all, String, ◌≡◌, refl, ◌↔◌, true, false, none, some, [], ◌∷◌,
  ok, codes, arith, eq_iff, ◌==◌,
}
use sentinel_security_platfo.Base.Table.{find, update}
use sentinel_security_platfo.Charter.Store.Open.{
  Answer, locked, goes, Disk, init_store, inspect, init_store-opens,
}
use sentinel_security_platfo.Charter.Fixtures.{platform, spec, approval, scanner}
use sentinel_security_platfo.Charter.Spec.{
  SafeRequestCase, get_baseline, validate_spec, purpose_for,
}
use sentinel_security_platfo.Charter.Spec.Validation.{IsAdmissible, validate_spec_iff}
use sentinel_security_platfo.Charter.Spec.Make.{
  SpecArgs, make_spec, provisional_spec, chosen_case_id, matching_case_id, sorted_headers,
  with_purpose, IsMade, make_spec-IsMade,
}
use sentinel_security_platfo.Charter.Approval.{sign, verify, verify-sign}
use sentinel_security_platfo.Charter.Store.{
  RequestStore, unknown, terminal, empty_store, write_state,
}
use sentinel_security_platfo.Charter.Guard.{bytes, guard_response_preview, accepted}
use sentinel_security_platfo.Charter.Guard.Prefix.{
  bounded_prefix, IsPreview, bounded_prefix-IsPreview,
}
use sentinel_security_platfo.Charter.Guard.Acceptance.{IsAccepted, guard_response_preview_iff}
use sentinel_security_platfo.Charter.Reconcile.{
  KongRecord, AuditCandidate, executor_consumer, reconcile_audit,
}
use sentinel_security_platfo.Charter.Reconcile.Evidence.{IsProven, reconcile_audit-ok}

validate_spec_iff_example :
    (validate_spec platform spec ≡ ok tt) ↔ ((c : SafeRequestCase) × IsAdmissible platform spec c)
validate_spec_iff_example = validate_spec_iff platform spec

abbrev args : SpecArgs
args = record {
  run_id = "run";
  method = "GET";
  path = get_baseline.path;
  query = "q=apple";
  body = "";
  headers = [];
  ttl = 300;
  case_id = none;
}

make_spec-IsMade_example : IsMade platform args "r1" 0 spec
unfolding make_spec validate_spec purpose_for provisional_spec chosen_case_id matching_case_id
    sorted_headers with_purpose
make_spec-IsMade_example = make_spec-IsMade platform args "r1" 0 spec refl

sign_run : sign platform (λ m. m) spec "approve" 300 "d1" 0 "n1" ≡ ok approval
unfolding sign
sign_run = refl

same_text : (m : String) → (m == m) ≡ true
same_text m = (eq_iff m m).1 refl

verify-sign_example : verify platform approval spec 7 ≡ true
verify-sign_example =
    verify-sign platform (λ m. m) spec "approve" 300 "d1" 0 "n1" approval 7 same_text sign_run
      (omega arith)

guard_response_preview_iff_example :
    (guard_response_preview scanner
        (bytes (codes "[]"))
        (codes "application/json; charset=utf-8" ∷ [])
      ≡ accepted (codes "[]") false)
    ↔ IsAccepted scanner
        (bytes (codes "[]"))
        (codes "application/json; charset=utf-8" ∷ [])
        (codes "[]")
        false
guard_response_preview_iff_example =
    guard_response_preview_iff scanner (bytes (codes "[]"))
      (codes "application/json; charset=utf-8" ∷ []) (codes "[]") false

bounded_prefix-IsPreview_example :
    IsPreview (codes "[1, 2]") (bounded_prefix (codes "[1, 2]")).0
    × (((bounded_prefix (codes "[1, 2]")).1 ≡ false)
        ↔ ((bounded_prefix (codes "[1, 2]")).0 ≡ codes "[1, 2]"))
bounded_prefix-IsPreview_example = bounded_prefix-IsPreview (codes "[1, 2]")

-- A request that was lost in flight, and the gateway's record of it.
abbrev lost_store : RequestStore
lost_store = record empty_store {
  requests =
      record {
        id = "r1";
        run = "run";
        method = "GET";
        path = get_baseline.path;
        query = "q=apple";
        state = unknown;
        ts = 2;
        spec_digest = "r1";
        receipt_digest = none;
      }
      ∷ [];
}

abbrev source_digest : String
source_digest = "0123456789abcdef0123456789abcdef0123456789abcdef0123456789abcdef"

abbrev kong_record : KongRecord
kong_record = record {
  request_id = "r1";
  consumer = executor_consumer;
  method = "GET";
  path = get_baseline.path;
  query = "q=apple";
  status = some 200;
  started_at = some 5;
  source_digest = source_digest;
}

abbrev candidate : AuditCandidate
candidate = record {
  request_id = "r1";
  status = 200;
  started_at = 5;
  source_digest = source_digest;
}

reconcile_run : (reconcile_audit "r1" (kong_record ∷ []) 1 9 10 lost_store).1 ≡ ok candidate
unfolding reconcile_audit find all update
reconcile_run = refl

reconcile_audit-ok_example :
    IsProven "r1" (kong_record ∷ []) 1 9 lost_store candidate
    × ((reconcile_audit "r1" (kong_record ∷ []) 1 9 10 lost_store).0
        ≡ write_state "r1" terminal (some source_digest) 10 lost_store)
reconcile_audit-ok_example =
    reconcile_audit-ok "r1" (kong_record ∷ []) 1 9 10 lost_store candidate reconcile_run

-- A file without tables that is locked twice.
abbrev twice_locked : ℕ → Answer
twice_locked n = if ltb n 2 then locked else goes

abbrev new_disk : Disk
new_disk = record { tables = []; rows = empty_store }

twice_locked-held : (j : ℕ) → j < 2 → twice_locked j ≡ locked
twice_locked-held j h = rw (lt→ltb j 2 h) refl

init_store-opens_example : init_store twice_locked 5 new_disk ≡ inspect 5 new_disk
init_store-opens_example =
    init_store-opens 2 twice_locked 5 new_disk (omega arith) twice_locked-held refl

-- ===== src/Charter/Receipt/Audit.antt =====
-- agent/charter_receipt.py: `validate_audit`, the artifact of the gateway's log.
use sentinel_security_platfo.Base.{
  ℕ, String, not, ◌&&◌, ◌||◌, ok, err, ◌>>=◌, require, is_digest, ltb, leb, ◌==◌, if◌then◌else◌,
}
use sentinel_security_platfo.Base.Json.{
  Json, int, string, object, Fields, end_fields, field, get, is_string,
}
use sentinel_security_platfo.Charter.Spec.{RequestSpec}
use sentinel_security_platfo.Charter.Receipt.{
  Checked, check_context, exact_fields, invalid_audit, unknown_schema, wrong_audit, audit_v1,
  audit_source, audit_fields,
}

-- A time stamp: a natural number.
unfoldable time_of : Json → Checked ℕ
time_of (int n) = ok n
time_of _ = err invalid_audit

unfoldable audit_digest_of : Json → Checked String
unfolding is_digest
audit_digest_of (string d) = if is_digest d then ok d else err invalid_audit
audit_digest_of _ = err invalid_audit

-- The status of an audit, of a number that the policy allows.
unfoldable audit_status_of : String → Json → Checked ℕ
audit_status_of method (int n) =
    if (method == "GET" && not (leb 200 n && ltb n 300))
      || (method == "POST" && not (leb 400 n && ltb n 500))
    then err invalid_audit
    else ok n
audit_status_of method _ = err invalid_audit

unfoldable pub audit_of : RequestSpec → Fields → Checked Json
unfolding audit_status_of time_of audit_digest_of is_string get
audit_of spec fs = require (is_string spec.request_id (get "request_id" fs)) invalid_audit >>= λ _.
    audit_status_of spec.method (get "status" fs) >>= λ status.
    time_of (get "started_at" fs) >>= λ started.
    time_of (get "manifest_created_at_ms" fs) >>= λ created.
    time_of (get "recovery_started_at_ms" fs) >>= λ recovery.
    require (leb created recovery && (leb created started && leb started recovery)) invalid_audit
    >>= λ _. require (is_string audit_source (get "source" fs)) invalid_audit >>= λ _.
        audit_digest_of (get "source_digest" fs) >>= λ digest. ok (
          object (
            field "schema_version" (string audit_v1) (
              field "request_id" (string spec.request_id) (
                field "status" (int status) (
                  field "started_at" (int started) (
                    field "manifest_created_at_ms" (int created) (
                      field "recovery_started_at_ms" (int recovery) (
                        field "source" (string audit_source)
                          (field "source_digest" (string digest) end_fields)))))))))

unfoldable validate_audit : Json → RequestSpec → Checked Json
unfolding check_context exact_fields is_string get audit_of
validate_audit value spec = check_context spec >>= λ _.
    (elim (exact_fields audit_fields value) [ ok fs ↦ ok fs | err e ↦ err wrong_audit ]) >>= λ fs.
    require (is_string audit_v1 (get "schema_version" fs)) unknown_schema >>= λ _. audit_of spec fs

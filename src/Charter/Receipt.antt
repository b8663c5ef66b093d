-- ===== src/Charter/Receipt.antt =====
-- agent/charter_receipt.py: the validators of executor metadata and audit artifacts, over decoded
-- JSON. A text of a decoded document is taken to have no lone surrogates; the dictionaries that are
-- returned are JSON objects again.
pub mod Sealed
pub mod Counted
pub mod Guarded
pub mod Answer
pub mod Audit
use sentinel_security_platfo.Base.{
  ℕ, String, Bool, true, false, not, ◌&&◌, ◌||◌, Option, none, some, List, [], ◌∷◌, ◌++◌, Result,
  ok, err, ◌>>=◌, ◌>>◌, require, is_digest, text_length, codes, ltb, leb, ◌==◌, if◌then◌else◌,
}
use sentinel_security_platfo.Base.Json.{
  Json, null, boolean, int, negative, float, string, array, object, Fields, end_fields, field, get,
  has_fields, is_in, is_string,
}
use sentinel_security_platfo.Charter.Spec.{RequestSpec}
use sentinel_security_platfo.Charter.Guard.Prefix.{
  preview_byte_limit, preview_scalar_limit, total_bytes,
}

-- The messages of `ReceiptContractError`.
pub data ReceiptContractError : Type 0 where
  invalid_context other_method wrong_fields invalid_metadata outside_policy : ReceiptContractError
  not_text preview_too_long empty_quarantine invalid_count : ReceiptContractError
  unknown_schema bad_truncation bad_post_flag wrong_audit invalid_audit : ReceiptContractError

abbrev pub Checked : Type 0 → Type 0
Checked A = Result ReceiptContractError A

abbrev receipt_v1 : String
receipt_v1 = "sentinel-charter-receipt/v1"

abbrev receipt_v2 : String
receipt_v2 = "sentinel-charter-receipt/v2"

abbrev pub audit_v1 : String
audit_v1 = "sentinel-charter-audit/v1"

abbrev pub audit_source : String
audit_source = "docker-logs-sentinel-kong"

abbrev pub result_fields : List String
result_fields = "request_id" ∷ "status" ∷ "bytes" ∷ "receipt_digest" ∷ "post_expected_4xx" ∷ []

abbrev v1_fields : List String
v1_fields = "schema_version" ∷ "request_id" ∷ "status" ∷ "bytes" ∷ "receipt_digest" ∷ []

abbrev pub v2_accepted_fields : List String
v2_accepted_fields =
    "schema_version" ∷ "request_id" ∷ "status" ∷ "bytes" ∷ "receipt_digest" ∷ "preview"
    ∷ "preview_truncated" ∷ []

abbrev pub v2_quarantine_fields : List String
v2_quarantine_fields =
    "schema_version" ∷ "request_id" ∷ "status" ∷ "bytes" ∷ "receipt_digest" ∷ "quarantine" ∷ []

abbrev pub audit_fields : List String
audit_fields =
    "schema_version" ∷ "request_id" ∷ "status" ∷ "started_at" ∷ "manifest_created_at_ms"
    ∷ "recovery_started_at_ms" ∷ "source" ∷ "source_digest" ∷ []

abbrev pub quarantine_codes : List String
quarantine_codes =
    "media-missing" ∷ "media-duplicate" ∷ "media-malformed" ∷ "media-unsupported"
    ∷ "decode-invalid-utf8" ∷ "objective-change" ∷ "secret-disclosure" ∷ "out-of-scope-tool"
    ∷ "pii-card" ∷ "pii-phone" ∷ "pii-email" ∷ "pii-jwt" ∷ "pii-uuid" ∷ []

-- What `_validate_common` returns.
pub record Common : Type 0 where
  pub request_id : String
  pub status : ℕ
  pub byte_count : ℕ
  pub receipt_digest : String

unfoldable pub check_context : RequestSpec → Checked Unit
check_context spec =
    require (not (spec.request_id == "") && (spec.method == "GET" || spec.method == "POST"))
      invalid_context

-- The method that the metadata is only for, if it is for one.
unfoldable pub is_method : Option String → String → Bool
is_method none actual = true
is_method (some method) actual = actual == method

-- The dict, with exactly these fields.
unfoldable pub exact_fields : List String → Json → Checked Fields
unfolding has_fields
exact_fields names (object fs) = if has_fields names fs then ok fs else err wrong_fields
exact_fields names _ = err wrong_fields

-- `type(value) is int`: below zero or not.
pub data Number : Type 0 where
  natural : ℕ → Number
  below_zero : Number

unfoldable pub number_of : Json → Checked Number
number_of (int n) = ok (natural n)
number_of (negative n) = ok below_zero
number_of _ = err invalid_metadata

unfoldable pub byte_count_of : Json → Checked ℕ
byte_count_of (int n) = if leb n 65536 then ok n else err invalid_metadata
byte_count_of _ = err invalid_metadata

unfoldable pub receipt_digest_of : Json → Checked String
unfolding is_digest
receipt_digest_of (string d) = if is_digest d then ok d else err invalid_metadata
receipt_digest_of _ = err invalid_metadata

-- The status that the method may come back with.
unfoldable pub in_policy : String → Number → Checked ℕ
in_policy method below_zero = err outside_policy
in_policy method (natural n) =
    if (method == "GET" && not (leb 200 n && ltb n 300))
      || (method == "POST" && not (leb 400 n && ltb n 500))
    then err outside_policy
    else ok n

unfoldable pub common_of : RequestSpec → Fields → Checked Common
unfolding is_string number_of byte_count_of receipt_digest_of in_policy get
common_of spec fs =
    require (is_string spec.request_id (get "request_id" fs)) invalid_metadata >>= λ _.
    number_of (get "status" fs) >>= λ number. byte_count_of (get "bytes" fs) >>= λ byte_count.
    receipt_digest_of (get "receipt_digest" fs) >>= λ digest.
    in_policy spec.method number >>= λ status. ok record {
      request_id = spec.request_id;
      status = status;
      byte_count = byte_count;
      receipt_digest = digest;
    }

-- `_validate_common`; the fields are passed on.
unfoldable pub validate_common :
    Json → List String → RequestSpec → Option String → Checked (Fields × Common)
unfolding check_context is_method exact_fields common_of
validate_common value names spec method = check_context spec >>= λ _.
    require (is_method method spec.method) other_method >>= λ _.
    exact_fields names value >>= λ fs. common_of spec fs >>= λ common. ok (fs, common)

unfoldable pub validated_preview : Json → Checked String
unfolding total_bytes
validated_preview (string t) =
    if ltb preview_byte_limit (total_bytes (codes t)) || ltb preview_scalar_limit (text_length t)
    then err preview_too_long
    else ok t
validated_preview _ = err not_text

unfoldable pub is_count : Json → Bool
is_count (int n) = leb 1 n && leb n 65536
is_count _ = false

unfoldable pub all_counts : Fields → Bool
unfolding is_in is_count
all_counts end_fields = true
all_counts (field key value fs) = is_in key quarantine_codes && is_count value && all_counts fs

unfoldable pub validated_quarantine : Json → Checked Fields
unfolding all_counts
validated_quarantine (object (field key value fs)) =
    if all_counts (field key value fs) then ok (field key value fs) else err invalid_count
validated_quarantine _ = err empty_quarantine

-- `type(value) is bool`
unfoldable pub truncation_of : Json → Checked Bool
truncation_of (boolean b) = ok b
truncation_of _ = err bad_truncation

-- The dictionaries that are returned.
abbrev pub v2_common : Common → Fields → Fields
v2_common c rest = field "schema_version" (string receipt_v2) (
    field "request_id" (string c.request_id) (
      field "status" (int c.status)
        (field "bytes" (int c.byte_count) (field "receipt_digest" (string c.receipt_digest) rest))))

unfoldable pub v2_accepted : RequestSpec → Json → Checked Json
unfolding validate_common get validated_preview truncation_of
v2_accepted spec value =
    validate_common value v2_accepted_fields spec (some "GET") >>= λ (fs, common).
    validated_preview (get "preview" fs) >>= λ preview.
    truncation_of (get "preview_truncated" fs) >>= λ truncated. ok (
      object (
        v2_common common (
          field "preview" (string preview)
            (field "preview_truncated" (boolean truncated) end_fields))))

unfoldable pub v2_quarantined : RequestSpec → Json → Checked Json
unfolding validate_common get validated_quarantine
v2_quarantined spec value =
    validate_common value v2_quarantine_fields spec (some "GET") >>= λ (fs, common).
    validated_quarantine (get "quarantine" fs) >>= λ counts.
    ok (object (v2_common common (field "quarantine" (object counts) end_fields)))

-- A dict whose schema version is the second.
unfoldable pub is_v2 : Json → Bool
unfolding is_string get
is_v2 (object fs) = is_string receipt_v2 (get "schema_version" fs)
is_v2 _ = false

abbrev has_exactly : List String → Json → Bool
has_exactly names (object fs) = has_fields names fs
has_exactly names _ = false

unfoldable pub validate_v2 : Json → RequestSpec → Checked Json
unfolding is_v2 has_fields v2_accepted v2_quarantined
validate_v2 value spec =
    if not (is_v2 value)
    then err unknown_schema
    else if has_exactly v2_accepted_fields value
    then v2_accepted spec value
    else if has_exactly v2_quarantine_fields value
    then v2_quarantined spec value
    else err wrong_fields

unfoldable pub is_flag : Json → Bool
is_flag (boolean b) = b
is_flag _ = false

unfoldable pub validate_adapter_result : Json → RequestSpec → Checked Json
unfolding is_v2 validate_v2 validate_common get is_flag
validate_adapter_result value spec =
    if is_v2 value
    then validate_v2 value spec
    else validate_common value result_fields spec (some "POST") >>= λ (fs, c).
        require (is_flag (get "post_expected_4xx" fs)) bad_post_flag >>= λ _. ok (
          object (
            field "request_id" (string c.request_id) (
              field "status" (int c.status) (
                field "bytes" (int c.byte_count) (
                  field "receipt_digest" (string c.receipt_digest)
                    (field "post_expected_4xx" (boolean (spec.method == "POST")) end_fields))))))

unfoldable validate_receipt : Json → RequestSpec → Checked Json
unfolding is_v2 validate_v2 validate_common get is_string
validate_receipt value spec =
    if is_v2 value
    then validate_v2 value spec
    else validate_common value v1_fields spec none >>= λ (fs, c).
        require (is_string receipt_v1 (get "schema_version" fs)) unknown_schema >>= λ _. ok (
          object (
            field "schema_version" (string receipt_v1) (
              field "request_id" (string c.request_id) (
                field "status" (int c.status) (
                  field "bytes" (int c.byte_count)
                    (field "receipt_digest" (string c.receipt_digest) end_fields))))))

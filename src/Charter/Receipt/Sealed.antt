-- ===== src/Charter/Receipt/Sealed.antt =====
-- The receipts that `execute` returns, as the dictionaries that the adapter hands over, pass the
-- validator of the sealed receipt contract.
use sentinel_security_platfo.Base.{
  ℕ, ◌≤◌, String, ◌≡◌, ◌≢◌, refl, inl, inr, Bool, true, false, ◌||◌, Option, some, List, [], ◌∷◌,
  ok, all, any, is_digest, text_length, codes, arith, ltb, leb, ◌==◌, eq_iff,
}
use sentinel_security_platfo.Base.Json.{
  Json, boolean, int, string, object, Fields, end_fields, field, get, has_fields, is_in, is_string,
}
use sentinel_security_platfo.Charter.Spec.{RequestSpec}
use sentinel_security_platfo.Charter.Guard.{Counts}
use sentinel_security_platfo.Charter.Guard.Prefix.{
  total_bytes, preview_byte_limit, preview_scalar_limit,
}
use sentinel_security_platfo.Charter.Execute.{
  Receipt, post_receipt, preview_receipt, quarantine_receipt,
}
use sentinel_security_platfo.Charter.Execute.Settled.{IsExpected}
use sentinel_security_platfo.Charter.Receipt.{
  Common, all_counts, check_context, common_of, exact_fields, byte_count_of, in_policy, is_flag,
  is_method, is_v2, natural, number_of, receipt_digest_of, truncation_of, v2_accepted, v2_common,
  v2_quarantined, validate_adapter_result, validate_common, validate_v2, result_fields,
  v2_accepted_fields, v2_quarantine_fields, validated_preview, validated_quarantine,
}

abbrev pub counts_fields : Counts → Fields
counts_fields [] = end_fields
counts_fields ((key, n) ∷ counts) = field key (int n) (counts_fields counts)

abbrev post_fields : Common → Fields
post_fields c = field "request_id" (string c.request_id) (
    field "status" (int c.status) (
      field "bytes" (int c.byte_count) (
        field "receipt_digest" (string c.receipt_digest)
          (field "post_expected_4xx" (boolean true) end_fields))))

abbrev pub preview_fields : Common → String → Bool → Fields
preview_fields c preview truncated =
    v2_common c
      (field "preview" (string preview) (field "preview_truncated" (boolean truncated) end_fields))

abbrev quarantine_fields : Common → Counts → Fields
quarantine_fields c counts =
    v2_common c (field "quarantine" (object (counts_fields counts)) end_fields)

abbrev pub metadata : String → ℕ → ℕ → String → Common
metadata i status size digest = record {
  request_id = i;
  status = status;
  byte_count = size;
  receipt_digest = digest;
}

-- The JSON object that a receipt's dictionary is; a preview is a text with the preview's characters.
abbrev pub IsDict : Receipt → Json → Type 0
IsDict (post_receipt i status size digest) value =
    value ≡ object (post_fields (metadata i status size digest))
IsDict (preview_receipt i status size digest preview truncated) value =
    (text : String) × (codes text ≡ preview)
    × (value ≡ object (preview_fields (metadata i status size digest) text truncated))
IsDict (quarantine_receipt i status size digest counts) value =
    value ≡ object (quarantine_fields (metadata i status size digest) counts)

module _ (spec : RequestSpec) where
  -- The metadata that a receipt shares.
  pub record IsMetadata (c : Common) : Type 0 where
    pub same : c.request_id ≡ spec.request_id
    pub labelled : spec.request_id ≢ ""
    pub expected : IsExpected spec.method c.status
    pub bounded : c.byte_count ≤ 65536
    pub digest : is_digest c.receipt_digest ≡ true

  context : (c : Common) → IsMetadata c → check_context spec ≡ ok tt
  unfolding check_context
  context c m = ground (
    arith,
    m.labelled,
    m.expected,
    eq_iff spec.request_id "",
    eq_iff spec.method "GET",
    eq_iff spec.method "POST",
  )

  in_policy-ok :
      (c : Common) → IsMetadata c → in_policy spec.method (natural c.status) ≡ ok c.status
  unfolding in_policy
  in_policy-ok c m = elim m.expected [
    | inl (get_, low, high) ↦ rw get_ ground (arith, low, high)
    | inr (post, low, high) ↦ rw post ground (arith, low, high)
  ]

  -- Fields that have the metadata in their places.
  common_of-ok :
      (c : Common) (fs : Fields)
      → IsMetadata c
      → get "request_id" fs ≡ string c.request_id
      → get "status" fs ≡ int c.status
      → get "bytes" fs ≡ int c.byte_count
      → get "receipt_digest" fs ≡ string c.receipt_digest
      → common_of spec fs ≡ ok c
  unfolding common_of is_string number_of byte_count_of receipt_digest_of
  common_of-ok c fs m a b d e =
      let named : (c.request_id == spec.request_id) ≡ true =
        (eq_iff c.request_id spec.request_id).1 m.same in
      let counted : leb c.byte_count 65536 ≡ true = ground (arith, m.bounded) in
      rw (a, b, d, e, named, counted, m.digest, in_policy-ok c m, ← m.same) refl

  validate_common-ok :
      (c : Common) (fs : Fields) (names : List String) (method : Option String)
      → IsMetadata c
      → is_method method spec.method ≡ true
      → has_fields names fs ≡ true
      → common_of spec fs ≡ ok c
      → validate_common (object fs) names spec method ≡ ok (fs, c)
  unfolding validate_common exact_fields
  validate_common-ok c fs names method m right exact common =
      rw (context c m, right, exact, common) refl

  pub posted-ok :
      (c : Common)
      → IsMetadata c
      → spec.method ≡ "POST"
      → validate_adapter_result (object (post_fields c)) spec ≡ ok (object (post_fields c))
  unfolding validate_adapter_result get has_fields is_in is_flag is_v2 is_method all any
  posted-ok c m post =
      let common : common_of spec (post_fields c) ≡ ok c =
        common_of-ok c (post_fields c) m refl refl refl refl in
      let right : is_method (some "POST") spec.method ≡ true = rw post refl in
      rw
        (validate_common-ok c (post_fields c) result_fields (some "POST") m right refl common, post)
        refl

  pub previewed-ok :
      (c : Common) (preview : String) (truncated : Bool)
      → IsMetadata c
      → spec.method ≡ "GET"
      → text_length preview ≤ preview_scalar_limit
      → total_bytes (codes preview) ≤ preview_byte_limit
      → validate_adapter_result (object (preview_fields c preview truncated)) spec
        ≡ ok (object (preview_fields c preview truncated))
  unfolding validate_adapter_result validate_v2 v2_accepted validated_preview truncation_of get
      has_fields is_in is_v2 is_method is_string all any
  previewed-ok c preview truncated m get_ short small =
      let fs : Fields = preview_fields c preview truncated in
      let common : common_of spec fs ≡ ok c = common_of-ok c fs m refl refl refl refl in
      let right : is_method (some "GET") spec.method ≡ true = rw get_ refl in
      let fits : (ltb preview_byte_limit (total_bytes (codes preview))
            || ltb preview_scalar_limit (text_length preview))
          ≡ false =
        ground (arith, short, small) in
      rw (validate_common-ok c fs v2_accepted_fields (some "GET") m right refl common, fits) refl

  pub quarantined-ok :
      (c : Common) (counts : Counts)
      → IsMetadata c
      → spec.method ≡ "GET"
      → counts ≢ []
      → all_counts (counts_fields counts) ≡ true
      → validate_adapter_result (object (quarantine_fields c counts)) spec
        ≡ ok (object (quarantine_fields c counts))
  unfolding validate_adapter_result validate_v2 v2_quarantined validated_quarantine get has_fields
      is_in is_v2 is_method is_string all any
  quarantined-ok c [] m get_ some_ valid = absurd (some_ refl)
  quarantined-ok c ((key, n) ∷ counts) m get_ some_ valid =
      let fs : Fields = quarantine_fields c ((key, n) ∷ counts) in
      let common : common_of spec fs ≡ ok c = common_of-ok c fs m refl refl refl refl in
      let right : is_method (some "GET") spec.method ≡ true = rw get_ refl in
      rw (validate_common-ok c fs v2_quarantine_fields (some "GET") m right refl common, valid) refl

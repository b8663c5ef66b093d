-- ===== src/Charter/Receipt/Guarded.antt =====
-- What the response guard makes of a body fits the sealed receipt contract.
use sentinel_security_platfo.Base.{
  ℕ, ◌≤◌, String, ◌≡◌, ◌≢◌, refl, inl, inr, true, not, ◌||◌, Option, none, some, List, [], ◌∷◌, any,
  length, count_if, ltb, arith, Bool-cases, Option-cases,
}
use mathlib.Core.Path.{subst}
use sentinel_security_platfo.Base.Json.{is_in}
use sentinel_security_platfo.Charter.Guard.{
  Counts, ResponsePreview, Scanner, accepted, bytes, guard_response_preview, preview_body,
  preview_text, quarantined, text_reasons,
}
use sentinel_security_platfo.Charter.Guard.Media.{
  Text, is_json_utf8, judge_parameters, judge_pieces, judge_value, lower, media_reason,
  names_charset, parse_parameters, split, strip, is_slash, is_space, is_empty, blank,
  is_unprintable,
}
use sentinel_security_platfo.Charter.Guard.Prefix.{
  bounded_prefix-IsPreview, preview_byte_limit, preview_scalar_limit, total_bytes,
}
use sentinel_security_platfo.Charter.Execute.{response_cap}
use sentinel_security_platfo.Charter.Receipt.{quarantine_codes}
use sentinel_security_platfo.Charter.Receipt.Counted.{IsCounted, IsScanned, text_reasons-IsCounted}

-- A reason that there is, is known.
abbrev IsReason : Option String → Type 0
IsReason none = Unit
IsReason (some reason) = is_in reason quarantine_codes ≡ true

judge_parameters-IsReason :
    (media : Text) (parsed : Option (List (Text × Text))) → IsReason (judge_parameters media parsed)
unfolding judge_parameters is_in any
judge_parameters-IsReason media none = refl
judge_parameters-IsReason media (some parsed) =
    elim (Bool-cases (ltb 1 (count_if names_charset parsed))) [
      | inl e ↦ rw (judge_parameters, e) refl
      | inr e ↦ elim (Bool-cases (is_json_utf8 media parsed)) [
        | inl f ↦ rw (judge_parameters, e, f) tt
        | inr f ↦ rw (judge_parameters, e, f) refl
      ]
    ]

judge_pieces-IsReason : (pieces : List Text) → IsReason (judge_pieces pieces)
unfolding judge_pieces is_in any
judge_pieces-IsReason [] = refl
judge_pieces-IsReason (first ∷ pieces) =
    let media = lower (strip first) in
    elim (Bool-cases (not (any is_slash media) || any is_space media)) [
      | inl e ↦ rw (judge_pieces, e) refl
      | inr e ↦ rw (judge_pieces, e) (judge_parameters-IsReason media (parse_parameters pieces))
    ]

judge_value-IsReason : (value : Text) → IsReason (judge_value value)
unfolding judge_value is_in any
judge_value-IsReason value = elim (Bool-cases (is_empty value || any is_unprintable value)) [
  | inl e ↦ rw (judge_value, e) refl
  | inr e ↦ elim (Bool-cases (any blank (split b';' value))) [
    | inl f ↦ rw (judge_value, e, f) refl
    | inr f ↦ rw (judge_value, e, f) (judge_pieces-IsReason (split b';' value))
  ]
]

media_reason-IsReason : (values : List Text) → IsReason (media_reason values)
unfolding media_reason is_in any
media_reason-IsReason [] = refl
media_reason-IsReason (value ∷ []) = judge_value-IsReason value
media_reason-IsReason (value ∷ other ∷ rest) = refl

-- What the guard makes of a body fits the sealed contract.
abbrev pub IsSealable : ResponsePreview → Type 0
IsSealable (accepted preview truncated) =
    (length preview ≤ preview_scalar_limit) × (total_bytes preview ≤ preview_byte_limit)
IsSealable (quarantined counts) = (counts ≢ []) × IsCounted 65536 counts

-- The scanner on the texts of bodies within the cap.
abbrev pub IsScanning : Scanner → Type 0
IsScanning sc =
    (body : List ℕ) (text : Text)
    → length body ≤ response_cap
    → sc.decode body ≡ some text
    → IsScanned sc text

one_reason :
    (reason : String) → IsReason (some reason) → IsSealable (quarantined ((reason, 1) ∷ []))
one_reason reason known = (ground arith, (((known, omega arith), tt), omega arith))

preview_of :
    (sc : Scanner) (text : Text) (reasons : Counts)
    → text_reasons sc text ≡ reasons
    → IsCounted 65536 reasons
    → IsSealable (preview_text sc text)
unfolding preview_text
preview_of sc text [] e counted =
    let preview = (bounded_prefix-IsPreview text).0 in
    rw (preview_text, e) (preview.scalars, preview.size)
preview_of sc text (r ∷ reasons) e counted = rw (preview_text, e) (ground arith, counted)

preview_text-IsSealable :
    (sc : Scanner) (text : Text) → IsScanned sc text → IsSealable (preview_text sc text)
preview_text-IsSealable sc text scanned =
    preview_of sc text (text_reasons sc text) refl (text_reasons-IsCounted sc text scanned)

preview_body-IsSealable :
    (sc : Scanner) (body : List ℕ)
    → IsScanning sc
    → length body ≤ response_cap
    → IsSealable (preview_body sc (bytes body))
unfolding preview_body is_in any
preview_body-IsSealable sc body scanning within = elim (Option-cases (sc.decode body)) [
  | inl e ↦ rw (preview_body, e) (one_reason "decode-invalid-utf8" refl)
  | inr (text, e) ↦
      rw (preview_body, e) (preview_text-IsSealable sc text (scanning body text within e))
]

pub guard_response_preview-IsSealable :
    (sc : Scanner) (body : List ℕ) (types : List Text)
    → IsScanning sc
    → length body ≤ response_cap
    → IsSealable (guard_response_preview sc (bytes body) types)
unfolding guard_response_preview
guard_response_preview-IsSealable sc body types scanning within =
    elim (Option-cases (media_reason types)) [
      | inl e ↦ rw (guard_response_preview, e) (preview_body-IsSealable sc body scanning within)
      | inr (reason, e) ↦
          let known : IsReason (some reason) =
            subst (λ o. IsReason o) e (media_reason-IsReason types) in
          rw (guard_response_preview, e) (one_reason reason known)
    ]

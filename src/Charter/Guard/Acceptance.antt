-- ===== src/Charter/Guard/Acceptance.antt =====
-- What the response guard lets through, and what a quarantine names.
use sentinel_security_platfo.Base.{
  ℕ, String, ◌≡◌, refl, ◌≢◌, ◌↔◌, Bool, false, none, some, List, [], ◌∷◌, arith, Option-cases,
  Bool-cases, inl, inr, All,
}
use sentinel_security_platfo.Charter.Guard.Media.{Text, media_reason}
use sentinel_security_platfo.Charter.Guard.JsonMedia.{IsJsonMedia, media_reason_iff}
use sentinel_security_platfo.Charter.Guard.Prefix.{bounded_prefix}
use sentinel_security_platfo.Charter.Guard.{
  Attempt, objective_change, secret_disclosure, out_of_scope_tool, attempt_name, attempts, Counts,
  Body, bytes, not_bytes, Scanner, accepted, add_count, pii_reason, add_findings, add_phones,
  add_attempts, text_reasons, preview_text, preview_body, guard_response_preview,
}

add_count-ne-nil : (key : String) (n : ℕ) (r : Counts) → add_count key n r ≢ []
unfolding add_count
add_count-ne-nil key n [] = ground arith
add_count-ne-nil key n ((k, m) ∷ r) = ground arith

add_findings-nil : (findings r : Counts) → add_findings findings r ≡ [] → (findings ≡ []) × (r ≡ [])
unfolding add_findings
add_findings-nil [] r h = (refl, h)
add_findings-nil ((cls, n) ∷ rest) r h =
    let (a, b) = add_findings-nil rest (add_count (pii_reason cls) n r) h in
    absurd (add_count-ne-nil (pii_reason cls) n r b)

add_phones-nil : (n : ℕ) (r : Counts) → add_phones n r ≡ [] → (n ≡ 0) × (r ≡ [])
unfolding add_phones
add_phones-nil n r h = ground (arith, add_count-ne-nil "pii-phone" n r)

abbrev IsUntried : Scanner → Text → Attempt → Type 0
IsUntried sc text a = sc.search a text ≡ false

add_attempts-nil :
    (sc : Scanner) (text : Text) (tried : List Attempt) (r : Counts)
    → add_attempts sc text tried r ≡ []
    → All (IsUntried sc text) tried × (r ≡ [])
unfolding add_attempts
add_attempts-nil sc text [] r h = (tt, h)
add_attempts-nil sc text (a ∷ rest) r h = elim (Bool-cases (sc.search a text)) [
  | inl e ↦
      let (none_after, empty) =
        add_attempts-nil sc text rest (add_count (attempt_name a) 1 r) (rw e at h) in
      absurd (add_count-ne-nil (attempt_name a) 1 r empty)
  | inr e ↦
      let (none_after, empty) = add_attempts-nil sc text rest r (rw e at h) in
      ((e, none_after), empty)
]

-- A text that nothing is held against: the scrubber finds nothing, no phone shape is left in the
-- scrubbed text, and none of the attempts is found.
pub record IsClean (sc : Scanner) (text : Text) : Type 0 where
  pub findings : (sc.redact text).1 ≡ []
  pub phones : sc.phone_shapes (sc.redact text).0 ≡ 0
  pub objective : sc.search objective_change text ≡ false
  pub secret : sc.search secret_disclosure text ≡ false
  pub tool : sc.search out_of_scope_tool text ≡ false

clean-reasons : (sc : Scanner) (text : Text) → IsClean sc text → text_reasons sc text ≡ []
unfolding text_reasons
clean-reasons sc text c = ground arith

reasons-IsClean : (sc : Scanner) (text : Text) → text_reasons sc text ≡ [] → IsClean sc text
unfolding text_reasons
reasons-IsClean sc text h =
    let findings = (sc.redact text).1 in
    let phones = sc.phone_shapes (sc.redact text).0 in
    let (untried, none_before) = add_attempts-nil sc text attempts _ h in
    let (no_phones, nothing) = add_phones-nil phones (add_findings findings []) none_before in
    record {
      findings = (add_findings-nil findings [] nothing).0;
      phones = no_phones;
      objective = untried.0;
      secret = untried.1.0;
      tool = untried.1.1.0;
    }

-- The responses that the guard lets through.
pub record IsAccepted (sc : Scanner) (body : Body) (content_types : List Text) (preview : Text)
    (truncated : Bool) : Type 0 where
  pub media : IsJsonMedia content_types
  pub raw : List ℕ
  pub body_bytes : body ≡ bytes raw
  pub text : Text
  pub decoded : sc.decode raw ≡ some text
  pub clean : IsClean sc text
  pub bounded : bounded_prefix text ≡ (preview, truncated)

preview_text_iff :
    (sc : Scanner) (text preview : Text) (truncated : Bool)
    → (preview_text sc text ≡ accepted preview truncated)
      ↔ ((text_reasons sc text ≡ []) × (bounded_prefix text ≡ (preview, truncated)))
unfolding preview_text
preview_text_iff sc text preview truncated = ground arith

module _ (sc : Scanner) (content_types : List Text) (preview : Text) (truncated : Bool) where
  accepted-media :
      (body : Body)
      → guard_response_preview sc body content_types ≡ accepted preview truncated
      → (media_reason content_types ≡ none) × (preview_body sc body ≡ accepted preview truncated)
  unfolding guard_response_preview
  accepted-media body h = ground arith

  accepted-text :
      (raw : List ℕ) (text : Text)
      → sc.decode raw ≡ some text
      → preview_body sc (bytes raw) ≡ accepted preview truncated
      → preview_text sc text ≡ accepted preview truncated
  unfolding preview_body
  accepted-text raw text d h = ground arith

  bytes_only : preview_body sc not_bytes ≢ accepted preview truncated
  unfolding preview_body
  bytes_only h = ground arith

  not_accepted :
      (raw : List ℕ)
      → sc.decode raw ≡ none
      → preview_body sc (bytes raw) ≢ accepted preview truncated
  unfolding preview_body
  not_accepted raw d h = ground arith

  sound :
      (body : Body)
      → guard_response_preview sc body content_types ≡ accepted preview truncated
      → IsAccepted sc body content_types preview truncated
  sound not_bytes h = absurd (bytes_only (accepted-media not_bytes h).1)
  sound (bytes raw) h = elim (Option-cases (sc.decode raw)) [
    | inl d ↦ absurd (not_accepted raw d (accepted-media (bytes raw) h).1)
    | inr (text, d) ↦
        let e =
          (preview_text_iff sc text preview truncated).0
            (accepted-text raw text d (accepted-media (bytes raw) h).1) in
        record {
          media = (media_reason_iff content_types).0 (accepted-media (bytes raw) h).0;
          raw = raw;
          body_bytes = refl;
          text = text;
          decoded = d;
          clean = reasons-IsClean sc text e.0;
          bounded = e.1;
        }
  ]

  complete :
      (body : Body)
      → IsAccepted sc body content_types preview truncated
      → guard_response_preview sc body content_types ≡ accepted preview truncated
  unfolding guard_response_preview preview_body
  complete body a =
      let e : preview_text sc a.text ≡ accepted preview truncated =
        (preview_text_iff sc a.text preview truncated).1
          (clean-reasons sc a.text a.clean, a.bounded) in
      let judged = (media_reason_iff content_types).1 a.media in
      ground (arith, judged, a.body_bytes, a.decoded, e)

-- The guard accepts a response, with a preview and its mark, exactly when there is one Content-Type,
-- which is application/json with the one parameter charset=utf-8, the body is bytes of valid UTF-8,
-- nothing is held against the text, and the preview is the bounded prefix of that text.
pub guard_response_preview_iff :
    (sc : Scanner) (body : Body) (content_types : List Text) (preview : Text) (truncated : Bool)
    → (guard_response_preview sc body content_types ≡ accepted preview truncated)
      ↔ IsAccepted sc body content_types preview truncated
guard_response_preview_iff sc body content_types preview truncated = (
  sound sc content_types preview truncated body,
  complete sc content_types preview truncated body,
)

-- ===== src/Charter/Guard.antt =====
-- agent/charter_response_guard.py: the guard of the charter executor. A text is a list of code
-- points. `Scanner` holds the matches of the regular expressions (`re`), the decoder of UTF-8 and
-- the PII scrubber's findings.
pub mod Media
pub mod JsonMedia
pub mod Prefix
pub mod Acceptance
use sentinel_security_platfo.Base.{
  ℕ, zero, suc, ◌+◌, String, Bool, true, false, not, ◌&&◌, ◌||◌, Option, none, some, List, [], ◌∷◌,
  nat_eq, ltb, leb, length, is_some, ◌==◌, if◌then◌else◌,
}
use Prim.Native.String.{◌++◌}
use sentinel_security_platfo.Charter.Guard.Media.{Text, media_reason}
use sentinel_security_platfo.Charter.Guard.Prefix.{bounded_prefix}

-- The names of `_ATTEMPTS`.
pub data Attempt : Type 0 where
  objective_change secret_disclosure out_of_scope_tool : Attempt

unfoldable pub attempt_name : Attempt → String
attempt_name objective_change = "objective-change"
attempt_name secret_disclosure = "secret-disclosure"
attempt_name out_of_scope_tool = "out-of-scope-tool"

abbrev pub attempts : List Attempt
attempts = objective_change ∷ secret_disclosure ∷ out_of_scope_tool ∷ []

-- A reason code with its count.
abbrev pub Counts : Type 0
Counts = List (String × ℕ)

-- A transport that breaks its type hands over a value that is not `bytes`.
pub data Body : Type 0 where
  bytes : List ℕ → Body
  not_bytes : Body

pub record Scanner : Type 0 where
  -- bytes.decode("utf-8", "strict"), `none` where it raises
  pub decode : List ℕ → Option Text
  -- agent/pii.py `redact`: the scrubbed text, and a class and a count for each finding
  pub redact : Text → Text × Counts
  -- len(_UNLABELLED_PHONE_SHAPE.findall(text))
  pub phone_shapes : Text → ℕ
  -- pattern.search(text) of an attempt finds something
  pub search : Attempt → Text → Bool

pub data ResponsePreview : Type 0 where
  accepted : Text → Bool → ResponsePreview
  quarantined : Counts → ResponsePreview

-- reasons[key] = reasons.get(key, 0) + n
unfoldable pub add_count : String → ℕ → Counts → Counts
add_count key n [] = (key, n) ∷ []
add_count key n ((k, m) ∷ rest) =
    if k == key then (k, m + n) ∷ rest else (k, m) ∷ add_count key n rest

-- f"pii-{finding.cls}"
unfoldable pub pii_reason : String → String
pii_reason cls = "pii-" ++ cls

unfoldable pub add_findings : Counts → Counts → Counts
unfolding pii_reason add_count
add_findings [] reasons = reasons
add_findings ((cls, n) ∷ rest) reasons = add_findings rest (add_count (pii_reason cls) n reasons)

unfoldable pub add_phones : ℕ → Counts → Counts
unfolding add_count
add_phones n reasons = if nat_eq n 0 then reasons else add_count "pii-phone" n reasons

unfoldable pub add_attempts : Scanner → Text → List Attempt → Counts → Counts
unfolding add_count attempt_name
add_attempts sc text [] reasons = reasons
add_attempts sc text (a ∷ rest) reasons =
    add_attempts sc text rest
      (if sc.search a text then add_count (attempt_name a) 1 reasons else reasons)

-- All that is held against a decoded text.
unfoldable pub text_reasons : Scanner → Text → Counts
unfolding add_findings add_phones add_attempts
text_reasons sc text =
    let (scrubbed, findings) = sc.redact text in
    add_attempts sc text attempts (add_phones (sc.phone_shapes scrubbed) (add_findings findings []))

unfoldable pub preview_text : Scanner → Text → ResponsePreview
unfolding text_reasons bounded_prefix
preview_text sc text = elim (text_reasons sc text) [
  | [] ↦ let (preview, truncated) = bounded_prefix text in accepted preview truncated
  | r ∷ reasons ↦ quarantined (r ∷ reasons)
]

abbrev pub invalid_utf8 : ResponsePreview
invalid_utf8 = quarantined (("decode-invalid-utf8", 1) ∷ [])

unfoldable pub preview_body : Scanner → Body → ResponsePreview
unfolding preview_text
preview_body sc not_bytes = invalid_utf8
preview_body sc (bytes b) = elim (sc.decode b) [
  | none ↦ invalid_utf8
  | some text ↦ preview_text sc text
]

unfoldable pub guard_response_preview : Scanner → Body → List Text → ResponsePreview
unfolding preview_body media_reason
guard_response_preview sc body content_types = elim (media_reason content_types) [
  | some media ↦ quarantined ((media, 1) ∷ [])
  | none ↦ preview_body sc body
]

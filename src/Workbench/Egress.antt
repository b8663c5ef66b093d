-- ===== src/Workbench/Egress.antt =====
-- workbench/egress.py: what a B3 prompt may hold, and what a provider's response may hold.
-- The redactors, SHA-256, JSON and UTF-8 lengths are `EgressTools`. A `B3Route` or an authorised
-- `SelectionManifest` only comes from its host factory, so the authority tokens are not passed.
use Prim.Native.String.{◌++◌}
use sentinel_security_platfo.Base.{
  ℕ, String, Bool, true, false, not, ◌&&◌, ◌||◌, Option, none, some, List, [], ◌∷◌, Result, ok, err,
  any, all, length, map, ltb, has_white, text_length, ◌==◌, if◌then◌else◌,
}
use sentinel_security_platfo.Base.Table.{find}

pub data EgressViolation : Type 0 where
  unsealed_selection outside_frame context_too_long redaction_failed unredacted_secret :
      EgressViolation
  unexpected_field invalid_shape outside_admitted : EgressViolation

-- A finding of the secret redactor: whether its `redacted` is True.
pub record EgressTools : Type 0 where
  pub utf8_length : String → ℕ
  -- none when the redactor raises
  pub redact_secrets : String → Option (String × List Bool)
  pub redact_pii : String → Option (String × ℕ)
  pub sha256 : String → String
  -- json.dumps({"proposal_ids": ids}, sort_keys=True, separators=(",", ":"))
  pub proposals_json : List String → String

pub record Slice : Type 0 where
  pub slice_id : String
  pub canonical_unit : String
  pub dependency_context : String

pub record SelectionManifest : Type 0 where
  pub digest : String
  pub slices : List Slice
  pub is_authorized : Bool

abbrev pub slice_key : Slice → String
slice_key x = x.slice_id

unfoldable pub slice_for : String → SelectionManifest → Option Slice
slice_for unit m = find slice_key unit m.slices

unfoldable pub admitted_unit_ids : SelectionManifest → List String
admitted_unit_ids m = map slice_key m.slices

pub record EgressRecord : Type 0 where
  pub route_id : String
  pub request_digest : String
  pub selection_manifest_digest : String
  pub unit_id : String
  pub canonical_unit_bytes : ℕ
  pub dependency_context_bytes : ℕ
  pub secret_findings : ℕ
  pub pii_findings : ℕ

pub record PreparedB3Request : Type 0 where
  pub prompt : String
  pub egress_record : EgressRecord

abbrev pub prompt_of : String → String
prompt_of body =
    "Analyze exactly this redacted canonical unit and optional sealed dependency context. Return structured proposal IDs only.\n<unit>\n"
    ++ body ++ "\n</unit>"

abbrev pub prepared_request :
    EgressTools → SelectionManifest → String → Slice → List Bool → String → ℕ → PreparedB3Request
prepared_request tools m route slice secrets body pii = record {
  prompt = prompt_of body;
  egress_record = record {
    route_id = route;
    request_digest = tools.sha256 (prompt_of body);
    selection_manifest_digest = m.digest;
    unit_id = slice.slice_id;
    canonical_unit_bytes = tools.utf8_length slice.canonical_unit;
    dependency_context_bytes = tools.utf8_length slice.dependency_context;
    secret_findings = length secrets;
    pii_findings = pii;
  };
}

-- From the redactors' results on.
unfoldable pub admit_redacted :
    EgressTools
    → SelectionManifest
    → String
    → Slice
    → List Bool
    → Option (String × ℕ)
    → Result EgressViolation PreparedB3Request
unfolding all
admit_redacted tools m route slice secrets none = err redaction_failed
admit_redacted tools m route slice secrets (some (body, pii)) =
    if not (all (λ redacted. redacted) secrets)
    then err unredacted_secret
    else ok (prepared_request tools m route slice secrets body pii)

unfoldable pub redact_slice :
    EgressTools
    → SelectionManifest
    → String
    → Slice
    → Option (String × List Bool)
    → Result EgressViolation PreparedB3Request
unfolding admit_redacted
redact_slice tools m route slice none = err redaction_failed
redact_slice tools m route slice (some (text, secrets)) =
    admit_redacted tools m route slice secrets (tools.redact_pii text)

abbrev pub source_body : Slice → String
source_body slice = slice.canonical_unit ++ "\n" ++ slice.dependency_context

unfoldable pub prepare_slice :
    EgressTools
    → SelectionManifest
    → String
    → Option Slice
    → Result EgressViolation PreparedB3Request
unfolding redact_slice
prepare_slice tools m route none = err outside_frame
prepare_slice tools m route (some slice) =
    if ltb 8192 (tools.utf8_length slice.dependency_context)
    then err context_too_long
    else redact_slice tools m route slice (tools.redact_secrets (source_body slice))

unfoldable pub prepare_b3_request :
    EgressTools → SelectionManifest → String → String → Result EgressViolation PreparedB3Request
unfolding prepare_slice slice_for
prepare_b3_request tools m unit route =
    if not m.is_authorized || unit == ""
    then err unsealed_selection
    else prepare_slice tools m route (slice_for unit m)

-- A JSON value as `quarantine_response` tells it: an item is a text or not, the value is a mapping
-- with the one key `proposal_ids` or not, and what stands there is a list or not.
pub data ProposalItem : Type 0 where
  text : String → ProposalItem
  other_item : ProposalItem

pub data ProviderResponse : Type 0 where
  other_shape not_a_list : ProviderResponse
  proposal_ids : List ProposalItem → ProviderResponse

pub record QuarantinedResponse : Type 0 where
  pub proposals : List String
  pub response_digest : String
  pub proposal_count : ℕ

-- All items as texts, if they all are and none is empty.
abbrev pub as_texts : List ProposalItem → Option (List String)
as_texts [] = some []
as_texts (other_item ∷ items) = none
as_texts (text t ∷ items) = elim (as_texts items) [
  | none ↦ none
  | some ts ↦ if t == "" then none else some (t ∷ ts)
]

-- `len(set(proposals)) == len(proposals)`
unfoldable pub all_distinct : List String → Bool
unfolding any
all_distinct [] = true
all_distinct (x ∷ xs) = not (any (λ y. y == x) xs) && all_distinct xs

abbrev pub is_bounded : String → Bool
unfolding has_white
is_bounded t = not (ltb 256 (text_length t) || has_white t)

unfoldable pub is_admitted : List String → String → Bool
unfolding any
is_admitted admitted t = any (λ a. a == t) admitted

abbrev pub has_units : List String → Bool
has_units [] = false
has_units (a ∷ as_) = true

unfoldable pub quarantine_texts :
    EgressTools → List String → Option (List String) → Result EgressViolation QuarantinedResponse
unfolding all all_distinct is_admitted
quarantine_texts tools admitted none = err invalid_shape
quarantine_texts tools admitted (some ts) =
    if not (all_distinct ts) || not (all is_bounded ts)
    then err invalid_shape
    else if not (has_units admitted) || not (all (is_admitted admitted) ts)
    then err outside_admitted
    else ok (record {
      proposals = ts;
      response_digest = tools.sha256 (tools.proposals_json ts);
      proposal_count = length ts;
    })

unfoldable pub quarantine_response :
    EgressTools → List String → ProviderResponse → Result EgressViolation QuarantinedResponse
unfolding quarantine_texts
quarantine_response tools admitted other_shape = err unexpected_field
quarantine_response tools admitted not_a_list = err invalid_shape
quarantine_response tools admitted (proposal_ids items) =
    quarantine_texts tools admitted (as_texts items)

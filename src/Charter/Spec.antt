-- ===== src/Charter/Spec.antt =====
-- agent/charter_requests.py: the catalogue of safe requests, request specs and their validation.
-- A clock reading is a number of microseconds. `Platform` holds what the standard library and the
-- host give: json.dumps over a spec, sha256, str.upper, Ed25519 verification, the environment.
pub mod Make
pub mod Validation
use sentinel_security_platfo.Base.{
  ℕ, zero, suc, ◌+◌, ◌*◌, String, Bool, true, false, not, ◌&&◌, Option, none, some, List, [], ◌∷◌,
  Result, ok, err, ◌>>=◌, ◌>>◌, require, is_some, ◌==◌, if◌then◌else◌,
}
use Prim.Native.String.{◌++◌}

abbrev pub seconds : ℕ → ℕ
seconds n = n * 1000000

-- The messages of `CharterRequestError`.
pub data CharterRequestError : Type 0 where
  outside_policy origin_immutable invalid_persisted_spec : CharterRequestError
  invalid_approval approval_replay approval_revoked approval_rejected : CharterRequestError
  request_expired request_replay quota_exhausted post_quota_exhausted : CharterRequestError
  illegal_transition recovery_required api_key_required : CharterRequestError
  mint_failed outcome_unknown invalid_transport over_cap : CharterRequestError
  invalid_status outside_response_policy : CharterRequestError
  invalid_window not_reconcilable audit_ambiguous audit_unverifiable : CharterRequestError
  projection_unverifiable : CharterRequestError

abbrev pub Checked : Type 0 → Type 0
Checked A = Result CharterRequestError A

abbrev pub Headers : Type 0
Headers = List (String × String)

pub record SafeRequestCase : Type 0 where
  pub case_id : String
  pub method : String
  pub path : String
  pub query : String
  pub body : String
  pub headers : Headers
  pub purpose : String

-- `expires_at` is a float or an int of the request. JSON also lets in infinities, NaN, booleans
-- and other types.
pub data Expiry : Type 0 where
  finite : ℕ → Expiry
  non_finite not_a_number : Expiry

pub record RequestSpec : Type 0 where
  pub request_id : String
  pub run_id : String
  pub case_id : String
  pub method : String
  pub path : String
  pub query : String
  pub body : String
  pub headers : Headers
  pub origin : String
  pub policy_digest : String
  pub expires_at : Expiry
  pub purpose : String

-- agent/charter_approval.py: an operator's signed decision.
pub record CharterApproval : Type 0 where
  pub decision_id : String
  pub decision : String
  pub request_id : String
  pub run_id : String
  pub spec_digest : String
  pub policy_digest : String
  pub issued_at : ℕ
  pub expires_at : ℕ
  pub nonce : String
  pub signature : String

pub record Platform : Type 0 where
  -- os.environ.get("KONG_PROXY") is not None
  pub kong_proxy_set : Bool
  pub upper : String → String
  pub sha256 : String → String
  -- json.dumps(asdict(spec)), and that of an approval with its domain and an empty signature
  pub spec_json : RequestSpec → String
  pub approval_json : CharterApproval → String
  -- public.verify(bytes.fromhex(signature), payload) does not raise
  pub ed25519_verify : String → String → Bool

abbrev pub charter_origin : String
charter_origin = "https://127.0.0.1:18443"

abbrev pub policy : String
policy = "sentinel-charter-requests/v2-purpose-bound"

abbrev pub charter_search_path : String
charter_search_path = "/sentinel-charter/rest/products/search"

abbrev pub charter_basket_path : String
charter_basket_path = "/sentinel-charter/rest/basket"

-- "a" * n
unfoldable pub repeat : ℕ → String → String
repeat zero s = ""
repeat (suc n) s = s ++ repeat n s

abbrev pub get_baseline : SafeRequestCase
get_baseline = record {
  case_id = "get-baseline";
  method = "GET";
  path = charter_search_path;
  query = "q=apple";
  body = "";
  headers = [];
  purpose =
      "Inspect the fixed public product-search response for q=apple; it does not modify target state.";
}

abbrev pub get_empty : SafeRequestCase
get_empty = record {
  case_id = "get-empty";
  method = "GET";
  path = charter_search_path;
  query = "q=";
  body = "";
  headers = [];
  purpose =
      "Inspect the fixed public product-search response with an empty query value; it does not modify target state.";
}

abbrev pub get_special_characters : SafeRequestCase
get_special_characters = record {
  case_id = "get-special-characters";
  method = "GET";
  path = charter_search_path;
  query = "q=sentinel%20%21%40%23%24%25%5E%26%2A%28%29";
  body = "";
  headers = ("Accept", "application/json") ∷ [];
  purpose =
      "Inspect the fixed public product-search response with a predeclared percent-encoded special-character query; it does not modify target state.";
}

abbrev pub get_long_string : SafeRequestCase
get_long_string = record {
  case_id = "get-long-string";
  method = "GET";
  path = charter_search_path;
  query = "q=" ++ repeat 256 "a";
  body = "";
  headers = [];
  purpose =
      "Inspect the fixed public product-search response with a predeclared 256-character query value; it does not modify target state.";
}

abbrev pub post_empty_object : SafeRequestCase
post_empty_object = record {
  case_id = "post-empty-object";
  method = "POST";
  path = charter_basket_path;
  query = "";
  body = "{}";
  headers = ("Content-Type", "application/json") ∷ [];
  purpose =
      "Exercise the fixed unauthenticated empty-basket request; it is expected to return 4xx before a target-state change.";
}

abbrev pub post_wrong_type : SafeRequestCase
post_wrong_type = record {
  case_id = "post-wrong-type";
  method = "POST";
  path = charter_basket_path;
  query = "";
  body = "{\"quantity\":\"not-a-number\"}";
  headers = ("Content-Type", "application/json") ∷ [];
  purpose =
      "Exercise the fixed unauthenticated basket request with a predeclared wrong-type JSON value; it is expected to return 4xx before a target-state change.";
}

abbrev pub safe_request_cases : List SafeRequestCase
safe_request_cases =
    get_baseline ∷ get_empty ∷ get_special_characters ∷ get_long_string ∷ post_empty_object
    ∷ post_wrong_type ∷ []

-- SAFE_REQUEST_CASES.get(case_id): every case stands under its own `case_id`.
unfoldable pub case_by_id : String → List SafeRequestCase → Option SafeRequestCase
case_by_id i [] = none
case_by_id i (c ∷ cases) = if c.case_id == i then some c else case_by_id i cases

unfoldable pub safe_request_case : String → Checked SafeRequestCase
unfolding case_by_id
safe_request_case i = elim (case_by_id i safe_request_cases) [
  | none ↦ err outside_policy
  | some c ↦ ok c
]

unfoldable pub headers_eq : Headers → Headers → Bool
headers_eq [] [] = true
headers_eq ((k, v) ∷ h) ((j, w) ∷ g) = k == j && v == w && headers_eq h g
headers_eq _ _ = false

-- `value` is the argument, None by default. `urlsplit` of the constant origin passes its test.
unfoldable pub assert_exact_origin : Platform → Option String → Checked String
assert_exact_origin p value =
    if is_some value
    then err origin_immutable
    else if p.kong_proxy_set
    then err origin_immutable
    else ok charter_origin

-- The tuple of a spec's request fields equals that of a case.
unfoldable pub same_request : RequestSpec → SafeRequestCase → Bool
unfolding headers_eq
same_request spec c =
    spec.method == c.method
    && spec.path == c.path
    && spec.query == c.query
    && spec.body == c.body
    && headers_eq spec.headers c.headers

unfoldable pub purpose_for : RequestSpec → Option String
unfolding same_request case_by_id
purpose_for spec = elim (case_by_id spec.case_id safe_request_cases) [
  | none ↦ none
  | some c ↦ if same_request spec c then some c.purpose else none
]

abbrev pub is_finite : Expiry → Bool
is_finite (finite t) = true
is_finite _ = false

-- The tests of `validate_spec` after the purpose is known.
unfoldable pub spec_matches : Platform → RequestSpec → String → Bool
spec_matches p spec purpose =
    not (purpose == "")
    && spec.purpose == purpose
    && spec.origin == charter_origin
    && spec.policy_digest == p.sha256 policy
    && not (spec.request_id == "")
    && not (spec.run_id == "")
    && is_finite spec.expires_at

unfoldable pub check_purpose : Platform → RequestSpec → Option String → Checked Unit
unfolding spec_matches
check_purpose p spec none = err outside_policy
check_purpose p spec (some purpose) = require (spec_matches p spec purpose) outside_policy

unfoldable pub validate_spec : Platform → RequestSpec → Checked Unit
unfolding assert_exact_origin check_purpose
validate_spec p spec = do assert_exact_origin p none; check_purpose p spec (purpose_for spec)

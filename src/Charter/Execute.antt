-- ===== src/Charter/Execute.antt =====
-- agent/charter_requests.py: `execute`, the one path from an approval to the target. What goes out
-- over the network is a list of `Io` in the order of the calls; what comes back, the clock readings
-- and the responses' digests are arguments. A call is taken by itself: it is assumed that no other
-- opener of the file writes between its own store calls, that it does not crash, and that no store
-- call fails with a database error (or in the hook before the commit). Without that, a request
-- whose answer came back may stay dispatched or be made unknown by the next open; what holds then
-- is said of the histories of the store (Store/History.antt).
pub mod Stages
pub mod Network
pub mod Settled
use sentinel_security_platfo.Base.{
  ℕ, String, Bool, true, false, ◌&&◌, ◌||◌, Option, none, some, List, [], ◌∷◌, Result, ok, err,
  length, take, leb, ltb, ◌==◌, if◌then◌else◌,
}
use Prim.Native.String.{◌++◌}
use sentinel_security_platfo.Charter.Spec.{
  CharterRequestError, Checked, Headers, RequestSpec, CharterApproval, Platform, charter_origin,
  validate_spec, api_key_required, mint_failed, outcome_unknown, invalid_transport, over_cap,
  invalid_status, outside_response_policy,
}
use sentinel_security_platfo.Charter.Store.{
  RequestStore, terminalize_pre_target_failure, mark_unknown,
}
use sentinel_security_platfo.Charter.Store.Authorize.{authorize_prepare, dispatch_if_not_revoked}
use sentinel_security_platfo.Charter.Store.Settle.{terminalize_response, refuse_observed}
use sentinel_security_platfo.Charter.Guard.{
  Body, bytes, not_bytes, Counts, Scanner, ResponsePreview, accepted, quarantined,
  guard_response_preview,
}
use sentinel_security_platfo.Charter.Guard.Media.{Text}

abbrev pub response_cap : ℕ
response_cap = 65536

-- `type(status) is int`, and below zero or not.
pub data Status : Type 0 where
  int : ℕ → Status
  negative not_int : Status

-- What `transport.request` does: raise, return something else, or return an observation.
pub data Reply : Type 0 where
  raised not_an_observation : Reply
  observation : Status → Body → List Text → Reply

pub record Request : Type 0 where
  pub url : String
  pub method : String
  pub headers : Headers
  pub body : String

pub data Io : Type 0 where
  minted : Io
  sent : Request → Io

-- The dictionaries that `execute` returns.
pub data Receipt : Type 0 where
  post_receipt : String → ℕ → ℕ → String → Receipt
  preview_receipt : String → ℕ → ℕ → String → Text → Bool → Receipt
  quarantine_receipt : String → ℕ → ℕ → String → Counts → Receipt

-- The surroundings of one call: the guard's scanner, `_response_receipt` over the first
-- `response_cap` bytes (json.dumps and sha256), the clock readings and what the transport does.
pub record Executor : Type 0 where
  pub platform : Platform
  pub scanner : Scanner
  pub receipt_hash : String → Status → List ℕ → String
  pub api_key : String
  pub checked_at : ℕ
  pub authorized_at : ℕ
  pub dispatched_at : ℕ
  pub settled_at : ℕ
  pub mint : Option String
  pub reply : Reply

pub record Outcome : Type 0 where
  pub store : RequestStore
  pub result : Checked Receipt
  pub io : List Io

unfoldable pub response_receipt : Executor → String → Status → List ℕ → String
response_receipt x i status body = x.receipt_hash i status (take response_cap body)

-- headers | {key: value}
unfoldable pub set_header : String → String → Headers → Headers
set_header key value [] = (key, value) ∷ []
set_header key value ((k, v) ∷ rest) =
    if k == key then (k, value) ∷ rest else (k, v) ∷ set_header key value rest

unfoldable pub request_of : Executor → RequestSpec → String → Request
unfolding set_header
request_of x spec token = record {
  url = charter_origin ++ (spec.path ++ (if spec.query == "" then "" else "?" ++ spec.query));
  method = spec.method;
  headers = set_header "X-Sentinel-Request-ID" spec.request_id (
      set_header "X-Sentinel-API-Key" x.api_key
        (set_header "Authorization" ("Bearer " ++ token) spec.headers));
  body = spec.body;
}

-- `_status_matches_policy`
unfoldable pub status_matches_policy : String → Status → Bool
status_matches_policy method (int n) =
    (method == "GET" && (leb 200 n && ltb n 300)) || (method == "POST" && (leb 400 n && ltb n 500))
status_matches_policy method _ = false

abbrev pub preview_result : RequestSpec → ℕ → ℕ → String → ResponsePreview → Receipt
preview_result spec n size receipt (accepted preview truncated) =
    preview_receipt spec.request_id n size receipt preview truncated
preview_result spec n size receipt (quarantined reasons) =
    quarantine_receipt spec.request_id n size receipt reasons

-- After the response is settled: the status policy, and for a GET the guard.
unfoldable pub conclude : Executor → RequestSpec → Status → List ℕ → List Text → Checked Receipt
unfolding status_matches_policy response_receipt
conclude x spec (int n) body content_types =
    let receipt = response_receipt x spec.request_id (int n) body in
    if status_matches_policy spec.method (int n)
    then ok (
        if spec.method == "POST"
        then post_receipt spec.request_id n (length body) receipt
        else preview_result spec n (length body) receipt
            (guard_response_preview x.scanner (bytes body) content_types))
    else err outside_response_policy
conclude x spec negative body content_types = err outside_response_policy
conclude x spec not_int body content_types = err invalid_status

-- An action whose exception takes the place of what follows.
abbrev pub after : RequestStore × Checked Unit → List Io → Checked Receipt → Outcome
after (t, ok u) io result = record { store = t; result = result; io = io }
after (t, err e) io result = record { store = t; result = err e; io = io }

-- The response, or its absence, after the request went out.
unfoldable pub receive : Executor → RequestSpec → List Io → RequestStore → Reply → Outcome
unfolding mark_unknown terminalize_response conclude response_receipt
receive x spec io s raised =
    after (mark_unknown spec.request_id x.settled_at s) io (err outcome_unknown)
receive x spec io s not_an_observation =
    after (mark_unknown spec.request_id x.settled_at s) io (err invalid_transport)
receive x spec io s (observation status not_bytes content_types) =
    after (mark_unknown spec.request_id x.settled_at s) io (err over_cap)
receive x spec io s (observation status (bytes body) content_types) =
    if ltb response_cap (length body)
    then after (mark_unknown spec.request_id x.settled_at s) io (err over_cap)
    else after
        (terminalize_response spec.request_id (response_receipt x spec.request_id status body)
          x.settled_at s)
        io (conclude x spec status body content_types)

-- After the dispatch is durable: mint a token, and send the one request.
unfoldable pub send : Executor → RequestSpec → RequestStore → Option String → Outcome
unfolding terminalize_pre_target_failure receive request_of
send x spec s none =
    after (terminalize_pre_target_failure spec.request_id x.settled_at s) (minted ∷ [])
      (err mint_failed)
send x spec s (some token) = receive x spec (minted ∷ sent (request_of x spec token) ∷ []) s x.reply

-- The first action of two: where it raises, there is no second, and nothing goes out.
abbrev pub then_act : RequestStore × Checked Unit → (RequestStore → Outcome) → Outcome
then_act (t, ok u) next = next t
then_act (t, err e) next = record { store = t; result = err e; io = [] }

unfoldable pub act : Executor → RequestSpec → CharterApproval → RequestStore → Outcome
unfolding refuse_observed authorize_prepare dispatch_if_not_revoked send
act x spec a s = then_act (refuse_observed spec.request_id s) λ s₁.
    then_act (authorize_prepare x.platform spec a x.checked_at x.authorized_at s₁) λ s₂.
      then_act (dispatch_if_not_revoked spec.request_id x.dispatched_at s₂)
        λ s₃. send x spec s₃ x.mint

abbrev pub refuse : RequestStore → CharterRequestError → Outcome
refuse s e = record { store = s; result = err e; io = [] }

-- The whole of `execute`, with no other opener between its store calls and no store failure.
unfoldable pub execute : Executor → RequestSpec → CharterApproval → RequestStore → Outcome
unfolding act
execute x spec a s = elim (validate_spec x.platform spec) [
  | err e ↦ refuse s e
  | ok u ↦ if x.api_key == "" then refuse s api_key_required else act x spec a s
]

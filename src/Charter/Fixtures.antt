-- ===== src/Charter/Fixtures.antt =====
-- A platform, a spec with its approval, and an executor, for the tests of the charter path.
use sentinel_security_platfo.Base.{◌≡◌, refl, true, false, some, [], ◌∷◌, ok, codes, arith, ◌==◌}
use sentinel_security_platfo.Base.Table.{find}
use sentinel_security_platfo.Charter.Spec.{
  RequestSpec, finite, CharterApproval, Platform, charter_origin, policy, get_baseline,
  validate_spec, purpose_for, seconds,
}
use sentinel_security_platfo.Charter.Approval.{verify}
use sentinel_security_platfo.Charter.Store.{empty_store, find_request, is_revoked}
use sentinel_security_platfo.Charter.Store.Authorize.{has_nonce, recent_requests, has_post}
use sentinel_security_platfo.Charter.Store.Granting.{IsGranted}
use sentinel_security_platfo.Charter.Guard.{Scanner, bytes}
use sentinel_security_platfo.Charter.Execute.{Executor, int, observation}

abbrev pub platform : Platform
platform = record {
  kong_proxy_set = false;
  upper = λ s. s;
  sha256 = λ s. s;
  spec_json = λ s. s.request_id;
  approval_json = λ a. a.nonce;
  ed25519_verify = λ signature m. signature == m;
}

abbrev pub spec : RequestSpec
spec = record {
  request_id = "r1";
  run_id = "run";
  case_id = get_baseline.case_id;
  method = get_baseline.method;
  path = get_baseline.path;
  query = get_baseline.query;
  body = get_baseline.body;
  headers = get_baseline.headers;
  origin = charter_origin;
  policy_digest = policy;
  expires_at = finite (seconds 300);
  purpose = get_baseline.purpose;
}

abbrev pub approval : CharterApproval
approval = record {
  decision_id = "d1";
  decision = "approve";
  request_id = "r1";
  run_id = "run";
  spec_digest = "r1";
  policy_digest = policy;
  issued_at = 0;
  expires_at = seconds 300;
  nonce = "n1";
  signature = "n1";
}

pub spec-valid : validate_spec platform spec ≡ ok tt
unfolding validate_spec purpose_for
spec-valid = refl

pub approval-verifies : verify platform approval spec 1 ≡ true
unfolding verify
approval-verifies = refl

pub spec-IsGranted : IsGranted platform spec approval 1 2 empty_store
unfolding has_nonce find find_request is_revoked recent_requests has_post
spec-IsGranted = record {
  valid = spec-valid;
  verified = approval-verifies;
  fresh = refl;
  decision = refl;
  live = refl;
  in_time = refl;
  new = refl;
  room = omega arith;
  post = λ h. refl;
}

abbrev pub scanner : Scanner
scanner = record {
  decode = some;
  redact = λ t. (t, []);
  phone_shapes = λ t. 0;
  search = λ a t. false;
}

abbrev pub executor : Executor
executor = record {
  platform = platform;
  scanner = scanner;
  receipt_hash = λ i s b. i;
  api_key = "key";
  checked_at = 1;
  authorized_at = 2;
  dispatched_at = 3;
  settled_at = 4;
  mint = some "token";
  reply = observation (int 200) (bytes (codes "[]")) (codes "application/json; charset=utf-8" ∷ []);
}

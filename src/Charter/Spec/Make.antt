-- ===== src/Charter/Spec/Make.antt =====
-- agent/charter_requests.py: `make_spec`. The request id and the clock reading are arguments.
use Prim.Native.Nat.{Ordering}
use Prim.Native.String.{compare}
use sentinel_security_platfo.Base.{
  ℕ, ◌+◌, String, ◌≡◌, Bool, true, false, Option, none, some, List, [], ◌∷◌, ok, err, ◌>>=◌, ◌>>◌,
  ◌==◌, if◌then◌else◌, arith,
}
use sentinel_security_platfo.Charter.Spec.{
  Checked, Headers, SafeRequestCase, RequestSpec, finite, Platform, policy, safe_request_cases,
  outside_policy, same_request, purpose_for, assert_exact_origin, validate_spec, seconds,
}

-- `sorted` on pairs of texts: by the first, then by the second.
pair_le : String × String → String × String → Bool
pair_le (k, v) (j, w) = elim (compare k j) [
  | Ordering.lt ↦ true
  | Ordering.gt ↦ false
  | Ordering.eq ↦ elim (compare v w) [ Ordering.gt ↦ false | _ ↦ true ]
]

insert_sorted : String × String → Headers → Headers
unfolding pair_le
insert_sorted x [] = x ∷ []
insert_sorted x (y ∷ ys) = if pair_le x y then x ∷ (y ∷ ys) else y ∷ insert_sorted x ys

unfoldable pub sorted_headers : Headers → Headers
unfolding insert_sorted
sorted_headers [] = []
sorted_headers (x ∷ xs) = insert_sorted x (sorted_headers xs)

-- The arguments of `make_spec`.
pub record SpecArgs : Type 0 where
  pub run_id : String
  pub method : String
  pub path : String
  pub query : String
  pub body : String
  pub headers : Headers
  pub ttl : ℕ
  pub case_id : Option String

-- The first case whose request is the given one, "" if there is none.
unfoldable pub matching_case_id : RequestSpec → List SafeRequestCase → String
matching_case_id spec [] = ""
matching_case_id spec (c ∷ cases) =
    if same_request spec c then c.case_id else matching_case_id spec cases

-- The provisional spec, before its case and purpose are known.
unfoldable pub provisional_spec : Platform → SpecArgs → String → ℕ → String → RequestSpec
provisional_spec p a request_id now origin = record {
  request_id = request_id;
  run_id = a.run_id;
  case_id = "";
  method = p.upper a.method;
  path = a.path;
  query = a.query;
  body = a.body;
  headers = sorted_headers a.headers;
  origin = origin;
  policy_digest = p.sha256 policy;
  expires_at = finite (now + seconds a.ttl);
  purpose = "";
}

unfoldable pub chosen_case_id : Option String → RequestSpec → String
chosen_case_id (some i) spec = i
chosen_case_id none spec = matching_case_id spec safe_request_cases

unfoldable pub with_purpose : Platform → RequestSpec → Option String → Checked RequestSpec
with_purpose p spec none = err outside_policy
with_purpose p spec (some purpose) =
    if purpose == ""
    then err outside_policy
    else let spec' = record spec { purpose = purpose } in validate_spec p spec' >> ok spec'

unfoldable pub make_spec : Platform → SpecArgs → String → ℕ → Checked RequestSpec
make_spec p a request_id now = do
  origin ← assert_exact_origin p none
  let spec = provisional_spec p a request_id now origin
  let cased = record spec { case_id = chosen_case_id a.case_id spec }
  with_purpose p cased (purpose_for cased)

-- What `make_spec` returns has passed `validate_spec`, and differs from its arguments only by
-- what it derives.
pub record IsMade (p : Platform) (a : SpecArgs) (i : String) (now : ℕ) (s : RequestSpec)
    : Type 0 where
  pub valid : validate_spec p s ≡ ok tt
  pub request_id : s.request_id ≡ i
  pub run_id : s.run_id ≡ a.run_id
  pub method : s.method ≡ p.upper a.method
  pub path : s.path ≡ a.path
  pub query : s.query ≡ a.query
  pub body : s.body ≡ a.body
  pub headers : s.headers ≡ sorted_headers a.headers
  pub expires_at : s.expires_at ≡ finite (now + seconds a.ttl)

-- A spec that `make_spec` returns is valid, has the given id, run and request as its own, headers
-- sorted and method in upper case, and expires when the time to live is over.
pub make_spec-IsMade :
    (p : Platform) (a : SpecArgs) (i : String) (now : ℕ) (s : RequestSpec)
    → make_spec p a i now ≡ ok s
    → IsMade p a i now s
unfolding make_spec with_purpose provisional_spec
make_spec-IsMade p a i now s h = ground arith

-- ===== src/Charter/Spec/Validation.antt =====
-- What `validate_spec` accepts, and what a catalogue case can address.
use sentinel_security_platfo.Base.{
  String, ◌≡◌, refl, ◌≢◌, ◌↔◌, ◌⊎◌, inl, inr, true, false, none, some, List, [], ◌∷◌, ok, All,
  arith, ◌==◌, eq_iff, Option-cases, Bool-cases,
}
use mathlib.Core.Path.{subst}
use mathlib.Core.Option.{some-injective}
use sentinel_security_platfo.Charter.Spec.{
  Headers, SafeRequestCase, RequestSpec, Platform, charter_origin, policy, charter_search_path,
  charter_basket_path, safe_request_cases, case_by_id, headers_eq, same_request, purpose_for,
  spec_matches, validate_spec, is_finite,
}

headers_eq_iff : (h g : Headers) → (headers_eq h g ≡ true) ↔ (h ≡ g)
unfolding headers_eq
headers_eq_iff [] [] = ground arith
headers_eq_iff [] (x ∷ g) = ground arith
headers_eq_iff (x ∷ h) [] = ground arith
headers_eq_iff ((k, v) ∷ h) ((j, w) ∷ g) =
    ground (arith, headers_eq_iff h g, eq_iff k j, eq_iff v w)

-- The request fields of a spec are those of a case.
pub record SameRequest (spec : RequestSpec) (c : SafeRequestCase) : Type 0 where
  pub method : spec.method ≡ c.method
  pub path : spec.path ≡ c.path
  pub query : spec.query ≡ c.query
  pub body : spec.body ≡ c.body
  pub headers : spec.headers ≡ c.headers

pub same_request_iff :
    (spec : RequestSpec) (c : SafeRequestCase) → (same_request spec c ≡ true) ↔ SameRequest spec c
unfolding same_request
same_request_iff spec c = ground (
  arith,
  eq_iff spec.method c.method,
  eq_iff spec.path c.path,
  eq_iff spec.query c.query,
  eq_iff spec.body c.body,
  headers_eq_iff spec.headers c.headers,
)

-- What a spec must be to pass: the text of its case, the compiled origin and policy, ids that are
-- not empty, and a finite expiry; and no proxy override in the environment.
pub record IsAdmissible (p : Platform) (spec : RequestSpec) (c : SafeRequestCase) : Type 0 where
  pub no_override : p.kong_proxy_set ≡ false
  pub listed : case_by_id spec.case_id safe_request_cases ≡ some c
  pub request : SameRequest spec c
  pub stated : ¬ (c.purpose ≡ "")
  pub purpose : spec.purpose ≡ c.purpose
  pub origin : spec.origin ≡ charter_origin
  pub policy_digest : spec.policy_digest ≡ p.sha256 policy
  pub has_request_id : ¬ (spec.request_id ≡ "")
  pub has_run_id : ¬ (spec.run_id ≡ "")
  pub expiry : is_finite spec.expires_at ≡ true

module _ (p : Platform) (spec : RequestSpec) (c : SafeRequestCase) where
  matches_iff : (spec_matches p spec c.purpose ≡ true) ↔ (
      (¬ (c.purpose ≡ ""))
      × (spec.purpose ≡ c.purpose)
      × (spec.origin ≡ charter_origin)
      × (spec.policy_digest ≡ p.sha256 policy)
      × (¬ (spec.request_id ≡ ""))
      × (¬ (spec.run_id ≡ ""))
      × (is_finite spec.expires_at ≡ true))
  unfolding spec_matches
  matches_iff = ground (
    arith,
    eq_iff c.purpose "",
    eq_iff spec.purpose c.purpose,
    eq_iff spec.origin charter_origin,
    eq_iff spec.policy_digest (p.sha256 policy),
    eq_iff spec.request_id "",
    eq_iff spec.run_id "",
  )

  admits :
      validate_spec p spec ≡ ok tt
      → case_by_id spec.case_id safe_request_cases ≡ some c
      → IsAdmissible p spec c
  unfolding validate_spec purpose_for
  admits h l = ground (arith, matches_iff, same_request_iff spec c)

  -- An admissible spec passes.
  admissible-passes : IsAdmissible p spec c → validate_spec p spec ≡ ok tt
  unfolding validate_spec purpose_for
  admissible-passes a = ground (arith, matches_iff, same_request_iff spec c)

unlisted-fails :
    (p : Platform) (spec : RequestSpec)
    → case_by_id spec.case_id safe_request_cases ≡ none
    → validate_spec p spec ≢ ok tt
unfolding validate_spec purpose_for
unlisted-fails p spec e = ground arith

-- `validate_spec` accepts exactly the admissible specs: those that carry, field for field, the
-- request and the purpose of a catalogue case, under the compiled origin and policy digest, with
-- ids that are not empty and a finite expiry, and only while no proxy override is set.
pub validate_spec_iff :
    (p : Platform) (spec : RequestSpec)
    → (validate_spec p spec ≡ ok tt) ↔ ((c : SafeRequestCase) × IsAdmissible p spec c)
validate_spec_iff p spec = (
  λ h. elim (Option-cases (case_by_id spec.case_id safe_request_cases)) [
    | inl e ↦ absurd (unlisted-fails p spec e h)
    | inr (c, e) ↦ (c, admits p spec c h e)
  ],
  λ (c, a). admissible-passes p spec c a,
)

-- A request that reads the public search, or one that posts to the basket.
abbrev pub IsCharterTarget : String → String → String → String → Type 0
IsCharterTarget method path query body =
    ((method ≡ "GET") × (path ≡ charter_search_path) × (body ≡ ""))
    ⊎ ((method ≡ "POST") × (path ≡ charter_basket_path) × (query ≡ ""))

abbrev CaseTarget : SafeRequestCase → Type 0
CaseTarget c = IsCharterTarget c.method c.path c.query c.body

case_by_id-All :
    (P : SafeRequestCase → Type 0) (i : String) (c : SafeRequestCase) (cases : List SafeRequestCase)
    → All P cases
    → case_by_id i cases ≡ some c
    → P c
unfolding case_by_id
case_by_id-All P i c [] h e = cc
case_by_id-All P i c (x ∷ cases) (hx, h) e = elim (Bool-cases (x.case_id == i)) [
  | inl same ↦ subst P (some-injective _ _ (rw same at e)) hx
  | inr differ ↦ case_by_id-All P i c cases h (rw differ at e)
]

catalogue-targets : All CaseTarget safe_request_cases
catalogue-targets = (
  inl (refl, refl, refl),
  (
    inl (refl, refl, refl),
    (
      inl (refl, refl, refl),
      (inl (refl, refl, refl), (inr (refl, refl, refl), (inr (refl, refl, refl), tt))),
    ),
  ),
)

same_target :
    (spec : RequestSpec) (c : SafeRequestCase)
    → SameRequest spec c
    → CaseTarget c
    → IsCharterTarget spec.method spec.path spec.query spec.body
same_target spec c s t = rw (s.method, s.path, s.query, s.body) t

-- A spec that `validate_spec` accepts is a body-less GET of the search path or a query-less POST
-- to the basket path, whatever its other fields.
pub validate_spec-target :
    (p : Platform) (spec : RequestSpec)
    → validate_spec p spec ≡ ok tt
    → IsCharterTarget spec.method spec.path spec.query spec.body
validate_spec-target p spec h =
    let (c, a) = (validate_spec_iff p spec).0 h in
    same_target spec c a.request
      (case_by_id-All CaseTarget spec.case_id c safe_request_cases catalogue-targets a.listed)

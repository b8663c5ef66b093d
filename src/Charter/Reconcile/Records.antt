-- ===== src/Charter/Reconcile/Records.antt =====
-- Which records of the audit log are the executor's own records of a request.
use sentinel_security_platfo.Base.{
  String, false, ap, All, ◌++◌, eq_iff, ◌≡◌, refl, inl, inr, true, List, [], ◌∷◌, arith, Bool-cases,
}
use sentinel_security_platfo.Charter.Store.{RequestRow}
use sentinel_security_platfo.Charter.Reconcile.{
  KongRecord, executor_consumer, is_candidate, candidates,
}

-- The executor's own record of the request: its consumer, id, method, path and query.
pub record IsOf (i : String) (r : RequestRow) (k : KongRecord) : Type 0 where
  pub consumer : k.consumer ≡ "sentinel-charter-executor"
  pub id : k.request_id ≡ i
  pub method : k.method ≡ r.method
  pub path : k.path ≡ r.path
  pub query : k.query ≡ r.query

abbrev pub IsOther : String → RequestRow → KongRecord → Type 0
IsOther i r k = ¬ IsOf i r k

is_candidate-IsOf :
    (i : String) (r : RequestRow) (k : KongRecord) → is_candidate i r k ≡ true → IsOf i r k
unfolding is_candidate
is_candidate-IsOf i r k h = record {
  consumer = ground (arith, eq_iff k.consumer executor_consumer);
  id = ground (arith, eq_iff k.request_id i);
  method = ground (arith, eq_iff k.method r.method);
  path = ground (arith, eq_iff k.path r.path);
  query = ground (arith, eq_iff k.query r.query);
}

IsOf-is_candidate :
    (i : String) (r : RequestRow) (k : KongRecord) → IsOf i r k → is_candidate i r k ≡ true
unfolding is_candidate
IsOf-is_candidate i r k h =
    rw
      (
        (eq_iff k.request_id i).1 h.id,
        (eq_iff k.consumer executor_consumer).1 h.consumer,
        (eq_iff k.method r.method).1 h.method,
        (eq_iff k.path r.path).1 h.path,
        (eq_iff k.query r.query).1 h.query,
      )
      refl

not_of : (i : String) (r : RequestRow) (k : KongRecord) → is_candidate i r k ≡ false → IsOther i r k
not_of i r k e h = let kept = IsOf-is_candidate i r k h in ground (arith, e, kept)

-- The log has one such record, between others.
pub record IsOnly (i : String) (r : RequestRow) (k : KongRecord) (records : List KongRecord)
    : Type 0 where
  pub before : List KongRecord
  pub after : List KongRecord
  pub log : records ≡ before ++ (k ∷ after)
  pub others_before : All (IsOther i r) before
  pub matches : IsOf i r k
  pub others_after : All (IsOther i r) after

no_candidates :
    (i : String) (r : RequestRow) (records : List KongRecord)
    → candidates i r records ≡ []
    → All (IsOther i r) records
unfolding candidates
no_candidates i r [] h = tt
no_candidates i r (k ∷ records) h = elim (Bool-cases (is_candidate i r k)) [
  | inl e ↦ absurd (ground (arith, e, h))
  | inr e ↦ (not_of i r k e, no_candidates i r records (rw e at h))
]

same_cons : {k j : KongRecord} {xs ys : List KongRecord} → k ∷ xs ≡ j ∷ ys → (k ≡ j) × (xs ≡ ys)
same_cons h = ground (arith, h)

pub one_candidate :
    (i : String) (r : RequestRow) (k : KongRecord) (records : List KongRecord)
    → candidates i r records ≡ k ∷ []
    → IsOnly i r k records
unfolding candidates
one_candidate i r k [] h = cc
one_candidate i r k (j ∷ records) h = elim (Bool-cases (is_candidate i r j)) [
  | inl e ↦
      let (same, rest) = same_cons (rw e at h) in
      record {
        before = [];
        after = records;
        log = ap (λ z. z ∷ records) same;
        others_before = tt;
        matches = is_candidate-IsOf i r k (rw (← same) e);
        others_after = no_candidates i r records rest;
      }
  | inr e ↦
      let inner = one_candidate i r k records (rw e at h) in
      record {
        before = j ∷ inner.before;
        after = inner.after;
        log = ap (λ z. j ∷ z) inner.log;
        others_before = (not_of i r j e, inner.others_before);
        matches = inner.matches;
        others_after = inner.others_after;
      }
]

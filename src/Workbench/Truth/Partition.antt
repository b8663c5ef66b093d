-- ===== src/Workbench/Truth/Partition.antt =====
-- Every proposal is counted once, and no vulnerability is recalled twice.
use sentinel_security_platfo.Base.{
  ℕ, ◌+◌, String, ◌≡◌, refl, ◌∙◌, inl, inr, true, false, ◌||◌, Option, none, some, List, [], ◌∷◌,
  ◌++◌, ok, any, length, length-append, arith, ◌==◌, eq_iff, Bool-cases, nat_eq,
}
use sentinel_security_platfo.Base.Table.{find}
use sentinel_security_platfo.Workbench.Truth.Places.{
  first_hits, is_clear, is_unseen, keep, lies_at, repeated_hits, tally_units-IsPlaced,
}
use sentinel_security_platfo.Workbench.Egress.{all_distinct}
use sentinel_security_platfo.Workbench.Truth.{
  TruthManifest, TruthMatchResult, is_in, Entry, unit_key, Tally, no_tally, tally_unit, tally_units,
  index_defects, is_scorable, match_worklist,
}

abbrev total : Tally → ℕ
total t = length t.recalled + length t.duplicates + length t.negatives + length t.unmeasured

total-tally_unit :
    (truth : TruthManifest) (u : String) (o : Option Entry) (t : Tally)
    → total (tally_unit truth u o t) ≡ total t + 1
unfolding tally_unit
total-tally_unit truth u (some e) t = elim (Bool-cases (is_in t.claimed e.vulnerability)) [
  | inl again ↦ rw again (omega (arith, length-append t.duplicates (u ∷ [])))
  | inr first ↦ rw first (omega (arith, length-append t.recalled (e.vulnerability ∷ [])))
]
total-tally_unit truth u none t = elim (Bool-cases (is_in truth.negative_universe_unit_ids u)) [
  | inl negative ↦ rw negative (omega (arith, length-append t.negatives (u ∷ [])))
  | inr unseen ↦ rw unseen (omega (arith, length-append t.unmeasured (u ∷ [])))
]

total-tally_units :
    (truth : TruthManifest) (entries : List Entry) (units : List String) (t : Tally)
    → total (tally_units truth entries units t) ≡ total t + length units
unfolding tally_units
total-tally_units truth entries [] t = omega arith
total-tally_units truth entries (u ∷ units) t = omega (
  arith,
  total-tally_units truth entries units (tally_unit truth u (find unit_key u entries) t),
  total-tally_unit truth u (find unit_key u entries) t,
)

-- The recalled ids are distinct and are the claimed ones.
abbrev IsFair : Tally → Type 0
IsFair t =
    (all_distinct t.recalled ≡ true) × ((v : String) → is_in t.recalled v ≡ is_in t.claimed v)

is_in-snoc : (xs : List String) (x v : String) → is_in (xs ++ (x ∷ [])) v ≡ (is_in xs v || x == v)
unfolding is_in any
is_in-snoc [] x v = ground arith
is_in-snoc (y ∷ xs) x v = ground (arith, is_in-snoc xs x v)

all_distinct-snoc :
    (xs : List String) (x : String)
    → all_distinct xs ≡ true
    → is_in xs x ≡ false
    → all_distinct (xs ++ (x ∷ [])) ≡ true
unfolding all_distinct is_in any
all_distinct-snoc [] x h new = refl
all_distinct-snoc (y ∷ xs) x h new =
    ground (arith, all_distinct-snoc xs x, is_in-snoc xs x y, eq_iff x y, eq_iff y x)

tally_unit-IsFair :
    (truth : TruthManifest) (u : String) (o : Option Entry) (t : Tally)
    → IsFair t
    → IsFair (tally_unit truth u o t)
unfolding tally_unit is_in any
tally_unit-IsFair truth u (some e) t h = elim (Bool-cases (is_in t.claimed e.vulnerability)) [
  | inl again ↦ rw again h
  | inr first ↦ rw first (
    all_distinct-snoc t.recalled e.vulnerability h.0 (h.1 e.vulnerability ∙ first),
    λ v. ground (arith, is_in-snoc t.recalled e.vulnerability v, h.1 v),
  )
]
tally_unit-IsFair truth u none t h = elim (Bool-cases (is_in truth.negative_universe_unit_ids u)) [
  | inl negative ↦ rw negative h
  | inr unseen ↦ rw unseen h
]

no_tally-IsFair : IsFair no_tally
unfolding all_distinct is_in any
no_tally-IsFair = (refl, λ v. refl)

tally_units-IsFair :
    (truth : TruthManifest) (entries : List Entry) (units : List String) (t : Tally)
    → IsFair t
    → IsFair (tally_units truth entries units t)
unfolding tally_units
tally_units-IsFair truth entries [] t h = h
tally_units-IsFair truth entries (u ∷ units) t h =
    tally_units-IsFair truth entries units (tally_unit truth u (find unit_key u entries) t)
      (tally_unit-IsFair truth u (find unit_key u entries) t h)

no_claims : (truth : TruthManifest) (v : String) → is_in [] v ≡ any (lies_at truth v) []
unfolding is_in any
no_claims truth v = refl

-- The result of a worklist that is scored, of the final tally.
abbrev scored : TruthManifest → List String → Tally → TruthMatchResult
scored truth proposals t = record {
  recalled_vulnerability_ids = t.recalled;
  duplicate_unit_ids = t.duplicates;
  adjudicated_negative_unit_ids = t.negatives;
  not_measured_unit_ids = t.unmeasured;
  recall_at_12 = (length t.recalled, length truth.defects);
  precision_at_12 = (length t.recalled, length proposals);
}

match_worklist-tally :
    (truth : TruthManifest) (proposals admitted : List String) (r : TruthMatchResult)
    → match_worklist truth proposals admitted ≡ ok r
    → scored truth proposals (tally_units truth (index_defects truth.defects []) proposals no_tally)
      ≡ r
unfolding match_worklist
match_worklist-tally truth proposals admitted r h =
    elim (Bool-cases (is_scorable proposals admitted)) [
      | inr e ↦ absurd (ground (arith, e, h))
      | inl e ↦ elim (Bool-cases (nat_eq (length truth.defects) 0)) [
        | inl f ↦ absurd (ground (arith, e, f, h))
        | inr f ↦ ground (arith, rw (e, f) at h)
      ]
    ]

-- Where each proposal of a scored worklist goes: the recalled ids are the vulnerabilities at which a
-- proposal lies and none before it does, the duplicates are the proposals that lie at one at which
-- one before them lies, and a proposal at none is a negative if the negative universe has it, and
-- else not measured, all in the order of the proposals. No vulnerability is recalled twice, and
-- each proposal is counted once.
pub match_worklist-ok :
    (truth : TruthManifest) (proposals admitted : List String) (r : TruthMatchResult)
    → match_worklist truth proposals admitted ≡ ok r
    → (r.recalled_vulnerability_ids ≡ first_hits truth [] proposals)
      × (r.duplicate_unit_ids ≡ repeated_hits truth [] proposals)
      × (r.adjudicated_negative_unit_ids ≡ keep (is_clear truth) proposals)
      × (r.not_measured_unit_ids ≡ keep (is_unseen truth) proposals)
      × (all_distinct r.recalled_vulnerability_ids ≡ true)
      × (length r.recalled_vulnerability_ids
            + length r.duplicate_unit_ids
            + length r.adjudicated_negative_unit_ids
            + length r.not_measured_unit_ids
          ≡ length proposals)
match_worklist-ok truth proposals admitted r h =
    let entries = index_defects truth.defects [] in
    let counted = total-tally_units truth entries proposals no_tally in
    let fair = tally_units-IsFair truth entries proposals no_tally no_tally-IsFair in
    let (a, b, c, d) = tally_units-IsPlaced truth [] proposals no_tally (no_claims truth) in
    let shape = match_worklist-tally truth proposals admitted r h in
    rw (← shape) (a, b, c, d, fair.0, omega (arith, counted))

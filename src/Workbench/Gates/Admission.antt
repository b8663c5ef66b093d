-- ===== src/Workbench/Gates/Admission.antt =====
-- What admission for the catalogue takes.
use sentinel_security_platfo.Base.{
  ℕ, ◌≤◌, String, ◌≡◌, refl, ◌↔◌, inl, inr, Bool, true, false, not, ◌&&◌, List, [], ◌∷◌, Result, ok,
  length, ltb, arith, Bool-cases,
}
use mathlib.Core.Path.{subst}
use sentinel_security_platfo.Base.Json.{
  Json, null, boolean, int, negative, float, string, array, object, Fields, get, is_in, is_string,
  items,
}
use sentinel_security_platfo.Workbench.Selection.{is_distinct}
use sentinel_security_platfo.Workbench.Gates.{
  Files, Gate, GateResult, evidence_of, gate_calibration, gate_cluster_count, gate_contamination,
  gate_control_audit, gate_license, gate_truth, minimum_clusters,
}
use sentinel_security_platfo.Workbench.Gates.Ledger.{
  AdmissionLedger, CorpusGateViolation, candidates, evaluate_inventory_admission, judge_entries,
  gate_results, has_cluster_gate, ledger_of, no_gates, open_gates, remaining, sorted_set,
}
use sentinel_security_platfo.Workbench.Gates.Criteria.{
  HasTruth, HasLicense, HasScreen, HasControls, HasCalibration, Has, truth_iff, license_iff,
  screen_iff, controls_iff, calibration_iff,
}
use sentinel_security_platfo.Workbench.Gates.Clusters.{sorted_set-is_in, sorted_set-is_distinct}

open_gates-cons :
    (r : GateResult) (rs : List GateResult)
    → no_gates (open_gates (r ∷ rs)) ≡ (r.passed && no_gates (open_gates rs))
unfolding open_gates
open_gates-cons r rs = elim (Bool-cases r.passed) [
  | inl e ↦ rw (open_gates, e) refl
  | inr e ↦ rw (open_gates, e) refl
]

remaining-none :
    (n : ℕ) (gs : List Gate)
    → no_gates (remaining n gs) ≡ (not (ltb n minimum_clusters) && no_gates gs)
unfolding remaining has_cluster_gate
remaining-none n [] = elim (Bool-cases (ltb n minimum_clusters)) [
  | inl e ↦ rw (remaining, e) refl
  | inr e ↦ rw (remaining, e) refl
]
remaining-none n (g ∷ gs) =
    elim (Bool-cases (ltb n minimum_clusters && not (has_cluster_gate (g ∷ gs)))) [
      | inl e ↦ rw (remaining, e) ground arith
      | inr e ↦ rw (remaining, e) ground arith
    ]

cluster_count_iff :
    (f : Files) (n : ℕ) → ((gate_cluster_count f n).passed ≡ true) ↔ (minimum_clusters ≤ n)
unfolding gate_cluster_count
cluster_count_iff f n = ground arith

-- What admission takes: evidence that satisfies each gate, and the clusters.
abbrev pub IsAdmissible : Files → Fields → ℕ → Type 0
IsAdmissible f evidence n =
    Has (HasTruth f) (evidence_of (get "truth" evidence))
    × Has HasLicense (evidence_of (get "license_authorship" evidence))
    × Has (HasScreen f) (evidence_of (get "contamination" evidence))
    × Has HasControls (evidence_of (get "control_audit" evidence))
    × Has HasCalibration (evidence_of (get "calibration" evidence))
    × (minimum_clusters ≤ n)

open_gates-nil : no_gates (open_gates []) ≡ true
unfolding open_gates
open_gates-nil = refl

six_passed :
    (a b c d e k : GateResult)
    → (no_gates (open_gates (a ∷ b ∷ c ∷ d ∷ e ∷ k ∷ [])) ≡ true) ↔ (
        (a.passed ≡ true)
        × (b.passed ≡ true)
        × (c.passed ≡ true)
        × (d.passed ≡ true)
        × (e.passed ≡ true)
        × (k.passed ≡ true))
six_passed a b c d e k =
    rw
      (
        open_gates-cons a (b ∷ c ∷ d ∷ e ∷ k ∷ []),
        open_gates-cons b (c ∷ d ∷ e ∷ k ∷ []),
        open_gates-cons c (d ∷ e ∷ k ∷ []),
        open_gates-cons d (e ∷ k ∷ []),
        open_gates-cons e (k ∷ []),
        open_gates-cons k [],
        open_gates-nil,
      )
      ground arith

gate_results_iff :
    (f : Files) (evidence : Fields) (n : ℕ)
    → (no_gates (open_gates (gate_results f evidence n)) ≡ true) ↔ IsAdmissible f evidence n
unfolding gate_results
gate_results_iff f evidence n =
    let a = gate_truth f (evidence_of (get "truth" evidence)) in
    let b = gate_license f (evidence_of (get "license_authorship" evidence)) in
    let c = gate_contamination f (evidence_of (get "contamination" evidence)) in
    let d = gate_control_audit f (evidence_of (get "control_audit" evidence)) in
    let e = gate_calibration (evidence_of (get "calibration" evidence)) in
    let k = gate_cluster_count f n in
    let six = six_passed a b c d e k in
    (
      λ h.
          let (p, q, r, s, t, u) = six.0 h in
          (
            (truth_iff f (evidence_of (get "truth" evidence))).0 p,
            (license_iff f (evidence_of (get "license_authorship" evidence))).0 q,
            (screen_iff f (evidence_of (get "contamination" evidence))).0 r,
            (controls_iff f (evidence_of (get "control_audit" evidence))).0 s,
            (calibration_iff (evidence_of (get "calibration" evidence))).0 t,
            (cluster_count_iff f n).0 u,
          ),
      λ (p, q, r, s, t, u). six.1 (
        (truth_iff f (evidence_of (get "truth" evidence))).1 p,
        (license_iff f (evidence_of (get "license_authorship" evidence))).1 q,
        (screen_iff f (evidence_of (get "contamination" evidence))).1 r,
        (controls_iff f (evidence_of (get "control_audit" evidence))).1 s,
        (calibration_iff (evidence_of (get "calibration" evidence))).1 t,
        (cluster_count_iff f n).1 u,
      ),
    )

with_enough : (a b : Bool) → a ≡ false → b ≡ true → (not a && b) ≡ true
with_enough a b h g = ground arith

both_right : (a b : Bool) → (a && b) ≡ true → b ≡ true
both_right a b h = ground arith

-- The decision of a ledger, by the evidence and the candidates' clusters.
abbrev pub Judges : Files → Fields → List String → AdmissionLedger → Type 0
Judges f evidence names ledger =
    ((ledger.admitted ≡ true) ↔ IsAdmissible f evidence (length ledger.repository_clusters))
    × ((ledger.admitted ≡ true) ↔ (no_gates ledger.remaining_gates ≡ true))
    × ((x : String) → is_in x ledger.repository_clusters ≡ is_in x names)
    × (is_distinct ledger.repository_clusters ≡ true)

ledger_of-Judges :
    (f : Files) (evidence : Fields) (names : List String)
    → Judges f evidence names (ledger_of f evidence names)
unfolding ledger_of
ledger_of-Judges f evidence names =
    let n : ℕ = length (sorted_set names) in
    let gates : List Gate = open_gates (gate_results f evidence n) in
    let all_six : (no_gates gates ≡ true) ↔ IsAdmissible f evidence n =
      gate_results_iff f evidence n in
    let enough : no_gates gates ≡ true → ltb n minimum_clusters ≡ false =
      λ h. let (_, _, _, _, _, u) = all_six.0 h in ground (arith, u) in
    (
      (
        λ h. all_six.0 (both_right (not (ltb n minimum_clusters)) (no_gates gates) h),
        λ h.
            let closed = all_six.1 h in
            with_enough (ltb n minimum_clusters) (no_gates gates) (enough closed) closed,
      ),
      (λ h. rw (remaining-none n gates) h, λ h. rw (← remaining-none n gates) h),
      λ x. sorted_set-is_in x names,
      sorted_set-is_distinct names,
    )

abbrev entries_in : Json → List Json
entries_in (array entries) = items entries
entries_in _ = []

abbrev pub entries_of : Json → List Json
entries_of (object document) = entries_in (get "entries" document)
entries_of _ = []

same_ledger :
    (a b : AdmissionLedger)
    → Path (Result CorpusGateViolation AdmissionLedger) (ok a) (ok b)
    → a ≡ b
same_ledger a b h = ground (arith, h)

judge_entries-Judges :
    (f : Files) (evidence : Fields) (v : Json) (ledger : AdmissionLedger)
    → judge_entries f evidence v ≡ ok ledger
    → Judges f evidence (candidates (entries_in v)) ledger
unfolding judge_entries
judge_entries-Judges f evidence (array entries) ledger h =
    let same : ledger_of f evidence (candidates (items entries)) ≡ ledger =
      same_ledger (ledger_of f evidence (candidates (items entries))) ledger h in
    subst (Judges f evidence (candidates (items entries))) same
      (ledger_of-Judges f evidence (candidates (items entries)))
judge_entries-Judges f evidence null ledger h = cc
judge_entries-Judges f evidence (boolean b) ledger h = cc
judge_entries-Judges f evidence (int n) ledger h = cc
judge_entries-Judges f evidence (negative n) ledger h = cc
judge_entries-Judges f evidence (float x) ledger h = cc
judge_entries-Judges f evidence (string t) ledger h = cc
judge_entries-Judges f evidence (object fs) ledger h = cc

-- The ledger of an inventory that is judged at all admits it exactly if the evidence for the truth
-- manifest, the license and authorship, the contamination screen, the control audit and the
-- calibration satisfies each gate's criterion and the candidates come from at least 20 different
-- clusters, and exactly then no gate remains. Its clusters are those of the candidates, each once.
pub evaluate_inventory_admission-Judges :
    (f : Files) (document : Json) (evidence : Fields) (ledger : AdmissionLedger)
    → evaluate_inventory_admission f document evidence ≡ ok ledger
    → Judges f evidence (candidates (entries_of document)) ledger
unfolding evaluate_inventory_admission
evaluate_inventory_admission-Judges f (object document) evidence ledger h =
    elim (Bool-cases (
      is_string "sentinel-workbench-candidate-corpus-inventory/v1"
        (get "schema_version" document))) [
          | inl e ↦
              judge_entries-Judges f evidence (get "entries" document) ledger (ground (arith, e, h))
          | inr e ↦ absurd (ground (arith, e, h))
        ]
evaluate_inventory_admission-Judges f null evidence ledger h = cc
evaluate_inventory_admission-Judges f (boolean b) evidence ledger h = cc
evaluate_inventory_admission-Judges f (int n) evidence ledger h = cc
evaluate_inventory_admission-Judges f (negative n) evidence ledger h = cc
evaluate_inventory_admission-Judges f (float x) evidence ledger h = cc
evaluate_inventory_admission-Judges f (string t) evidence ledger h = cc
evaluate_inventory_admission-Judges f (array xs) evidence ledger h = cc

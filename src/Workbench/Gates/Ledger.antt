-- ===== src/Workbench/Gates/Ledger.antt =====
-- workbench/corpus_gates.py: `evaluate_inventory_admission`, the admission ledger of an inventory.
use Prim.Native.Nat.{Ordering}
use Prim.Native.String.{compare}
use sentinel_security_platfo.Base.{
  ℕ, String, Bool, true, false, not, ◌&&◌, ◌||◌, Option, none, some, List, [], ◌∷◌, ◌++◌, Result,
  ok, err, length, ltb, if◌then◌else◌,
}
use sentinel_security_platfo.Base.Json.{
  Json, string, array, object, Fields, get, is_in, is_string, items,
}
use sentinel_security_platfo.Workbench.Gates.{
  Files, Gate, GateResult, cluster_count, evidence_of, gate_calibration, gate_cluster_count,
  gate_contamination, gate_control_audit, gate_license, gate_truth, minimum_clusters,
}

pub data CorpusGateViolation : Type 0 where
  not_an_object unsupported_schema no_entries : CorpusGateViolation

-- The string of a repository cluster, when the entry is a candidate.
unfoldable cluster_of : Fields → Fields → Option String
unfolding get is_string
cluster_of entry source = elim (get "repository_cluster" entry) [
  | string name ↦
      if is_string "candidate-needs-adjudication" (get "state" source) then some name else none
  | _ ↦ none
]

unfoldable candidate_of : Json → Option String
unfolding cluster_of get
candidate_of (object entry) = elim (get "source_evidence" entry) [
  | object source ↦ cluster_of entry source
  | _ ↦ none
]
candidate_of _ = none

-- The clusters of the candidates, one for each.
unfoldable pub candidates : List Json → List String
unfolding candidate_of
candidates [] = []
candidates (v ∷ vs) =
    let rest = candidates vs in elim (candidate_of v) [ none ↦ rest | some name ↦ name ∷ rest ]

abbrev is_before : String → String → Bool
is_before x y = elim (compare x y) [ Ordering.lt ↦ true | _ ↦ false ]

unfoldable pub insert : String → List String → List String
insert x [] = x ∷ []
insert x (y ∷ ys) = let rest = insert x ys in if is_before x y then x ∷ y ∷ ys else y ∷ rest

-- `sorted({...})`
unfoldable pub sorted_set : List String → List String
unfolding insert is_in
sorted_set [] = []
sorted_set (x ∷ xs) = let rest = sorted_set xs in if is_in x rest then rest else insert x rest

-- The gates, in the order of the ledger; the evidence of each is looked up by its name.
unfoldable pub gate_results : Files → Fields → ℕ → List GateResult
unfolding get evidence_of gate_truth gate_license gate_contamination gate_control_audit
    gate_calibration gate_cluster_count
gate_results f evidence n =
    gate_truth f (evidence_of (get "truth" evidence))
    ∷ gate_license f (evidence_of (get "license_authorship" evidence))
    ∷ gate_contamination f (evidence_of (get "contamination" evidence))
    ∷ gate_control_audit f (evidence_of (get "control_audit" evidence))
    ∷ gate_calibration (evidence_of (get "calibration" evidence))
    ∷ gate_cluster_count f n
    ∷ []

unfoldable pub open_gates : List GateResult → List Gate
open_gates [] = []
open_gates (r ∷ rs) = let rest = open_gates rs in if r.passed then rest else r.gate ∷ rest

abbrev is_cluster_gate : Gate → Bool
is_cluster_gate cluster_count = true
is_cluster_gate _ = false

unfoldable pub has_cluster_gate : List Gate → Bool
has_cluster_gate [] = false
has_cluster_gate (g ∷ gs) = is_cluster_gate g || has_cluster_gate gs

abbrev pub no_gates : List Gate → Bool
no_gates [] = true
no_gates (g ∷ gs) = false

-- The gate of the cluster count is open below the minimum, whatever the results say.
unfoldable pub remaining : ℕ → List Gate → List Gate
unfolding has_cluster_gate
remaining n gates =
    if ltb n minimum_clusters && not (has_cluster_gate gates)
    then gates ++ cluster_count ∷ []
    else gates

-- The ledger; its decision and its comparative status are two texts for `admitted`.
pub record AdmissionLedger : Type 0 where
  pub admitted : Bool
  pub candidate_count : ℕ
  pub repository_clusters : List String
  pub gates : List GateResult
  pub remaining_gates : List Gate

unfoldable pub ledger_of : Files → Fields → List String → AdmissionLedger
unfolding sorted_set gate_results open_gates remaining
ledger_of f evidence names =
    let clusters = sorted_set names in
    let n = length clusters in
    let results = gate_results f evidence n in
    let gates = open_gates results in
    record {
      admitted = not (ltb n minimum_clusters) && no_gates gates;
      candidate_count = length names;
      repository_clusters = clusters;
      gates = results;
      remaining_gates = remaining n gates;
    }

unfoldable pub judge_entries : Files → Fields → Json → Result CorpusGateViolation AdmissionLedger
unfolding ledger_of candidates
judge_entries f evidence (array entries) = ok (ledger_of f evidence (candidates (items entries)))
judge_entries f evidence _ = err no_entries

unfoldable pub evaluate_inventory_admission :
    Files → Json → Fields → Result CorpusGateViolation AdmissionLedger
unfolding judge_entries is_string get
evaluate_inventory_admission f (object document) evidence =
    if is_string "sentinel-workbench-candidate-corpus-inventory/v1" (get "schema_version" document)
    then judge_entries f evidence (get "entries" document)
    else err unsupported_schema
evaluate_inventory_admission f _ evidence = err not_an_object

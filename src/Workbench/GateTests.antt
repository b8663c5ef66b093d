-- ===== src/Workbench/GateTests.antt =====
-- The admission ledger of an inventory without enough clusters.
use sentinel_security_platfo.Base.{String, ◌≡◌, refl, false, none, [], ◌∷◌, ok}
use sentinel_security_platfo.Base.Json.{
  Json, array, end_fields, end_items, field, item, object, string,
}
use sentinel_security_platfo.Workbench.Gates.{Files}
use sentinel_security_platfo.Workbench.Gates.Ledger.{
  AdmissionLedger, candidates, evaluate_inventory_admission, ledger_of,
}
use sentinel_security_platfo.Workbench.Gates.Admission.{
  Judges, entries_of, evaluate_inventory_admission-Judges,
}

abbrev no_files : Files
no_files = record {
  is_regular = λ p. false;
  document = λ p. none;
  file_digest = λ p. p;
  canonical_digest = λ v. "";
}

abbrev entry : String → Json
entry cluster = object (
    field "source_evidence"
      (object (field "state" (string "candidate-needs-adjudication") end_fields))
      (field "repository_cluster" (string cluster) end_fields))

abbrev inventory : Json
inventory = object (
    field "schema_version" (string "sentinel-workbench-candidate-corpus-inventory/v1") (
      field "entries" (array (item (entry "b") (item (entry "a") (item (entry "b") end_items))))
        end_fields))

abbrev ledger : AdmissionLedger
ledger = ledger_of no_files end_fields ("b" ∷ "a" ∷ "b" ∷ [])

clusters-sorted : ledger.repository_clusters ≡ "a" ∷ "b" ∷ []
unfolding ledger_of
clusters-sorted = refl

inventory-judged : evaluate_inventory_admission no_files inventory end_fields ≡ ok ledger
unfolding evaluate_inventory_admission
inventory-judged = refl

evaluate_inventory_admission-Judges_example :
    Judges no_files end_fields (candidates (entries_of inventory)) ledger
evaluate_inventory_admission-Judges_example =
    evaluate_inventory_admission-Judges no_files inventory end_fields ledger inventory-judged

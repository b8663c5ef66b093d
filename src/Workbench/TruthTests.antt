-- ===== src/Workbench/TruthTests.antt =====
-- A truth manifest that is admitted, and two that are not.
use sentinel_security_platfo.Base.{String, ◌≡◌, refl, true, [], ◌∷◌, ok, err}
use sentinel_security_platfo.Base.Json.{
  Json, Fields, Items, array, boolean, end_fields, end_items, field, item, object, string,
}
use sentinel_security_platfo.Workbench.Truth.{TruthManifest}
use sentinel_security_platfo.Workbench.Truth.Manifest.{
  from_mapping, leaks_into_negatives, manifest, shared_unit,
}
use sentinel_security_platfo.Workbench.Truth.Attribution.{Attributes, from_mapping-IsAttributed}

abbrev snapshot : String
snapshot = "0123456789abcdef0123456789abcdef0123456789abcdef0123456789abcdef"

abbrev one : String → Json
one t = array (item (string t) end_items)

abbrev defect : String → String → String → Json
defect id canonical alternative = object (
    field "vulnerability_id" (string id) (
      field "class" (string "sqli") (
        field "precondition" (string "") (
          field "canonical_unit_id" (string canonical) (
            field "allowed_alternatives" (one alternative) (
              field "provenance" (string "seeded") (field "license" (string "MIT") end_fields)))))))

abbrev audit : Json
audit = object (
    field "outcome_blind" (boolean true) (
      field "auditor" (string "auditor-1")
        (field "unplanted_control_ids" (one "control-1") end_fields)))

abbrev truth_json : Items → Fields
truth_json defects = field "schema_version" (string "sentinel-workbench-truth-manifest/v1") (
    field "candidate_snapshot_digest" (string snapshot) (
      field "negative_universe_unit_ids" (one "n")
        (field "control_audit" audit (field "defects" (array defects) end_fields))))

abbrev frozen : TruthManifest
frozen = manifest ("n" ∷ []) (
    record { vulnerability_id = "v1"; canonical_unit_id = "a"; allowed_alternatives = "b" ∷ [] }
    ∷ record { vulnerability_id = "v2"; canonical_unit_id = "c"; allowed_alternatives = "d" ∷ [] }
    ∷ [])

two-admitted :
    from_mapping (truth_json (item (defect "v1" "a" "b") (item (defect "v2" "c" "d") end_items)))
    ≡ ok (snapshot, frozen)
unfolding from_mapping
two-admitted = refl

shared-refused :
    from_mapping (truth_json (item (defect "v1" "a" "b") (item (defect "v2" "b" "d") end_items)))
    ≡ err shared_unit
unfolding from_mapping
shared-refused = refl

leak-refused :
    from_mapping (truth_json (item (defect "v1" "a" "n") end_items)) ≡ err leaks_into_negatives
unfolding from_mapping
leak-refused = refl

from_mapping-IsAttributed_example : Attributes frozen
from_mapping-IsAttributed_example =
    from_mapping-IsAttributed
      (truth_json (item (defect "v1" "a" "b") (item (defect "v2" "c" "d") end_items))) snapshot
      frozen two-admitted

-- ===== src/Workbench/Truth/Manifest.antt =====
-- workbench/contracts.py: `TruthManifest.from_mapping`, the admission of a truth manifest. Of a
-- defect's dictionary the model keeps what the scoring reads.
use sentinel_security_platfo.Base.{
  String, Bool, true, false, not, ◌&&◌, ◌||◌, Option, none, some, List, [], ◌∷◌, ◌++◌, Result, ok,
  err, ◌>>=◌, ◌>>◌, require, any, is_digest, nat_eq, ◌==◌, if◌then◌else◌,
}
use sentinel_security_platfo.Base.Json.{
  Json, null, boolean, int, negative, float, string, array, object, end_items, item, Fields,
  end_fields, field, get, is_in, is_string, items, keys,
}
use sentinel_security_platfo.Workbench.Selection.{is_distinct}
use sentinel_security_platfo.Workbench.Truth.{Defect, TruthManifest}

-- The messages of `ContractViolation`.
pub data ManifestViolation : Type 0 where
  missing_field unsupported_schema bad_digest bad_negatives repeated_negative : ManifestViolation
  no_blind_audit no_controls no_defects not_an_object bad_field_type : ManifestViolation
  bad_vulnerability_id unlabelled_unit bad_alternatives leaks_into_negatives : ManifestViolation
  shared_unit : ManifestViolation

abbrev pub Checked : Type 0 → Type 0
Checked A = Result ManifestViolation A

-- `_require`
unfoldable require_field : String → Fields → Checked Json
unfolding is_in get
require_field key fs = if is_in key (keys fs) then ok (get key fs) else err missing_field

-- `bool(value)`
unfoldable pub is_truthy : Json → Bool
is_truthy null = false
is_truthy (boolean b) = b
is_truthy (int n) = not (nat_eq n 0)
is_truthy (negative n) = true
is_truthy (float x) = not (x == "0.0" || x == "-0.0")
is_truthy (string t) = not (t == "")
is_truthy (array end_items) = false
is_truthy (array (item v vs)) = true
is_truthy (object end_fields) = false
is_truthy (object (field k v fs)) = true

-- Texts that are not empty, of a list.
unfoldable labels_of : List Json → Option (List String)
labels_of [] = some []
labels_of (string t ∷ vs) =
    let rest = labels_of vs in
    if t == "" then none else elim rest [ none ↦ none | some ts ↦ some (t ∷ ts) ]
labels_of (_ ∷ vs) = none

-- A list with at least one item, all of them texts that are not empty.
unfoldable labels : ManifestViolation → Json → Checked (List String)
unfolding labels_of
labels e (array (item v vs)) = elim (labels_of (v ∷ items vs)) [ none ↦ err e | some ts ↦ ok ts ]
labels e _ = err e

unfoldable text_field : String → Fields → Checked String
unfolding require_field
text_field key fs =
    require_field key fs >>= λ v. elim v [ string t ↦ ok t | _ ↦ err bad_field_type ]

abbrev is_array : Json → Bool
is_array (array vs) = true
is_array _ = false

unfoldable list_field : String → Fields → Checked Json
unfolding require_field
list_field key fs = require_field key fs >>= λ v. if is_array v then ok v else err bad_field_type

-- The canonical unit with its alternatives.
abbrev pub units_of : Defect → List String
units_of d = d.canonical_unit_id ∷ d.allowed_alternatives

-- The defect's texts and alternatives, as the loop over the required fields reads them.
unfoldable typed_defect : Fields → Checked (String × String × Json)
unfolding text_field list_field
typed_defect fs = text_field "vulnerability_id" fs >>= λ vulnerability.
    text_field "class" fs >>= λ _. text_field "precondition" fs >>= λ _.
    text_field "canonical_unit_id" fs >>= λ canonical.
    list_field "allowed_alternatives" fs >>= λ alternatives. text_field "provenance" fs >>= λ _.
    text_field "license" fs >>= λ _. ok (vulnerability, canonical, alternatives)

-- What a defect must not share with what came before, and with the negatives.
unfoldable pub check_defect : List String → List String → Defect → Checked Unit
unfolding is_in is_distinct any
check_defect negatives claimed d =
    require (not (any (λ u. is_in u negatives) (units_of d))) leaks_into_negatives
    >> require (is_distinct (units_of d) && not (any (λ u. is_in u claimed) (units_of d)))
        shared_unit

-- The defect that the fields describe, with a new id.
unfoldable pub labelled_defect : List String → Fields → Checked Defect
unfolding typed_defect labels is_in
labelled_defect seen fs = typed_defect fs >>= λ (vulnerability, canonical, listed).
    require (not (vulnerability == "" || is_in vulnerability seen)) bad_vulnerability_id >>= λ _.
    require (not (canonical == "")) unlabelled_unit >>= λ _.
    labels bad_alternatives listed >>= λ alternatives. ok record {
      vulnerability_id = vulnerability;
      canonical_unit_id = canonical;
      allowed_alternatives = alternatives;
    }

unfoldable pub admit_defect : List String → List String → List String → Json → Checked Defect
unfolding labelled_defect check_defect
admit_defect negatives seen claimed (object fs) =
    labelled_defect seen fs >>= λ d. check_defect negatives claimed d >>= λ _. ok d
admit_defect negatives seen claimed _ = err not_an_object

unfoldable pub admit_defects :
    List String → List String → List String → List Json → Checked (List Defect)
unfolding admit_defect
admit_defects negatives seen claimed [] = ok []
admit_defects negatives seen claimed (v ∷ vs) = admit_defect negatives seen claimed v >>= λ d.
    admit_defects negatives (d.vulnerability_id ∷ seen) (units_of d ++ claimed) vs >>= λ ds.
    ok (d ∷ ds)

unfoldable check_audit : Json → Checked Unit
unfolding is_truthy labels get
check_audit (object audit) =
    require (is_truthy (get "outcome_blind" audit) && is_truthy (get "auditor" audit))
      no_blind_audit
    >> (labels no_controls (get "unplanted_control_ids" audit) >>= λ _. ok tt)
check_audit _ = err no_blind_audit

-- A list with at least one item.
unfoldable defects_of : Json → Checked (List Json)
defects_of (array (item v vs)) = ok (v ∷ items vs)
defects_of _ = err no_defects

unfoldable snapshot_of : Json → Checked String
unfolding is_digest
snapshot_of (string d) = if is_digest d then ok d else err bad_digest
snapshot_of _ = err bad_digest

-- What stands before the defects: the snapshot's digest and the negatives, under a blind audit.
unfoldable pub header_of : Fields → Checked (String × List String)
unfolding require_field is_string snapshot_of labels is_distinct check_audit
header_of data_ = require_field "schema_version" data_ >>= λ version.
    require (is_string "sentinel-workbench-truth-manifest/v1" version) unsupported_schema >>= λ _.
    (require_field "candidate_snapshot_digest" data_ >>= snapshot_of) >>= λ candidate.
    (require_field "negative_universe_unit_ids" data_ >>= labels bad_negatives) >>= λ negatives.
    require (is_distinct negatives) repeated_negative >>= λ _.
    (require_field "control_audit" data_ >>= check_audit) >>= λ _. ok (candidate, negatives)

unfoldable pub listed_defects : Fields → Checked (List Json)
unfolding require_field defects_of
listed_defects data_ = require_field "defects" data_ >>= defects_of

abbrev pub manifest : List String → List Defect → TruthManifest
manifest negatives defects = record { defects = defects; negative_universe_unit_ids = negatives }

-- The snapshot's digest with the manifest.
unfoldable pub from_mapping : Fields → Checked (String × TruthManifest)
unfolding header_of listed_defects admit_defects
from_mapping data_ = header_of data_ >>= λ (candidate, negatives).
    listed_defects data_ >>= λ listed.
    admit_defects negatives [] [] listed >>= λ defects. ok (candidate, manifest negatives defects)

-- ===== src/Workbench/Gates/Criteria.antt =====
-- The criteria of the gates before a corpus may be catalogued, and that each gate tests its own.
use sentinel_security_platfo.Base.{
  String, ◌≡◌, refl, ◌↔◌, inl, inr, true, false, ◌||◌, Option, none, some, text_length, arith,
  Bool-cases,
}
use sentinel_security_platfo.Base.Json.{
  Json, null, boolean, int, negative, float, string, array, object, Fields, get, is_string,
}
use sentinel_security_platfo.Workbench.Truth.Manifest.{is_truthy}
use sentinel_security_platfo.Workbench.Gates.{
  Files, gate_calibration, gate_contamination, gate_control_audit, gate_license, gate_truth,
  is_filled, is_flag, is_written, judge_digest, judge_document, judge_screen_record,
  judge_truth_path, label,
}

-- A document that is an object with findings or anchors.
abbrev IsTruthDocument : Option Json → Type 0
IsTruthDocument (some (object doc)) =
    (is_truthy (get "findings" doc) || is_truthy (get "anchors" doc)) ≡ true
IsTruthDocument _ = ⊥

abbrev IsTruthFile : Files → Option String → Type 0
IsTruthFile f none = ⊥
IsTruthFile f (some path) = (f.is_regular path ≡ true) × IsTruthDocument (f.document path)

-- A truth manifest in a regular file.
abbrev pub HasTruth : Files → Fields → Type 0
HasTruth f fs = IsTruthFile f (label (get "truth_manifest_path" fs))

-- A stated license, and independent authors.
abbrev pub HasLicense : Fields → Type 0
HasLicense fs =
    (is_written (get "license" fs) ≡ true) × (is_string "independent" (get "authorship" fs) ≡ true)

abbrev IsFile : Files → Option String → Type 0
IsFile f none = ⊥
IsFile f (some path) = f.is_regular path ≡ true

-- A screen of the model's cutoff, recorded in a regular file.
abbrev pub HasScreen : Files → Fields → Type 0
HasScreen f fs =
    (is_string "screened" (get "model_cutoff_contamination" fs) ≡ true)
    × IsFile f (label (get "screen_record_path" fs))

-- An outcome-blind audit with unplanted controls.
abbrev pub HasControls : Fields → Type 0
HasControls fs =
    (is_flag true (get "outcome_blind" fs) ≡ true)
    × (is_filled (get "unplanted_control_ids" fs) ≡ true)

abbrev IsDigestText : Json → Type 0
IsDigestText (string d) = text_length d ≡ 64
IsDigestText _ = ⊥

-- A calibration that is not confirmatory, with a digest.
abbrev pub HasCalibration : Fields → Type 0
HasCalibration fs =
    (is_flag false (get "calibration_is_confirmatory" fs) ≡ true)
    × IsDigestText (get "calibration_corpus_digest" fs)

-- Evidence that is there, with a property.
abbrev pub Has : (Fields → Type 0) → Option Fields → Type 0
Has P none = ⊥
Has P (some fs) = P fs

document_iff :
    (f : Files) (path : String) (o : Option Json)
    → ((judge_document f path o).passed ≡ true) ↔ IsTruthDocument o
unfolding judge_document
document_iff f path none = ground arith
document_iff f path (some null) = ground arith
document_iff f path (some (boolean b)) = ground arith
document_iff f path (some (int n)) = ground arith
document_iff f path (some (negative n)) = ground arith
document_iff f path (some (float x)) = ground arith
document_iff f path (some (array xs)) = ground arith
document_iff f path (some (string t)) = ground arith
document_iff f path (some (object doc)) = ground arith

truth_path_iff :
    (f : Files) (o : Option String) → ((judge_truth_path f o).passed ≡ true) ↔ IsTruthFile f o
unfolding judge_truth_path
truth_path_iff f none = ground arith
truth_path_iff f (some path) = elim (Bool-cases (f.is_regular path)) [
  | inl e ↦ rw e (
    λ h. (refl, (document_iff f path (f.document path)).0 h),
    λ h. (document_iff f path (f.document path)).1 h.1,
  )
  | inr e ↦ rw e (λ h. absurd (ground (arith, h)), λ h. absurd (ground (arith, h.0)))
]

pub truth_iff :
    (f : Files) (o : Option Fields) → ((gate_truth f o).passed ≡ true) ↔ Has (HasTruth f) o
unfolding gate_truth
truth_iff f none = ground arith
truth_iff f (some fs) = truth_path_iff f (label (get "truth_manifest_path" fs))

pub license_iff :
    (f : Files) (o : Option Fields) → ((gate_license f o).passed ≡ true) ↔ Has HasLicense o
unfolding gate_license
license_iff f none = ground arith
license_iff f (some fs) = ground arith

record_iff :
    (f : Files) (o : Option String) → ((judge_screen_record f o).passed ≡ true) ↔ IsFile f o
unfolding judge_screen_record
record_iff f none = ground arith
record_iff f (some path) = ground arith

pub screen_iff :
    (f : Files) (o : Option Fields) → ((gate_contamination f o).passed ≡ true) ↔ Has (HasScreen f) o
unfolding gate_contamination
screen_iff f none = ground arith
screen_iff f (some fs) =
    elim (Bool-cases (is_string "screened" (get "model_cutoff_contamination" fs))) [
      | inl e ↦ rw e (
        λ h. (refl, (record_iff f (label (get "screen_record_path" fs))).0 h),
        λ h. (record_iff f (label (get "screen_record_path" fs))).1 h.1,
      )
      | inr e ↦ rw e (λ h. absurd (ground (arith, h)), λ h. absurd (ground (arith, h.0)))
    ]

pub controls_iff :
    (f : Files) (o : Option Fields) → ((gate_control_audit f o).passed ≡ true) ↔ Has HasControls o
unfolding gate_control_audit
controls_iff f none = ground arith
controls_iff f (some fs) = ground arith

digest_iff : (v : Json) → ((judge_digest v).passed ≡ true) ↔ IsDigestText v
unfolding judge_digest
digest_iff null = ground arith
digest_iff (boolean b) = ground arith
digest_iff (int n) = ground arith
digest_iff (negative n) = ground arith
digest_iff (float x) = ground arith
digest_iff (array xs) = ground arith
digest_iff (string t) = ground arith
digest_iff (object fs) = ground arith

pub calibration_iff :
    (o : Option Fields) → ((gate_calibration o).passed ≡ true) ↔ Has HasCalibration o
unfolding gate_calibration
calibration_iff none = ground arith
calibration_iff (some fs) =
    elim (Bool-cases (is_flag false (get "calibration_is_confirmatory" fs))) [
      | inl e ↦ rw e (
        λ h. (refl, (digest_iff (get "calibration_corpus_digest" fs)).0 h),
        λ h. (digest_iff (get "calibration_corpus_digest" fs)).1 h.1,
      )
      | inr e ↦ rw e (λ h. absurd (ground (arith, h)), λ h. absurd (ground (arith, h.0)))
    ]

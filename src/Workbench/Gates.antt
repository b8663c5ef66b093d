-- ===== src/Workbench/Gates.antt =====
-- workbench/corpus_gates.py: `evaluate_inventory_admission`, the gates before a corpus may be
-- catalogued. Files are a parameter.
pub mod Ledger
pub mod Criteria
pub mod Clusters
pub mod Admission
use sentinel_security_platfo.Base.{
  ℕ, String, Bool, true, false, not, ◌&&◌, ◌||◌, Option, none, some, List, [], ◌∷◌, ◌++◌, Result,
  ok, err, ◌>>=◌, all, codes, is_white, length, ltb, nat_eq, text_length, ◌==◌, if◌then◌else◌,
}
use sentinel_security_platfo.Base.Json.{
  Json, null, boolean, int, negative, float, string, array, object, Items, end_items, item, Fields,
  end_fields, field, get, is_in, is_string, items,
}
use sentinel_security_platfo.Workbench.Truth.Manifest.{is_truthy}

abbrev pub minimum_clusters : ℕ
minimum_clusters = 20

-- What the gates call: whether a path is a regular file, its decoded document where it can be read,
-- the file's digest, and the canonical digest of a value.
pub record Files : Type 0 where
  pub is_regular : String → Bool
  pub document : String → Option Json
  pub file_digest : String → String
  pub canonical_digest : Json → String

-- The gates of `REMAINING_GATES`, in its order.
pub data Gate : Type 0 where
  truth license contamination control_audit calibration cluster_count : Gate

pub data Reason : Type 0 where
  missing_truth missing_truth_path truth_unavailable truth_unreadable truth_invalid : Reason
  truth_empty truth_present missing_license license_not_screened not_independent : Reason
  license_screened missing_contamination not_screened contamination_screened : Reason
  screen_record_missing missing_control_audit not_outcome_blind missing_controls : Reason
  audit_recorded missing_calibration confirmatory calibration_digest_missing : Reason
  non_confirmatory clusters_meet_minimum : Reason
  clusters_below_minimum : ℕ → Reason

pub record GateResult : Type 0 where
  pub gate : Gate
  pub passed : Bool
  pub reason : Reason
  pub evidence_digest : Option String

abbrev pub failed : Gate → Reason → GateResult
failed g r = record { gate = g; passed = false; reason = r; evidence_digest = none }

abbrev pub passes : Gate → Reason → String → GateResult
passes g r digest = record { gate = g; passed = true; reason = r; evidence_digest = some digest }

-- Evidence that is a mapping with an entry: all others are falsy.
unfoldable pub evidence_of : Json → Option Fields
evidence_of (object (field k v fs)) = some (field k v fs)
evidence_of _ = none

abbrev pub label : Json → Option String
label (string t) = if t == "" then none else some t
label _ = none

unfoldable pub judge_document : Files → String → Option Json → GateResult
unfolding is_truthy get
judge_document f path none = failed truth truth_unreadable
judge_document f path (some (object fs)) =
    if not (is_truthy (get "findings" fs)) && not (is_truthy (get "anchors" fs))
    then failed truth truth_empty
    else passes truth truth_present (f.file_digest path)
judge_document f path (some _) = failed truth truth_invalid

unfoldable pub judge_truth_path : Files → Option String → GateResult
unfolding judge_document
judge_truth_path f none = failed truth missing_truth_path
judge_truth_path f (some path) =
    if f.is_regular path
    then judge_document f path (f.document path)
    else failed truth truth_unavailable

unfoldable pub gate_truth : Files → Option Fields → GateResult
unfolding judge_truth_path get
gate_truth f none = failed truth missing_truth
gate_truth f (some fs) = judge_truth_path f (label (get "truth_manifest_path" fs))

-- A text that `strip` leaves something of.
abbrev pub is_written : Json → Bool
is_written (string t) = not (all is_white (codes t))
is_written _ = false

abbrev license_record : Fields → Json
license_record fs =
    object
      (field "license" (get "license" fs) (field "authorship" (get "authorship" fs) end_fields))

unfoldable pub gate_license : Files → Option Fields → GateResult
unfolding all get is_string
gate_license f none = failed license missing_license
gate_license f (some fs) =
    if not (is_written (get "license" fs))
    then failed license license_not_screened
    else if not (is_string "independent" (get "authorship" fs))
    then failed license not_independent
    else passes license license_screened (f.canonical_digest (license_record fs))

unfoldable pub judge_screen_record : Files → Option String → GateResult
judge_screen_record f none = failed contamination screen_record_missing
judge_screen_record f (some path) =
    if f.is_regular path
    then passes contamination contamination_screened (f.file_digest path)
    else failed contamination screen_record_missing

unfoldable pub gate_contamination : Files → Option Fields → GateResult
unfolding judge_screen_record get is_string
gate_contamination f none = failed contamination missing_contamination
gate_contamination f (some fs) =
    if is_string "screened" (get "model_cutoff_contamination" fs)
    then judge_screen_record f (label (get "screen_record_path" fs))
    else failed contamination not_screened

-- `value is flag`
abbrev pub is_flag : Bool → Json → Bool
is_flag true (boolean b) = b
is_flag false (boolean b) = not b
is_flag _ _ = false

-- A list with an item.
abbrev pub is_filled : Json → Bool
is_filled (array (item v vs)) = true
is_filled _ = false

abbrev control_record : Fields → Json
control_record fs = object (
    field "outcome_blind" (boolean true)
      (field "unplanted_control_ids" (get "unplanted_control_ids" fs) end_fields))

unfoldable pub gate_control_audit : Files → Option Fields → GateResult
unfolding get
gate_control_audit f none = failed control_audit missing_control_audit
gate_control_audit f (some fs) =
    if not (is_flag true (get "outcome_blind" fs))
    then failed control_audit not_outcome_blind
    else if not (is_filled (get "unplanted_control_ids" fs))
    then failed control_audit missing_controls
    else passes control_audit audit_recorded (f.canonical_digest (control_record fs))

unfoldable pub judge_digest : Json → GateResult
judge_digest (string d) =
    if nat_eq (text_length d) 64
    then passes calibration non_confirmatory d
    else failed calibration calibration_digest_missing
judge_digest _ = failed calibration calibration_digest_missing

unfoldable pub gate_calibration : Option Fields → GateResult
unfolding judge_digest get
gate_calibration none = failed calibration missing_calibration
gate_calibration (some fs) =
    if is_flag false (get "calibration_is_confirmatory" fs)
    then judge_digest (get "calibration_corpus_digest" fs)
    else failed calibration confirmatory

unfoldable pub gate_cluster_count : Files → ℕ → GateResult
gate_cluster_count f n =
    if ltb n minimum_clusters
    then failed cluster_count (clusters_below_minimum n)
    else passes cluster_count clusters_meet_minimum
        (f.canonical_digest (object (field "paired_repository_count" (int n) end_fields)))

-- ===== src/Workbench/Truth.antt =====
-- workbench/truth_matcher.py: `match_worklist`, the scoring of a worklist against frozen truth. A
-- quotient of the source is a numerator and a denominator.
pub mod Places
pub mod Partition
pub mod Manifest
pub mod Attribution
use sentinel_security_platfo.Base.{
  ℕ, zero, suc, String, Bool, true, false, not, ◌||◌, ◌&&◌, Option, none, some, List, [], ◌∷◌, ◌++◌,
  Result, ok, err, any, all, length, ltb, nat_eq, ◌==◌, if◌then◌else◌,
}
use sentinel_security_platfo.Base.Table.{find}

pub data TruthMatcherViolation : Type 0 where
  -- ZeroDivisionError, when no defect is frozen
  outside_mask no_defects : TruthMatcherViolation

pub record Defect : Type 0 where
  pub vulnerability_id : String
  pub canonical_unit_id : String
  pub allowed_alternatives : List String

pub record TruthManifest : Type 0 where
  pub defects : List Defect
  pub negative_universe_unit_ids : List String

pub record TruthMatchResult : Type 0 where
  pub recalled_vulnerability_ids : List String
  pub duplicate_unit_ids : List String
  pub adjudicated_negative_unit_ids : List String
  pub not_measured_unit_ids : List String
  pub recall_at_12 : ℕ × ℕ
  pub precision_at_12 : ℕ × ℕ

unfoldable pub is_in : List String → String → Bool
unfolding any
is_in xs x = any (λ y. y == x) xs

-- `by_unit`: an entry that comes later takes the place of an earlier one, so the newest stands first.
pub record Entry : Type 0 where
  pub unit : String
  pub vulnerability : String

abbrev pub unit_key : Entry → String
unit_key e = e.unit

unfoldable pub add_alternatives : String → List String → List Entry → List Entry
add_alternatives v [] entries = entries
add_alternatives v (u ∷ units) entries =
    add_alternatives v units (record { unit = u; vulnerability = v } ∷ entries)

unfoldable pub index_defects : List Defect → List Entry → List Entry
unfolding add_alternatives
index_defects [] entries = entries
index_defects (d ∷ defects) entries = index_defects defects (
    add_alternatives d.vulnerability_id d.allowed_alternatives
      (record { unit = d.canonical_unit_id; vulnerability = d.vulnerability_id } ∷ entries))

-- The lists of the loop.
pub record Tally : Type 0 where
  pub recalled : List String
  pub duplicates : List String
  pub negatives : List String
  pub unmeasured : List String
  pub claimed : List String

abbrev pub no_tally : Tally
no_tally = record { recalled = []; duplicates = []; negatives = []; unmeasured = []; claimed = [] }

-- One pass of the loop, at the unit's entry.
unfoldable pub tally_unit : TruthManifest → String → Option Entry → Tally → Tally
unfolding is_in
tally_unit truth u (some e) t =
    if is_in t.claimed e.vulnerability
    then record t { duplicates = t.duplicates ++ (u ∷ []) }
    else record t {
      claimed = e.vulnerability ∷ t.claimed;
      recalled = t.recalled ++ (e.vulnerability ∷ []);
    }
tally_unit truth u none t =
    if is_in truth.negative_universe_unit_ids u
    then record t { negatives = t.negatives ++ (u ∷ []) }
    else record t { unmeasured = t.unmeasured ++ (u ∷ []) }

unfoldable pub tally_units : TruthManifest → List Entry → List String → Tally → Tally
unfolding tally_unit
tally_units truth entries [] t = t
tally_units truth entries (u ∷ units) t =
    tally_units truth entries units (tally_unit truth u (find unit_key u entries) t)

abbrev pub is_none_of : List String → Bool
is_none_of [] = true
is_none_of (x ∷ xs) = false

-- What the proposals and the mask have to satisfy.
unfoldable pub is_scorable : List String → List String → Bool
unfolding all is_in
is_scorable proposals admitted =
    not (is_none_of proposals)
    && not (ltb 12 (length proposals))
    && not (is_none_of admitted)
    && all (λ p. not (p == "") && is_in admitted p) proposals

unfoldable pub match_worklist :
    TruthManifest → List String → List String → Result TruthMatcherViolation TruthMatchResult
unfolding is_scorable index_defects tally_units
match_worklist truth proposals admitted =
    if not (is_scorable proposals admitted)
    then err outside_mask
    else if nat_eq (length truth.defects) 0
    then err no_defects
    else let t = tally_units truth (index_defects truth.defects []) proposals no_tally in
      ok (record {
        recalled_vulnerability_ids = t.recalled;
        duplicate_unit_ids = t.duplicates;
        adjudicated_negative_unit_ids = t.negatives;
        not_measured_unit_ids = t.unmeasured;
        recall_at_12 = (length t.recalled, length truth.defects);
        precision_at_12 = (length t.recalled, length proposals);
      })

-- ===== src/Workbench/PartTests.antt =====
-- The theorems of the CMC store and of the truth matcher at concrete inputs.
use sentinel_security_platfo.Base.{
  List, String, ◌≡◌, refl, ◌+◌, true, some, [], ◌∷◌, ok, length, count_if, arith,
}
use sentinel_security_platfo.Base.Table.{find}
use sentinel_security_platfo.Workbench.Egress.{all_distinct}
use sentinel_security_platfo.Workbench.Cmc.{
  CmcRequest, CmcStore, revoked, reserve_cmc, dispatch_cmc,
}
use sentinel_security_platfo.Workbench.Cmc.History.{
  start, and_call, reserves, dispatches, IsSingleUse, CmcHistory-IsSingleUse, cmc_key,
  CmcHistory-closed,
}
use sentinel_security_platfo.Workbench.Truth.{TruthManifest, TruthMatchResult, match_worklist}
use sentinel_security_platfo.Workbench.Truth.Partition.{match_worklist-ok}
use sentinel_security_platfo.Workbench.Truth.Places.{
  first_hits, is_clear, is_unseen, keep, repeated_hits,
}

no_rows-IsSingleUse : IsSingleUse []
unfolding count_if
no_rows-IsSingleUse = (λ d. omega arith, λ n. omega arith)

CmcHistory-IsSingleUse_example : IsSingleUse (reserve_cmc "d2" "n1" (reserve_cmc "d1" "n1" []).0).0
CmcHistory-IsSingleUse_example =
    CmcHistory-IsSingleUse (and_call (and_call start (reserves "d1" "n1")) (reserves "d2" "n1"))
      no_rows-IsSingleUse

abbrev revoked_row : CmcRequest
revoked_row = record { request_digest = "d1"; nonce = "n1"; cmc_status = revoked }

abbrev one_revoked : CmcStore
one_revoked = revoked_row ∷ []

revoked_row-found : find cmc_key "d1" one_revoked ≡ some revoked_row
unfolding find
revoked_row-found = refl

CmcHistory-closed_example : find cmc_key "d1" (dispatch_cmc "d1" one_revoked).0 ≡ some revoked_row
CmcHistory-closed_example =
    CmcHistory-closed "d1" revoked_row {s = one_revoked} refl (and_call start (dispatches "d1"))
      revoked_row-found

abbrev one_defect : TruthManifest
one_defect = record {
  defects =
      record { vulnerability_id = "v1"; canonical_unit_id = "a"; allowed_alternatives = "b" ∷ [] }
      ∷ [];
  negative_universe_unit_ids = "c" ∷ [];
}

abbrev scored : TruthMatchResult
scored = record {
  recalled_vulnerability_ids = "v1" ∷ [];
  duplicate_unit_ids = "b" ∷ [];
  adjudicated_negative_unit_ids = "c" ∷ [];
  not_measured_unit_ids = "d" ∷ [];
  recall_at_12 = (1, 1);
  precision_at_12 = (1, 4);
}

one_defect-scored :
    match_worklist one_defect ("a" ∷ "b" ∷ "c" ∷ "d" ∷ []) ("a" ∷ "b" ∷ "c" ∷ "d" ∷ []) ≡ ok scored
unfolding match_worklist find
one_defect-scored = refl

abbrev proposals : List String
proposals = "a" ∷ "b" ∷ "c" ∷ "d" ∷ []

match_worklist-ok_example :
    (scored.recalled_vulnerability_ids ≡ first_hits one_defect [] proposals)
    × (scored.duplicate_unit_ids ≡ repeated_hits one_defect [] proposals)
    × (scored.adjudicated_negative_unit_ids ≡ keep (is_clear one_defect) proposals)
    × (scored.not_measured_unit_ids ≡ keep (is_unseen one_defect) proposals)
    × (all_distinct scored.recalled_vulnerability_ids ≡ true)
    × (length scored.recalled_vulnerability_ids
          + length scored.duplicate_unit_ids
          + length scored.adjudicated_negative_unit_ids
          + length scored.not_measured_unit_ids
        ≡ 4)
match_worklist-ok_example =
    match_worklist-ok one_defect proposals proposals scored one_defect-scored

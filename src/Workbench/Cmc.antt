-- ===== src/Workbench/Cmc.antt =====
-- workbench/active_request_store.py: `ActiveRequestStore`, the exactly-once reservations of the CMC
-- requests. Rows stand newest first. No method of the source settles a dispatched request; the next
-- open makes it unknown.
pub mod History
use sentinel_security_platfo.Base.{
  String, Bool, true, false, ◌&&◌, ◌||◌, List, [], ◌∷◌, Result, ok, err, Txn, commit, rollback,
  run_txn, any, count_if, nat_eq, ◌==◌, if◌then◌else◌,
}
use sentinel_security_platfo.Base.Table.{update_where}

pub data CmcStatus : Type 0 where
  reserved dispatched succeeded rejected revoked unknown : CmcStatus

-- The messages of `ActiveRequestViolation`.
pub data ActiveRequestViolation : Type 0 where
  unlabelled already_consumed not_revocable not_dispatchable : ActiveRequestViolation

pub record CmcRequest : Type 0 where
  pub request_digest : String
  pub nonce : String
  pub cmc_status : CmcStatus

abbrev pub CmcStore : Type 0
CmcStore = List CmcRequest

abbrev pub CmcCall : Type 0
CmcCall = CmcStore × Result ActiveRequestViolation Unit

abbrev pub is_reserved : CmcStatus → Bool
is_reserved reserved = true
is_reserved _ = false

abbrev pub is_dispatched : CmcStatus → Bool
is_dispatched dispatched = true
is_dispatched _ = false

abbrev pub set_cmc_status : CmcStatus → CmcRequest → CmcRequest
set_cmc_status to r = record r { cmc_status = to }

-- The end of `__init__`
unfoldable pub open_cmc : CmcStore → CmcStore
unfolding update_where
open_cmc s = update_where (λ r. is_dispatched r.cmc_status) (set_cmc_status unknown) s

-- A row that the PRIMARY KEY or the UNIQUE constraint refuses to have beside a new one.
abbrev pub conflicts : String → String → CmcRequest → Bool
conflicts digest nonce r = r.request_digest == digest || r.nonce == nonce

unfoldable pub reserve_cmc : String → String → CmcStore → CmcCall
unfolding any
reserve_cmc digest nonce s =
    if digest == "" || nonce == ""
    then (s, err unlabelled)
    else if any (conflicts digest nonce) s
    then (s, err already_consumed)
    else (record { request_digest = digest; nonce = nonce; cmc_status = reserved } ∷ s, ok tt)

abbrev pub reserved_as : String → CmcRequest → Bool
reserved_as digest r = r.request_digest == digest && is_reserved r.cmc_status

-- An UPDATE of one reserved row.
unfoldable pub move_reserved : String → CmcStatus → ActiveRequestViolation → CmcStore → CmcCall
unfolding update_where count_if
move_reserved digest to e s = run_txn s (
    if nat_eq (count_if (reserved_as digest) s) 1
    then commit (update_where (reserved_as digest) (set_cmc_status to) s) tt
    else rollback e)

unfoldable pub revoke_cmc : String → CmcStore → CmcCall
unfolding move_reserved
revoke_cmc digest s = move_reserved digest revoked not_revocable s

unfoldable pub dispatch_cmc : String → CmcStore → CmcCall
unfolding move_reserved
dispatch_cmc digest s = move_reserved digest dispatched not_dispatchable s

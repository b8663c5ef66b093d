-- ===== src/Workbench/Broker/Worker.antt =====
-- workbench/host_broker.py: the worker's side of the queue, from `command_for_worker` to
-- `finish_worker_command`, and the recovery at an opening.
use sentinel_security_platfo.Base.{
  String, Bool, true, false, not, ◌&&◌, Option, none, some, List, [], ◌∷◌, ok, err, ◌>>◌, require,
  count_if, nat_eq, ◌==◌, if◌then◌else◌,
}
use sentinel_security_platfo.Base.Dict.{lookup}
use sentinel_security_platfo.Base.Table.{update_where}
use sentinel_security_platfo.Workbench.Broker.{
  Broker, BrokerCall, CommandRow, CommandStatus, running, succeeded, failed, Library, and_then,
  empty_memory, is_queued, is_running,
}
use sentinel_security_platfo.Workbench.Broker.Protocol.{
  BrokerCommand, unknown_command, not_running, lost_claim,
}
use sentinel_security_platfo.Workbench.Broker.Queue.{
  BrokerStatus, find_command, remember_command, set_rows, status_of,
}

unfoldable pub details_of : String → Broker → BrokerCall BrokerCommand
unfolding find_command remember_command
details_of id b = elim (find_command id b) [
  | none ↦ (b, err unknown_command)
  | some r ↦ (remember_command id r.details b, ok r.details)
]

unfoldable pub command_for_worker : String → Broker → BrokerCall BrokerCommand
unfolding status_of lookup details_of
command_for_worker id b =
    and_then (b, status_of id b)
      λ current b0.
        if is_running current.status
        then elim (lookup id b0.memory.commands) [
          | some command ↦ (b0, ok command)
          | none ↦ details_of id b0
        ]
        else (b0, err not_running)

-- `SELECT ... WHERE status = 'queued' ORDER BY rowid LIMIT 1`: the row that came first.
unfoldable pub oldest_queued : List CommandRow → Option CommandRow
oldest_queued [] = none
oldest_queued (r ∷ rows) = elim (oldest_queued rows) [
  | some first ↦ some first
  | none ↦ if is_queued r.status then some r else none
]

-- Single-use authority of a worker.
pub record BrokerWorkerClaim : Type 0 where
  pub command_id : String
  pub capability : String

abbrev pub claimable : String → CommandRow → Bool
claimable id r = r.command_id == id && is_queued r.status

abbrev pub set_claimed : String → CommandRow → CommandRow
set_claimed digest r = record r {
  status = running;
  worker_capability_digest = some digest;
  worker_capability_consumed = false;
}

-- `_claim_next_for_worker`, with the fresh capability
unfoldable pub claim_next : Library → String → Broker → Broker × Option BrokerWorkerClaim
unfolding oldest_queued update_where set_rows
claim_next l capability b = elim (oldest_queued b.database.rows) [
  | none ↦ (b, none)
  | some r ↦ (
    set_rows
        (update_where (claimable r.command_id) (set_claimed (l.sha256 capability)) b.database.rows)
        b,
    some record { command_id = r.command_id; capability = capability },
  )
]

abbrev is_digest_of : String → Option String → Bool
is_digest_of digest none = false
is_digest_of digest (some d) = d == digest

-- The WHERE clause of `authorize_worker_claim`: what it asks beside the command id, and the whole.
abbrev pub awaits : String → CommandRow → Bool
awaits digest r =
    is_running r.status
    && not r.worker_capability_consumed
    && is_digest_of digest r.worker_capability_digest

abbrev pub authorizable : String → String → CommandRow → Bool
authorizable id digest r = r.command_id == id && awaits digest r

abbrev pub set_consumed : CommandRow → CommandRow
set_consumed r = record r { worker_capability_consumed = true }

unfoldable pub authorize_worker_claim : Library → String → String → Broker → Broker × Bool
unfolding count_if update_where set_rows
authorize_worker_claim l id capability b =
    let test = authorizable id (l.sha256 capability) in
    if capability == ""
    then (b, false)
    else if nat_eq (count_if test b.database.rows) 1
    then (set_rows (update_where test set_consumed b.database.rows) b, true)
    else (b, false)

abbrev pub running_as : String → CommandRow → Bool
running_as id r = r.command_id == id && is_running r.status

abbrev pub set_command_status : CommandStatus → CommandRow → CommandRow
set_command_status to r = record r { status = to }

unfoldable pub finish_worker_command : String → Bool → Broker → BrokerCall BrokerStatus
unfolding status_of count_if update_where set_rows
finish_worker_command id succeeded_ b =
    let terminal : CommandStatus = if succeeded_ then succeeded else failed in
    and_then (b, status_of id b)
      λ current b0.
        if is_running current.status
        then (
          set_rows (update_where (running_as id) (set_command_status terminal) b0.database.rows) b0,
          require (nat_eq (count_if (running_as id) b0.database.rows) 1) lost_claim
              >> ok record { command_id = id; status = terminal },
        )
        else (b0, err not_running)

-- The end of `__init__`: a new process on the database, which recovers what was running or not.
unfoldable pub open_broker : Bool → Broker → Broker
unfolding update_where
open_broker recover b =
    let rows =
      if recover
      then update_where (λ r. is_running r.status) (set_command_status failed) b.database.rows
      else b.database.rows in
    record { memory = empty_memory; database = record b.database { rows = rows } }

-- ===== src/Workbench/Broker.antt =====
-- workbench/host_broker.py: `HostBroker` with its database, as `broker_from_environment` builds it.
-- The state of one process is its memory and the database that it shares with other processes. A
-- method runs under the broker's lock, so it is one step. Fresh tokens and clock readings are
-- arguments; an argument that is no text is `none`.
pub mod Protocol
pub mod Config
pub mod Sessions
pub mod Queue
pub mod Worker
pub mod Steps
pub mod History
pub mod Authority
pub mod Ownership
pub mod Shown
pub mod Process
pub mod Draining
pub mod Startup
use sentinel_security_platfo.Base.{
  ℕ, String, Bool, true, false, not, ◌&&◌, ◌||◌, Option, none, some, List, [], ◌∷◌, Result, ok, err,
  ◌==◌, if◌then◌else◌,
}
use sentinel_security_platfo.Base.Dict.{Dict}
use sentinel_security_platfo.Workbench.Broker.Protocol.{BrokerCommand, Checked, BrokerViolation}

pub data CommandStatus : Type 0 where
  queued running succeeded failed cancelled : CommandStatus

-- A row of the table `broker_command`.
pub record CommandRow : Type 0 where
  pub command_id : String
  pub details : BrokerCommand
  pub session_id : Option String
  pub worker_capability_digest : Option String
  pub worker_capability_consumed : Bool
  pub idempotency_key : String
  pub status : CommandStatus

pub record SessionState : Type 0 where
  pub csrf_token : String
  pub expires_at : ℕ

-- The dictionaries of one process. Those that it never reads back while it has a database
-- (`_statuses`, `_worker_capability_digests`, `_worker_capabilities_consumed`) are left out.
pub record Memory : Type 0 where
  pub sessions : Dict SessionState
  pub idempotency : Dict String
  pub command_sessions : Dict String
  pub commands : Dict BrokerCommand

-- The tables `broker_command`, the newest row first, and `broker_startup`.
pub record Database : Type 0 where
  pub rows : List CommandRow
  pub startups : List String

pub record Broker : Type 0 where
  pub memory : Memory
  pub database : Database

abbrev pub BrokerCall : Type 0 → Type 0
BrokerCall A = Broker × Checked A

-- What the broker calls: sha256 in hexadecimal, the canonical `json.dumps` of a command's five
-- fields, `str.lower`, and the clock's readings in a second.
pub record Library : Type 0 where
  pub sha256 : String → String
  pub dumps : BrokerCommand → String
  pub lower : String → String
  pub second : ℕ

-- One call after another, unless the first raises.
abbrev pub and_then : {A B : Type 0} → BrokerCall A → (A → Broker → BrokerCall B) → BrokerCall B
and_then (b, ok a) k = k a b
and_then (b, err e) k = (b, err e)

abbrev pub empty_memory : Memory
empty_memory = record { sessions = []; idempotency = []; command_sessions = []; commands = [] }

abbrev pub command_key : CommandRow → String
command_key r = r.command_id

abbrev pub is_queued : CommandStatus → Bool
is_queued queued = true
is_queued _ = false

abbrev pub is_running : CommandStatus → Bool
is_running running = true
is_running _ = false

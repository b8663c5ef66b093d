-- ===== src/Workbench/Broker/Queue.antt =====
-- workbench/host_broker.py: the browser's side of the queue, `submit_command` with what it calls and
-- `status_for_session`.
use sentinel_security_platfo.Base.{
  ℕ, String, Bool, false, not, ◌||◌, Option, none, some, List, ◌∷◌, ok, err, ◌>>=◌, ◌>>◌, require,
  any, ◌==◌, if◌then◌else◌,
}
use sentinel_security_platfo.Base.Json.{Json, is_in}
use sentinel_security_platfo.Base.Dict.{lookup, put}
use sentinel_security_platfo.Base.Table.{find}
use sentinel_security_platfo.Workbench.Broker.{
  Broker, BrokerCall, CommandRow, CommandStatus, queued, Library, and_then, command_key,
}
use sentinel_security_platfo.Workbench.Broker.Protocol.{
  BrokerCommand, Checked, b3_reading, from_mapping, command_disabled, profile_refused,
  pair_unregistered, other_config, selection_unregistered, row_refused, unknown_command,
  no_command_id, not_owner,
}
use sentinel_security_platfo.Workbench.Broker.Config.{BrokerConfig}
use sentinel_security_platfo.Workbench.Broker.Sessions.{authorize_session, compare_digest}

-- `BrokerStatus`: what a browser is shown.
pub record BrokerStatus : Type 0 where
  pub command_id : String
  pub status : CommandStatus

unfoldable pub find_command : String → Broker → Option CommandRow
unfolding find
find_command id b = find command_key id b.database.rows

unfoldable pub set_rows : List CommandRow → Broker → Broker
set_rows rows b = record b { database = record b.database { rows = rows } }

-- `status`
unfoldable pub status_of : String → Broker → Checked BrokerStatus
unfolding find_command
status_of id b = elim (find_command id b) [
  | none ↦ err unknown_command
  | some r ↦ ok record { command_id = id; status = r.status }
]

unfoldable pub remember_owner : String → String → Broker → Broker
unfolding put
remember_owner id owner b = record b {
  memory = record b.memory { command_sessions = put id owner b.memory.command_sessions };
}

unfoldable pub remember_key : String → String → Broker → Broker
unfolding put
remember_key key id b = record b {
  memory = record b.memory { idempotency = put key id b.memory.idempotency };
}

unfoldable pub remember_command : String → BrokerCommand → Broker → Broker
unfolding put
remember_command id command b = record b {
  memory = record b.memory { commands = put id command b.memory.commands };
}

abbrev pub session_of : Option CommandRow → Option String
session_of none = none
session_of (some r) = r.session_id

unfoldable pub check_owner : Option String → String → Checked Unit
unfolding compare_digest
check_owner none session = err not_owner
check_owner (some owner) session =
    if owner == ""
    then err not_owner
    else compare_digest owner session >>= λ same. require same not_owner

-- The owner in the table, kept in memory when there is one.
unfoldable pub owner_from_row : String → Broker → Broker × Option String
unfolding find_command remember_owner
owner_from_row id b = elim (session_of (find_command id b)) [
  | none ↦ (b, none)
  | some owner ↦ (remember_owner id owner b, some owner)
]

unfoldable pub require_command_owner : String → String → Broker → BrokerCall Unit
unfolding lookup check_owner owner_from_row
require_command_owner id session b = elim (lookup id b.memory.command_sessions) [
  | some owner ↦ (b, check_owner (some owner) session)
  | none ↦ let (b0, owner) = owner_from_row id b in (b0, check_owner owner session)
]

unfoldable pub owned_status : String → String → Broker → BrokerCall BrokerStatus
unfolding require_command_owner status_of
owned_status id session b =
    and_then (require_command_owner id session b) λ _ b0. (b0, status_of id b0)

abbrev is_registered : Option String → List String → Bool
is_registered none digests = false
is_registered (some d) digests = is_in d digests

-- What `submit_command` checks of the envelope.
unfoldable pub accept_command : BrokerConfig → Json → Checked BrokerCommand
unfolding from_mapping is_in
accept_command c envelope = from_mapping envelope >>= λ command.
    require (is_in command.command c.allowed_commands) command_disabled
    >> require (is_in command.profile c.allowed_profiles) profile_refused
    >> require (is_in command.pair_digest c.allowed_pair_digests) pair_unregistered
    >> require (command.config_digest == c.config_digest) other_config
    >> require
        (not (command.command == b3_reading)
          || is_registered command.selection_manifest_digest c.allowed_selection_manifest_digests)
        selection_unregistered
    >> ok command

abbrev pub idempotency_of : Library → BrokerCommand → String
idempotency_of l command = l.sha256 (l.dumps command)

unfoldable pub find_key : String → List CommandRow → Option CommandRow
unfolding find
find_key key rows = find (λ r. r.idempotency_key) key rows

abbrev pub new_row : String → String → String → BrokerCommand → CommandRow
new_row id key session command = record {
  command_id = id;
  details = command;
  session_id = some session;
  worker_capability_digest = none;
  worker_capability_consumed = false;
  idempotency_key = key;
  status = queued;
}

-- A row that the PRIMARY KEY or the UNIQUE constraint refuses to have beside a new one.
abbrev pub conflicts : String → String → CommandRow → Bool
conflicts id key r = r.command_id == id || r.idempotency_key == key

-- The dictionaries are written before the INSERT.
unfoldable pub insert_command :
    String → String → String → BrokerCommand → Broker → BrokerCall BrokerStatus
unfolding remember_owner remember_key remember_command any set_rows
insert_command id key session command b =
    let b0 = remember_owner id session (remember_command id command (remember_key key id b)) in
    if any (conflicts id key) b.database.rows then (b0, err row_refused) else (
      set_rows (new_row id key session command ∷ b.database.rows) b0,
      ok record { command_id = id; status = queued },
    )

abbrev pub session_or_blank : Option String → String
session_or_blank none = ""
session_or_blank (some s) = s

-- The row that another process, or this one before a restart, has for the key.
unfoldable pub known_row : String → String → CommandRow → Broker → BrokerCall BrokerStatus
unfolding remember_owner remember_key owned_status
known_row key session r b =
    owned_status r.command_id session (
      remember_owner r.command_id (session_or_blank r.session_id) (remember_key key r.command_id b))

-- The rest of `submit_command`, with the fresh command id.
unfoldable pub enqueue : String → String → String → BrokerCommand → Broker → BrokerCall BrokerStatus
unfolding lookup owned_status find_key known_row insert_command
enqueue id key session command b = elim (lookup key b.memory.idempotency) [
  | some known ↦ owned_status known session b
  | none ↦ elim (find_key key b.database.rows) [
    | some r ↦ known_row key session r b
    | none ↦ insert_command id key session command b
  ]
]

-- What a browser sends with each request.
pub record Credentials : Type 0 where
  pub origin : Option String
  pub session_id : String
  pub csrf_token : String

abbrev pub authorize : BrokerConfig → ℕ → Credentials → Broker → BrokerCall Unit
authorize c now q b = authorize_session c now q.origin q.session_id q.csrf_token b

unfoldable pub submit_command :
    Library → BrokerConfig → ℕ → String → Credentials → Json → Broker → BrokerCall BrokerStatus
unfolding authorize_session accept_command enqueue
submit_command l c now id q envelope b = and_then (authorize c now q b) λ _ b0.
    and_then (b0, accept_command c envelope)
      λ command b1. enqueue id (idempotency_of l command) q.session_id command b1

unfoldable pub status_for_session :
    BrokerConfig → ℕ → Credentials → String → Broker → BrokerCall BrokerStatus
unfolding authorize_session owned_status
status_for_session c now q id b =
    and_then (authorize c now q b)
      λ _ b0. if id == "" then (b0, err no_command_id) else owned_status id q.session_id b0

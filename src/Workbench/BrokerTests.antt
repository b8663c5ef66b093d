-- ===== src/Workbench/BrokerTests.antt =====
-- The theorems of the host broker at concrete inputs.
use sentinel_security_platfo.Base.{
  ◌≤◌, String, ◌≡◌, refl, true, false, none, some, List, [], ◌∷◌, ok, err, Option, arith, count_if,
}
use sentinel_security_platfo.Base.Json.{Json, object, string, field, end_fields}
use sentinel_security_platfo.Base.Table.{find}
use sentinel_security_platfo.Workbench.Broker.{
  Broker, CommandRow, CommandStatus, Database, Library, command_key, empty_memory, is_queued,
  is_running, queued, running, succeeded,
}
use sentinel_security_platfo.Workbench.Broker.Protocol.{
  BrokerCommand, BrokerViolation, command_schema, fixture_scan,
}
use sentinel_security_platfo.Workbench.Broker.Config.{BrokerConfig}
use sentinel_security_platfo.Workbench.Broker.Sessions.{BootstrapRequest, BrokerSession, bootstrap}
use sentinel_security_platfo.Workbench.Broker.Queue.{
  BrokerStatus, Credentials, status_for_session, submit_command,
}
use sentinel_security_platfo.Workbench.Broker.Worker.{
  authorize_worker_claim, finish_worker_command, open_broker,
}
use sentinel_security_platfo.Workbench.Broker.History.{
  BrokerHistory-settled, Finds, IsUnique, and_call, finishes, on, start,
}
use sentinel_security_platfo.Workbench.Broker.Shown.{IsProven}
use sentinel_security_platfo.Workbench.Broker.Authority.{authorize_worker_claim-once}
use sentinel_security_platfo.Workbench.Broker.Process.{
  Process, bootstraps, opened, status_for_session-IsOwner, submits,
}
use sentinel_security_platfo.Workbench.Broker.Draining.{claim_all, claim_all-running, waiting}
use sentinel_security_platfo.Workbench.Broker.Startup.{bootstrap-once}

abbrev digest : String
digest = "0123456789abcdef0123456789abcdef0123456789abcdef0123456789abcdef"

abbrev library : Library
library = record { sha256 = λ s. s; dumps = λ c. c.command; lower = λ s. s; second = 1 }

abbrev config : BrokerConfig
config = record {
  ui_origin = "http://127.0.0.1:3000";
  startup_capability = "startup-capability";
  config_digest = digest;
  allowed_profiles = "default" ∷ [];
  allowed_pair_digests = digest ∷ [];
  allowed_commands = fixture_scan ∷ [];
  allowed_selection_manifest_digests = [];
  ttl = 300;
}

abbrev scan : BrokerCommand
scan = record {
  command = fixture_scan;
  profile = "default";
  pair_digest = digest;
  config_digest = digest;
  selection_manifest_digest = none;
}

abbrev row : String → Option String → CommandStatus → CommandRow
row id capability status = record {
  command_id = id;
  details = scan;
  session_id = some "session";
  worker_capability_digest = capability;
  worker_capability_consumed = false;
  idempotency_key = id;
  status = status;
}

abbrev with_rows : List CommandRow → Database
with_rows rows = record { rows = rows; startups = [] }

abbrev done_row : CommandRow
done_row = row "c1" (some "cap") succeeded

done_row-found : find command_key "c1" (done_row ∷ []) ≡ some done_row
unfolding find
done_row-found = refl

BrokerHistory-settled_example :
    find command_key "c1"
      (finish_worker_command "c1" false
        (on empty_memory (with_rows (done_row ∷ [])))).0.database.rows
    ≡ some done_row
BrokerHistory-settled_example =
    BrokerHistory-settled "c1" done_row {l = library} {d = with_rows (done_row ∷ [])} refl
      (and_call start (finishes empty_memory "c1" false)) done_row-found

abbrev claimed : Broker
claimed = on empty_memory (with_rows (row "c1" (some "cap") running ∷ []))

claimed-IsUnique : IsUnique claimed.database.rows
unfolding find
claimed-IsUnique = ((refl, tt), (refl, tt))

claimed-accepted : (authorize_worker_claim library "c1" "cap" claimed).1 ≡ true
unfolding authorize_worker_claim
claimed-accepted = refl

authorize_worker_claim-once_example :
    (authorize_worker_claim library "c1" "cap"
      (on empty_memory (authorize_worker_claim library "c1" "cap" claimed).0.database)).1
    ≡ false
authorize_worker_claim-once_example =
    authorize_worker_claim-once library "c1" "cap" "cap" claimed empty_memory claimed-IsUnique
      claimed-accepted start

abbrev two_queued : Broker
two_queued = on empty_memory (with_rows (row "c2" none queued ∷ row "c1" none queued ∷ []))

two_queued-IsUnique : IsUnique two_queued.database.rows
unfolding find
two_queued-IsUnique = ((refl, (refl, tt)), (refl, (refl, tt)))

two_queued-wait : waiting two_queued.database.rows ≤ 2
unfolding count_if
two_queued-wait = omega arith

second-queued : Finds (λ r. is_queued r.status ≡ true) "c2" two_queued.database.rows
unfolding find
second-queued = (row "c2" none queued, refl, refl)

claim_all-running_example :
    Finds
      (λ r. is_running r.status ≡ true)
      "c2"
      (claim_all library ("k1" ∷ "k2" ∷ []) two_queued).database.rows
    × (waiting (claim_all library ("k1" ∷ "k2" ∷ []) two_queued).database.rows ≡ 0)
claim_all-running_example =
    claim_all-running library ("k1" ∷ "k2" ∷ []) "c2" two_queued two_queued-IsUnique two_queued-wait
      second-queued

abbrev request : BootstrapRequest
request = record {
  origin = some "http://127.0.0.1:3000";
  body = field "startup_capability" (string "startup-capability") end_fields;
  request_target = "/api/bootstrap";
  request_headers = ("content-type", "application/json") ∷ [];
}

abbrev new_broker : Broker
new_broker = open_broker true (on empty_memory (with_rows []))

abbrev session : BrokerSession
session = record { session_id = "s1"; csrf_token = "t1"; max_age = 300 }

session-opens : (bootstrap library config request 0 "s1" "t1" new_broker).1 ≡ ok session
unfolding bootstrap open_broker
session-opens = refl

bootstrap-once_example :
    (e : BrokerViolation) × ((bootstrap library config request 9 "s2" "t2"
        (on empty_memory (bootstrap library config request 0 "s1" "t1" new_broker).0.database)).1
      ≡ err e)
bootstrap-once_example =
    bootstrap-once library config config request request 0 9 "s1" "t1" "s2" "t2" session new_broker
      empty_memory refl session-opens start

abbrev with_session : Broker
with_session = (bootstrap library config request 0 "s1" "t1" new_broker).0

abbrev credentials : Credentials
credentials = record { origin = some "http://127.0.0.1:3000"; session_id = "s1"; csrf_token = "t1" }

abbrev envelope : Json
envelope = object (
    field "schema_version" (string command_schema) (
      field "command" (string fixture_scan) (
        field "profile" (string "default") (
          field "pair_digest" (string digest) (field "config_digest" (string digest) end_fields)))))

abbrev with_command : Broker
with_command = (submit_command library config 1 "c1" credentials envelope with_session).0

with_command-opened : Process library config (on empty_memory (with_rows [])) with_command
unfolding find open_broker bootstrap
with_command-opened =
    submits 1 "c1" credentials envelope refl (bootstraps request 0 "s1" "t1" (opened true))

abbrev shown : BrokerStatus
shown = record { command_id = "c1"; status = queued }

status-shown : (status_for_session config 2 credentials "c1" with_command).1 ≡ ok shown
unfolding submit_command status_for_session bootstrap open_broker
status-shown = refl

status_for_session-IsOwner_example :
    Finds
      (λ r. (r.session_id ≡ some "s1") × (shown ≡ record { command_id = "c1"; status = r.status }))
      "c1"
      with_command.database.rows
    × IsProven config 2 credentials with_command
status_for_session-IsOwner_example =
    status_for_session-IsOwner 2 credentials "c1" shown (tt, tt) with_command-opened status-shown

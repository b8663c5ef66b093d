-- ===== src/Workbench/Broker/Protocol.antt =====
-- workbench/broker_protocol.py: the commands that a browser may submit to the host broker, and what
-- the broker and this module raise (`ContractViolation`, by its message).
use sentinel_security_platfo.Base.{
  String, Bool, true, false, Option, none, some, List, [], ◌∷◌, Result, ok, err, ◌>>=◌, require,
  is_digest, ◌==◌, if◌then◌else◌,
}
use sentinel_security_platfo.Base.Json.{
  Json, string, object, Fields, get, has_fields, is_string, is_in,
}

-- The messages of `ContractViolation`, and the database's IntegrityError for a row it refuses.
pub data BrokerViolation : Type 0 where
  inexact_envelope unsupported_schema not_allowlisted bad_digest : BrokerViolation
  inexact_origin not_loopback other_origin : BrokerViolation
  capability_in_url capability_in_header capability_in_referrer : BrokerViolation
  not_json_content bad_capability capability_consumed : BrokerViolation
  other_method other_headers no_session bad_csrf not_ascii : BrokerViolation
  command_disabled profile_refused pair_unregistered other_config : BrokerViolation
  selection_unregistered row_refused unknown_command no_command_id not_owner : BrokerViolation
  not_running lost_claim : BrokerViolation
  weak_capability no_profile no_pair bad_commands no_selection bad_ttl : BrokerViolation

abbrev pub Checked : Type 0 → Type 0
Checked A = Result BrokerViolation A

pub record BrokerCommand : Type 0 where
  pub command : String
  pub profile : String
  pub pair_digest : String
  pub config_digest : String
  pub selection_manifest_digest : Option String

abbrev pub command_schema : String
command_schema = "sentinel-workbench-broker-command/v1"

abbrev pub fixture_scan : String
fixture_scan = "run-fixture-scan"

abbrev pub b3_reading : String
b3_reading = "run-b3-reading"

-- `_digest` of contracts.py
unfoldable digest_of : Json → Checked String
unfolding is_digest
digest_of (string t) = if is_digest t then ok t else err bad_digest
digest_of _ = err bad_digest

-- `isinstance(value, str) and value`
unfoldable label_of : Json → Checked String
label_of (string t) = if t == "" then err not_allowlisted else ok t
label_of _ = err not_allowlisted

abbrev base_fields : List String
base_fields = "schema_version" ∷ "command" ∷ "profile" ∷ "pair_digest" ∷ "config_digest" ∷ []

unfoldable envelope_fields : Bool → List String
envelope_fields b3 = if b3 then "selection_manifest_digest" ∷ base_fields else base_fields

unfoldable selection_of : Bool → Fields → Checked (Option String)
unfolding digest_of get
selection_of false envelope = ok none
selection_of true envelope =
    digest_of (get "selection_manifest_digest" envelope) >>= λ d. ok (some d)

unfoldable known_command : Json → Checked String
unfolding is_in
known_command (string t) =
    if is_in t (fixture_scan ∷ b3_reading ∷ []) then ok t else err not_allowlisted
known_command _ = err not_allowlisted

-- `from_mapping`, of a dict
unfoldable command_from_fields : Fields → Checked BrokerCommand
unfolding has_fields envelope_fields is_string get known_command label_of selection_of digest_of
command_from_fields envelope =
    let b3 = is_string b3_reading (get "command" envelope) in
    require (has_fields (envelope_fields b3) envelope) inexact_envelope >>= λ _.
    require (is_string command_schema (get "schema_version" envelope)) unsupported_schema >>= λ _.
    known_command (get "command" envelope) >>= λ command.
    label_of (get "profile" envelope) >>= λ profile. selection_of b3 envelope >>= λ selection.
    digest_of (get "pair_digest" envelope) >>= λ pair.
    digest_of (get "config_digest" envelope) >>= λ config. ok record {
      command = command;
      profile = profile;
      pair_digest = pair;
      config_digest = config;
      selection_manifest_digest = selection;
    }

unfoldable pub from_mapping : Json → Checked BrokerCommand
unfolding command_from_fields
from_mapping (object envelope) = command_from_fields envelope
from_mapping _ = err inexact_envelope

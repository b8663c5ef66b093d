-- ===== src/Workbench/Tests.antt =====
-- The theorems of the Workbench applied to a store with one reservation and to a fixture host.
use sentinel_security_platfo.Base.{
  String, ◌≡◌, refl, ◌≢◌, ◌≤◌, true, some, [], ◌∷◌, arith, length, count_if, has_white, is_digest,
}
use sentinel_security_platfo.Base.Table.{find, update_where}
use sentinel_security_platfo.Workbench.Attempts.{
  unknown, B3Attempt, AttemptStore, Reservation, find_attempt, reserve, new_attempt,
  profile_is_revoked, revoke_profile, mark_dispatched, mark_terminal, status,
  recover_stranded_dispatches,
}
use sentinel_security_platfo.Workbench.Attempts.History.{
  start, and_call, reserves, revokes, marks_dispatched, restarts, IsExactlyOnce, in_flight,
  AttemptHistory-IsExactlyOnce, AttemptHistory-settled, AttemptHistory-revoked,
}
use sentinel_security_platfo.Workbench.Egress.{
  EgressTools, SelectionManifest, proposal_ids, text, prepare_b3_request, quarantine_response,
  admitted_unit_ids,
}
use sentinel_security_platfo.Workbench.Dispatch.{Host, DispatchRequest, dispatch}
use sentinel_security_platfo.Workbench.Dispatch.Outcome.{IsShared}
use sentinel_security_platfo.Workbench.Dispatch.Sent.{IsSettledAt}
use sentinel_security_platfo.Workbench.Dispatch.Once.{dispatch-settles, dispatch-once}

abbrev manifest_digest : String
manifest_digest = "0123456789abcdef0123456789abcdef0123456789abcdef0123456789abcdef"

abbrev reading_one : Reservation
reading_one = record {
  run_id = "run-1";
  arm = "B3";
  replication = 1;
  selection_manifest_digest = manifest_digest;
  profile = "workbench-b3-no-trace";
  unit_id = "unit-a";
}

abbrev no_attempts : AttemptStore
no_attempts = record { attempts = []; revoked_profiles = [] }

abbrev one_reserved : AttemptStore
one_reserved = record { attempts = new_attempt reading_one "id-1" ∷ []; revoked_profiles = [] }

abbrev lost_attempt : B3Attempt
lost_attempt = record (new_attempt reading_one "id-1") {
  status = unknown;
  terminal_reason = some "timeout";
}

abbrev one_lost : AttemptStore
one_lost = record { attempts = lost_attempt ∷ []; revoked_profiles = "workbench-b3-no-trace" ∷ [] }

no_attempts-IsExactlyOnce : IsExactlyOnce no_attempts
unfolding count_if
no_attempts-IsExactlyOnce = (λ q. omega arith, tt)

AttemptHistory-IsExactlyOnce_example : IsExactlyOnce (reserve reading_one "id-1" no_attempts).0
AttemptHistory-IsExactlyOnce_example =
    AttemptHistory-IsExactlyOnce (and_call start (reserves reading_one "id-1"))
      no_attempts-IsExactlyOnce

lost_attempt-found : find_attempt "id-1" one_lost ≡ some lost_attempt
unfolding find_attempt find
lost_attempt-found = refl

AttemptHistory-settled_example :
    find_attempt "id-1" (mark_dispatched "id-1" "workbench-b3-no-trace" one_lost).0
    ≡ some lost_attempt
AttemptHistory-settled_example =
    AttemptHistory-settled "id-1" lost_attempt {s = one_lost} refl
      (and_call start (marks_dispatched "id-1" "workbench-b3-no-trace")) lost_attempt-found

AttemptHistory-revoked_example :
    (profile_is_revoked "workbench-b3-no-trace"
        (mark_dispatched "id-1" "workbench-b3-no-trace" one_lost).0
      ≡ true)
    × (in_flight "workbench-b3-no-trace"
          (mark_dispatched "id-1" "workbench-b3-no-trace" one_lost).0.attempts
        ≤ 0)
unfolding profile_is_revoked in_flight
AttemptHistory-revoked_example =
    AttemptHistory-revoked "workbench-b3-no-trace" 0
      (and_call start (marks_dispatched "id-1" "workbench-b3-no-trace")) (refl, omega arith)

abbrev plain_tools : EgressTools
plain_tools = record {
  utf8_length = λ t. 10;
  redact_secrets = λ t. some (t, []);
  redact_pii = λ t. some (t, 0);
  sha256 = λ t. manifest_digest;
  proposals_json = λ ids. "{}";
}

abbrev one_unit : SelectionManifest
one_unit = record {
  digest = manifest_digest;
  slices =
      record { slice_id = "unit-a"; canonical_unit = "f()"; dependency_context = "import f" } ∷ [];
  is_authorized = true;
}

abbrev fixture_host : Host
fixture_host = record {
  tools = plain_tools;
  route_id = "workbench-b3-no-trace";
  is_healthy = true;
  transport = λ prompt. some (proposal_ids (text "unit-a" ∷ []));
  meanwhile = λ s. s;
  during_call = λ s. (revoke_profile "workbench-b3-no-trace" s).0;
}

abbrev first_dispatch : DispatchRequest
first_dispatch = record {
  run_id = "run-1";
  selection = one_unit;
  reading = 1;
  unit_id = "unit-a";
  fresh_id = "id-1";
}

abbrev second_dispatch : DispatchRequest
second_dispatch = record first_dispatch { fresh_id = "id-2" }

fixture_host-IsShared : IsShared fixture_host
fixture_host-IsShared = (λ s. start, λ s. and_call start (revokes "workbench-b3-no-trace"))

one_prompt : length (dispatch fixture_host first_dispatch no_attempts).sent ≡ 1
unfolding dispatch reserve has_white is_digest find prepare_b3_request mark_dispatched status
    update_where quarantine_response admitted_unit_ids mark_terminal revoke_profile
one_prompt = refl

first_sends : (dispatch fixture_host first_dispatch no_attempts).sent ≢ []
first_sends silent = ground (arith, one_prompt, silent)

dispatch-settles_example :
    IsSettledAt "id-1" (dispatch fixture_host first_dispatch no_attempts).store
dispatch-settles_example =
    dispatch-settles fixture_host fixture_host-IsShared first_dispatch no_attempts
      no_attempts-IsExactlyOnce first_sends

dispatch-once_example :
    (dispatch fixture_host second_dispatch
      (recover_stranded_dispatches (dispatch fixture_host first_dispatch no_attempts).store)).sent
    ≡ []
dispatch-once_example =
    dispatch-once fixture_host fixture_host first_dispatch second_dispatch no_attempts
      fixture_host-IsShared (refl, refl, refl, refl) no_attempts-IsExactlyOnce first_sends
      (and_call start restarts)

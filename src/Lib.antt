-- ===== src/Lib.antt =====
-- The charter executor, the dispatch boundaries, the host broker and the human approval gate of the
-- Sentinel security platform.
--
-- Four gates of the platform decide whether an agent's request reaches the outside world or a
-- state change runs, most of them by a SQLite file that several processes share.
--
-- The charter path (agent/charter_requests.py, agent/charter_approval.py,
-- agent/charter_response_guard.py): an operator signs an approval for one request of a fixed
-- catalogue; the executor verifies it, reserves the request in the store, records the dispatch,
-- mints a token, sends the request once, and settles it by the response; a restart or the audit
-- log of the gateway settles what was left open.
-- - Charter.Spec, Charter.Spec.Make: SAFE_REQUEST_CASES, RequestSpec, validate_spec, make_spec.
--   Charter.Spec.Validation says what a valid spec is.
-- - Charter.Approval: CharterApproval, sign, verify.
-- - Charter.Store, Charter.Store.Authorize, Charter.Store.Settle: RequestStore, its tables as lists
--   of rows (newest first), the recovery of __init__, _transition, authorize_prepare,
--   dispatch_if_not_revoked, _terminalize_from and the methods on them. Charter.Store.Steps
--   breaks every method into its writes, Charter.Store.History puts commits in sequence,
--   Charter.Store.Open is the opening of the file: its schema, and twenty attempts to get the lock.
--   Charter.Store.Moves, Quota, Trail, Audit, Finality and Granting reason about them.
--   Atomicity: what the source runs under BEGIN IMMEDIATE is one step of a history. The three
--   statements of _transition, where unknown() and terminalize_pre_target_failure() call it, stand
--   in no transaction, so update_state and insert_event are steps of their own there: the UPDATE,
--   which does not test the state, and the INSERT may come at any later time, or never after a
--   crash. transition itself is their run without interruption. The method dispatched(), which
--   only tests call, is in no history.
-- - Charter.Guard, Charter.Guard.Media, Charter.Guard.Prefix: guard_response_preview,
--   _media_reason, _bounded_prefix. Charter.Guard.JsonMedia and Acceptance reason about them.
-- - Charter.Execute: execute, with the network as a list of Io. A call is taken by itself: no other
--   opener writes between its store calls, no store call fails with a database error, and it does
--   not crash. Charter.Execute.Stages, Network and Settled reason about it; what interleaving and
--   crashes leave of the store is said of its histories.
-- - Charter.Reconcile: audit_candidate, reconcile_audit, terminalize_audit_projection.
--   Charter.Reconcile.Records and Evidence reason about them.
-- - Charter.Receipt, Charter.Receipt.Audit: the validators of receipts and audit artifacts
--   (agent/charter_receipt.py). Charter.Receipt.Counted, Guarded, Sealed and Answer lead from the
--   executor's answer to the sealed contract.
--
-- The Workbench's B3 boundary (workbench/b3_attempt_store.py, workbench/egress.py,
-- workbench/b3_dispatcher.py): each reading of a source unit by the model provider is reserved,
-- redacted, dispatched once and settled.
-- - Workbench.Attempts: B3AttemptStore, all methods. Workbench.Attempts.Steps, History and Outcomes
--   reason about it.
-- - Workbench.Egress: prepare_b3_request, quarantine_response, and SelectionManifest of
--   workbench/analysis_population.py.
-- - Workbench.Dispatch: B3Dispatcher.dispatch; its children reason about it.
--
-- The Workbench's host broker (workbench/host_broker.py, workbench/broker_protocol.py) queues typed
-- commands of a browser session in a database and hands each to one worker.
-- - Workbench.Broker, Workbench.Broker.Protocol, Config, Sessions, Queue and Worker: HostBroker with
--   its database, and BrokerCommand. A process has its memory; the database is shared, and a
--   history interleaves the calls of any processes. Workbench.Broker.Steps and History break the
--   methods into writes of the table; Authority, Startup, Draining, Ownership, Shown and Process
--   reason about them.
--
-- Beside it stand smaller parts of the Workbench.
-- - Workbench.Cmc: ActiveRequestStore (workbench/active_request_store.py); Workbench.Cmc.History
--   reasons about it.
-- - Workbench.Truth: match_worklist (workbench/truth_matcher.py), and Workbench.Truth.Manifest:
--   TruthManifest.from_mapping (workbench/contracts.py); Workbench.Truth.Places, Partition and Attribution
--   reason about them. Quotients are pairs of numerator and denominator.
-- - Workbench.Gates, Workbench.Gates.Ledger: the gates of workbench/corpus_gates.py and
--   evaluate_inventory_admission. Workbench.Gates.Criteria, Clusters and Admission reason about them.
-- - Workbench.Selection: conservative_b1_closure (workbench/selection.py), with its `while` on fuel:
--   a unit enters the queue once, so as many rounds as there are units, and changed units at the
--   start, are enough. Workbench.Selection.Neighbors, Reach, Visiting and Closure reason
--   about it.
--
-- The human approval of exploit proposals (agent/approval.py, agent/supervisor.py) is the last gate:
-- a signed token lets one simulated state change run, and a ledger file keeps the used nonces and
-- an audit trail.
-- - Hitl: verify_approval, ApprovalLedger. Hitl.StateChange: state_change_node. Hitl.SingleUse
--   reasons about the ledger.
--
-- Base holds what all share: Boolean tests, lists measured by native numbers, texts as code
-- points, results and transactions, tables with a primary key (Base.Table), counting (Base.Count),
-- dictionaries (Base.Dict) and decoded JSON (Base.Json).
--
-- Clock readings are natural numbers of microseconds, arguments of the calls; a history has clocks
-- that do not run backwards. Audit times are milliseconds, as in the log. Every definition is
-- structurally recursive, but for the closure's loop; the only other bound is the twenty attempts
-- of the source's own loop. Numbers of the source are Python's unbounded ints.
--
-- Parameters, since they are not code of the repository or are regular expressions: Platform
-- (json.dumps, SHA-256, Ed25519, str.upper, the environment), Scanner (the UTF-8 decoder, the PII
-- patterns and the attempt patterns), Executor and Host (transport, clocks, health check),
-- EgressTools (redactors, digests, lengths), Verifier (SHA-256, JSON, Ed25519,
-- redaction), Library (SHA-256, json.dumps, str.lower, the clock's resolution), Files
-- (file tests, contents and digests). Fresh ids and nonces are arguments.
--
-- Not modelled: the decoding of JSON itself, load_spec and parse_kong_file_log, pauses between
-- retries, file modes, B3 routes and key files, the broker without a database and the migration of
-- its older table, and the rest of the platform (agents, scanners, HTTP and worker processes,
-- corpus, retrieval, evaluation, infrastructure).
pub mod Base
pub mod Charter
pub mod Workbench
pub mod Hitl

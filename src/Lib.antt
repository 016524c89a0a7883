-- ===== src/Lib.antt =====
-- The worker of the coding orchestrator (src/axms_coding_orchestrator): it takes job references from a
-- Valkey queue, resolves and claims their jobs at the worker API, runs the graph of the job's profile,
-- and reports the outcome.
--
-- Parts, and the files that model them:
-- - Queue: queue.py. Queue/Store is the server: the four lists and the hash of counters that the keys
--   name, the commands used and the two Lua scripts. Queue/Delivery is `ValkeyJobQueue`: pop, ack,
--   requeue, _quarantine, recover_stale, _tracked_delivery and _discard_poison. Each call of the server
--   may fail before or after it took effect (`Fault`). What json.loads makes of an entry's bytes is the
--   parameter `decode`. The loop of recover_stale is given one round more than there are entries.
-- - Contracts: contracts.py. `QueuedJobReference.from_dict` is in Contracts, with the fields of
--   `CodingJobRequested` and `WorkerClaim` that the worker reads; Contracts/Checks has the checks of
--   single fields, Contracts/Event `CodingJobRequested.from_dict`, Contracts/Claim
--   `ClaimSnapshot.from_dict`, `WorkerClaim.from_dict` and `validate_lease_response`; `validate_outcome_receipt`
--   is in Worker/Receipt. What
--   datetime.fromisoformat reads is the parameter `instant_of`. Json: the values that are checked.
-- - Snapshot: snapshot.py. `from_dict` of the records is in Snapshot/Parse, on the checks of fields in
--   Snapshot/Checks; `_freeze_json` and `_thaw_json` are in Snapshot/Freeze. The records are in
--   Snapshot, `_reachable_nodes` and `_contains_cycle` in Snapshot/Graph, `validate_snapshot` in
--   Snapshot/Validate. A dict of sets is an association list of lists without repeats; a set's order,
--   which Python leaves open, is the order of insertion. The searches carry fuel: as many rounds as
--   there are edges and one more for `_reachable_nodes`, the number of nodes for `_contains_cycle`.
-- - Node: node_runtime.py. Node/Freeze and Node/Create are `NodeInvocation.create` and
--   `NodeResult.create` with the checks of their fields, Node/Registry is `NodeRegistry`.
-- - Builder: graph_builder.py. Builder/Compile is `SnapshotGraphBuilder.compile`, Builder/Action the
--   action of a node (`_node_action`) and the router of its ports, and Builder/Run a run of the compiled
--   graph: LangGraph runs a node's action, merges the updates into the state and follows the edges
--   that `compile` added, until END, at most as many times as its recursion limit says. Handlers are
--   functions of the world outside, which they may change.
-- - CommonHandlers: common_handlers.py, the handlers of the common nodes and their registry.
-- - Runner: snapshot_runner.py. Runner/Limit is `_recursion_limit`, which bounds a run of the compiled
--   graph. Runner/Stored and Runner/Approval read a checkpoint and write to it, Runner/Plan is what
--   `invoke` decides from a checkpoint before it touches the graph and what `is_duplicate` answers, and
--   Runner/Invoke makes the calls; LangGraph's get_state, update_state and invoke, the provider and sha256
--   are the fields of `Engine`. `Event` and `Claim` hold what `to_dict` returns beside the parsed value.
-- - Legacy: graph.py. Legacy/Delivery is `CodingGraphRunner`, as far as it decides what to do with a
--   delivery, and Legacy/Approved is `approval_node`, given what `interrupt` returns.
-- - Defaults: default_coding_snapshot.py and default_natural_cms_snapshot.py, the documents as constants,
--   which Scenarios/Proposals puts through `VersionedSnapshot.from_dict`.
-- - Worker: service.py. Worker/Failure reads exceptions (`_classify_failure` and the tests of it),
--   Worker/Process is `WorkerLoop.process` with its retries and reports, and Worker/Loop is `run` of
--   both loops over the queue, and `NaturalCmsWorkerLoop.process`. The worker API, the graph and the
--   heartbeat manager are functions over a state of their own (`Collaborators`) that may answer or
--   raise anything; the calls made to them are kept as a list.
--   Worker/Heartbeat is heartbeat.py: the lease records, `ensure_current`, and each iteration of a
--   heartbeat thread as a step of its own, so that the threads' interleavings are lists of events.
--   Worker/Health is `HealthState`, with how each probe would end as an argument. Worker/Sending is the
--   part of worker_api.py that checks a report before it is sent, and Worker/Remote and Worker/Receipt the
--   parts that read the answers. How the transport ends and which texts uuid.UUID reads are arguments there.
-- - Scenarios: tests, and uses of the theorems on small inputs.
--
-- A Python str is the list of its code points. Integers that Python keeps unbounded are natural
-- numbers; only a value of JSON may be negative, which is a constructor of its own there. The names of
-- a mapping are taken to be distinct, as those of a dict are.
--
-- Not modelled: the HTTP beneath the clients and the clients of the gateways, the metrics, the database
-- behind the checkpoints, the environment's configuration, the health server and the waits between
-- iterations, which are input and output or have no effect on a job; the node handlers of the two
-- profiles, and the nodes of the legacy graph other than its approval. A node's action is observed by
-- observability.py, which calls it once and passes on what comes of it.
pub mod Base
pub mod Json
pub mod Contracts
pub mod Queue
pub mod Snapshot
pub mod Runner
pub mod Legacy
pub mod Defaults
pub mod Node
pub mod Builder
pub mod CommonHandlers
pub mod Worker
pub mod Scenarios

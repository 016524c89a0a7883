-- ===== src/Runner.antt =====
-- snapshot_runner.py: running snapshots for the worker.
pub mod Limit
pub mod Equal
pub mod Stored
pub mod Approval
pub mod Plan
pub mod Invoke
pub mod Written
pub mod Ordered
pub mod Duplicate
pub mod Answered
pub mod Performed
pub mod Authority
pub mod Execution
use urizo_final_orchestrator.Base.{ℕ, Bool, Str, codes, Option, List}
use urizo_final_orchestrator.Json.{Value, Fields}
use urizo_final_orchestrator.Contracts.{CodingJobRequested, WorkerClaim}
use urizo_final_orchestrator.Snapshot.{VersionedSnapshot}
use urizo_final_orchestrator.Worker.Failure.{Failure, graph_execution}

-- An event and a claim with what their `to_dict` returns.
pub record Event : Type 0 where
  pub requested : CodingJobRequested
  pub dict : Fields

pub record Claim : Type 0 where
  pub claimed : WorkerClaim
  pub dict : Fields

pub record SnapshotExecution : Type 0 where
  pub snapshot : VersionedSnapshot
  pub pipeline_attempt : ℕ
  pub execution_attempt : ℕ
  pub workspace_id : Option Str
  pub tool_call_id : Option Str
  pub context : Fields

-- A task of a checkpoint: its name and the values of its interrupts.
pub record Task : Type 0 where
  pub name : Value
  pub interrupts : List Value

-- What `graph.get_state` returns; `values` is none where it is no mapping.
pub record Checkpoint : Type 0 where
  pub values : Option Fields
  pub tasks : List Task
  pub has_next : Bool

pub data Phase : Type 0 where
  waiting_approval completed running : Phase

-- `_snapshotLedger`
pub record Ledger : Type 0 where
  pub event_ids : List Str
  pub max_state_version : ℕ

-- `_contract_failure`
abbrev pub contract_failure : Failure
contract_failure = graph_execution (codes "CONTRACT_VALIDATION_FAILED") Bool.false

-- `_state_conflict`
abbrev pub state_conflict : Failure
state_conflict = graph_execution (codes "JOB_STATE_VERSION_CONFLICT") Bool.false

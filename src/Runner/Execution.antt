-- ===== src/Runner/Execution.antt =====
-- snapshot_runner.py: `SnapshotExecution.create`.
use urizo_final_orchestrator.Base.{
  ℕ, leb, Str, Option, none, some, if◌then◌else◌, Result, ok, err, ◌>>=◌,
}
use urizo_final_orchestrator.Json.{Value, null, int, text, Fields, end}
use urizo_final_orchestrator.Contracts.{uuid_from}
use urizo_final_orchestrator.Snapshot.{VersionedSnapshot}
use urizo_final_orchestrator.Runner.{SnapshotExecution}
use urizo_final_orchestrator.Runner.Stored.{mapping_in}

-- A ValueError of `SnapshotExecution.create`, by the argument's name.
pub data Refused : Type 0 where
  not_an_integer not_a_uuid not_an_object : Refused

unfoldable pub positive_integer : Value → Result Refused ℕ
positive_integer (int n) = if leb 1 n then ok n else err not_an_integer
positive_integer _ = err not_an_integer

-- `str(UUID(value)) == value` holds of the lower-case form with its dashes.
unfoldable pub optional_uuid : Value → Result Refused (Option Str)
optional_uuid null = ok none
optional_uuid (text t) = if uuid_from 0 t then ok (some t) else err not_a_uuid
optional_uuid _ = err not_a_uuid

unfoldable pub source_of : Value → Result Refused Fields
source_of null = ok end
source_of v = elim (mapping_in (some v)) [ none ↦ err not_an_object | some fs ↦ ok fs ]

unfoldable pub create_execution :
    VersionedSnapshot
    → (pipeline_attempt execution_attempt context workspace_id tool_call_id : Value)
    → Result Refused SnapshotExecution
create_execution snapshot pipeline_attempt execution_attempt context workspace_id tool_call_id = do
  pipeline ← positive_integer pipeline_attempt
  execution ← positive_integer execution_attempt
  workspace ← optional_uuid workspace_id
  tool_call ← optional_uuid tool_call_id
  source ← source_of context
  ok (record {
    snapshot = snapshot;
    pipeline_attempt = pipeline;
    execution_attempt = execution;
    workspace_id = workspace;
    tool_call_id = tool_call;
    context = source;
  })

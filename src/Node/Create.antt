-- ===== src/Node/Create.antt =====
-- node_runtime.py: `NodeInvocation.create`, `NodeResult.create`, and the checks of their fields.
use urizo_final_orchestrator.Base.{
  ℕ, Bool, not, ◌&&◌, Str, leb, Option, none, some, length, Result, ok, err, ◌>>=◌, ◌>>◌, guard,
}
use urizo_final_orchestrator.Json.{Value, null, int, text, dict, end}
use urizo_final_orchestrator.Contracts.{uuid_from}
use urizo_final_orchestrator.Snapshot.Freeze.{contains_surrogate}
use urizo_final_orchestrator.Snapshot.Checks.{is_identifier}
use urizo_final_orchestrator.Node.{NodeViolation, invalid, NodeInvocation, NodeResult}
use urizo_final_orchestrator.Node.Freeze.{freeze_context}

-- `_positive_integer`
unfoldable pub positive_integer : Value → Result NodeViolation ℕ
positive_integer (int n) = guard (leb 1 n) invalid >>= λ _. ok n
positive_integer _ = err invalid

-- `_matched`
unfoldable pub matched : (Str → Bool) → ℕ → Value → Result NodeViolation Str
matched pattern maximum (text t) = do
  guard (not (contains_surrogate t) && (leb 1 (length t) && leb (length t) maximum)) invalid
  guard (pattern t) invalid
  ok t
matched pattern maximum _ = err invalid

-- `_uuid`
unfoldable pub uuid_of : Value → Result NodeViolation Str
uuid_of (text t) = guard (uuid_from 0 t) invalid >>= λ _. ok t
uuid_of _ = err invalid

-- `_optional_uuid`
unfoldable pub optional_uuid : Value → Result NodeViolation (Option Str)
optional_uuid null = ok none
optional_uuid v = do t ← uuid_of v; ok (some t)

-- The keyword arguments of `NodeInvocation.create`.
pub record Arguments : Type 0 where
  pub job_id : Value
  pub profile_version_id : Value
  pub node_id : Value
  pub pipeline_attempt : Value
  pub execution_attempt : Value
  pub state_version : Value
  pub trace_id : Value
  pub workspace_id : Value
  pub tool_call_id : Value
  pub context : Value
  pub config : Value

-- `NodeInvocation.create`
unfoldable pub create : Arguments → Result NodeViolation NodeInvocation
create a = do
  job_id ← uuid_of a.job_id
  profile_version_id ← uuid_of a.profile_version_id
  node_id ← matched is_identifier 64 a.node_id
  pipeline_attempt ← positive_integer a.pipeline_attempt
  execution_attempt ← positive_integer a.execution_attempt
  state_version ← positive_integer a.state_version
  trace_id ← uuid_of a.trace_id
  workspace_id ← optional_uuid a.workspace_id
  tool_call_id ← optional_uuid a.tool_call_id
  context ← freeze_context a.context
  config ← freeze_context a.config
  ok (record {
    job_id = job_id;
    profile_version_id = profile_version_id;
    node_id = node_id;
    pipeline_attempt = pipeline_attempt;
    execution_attempt = execution_attempt;
    state_version = state_version;
    trace_id = trace_id;
    workspace_id = workspace_id;
    tool_call_id = tool_call_id;
    context = context;
    config = config;
  })

-- A port that is given matches RESULT_PORT.
unfoldable pub check_port : Value → Result NodeViolation (Option Str)
check_port null = ok none
check_port v = do t ← matched is_identifier 64 v; ok (some t)

unfoldable pub given_updates : Option Value → Value
given_updates none = dict end
given_updates (some v) = v

-- `NodeResult.create`
unfoldable pub create_result :
    (port : Value) (updates : Option Value) → Result NodeViolation NodeResult
create_result port updates = do
  checked ← check_port port
  frozen ← freeze_context (given_updates updates)
  ok (record { port = checked; updates = frozen })

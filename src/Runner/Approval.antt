-- ===== src/Runner/Approval.antt =====
-- snapshot_runner.py: `_pending_approval` and `_boundary_result`.
use urizo_final_orchestrator.Base.{
  Bool, true, false, ◌&&◌, leb, Str, codes, eq, Option, none, some, List, [], ◌∷◌, ◌++◌, length,
  same_set, ok, err, ◌>>=◌, ◌>>◌, guard,
}
use urizo_final_orchestrator.Json.{Value, text, Fields, field_names, lookup}
use urizo_final_orchestrator.Contracts.{Binding}
use urizo_final_orchestrator.Contracts.Claim.{is_some_text}
use urizo_final_orchestrator.Snapshot.Freeze.{intersects}
use urizo_final_orchestrator.Worker.Sending.{is_positive, is_equal_number, is_exact_uuid}
use urizo_final_orchestrator.Runner.{
  Event, Claim, SnapshotExecution, Task, Checkpoint, Phase, waiting_approval, completed, running,
  contract_failure, state_conflict,
}
use urizo_final_orchestrator.Runner.Stored.{Run, mapping_in, checkpoint_phase}

abbrev pub common_fields : List Str
common_fields =
    codes "schemaVersion"
    ∷ codes "jobId"
    ∷ codes "profileVersionId"
    ∷ codes "nodeId"
    ∷ codes "traceId"
    ∷ codes "stateVersion"
    ∷ []

abbrev pub coding_fields : List Str
coding_fields =
    codes "approvalId"
    ∷ codes "stage"
    ∷ codes "stageRound"
    ∷ codes "requiredRole"
    ∷ codes "pipelineAttempt"
    ∷ []

unfoldable pub items_of_task : Value → List Value → List (Value × Value)
items_of_task name [] = []
items_of_task name (v ∷ vs) = (name, v) ∷ items_of_task name vs

-- `interrupted`
unfoldable pub interrupted : List Task → List (Value × Value)
interrupted [] = []
interrupted (t ∷ ts) = items_of_task t.name t.interrupts ++ interrupted ts

unfoldable pub only_interrupt : List (Value × Value) → Run (Value × Value)
only_interrupt (x ∷ []) = ok x
only_interrupt _ = err contract_failure

unfoldable pub payload_of : Option Fields → Run Fields
payload_of none = err contract_failure
payload_of (some fs) = ok fs

-- `isinstance(node_id, str)`
unfoldable pub name_of : Value → Run Str
name_of (text t) = ok t
name_of _ = err state_conflict

unfoldable pub has_coding_authority : Fields → Bool
has_coding_authority payload = intersects coding_fields (field_names payload)

unfoldable pub has_its_fields : (coding : Bool) → Fields → Bool
has_its_fields true payload = same_set (field_names payload) (common_fields ++ coding_fields)
has_its_fields false payload = same_set (field_names payload) common_fields

unfoldable pub has_positive : (coding : Bool) → Fields → Bool
has_positive true payload =
    is_positive (lookup (codes "stateVersion") payload)
    && (is_positive (lookup (codes "pipelineAttempt") payload)
        && is_positive (lookup (codes "stageRound") payload))
has_positive false payload = is_positive (lookup (codes "stateVersion") payload)

unfoldable pub is_bound_to : Str → Option Binding → Bool
is_bound_to profile none = false
is_bound_to profile (some b) = eq b.profile_version_id profile

unfoldable pub same_attempt : (coding : Bool) → SnapshotExecution → Fields → Bool
same_attempt true execution payload =
    is_equal_number execution.pipeline_attempt (lookup (codes "pipelineAttempt") payload)
same_attempt false execution payload = true

-- `correlations`, and the agreement of the event, the claim and the execution
unfoldable pub is_correlated :
    (coding : Bool) → Str → Event → Claim → SnapshotExecution → Fields → Bool
is_correlated coding node_id event claim execution payload =
    is_some_text (codes "1.0") (lookup (codes "schemaVersion") payload)
    && (is_some_text event.requested.job_id (lookup (codes "jobId") payload)
        && (is_some_text execution.snapshot.profile_version_id
              (lookup (codes "profileVersionId") payload)
            && (is_some_text node_id (lookup (codes "nodeId") payload)
                && (is_some_text claim.claimed.trace_id (lookup (codes "traceId") payload)
                    && (is_equal_number claim.claimed.state_version
                          (lookup (codes "stateVersion") payload)
                        && (same_attempt coding execution payload
                            && (eq claim.claimed.job_id event.requested.job_id
                                && (eq claim.claimed.profile_version_id
                                      execution.snapshot.profile_version_id
                                    && (is_bound_to execution.snapshot.profile_version_id
                                          event.requested.binding
                                        && eq event.requested.trace_id
                                            claim.claimed.trace_id)))))))))

unfoldable pub is_filled : Option Value → Bool
is_filled (some (text t)) = leb 1 (length t)
is_filled _ = false

unfoldable pub has_authority : (coding : Bool) → Fields → Bool
has_authority false payload = true
has_authority true payload =
    is_exact_uuid (lookup (codes "approvalId") payload)
    && (is_filled (lookup (codes "stage") payload)
        && is_filled (lookup (codes "requiredRole") payload))

-- `_pending_approval`
unfoldable pub pending_approval : Checkpoint → Event → Claim → SnapshotExecution → Run Fields
pending_approval checkpoint event claim execution = do
  (name, value) ← only_interrupt (interrupted checkpoint.tasks)
  payload ← payload_of (mapping_in (some value))
  let coding = has_coding_authority payload
  guard (has_its_fields coding payload) contract_failure
  guard (has_positive coding payload) contract_failure
  node_id ← name_of name
  guard (is_correlated coding node_id event claim execution payload) state_conflict
  guard (has_authority coding payload) contract_failure
  ok payload

-- What the runner hands to the worker: the state's values, and an approval that is waited for.
pub record Boundary : Type 0 where
  pub status : Phase
  pub values : Fields
  pub approval : Option Fields

-- `_boundary_result`: `status` and `pendingApproval` take the place of entries under these names.
unfoldable pub boundary_result :
    Fields → Checkpoint → Event → Claim → SnapshotExecution → Run Boundary
boundary_result values checkpoint event claim execution = elim (checkpoint_phase checkpoint) [
  | waiting_approval ↦ do
    payload ← pending_approval checkpoint event claim execution
    ok (record { status = waiting_approval; values = values; approval = some payload })
  | completed ↦ ok (record { status = completed; values = values; approval = none })
  | running ↦ ok (record { status = running; values = values; approval = none })
]

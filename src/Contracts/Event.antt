-- ===== src/Contracts/Event.antt =====
-- contracts.py: `CodingJobRequested.from_dict`.
use urizo_final_orchestrator.Base.{
  ℕ, Bool, true, false, ◌==◌, Str, codes, Option, none, some, List, [], ◌∷◌, ◌++◌, if◌then◌else◌,
  subset, ok, ◌>>=◌, ◌>>◌, guard,
}
use urizo_final_orchestrator.Json.{Value, Fields, field_names}
use urizo_final_orchestrator.Contracts.{CodingJobRequested, Binding, exact_fields}
use urizo_final_orchestrator.Contracts.Checks.{
  Checked, wrong_fields, unsupported, attempt_mismatch, object_of, entry, exact_names, is_text,
  schema_version, optional_uuid_of, positive_integer, matched_entry, uuid_entry, is_idempotency_key,
  is_sha256_digest, is_git_object_id, is_graph_step, timestamp, text_of,
}

abbrev pub base_fields : List Str
base_fields =
    codes "schemaVersion"
    ∷ codes "eventId"
    ∷ codes "eventType"
    ∷ codes "jobId"
    ∷ codes "traceId"
    ∷ codes "idempotencyKey"
    ∷ codes "attempt"
    ∷ codes "expectedStateVersion"
    ∷ codes "occurredAt"
    ∷ codes "payload"
    ∷ []

abbrev pub binding_fields : List Str
binding_fields =
    codes "profileVersionId"
    ∷ codes "pipelineAttempt"
    ∷ codes "executionAttempt"
    ∷ codes "workspaceId"
    ∷ codes "toolCallId"
    ∷ []

abbrev pub job_fields : List Str
job_fields =
    codes "actorId"
    ∷ codes "projectId"
    ∷ codes "repositoryId"
    ∷ codes "graphStep"
    ∷ codes "baseSha"
    ∷ codes "contextDigest"
    ∷ codes "policyHash"
    ∷ codes "expiresAt"
    ∷ []

-- The binding, where its fields are there.
unfoldable pub parse_binding : Bool → ℕ → Fields → Checked (Option Binding)
parse_binding false attempt payload = ok none
parse_binding true attempt payload = do
  profile_version_id ← uuid_entry (codes "profileVersionId") payload
  pipeline_attempt ← entry (codes "pipelineAttempt") payload >>= positive_integer
  execution_attempt ← entry (codes "executionAttempt") payload >>= positive_integer
  guard (execution_attempt == attempt) attempt_mismatch
  workspace_id ← entry (codes "workspaceId") payload >>= optional_uuid_of
  tool_call_id ← entry (codes "toolCallId") payload >>= optional_uuid_of
  ok (
      some (record {
        profile_version_id = profile_version_id;
        pipeline_attempt = pipeline_attempt;
        execution_attempt = execution_attempt;
        workspace_id = workspace_id;
        tool_call_id = tool_call_id;
      }))

module _ (instant_of : Str → Option ℕ) where
  -- The job's own payload.
  unfoldable pub check_job : Fields → Checked (Unit {0})
  check_job job = do
    exact_names job job_fields
    actor ← uuid_entry (codes "actorId") job
    project ← uuid_entry (codes "projectId") job
    repository ← uuid_entry (codes "repositoryId") job
    step ← matched_entry is_graph_step 120 (codes "graphStep") job
    sha ← matched_entry is_git_object_id 71 (codes "baseSha") job
    digest ← matched_entry is_sha256_digest 71 (codes "contextDigest") job
    policy ← matched_entry is_sha256_digest 71 (codes "policyHash") job
    expires ← entry (codes "expiresAt") job >>= timestamp instant_of
    ok tt

  unfoldable pub parse_event : Value → Checked CodingJobRequested
  parse_event value = do
    payload ← object_of value
    guard
        (if exact_fields payload base_fields
          then true
          else exact_fields payload (base_fields ++ binding_fields))
        wrong_fields
    version ← entry (codes "schemaVersion") payload
    schema_version version
    event_type ← entry (codes "eventType") payload
    guard (is_text (codes "CODING_JOB_REQUESTED") event_type) unsupported
    event_id ← uuid_entry (codes "eventId") payload
    job_id ← uuid_entry (codes "jobId") payload
    trace_id ← uuid_entry (codes "traceId") payload
    idempotency_key ← matched_entry is_idempotency_key 128 (codes "idempotencyKey") payload
    attempt ← entry (codes "attempt") payload >>= positive_integer
    expected_state_version ← entry (codes "expectedStateVersion") payload >>= positive_integer
    occurred ← entry (codes "occurredAt") payload
    instant ← timestamp instant_of occurred
    occurred_at ← text_of occurred
    binding ← parse_binding (subset binding_fields (field_names payload)) attempt payload
    job_value ← entry (codes "payload") payload
    job ← object_of job_value
    check_job job
    ok (record {
      event_id = event_id;
      job_id = job_id;
      trace_id = trace_id;
      idempotency_key = idempotency_key;
      attempt = attempt;
      expected_state_version = expected_state_version;
      occurred_at = occurred_at;
      binding = binding;
      payload = job;
    })

-- ===== src/Contracts/Claim.antt =====
-- contracts.py: `ClaimSnapshot.from_dict`, `WorkerClaim.from_dict` and `validate_lease_response`.
use urizo_final_orchestrator.Base.{
  ℕ, Bool, true, false, ◌&&◌, ◌||◌, ◌==◌, ltb, leb, ◌+◌, ◌-◌, ◌*◌, ◌/◌, ◌%◌, ◌^◌, Str, codes, eq,
  Option, none, some, List, [], ◌∷◌, if◌then◌else◌, mem, subset, ok, ◌>>=◌, ◌>>◌, guard,
}
use urizo_final_orchestrator.Json.{Value, int, bool, float, Fields, lookup}
use urizo_final_orchestrator.Contracts.{CodingJobRequested, Binding, WorkerClaim}
use urizo_final_orchestrator.Contracts.Checks.{
  Checked, invalid, uncorrelated, not_advanced, wrong_profile, out_of_scope, object_of, entry,
  exact_names, is_text, text_of, schema_version, positive_integer, bool_of, bounded_string,
  string_list, relative_path, matched_entry, uuid_entry, is_sha256_digest, is_git_object_id,
  is_graph_step, is_prompt_version, timestamp, not_expired,
}

abbrev pub claim_snapshot_fields : List Str
claim_snapshot_fields =
    codes "actor"
    ∷ codes "project"
    ∷ codes "repository"
    ∷ codes "graphStep"
    ∷ codes "baseSha"
    ∷ codes "contextDigest"
    ∷ codes "policyHash"
    ∷ codes "promptVersion"
    ∷ codes "allowedCapabilities"
    ∷ codes "allowedNodes"
    ∷ codes "deadlineAt"
    ∷ codes "systemPrompt"
    ∷ codes "userPrompt"
    ∷ codes "toolPath"
    ∷ codes "approvalId"
    ∷ []

-- ROLES
abbrev pub roles : List Str
roles = codes "SUPER_ADMIN" ∷ codes "PROJECT_ADMIN" ∷ codes "REVIEWER" ∷ codes "DEVELOPER" ∷ []

-- CAPABILITIES
abbrev pub capabilities : List Str
capabilities = codes "CHAT" ∷ codes "STRUCTURED_OUTPUT" ∷ codes "TOOL_CALLING" ∷ []

unfoldable pub all_steps : List Str → Bool
all_steps [] = true
all_steps (t ∷ ts) = if is_graph_step t then all_steps ts else false

abbrev pub worker_claim_fields : List Str
worker_claim_fields =
    codes "schemaVersion"
    ∷ codes "jobId"
    ∷ codes "traceId"
    ∷ codes "leaseId"
    ∷ codes "leaseExpiresAt"
    ∷ codes "stateVersion"
    ∷ codes "resume"
    ∷ codes "profileVersionId"
    ∷ codes "snapshot"
    ∷ []

-- What a claim's snapshot is compared by.
pub record Scope : Type 0 where
  pub actor_id : Str
  pub project_id : Str
  pub repository_id : Str
  pub graph_step : Str
  pub base_sha : Str
  pub context_digest : Str
  pub policy_hash : Str

-- An object of one entry, a UUID.
unfoldable pub only_uuid : Str → Value → Checked Str
only_uuid name v = do fs ← object_of v; exact_names fs (name ∷ []); uuid_entry name fs

-- An unhashable role, for which Python raises TypeError, is refused like the others.
unfoldable pub actor_of : Value → Checked Str
actor_of v = do
  actor ← object_of v
  exact_names actor (codes "actorId" ∷ codes "role" ∷ [])
  actor_id ← uuid_entry (codes "actorId") actor
  role ← entry (codes "role") actor >>= text_of
  guard (mem role roles) invalid
  ok actor_id

-- `any(source[field] != result ...)`
unfoldable pub is_some_text : Str → Option Value → Bool
is_some_text t none = false
is_some_text t (some v) = is_text t v

abbrev pub same_entry : Str → Str → Fields → Bool
same_entry name t fs = is_some_text t (lookup name fs)

unfoldable pub in_scope : Fields → Scope → Bool
in_scope source c =
    same_entry (codes "actorId") c.actor_id source
    && (same_entry (codes "projectId") c.project_id source
        && (same_entry (codes "repositoryId") c.repository_id source
            && (same_entry (codes "graphStep") c.graph_step source
                && (same_entry (codes "baseSha") c.base_sha source
                    && (same_entry (codes "contextDigest") c.context_digest source
                        && same_entry (codes "policyHash") c.policy_hash source)))))

-- `event.profile_version_id is not None and (...)`
unfoldable pub right_profile : Option Binding → Str → Bool
right_profile none t = true
right_profile (some b) t = eq t b.profile_version_id

-- `value == n` of a float, by its bit pattern.
unfoldable pub is_float : ℕ → ℕ → Bool
is_float n bits =
    let exponent = bits / 2 ^ 52 in
    let fraction = bits % 2 ^ 52 in
    if exponent == 0 || exponent == 2048
    then fraction == 0 && n == 0
    else if ltb 2046 exponent
    then false
    else if leb 1075 exponent
    then (2 ^ 52 + fraction) * 2 ^ (exponent - 1075) == n
    else 2 ^ 52 + fraction == n * 2 ^ (1075 - exponent)

-- `value == n`: True is 1, False is 0, and a float is compared by its value.
unfoldable pub is_number : ℕ → Value → Bool
is_number n (int m) = m == n
is_number n (bool true) = n == 1
is_number n (bool false) = n == 0
is_number n (float bits) = is_float n bits
is_number n _ = false

-- What `ClaimSnapshot.from_dict` reads first: the fields that are compared with the event's.
unfoldable pub snapshot_scope : Fields → Checked Scope
snapshot_scope payload = do
  actor_id ← entry (codes "actor") payload >>= actor_of
  project_id ← entry (codes "project") payload >>= only_uuid (codes "projectId")
  repository_id ← entry (codes "repository") payload >>= only_uuid (codes "repositoryId")
  graph_step ← matched_entry is_graph_step 120 (codes "graphStep") payload
  base_sha ← matched_entry is_git_object_id 71 (codes "baseSha") payload
  context_digest ← matched_entry is_sha256_digest 71 (codes "contextDigest") payload
  policy_hash ← matched_entry is_sha256_digest 71 (codes "policyHash") payload
  ok (record {
    actor_id = actor_id;
    project_id = project_id;
    repository_id = repository_id;
    graph_step = graph_step;
    base_sha = base_sha;
    context_digest = context_digest;
    policy_hash = policy_hash;
  })

module _ (instant_of : Str → Option ℕ) where
  -- What `ClaimSnapshot.from_dict` checks after that.
  unfoldable pub check_permissions : Fields → Checked (Unit {0})
  check_permissions payload = do
    prompt_version ← matched_entry is_prompt_version 120 (codes "promptVersion") payload
    allowed ← entry (codes "allowedCapabilities") payload >>= string_list 1 3 120
    guard (subset allowed capabilities && mem (codes "CHAT") allowed) invalid
    nodes ← entry (codes "allowedNodes") payload >>= string_list 1 50 120
    guard (all_steps nodes) invalid
    deadline ← entry (codes "deadlineAt") payload >>= timestamp instant_of
    system_prompt ← entry (codes "systemPrompt") payload >>= bounded_string 1 200000
    user_prompt ← entry (codes "userPrompt") payload >>= bounded_string 1 200000
    tool_path ← entry (codes "toolPath") payload >>= relative_path
    approval_id ← uuid_entry (codes "approvalId") payload
    ok tt

  -- `ClaimSnapshot.from_dict`
  unfoldable pub check_snapshot : Fields → Checked Scope
  check_snapshot payload = do
    exact_names payload claim_snapshot_fields
    scope ← snapshot_scope payload
    check_permissions payload
    ok scope

  -- The checks of a claim from its `resume` on.
  unfoldable pub finish_claim :
      CodingJobRequested → Fields → Str × Str × Str → ℕ → ℕ → Checked WorkerClaim
  finish_claim event payload (job_id, trace_id, lease_id) expires state_version = do
    resume ← entry (codes "resume") payload >>= bool_of
    profile_version_id ← uuid_entry (codes "profileVersionId") payload
    guard (right_profile event.binding profile_version_id) wrong_profile
    snapshot ← entry (codes "snapshot") payload >>= object_of
    scope ← check_snapshot snapshot
    guard (in_scope event.payload scope) out_of_scope
    ok (record {
      job_id = job_id;
      trace_id = trace_id;
      lease_id = lease_id;
      lease_expires_at = expires;
      state_version = state_version;
      resume = resume;
      profile_version_id = profile_version_id;
      snapshot = snapshot;
    })

  -- `WorkerClaim.from_dict`
  unfoldable pub parse_claim : Value → CodingJobRequested → Option ℕ → Checked WorkerClaim
  parse_claim value event now = do
    payload ← object_of value
    exact_names payload worker_claim_fields
    version ← entry (codes "schemaVersion") payload
    schema_version version
    job_id ← uuid_entry (codes "jobId") payload
    trace_id ← uuid_entry (codes "traceId") payload
    lease_id ← uuid_entry (codes "leaseId") payload
    guard (eq job_id event.job_id && eq trace_id event.trace_id) uncorrelated
    expires ← entry (codes "leaseExpiresAt") payload >>= timestamp instant_of
    not_expired instant_of expires now
    state_version ← entry (codes "stateVersion") payload >>= positive_integer
    guard (ltb event.expected_state_version state_version) not_advanced
    finish_claim event payload (job_id, trace_id, lease_id) expires state_version

  -- `validate_lease_response`, with the instant that the response's lease expires at.
  unfoldable pub lease_response : Value → WorkerClaim → Option ℕ → Checked ℕ
  lease_response value claim now = do
    payload ← object_of value
    exact_names payload (
        codes "schemaVersion"
        ∷ codes "jobId"
        ∷ codes "traceId"
        ∷ codes "leaseId"
        ∷ codes "leaseExpiresAt"
        ∷ codes "stateVersion"
        ∷ [])
    version ← entry (codes "schemaVersion") payload
    schema_version version
    job_id ← uuid_entry (codes "jobId") payload
    trace_id ← uuid_entry (codes "traceId") payload
    lease_id ← uuid_entry (codes "leaseId") payload
    state_version ← entry (codes "stateVersion") payload
    guard
        (eq job_id claim.job_id
          && (eq trace_id claim.trace_id
              && (eq lease_id claim.lease_id && is_number claim.state_version state_version)))
        uncorrelated
    expires ← entry (codes "leaseExpiresAt") payload >>= timestamp instant_of
    not_expired instant_of expires now
    ok expires

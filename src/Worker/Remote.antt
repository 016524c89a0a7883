-- ===== src/Worker/Remote.antt =====
-- worker_api.py: what becomes of the answer to a request (`_call`, `_safe_remote_error` and
-- `_validate_violations`), and what `resolve`, `claim` and `heartbeat` make of it. The transport is an argument, as is
-- which texts uuid.UUID reads.
use urizo_final_orchestrator.Base.{
  ℕ, zero, suc, Bool, true, false, not, ◌&&◌, ◌==◌, leb, Str, codes, eq, Option, none, some, List,
  [], ◌∷◌, if◌then◌else◌, mem, subset, same_set, length, Result, ok, err, ◌>>=◌, ◌>>◌, guard,
}
use urizo_final_orchestrator.Json.{
  Value, null, bool, int, text, list, dict, Items, nil, cons, Fields, end, field, field_names,
  lookup,
}
use urizo_final_orchestrator.Contracts.{
  QueuedJobReference, CodingJobRequested, WorkerClaim, is_profile_bound,
}
use urizo_final_orchestrator.Contracts.Checks.{Checked, is_idempotency_key}
use urizo_final_orchestrator.Contracts.Event.{parse_event}
use urizo_final_orchestrator.Contracts.Claim.{is_some_text, parse_claim, lease_response}
use urizo_final_orchestrator.Worker.Failure.{Failure, worker_api, other}
use urizo_final_orchestrator.Worker.Sending.{is_safe_code}

-- An exception while an error response is read: ValueError or TypeError, or the AttributeError that
-- uuid.UUID raises of what is no text.
pub data Misread : Type 0 where
  refused attribute_error : Misread

abbrev pub Reading : Type 0 → Type 0
Reading A = Result Misread A

abbrev pub retryable_error_codes : List Str
retryable_error_codes =
    codes "IDEMPOTENCY_IN_PROGRESS"
    ∷ codes "MODEL_RATE_LIMITED"
    ∷ codes "MODEL_TIMEOUT"
    ∷ codes "MODEL_PROVIDER_UNAVAILABLE"
    ∷ codes "TOOL_RESULT_NOT_READY"
    ∷ codes "TOOL_EXECUTOR_UNAVAILABLE"
    ∷ codes "INTERNAL_TRANSIENT_ERROR"
    ∷ []

abbrev pub non_retryable_error_codes : List Str
non_retryable_error_codes =
    codes "CONTRACT_VALIDATION_FAILED"
    ∷ codes "UNSUPPORTED_SCHEMA_VERSION"
    ∷ codes "UNKNOWN_FIELD"
    ∷ codes "SERVICE_AUTHENTICATION_FAILED"
    ∷ codes "SERVICE_AUTHORIZATION_DENIED"
    ∷ codes "IDEMPOTENCY_KEY_REUSED"
    ∷ codes "JOB_NOT_FOUND"
    ∷ codes "JOB_EXPIRED"
    ∷ codes "JOB_STATE_VERSION_CONFLICT"
    ∷ codes "MODEL_NOT_CONFIGURED"
    ∷ codes "MODEL_CAPABILITY_UNSUPPORTED"
    ∷ codes "MODEL_RESPONSE_INVALID"
    ∷ codes "TOOL_ARGUMENTS_INVALID"
    ∷ codes "TOOL_NOT_ALLOWED"
    ∷ codes "PATH_POLICY_DENIED"
    ∷ codes "REPOSITORY_SCOPE_DENIED"
    ∷ codes "CANDIDATE_SHA_MISMATCH"
    ∷ codes "CONTEXT_DIGEST_MISMATCH"
    ∷ codes "TOOL_APPROVAL_REQUIRED"
    ∷ codes "TOOL_APPROVAL_DENIED"
    ∷ codes "TOOL_APPROVAL_EXPIRED"
    ∷ codes "TOOL_EXECUTION_FAILED"
    ∷ codes "TOOL_EXECUTION_NOT_FOUND"
    ∷ codes "CODING_AGENT_NOT_AVAILABLE"
    ∷ []

unfoldable pub canonical_codes : Bool → List Str
canonical_codes true = retryable_error_codes
canonical_codes false = non_retryable_error_codes

unfoldable pub object_fields : Option Value → Reading Fields
object_fields (some (dict fs)) = ok fs
object_fields _ = err refused

-- An envelope of a job, or of a request before a job is known.
abbrev pub job_scoped_names : List Str
job_scoped_names =
    codes "schemaVersion"
    ∷ codes "traceId"
    ∷ codes "jobId"
    ∷ codes "idempotencyKey"
    ∷ codes "error"
    ∷ []

abbrev pub pre_context_names : List Str
pre_context_names = codes "schemaVersion" ∷ codes "requestId" ∷ codes "traceId" ∷ codes "error" ∷ []

unfoldable pub xor : Bool → Bool → Bool
xor true b = not b
xor false b = b

-- `envelope[name] == context.get(name)`, where the context holds texts
unfoldable pub same_text : Option Value → Option Value → Bool
same_text (some (text t)) v = is_some_text t v
same_text _ v = false

unfoldable pub is_in_context : Fields → Option Fields → Bool
is_in_context envelope none = false
is_in_context envelope (some context) =
    same_text (lookup (codes "traceId") context) (lookup (codes "traceId") envelope)
    && (same_text (lookup (codes "jobId") context) (lookup (codes "jobId") envelope)
        && same_text (lookup (codes "idempotencyKey") context)
            (lookup (codes "idempotencyKey") envelope))

unfoldable pub is_key : Option Value → Bool
is_key (some (text t)) = is_idempotency_key t
is_key _ = false

unfoldable pub text_within : ℕ → Option Value → Bool
text_within n (some (text t)) = leb 1 (length t) && leb (length t) n
text_within n _ = false

unfoldable pub safe_code_in : Option Value → Reading Str
safe_code_in (some (text t)) = if is_safe_code t then ok t else err refused
safe_code_in _ = err refused

unfoldable pub bool_in : Option Value → Reading Bool
bool_in (some (bool b)) = ok b
bool_in _ = err refused

-- `retryAfterMs`: a number of milliseconds for a retryable error, nothing for another.
unfoldable pub retry_after_fits : Bool → Option Value → Bool
retry_after_fits true (some (int n)) = leb 1 n && leb n 3600000
retry_after_fits false none = true
retry_after_fits false (some null) = true
retry_after_fits _ _ = false

unfoldable pub state_fits : Bool → Option Value → Bool
state_fits retryable none = true
state_fits retryable (some null) = true
state_fits true (some (text t)) = mem t (codes "NOT_STARTED" ∷ codes "IN_PROGRESS" ∷ [])
state_fits false (some (text t)) = mem t (codes "NOT_STARTED" ∷ codes "COMPLETED" ∷ [])
state_fits _ _ = false

unfoldable pub is_pointer : Option Value → Bool
is_pointer (some (text (c ∷ cs))) = c == b'/' && leb (length (c ∷ cs)) 500
is_pointer _ = false

unfoldable pub is_violation : Value → Bool
is_violation (dict fs) =
    same_set (field_names fs) (codes "field" ∷ codes "reason" ∷ [])
    && (is_pointer (lookup (codes "field") fs) && text_within 1000 (lookup (codes "reason") fs))
is_violation _ = false

-- At most n violations.
unfoldable pub are_violations : ℕ → Items → Bool
are_violations n nil = true
are_violations zero (cons v vs) = false
are_violations (suc n) (cons v vs) = is_violation v && are_violations n vs

-- `_validate_violations` raises nothing.
unfoldable pub violations_valid : Option Value → Bool
violations_valid none = true
violations_valid (some null) = true
violations_valid (some (list vs)) = are_violations 100 vs
violations_valid _ = false

-- Only the fields allowed, and those required
unfoldable pub fields_fit : Fields → Bool
fields_fit error =
    subset (field_names error) (
      codes "code"
      ∷ codes "message"
      ∷ codes "retryable"
      ∷ codes "retryAfterMs"
      ∷ codes "executionState"
      ∷ codes "violations"
      ∷ [])
    && subset (codes "code" ∷ codes "message" ∷ codes "retryable" ∷ []) (field_names error)

-- The code and the retryability of an error that passes the checks.
unfoldable pub read_error : Fields → Reading (Str × Bool)
read_error error = do
  guard (fields_fit error) refused
  code ← safe_code_in (lookup (codes "code") error)
  guard (text_within 1000 (lookup (codes "message") error)) refused
  retryable ← bool_in (lookup (codes "retryable") error)
  guard (mem code (canonical_codes retryable)) refused
  guard (retry_after_fits retryable (lookup (codes "retryAfterMs") error)) refused
  guard (state_fits retryable (lookup (codes "executionState") error)) refused
  guard (violations_valid (lookup (codes "violations") error)) refused
  ok (code, retryable)

abbrev pub response_invalid : Str
response_invalid = codes "WORKER_RESPONSE_INVALID"

-- The `WorkerApiError` that `_safe_remote_error` returns, or the AttributeError that it lets through.
unfoldable pub error_from : (status : ℕ) → Reading (Str × Bool) → Failure
error_from status (ok (code, retryable)) = worker_api code retryable (some status)
error_from status (err refused) = worker_api response_invalid false (some status)
error_from status (err attribute_error) = other

-- How a request ends, with the response's status and what json.loads makes of its body.
pub data Transport : Type 0 where
  no_credential unavailable malformed : Transport
  responded : (status : ℕ) (body : Option Value) → Transport

unfoldable pub response_object : Option Value → Result Failure Fields
response_object (some (dict fs)) = ok fs
response_object _ = err (worker_api response_invalid false none)

-- `except WorkerContractViolation`
unfoldable pub valid_response : {A : Type 0} → Checked A → Result Failure A
valid_response (ok a) = ok a
valid_response (err e) = err (worker_api response_invalid false none)

-- `body` of `claim`
unfoldable pub claim_body : CodingJobRequested → Fields
claim_body event = field (codes "schemaVersion") (text (codes "1.0")) (
    field (codes "eventId") (text event.event_id) (
      field (codes "jobId") (text event.job_id) (
        field (codes "traceId") (text event.trace_id) (
          field (codes "idempotencyKey") (text event.idempotency_key) (
            field (codes "attempt") (int event.attempt)
              (field (codes "expectedStateVersion") (int event.expected_state_version) end))))))

-- `body` of `heartbeat`
unfoldable pub heartbeat_body : WorkerClaim → (idempotency_key : Str) → Fields
heartbeat_body claim idempotency_key = field (codes "schemaVersion") (text (codes "1.0")) (
    field (codes "jobId") (text claim.job_id) (
      field (codes "traceId") (text claim.trace_id) (
        field (codes "leaseId") (text claim.lease_id) (
          field (codes "idempotencyKey") (text idempotency_key)
            (field (codes "expectedStateVersion") (int claim.state_version) end)))))

module _ (reads_uuid : Str → Bool) where
  -- `UUID(value)`
  unfoldable pub read_uuid : Option Value → Reading (Unit {0})
  read_uuid (some (text t)) = guard (reads_uuid t) refused
  read_uuid none = err refused
  read_uuid (some null) = err refused
  read_uuid (some _) = err attribute_error

  unfoldable pub check_scope : (pre_context : Bool) → Fields → Option Fields → Reading (Unit {0})
  check_scope true envelope context = read_uuid (lookup (codes "requestId") envelope)
  check_scope false envelope context = do
    read_uuid (lookup (codes "jobId") envelope)
    guard (is_in_context envelope context && is_key (lookup (codes "idempotencyKey") envelope))
        refused

  unfoldable pub read_envelope : Fields → Option Fields → Reading (Str × Bool)
  read_envelope envelope context = do
    guard (is_some_text (codes "1.0") (lookup (codes "schemaVersion") envelope)) refused
    let pre_context = same_set (field_names envelope) pre_context_names
    guard (xor (same_set (field_names envelope) job_scoped_names) pre_context) refused
    read_uuid (lookup (codes "traceId") envelope)
    check_scope pre_context envelope context
    error ← object_fields (lookup (codes "error") envelope)
    read_error error

  -- `_safe_remote_error`
  unfoldable pub safe_remote_error : ℕ → Option Value → Option Fields → Failure
  safe_remote_error status body context =
      error_from status (object_fields body >>= λ envelope. read_envelope envelope context)

  -- `_call`
  unfoldable pub call : Option Fields → Transport → Result Failure Fields
  call context no_credential = err (worker_api (codes "CODING_AGENT_NOT_AVAILABLE") false none)
  call context unavailable = err (worker_api (codes "INTERNAL_TRANSIENT_ERROR") true none)
  call context malformed = err (worker_api response_invalid false none)
  call context (responded status body) =
      if leb 200 status && leb status 299
      then response_object body
      else err (safe_remote_error status body context)

  module _ (instant_of : Str → Option ℕ) where
    -- `resolve`
    unfoldable pub resolve_response :
        QueuedJobReference → Transport → Result Failure CodingJobRequested
    resolve_response job transport = do
      response ← call none transport
      event ← valid_response (parse_event instant_of (dict response))
      guard (eq event.job_id job.job_id && is_profile_bound event)
          (worker_api response_invalid false none)
      ok event

    -- `claim`, at the instant `now`
    unfoldable pub claim_response :
        CodingJobRequested → (now : ℕ) → Transport → Result Failure WorkerClaim
    claim_response event now transport = do
      response ← call (some (claim_body event)) transport
      valid_response (parse_claim instant_of (dict response) event (some now))

    -- `heartbeat`, with the instant that the lease expires at
    unfoldable pub heartbeat_response :
        WorkerClaim → (idempotency_key : Str) (now : ℕ) → Transport → Result Failure ℕ
    heartbeat_response claim idempotency_key now transport = do
      response ← call (some (heartbeat_body claim idempotency_key)) transport
      valid_response (lease_response instant_of (dict response) claim (some now))

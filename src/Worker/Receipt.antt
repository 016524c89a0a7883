-- ===== src/Worker/Receipt.antt =====
-- worker_api.py: `outcome` from the transport's answer on, with `validate_outcome_receipt` of contracts.py and
-- the projection of the approval that `_validated_pending_approval` returns.
use urizo_final_orchestrator.Base.{
  ◌+◌, Bool, ◌&&◌, Str, codes, eq, Option, none, some, List, [], ◌∷◌, if◌then◌else◌, Result, ok,
  err, ◌>>=◌, ◌>>◌, guard,
}
use urizo_final_orchestrator.Json.{Value, null, int, text, dict, Fields, end, field, lookup}
use urizo_final_orchestrator.Contracts.{WorkerClaim}
use urizo_final_orchestrator.Contracts.Checks.{
  Checked, invalid, uncorrelated, object_of, entry, exact_names, is_text, schema_version,
  uuid_entry, positive_integer,
}
use urizo_final_orchestrator.Contracts.Claim.{is_number}
use urizo_final_orchestrator.Runner.Equal.{same_value}
use urizo_final_orchestrator.Worker.Failure.{Failure, other}
use urizo_final_orchestrator.Worker.Process.{
  Outcome, waiting_approval, completed, retryable_failure, permanent_failure,
}
use urizo_final_orchestrator.Worker.Sending.{
  ArgumentError, is_waiting, is_given, same_bool, check_arguments,
}
use urizo_final_orchestrator.Worker.Remote.{Transport, call, valid_response}

unfoldable pub outcome_name : Outcome → Str
outcome_name waiting_approval = codes "WAITING_APPROVAL"
outcome_name completed = codes "COMPLETED"
outcome_name retryable_failure = codes "RETRYABLE_FAILURE"
outcome_name permanent_failure = codes "PERMANENT_FAILURE"

-- `expected_status`
unfoldable pub expected_status : Outcome → Str
expected_status waiting_approval = codes "WAITING_APPROVAL"
expected_status completed = codes "COMPLETED"
expected_status retryable_failure = codes "PENDING"
expected_status permanent_failure = codes "FAILED"

-- The entries of the given names, which are there.
unfoldable pub projected : List Str → Fields → Fields
projected [] fs = end
projected (k ∷ ks) fs = elim (lookup k fs) [
  | none ↦ projected ks fs
  | some v ↦ field k v (projected ks fs)
]

-- What `_validated_pending_approval` returns of a valid approval.
unfoldable pub projection : Fields → Fields
projection fs =
    projected
      (codes "approvalId"
        ∷ codes "nodeId"
        ∷ codes "stage"
        ∷ codes "stageRound"
        ∷ codes "requiredRole"
        ∷ [])
      fs

unfoldable pub receipt_names : Outcome → List Str
receipt_names o =
    codes "schemaVersion"
    ∷ codes "jobId"
    ∷ codes "traceId"
    ∷ codes "stateVersion"
    ∷ codes "status"
    ∷ (if is_waiting o then codes "pendingApproval" ∷ [] else [])

-- The approval of the receipt is the one that was sent.
unfoldable pub check_receipt_approval : Fields → Option Fields → Checked (Unit {0})
check_receipt_approval payload none = ok tt
check_receipt_approval payload (some pending) = do
  value ← entry (codes "pendingApproval") payload
  received ← object_of value
  guard (same_value (dict received) (dict pending)) invalid

-- `validate_outcome_receipt`
unfoldable pub validate_outcome_receipt :
    Value → WorkerClaim → Outcome → Option Fields → Checked Fields
validate_outcome_receipt value claim o pending = do
  payload ← object_of value
  guard (same_bool (is_waiting o) (is_given pending)) invalid
  exact_names payload (receipt_names o)
  version ← entry (codes "schemaVersion") payload
  schema_version version
  job_id ← uuid_entry (codes "jobId") payload
  trace_id ← uuid_entry (codes "traceId") payload
  state_version ← entry (codes "stateVersion") payload >>= positive_integer
  guard
      (eq job_id claim.job_id
        && (eq trace_id claim.trace_id && is_number (claim.state_version + 1) (int state_version)))
      uncorrelated
  status ← entry (codes "status") payload
  guard (is_text (expected_status o) status) invalid
  check_receipt_approval payload pending
  ok payload

unfoldable pub optional_code : Option Str → Value
optional_code none = null
optional_code (some code) = text code

unfoldable pub approval_entry : Option Fields → Fields
approval_entry none = end
approval_entry (some fs) = field (codes "pendingApproval") (dict fs) end

-- `body` of `outcome`
unfoldable pub outcome_body :
    WorkerClaim
    → Outcome
    → (idempotency_key : Str) → (error_code : Option Str) → Option Fields
    → Fields
outcome_body claim o idempotency_key error_code pending =
    field (codes "schemaVersion") (text (codes "1.0")) (
      field (codes "jobId") (text claim.job_id) (
        field (codes "traceId") (text claim.trace_id) (
          field (codes "leaseId") (text claim.lease_id) (
            field (codes "idempotencyKey") (text idempotency_key) (
              field (codes "expectedStateVersion") (int claim.state_version) (
                field (codes "outcome") (text (outcome_name o)) (
                  field (codes "errorCode") (optional_code error_code)
                    (approval_entry pending))))))))

-- A ValueError of the arguments is no error of the API.
unfoldable pub with_arguments : Result ArgumentError (Unit {0}) → Result Failure (Unit {0})
with_arguments (ok u) = ok u
with_arguments (err e) = err other

unfoldable pub projection_of : Option Fields → Option Fields
projection_of none = none
projection_of (some fs) = some (projection fs)

module _ (reads_uuid : Str → Bool) (claim : WorkerClaim) (o : Outcome) (idempotency_key : Str)
    (error_code : Option Str) (pending : Option Fields) where
  -- `outcome`
  unfoldable pub outcome_response : Transport → Result Failure Fields
  outcome_response transport = do
    with_arguments (check_arguments claim o error_code pending)
    let sent = projection_of pending
    response ←
        call reads_uuid (some (outcome_body claim o idempotency_key error_code sent)) transport
    valid_response (validate_outcome_receipt (dict response) claim o sent)

-- ===== src/Worker/Sending.antt =====
-- worker_api.py: what `WorkerApiClient.outcome` checks before it sends, and `_validated_pending_approval`.
use urizo_final_orchestrator.Base.{
  ℕ, Bool, true, false, not, ◌&&◌, leb, Str, codes, Option, none, some, List, [], ◌∷◌, length,
  same_set, Result, ◌>>◌, guard,
}
use urizo_final_orchestrator.Json.{Value, int, text, Fields, field_names, lookup}
use urizo_final_orchestrator.Contracts.{WorkerClaim, uuid_from}
use urizo_final_orchestrator.Contracts.Claim.{is_number, is_some_text}
use urizo_final_orchestrator.Snapshot.Checks.{is_upper_letter, all_of, is_key_character}
use urizo_final_orchestrator.Worker.Process.{
  Outcome, waiting_approval, retryable_failure, permanent_failure,
}

-- The ValueErrors that it raises.
pub data ArgumentError : Type 0 where
  outcome_invalid error_code_misplaced error_code_invalid : ArgumentError
  approval_misplaced approval_invalid : ArgumentError

-- SAFE_ERROR_CODE
unfoldable pub is_safe_code : Str → Bool
is_safe_code [] = false
is_safe_code (c ∷ cs) =
    is_upper_letter c && (leb 2 (length cs) && (leb (length cs) 119 && all_of is_key_character cs))

unfoldable pub is_failure : Outcome → Bool
is_failure retryable_failure = true
is_failure permanent_failure = true
is_failure _ = false

unfoldable pub is_waiting : Outcome → Bool
is_waiting waiting_approval = true
is_waiting _ = false

unfoldable pub is_given {ℓ} : {A : Type ℓ} → Option A → Bool
is_given none = false
is_given (some a) = true

unfoldable pub same_bool : Bool → Bool → Bool
same_bool true b = b
same_bool false b = not b

unfoldable pub code_allowed : Option Str → Bool
code_allowed none = true
code_allowed (some code) = is_safe_code code

abbrev pub approval_fields : List Str
approval_fields =
    codes "schemaVersion"
    ∷ codes "approvalId"
    ∷ codes "jobId"
    ∷ codes "profileVersionId"
    ∷ codes "nodeId"
    ∷ codes "stage"
    ∷ codes "stageRound"
    ∷ codes "requiredRole"
    ∷ codes "pipelineAttempt"
    ∷ codes "traceId"
    ∷ codes "stateVersion"
    ∷ []

unfoldable pub is_short_text : Option Value → Bool
is_short_text (some (text t)) = leb 1 (length t) && leb (length t) 64
is_short_text _ = false

unfoldable pub is_positive : Option Value → Bool
is_positive (some (int n)) = leb 1 n
is_positive _ = false

unfoldable pub is_equal_number : ℕ → Option Value → Bool
is_equal_number n none = false
is_equal_number n (some v) = is_number n v

unfoldable pub is_exact_uuid : Option Value → Bool
is_exact_uuid (some (text t)) = uuid_from 0 t
is_exact_uuid _ = false

-- `_validated_pending_approval` raises nothing.
unfoldable pub approval_valid : WorkerClaim → Fields → Bool
approval_valid c fs =
    same_set (field_names fs) approval_fields
    && (is_some_text (codes "1.0") (lookup (codes "schemaVersion") fs)
        && (is_some_text c.job_id (lookup (codes "jobId") fs)
            && (is_some_text c.profile_version_id (lookup (codes "profileVersionId") fs)
                && (is_some_text c.trace_id (lookup (codes "traceId") fs)
                    && (is_equal_number c.state_version (lookup (codes "stateVersion") fs)
                        && (is_short_text (lookup (codes "nodeId") fs)
                            && (is_positive (lookup (codes "stateVersion") fs)
                                && (is_positive (lookup (codes "pipelineAttempt") fs)
                                    && (is_positive (lookup (codes "stageRound") fs)
                                        && (is_short_text (lookup (codes "stage") fs)
                                            && (is_short_text (lookup (codes "requiredRole") fs)
                                                && is_exact_uuid
                                                    (lookup (codes "approvalId") fs))))))))))))

unfoldable pub approval_allowed : WorkerClaim → Option Fields → Bool
approval_allowed c none = true
approval_allowed c (some fs) = approval_valid c fs

-- The checks of `outcome`; an `Outcome` is one of OUTCOMES.
unfoldable pub check_arguments :
    WorkerClaim → Outcome → Option Str → Option Fields → Result ArgumentError (Unit {0})
check_arguments c o code pending = do
  guard (same_bool (is_failure o) (is_given code)) error_code_misplaced
  guard (code_allowed code) error_code_invalid
  guard (same_bool (is_waiting o) (is_given pending)) approval_misplaced
  guard (approval_allowed c pending) approval_invalid

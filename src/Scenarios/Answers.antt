-- ===== src/Scenarios/Answers.antt =====
-- An answer of the worker API that drops a job, and one that is tried again.
use urizo_final_orchestrator.Base.{
  ok, Result, nodup, ℕ, Bool, true, false, Str, codes, ◌≡◌, ◌↔◌, refl, Option, none, some, [], ◌∷◌,
  err, eq, mem, subset, same_set,
}
use urizo_final_orchestrator.Json.{bool, int, text, dict, Fields, end, lookup}
use urizo_final_orchestrator.Contracts.{
  QueuedJobReference, WorkerClaim, lower, is_hex, uuid_at, uuid_from, is_uuid, as_object,
  exact_fields,
}
use urizo_final_orchestrator.Contracts.Checks.{
  object_in, object_of, present, exact_names, is_text, schema_version, uuid_of, positive_integer,
}
use urizo_final_orchestrator.Contracts.Claim.{is_some_text, is_number}
use urizo_final_orchestrator.Snapshot.Checks.{all_of, is_key_character}
use urizo_final_orchestrator.Worker.Failure.{Failure, worker_api, classify_failure}
use urizo_final_orchestrator.Worker.Sending.{
  is_safe_code, is_failure, is_waiting, is_given, same_bool, code_allowed, approval_allowed,
  check_arguments,
}
use urizo_final_orchestrator.Worker.Remote.{
  canonical_codes, object_fields, xor, text_within, safe_code_in, bool_in, retry_after_fits,
  state_fits, violations_valid, fields_fit, read_error, error_from, Transport, responded, read_uuid,
  check_scope, read_envelope, safe_remote_error, call, response_object, valid_response,
  retryable_error_codes,
}
use urizo_final_orchestrator.Worker.Reported.{IsReported, call-IsReported}
use urizo_final_orchestrator.Worker.Process.{retryable_failure, permanent_failure, failure_outcome}
use urizo_final_orchestrator.Worker.Passing.{call-check_arguments}
use urizo_final_orchestrator.Worker.Receipt.{
  expected_status, receipt_names, check_receipt_approval, validate_outcome_receipt, with_arguments,
  projection_of, outcome_response,
}
use urizo_final_orchestrator.Scenarios.Document.{fields}
use urizo_final_orchestrator.Scenarios.Claims.{uuid}

abbrev any_text : Str → Bool
any_text t = true

abbrev not_found : Fields
not_found = fields (
    (codes "schemaVersion", text (codes "1.0"))
    ∷ (codes "requestId", text (codes "r"))
    ∷ (codes "traceId", text (codes "t"))
    ∷ (
      codes "error",
      dict (
          fields (
            (codes "code", text (codes "JOB_NOT_FOUND"))
            ∷ (codes "message", text (codes "gone"))
            ∷ (codes "retryable", bool false)
            ∷ [])),
    )
    ∷ [])

abbrev gone : Transport
gone = responded 404 (some (dict not_found))

abbrev missing : Failure
missing = worker_api (codes "JOB_NOT_FOUND") false (some 404)

answered : call any_text none gone ≡ err missing
unfolding call safe_remote_error error_from object_fields read_envelope check_scope read_uuid xor
    read_error fields_fit safe_code_in text_within bool_in canonical_codes retry_after_fits
    state_fits violations_valid is_safe_code all_of is_key_character is_some_text is_text lookup eq
    mem subset same_set
answered = refl

call-IsReported_example : IsReported missing
call-IsReported_example = call-IsReported any_text none gone missing answered

abbrev lease : WorkerClaim
lease = record {
  job_id = uuid;
  trace_id = uuid;
  lease_id = uuid;
  lease_expires_at = 60;
  state_version = 4;
  resume = false;
  profile_version_id = uuid;
  snapshot = end;
}

call-check_arguments_example :
    (check_arguments lease permanent_failure (some (codes "JOB_NOT_FOUND")) none ≡ ok tt)
    × ((permanent_failure ≡ retryable_failure)
        ↔ (mem (codes "JOB_NOT_FOUND") retryable_error_codes ≡ true))
unfolding classify_failure failure_outcome
call-check_arguments_example = call-check_arguments any_text none gone missing lease answered

abbrev no_clock : Str → Option ℕ
no_clock t = none

abbrev queued : QueuedJobReference
queued = record { job_id = uuid }

abbrev receipt : (version : ℕ) → Fields
receipt version = fields (
    (codes "schemaVersion", text (codes "1.0"))
    ∷ (codes "jobId", text uuid)
    ∷ (codes "traceId", text uuid)
    ∷ (codes "stateVersion", int version)
    ∷ (codes "status", text (codes "PENDING"))
    ∷ [])

abbrev sent : (version : ℕ) → Result Failure Fields
sent version =
    outcome_response any_text lease retryable_failure (codes "key-12345")
      (some (codes "LEASE_BUSY")) none (responded 200 (some (dict (receipt version))))

-- A failure is received once the state version has moved by one.
received : sent 5 ≡ ok (receipt 5)
unfolding outcome_response with_arguments check_arguments is_failure is_waiting is_given same_bool
    code_allowed approval_allowed projection_of call response_object valid_response
    validate_outcome_receipt receipt_names check_receipt_approval expected_status is_safe_code
    all_of is_key_character object_of object_in exact_names present schema_version uuid_of
    positive_integer is_text is_number exact_fields as_object is_uuid uuid_from uuid_at is_hex lower
    lookup mem nodup subset same_set eq
received = refl

outdated_receipt : sent 4 ≡ err (worker_api (codes "WORKER_RESPONSE_INVALID") false none)
unfolding outcome_response with_arguments check_arguments is_failure is_waiting is_given same_bool
    code_allowed approval_allowed projection_of call response_object valid_response
    validate_outcome_receipt receipt_names check_receipt_approval expected_status is_safe_code
    all_of is_key_character object_of object_in exact_names present schema_version uuid_of
    positive_integer is_text is_number exact_fields as_object is_uuid uuid_from uuid_at is_hex lower
    lookup mem nodup subset same_set eq
outdated_receipt = refl

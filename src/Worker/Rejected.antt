-- ===== src/Worker/Rejected.antt =====
-- When a failed `resolve` of worker_api.py lets the job be dropped.
use urizo_final_orchestrator.Base.{ℕ, true, false, Str, codes, some, same_set, ok, ◌≡◌, ◌⊎◌}
use urizo_final_orchestrator.Json.{dict, Fields, field_names, lookup}
use urizo_final_orchestrator.Worker.Failure.{Failure}
use urizo_final_orchestrator.Worker.Remote.{pre_context_names, read_error, Transport, responded}

-- The answer that lets a delivery be dropped: 404 JOB_NOT_FOUND or 409 JOB_STATE_VERSION_CONFLICT, as a
-- valid error that is not to be retried, in an envelope of the request alone.
pub record IsRejection (transport : Transport) : Type 0 where
  pub status : ℕ
  pub envelope : Fields
  pub came : transport ≡ responded status (some (dict envelope))
  pub own : same_set (field_names envelope) pre_context_names ≡ true
  pub error : Fields
  pub stored : lookup (codes "error") envelope ≡ some (dict error)
  pub code : Str
  pub read : read_error error ≡ ok (code, false)
  pub final :
      (status ≡ 404) × (code ≡ codes "JOB_NOT_FOUND")
      ⊎ (status ≡ 409) × (code ≡ codes "JOB_STATE_VERSION_CONFLICT")

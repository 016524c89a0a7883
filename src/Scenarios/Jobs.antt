-- ===== src/Scenarios/Jobs.antt =====
-- A job whose claim succeeds at the second call, and uses of the worker's theorems on it.
use urizo_final_orchestrator.Base.{
  ℕ, zero, suc, true, false, eq, codes, ◌≡◌, refl, ◌⊎◌, none, some, [], ok, err, Result,
}
use urizo_final_orchestrator.Json.{end}
use urizo_final_orchestrator.Contracts.{
  QueuedJobReference, CodingJobRequested, Binding, WorkerClaim, is_bound, is_profile_bound,
}
use urizo_final_orchestrator.Worker.Failure.{Failure, worker_api, is_terminal_resolve_rejection}
use urizo_final_orchestrator.Worker.Process.{
  no_pending, text_status, mapping, Collaborators, Settings, State, process, with_backoff,
  resolve_with_backoff, claim_with_backoff, outcome_of, reported, report_checked, report_outcome,
  report_success, with_success, work, handled, stopped, claimed, after_claim, claim_and_run,
  after_duplicate, after_resolve, set_error, may_retry,
}
use urizo_final_orchestrator.Worker.Bounds.{Bounded, process-Bounded}
use urizo_final_orchestrator.Worker.Orderly.{orderly, process-orderly}
use urizo_final_orchestrator.Worker.Acknowledge.{settles, process-settles}

abbrev job : QueuedJobReference
job = record { job_id = codes "j" }

abbrev binding : Binding
binding = record {
  profile_version_id = codes "v";
  pipeline_attempt = 1;
  execution_attempt = 1;
  workspace_id = none;
  tool_call_id = none;
}

abbrev event : CodingJobRequested
event = record {
  event_id = codes "e";
  job_id = codes "j";
  trace_id = codes "t";
  idempotency_key = codes "k";
  attempt = 1;
  expected_state_version = 1;
  occurred_at = codes "now";
  binding = some binding;
  payload = end;
}

abbrev lease : WorkerClaim
lease = record {
  job_id = codes "j";
  trace_id = codes "t";
  lease_id = codes "l";
  lease_expires_at = 60;
  state_version = 2;
  resume = false;
  profile_version_id = codes "v";
  snapshot = end;
}

abbrev busy : Failure
busy = worker_api (codes "WORKER_API_UNAVAILABLE") true (some 503)

abbrev first_refused : ℕ → Result Failure WorkerClaim
first_refused zero = err busy
first_refused (suc n) = ok lease

-- The number of claim calls made.
abbrev helpful : Collaborators ℕ
helpful = record {
  resolve_job = λ _ n. (ok event, n);
  is_duplicate = λ _ n. (ok false, n);
  claim_job = λ _ n. (first_refused n, suc n);
  start = λ _ n. (ok tt, n);
  ensure_current = λ _ n. (ok tt, n);
  stop = λ _ n. n;
  invoke_graph = λ _ _ n. (ok (mapping (text_status (codes "COMPLETED")) no_pending), n);
  report = λ _ _ _ _ n. (ok tt, n);
}

abbrev settings : Settings
settings = record { max_attempts = 3; max_backoff_seconds = 5 }

abbrev first : State ℕ
first = record { world = 0; last_error_code = none; calls = [] }

acknowledged : (process helpful settings job first).0 ≡ ok true
unfolding process resolve_with_backoff after_resolve after_duplicate claim_and_run
    claim_with_backoff with_backoff may_retry after_claim claimed work with_success report_success
    outcome_of report_outcome report_checked reported set_error handled stopped is_profile_bound
    is_bound eq
acknowledged = refl

process-Bounded_example : Bounded 3 3 [] (process helpful settings job first).1.calls
process-Bounded_example = process-Bounded helpful settings job first

process-orderly_example : orderly 5 (process helpful settings job first).1.calls ≡ true
process-orderly_example = process-orderly helpful settings job first refl

process-settles_example :
    ((f : Failure) × ((resolve_with_backoff helpful settings job first).0 ≡ err f)
      × (is_terminal_resolve_rejection f ≡ true))
    ⊎ ((e : CodingJobRequested) × ((resolve_with_backoff helpful settings job first).0 ≡ ok e)
        × (settles (is_profile_bound e) (process helpful settings job first).1.calls ≡ true))
process-settles_example = process-settles helpful settings job first acknowledged

-- ===== src/Scenarios/Retries.antt =====
-- A running snapshot whose job is delivered again, and one that waits for an approval.
use urizo_final_orchestrator.Base.{
  ℕ, true, false, Str, codes, eq, mem, ◌≡◌, refl, arith, Option, none, some, [], ◌∷◌, ok, subset,
  same_set,
}
use urizo_final_orchestrator.Json.{text, int, dict, Fields, end, field, lookup}
use urizo_final_orchestrator.Contracts.{is_hex, uuid_at, uuid_from}
use urizo_final_orchestrator.Contracts.Checks.{is_text}
use urizo_final_orchestrator.Contracts.Claim.{is_some_text, is_number}
use urizo_final_orchestrator.Snapshot.Freeze.{intersects}
use urizo_final_orchestrator.Worker.Sending.{
  is_short_text, is_positive, is_equal_number, is_exact_uuid, approval_valid,
}
use urizo_final_orchestrator.Builder.Action.{put_field}
use urizo_final_orchestrator.Runner.{Event, Claim, SnapshotExecution, Checkpoint, completed, Ledger}
use urizo_final_orchestrator.Runner.Stored.{
  texts_in, ids_in, positive_in, ledger_of, ledger_in, checkpoint_ledger, attempt_of,
  checkpoint_execution_attempt, any_interrupted, checkpoint_phase, validate_checkpoint_identity,
  list_of, ledger_fields, optional_value, execution_updates,
}
use urizo_final_orchestrator.Runner.Approval.{
  items_of_task, interrupted, only_interrupt, payload_of, name_of, has_coding_authority,
  has_its_fields, has_positive, is_bound_to, same_attempt, is_correlated, is_filled, has_authority,
  pending_approval, Boundary, boundary_result,
}
use urizo_final_orchestrator.Runner.Plan.{
  goes_on, drop, last_hundred, updated_ledger, is_same_delivery, is_waiting_phase, is_boundary,
  plan_by_phase, plan_newer, plan_from, initial_state, plan_by, plan, duplicate_in, duplicate_of,
  duplicate_by,
}
use urizo_final_orchestrator.Runner.Written.{IsRecord, Writes}
use urizo_final_orchestrator.Runner.Ordered.{IsOrdered, plan-Writes, plan-IsOrdered}
use urizo_final_orchestrator.Runner.Invoke.{
  Runtime, Engine, gave, state_of, duplicate_read, is_duplicate_with, invoke_graph_with, perform,
  invoke_with,
}
use urizo_final_orchestrator.Runner.Performed.{
  IsAtBoundary, invoke_with-IsAtBoundary, duplicate-keeps,
}
use urizo_final_orchestrator.Runner.Authority.{pending_approval-approval_valid}
use urizo_final_orchestrator.Scenarios.Profile.{profile}
use urizo_final_orchestrator.Scenarios.Document.{fields}

abbrev no_clock : Str → Option ℕ
no_clock t = none

abbrev event_of : (event_id : Str) (version : ℕ) → Event
event_of event_id version = record {
  requested = record {
    event_id = event_id;
    job_id = codes "j";
    trace_id = codes "t";
    idempotency_key = codes "k";
    attempt = 1;
    expected_state_version = version;
    occurred_at = codes "now";
    binding = some (record {
      profile_version_id = profile.profile_version_id;
      pipeline_attempt = 1;
      execution_attempt = 1;
      workspace_id = none;
      tool_call_id = none;
    });
    payload = end;
  };
  dict = field (codes "eventId") (text event_id) end;
}

abbrev first_event : Event
first_event = event_of (codes "e1") 1

abbrev second_event : Event
second_event = event_of (codes "e2") 3

abbrev claim : Claim
claim = record {
  claimed = record {
    job_id = codes "j";
    trace_id = codes "t";
    lease_id = codes "l";
    lease_expires_at = 60;
    state_version = 2;
    resume = false;
    profile_version_id = profile.profile_version_id;
    snapshot = end;
  };
  dict = field (codes "leaseId") (text (codes "l")) end;
}

abbrev execution_at : (attempt : ℕ) → SnapshotExecution
execution_at attempt = record {
  snapshot = profile;
  pipeline_attempt = 1;
  execution_attempt = attempt;
  workspace_id = none;
  tool_call_id = none;
  context = end;
}

abbrev digest : Str
digest = codes "sha256:d"

abbrev begun : Fields
begun = initial_state no_clock first_event claim (execution_at 1) digest

-- The first run stopped on its way.
abbrev stopped_at : Checkpoint
stopped_at = record { values = some begun; tasks = []; has_next = true }

abbrev ledger : Ledger
ledger = record { event_ids = codes "e1" ∷ codes "e2" ∷ []; max_state_version = 3 }

abbrev updates : Fields
updates = execution_updates second_event claim (execution_at 2) ledger

planned : plan no_clock second_event claim (execution_at 2) digest stopped_at ≡ ok (goes_on updates)
unfolding plan plan_by plan_from plan_newer plan_by_phase is_same_delivery updated_ledger
    last_hundred drop checkpoint_ledger ledger_in ledger_of ids_in texts_in positive_in
    checkpoint_execution_attempt attempt_of checkpoint_phase any_interrupted
    validate_checkpoint_identity initial_state execution_updates ledger_fields list_of
    optional_value lookup eq mem is_some_text is_text is_waiting_phase put_field
planned = refl

plan-Writes_example : Writes (IsRecord second_event) (goes_on updates)
plan-Writes_example =
    plan-Writes no_clock second_event claim (execution_at 2) digest stopped_at (goes_on updates)
      (omega arith) planned

plan-IsOrdered_example :
    Writes
      (λ u. IsOrdered second_event claim (execution_at 2) digest begun stopped_at)
      (goes_on updates)
unfolding initial_state put_field execution_updates eq
plan-IsOrdered_example =
    plan-IsOrdered no_clock second_event claim (execution_at 2) digest stopped_at _ _ _
      (goes_on updates) (omega arith) refl planned

-- The graph takes the updates as its values, and ends when it is run.
abbrev engine : Engine (Unit {0}) Checkpoint
engine = record {
  resolve_execution = λ _ _. ok (some (execution_at 2));
  sha256_of = λ _. digest;
  get_state = λ _ c. ok c;
  update_state =
      λ _ u c. (ok tt, record { values = some u; tasks = c.tasks; has_next = c.has_next });
  invoke_graph =
      λ _ _ c. (gave c.values, record { values = c.values; tasks = c.tasks; has_next = false });
}

abbrev runtime_at : (attempt : ℕ) → Runtime (Unit {0})
runtime_at attempt = record {
  execution = execution_at attempt;
  graph = record { snapshot = profile; entry = codes "begin"; handlers = []; exits = [] };
  thread_id = codes "j";
  limit = 13;
  digest = digest;
}

abbrev ended : Checkpoint
ended = record { values = some updates; tasks = []; has_next = false }

abbrev result : Boundary
result = record { status = completed; values = updates; approval = none }

invoked :
    invoke_with no_clock engine (runtime_at 2) second_event claim stopped_at ≡ (ok result, ended)
unfolding invoke_with perform invoke_graph_with state_of boundary_result is_boundary plan plan_by
    plan_from plan_newer plan_by_phase is_same_delivery updated_ledger last_hundred drop
    checkpoint_ledger ledger_in ledger_of ids_in texts_in positive_in checkpoint_execution_attempt
    attempt_of checkpoint_phase any_interrupted validate_checkpoint_identity initial_state
    execution_updates ledger_fields list_of optional_value put_field lookup eq mem is_some_text
    is_text is_waiting_phase
invoked = refl

invoke_with-IsAtBoundary_example :
    IsAtBoundary no_clock engine (runtime_at 2) second_event claim result ended
invoke_with-IsAtBoundary_example =
    invoke_with-IsAtBoundary no_clock engine (runtime_at 2) second_event claim stopped_at ended
      result invoked

-- The first event, delivered once more after the second.
outdated : is_duplicate_with no_clock engine (runtime_at 1) first_event ended ≡ ok true
unfolding is_duplicate_with duplicate_read duplicate_by duplicate_of duplicate_in checkpoint_ledger
    ledger_in ledger_of ids_in texts_in positive_in execution_updates ledger_fields list_of lookup
    eq
outdated = refl

duplicate-keeps_example :
    (invoke_with no_clock engine (runtime_at 1) first_event claim ended).1 ≡ ended
duplicate-keeps_example =
    duplicate-keeps no_clock engine (runtime_at 1) first_event claim ended outdated

abbrev approval : Fields
approval = fields (
    (codes "schemaVersion", text (codes "1.0"))
    ∷ (codes "jobId", text (codes "j"))
    ∷ (codes "profileVersionId", text profile.profile_version_id)
    ∷ (codes "nodeId", text (codes "agent"))
    ∷ (codes "traceId", text (codes "t"))
    ∷ (codes "stateVersion", int 2)
    ∷ (codes "approvalId", text (codes "3f2504e0-4f89-41d3-9a0c-0305e82c3301"))
    ∷ (codes "stage", text (codes "PLAN"))
    ∷ (codes "stageRound", int 1)
    ∷ (codes "requiredRole", text (codes "REVIEWER"))
    ∷ (codes "pipelineAttempt", int 1)
    ∷ [])

abbrev waits : Checkpoint
waits = record {
  values = some updates;
  tasks = record { name = text (codes "agent"); interrupts = dict approval ∷ [] } ∷ [];
  has_next = true;
}

is_coding : has_coding_authority approval ≡ true
unfolding has_coding_authority intersects eq mem
is_coding = refl

let_through : pending_approval waits second_event claim (execution_at 2) ≡ ok approval
unfolding pending_approval interrupted items_of_task only_interrupt payload_of name_of
    has_coding_authority has_its_fields has_positive is_bound_to same_attempt is_correlated
    is_filled has_authority intersects eq mem same_set subset is_some_text is_text is_number
    is_equal_number is_positive is_exact_uuid uuid_from uuid_at is_hex lookup
let_through = refl

short_node : is_short_text (lookup (codes "nodeId") approval) ≡ true
unfolding is_short_text lookup eq
short_node = refl

short_stage : is_short_text (lookup (codes "stage") approval) ≡ true
unfolding is_short_text lookup eq
short_stage = refl

short_role : is_short_text (lookup (codes "requiredRole") approval) ≡ true
unfolding is_short_text lookup eq
short_role = refl

pending_approval-approval_valid_example : approval_valid claim.claimed approval ≡ true
pending_approval-approval_valid_example =
    pending_approval-approval_valid waits second_event claim (execution_at 2) approval let_through
      is_coding short_node short_stage short_role

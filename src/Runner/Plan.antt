-- ===== src/Runner/Plan.antt =====
-- snapshot_runner.py: what `SnapshotGraphRunner.invoke` decides from the checkpoint that it reads, before it
-- touches the graph, and what `is_duplicate` answers.
use urizo_final_orchestrator.Base.{
  ℕ, ◌-◌, Bool, true, false, not, ◌&&◌, ◌||◌, ◌==◌, ltb, Str, codes, Option, none, some, List, [],
  ◌∷◌, ◌++◌, if◌then◌else◌, mem, length, ok, err, ◌>>=◌, ◌>>◌, guard,
}
use urizo_final_orchestrator.Json.{text, dict, Fields, end, field, lookup}
use urizo_final_orchestrator.Contracts.Event.{parse_event}
use urizo_final_orchestrator.Contracts.Claim.{is_some_text}
use urizo_final_orchestrator.Builder.Action.{put_field}
use urizo_final_orchestrator.Runner.{
  Event, Claim, SnapshotExecution, Checkpoint, Phase, waiting_approval, completed, running, Ledger,
  state_conflict,
}
use urizo_final_orchestrator.Runner.Stored.{
  Run, checkpoint_ledger, checkpoint_execution_attempt, checkpoint_phase,
  validate_checkpoint_identity, validate_recovered_delivery, execution_updates, mapping_in,
  same_dict,
}
use urizo_final_orchestrator.Runner.Approval.{Boundary, boundary_result}

-- What `invoke` does next.
pub data Plan : Type 0 where
  -- `return _boundary_result(...)`, which may raise
  answers : Run Boundary → Plan
  -- `graph.update_state(config, updates)` and `_invoke_graph(graph, None, ...)`
  goes_on : (updates : Fields) → Plan
  -- `_invoke_graph(graph, Command(resume=True, update=updates), ...)`
  resumes : (updates : Fields) → Plan
  -- `_recover_completed_checkpoint`
  recovers : (updates : Fields) → Ledger → Plan
  -- `_invoke_graph(graph, initial, ...)`
  starts : (initial : Fields) → Plan

unfoldable pub drop : ℕ → List Str → List Str
drop n [] = []
drop n (t ∷ ts) = if n == 0 then t ∷ ts else drop (n - 1) ts

-- `ids[-100:]`
unfoldable pub last_hundred : List Str → List Str
last_hundred ids = drop (length ids - 100) ids

-- `updated_ledger`
unfoldable pub updated_ledger : Event → List Str → Ledger
updated_ledger event ids = record {
  event_ids = last_hundred (ids ++ (event.requested.event_id ∷ []));
  max_state_version = event.requested.expected_state_version;
}

unfoldable pub is_same_delivery : Event → Ledger → Bool
is_same_delivery event ledger =
    event.requested.expected_state_version == ledger.max_state_version
    && mem event.requested.event_id ledger.event_ids

unfoldable pub is_waiting_phase : Phase → Bool
is_waiting_phase waiting_approval = true
is_waiting_phase _ = false

-- `phase in {"WAITING_APPROVAL", "COMPLETED"}`
unfoldable pub is_boundary : Phase → Bool
is_boundary running = false
is_boundary _ = true

unfoldable pub plan_by_phase : Phase → (attempt : ℕ) → SnapshotExecution → Fields → Ledger → Plan
plan_by_phase completed attempt execution updates ledger = recovers updates ledger
plan_by_phase waiting_approval attempt execution updates ledger =
    if ltb attempt execution.execution_attempt then goes_on updates else resumes updates
plan_by_phase running attempt execution updates ledger = goes_on updates

module _ (instant_of : Str → Option ℕ) (event : Event) (claim : Claim)
    (execution : SnapshotExecution) (digest : Str) where
  unfoldable pub plan_same : Fields → Checkpoint → Ledger → Run Plan
  plan_same values checkpoint ledger = do
    validate_recovered_delivery instant_of values event claim execution
    ok (
        if is_boundary (checkpoint_phase checkpoint)
        then answers (boundary_result values checkpoint event claim execution)
        else goes_on (execution_updates event claim execution ledger))

  unfoldable pub plan_newer : Fields → Checkpoint → Ledger → Run Plan
  plan_newer values checkpoint ledger = do
    guard (ltb ledger.max_state_version event.requested.expected_state_version) state_conflict
    attempt ← checkpoint_execution_attempt values
    guard (not (ltb execution.execution_attempt attempt)) state_conflict
    guard
        (not (
          execution.execution_attempt == attempt
          && (not (is_waiting_phase (checkpoint_phase checkpoint)) || not claim.claimed.resume)))
        state_conflict
    let updated = updated_ledger event ledger.event_ids
    let updates = execution_updates event claim execution updated
    ok (plan_by_phase (checkpoint_phase checkpoint) attempt execution updates updated)

  unfoldable pub plan_from : Fields → Checkpoint → Run Plan
  plan_from values checkpoint = do
    validate_checkpoint_identity values event execution digest
    ledger ← checkpoint_ledger values
    if is_same_delivery event ledger
        then plan_same values checkpoint ledger
        else plan_newer values checkpoint ledger

  abbrev pub first_ledger : Ledger
  first_ledger = record {
    event_ids = event.requested.event_id ∷ [];
    max_state_version = event.requested.expected_state_version;
  }

  -- `initial`
  unfoldable pub initial_state : Fields
  initial_state = put_field (codes "_snapshotProfileDigest") (text digest) (
      put_field (codes "context") (dict execution.context)
        (execution_updates event claim execution first_ledger))

  unfoldable pub plan_first : Run Plan
  plan_first = guard (not claim.claimed.resume) state_conflict >>= λ _. ok (starts initial_state)

  unfoldable pub plan_by : Option Fields → Checkpoint → Run Plan
  plan_by none checkpoint = plan_first
  plan_by (some end) checkpoint = plan_first
  plan_by (some (field k v fs)) checkpoint = plan_from (field k v fs) checkpoint

  -- `invoke`, up to its first write
  unfoldable pub plan : Checkpoint → Run Plan
  plan checkpoint = plan_by checkpoint.values checkpoint

module _ (instant_of : Str → Option ℕ) (event : Event) (execution : SnapshotExecution)
    (digest : Str) where
  unfoldable pub recorded_is : Option Fields → Bool
  recorded_is none = false
  recorded_is (some recorded) = elim (parse_event instant_of (dict recorded)) [
    | err _ ↦ false
    | ok _ ↦ same_dict recorded event.dict
  ]

  -- `is_duplicate` of a ledger that was read
  unfoldable pub duplicate_in : Fields → Checkpoint → Run Ledger → Bool
  duplicate_in values checkpoint (err _) = false
  duplicate_in values checkpoint (ok ledger) =
      if ltb event.requested.expected_state_version ledger.max_state_version
      then true
      else is_some_text execution.snapshot.profile_version_id
          (lookup (codes "profileVersionId") values)
        && (is_some_text digest (lookup (codes "_snapshotProfileDigest") values)
            && (is_same_delivery event ledger
                && (is_boundary (checkpoint_phase checkpoint)
                    && recorded_is (mapping_in (lookup (codes "_snapshotEvent") values)))))

  unfoldable pub duplicate_of : Option Fields → Checkpoint → Bool
  duplicate_of none checkpoint = false
  duplicate_of (some end) checkpoint = false
  duplicate_of (some (field k v fs)) checkpoint =
      duplicate_in (field k v fs) checkpoint (checkpoint_ledger (field k v fs))

  -- `is_duplicate`, from the checkpoint on
  unfoldable pub duplicate_by : Checkpoint → Bool
  duplicate_by checkpoint = duplicate_of checkpoint.values checkpoint

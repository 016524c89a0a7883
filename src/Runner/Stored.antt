-- ===== src/Runner/Stored.antt =====
-- snapshot_runner.py: what is read of a checkpoint and written to it (`_checkpoint_ledger`,
-- `_checkpoint_execution_attempt`, `_checkpoint_phase`, `_validate_checkpoint_identity`,
-- `_validate_recovered_delivery` and `_execution_updates`), and `SnapshotExecution.create`.
use urizo_final_orchestrator.Base.{
  ℕ, Bool, true, false, ◌&&◌, leb, Str, codes, Option, none, some, List, [], ◌∷◌, length,
  if◌then◌else◌, Result, ok, err, ◌>>=◌, ◌>>◌, guard,
}
use urizo_final_orchestrator.Json.{
  Value, null, int, text, list, dict, proxy, Items, nil, cons, Fields, end, field, lookup,
}
use urizo_final_orchestrator.Contracts.{CodingJobRequested}
use urizo_final_orchestrator.Contracts.Checks.{Checked}
use urizo_final_orchestrator.Contracts.Event.{parse_event}
use urizo_final_orchestrator.Contracts.Claim.{is_some_text, parse_claim}
use urizo_final_orchestrator.Worker.Failure.{Failure}
use urizo_final_orchestrator.Worker.Sending.{is_equal_number}
use urizo_final_orchestrator.Runner.{
  Event, Claim, SnapshotExecution, Task, Checkpoint, Phase, waiting_approval, completed, running,
  Ledger, state_conflict,
}
use urizo_final_orchestrator.Runner.Equal.{same_value, all_same, same_count}

abbrev pub Run : Type 0 → Type 0
Run A = Result Failure A

abbrev pub ledger_key : Str
ledger_key = codes "_snapshotLedger"

abbrev pub mapping_in : Option Value → Option Fields
mapping_in (some (dict fs)) = some fs
mapping_in (some (proxy fs)) = some fs
mapping_in _ = none

-- The items, if all are texts.
unfoldable pub texts_in : Items → Option (List Str)
texts_in nil = some []
texts_in (cons (text t) vs) = elim (texts_in vs) [ none ↦ none | some ts ↦ some (t ∷ ts) ]
texts_in _ = none

unfoldable pub ids_in : Option Value → Option (List Str)
ids_in (some (list vs)) = texts_in vs
ids_in _ = none

unfoldable pub positive_in : Option Value → Option ℕ
positive_in (some (int n)) = if leb 1 n then some n else none
positive_in _ = none

unfoldable pub ledger_of : Option (List Str) → Option ℕ → Run Ledger
ledger_of (some ids) (some maximum) = do
  guard (leb 1 (length ids) && leb (length ids) 100) state_conflict
  ok (record { event_ids = ids; max_state_version = maximum })
ledger_of _ _ = err state_conflict

unfoldable pub ledger_in : Option Fields → Run Ledger
ledger_in none = err state_conflict
ledger_in (some fs) =
    ledger_of (ids_in (lookup (codes "eventIds") fs))
      (positive_in (lookup (codes "maxStateVersion") fs))

-- `_checkpoint_ledger`
unfoldable pub checkpoint_ledger : Fields → Run Ledger
checkpoint_ledger values = ledger_in (mapping_in (lookup ledger_key values))

unfoldable pub attempt_of : Option ℕ → Run ℕ
attempt_of none = err state_conflict
attempt_of (some n) = ok n

-- `_checkpoint_execution_attempt`
unfoldable pub checkpoint_execution_attempt : Fields → Run ℕ
checkpoint_execution_attempt values =
    attempt_of (positive_in (lookup (codes "executionAttempt") values))

unfoldable pub is_interrupted : List Value → Bool
is_interrupted [] = false
is_interrupted (v ∷ vs) = true

unfoldable pub any_interrupted : List Task → Bool
any_interrupted [] = false
any_interrupted (t ∷ ts) = if is_interrupted t.interrupts then true else any_interrupted ts

-- `_checkpoint_phase`
unfoldable pub checkpoint_phase : Checkpoint → Phase
checkpoint_phase c =
    if any_interrupted c.tasks then waiting_approval else if c.has_next then running else completed

-- `values.get(name) != expected` of a text that may be None
unfoldable pub is_optional_text : Option Str → Option Value → Bool
is_optional_text none none = true
is_optional_text none (some null) = true
is_optional_text (some t) v = is_some_text t v
is_optional_text _ _ = false

-- `_validate_checkpoint_identity`
unfoldable pub validate_checkpoint_identity :
    Fields → Event → SnapshotExecution → (digest : Str) → Run (Unit {0})
validate_checkpoint_identity values event execution digest =
    guard
      (is_some_text event.requested.job_id (lookup (codes "jobId") values)
        && (is_some_text event.requested.trace_id (lookup (codes "traceId") values)
            && (is_some_text execution.snapshot.profile_version_id
                  (lookup (codes "profileVersionId") values)
                && is_some_text digest (lookup (codes "_snapshotProfileDigest") values))))
      state_conflict

-- `a == b` of two dicts
abbrev pub same_dict : Fields → Fields → Bool
same_dict fs gs = same_count fs gs && all_same fs gs

unfoldable pub same_entries : Option Value → Option Value → Bool
same_entries (some v) (some w) = same_value v w
same_entries _ _ = false

-- `previous[field] == refreshed[field]` for each of the names
unfoldable pub agree_on : List Str → Fields → Fields → Bool
agree_on [] fs gs = true
agree_on (k ∷ ks) fs gs = same_entries (lookup k fs) (lookup k gs) && agree_on ks fs gs

abbrev pub immutable_claim_fields : List Str
immutable_claim_fields =
    codes "jobId" ∷ codes "traceId" ∷ codes "leaseId" ∷ codes "stateVersion" ∷ codes "snapshot" ∷ []

unfoldable pub same_binding : Fields → SnapshotExecution → Bool
same_binding values execution =
    is_equal_number execution.pipeline_attempt (lookup (codes "pipelineAttempt") values)
    && (is_equal_number execution.execution_attempt (lookup (codes "executionAttempt") values)
        && (is_optional_text execution.workspace_id (lookup (codes "workspaceId") values)
            && is_optional_text execution.tool_call_id (lookup (codes "toolCallId") values)))

module _ (instant_of : Str → Option ℕ) where
  unfoldable pub claim_reads : Fields → Checked CodingJobRequested → Bool
  claim_reads claim (err _) = false
  claim_reads claim (ok event) = elim (parse_claim instant_of (dict claim) event none) [
    | err _ ↦ false
    | ok _ ↦ true
  ]

  -- Both parts of the recorded delivery are read without an exception.
  unfoldable pub recorded_delivery : Option Fields → Option Fields → Run (Fields × Fields)
  recorded_delivery (some event) (some claim) = do
    guard (claim_reads claim (parse_event instant_of (dict event))) state_conflict
    ok (event, claim)
  recorded_delivery _ _ = err state_conflict

  -- `_validate_recovered_delivery`
  unfoldable pub validate_recovered_delivery :
      Fields → Event → Claim → SnapshotExecution → Run (Unit {0})
  validate_recovered_delivery values event claim execution = do
    (old_event, old_claim) ←
        recorded_delivery (mapping_in (lookup (codes "_snapshotEvent") values))
          (mapping_in (lookup (codes "_snapshotClaim") values))
    guard (same_dict old_event event.dict) state_conflict
    guard (agree_on immutable_claim_fields old_claim claim.dict) state_conflict
    guard (same_binding values execution) state_conflict

unfoldable pub optional_value : Option Str → Value
optional_value none = null
optional_value (some t) = text t

unfoldable pub list_of : List Str → Items
list_of [] = nil
list_of (t ∷ ts) = cons (text t) (list_of ts)

-- `dict(ledger)`
unfoldable pub ledger_fields : Ledger → Fields
ledger_fields l =
    field (codes "eventIds") (list (list_of l.event_ids))
      (field (codes "maxStateVersion") (int l.max_state_version) end)

-- `_execution_updates`
unfoldable pub execution_updates : Event → Claim → SnapshotExecution → Ledger → Fields
execution_updates event claim execution ledger =
    field (codes "jobId") (text event.requested.job_id) (
      field (codes "profileVersionId") (text execution.snapshot.profile_version_id) (
        field (codes "pipelineAttempt") (int execution.pipeline_attempt) (
          field (codes "executionAttempt") (int execution.execution_attempt) (
            field (codes "stateVersion") (int claim.claimed.state_version) (
              field (codes "traceId") (text claim.claimed.trace_id) (
                field (codes "workspaceId") (optional_value execution.workspace_id) (
                  field (codes "toolCallId") (optional_value execution.tool_call_id) (
                    field (codes "_snapshotEvent") (dict event.dict) (
                      field (codes "_snapshotClaim") (dict claim.dict)
                        (field ledger_key (dict (ledger_fields ledger)) end))))))))))

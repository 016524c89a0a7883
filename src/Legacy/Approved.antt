-- ===== src/Legacy/Approved.antt =====
-- graph.py: `approval_node`, from the state of the graph and the value that it is resumed with, and what a
-- delivery writes into the state.
use urizo_final_orchestrator.Base.{
  ℕ, Bool, false, not, ◌&&◌, Str, codes, eq, Option, none, some, List, [], ◌∷◌, if◌then◌else◌,
  same_set, ok, err, ◌>>=◌, ◌>>◌, guard,
}
use urizo_final_orchestrator.Json.{
  Value, int, text, list, dict, Items, Fields, end, field, field_names, lookup, is_true,
}
use urizo_final_orchestrator.Contracts.{CodingJobRequested, WorkerClaim}
use urizo_final_orchestrator.Contracts.Event.{parse_event}
use urizo_final_orchestrator.Contracts.Claim.{parse_claim}
use urizo_final_orchestrator.Worker.Failure.{Failure, graph_execution, other}
use urizo_final_orchestrator.Runner.{Event, Claim, contract_failure, state_conflict}
use urizo_final_orchestrator.Runner.Stored.{Run, mapping_in, agree_on}
use urizo_final_orchestrator.Builder.Action.{put_field}
use urizo_final_orchestrator.Legacy.Delivery.{
  at_most, is_int, list_in, recent_ids, found, checked, Course, continues, approves, begins, course,
}

abbrev pub bound_fields : List Str
bound_fields =
    codes "actor"
    ∷ codes "project"
    ∷ codes "repository"
    ∷ codes "graphStep"
    ∷ codes "baseSha"
    ∷ codes "contextDigest"
    ∷ codes "policyHash"
    ∷ codes "promptVersion"
    ∷ codes "allowedCapabilities"
    ∷ codes "allowedNodes"
    ∷ codes "systemPrompt"
    ∷ codes "userPrompt"
    ∷ codes "toolPath"
    ∷ codes "approvalId"
    ∷ []

abbrev pub resume_names : List Str
resume_names = codes "approved" ∷ codes "event" ∷ codes "claim" ∷ []

-- What `approval_node` interrupts with.
unfoldable pub approval_request : WorkerClaim → Run Fields
approval_request claim = do
  approval_id ← found (lookup (codes "approvalId") claim.snapshot)
  candidate_sha ← found (lookup (codes "baseSha") claim.snapshot)
  policy_hash ← found (lookup (codes "policyHash") claim.snapshot)
  ok (
      field (codes "schemaVersion") (text (codes "1.0")) (
        field (codes "jobId") (text claim.job_id) (
          field (codes "traceId") (text claim.trace_id) (
            field (codes "approvalId") approval_id (
              field (codes "candidateSha") candidate_sha
                (field (codes "policyHash") policy_hash end))))))

unfoldable pub resume_mapping : Option Fields → Run Fields
resume_mapping none = err contract_failure
resume_mapping (some fs) = do guard (same_set (field_names fs) resume_names) contract_failure; ok fs

-- A mapping, or the exception of indexing what is none.
unfoldable pub indexed : Option Fields → Run Fields
indexed none = err other
indexed (some fs) = ok fs

-- `max(maximum, n)` of an int: 0 and 1 of the bools.
unfoldable pub max_value : Option Value → ℕ → Value
max_value maximum n =
    if at_most n maximum then elim maximum [ none ↦ int n | some v ↦ v ] else int n

-- The ids of the ledger, which the runner writes as a list; anything else is taken to raise.
unfoldable pub ids_of : Option Items → Run Items
ids_of none = err other
ids_of (some vs) = ok vs

unfoldable pub approved_ledger : CodingJobRequested → Fields → Items → Fields
approved_ledger event ledger ids =
    put_field (codes "maxStateVersion")
      (max_value (lookup (codes "maxStateVersion") ledger) event.expected_state_version)
      (put_field (codes "eventIds") (list (recent_ids ids event.event_id)) ledger)

unfoldable pub approved_fields : (event claim : Value) → Fields → Fields
approved_fields event claim ledger = field (codes "event") event (
    field (codes "claim") claim
      (field (codes "ledger") (dict ledger) (field (codes "status") (text (codes "RUNNING")) end)))

abbrev pub approval_denied : Failure
approval_denied = graph_execution (codes "TOOL_APPROVAL_DENIED") false

module _ (instant_of : Str → Option ℕ) where
  -- An event and a claim that are stored under their names.
  unfoldable pub delivery_in : Fields → Run (CodingJobRequested × WorkerClaim)
  delivery_in fs = do
    event_value ← found (lookup (codes "event") fs)
    event ← checked (parse_event instant_of event_value)
    claim_value ← found (lookup (codes "claim") fs)
    claim ← checked (parse_claim instant_of claim_value event none)
    ok (event, claim)

  unfoldable pub is_later :
      (event : CodingJobRequested) (old_claim claim : WorkerClaim) → Fields → Bool
  is_later event old_claim claim ledger =
      not (at_most event.expected_state_version (lookup (codes "maxStateVersion") ledger))
      && agree_on bound_fields claim.snapshot old_claim.snapshot

  unfoldable pub with_ledger :
      CodingJobRequested → (event_value claim_value : Value) → Fields → Run Fields
  with_ledger event event_value claim_value ledger = do
    ids ← ids_of (list_in (lookup (codes "eventIds") ledger))
    ok (approved_fields event_value claim_value (approved_ledger event ledger ids))

  -- The ledger's maximum is an int, or comparing it raises.
  unfoldable pub resumed_with :
      Fields → (old_event : CodingJobRequested) (old_claim : WorkerClaim) → Fields → Run Fields
  resumed_with state old_event old_claim resume = do
    (event, claim) ← delivery_in resume
    guard (claim.resume && eq event.job_id old_event.job_id) state_conflict
    ledger ← indexed (mapping_in (lookup (codes "ledger") state))
    guard (is_int (lookup (codes "maxStateVersion") ledger)) other
    guard (is_later event old_claim claim ledger) state_conflict
    event_value ← found (lookup (codes "event") resume)
    claim_value ← found (lookup (codes "claim") resume)
    with_ledger event event_value claim_value ledger

  -- `approval_node`, given what `interrupt` returns
  unfoldable pub approval_node : Fields → Value → Run Fields
  approval_node state resume_value = do
    (old_event, old_claim) ← delivery_in state
    resume ← resume_mapping (mapping_in (some resume_value))
    guard (is_true (lookup (codes "approved") resume)) approval_denied
    resumed_with state old_event old_claim resume

  unfoldable pub written : Fields → Course → Run Fields
  written state (continues updates) = ok updates
  written state (approves value) = approval_node state (dict value)
  written state (begins initial) = ok initial

  -- What a delivery puts into the state of a graph with a checkpoint, before the next node runs.
  unfoldable pub delivered : Fields → Event → Claim → Run Fields
  delivered state event claim = do
    next ← course instant_of event claim (some state)
    written state next

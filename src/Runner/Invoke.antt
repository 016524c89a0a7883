-- ===== src/Runner/Invoke.antt =====
-- snapshot_runner.py: `SnapshotGraphRunner._runtime`, `is_duplicate` and `invoke` with the calls that they
-- make, and `ProfileBoundWorkerGraphRouter`. LangGraph, the provider and sha256
-- are parameters; S is the state that they keep, the checkpoints among it.
use urizo_final_orchestrator.Base.{
  ℕ, Bool, true, false, ◌&&◌, ◌==◌, Str, eq, Option, none, some, List, [], ◌∷◌, if◌then◌else◌, ok,
  err, guard,
}
use urizo_final_orchestrator.Json.{Fields, end, field}
use urizo_final_orchestrator.Contracts.{CodingJobRequested, is_profile_bound}
use urizo_final_orchestrator.Snapshot.{VersionedSnapshot}
use urizo_final_orchestrator.Node.{NodeRegistry}
use urizo_final_orchestrator.Builder.{Graph, key_error, stop_iteration}
use urizo_final_orchestrator.Builder.Compile.{Building, compile}
use urizo_final_orchestrator.Worker.Failure.{Failure, graph_execution, other}
use urizo_final_orchestrator.Runner.{
  Event, Claim, SnapshotExecution, Checkpoint, Phase, completed, Ledger, contract_failure,
  state_conflict,
}
use urizo_final_orchestrator.Runner.Limit.{recursion_limit}
use urizo_final_orchestrator.Runner.Stored.{
  Run, checkpoint_ledger, checkpoint_phase, validate_checkpoint_identity,
  validate_recovered_delivery,
}
use urizo_final_orchestrator.Runner.Approval.{Boundary, boundary_result}
use urizo_final_orchestrator.Runner.Plan.{
  Plan, answers, goes_on, resumes, recovers, starts, is_boundary, plan, duplicate_by,
}

-- The execution, graph, config and digest of an event.
pub record Runtime (W : Type 0) : Type 0 where
  pub execution : SnapshotExecution
  pub graph : Graph W
  pub thread_id : Str
  pub limit : ℕ
  pub digest : Str

-- The first argument of `graph.invoke`: None, a Command, or a state to start from.
pub data GraphInput : Type 0 where
  from_checkpoint : GraphInput
  resume_with : (updates : Fields) → GraphInput
  from_state : (initial : Fields) → GraphInput

-- What comes of `graph.invoke`: a state, if it is a mapping, SnapshotGraphExecutionError, or another
-- exception.
pub data Invoked : Type 0 where
  gave : Option Fields → Invoked
  execution_error : Invoked
  raised : Failure → Invoked

pub record Engine (W S : Type 0) : Type 0 where
  pub resolve_execution : CodingJobRequested → S → Run (Option SnapshotExecution)
  pub sha256_of : VersionedSnapshot → Str
  pub get_state : Runtime W → S → Run Checkpoint
  pub update_state : Runtime W → Fields → S → Run (Unit {0}) × S
  pub invoke_graph : Runtime W → GraphInput → S → Invoked × S

abbrev pub Act : Type 0 → Type 0 → Type 0
Act S A = S → Run A × S

module _ {S A B : Type 0} where
  abbrev pub onward : Run A → (A → Act S B) → Act S B
  onward (ok a) next s = next a s
  onward (err e) next s = (err e, s)

  infixl 5 ◌>>=◌
  abbrev pub ◌>>=◌ : Act S A → (A → Act S B) → Act S B
  ◌>>=◌ m next s = let (r, s') = m s in onward r next s'

infixl 5 ◌>>◌
abbrev pub ◌>>◌ : {S B : Type 0} → Act S (Unit {0}) → Act S B → Act S B
m >> k = m >>= λ _. k

-- A check or a value that does not touch the state.
abbrev pub lift : {S A : Type 0} → Run A → Act S A
lift r s = (r, s)

unfoldable pub state_of : Invoked → Run Fields
state_of (gave (some fs)) = ok fs
state_of (gave none) = err contract_failure
state_of execution_error = err contract_failure
state_of (raised f) = err f

unfoldable pub same_ids : List Str → List Str → Bool
same_ids [] [] = true
same_ids (i ∷ is) (j ∷ js) = eq i j && same_ids is js
same_ids _ _ = false

unfoldable pub same_ledger : Ledger → Ledger → Bool
same_ledger l m = same_ids l.event_ids m.event_ids && l.max_state_version == m.max_state_version

unfoldable pub is_completed : Phase → Bool
is_completed completed = true
is_completed _ = false

-- The values of a checkpoint that has any.
unfoldable pub held_values : Option Fields → Run Fields
held_values none = err state_conflict
held_values (some end) = err state_conflict
held_values (some (field k v fs)) = ok (field k v fs)

unfoldable pub execution_in : Option SnapshotExecution → Run SnapshotExecution
execution_in none = err contract_failure
execution_in (some e) = ok e

-- `except SnapshotGraphBuildError`
unfoldable pub built : {W : Type 0} → Building (Graph W) → Run (Graph W)
built (err key_error) = err other
built (err stop_iteration) = err other
built (err e) = err contract_failure
built (ok g) = ok g

-- `is_duplicate` where `_runtime` raised
unfoldable pub duplicate_failed : Failure → Run Bool
duplicate_failed (graph_execution code false) = ok false
duplicate_failed f = err f

unfoldable pub duplicate_read : (Checkpoint → Bool) → Run Checkpoint → Run Bool
duplicate_read test (err f) = err f
duplicate_read test (ok c) = ok (test c)

module _ {W S : Type 0} (instant_of : Str → Option ℕ) (engine : Engine W S) where
  -- `_runtime`
  unfoldable pub runtime : NodeRegistry W → CodingJobRequested → Act S (Runtime W)
  runtime registry event = do
    found ← λ s. (engine.resolve_execution event s, s)
    execution ← lift (execution_in found)
    graph ← lift (built (compile registry execution.snapshot))
    lift (
        ok (record {
          execution = execution;
          graph = graph;
          thread_id = event.job_id;
          limit = recursion_limit execution.snapshot;
          digest = engine.sha256_of execution.snapshot;
        }))

  module _ (r : Runtime W) (event : Event) where
    -- `is_duplicate`, from `get_state` on
    unfoldable pub is_duplicate_with : S → Run Bool
    is_duplicate_with s =
        duplicate_read (duplicate_by instant_of event r.execution r.digest) (engine.get_state r s)

    abbrev pub read_state : Act S Checkpoint
    read_state s = (engine.get_state r s, s)

    abbrev pub run_from : GraphInput → Act S Fields
    run_from input s = let (i, s') = engine.invoke_graph r input s in (state_of i, s')

    module _ (claim : Claim) where
      -- `_invoke_graph`
      unfoldable pub invoke_graph_with : GraphInput → Act S Boundary
      invoke_graph_with input = do
        result ← run_from input
        checkpoint ← read_state
        lift (guard (is_boundary (checkpoint_phase checkpoint)) state_conflict)
        lift (boundary_result result checkpoint event claim r.execution)

      -- `_recover_completed_checkpoint`, once the checkpoint is read again
      unfoldable pub recovered_from : Ledger → Checkpoint → Fields → Act S Boundary
      recovered_from expected checkpoint values = do
        lift (guard (is_completed (checkpoint_phase checkpoint)) state_conflict)
        lift (validate_checkpoint_identity values event r.execution r.digest)
        ledger ← lift (checkpoint_ledger values)
        lift (guard (same_ledger ledger expected) state_conflict)
        lift (validate_recovered_delivery instant_of values event claim r.execution)
        lift (ok (record { status = completed; values = values; approval = none }))

      -- `_recover_completed_checkpoint`
      unfoldable pub recover_completed_checkpoint : Fields → Ledger → Act S Boundary
      recover_completed_checkpoint updates expected = do
        engine.update_state r updates
        checkpoint ← read_state
        values ← lift (held_values checkpoint.values)
        recovered_from expected checkpoint values

      unfoldable pub perform : Plan → Act S Boundary
      perform (answers b) = lift b
      perform (goes_on updates) = do
        engine.update_state r updates
        invoke_graph_with from_checkpoint
      perform (resumes updates) = invoke_graph_with (resume_with updates)
      perform (recovers updates expected) = recover_completed_checkpoint updates expected
      perform (starts initial) = invoke_graph_with (from_state initial)

      -- `invoke`, from `get_state` on
      unfoldable pub invoke_with : Act S Boundary
      invoke_with = do
        checkpoint ← read_state
        next ← lift (plan instant_of event claim r.execution r.digest checkpoint)
        perform next

  -- `is_duplicate`
  unfoldable pub is_duplicate : NodeRegistry W → Event → S → Run Bool
  is_duplicate registry event s = elim (runtime registry event.requested s).0 [
    | err f ↦ duplicate_failed f
    | ok r ↦ is_duplicate_with r event s
  ]

  -- `invoke`
  unfoldable pub invoke : NodeRegistry W → Event → Claim → Act S Boundary
  invoke registry event claim = do r ← runtime registry event.requested; invoke_with r event claim

-- `ProfileBoundWorkerGraphRouter._select`
unfoldable pub select {ℓ} : {R : Type ℓ} (legacy snapshot : R) → CodingJobRequested → R
select legacy snapshot event = if is_profile_bound event then snapshot else legacy

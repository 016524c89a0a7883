-- ===== src/Worker/Process.antt =====
-- `WorkerLoop.process` of service.py and the methods that it calls. The collaborators (the worker API,
-- the graph, the heartbeat manager) are functions over a state `W` of their own; `calls` is the
-- sequence of the calls made to them, the last in front.
use urizo_final_orchestrator.Base.{
  ℕ, zero, suc, ◌+◌, ◌-◌, ◌^◌, Bool, true, false, not, ◌&&◌, Str, codes, ◌==◌, leb, Option, none,
  some, List, ◌∷◌, if◌then◌else◌, eq, Result, ok, err,
}
use urizo_final_orchestrator.Json.{Fields}
use urizo_final_orchestrator.Contracts.{
  QueuedJobReference, CodingJobRequested, WorkerClaim, is_profile_bound,
}
use urizo_final_orchestrator.Worker.Failure.{
  Failure, graph_execution, worker_api, lease_lost, other, classify_failure,
  is_terminal_resolve_rejection,
}

-- The outcomes that a worker reports.
pub data Outcome : Type 0 where
  waiting_approval completed retryable_failure permanent_failure : Outcome

-- `result.get("status")` as the tests of it see it; a list or a dict cannot be looked up in a set.
pub data StatusField : Type 0 where
  text_status : Str → StatusField
  other_status unhashable_status : StatusField

-- `result.get("pendingApproval")`: absent or None, a mapping, or another value.
pub data PendingField : Type 0 where
  no_pending : PendingField
  mapping_pending : Fields → PendingField
  other_pending : PendingField

-- What `graph.invoke` returns.
pub data GraphResult : Type 0 where
  not_mapping : GraphResult
  mapping : StatusField → PendingField → GraphResult

pub data Call : Type 0 where
  resolve : Call
  asked_duplicate : Bool → Call
  claim : Call
  sleep : ℕ → Call
  start_heartbeat stop_heartbeat lease_current lease_lapsed : WorkerClaim → Call
  invoke : Call
  accepted rejected : WorkerClaim → Outcome → Option Str → Call

-- The collaborators' methods; an exception comes back as `err`.
pub record Collaborators (W : Type 0) : Type 0 where
  pub resolve_job : QueuedJobReference → W → Result Failure CodingJobRequested × W
  pub is_duplicate : CodingJobRequested → W → Result Failure Bool × W
  pub claim_job : CodingJobRequested → W → Result Failure WorkerClaim × W
  pub start : WorkerClaim → W → Result Failure (Unit {0}) × W
  pub ensure_current : WorkerClaim → W → Result Failure (Unit {0}) × W
  pub stop : Str → W → W
  pub invoke_graph : CodingJobRequested → WorkerClaim → W → Result Failure GraphResult × W
  pub report :
      WorkerClaim → Outcome → Option Str → Option Fields → W → Result Failure (Unit {0}) × W

pub record Settings : Type 0 where
  pub max_attempts : ℕ
  pub max_backoff_seconds : ℕ

-- `last_error_code` of the health state, and what the collaborators keep.
pub record State (W : Type 0) : Type 0 where
  pub world : W
  pub last_error_code : Option Str
  pub calls : List Call

abbrev pub Exec : Type 0 → Type 0 → Type 0
Exec W A = State W → Result Failure A × State W

infixl 5 ◌>>=◌ ◌>>◌
abbrev pub continue : {W A B : Type 0} → Result Failure A → (A → Exec W B) → Exec W B
continue (ok a) f s = f a s
continue (err e) f s = (err e, s)

abbrev pub ◌>>=◌ : {W A B : Type 0} → Exec W A → (A → Exec W B) → Exec W B
◌>>=◌ m f s = let (r, s') = m s in continue r f s'

abbrev pub ◌>>◌ : {W B : Type 0} → Exec W (Unit {0}) → Exec W B → Exec W B
m >> k = m >>= λ _. k

abbrev pub pure : {W A : Type 0} → A → Exec W A
pure a s = (ok a, s)

abbrev pub raise : {W A : Type 0} → Failure → Exec W A
raise e s = (err e, s)

abbrev pub note : {W : Type 0} → Call → State W → State W
note c s = record s { calls = c ∷ s.calls }

-- A call of a collaborator, with what is noted of its answer.
abbrev pub perform :
    {W A : Type 0} → (W → Result Failure A × W) → (Result Failure A → Call) → Exec W A
perform m c s = let (r, w) = m s.world in (r, record s { world = w; calls = c r ∷ s.calls })

unfoldable pub set_error : {W : Type 0} → Option Str → Exec W (Unit {0})
set_error code s = (ok tt, record s { last_error_code = code })

-- A WorkerApiError that is retryable; the loops catch nothing else.
unfoldable pub may_retry : Failure → Bool
may_retry (worker_api code retryable status) = retryable
may_retry _ = false

abbrev pub min_of : ℕ → ℕ → ℕ
min_of a b = if leb a b then a else b

abbrev pub lease_check : WorkerClaim → Result Failure (Unit {0}) → Call
lease_check c (ok _) = lease_current c
lease_check c (err f) = lease_lapsed c

abbrev pub verdict : WorkerClaim → Outcome → Option Str → Result Failure (Unit {0}) → Call
verdict c o code (ok _) = accepted c o code
verdict c o code (err _) = rejected c o code

abbrev pub asked : Result Failure Bool → Call
asked (ok b) = asked_duplicate b
asked (err f) = asked_duplicate false

abbrev pub contract_failure : Failure
contract_failure = graph_execution (codes "CONTRACT_VALIDATION_FAILED") false

-- The outcome that a graph's result stands for, with the approval that it waits for.
unfoldable pub outcome_of : GraphResult → Result Failure (Outcome × Option Fields)
outcome_of not_mapping = err contract_failure
outcome_of (mapping unhashable_status p) = err other
outcome_of (mapping other_status p) = err contract_failure
outcome_of (mapping (text_status t) p) =
    if eq t (codes "WAITING_APPROVAL")
    then elim p [ mapping_pending fs ↦ ok (waiting_approval, some fs) | _ ↦ err contract_failure ]
    else if eq t (codes "COMPLETED")
    then elim p [ no_pending ↦ ok (completed, none) | _ ↦ err contract_failure ]
    else err contract_failure

unfoldable pub failure_outcome : Bool → Outcome
failure_outcome retryable = if retryable then retryable_failure else permanent_failure

module _ {W : Type 0} (api : Collaborators W) (settings : Settings) where
  -- The loop of `_resolve_with_backoff` and `_claim_with_backoff`: `left` attempts remain, the next
  -- one has the number `attempt`. With none to begin with the `assert` fails.
  unfoldable pub with_backoff : {A : Type 0} → Call → (W → Result Failure A × W) → ℕ → ℕ → Exec W A
  with_backoff c m zero attempt s = (err other, s)
  with_backoff c m (suc left) attempt s =
      let (r, s') = perform m (λ _. c) s in
      elim r [
        | ok a ↦ (ok a, s')
        | err f ↦ elim (may_retry f && not (left == 0)) [
          | true ↦
              with_backoff c m left (attempt + 1)
                (note (sleep (min_of (2 ^ (attempt - 1)) settings.max_backoff_seconds)) s')
          | false ↦ (err f, s')
        ]
      ]

  unfoldable pub resolve_with_backoff : QueuedJobReference → Exec W CodingJobRequested
  resolve_with_backoff job = with_backoff resolve (api.resolve_job job) settings.max_attempts 1

  unfoldable pub claim_with_backoff : CodingJobRequested → Exec W WorkerClaim
  claim_with_backoff event = with_backoff claim (api.claim_job event) settings.max_attempts 1

  -- `except LeaseLostError: return False`, and `except WorkerApiError`, which leaves its code.
  unfoldable pub reported : Result Failure (Unit {0}) → Exec W Bool
  reported (ok _) = pure true
  reported (err (lease_lost code)) = pure false
  reported (err (worker_api code retryable status)) = do set_error (some code); pure false
  reported (err f) = raise f

  -- `self._heartbeat.ensure_current(claim)` and the report after it.
  unfoldable pub report_checked :
      WorkerClaim → Outcome → Option Str → Option Fields → Exec W (Unit {0})
  report_checked c o code pending = do
    perform (api.ensure_current c) (lease_check c)
    perform (api.report c o code pending) (verdict c o code)

  unfoldable pub report_outcome : WorkerClaim → Outcome × Option Fields → Exec W Bool
  report_outcome c (o, pending) s = let (r, s') = report_checked c o none pending s in reported r s'

  -- `_report_success`
  unfoldable pub report_success : WorkerClaim → GraphResult → Exec W Bool
  report_success c result s = continue (outcome_of result) (report_outcome c) s

  -- `except WorkerApiError: return False`
  unfoldable pub answered : Result Failure (Unit {0}) → Exec W Bool
  answered (ok _) = pure true
  answered (err (worker_api code retryable status)) = pure false
  answered (err f) = raise f

  -- What follows `ensure_current` in `_report_failure`; `except LeaseLostError: return False`.
  unfoldable pub after_check : WorkerClaim → Outcome → Str → Result Failure (Unit {0}) → Exec W Bool
  after_check c o code (ok _) = λ s.
      let (r, s') = perform (api.report c o (some code) none) (verdict c o (some code)) s in
      answered r s'
  after_check c o code (err (lease_lost _)) = pure false
  after_check c o code (err f) = raise f

  -- `_report_failure`
  unfoldable pub report_failure : WorkerClaim → Bool × Str → Exec W Bool
  report_failure c (retryable, code) s =
      let (r, s') = perform (api.ensure_current c) (lease_check c) s in
      after_check c (failure_outcome retryable) code r s'

  -- What follows the run.
  unfoldable pub with_success :
      CodingJobRequested → WorkerClaim → Result Failure GraphResult → Exec W Bool
  with_success event c (err f) = raise f
  with_success event c (ok result) = do
    done ← if is_profile_bound event then report_success c result else pure true
    if done then (set_error none >>= λ _. pure true) else pure false

  -- The body of the `try` from the claim on.
  unfoldable pub work : CodingJobRequested → WorkerClaim → Exec W Bool
  work event c = do
    perform (api.start c) (λ _. start_heartbeat c)
    λ s.
        let (r, s') = perform (api.invoke_graph event c) (λ _. invoke) s in
        with_success event c r s'

  -- `except Exception` with a claim.
  unfoldable pub handled : WorkerClaim → Result Failure Bool → Exec W Bool
  handled c (ok b) = pure b
  handled c (err f) = do
    set_error (some (classify_failure f).1)
    report_failure c (classify_failure f)

  -- `finally: self._heartbeat.stop(claim.job_id)`
  unfoldable pub stopped : WorkerClaim → State W → State W
  stopped c s = note (stop_heartbeat c) (record s { world = api.stop c.job_id s.world })

  unfoldable pub claimed : CodingJobRequested → WorkerClaim → Exec W Bool
  claimed event c s =
      let (r, s') = work event c s in let (b, s'') = handled c r s' in (b, stopped c s'')

  -- `except Exception` without a claim.
  unfoldable pub unclaimed : (event_is_none : Bool) → Failure → Exec W Bool
  unclaimed unresolved f = do
    set_error (some (classify_failure f).1)
    pure (unresolved && is_terminal_resolve_rejection f)

  unfoldable pub after_claim : CodingJobRequested → Result Failure WorkerClaim → Exec W Bool
  after_claim event (ok c) = claimed event c
  after_claim event (err f) = unclaimed false f

  -- The claim and what follows it.
  unfoldable pub claim_and_run : CodingJobRequested → Exec W Bool
  claim_and_run event s = let (r, s') = claim_with_backoff event s in after_claim event r s'

  unfoldable pub after_duplicate : CodingJobRequested → Result Failure Bool → Exec W Bool
  after_duplicate event (err f) = unclaimed false f
  after_duplicate event (ok duplicate) =
      if duplicate && not (is_profile_bound event) then pure true else claim_and_run event

  unfoldable pub after_resolve : Result Failure CodingJobRequested → Exec W Bool
  after_resolve (err f) = unclaimed true f
  after_resolve (ok event) =
      λ s. let (r, s') = perform (api.is_duplicate event) asked s in after_duplicate event r s'

  -- `process`: whether the delivery is to be acknowledged.
  unfoldable pub process : QueuedJobReference → Exec W Bool
  process job s = let (r, s') = resolve_with_backoff job s in after_resolve r s'

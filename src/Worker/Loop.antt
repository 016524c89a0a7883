-- ===== src/Worker/Loop.antt =====
-- service.py: `run` of `WorkerLoop` and of `NaturalCmsWorkerLoop`, whose texts agree, over the queue and
-- the loop's own `process`. The waits between iterations are left out.
use urizo_final_orchestrator.Base.{
  ℕ, zero, suc, Bool, true, false, Str, codes, eq, ◌||◌, Option, none, some, Result, ok, err,
  if◌then◌else◌,
}
use urizo_final_orchestrator.Json.{Value}
use urizo_final_orchestrator.Contracts.{QueuedJobReference}
use urizo_final_orchestrator.Queue.Store.{Raw, World, QueueError}
use urizo_final_orchestrator.Queue.Delivery.{QueueDelivery, ack, requeue, pop, recover_stale}
use urizo_final_orchestrator.Worker.Failure.{
  Failure, other, classify_failure, is_terminal_natural_cms_failure,
}
use urizo_final_orchestrator.Worker.Process.{
  GraphResult, not_mapping, mapping, text_status, other_status, unhashable_status, State, Exec,
  ◌>>=◌, set_error, contract_failure, set_error, perform, invoke, pure,
}

-- The queue, `queue` of the health state, and what `process` works on.
pub record LoopState (W : Type 0) : Type 0 where
  pub queue : World
  pub queue_up : Bool
  pub worker : State W

abbrev pub queue_unavailable : Str
queue_unavailable = codes "QUEUE_UNAVAILABLE"

module _ {W : Type 0} (decode : Raw → Option Value)
    (process : QueuedJobReference → Exec W Bool) where
  -- `except QueueError`
  abbrev pub recovered : Result QueueError ℕ × World → State W → LoopState W
  recovered (ok n, q) s = record { queue = q; queue_up = true; worker = s }
  recovered (err e, q) s = record { queue = q; queue_up = false; worker = s }

  unfoldable pub queue_failed : World → State W → LoopState W
  queue_failed q s =
      recovered (recover_stale decode q) (record s { last_error_code = some queue_unavailable })

  -- The acknowledgement or the requeue has ended.
  abbrev pub finished : Result QueueError (Unit {0}) × World → State W → LoopState W
  finished (ok _, q) s = record { queue = q; queue_up = true; worker = s }
  finished (err e, q) s = queue_failed q s

  -- After `process`, whose exceptions nothing here catches.
  abbrev pub settled :
      QueueDelivery
      → World
      → Result Failure Bool × State W
      → Result Failure (Unit {0}) × LoopState W
  settled d q (ok true, s) = (ok tt, finished (ack d q) s)
  settled d q (ok false, s) = (ok tt, finished (requeue d q) s)
  settled d q (err f, s) = (err f, record { queue = q; queue_up = true; worker = s })

  abbrev pub popped :
      Result QueueError (Option QueueDelivery) × World
      → State W
      → Result Failure (Unit {0}) × LoopState W
  popped (err e, q) s = (ok tt, queue_failed q s)
  popped (ok none, q) s = (ok tt, record { queue = q; queue_up = true; worker = s })
  popped (ok (some d), q) s = settled d q (process d.job s)

  -- One iteration.
  unfoldable pub run_once : LoopState W → Result Failure (Unit {0}) × LoopState W
  run_once l = popped (pop decode l.queue) l.worker

  abbrev pub go_on :
      (LoopState W → Result Failure (Unit {0}) × LoopState W)
      → Result Failure (Unit {0}) × LoopState W
      → Result Failure (Unit {0}) × LoopState W
  go_on loop (ok _, l) = loop l
  go_on loop (err f, l) = (err f, l)

  -- `run`, until the stop flag is seen after that many iterations.
  unfoldable pub run : ℕ → LoopState W → Result Failure (Unit {0}) × LoopState W
  run zero l = (ok tt, l)
  run (suc n) l = go_on (run n) (run_once l)

-- `NaturalCmsWorkerLoop.process` over the runner's `invoke`.
abbrev pub is_terminal_status : Str → Bool
is_terminal_status t = eq t (codes "WAITING_APPROVAL") || eq t (codes "COMPLETED")

unfoldable pub natural_cms_result : Result Failure GraphResult → Result Failure (Unit {0})
natural_cms_result (err f) = err f
natural_cms_result (ok not_mapping) = err contract_failure
natural_cms_result (ok (mapping (text_status t) p)) =
    if is_terminal_status t then ok tt else err contract_failure
natural_cms_result (ok (mapping other_status p)) = err contract_failure
natural_cms_result (ok (mapping unhashable_status p)) = err other

unfoldable pub natural_cms_answer : {W : Type 0} → Result Failure (Unit {0}) → Exec W Bool
natural_cms_answer (ok _) = set_error none >>= λ _. pure true
natural_cms_answer (err f) = set_error (some (classify_failure f).1) >>= λ _.
    pure (is_terminal_natural_cms_failure f (classify_failure f).0)

unfoldable pub natural_cms_process :
    {W : Type 0}
    → (QueuedJobReference → W → Result Failure GraphResult × W)
    → QueuedJobReference
    → Exec W Bool
natural_cms_process runner job s =
    let (r, s') = perform (runner job) (λ _. invoke) s in
    natural_cms_answer (natural_cms_result r) s'

-- ===== src/Scenarios/Rounds.antt =====
-- A worker whose jobs never end.
use urizo_final_orchestrator.Base.{ℕ, Bool, true, false, ◌≡◌, refl, none, [], ok, Result}
use urizo_final_orchestrator.Contracts.{QueuedJobReference}
use urizo_final_orchestrator.Queue.Conserve.{total}
use urizo_final_orchestrator.Queue.Order.{calm}
use urizo_final_orchestrator.Worker.Failure.{Failure}
use urizo_final_orchestrator.Worker.Process.{State}
use urizo_final_orchestrator.Worker.Loop.{LoopState, run}
use urizo_final_orchestrator.Worker.Kept.{run-keeps}
use urizo_final_orchestrator.Worker.Rounds.{IsCalm, run-IsCalm}
use urizo_final_orchestrator.Scenarios.Delivery.{
  reader, known, known-IsReadable, failing, waiting, waiting-IsSettled,
}

abbrev hesitant : QueuedJobReference → State ℕ → Result Failure Bool × State ℕ
hesitant job s = (ok false, s)

abbrev troubled : LoopState ℕ
troubled = record {
  queue = failing;
  queue_up = true;
  worker = record { world = 0; last_error_code = none; calls = [] };
}

abbrev quiet : LoopState ℕ
quiet = record troubled { queue = calm waiting 7 }

run-keeps_example :
    total known (run reader hesitant 5 troubled).1.queue.store ≡ total known failing.store
run-keeps_example = run-keeps reader hesitant known known-IsReadable (λ job s e h. cc) 5 troubled

run-IsCalm_example : IsCalm 7 (run reader hesitant 5 quiet).1
run-IsCalm_example =
    run-IsCalm reader 7 hesitant (λ job s f h. cc) 5 quiet
      (record { store = waiting; served = refl; settled_store = waiting-IsSettled })

-- ===== src/Worker/Rounds.antt =====
-- The delivery counters over the iterations of `run`.
use urizo_final_orchestrator.Base.{
  ℕ, zero, suc, Bool, true, false, ◌≡◌, ◌≢◌, refl, Option, none, some, [], ◌++◌, Result, ok, err,
  arith,
}
use urizo_final_orchestrator.Json.{Value}
use urizo_final_orchestrator.Contracts.{QueuedJobReference}
use urizo_final_orchestrator.Queue.Store.{Raw, Store, World, QueueError}
use urizo_final_orchestrator.Queue.Delivery.{QueueDelivery, ack, requeue, pop, recover_stale}
use urizo_final_orchestrator.Queue.Order.{calm, lists, recover_stale_order}
use urizo_final_orchestrator.Queue.Attempts.{
  IsSettled, IsHeld, PopAnswer, pop_settled, ack_settles, requeue_settles,
}
use urizo_final_orchestrator.Worker.Failure.{Failure}
use urizo_final_orchestrator.Worker.Process.{State}
use urizo_final_orchestrator.Worker.Loop.{
  LoopState, queue_failed, finished, settled, popped, run_once, go_on, run,
}

-- The queue answers all calls, and no delivery is held.
pub record IsCalm {W : Type 0} (now : ℕ) (l : LoopState W) : Type 0 where
  pub store : Store
  pub served : l.queue ≡ calm store now
  pub settled_store : IsSettled store

module _ {W : Type 0} (decode : Raw → Option Value) (now : ℕ)
    (process : QueuedJobReference → State W → Result Failure Bool × State W) where
  finished-calm :
      (x : Result QueueError (Unit {0}) × World) (s : State W) (s' : Store)
      → x ≡ (ok tt, calm s' now)
      → IsSettled s'
      → IsCalm now (finished decode process x s)
  finished-calm x s s' e h = record { store = s'; served = ground (arith, e); settled_store = h }

  recovered-calm :
      (q : Store) (s : State W)
      → IsSettled q
      → IsCalm now (queue_failed decode process (calm q now) s)
  unfolding queue_failed
  recovered-calm q s h =
      let same : q ≡ lists q.queue [] q.dead_letter q.failure_history q.delivery_attempts =
        ground (arith, h.none_held) in
      let t = lists (q.queue ++ []) [] q.dead_letter q.failure_history q.delivery_attempts in
      let e : recover_stale decode (calm q now) ≡ (ok 0, calm t now) = rw same (
        recover_stale_order decode now [] q.queue q.dead_letter q.failure_history
          q.delivery_attempts tt) in
      record {
        store = t;
        served = ground (arith, e);
        settled_store = record { none_held = refl; below = h.below };
      }

  settled-calm :
      (d : QueueDelivery) (q : Store) (x : Result Failure Bool) (s : State W)
      → IsHeld d q
      → ((f : Failure) → x ≢ err f)
      → IsCalm now (settled decode process d (calm q now) (x, s)).1
  settled-calm d q (ok true) s h fine =
      let (s', e, t, _, _) = ack_settles now d q h in finished-calm (ack d (calm q now)) s s' e t
  settled-calm d q (ok false) s h fine =
      let (s', e, t, _) = requeue_settles now d q h in
      finished-calm (requeue d (calm q now)) s s' e t
  settled-calm d q (err f) s h fine = absurd (fine f refl)

  popped-calm :
      (x : Result QueueError (Option QueueDelivery)) (q : Store) (s : State W)
      → PopAnswer x q
      → ((job : QueuedJobReference) (f : Failure) → (process job s).0 ≢ err f)
      → IsCalm now (popped decode process (x, calm q now) s).1
  popped-calm (err e) q s h fine = recovered-calm q s h
  popped-calm (ok none) q s h fine = record { store = q; served = refl; settled_store = h }
  popped-calm (ok (some d)) q s h fine =
      settled-calm d q (process d.job s).0 (process d.job s).1 h (fine d.job)

  once-IsCalm :
      ((job : QueuedJobReference) (s : State W) (f : Failure) → (process job s).0 ≢ err f)
      → (l : LoopState W) → IsCalm now l
      → IsCalm now (run_once decode process l).1
  unfolding run_once
  once-IsCalm fine l c =
      let (x, s', e, answer) = pop_settled decode now c.store c.settled_store in
      let e' : pop decode l.queue ≡ (x, calm s' now) = rw c.served e in
      rw e' (popped-calm x s' l.worker answer (λ job f. fine job l.worker f))

  -- When the queue's calls are served and `process` never raises, every number of iterations of a
  -- worker's loop leaves no delivery held and every delivery counter below the limit of three, from a
  -- state of which this holds.
  pub run-IsCalm :
      ((job : QueuedJobReference) (s : State W) (f : Failure) → (process job s).0 ≢ err f)
      → (n : ℕ) (l : LoopState W) → IsCalm now l
      → IsCalm now (run decode process n l).1
  unfolding run
  run-IsCalm fine zero l c = c
  run-IsCalm fine (suc n) l c =
      next (run-IsCalm fine n) (run_once decode process l).0 (run_once decode process l).1
        (once-IsCalm fine l c)
    where
      next :
          ((k : LoopState W) → IsCalm now k → IsCalm now (run decode process n k).1)
          → (x : Result Failure (Unit {0})) (k : LoopState W) → IsCalm now k
          → IsCalm now (go_on decode process (run decode process n) (x, k)).1
      next rest (ok _) k h = rest k h
      next rest (err f) k h = h

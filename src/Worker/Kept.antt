-- ===== src/Worker/Kept.antt =====
-- What `run` does to the entries of the queue.
use urizo_final_orchestrator.Base.{
  ℕ, zero, suc, Bool, true, false, ◌≡◌, ◌≢◌, refl, ◌∙◌, Option, none, some, [], ◌∷◌, eq, eq_iff,
  Result, ok, err, arith, Bool-cases, inl, inr,
}
use urizo_final_orchestrator.Json.{Value}
use urizo_final_orchestrator.Contracts.{QueuedJobReference}
use urizo_final_orchestrator.Queue.Store.{
  Raw, World, QueueError, Exec, continue, call, blmove, hincrby, read_failed,
}
use urizo_final_orchestrator.Queue.Delivery.{
  QueueDelivery, require_client, size_valid, discard_poison, ack, requeue, from_json, deliver,
  receive, pop, recover_stale,
}
use urizo_final_orchestrator.Queue.Conserve.{total}
use urizo_final_orchestrator.Queue.NoLoss.{
  IsReadable, popping, recovering, acking, requeueing, copies_kept,
}
use urizo_final_orchestrator.Worker.Failure.{Failure}
use urizo_final_orchestrator.Worker.Process.{State}
use urizo_final_orchestrator.Worker.Loop.{
  LoopState, recovered, queue_failed, finished, settled, popped, run_once, go_on, run,
  queue_unavailable,
}

continue-eq-ok :
    {A B : Type 0} (r : Result QueueError A) (f : A → Exec B) (w : World) {b : B}
    → (continue r f w).0 ≡ ok b
    → (a : A) × ((f a w).0 ≡ ok b)
continue-eq-ok (ok a) f w h = (a, h)
continue-eq-ok (err e) f w h = cc

module _ (decode : Raw → Option Value) where
  deliver-read :
      (raw : Raw) (o : Option QueuedJobReference) (w : World) (d : QueueDelivery)
      → from_json decode raw ≡ o
      → (deliver decode raw o w).0 ≡ ok (some d)
      → from_json decode d.raw ≡ some d.job
  unfolding deliver call discard_poison require_client hincrby
  deliver-read raw none w d e h = cc
  deliver-read raw (some job) w d e h = ground (arith, e)

  receive-read :
      (o : Option Raw) (w : World) (d : QueueDelivery)
      → (receive decode o w).0 ≡ ok (some d)
      → from_json decode d.raw ≡ some d.job
  unfolding receive
  receive-read none w d h = cc
  receive-read (some raw) w d h = elim (Bool-cases (size_valid raw)) [
    | inl fits ↦ deliver-read raw (from_json decode raw) w d refl (rw fits at h)
    | inr misfit ↦ absurd (ground (arith, misfit, h))
  ]

  -- A delivery's job is the one that its entry holds.
  pop-read :
      (w : World) (d : QueueDelivery)
      → (pop decode w).0 ≡ ok (some d)
      → from_json decode d.raw ≡ some d.job
  unfolding pop
  pop-read w d h =
      let (_, v) = require_client w in
      let (_, served) =
        continue-eq-ok (require_client w).0
          (λ _. λ v.
            continue (call blmove read_failed v).0 (receive decode) (call blmove read_failed v).1)
          v h in
      let (o, k) =
        continue-eq-ok (call blmove read_failed v).0 (receive decode) (call blmove read_failed v).1
          served in
      receive-read o (call blmove read_failed v).1 d k

module _ {W : Type 0} (decode : Raw → Option Value)
    (process : QueuedJobReference → State W → Result Failure Bool × State W) where
  module _ (r : Raw) (good : IsReadable r decode)
      (never : (job : QueuedJobReference) (s : State W)
        → from_json decode r ≡ some job
        → (process job s).0 ≢ ok true) where
    kept_recovering :
        (q : World) (s : State W)
        → total r (queue_failed decode process q s).queue.store ≡ total r q.store
    unfolding queue_failed
    kept_recovering q s =
        at (recover_stale decode q).0 (recover_stale decode q).1 s
        ∙ copies_kept decode r (recovering ∷ []) q good tt
      where
        at :
            (x : Result QueueError ℕ) (v : World) (s : State W)
            → total r
                (recovered decode process
                  (x, v)
                  (record s { last_error_code = some queue_unavailable })).queue.store
              ≡ total r v.store
        at (ok n) v s = refl
        at (err e) v s = refl

    kept_finished :
        (x : Result QueueError (Unit {0})) (v : World) (s : State W)
        → total r (finished decode process (x, v) s).queue.store ≡ total r v.store
    kept_finished (ok _) v s = refl
    kept_finished (err e) v s = kept_recovering v s

    kept_settled :
        (d : QueueDelivery) (q : World) (x : Result Failure Bool) (s : State W)
        → (x ≡ ok true → eq d.raw r ≡ false)
        → total r (settled decode process d q (x, s)).1.queue.store ≡ total r q.store
    kept_settled d q (ok true) s away =
        kept_finished (ack d q).0 (ack d q).1 s
        ∙ copies_kept decode r (acking d ∷ []) q good (away refl, tt)
    kept_settled d q (ok false) s away =
        kept_finished (requeue d q).0 (requeue d q).1 s
        ∙ copies_kept decode r (requeueing d ∷ []) q good tt
    kept_settled d q (err f) s away = refl

    other_entry :
        (d : QueueDelivery) (s : State W)
        → from_json decode d.raw ≡ some d.job
        → (process d.job s).0 ≡ ok true
        → eq d.raw r ≡ false
    other_entry d s read h = elim (Bool-cases (eq d.raw r)) [
      | inr other ↦ other
      | inl same ↦ absurd (never d.job s (rw ((eq_iff d.raw r).0 same) at read) h)
    ]

    kept_popped :
        (x : Result QueueError (Option QueueDelivery)) (v : World) (s : State W)
        → ((d : QueueDelivery) → x ≡ ok (some d) → from_json decode d.raw ≡ some d.job)
        → total r (popped decode process (x, v) s).1.queue.store ≡ total r v.store
    kept_popped (err e) v s read = kept_recovering v s
    kept_popped (ok none) v s read = refl
    kept_popped (ok (some d)) v s read =
        kept_settled d v (process d.job s).0 (process d.job s).1 (other_entry d s (read d refl))

    kept_once :
        (l : LoopState W)
        → total r (run_once decode process l).1.queue.store ≡ total r l.queue.store
    unfolding run_once
    kept_once l =
        kept_popped (pop decode l.queue).0 (pop decode l.queue).1 l.worker
          (λ d h. pop-read decode l.queue d h)
        ∙ copies_kept decode r (popping ∷ []) l.queue good tt

    kept_next :
        (n : ℕ)
        → ((k : LoopState W)
            → total r (run decode process n k).1.queue.store ≡ total r k.queue.store)
        → (x : Result Failure (Unit {0})) (k : LoopState W)
        → total r (go_on decode process (run decode process n) (x, k)).1.queue.store
          ≡ total r k.queue.store
    kept_next n rest (ok _) k = rest k
    kept_next n rest (err f) k = refl

    -- Whatever calls of the queue fail, with or without effect on the server, no number of iterations of a
    -- worker's loop loses or multiplies an entry that `pop` can read and whose job `process` never lets be
    -- acknowledged: its copies in the queue, in processing and among the dead letters stay as many.
    pub run-keeps :
        (n : ℕ) (l : LoopState W)
        → total r (run decode process n l).1.queue.store ≡ total r l.queue.store
    unfolding run
    run-keeps zero l = refl
    run-keeps (suc n) l =
        kept_next n (run-keeps n) (run_once decode process l).0 (run_once decode process l).1
        ∙ kept_once l

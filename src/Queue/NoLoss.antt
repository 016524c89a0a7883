-- ===== src/Queue/NoLoss.antt =====
-- No operation of the queue loses an entry that it can read, whatever calls fail, except `ack`.
use urizo_final_orchestrator.Base.{
  ℕ, zero, suc, ◌+◌, true, false, ◌==◌, leb, ◌≡◌, refl, ap, ◌∙◌, Option, none, some, List, [], ◌∷◌,
  eq, eq_iff, Result, ok, err, arith, length, Bool-cases, inl, inr,
}
use urizo_final_orchestrator.Json.{Value}
use urizo_final_orchestrator.Contracts.{QueuedJobReference}
use urizo_final_orchestrator.Queue.Store.{
  Raw, World, QueueError, Exec, ensure, call, raise, blmove, lrem_processing, lindex, lmove_left,
  lmove_right, hincrby, hget, ack_script, quarantine_script, FailureRecord, not_open, read_failed,
  size_invalid, reference_invalid, tracking_failed, tracking_invalid, acknowledgement_failed,
  no_longer_pending, requeue_failed, order_changed, quarantine_failed, recovery_failed, out_of_fuel,
}
use urizo_final_orchestrator.Queue.Delivery.{
  QueueDelivery, require_client, size_valid, discard_poison, ack, failure, quarantine_as,
  quarantine, requeue, is_raw, from_json, deliver, receive, pop, tracked_of, tracked_delivery,
  exhausted, recovery_error, settle, settle_head, resume, round, recover_loop, recover_stale,
  max_delivery_attempts,
}
use urizo_final_orchestrator.Queue.Conserve.{
  total, total-blmove, total-lmove_left, total-lmove_right, total-quarantine_script,
  total-ack_script_other, total-lrem_processing, total-hincrby, total-hget, total-lindex, Keeps,
  Keeps-bind, Keeps-call, Keeps-ensure,
}

module _ (r : Raw) where
  Keeps-require_client : Keeps r require_client
  unfolding require_client
  Keeps-require_client w = Keeps-ensure r w.is_open not_open w

  Keeps-quarantine_as : (d : QueueDelivery) (f : FailureRecord) → Keeps r (quarantine_as d f)
  unfolding quarantine_as
  Keeps-quarantine_as d f = Keeps-bind r require_client _ Keeps-require_client (λ _.
      Keeps-bind r (call (quarantine_script d.raw f d.job.job_id) quarantine_failed) _
        (Keeps-call r _ quarantine_failed (total-quarantine_script r d.raw f d.job.job_id))
        (λ n. Keeps-ensure r (n == 1) no_longer_pending))

  Keeps-quarantine : (d : QueueDelivery) → Keeps r (quarantine d)
  unfolding quarantine
  Keeps-quarantine d w = Keeps-quarantine_as d (failure d w.now) w

  Keeps-requeue : (d : QueueDelivery) → Keeps r (requeue d)
  unfolding requeue
  Keeps-requeue d = elim (Bool-cases (leb max_delivery_attempts d.attempt)) [
    | inl full ↦ rw full (Keeps-quarantine d)
    | inr more ↦ rw more (
        Keeps-bind r require_client _ Keeps-require_client (λ _.
          Keeps-bind r (call lmove_left requeue_failed) _
            (Keeps-call r lmove_left requeue_failed (total-lmove_left r))
            (λ m. Keeps-ensure r (is_raw d.raw m) order_changed)))
  ]

  Keeps-ack : (d : QueueDelivery) → eq d.raw r ≡ false → Keeps r (ack d)
  unfolding ack
  Keeps-ack d other = Keeps-bind r require_client _ Keeps-require_client (λ _.
      Keeps-bind r (call (ack_script d.raw d.job.job_id) acknowledgement_failed) _
        (Keeps-call r _ acknowledgement_failed
          (λ s. total-ack_script_other r d.raw d.job.job_id s other))
        (λ n. Keeps-ensure r (n == 1) no_longer_pending))

  Keeps-discard_poison : (x : Raw) → eq x r ≡ false → Keeps r (discard_poison x)
  unfolding discard_poison
  Keeps-discard_poison x other =
      Keeps-bind r require_client (λ _. call (lrem_processing x) read_failed) Keeps-require_client
        (λ _. Keeps-call r (lrem_processing x) read_failed (λ s. total-lrem_processing r x s other))

  module _ (decode : Raw → Option Value) where
    -- `pop` can read this entry.
    pub record IsReadable : Type 0 where
      pub sized : size_valid r ≡ true
      pub job : QueuedJobReference
      pub read : from_json decode r ≡ some job

    Keeps-deliver :
        (x : Raw) (o : Option QueuedJobReference)
        → (o ≡ none → eq x r ≡ false)
        → Keeps r (deliver decode x o)
    unfolding deliver
    Keeps-deliver x none poison =
        Keeps-bind r (discard_poison x) (λ _. raise reference_invalid)
          (Keeps-discard_poison x (poison refl)) (λ _ w. refl)
    Keeps-deliver x (some job) poison =
        Keeps-bind r (call (hincrby job.job_id) tracking_failed) _
          (Keeps-call r (hincrby job.job_id) tracking_failed (total-hincrby r job.job_id))
          (λ n.
            Keeps-bind r (ensure (leb 1 n) tracking_invalid) _
              (Keeps-ensure r (leb 1 n) tracking_invalid) (λ _ w. refl))

    Keeps-receive : IsReadable → (o : Option Raw) → Keeps r (receive decode o)
    unfolding receive
    Keeps-receive good none = λ w. refl
    Keeps-receive good (some x) = elim (Bool-cases (size_valid x)) [
      | inl fits ↦
          rw fits
            (Keeps-deliver x (from_json decode x) (λ poison. unread (eq_iff x r) good.read poison))
      | inr misfit ↦ rw misfit (
          Keeps-bind r (discard_poison x) (λ _. raise size_invalid)
            (Keeps-discard_poison x (ground (arith, eq_iff x r, good.sized))) (λ _ w. refl))
    ]
      where
        unread :
            {x : Raw} {job : QueuedJobReference}
            → (eq x r ≡ true → x ≡ r) × (x ≡ r → eq x r ≡ true)
            → from_json decode r ≡ some job
            → from_json decode x ≡ none
            → eq x r ≡ false
        unread same read poison = ground (arith, same, read, poison)

    Keeps-pop : IsReadable → Keeps r (pop decode)
    unfolding pop
    Keeps-pop good = Keeps-bind r require_client _ Keeps-require_client (λ _.
        Keeps-bind r (call blmove read_failed) (receive decode)
          (Keeps-call r blmove read_failed (total-blmove r)) (Keeps-receive good))

    Keeps-tracked_of : (x : Raw) (o : Option QueuedJobReference) → Keeps r (tracked_of decode x o)
    unfolding tracked_of
    Keeps-tracked_of x none = λ w. refl
    Keeps-tracked_of x (some job) =
        Keeps-bind r (call (hget job.job_id) recovery_failed) _
          (Keeps-call r (hget job.job_id) recovery_failed (total-hget r job.job_id)) (λ _ w. refl)

    Keeps-settle : (o : Option QueueDelivery) → Keeps r (settle decode o)
    unfolding settle
    Keeps-settle (some d) = Keeps-bind r (quarantine d) _ (Keeps-quarantine d) (λ _ w. refl)
    Keeps-settle none =
        Keeps-bind r (call lmove_right recovery_failed) _
          (Keeps-call r lmove_right recovery_failed (total-lmove_right r)) (λ _ w. refl)

    Keeps-settle_head : (x : Raw) → Keeps r (settle_head decode x)
    unfolding settle_head tracked_delivery
    Keeps-settle_head x =
        Keeps-bind r (tracked_of decode x (from_json decode x)) _
          (Keeps-tracked_of x (from_json decode x)) (λ o. Keeps-settle (exhausted decode o))

    Keeps-resume :
        (loop : ℕ → Exec ℕ)
        → ((n : ℕ) → Keeps r (loop n))
        → (n : ℕ) (o : Option ℕ) → Keeps r (resume decode loop n o)
    Keeps-resume loop h n none = λ w. refl
    Keeps-resume loop h n (some k) = h (n + k)

    Keeps-round :
        (loop : ℕ → Exec ℕ)
        → ((n : ℕ) → Keeps r (loop n))
        → (n : ℕ) (o : Option Raw) → Keeps r (round decode loop n o)
    Keeps-round loop h n none = λ w. refl
    Keeps-round loop h n (some x) =
        Keeps-bind r (settle_head decode x) (resume decode loop n) (Keeps-settle_head x)
          (Keeps-resume loop h n)

    Keeps-recover_loop : (fuel n : ℕ) → Keeps r (recover_loop decode fuel n)
    unfolding recover_loop
    Keeps-recover_loop zero n = λ w. refl
    Keeps-recover_loop (suc fuel) n =
        Keeps-bind r (call lindex recovery_failed) (round decode (recover_loop decode fuel) n)
          (Keeps-call r lindex recovery_failed (total-lindex r))
          (Keeps-round (recover_loop decode fuel) (Keeps-recover_loop fuel) n)

    store-recovery_error :
        (x : Result QueueError ℕ) (w : World) → (recovery_error decode (x, w)).1 ≡ w
    store-recovery_error (ok n) w = refl
    store-recovery_error (err out_of_fuel) w = refl
    store-recovery_error (err _) w = refl

    Keeps-recover_stale : Keeps r (recover_stale decode)
    unfolding recover_stale
    Keeps-recover_stale = Keeps-bind r require_client _ Keeps-require_client (λ _ w.
        let fuel = suc (length w.store.processing) in
        let (x, w') = recover_loop decode fuel 0 w in
        ap (λ (v : World). total r v.store) (store-recovery_error x w')
        ∙ Keeps-recover_loop fuel 0 w)

-- The methods of `ValkeyJobQueue` that reach the server.
pub data Operation : Type 0 where
  popping recovering : Operation
  acking requeueing : QueueDelivery → Operation

abbrev pub run : (Raw → Option Value) → Operation → World → World
run decode popping w = (pop decode w).1
run decode recovering w = (recover_stale decode w).1
run decode (acking d) w = (ack d w).1
run decode (requeueing d) w = (requeue d w).1

abbrev pub run_all : (Raw → Option Value) → List Operation → World → World
run_all decode [] w = w
run_all decode (o ∷ os) w = run_all decode os (run decode o w)

-- No acknowledgement among the operations is of this entry.
abbrev pub NeverAcked : Raw → List Operation → Type 0
NeverAcked r [] = Unit
NeverAcked r (acking d ∷ os) = (eq d.raw r ≡ false) × NeverAcked r os
NeverAcked r (o ∷ os) = NeverAcked r os

-- Whatever calls fail, with or without effect on the server, no sequence of operations loses or
-- multiplies an entry that `pop` can read and that none of them acknowledges: its copies in the
-- queue, in processing and among the dead letters stay as many.
pub copies_kept :
    (decode : Raw → Option Value) (r : Raw) (os : List Operation) (w : World)
    → IsReadable r decode
    → NeverAcked r os
    → total r (run_all decode os w).store ≡ total r w.store
copies_kept decode r [] w good h = refl
copies_kept decode r (popping ∷ os) w good h =
    copies_kept decode r os (pop decode w).1 good h ∙ Keeps-pop r decode good w
copies_kept decode r (recovering ∷ os) w good h =
    copies_kept decode r os (recover_stale decode w).1 good h ∙ Keeps-recover_stale r decode w
copies_kept decode r (acking d ∷ os) w good h =
    copies_kept decode r os (ack d w).1 good h.1 ∙ Keeps-ack r d h.0 w
copies_kept decode r (requeueing d ∷ os) w good h =
    copies_kept decode r os (requeue d w).1 good h ∙ Keeps-requeue r d w

-- ===== src/Queue/Attempts.antt =====
-- The delivery counters, between two deliveries and while one is held.
use urizo_final_orchestrator.Base.{
  ℕ, ◌+◌, ◌≤◌, ◌<◌, false, ◌≡◌, refl, Str, Option, none, some, List, [], ◌∷◌, ◌++◌, leb, eq, eq_iff,
  eq_refl, Dict, get, put, remove, get-put, get-remove, Result, ok, err, arith, Bool-cases,
  Option-cases, ◌⊎◌, inl, inr,
}
use urizo_final_orchestrator.Json.{Value}
use urizo_final_orchestrator.Queue.Store.{
  Raw, Store, FailureRecord, QueueError, call, split_last, blmove, lrem, holds, lrem_processing,
  lmove_left, hincrby, or_zero, ack_script, quarantine_script, size_invalid, reference_invalid,
}
use urizo_final_orchestrator.Queue.Delivery.{
  QueueDelivery, require_client, size_valid, discard_poison, ack, failure, quarantine_as,
  quarantine, requeue, from_json, deliver, receive, pop, max_delivery_attempts,
}
use urizo_final_orchestrator.Queue.Order.{calm, lists}

-- Between two deliveries: nothing is held, and every counter is below the limit.
pub record IsSettled (s : Store) : Type 0 where
  pub none_held : s.processing ≡ []
  pub below : (j : Str) → or_zero (get j s.delivery_attempts) < max_delivery_attempts

-- While a delivery is held.
pub record IsHeld (d : QueueDelivery) (s : Store) : Type 0 where
  pub held : s.processing ≡ d.raw ∷ []
  pub numbered : get d.job.job_id s.delivery_attempts ≡ some d.attempt
  pub at_most : d.attempt ≤ max_delivery_attempts
  pub others :
      (j : Str)
      → eq d.job.job_id j ≡ false
      → or_zero (get j s.delivery_attempts) < max_delivery_attempts

-- What `pop` may answer from a settled store.
abbrev pub PopAnswer : Result QueueError (Option QueueDelivery) → Store → Type 0
PopAnswer (ok (some d)) s = IsHeld d s
PopAnswer (ok none) s = IsSettled s
PopAnswer (err e) s = IsSettled s

module _ (decode : Raw → Option Value) (now : ℕ) where
  receive_at :
      (q dead : List Raw) (fs : List FailureRecord) (d : Dict ℕ) (x : Raw)
      → ((j : Str) → or_zero (get j d) < max_delivery_attempts)
      → (r : Result QueueError (Option QueueDelivery)) × (s' : Store) × (receive decode
            (some x)
            (calm (lists q (x ∷ []) dead fs d) now)
          ≡ (r, calm s' now))
        × PopAnswer r s'
  unfolding receive deliver discard_poison require_client call lrem_processing lrem hincrby
  receive_at q dead fs d x h = elim (Bool-cases (size_valid x)) [
    | inr misfit ↦ (
      err size_invalid,
      lists q [] dead fs d,
      ground (arith, misfit, eq_refl x),
      record { none_held = refl; below = h },
    )
    | inl fits ↦ elim (Option-cases (from_json decode x)) [
      | inl unread ↦ (
        err reference_invalid,
        lists q [] dead fs d,
        ground (arith, fits, unread, eq_refl x),
        record { none_held = refl; below = h },
      )
      | inr (job, read) ↦
          let n = or_zero (get job.job_id d) + 1 in
          (
            ok (some (record { job = job; raw = x; attempt = n })),
            lists q (x ∷ []) dead fs (put job.job_id n d),
            ground (arith, fits, read),
            record {
              held = refl;
              numbered = ground (arith, get-put job.job_id job.job_id n d, eq_refl job.job_id);
              at_most = omega (arith, h job.job_id);
              others = λ j other. ground (arith, get-put job.job_id j n d, h j);
            },
          )
    ]
  ]

  pop_from :
      (q dead : List Raw) (fs : List FailureRecord) (d : Dict ℕ)
      → ((j : Str) → or_zero (get j d) < max_delivery_attempts)
      → (r : Result QueueError (Option QueueDelivery)) × (s' : Store) × (pop decode
            (calm (lists q [] dead fs d) now)
          ≡ (r, calm s' now))
        × PopAnswer r s'
  unfolding pop require_client call blmove
  pop_from [] dead fs d h = (
    ok none,
    lists [] [] dead fs d,
    unfold receive in refl,
    record { none_held = refl; below = h },
  )
  pop_from (x ∷ xs) dead fs d h =
      let (rest, last) = split_last x xs in receive_at rest dead fs d last h

  -- From a settled store whose calls are served, `pop` answers nothing or raises and leaves the
  -- store settled, or it hands out an entry for at most the third time and holds it alone.
  pub pop_settled :
      (s : Store)
      → IsSettled s
      → (r : Result QueueError (Option QueueDelivery)) × (s' : Store) × (pop decode (calm s now)
          ≡ (r, calm s' now))
        × PopAnswer r s'
  pop_settled s h =
      let e : s ≡ lists s.queue [] s.dead_letter s.failure_history s.delivery_attempts =
        ground (arith, h.none_held) in
      rw e (pop_from s.queue s.dead_letter s.failure_history s.delivery_attempts h.below)

module _ (now : ℕ) (d : QueueDelivery) (s : Store) (h : IsHeld d s) where
  cleared-IsSettled :
      (j : Str) → or_zero (get j (remove d.job.job_id s.delivery_attempts)) < max_delivery_attempts
  cleared-IsSettled j = ground (arith, get-remove d.job.job_id j s.delivery_attempts, h.others j)

  -- Acknowledging the entry that is held settles the store.
  pub ack_settles :
      (s' : Store) × (ack d (calm s now) ≡ (ok tt, calm s' now))
      × IsSettled s'
      × (s'.queue ≡ s.queue)
      × (s'.dead_letter ≡ s.dead_letter)
  unfolding ack require_client call ack_script holds lrem
  ack_settles = (
    record s { processing = []; delivery_attempts = remove d.job.job_id s.delivery_attempts },
    ground (arith, h.held, eq_refl d.raw),
    record { none_held = refl; below = cleared-IsSettled },
    refl,
    refl,
  )

  below_limit :
      leb max_delivery_attempts d.attempt ≡ false
      → (j : Str) → or_zero (get j s.delivery_attempts) < max_delivery_attempts
  below_limit more j = elim (Bool-cases (eq d.job.job_id j)) [
    | inl this ↦ ground (arith, h.numbered, eq_iff d.job.job_id j, this)
    | inr other ↦ h.others j other
  ]

  -- Requeueing it settles the store too: before the third delivery the entry goes to the left end of
  -- the queue, and at the third to the dead letters.
  pub requeue_settles :
      (s' : Store) × (requeue d (calm s now) ≡ (ok tt, calm s' now))
      × IsSettled s'
      × ((d.attempt < max_delivery_attempts)
            × (s'.queue ≡ d.raw ∷ s.queue)
            × (s'.dead_letter ≡ s.dead_letter)
          ⊎ (d.attempt ≡ max_delivery_attempts)
            × (s'.queue ≡ s.queue)
            × (s'.dead_letter ≡ s.dead_letter ++ d.raw ∷ []))
  unfolding requeue require_client call lmove_left quarantine quarantine_as quarantine_script holds
      lrem
  requeue_settles = elim (Bool-cases (leb max_delivery_attempts d.attempt)) [
    | inl full ↦ (
      record {
        queue = s.queue;
        processing = [];
        dead_letter = s.dead_letter ++ d.raw ∷ [];
        failure_history = s.failure_history ++ failure d now ∷ [];
        delivery_attempts = remove d.job.job_id s.delivery_attempts;
      },
      ground (arith, full, h.held, eq_refl d.raw),
      record { none_held = refl; below = cleared-IsSettled },
      inr (ground (arith, full, h.at_most), refl, refl),
    )
    | inr more ↦ (
      record s { queue = d.raw ∷ s.queue; processing = [] },
      ground (arith, more, h.held, eq_refl d.raw),
      record { none_held = refl; below = below_limit more },
      inl (ground (arith, more), refl, refl),
    )
  ]

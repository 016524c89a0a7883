-- ===== src/Queue/Order.antt =====
-- What `recover_stale` does when its calls are served.
use urizo_final_orchestrator.Base.{
  ℕ, zero, suc, ◌+◌, Bool, true, false, ◌≡◌, refl, sym, ◌∙◌, ◌<◌, ◌≤◌, Option, none, some, List, [],
  ◌∷◌, ◌++◌, leb, eq_refl, Dict, get, remove, Result, ok, arith, length, Bool-cases, Option-cases,
  inl, inr,
}
use mathlib.Core.List.{append-nil, append_assoc}
use urizo_final_orchestrator.Json.{Value}
use urizo_final_orchestrator.Contracts.{QueuedJobReference}
use urizo_final_orchestrator.Queue.Store.{
  Raw, Store, World, FailureRecord, QueueError, call, lindex, lrem, holds, lmove_right, hget,
  quarantine_script,
}
use urizo_final_orchestrator.Queue.Delivery.{
  require_client, quarantine_as, quarantine, from_json, tracked_of, tracked_delivery, settle,
  settle_head, recover_loop, recover_stale, max_delivery_attempts,
}

-- An open queue whose calls are all served.
abbrev pub calm : Store → ℕ → World
calm s now = record { store = s; is_open = true; now = now; faults = [] }

-- The entry has been delivered as often as is allowed.
abbrev worn_attempts : Option ℕ → Bool
worn_attempts none = false
worn_attempts (some n) = leb max_delivery_attempts n

abbrev worn_job : Option QueuedJobReference → Dict ℕ → Bool
worn_job none d = false
worn_job (some job) d = worn_attempts (get job.job_id d)

abbrev pub NoneWorn : (Raw → Option Value) → Dict ℕ → List Raw → Type 0
NoneWorn decode d [] = Unit
NoneWorn decode d (x ∷ xs) = (worn_job (from_json decode x) d ≡ false) × NoneWorn decode d xs

abbrev pub lists : List Raw → List Raw → List Raw → List FailureRecord → Dict ℕ → Store
lists q p dead failures d = record {
  queue = q;
  processing = p;
  dead_letter = dead;
  failure_history = failures;
  delivery_attempts = d;
}

module _ (decode : Raw → Option Value) (now : ℕ) where
  settle_head_fresh :
      (q p dead : List Raw) (fs : List FailureRecord) (d : Dict ℕ) (x : Raw)
      → worn_job (from_json decode x) d ≡ false
      → settle_head decode x (calm (lists q (x ∷ p) dead fs d) now)
        ≡ (ok (some 1), calm (lists (q ++ x ∷ []) p dead fs d) now)
  unfolding settle_head tracked_delivery tracked_of settle call lmove_right hget
  settle_head_fresh q p dead fs d x fresh = ground arith

  -- A worn entry goes to the dead letters, and its counter is removed.
  settle_head_worn :
      (q p dead : List Raw) (fs : List FailureRecord) (d : Dict ℕ) (x : Raw)
      (job : QueuedJobReference) (k : ℕ)
      → from_json decode x ≡ some job
      → get job.job_id d ≡ some k
      → leb max_delivery_attempts k ≡ true
      → settle_head decode x (calm (lists q (x ∷ p) dead fs d) now) ≡ (
        ok (some 0),
        calm
            (lists q p
              (dead ++ x ∷ [])
              (fs ++ record { job_id = job.job_id; delivery_attempts = k; failed_at = now } ∷ [])
              (remove job.job_id d))
            now,
      )
  unfolding settle_head tracked_delivery tracked_of settle call hget quarantine quarantine_as
      require_client quarantine_script holds lrem
  settle_head_worn q p dead fs d x job k read tracked worn =
      ground (arith, read, tracked, eq_refl x)

  moved :
      (n : ℕ) (q p dead : List Raw) (fs : List FailureRecord) (d : Dict ℕ) (x : Raw)
      → ◌≡◌ {A = Result QueueError ℕ × World}
          (ok (n + 1 + length p), calm (lists ((q ++ x ∷ []) ++ p) [] dead fs d) now)
          (ok (n + suc (length p)), calm (lists (q ++ x ∷ p) [] dead fs d) now)
  moved n q p dead fs d x = ground (arith, append_assoc q (x ∷ []) p)

  recover_loop_fresh :
      (p q dead : List Raw) (fs : List FailureRecord) (d : Dict ℕ) (fuel n : ℕ)
      → NoneWorn decode d p
      → length p ≡ fuel
      → recover_loop decode (suc fuel) n (calm (lists q p dead fs d) now)
        ≡ (ok (n + length p), calm (lists (q ++ p) [] dead fs d) now)
  unfolding recover_loop call lindex
  recover_loop_fresh [] q dead fs d fuel n h e = simp append-nil (ground arith)
  recover_loop_fresh (x ∷ p) q dead fs d zero n h e = absurd (omega arith)
  recover_loop_fresh (x ∷ p) q dead fs d (suc fuel) n h e =
      rw (settle_head_fresh q p dead fs d x h.0) (
        recover_loop_fresh p (q ++ x ∷ []) dead fs d fuel (n + 1) h.1 (omega arith)
        ∙ moved n q p dead fs d x)

  -- When its calls are served and no entry was delivered three times, `recover_stale` appends the
  -- processing list to the right end of the queue in its order, so that the next `pop` takes the entry
  -- that was taken first, writes nothing else, and returns how many entries it moved.
  pub recover_stale_order :
      (p q dead : List Raw) (fs : List FailureRecord) (d : Dict ℕ)
      → NoneWorn decode d p
      → recover_stale decode (calm (lists q p dead fs d) now)
        ≡ (ok (length p), calm (lists (q ++ p) [] dead fs d) now)
  unfolding recover_stale require_client
  recover_stale_order p q dead fs d h =
      rw (recover_loop_fresh p q dead fs d (length p) 0 h refl) (ground arith)

  -- The entries of the processing list, from its left end on, split into those that go back to the queue
  -- and those that were delivered three times, which reset their job's counter.
  pub data IsSorted : Dict ℕ → (p moved dropped : List Raw) → Type 0 where
    all_sorted : (d : Dict ℕ) → IsSorted d [] [] []
    goes_back :
        (d : Dict ℕ) (x : Raw) (p moved dropped : List Raw)
        → ((job : QueuedJobReference) (n : ℕ)
            → from_json decode x ≡ some job
            → get job.job_id d ≡ some n
            → n < 3)
        → IsSorted d p moved dropped
        → IsSorted d (x ∷ p) (x ∷ moved) dropped
    goes_out :
        (d : Dict ℕ) (x : Raw) (p moved dropped : List Raw) (job : QueuedJobReference) (n : ℕ)
        → from_json decode x ≡ some job
        → get job.job_id d ≡ some n
        → 3 ≤ n
        → IsSorted (remove job.job_id d) p moved dropped
        → IsSorted d (x ∷ p) moved (x ∷ dropped)

  -- How the loop leaves the lists, entries to be quarantined among them.
  pub record Emptied (d : Dict ℕ) (q p dead moved dropped : List Raw) (s : Store) : Type 0 where
    pub split : IsSorted d p moved dropped
    pub queued : s.queue ≡ q ++ moved
    pub none_left : s.processing ≡ []
    pub buried : s.dead_letter ≡ dead ++ dropped

  Emptied-back :
      (q p dead moved dropped : List Raw) (d : Dict ℕ) (x : Raw) (s : Store)
      → worn_job (from_json decode x) d ≡ false
      → Emptied d (q ++ x ∷ []) p dead moved dropped s
      → Emptied d q (x ∷ p) dead (x ∷ moved) dropped s
  Emptied-back q p dead moved dropped d x s fresh h = record {
    split =
        IsSorted.goes_back d x p moved dropped
          (λ job n read tracked. ground (arith, fresh, read, tracked)) h.split;
    queued = h.queued ∙ append_assoc q (x ∷ []) moved;
    none_left = h.none_left;
    buried = h.buried;
  }

  -- A worn entry has a job, with a counter of three at least.
  worn_parts :
      (x : Raw) (d : Dict ℕ)
      → worn_job (from_json decode x) d ≡ true
      → (job : QueuedJobReference) × (k : ℕ) × (from_json decode x ≡ some job)
        × (get job.job_id d ≡ some k)
        × (leb max_delivery_attempts k ≡ true)
  worn_parts x d worn = elim (Option-cases (from_json decode x)) [
    | inl unread ↦ absurd (ground (arith, unread))
    | inr (job, read) ↦ elim (Option-cases (get job.job_id d)) [
      | inl untracked ↦ absurd (ground (arith, read, untracked))
      | inr (k, tracked) ↦ (job, k, read, tracked, ground (arith, read, tracked))
    ]
  ]

  recover_loop_empties :
      (p q dead : List Raw) (fs : List FailureRecord) (d : Dict ℕ) (n : ℕ)
      → (moved dropped : List Raw) × (s : Store) × (recover_loop decode
            (suc (length p))
            n
            (calm (lists q p dead fs d) now)
          ≡ (ok (n + length moved), calm s now))
        × Emptied d q p dead moved dropped s
  unfolding recover_loop call lindex
  recover_loop_empties [] q dead fs d n = (
    [],
    [],
    lists q [] dead fs d,
    ground arith,
    record {
      split = IsSorted.all_sorted d;
      queued = sym (append-nil q);
      none_left = refl;
      buried = sym (append-nil dead);
    },
  )
  recover_loop_empties (x ∷ p) q dead fs d n = elim (Bool-cases (worn_job (from_json decode x) d)) [
    | inl worn ↦
        let (job, k, read, tracked, three) = worn_parts x d worn in
        let (moved, dropped, s, r, h) =
          recover_loop_empties p q (dead ++ x ∷ [])
            (fs ++ record { job_id = job.job_id; delivery_attempts = k; failed_at = now } ∷ [])
            (remove job.job_id d) (n + 0) in
        (
          moved,
          x ∷ dropped,
          s,
          rw (settle_head_worn q p dead fs d x job k read tracked three) (r ∙ ground arith),
          record {
            split =
                IsSorted.goes_out d x p moved dropped job k read tracked (ground (arith, three))
                  h.split;
            queued = h.queued;
            none_left = h.none_left;
            buried = h.buried ∙ append_assoc dead (x ∷ []) dropped;
          },
        )
    | inr fresh ↦
        let (moved, dropped, s, r, h) = recover_loop_empties p (q ++ x ∷ []) dead fs d (n + 1) in
        (
          x ∷ moved,
          dropped,
          s,
          rw (settle_head_fresh q p dead fs d x fresh) (r ∙ ground arith),
          Emptied-back q p dead moved dropped d x s fresh h,
        )
  ]

  -- When its calls are served, `recover_stale` returns and leaves the processing list empty. It goes
  -- through that list in its order: an entry whose job's counter is three or more goes to the right
  -- end of the dead letters and resets the counter, any other goes to the right end of the queue; the
  -- result is the number of those.
  pub recover_stale_empties :
      (s : Store)
      → (moved dropped : List Raw) × (s' : Store) × (recover_stale decode (calm s now)
          ≡ (ok (length moved), calm s' now))
        × Emptied s.delivery_attempts s.queue s.processing s.dead_letter moved dropped s'
  unfolding recover_stale require_client
  recover_stale_empties s =
      let (moved, dropped, s', e, h) =
        recover_loop_empties s.processing s.queue s.dead_letter s.failure_history
          s.delivery_attempts 0 in
      (moved, dropped, s', rw e (ground arith), h)

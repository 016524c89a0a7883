-- ===== src/Worker/Orderly.antt =====
-- In which order `process` calls its collaborators.
use urizo_final_orchestrator.Base.{
  ℕ, zero, suc, ◌+◌, ◌-◌, ◌^◌, Bool, true, false, ◌&&◌, leb, eq, eq_refl, ◌≡◌, refl, Str, Option,
  none, List, [], ◌∷◌, Result, ok, err, arith,
}
use urizo_final_orchestrator.Json.{Fields}
use urizo_final_orchestrator.Contracts.{QueuedJobReference, CodingJobRequested, WorkerClaim}
use urizo_final_orchestrator.Worker.Failure.{Failure}
use urizo_final_orchestrator.Worker.Process.{
  Outcome, GraphResult, Call, resolve, claim, sleep, start_heartbeat, lease_current, invoke,
  accepted, rejected, Collaborators, Settings, State, continue, set_error, note, with_backoff,
  resolve_with_backoff, claim_with_backoff, asked, outcome_of, reported, report_checked,
  report_outcome, report_success, report_failure, after_check, answered, with_success, work,
  handled, stopped, claimed, unclaimed, after_claim, after_duplicate, after_resolve, process,
  min_of, claim_and_run,
}

abbrev pub retried : List Call → Bool
retried (resolve ∷ cs) = true
retried (claim ∷ cs) = true
retried _ = false

abbrev pub is_same : WorkerClaim → WorkerClaim → Bool
is_same c d = eq c.job_id d.job_id && eq c.lease_id d.lease_id

abbrev pub just_checked : WorkerClaim → List Call → Bool
just_checked c (lease_current d ∷ cs) = is_same c d
just_checked c _ = false

-- Each pause is within the limit and directly behind a resolve or claim call, and each report directly
-- behind a check that found the same claim's lease current.
abbrev pub orderly : ℕ → List Call → Bool
orderly m [] = true
orderly m (sleep n ∷ cs) = leb n m && (retried cs && orderly m cs)
orderly m (accepted c o e ∷ cs) = just_checked c cs && orderly m cs
orderly m (rejected c o e ∷ cs) = just_checked c cs && orderly m cs
orderly m (_ ∷ cs) = orderly m cs

min_of-le : (a b : ℕ) → leb (min_of a b) b ≡ true
min_of-le a b = ground arith

pub is_same_refl : (c : WorkerClaim) → is_same c c ≡ true
is_same_refl c = ground (arith, eq_refl c.job_id, eq_refl c.lease_id)

module _ {W : Type 0} (api : Collaborators W) (settings : Settings) where
  with_backoff-orderly :
      {A : Type 0} (c : Call) (m : W → Result Failure A × W) (left attempt : ℕ) (s : State W)
      → retried (c ∷ []) ≡ true
      → orderly settings.max_backoff_seconds s.calls ≡ true
      → orderly settings.max_backoff_seconds (with_backoff api settings c m left attempt s).1.calls
        ≡ true
  unfolding with_backoff
  with_backoff-orderly c m zero attempt s k h = h
  with_backoff-orderly resolve m (suc left) attempt s k h = ground (
    arith,
    min_of-le (2 ^ (attempt - 1)) settings.max_backoff_seconds,
    with_backoff-orderly resolve m left (attempt + 1)
        (note (sleep (min_of (2 ^ (attempt - 1)) settings.max_backoff_seconds)) (record {
          world = (m s.world).1;
          last_error_code = s.last_error_code;
          calls = resolve ∷ s.calls;
        }))
        refl,
  )
  with_backoff-orderly claim m (suc left) attempt s k h = ground (
    arith,
    min_of-le (2 ^ (attempt - 1)) settings.max_backoff_seconds,
    with_backoff-orderly claim m left (attempt + 1)
        (note (sleep (min_of (2 ^ (attempt - 1)) settings.max_backoff_seconds)) (record {
          world = (m s.world).1;
          last_error_code = s.last_error_code;
          calls = claim ∷ s.calls;
        }))
        refl,
  )
  with_backoff-orderly c m (suc left) attempt s k h = cc

  report_checked-orderly :
      (c : WorkerClaim) (o : Outcome) (e : Option Str) (pending : Option Fields) (m : ℕ)
      (s : State W)
      → orderly m s.calls ≡ true
      → orderly m (report_checked api settings c o e pending s).1.calls ≡ true
  unfolding report_checked
  report_checked-orderly c o e pending m s h = ground (arith, is_same_refl c)

  report_success-orderly :
      (c : WorkerClaim) (r : GraphResult) (m : ℕ) (s : State W)
      → orderly m s.calls ≡ true
      → orderly m (report_success api settings c r s).1.calls ≡ true
  unfolding report_success report_outcome reported set_error
  report_success-orderly c r m s h =
      elim (outcome_of r)
        as (λ x. orderly m (continue x (report_outcome api settings c) s).1.calls ≡ true) [
          | err f ↦ h
          | ok (o, pending) ↦ ground (arith, report_checked-orderly c o none pending m s)
        ]

  handled-orderly :
      (c : WorkerClaim) (r : Result Failure Bool) (m : ℕ) (s : State W)
      → orderly m s.calls ≡ true
      → orderly m (handled api settings c r s).1.calls ≡ true
  unfolding handled report_failure after_check answered set_error
  handled-orderly c (ok b) m s h = h
  handled-orderly c (err f) m s h = ground (arith, is_same_refl c)

  with_success-orderly :
      (event : CodingJobRequested) (c : WorkerClaim) (r : Result Failure GraphResult) (m : ℕ)
      (s : State W)
      → orderly m s.calls ≡ true
      → orderly m (with_success api settings event c r s).1.calls ≡ true
  unfolding with_success set_error
  with_success-orderly event c (err f) m s h = h
  with_success-orderly event c (ok r) m s h = ground (arith, report_success-orderly c r m s)

  work-orderly :
      (event : CodingJobRequested) (c : WorkerClaim) (m : ℕ) (s : State W)
      → orderly m s.calls ≡ true
      → orderly m (work api settings event c s).1.calls ≡ true
  unfolding work
  work-orderly event c m s h =
      let (r0, w0) = api.start c s.world in
      let (r1, w1) = api.invoke_graph event c w0 in
      ground (
        arith,
        with_success-orderly event c r1 m (record {
          world = w1;
          last_error_code = s.last_error_code;
          calls = invoke ∷ start_heartbeat c ∷ s.calls;
        }),
      )

  after_claim-orderly :
      (event : CodingJobRequested) (r : Result Failure WorkerClaim) (m : ℕ) (s : State W)
      → orderly m s.calls ≡ true
      → orderly m (after_claim api settings event r s).1.calls ≡ true
  unfolding after_claim claimed stopped unclaimed set_error
  after_claim-orderly event (err f) m s h = h
  after_claim-orderly event (ok c) m s h =
      handled-orderly c (work api settings event c s).0 m (work api settings event c s).1
        (work-orderly event c m s h)

  claim_and_run-orderly :
      (event : CodingJobRequested) (s : State W)
      → orderly settings.max_backoff_seconds s.calls ≡ true
      → orderly settings.max_backoff_seconds (claim_and_run api settings event s).1.calls ≡ true
  unfolding claim_and_run claim_with_backoff
  claim_and_run-orderly event s h =
      let (r, t) =
        with_backoff api settings claim (api.claim_job event) settings.max_attempts 1 s in
      after_claim-orderly event r settings.max_backoff_seconds t
        (with_backoff-orderly claim (api.claim_job event) settings.max_attempts 1 s refl h)

  after_duplicate-orderly :
      (event : CodingJobRequested) (r : Result Failure Bool) (s : State W)
      → orderly settings.max_backoff_seconds s.calls ≡ true
      → orderly settings.max_backoff_seconds (after_duplicate api settings event r s).1.calls ≡ true
  unfolding after_duplicate unclaimed set_error
  after_duplicate-orderly event (err f) s h = h
  after_duplicate-orderly event (ok b) s h = ground (arith, claim_and_run-orderly event s)

  quiet :
      (r : Result Failure Bool) (t : State W)
      → orderly settings.max_backoff_seconds t.calls ≡ true
      → orderly settings.max_backoff_seconds (asked r ∷ t.calls) ≡ true
  quiet (ok b) t h = h
  quiet (err f) t h = h

  -- Every pause of a delivery keeps within `max_backoff_seconds` and directly follows a resolve or claim
  -- call, and every report directly follows a check that found the lease of the same claim current; this
  -- holds of the calls after a delivery if it holds of the calls before it.
  pub process-orderly :
      (job : QueuedJobReference) (s : State W)
      → orderly settings.max_backoff_seconds s.calls ≡ true
      → orderly settings.max_backoff_seconds (process api settings job s).1.calls ≡ true
  unfolding process resolve_with_backoff after_resolve unclaimed set_error
  process-orderly job s h =
      go (with_backoff api settings resolve (api.resolve_job job) settings.max_attempts 1 s).0
        (with_backoff api settings resolve (api.resolve_job job) settings.max_attempts 1 s).1
        (with_backoff-orderly resolve (api.resolve_job job) settings.max_attempts 1 s refl h)
    where
      go :
          (r : Result Failure CodingJobRequested) (t : State W)
          → orderly settings.max_backoff_seconds t.calls ≡ true
          → orderly settings.max_backoff_seconds (after_resolve api settings r t).1.calls ≡ true
      go (err f) t k = k
      go (ok event) t k =
          let (r, w) = api.is_duplicate event t.world in
          after_duplicate-orderly event r
            (record { world = w; last_error_code = t.last_error_code; calls = asked r ∷ t.calls })
            (quiet r t k)

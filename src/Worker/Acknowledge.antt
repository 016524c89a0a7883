-- ===== src/Worker/Acknowledge.antt =====
-- When `process` lets a delivery be acknowledged.
use urizo_final_orchestrator.Base.{
  Bool, true, false, ◌≡◌, refl, ◌⊎◌, Str, Option, none, List, ◌∷◌, Result, ok, err, arith, inl, inr,
}
use urizo_final_orchestrator.Json.{Fields}
use urizo_final_orchestrator.Contracts.{
  QueuedJobReference, CodingJobRequested, WorkerClaim, is_profile_bound,
}
use urizo_final_orchestrator.Worker.Failure.{Failure, is_terminal_resolve_rejection}
use urizo_final_orchestrator.Worker.Process.{
  Outcome, GraphResult, Call, asked_duplicate, start_heartbeat, stop_heartbeat, invoke, accepted,
  Collaborators, Settings, State, continue, set_error, note, resolve_with_backoff,
  claim_with_backoff, asked, outcome_of, reported, report_checked, report_outcome, report_success,
  report_failure, after_check, answered, with_success, work, handled, stopped, claimed, unclaimed,
  after_claim, after_duplicate, after_resolve, process, claim_and_run,
}
use urizo_final_orchestrator.Worker.Orderly.{is_same, is_same_refl}

-- The last call is a report of this claim that the API took.
abbrev pub just_accepted : WorkerClaim → List Call → Bool
just_accepted c (accepted d o e ∷ cs) = is_same c d
just_accepted c _ = false

-- The calls of a job that is done with: its report is accepted and its heartbeat stopped; a job without
-- a profile may also end with its run, or be known before.
abbrev pub settles : (bound : Bool) → List Call → Bool
settles bound (stop_heartbeat c ∷ accepted d o e ∷ cs) = is_same c d
settles false (stop_heartbeat c ∷ invoke ∷ cs) = true
settles false (asked_duplicate true ∷ cs) = true
settles _ _ = false

module _ {W : Type 0} (api : Collaborators W) (settings : Settings) where
  report_checked-accepted :
      (c : WorkerClaim) (o : Outcome) (e : Option Str) (pending : Option Fields) (u : Unit {0})
      (s : State W)
      → (report_checked api settings c o e pending s).0 ≡ ok u
      → just_accepted c (report_checked api settings c o e pending s).1.calls ≡ true
  unfolding report_checked
  report_checked-accepted c o e pending u s h = ground (arith, is_same_refl c)

  report_success-accepted :
      (c : WorkerClaim) (r : GraphResult) (s : State W)
      → (report_success api settings c r s).0 ≡ ok true
      → just_accepted c (report_success api settings c r s).1.calls ≡ true
  unfolding report_success report_outcome reported set_error
  report_success-accepted c r s =
      elim (outcome_of r)
        as (λ x.
          (continue x (report_outcome api settings c) s).0 ≡ ok true
          → just_accepted c (continue x (report_outcome api settings c) s).1.calls ≡ true) [
            | err f ↦ λ h. cc
            | ok (o, pending) ↦ λ h. ground (arith, report_checked-accepted c o none pending tt s)
          ]

  failed-accepted :
      (c : WorkerClaim) (f : Failure) (s : State W)
      → (handled api settings c (err f) s).0 ≡ ok true
      → just_accepted c (handled api settings c (err f) s).1.calls ≡ true
  unfolding handled report_failure after_check answered set_error
  failed-accepted c f s h = ground (arith, is_same_refl c)

  with_success-settles :
      (event : CodingJobRequested) (c : WorkerClaim) (r : Result Failure GraphResult) (s : State W)
      → (with_success api settings event c r (note invoke s)).0 ≡ ok true
      → settles
          (is_profile_bound event)
          (stop_heartbeat c ∷ (with_success api settings event c r (note invoke s)).1.calls)
        ≡ true
  unfolding with_success set_error
  with_success-settles event c (err f) s h = cc
  with_success-settles event c (ok r) s h =
      ground (arith, report_success-accepted c r (note invoke s))

  work-settles :
      (event : CodingJobRequested) (c : WorkerClaim) (s : State W)
      → (work api settings event c s).0 ≡ ok true
      → settles (is_profile_bound event) (stop_heartbeat c ∷ (work api settings event c s).1.calls)
        ≡ true
  unfolding work
  work-settles event c s h =
      let (r0, w0) = api.start c s.world in
      let (r1, w1) = api.invoke_graph event c w0 in
      ground (
        arith,
        with_success-settles event c r1 (record {
          world = w1;
          last_error_code = s.last_error_code;
          calls = start_heartbeat c ∷ s.calls;
        }),
      )

  accepted-settles :
      (bound : Bool) (c : WorkerClaim) (cs : List Call)
      → just_accepted c cs ≡ true
      → settles bound (stop_heartbeat c ∷ cs) ≡ true
  accepted-settles bound c cs h = ground (arith, h)

  handled-settles :
      (bound : Bool) (c : WorkerClaim) (r : Result Failure Bool) (s : State W)
      → (r ≡ ok true → settles bound (stop_heartbeat c ∷ s.calls) ≡ true)
      → (handled api settings c r s).0 ≡ ok true
      → settles bound (stop_heartbeat c ∷ (handled api settings c r s).1.calls) ≡ true
  unfolding handled
  handled-settles bound c (err f) s k h =
      accepted-settles bound c (handled api settings c (err f) s).1.calls (failed-accepted c f s h)
  handled-settles bound c (ok b) s k h = k h

  after_claim-settles :
      (event : CodingJobRequested) (r : Result Failure WorkerClaim) (s : State W)
      → (after_claim api settings event r s).0 ≡ ok true
      → settles (is_profile_bound event) (after_claim api settings event r s).1.calls ≡ true
  unfolding after_claim claimed stopped unclaimed set_error
  after_claim-settles event (err f) s h = cc
  after_claim-settles event (ok c) s h =
      let (r, t) = work api settings event c s in
      handled-settles (is_profile_bound event) c r t (work-settles event c s) h

  after_duplicate-settles :
      (event : CodingJobRequested) (r : Result Failure Bool) (s : State W)
      → (after_duplicate api settings event r (note (asked r) s)).0 ≡ ok true
      → settles
          (is_profile_bound event)
          (after_duplicate api settings event r (note (asked r) s)).1.calls
        ≡ true
  unfolding after_duplicate claim_and_run unclaimed set_error
  after_duplicate-settles event (err f) s h = cc
  after_duplicate-settles event (ok b) s h =
      let (r, t) = claim_with_backoff api settings event (note (asked_duplicate b) s) in
      ground (arith, after_claim-settles event r t)

  ends :
      (r : Result Failure CodingJobRequested) (t : State W)
      → (after_resolve api settings r t).0 ≡ ok true
      → ((f : Failure) × (r ≡ err f) × (is_terminal_resolve_rejection f ≡ true))
        ⊎ ((event : CodingJobRequested) × (r ≡ ok event)
            × (settles (is_profile_bound event) (after_resolve api settings r t).1.calls ≡ true))
  unfolding after_resolve unclaimed set_error
  ends (err f) t h = inl (f, refl, ground arith)
  ends (ok event) t h =
      let (r, w) = api.is_duplicate event t.world in
      inr (
        event,
        refl,
        after_duplicate-settles event r
            (record { world = w; last_error_code = t.last_error_code; calls = t.calls }) h,
      )

  -- A delivery that `process` lets be acknowledged has one of these ends: the resolve calls ended in a
  -- rejection that is final (404 JOB_NOT_FOUND or 409 JOB_STATE_VERSION_CONFLICT, not retryable); or the
  -- job was resolved, and the calls end in a report of a claim that the API took and the stop of that
  -- claim's heartbeat, or, without a profile only, in a run that ended or the answer that it is known.
  pub process-settles :
      (job : QueuedJobReference) (s : State W)
      → (process api settings job s).0 ≡ ok true
      → ((f : Failure) × ((resolve_with_backoff api settings job s).0 ≡ err f)
          × (is_terminal_resolve_rejection f ≡ true))
        ⊎ ((event : CodingJobRequested) × ((resolve_with_backoff api settings job s).0 ≡ ok event)
            × (settles (is_profile_bound event) (process api settings job s).1.calls ≡ true))
  unfolding process
  process-settles job s =
      ends (resolve_with_backoff api settings job s).0 (resolve_with_backoff api settings job s).1

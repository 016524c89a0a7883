-- ===== src/Worker/Calls.antt =====
-- What `process` asks of its collaborators: how often, and in which order.
use urizo_final_orchestrator.Base.{
  ◌+◌, ◌≤◌, Bool, true, false, ◌≡◌, refl, Str, Option, none, some, List, ◌∷◌, if◌then◌else◌, Result,
  ok, err, arith,
}
use urizo_final_orchestrator.Json.{Fields}
use urizo_final_orchestrator.Contracts.{CodingJobRequested, WorkerClaim}
use urizo_final_orchestrator.Worker.Failure.{Failure, classify_failure}
use urizo_final_orchestrator.Worker.Process.{
  Outcome, GraphResult, Call, resolve, claim, start_heartbeat, stop_heartbeat, lease_current,
  lease_lapsed, invoke, accepted, rejected, Collaborators, Settings, State, continue, set_error,
  outcome_of, reported, report_checked, report_outcome, report_success, report_failure, after_check,
  answered, with_success, work, handled, stopped, claimed, unclaimed, after_claim, failure_outcome,
}
use urizo_final_orchestrator.Worker.Backoff.{count}

abbrev pub is_resolve : Call → Bool
is_resolve resolve = true
is_resolve _ = false

abbrev pub is_claim : Call → Bool
is_claim claim = true
is_claim _ = false

abbrev pub is_start : Call → Bool
is_start (start_heartbeat c) = true
is_start _ = false

abbrev pub is_stop : Call → Bool
is_stop (stop_heartbeat c) = true
is_stop _ = false

abbrev pub is_invoke : Call → Bool
is_invoke invoke = true
is_invoke _ = false

abbrev pub is_accepted : Call → Bool
is_accepted (accepted c o code) = true
is_accepted _ = false

-- What the part from the claim on adds: no retry, at most one run and one accepted report.
pub record Delivered (before after : List Call) : Type 0 where
  pub resolves : count is_resolve after ≡ count is_resolve before
  pub claims : count is_claim after ≡ count is_claim before
  pub invocations : count is_invoke after ≤ 1 + count is_invoke before
  pub acceptances : count is_accepted after ≤ 1 + count is_accepted before
  pub balance :
      count is_start after + count is_stop before ≡ count is_stop after + count is_start before

module _ {W : Type 0} (api : Collaborators W) (settings : Settings) (p : Call → Bool)
    (current : (c : WorkerClaim) → p (lease_current c) ≡ false)
    (lapsed : (c : WorkerClaim) → p (lease_lapsed c) ≡ false)
    (is_accepted_not : (c : WorkerClaim) (o : Outcome) (e : Option Str)
      → p (accepted c o e) ≡ false)
    (is_rejected_not : (c : WorkerClaim) (o : Outcome) (e : Option Str)
      → p (rejected c o e) ≡ false) where
  -- Calls that are not part of a report are as many after it as before it.
  report_checked-count :
      (c : WorkerClaim) (o : Outcome) (e : Option Str) (pending : Option Fields) (s : State W)
      → count p (report_checked api settings c o e pending s).1.calls ≡ count p s.calls
  unfolding report_checked
  report_checked-count c o e pending s =
      ground (arith, current c, lapsed c, is_accepted_not c o e, is_rejected_not c o e)

  report_success-count :
      (c : WorkerClaim) (r : GraphResult) (s : State W)
      → count p (report_success api settings c r s).1.calls ≡ count p s.calls
  unfolding report_success report_outcome reported set_error
  report_success-count c r s =
      elim (outcome_of r)
        as (λ x. count p (continue x (report_outcome api settings c) s).1.calls ≡ count p s.calls) [
          | err f ↦ refl
          | ok (o, pending) ↦ ground (arith, report_checked-count c o none pending s)
        ]

  handled-count :
      (c : WorkerClaim) (r : Result Failure Bool) (s : State W)
      → count p (handled api settings c r s).1.calls ≡ count p s.calls
  unfolding handled report_failure after_check answered set_error
  handled-count c (ok b) s = refl
  handled-count c (err f) s =
      let (retryable, code) = classify_failure f in
      let o = failure_outcome retryable in
      ground (
        arith,
        current c,
        lapsed c,
        is_accepted_not c o (some code),
        is_rejected_not c o (some code),
      )

  with_success-count :
      (event : CodingJobRequested) (c : WorkerClaim) (r : Result Failure GraphResult) (s : State W)
      → count p (with_success api settings event c r s).1.calls ≡ count p s.calls
  unfolding with_success set_error
  with_success-count event c (err f) s = refl
  with_success-count event c (ok r) s = ground (arith, report_success-count c r s)

  work-count :
      p invoke ≡ false
      → (event : CodingJobRequested) (c : WorkerClaim) (s : State W)
      → count p (work api settings event c s).1.calls
        ≡ (if p (start_heartbeat c) then 1 else 0) + count p s.calls
  unfolding work
  work-count n event c s =
      let (r0, w0) = api.start c s.world in
      let (r1, w1) = api.invoke_graph event c w0 in
      ground (
        arith,
        n,
        with_success-count event c r1 (record {
          world = w1;
          last_error_code = s.last_error_code;
          calls = invoke ∷ start_heartbeat c ∷ s.calls;
        }),
      )

  pub claimed-count :
      p invoke ≡ false
      → (event : CodingJobRequested) (c : WorkerClaim) (s : State W)
      → count p (claimed api settings event c s).1.calls
        ≡ (if p (start_heartbeat c) then 1 else 0)
          + (if p (stop_heartbeat c) then 1 else 0)
          + count p s.calls
  unfolding claimed stopped
  claimed-count n event c s = ground (
    arith,
    work-count n event c s,
    handled-count c (work api settings event c s).0 (work api settings event c s).1,
  )

module _ {W : Type 0} (api : Collaborators W) (settings : Settings) where
  claimed-Delivered :
      (event : CodingJobRequested) (c : WorkerClaim) (s : State W)
      → Delivered s.calls (claimed api settings event c s).1.calls
  unfolding claimed work with_success handled stopped report_success report_outcome report_failure
      after_check answered report_checked reported set_error
  claimed-Delivered event c s = record {
    resolves = omega (
      arith,
      claimed-count api settings is_resolve (λ _. refl) (λ _. refl) (λ _ _ _. refl) (λ _ _ _. refl)
          refl event c s,
    );
    claims = omega (
      arith,
      claimed-count api settings is_claim (λ _. refl) (λ _. refl) (λ _ _ _. refl) (λ _ _ _. refl)
          refl event c s,
    );
    invocations = ground arith;
    acceptances = ground arith;
    balance = omega (
      arith,
      claimed-count api settings is_start (λ _. refl) (λ _. refl) (λ _ _ _. refl) (λ _ _ _. refl)
          refl event c s,
      claimed-count api settings is_stop (λ _. refl) (λ _. refl) (λ _ _ _. refl) (λ _ _ _. refl)
          refl event c s,
    );
  }

  pub after_claim-Delivered :
      (event : CodingJobRequested) (r : Result Failure WorkerClaim) (s : State W)
      → Delivered s.calls (after_claim api settings event r s).1.calls
  unfolding after_claim unclaimed set_error
  after_claim-Delivered event (ok c) s = claimed-Delivered event c s
  after_claim-Delivered event (err f) s = record {
    resolves = refl;
    claims = refl;
    invocations = omega arith;
    acceptances = omega arith;
    balance = omega arith;
  }

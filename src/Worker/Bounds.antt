-- ===== src/Worker/Bounds.antt =====
-- How often `process` calls its collaborators.
use urizo_final_orchestrator.Base.{
  ℕ, ◌+◌, ◌≤◌, Bool, true, false, not, ◌&&◌, ◌≡◌, refl, List, ◌∷◌, if◌then◌else◌, Result, ok, err,
  arith,
}
use urizo_final_orchestrator.Contracts.{QueuedJobReference, CodingJobRequested, is_profile_bound}
use urizo_final_orchestrator.Worker.Failure.{Failure}
use urizo_final_orchestrator.Worker.Process.{
  Call, resolve, asked_duplicate, claim, sleep, Collaborators, Settings, State, Exec, set_error,
  with_backoff, resolve_with_backoff, claim_with_backoff, asked, unclaimed, claim_and_run,
  after_duplicate, after_resolve, process,
}
use urizo_final_orchestrator.Worker.Backoff.{count, count-with_backoff, count_other}
use urizo_final_orchestrator.Worker.Calls.{
  is_resolve, is_claim, is_start, is_stop, is_invoke, is_accepted, after_claim-Delivered,
}

-- How often one delivery's calls may be made.
pub record Bounded (resolve_limit claim_limit : ℕ) (before after : List Call) : Type 0 where
  pub resolves : count is_resolve after ≤ resolve_limit + count is_resolve before
  pub claims : count is_claim after ≤ claim_limit + count is_claim before
  pub invocations : count is_invoke after ≤ 1 + count is_invoke before
  pub acceptances : count is_accepted after ≤ 1 + count is_accepted before
  pub balance :
      count is_start after + count is_stop before ≡ count is_stop after + count is_start before

nothing : (m : ℕ) (a : List Call) → Bounded 0 m a a
nothing m a = record {
  resolves = omega arith;
  claims = omega arith;
  invocations = omega arith;
  acceptances = omega arith;
  balance = omega arith;
}

module _ {W : Type 0} (api : Collaborators W) (settings : Settings) where
  claim_and_run-Bounded :
      (event : CodingJobRequested) (s : State W)
      → Bounded 0 settings.max_attempts s.calls (claim_and_run api settings event s).1.calls
  unfolding claim_and_run claim_with_backoff
  claim_and_run-Bounded event s =
      let (r, t) =
        with_backoff api settings claim (api.claim_job event) settings.max_attempts 1 s in
      let d = after_claim-Delivered api settings event r t in
      record {
        resolves = omega (arith, d.resolves, same is_resolve (λ _. refl) refl);
        claims = omega (
          arith,
          d.claims,
          count-with_backoff api settings claim (api.claim_job event) is_claim (λ _. refl)
              settings.max_attempts 1 s,
        );
        invocations = omega (arith, d.invocations, same is_invoke (λ _. refl) refl);
        acceptances = omega (arith, d.acceptances, same is_accepted (λ _. refl) refl);
        balance =
            omega (arith, d.balance, same is_start (λ _. refl) refl, same is_stop (λ _. refl) refl);
      }
    where
      same :
          (p : Call → Bool)
          → ((n : ℕ) → p (sleep n) ≡ false)
          → p claim ≡ false
          → count p
              (with_backoff api settings claim
                (api.claim_job event)
                settings.max_attempts
                1
                s).1.calls
            ≡ count p s.calls
      same p silent away =
          count_other api settings claim (api.claim_job event) p silent away settings.max_attempts 1
            s

  after_duplicate-Bounded :
      (event : CodingJobRequested) (r : Result Failure Bool) (s : State W)
      → Bounded 0 settings.max_attempts s.calls (after_duplicate api settings event r s).1.calls
  unfolding after_duplicate unclaimed set_error
  after_duplicate-Bounded event (err f) s = nothing settings.max_attempts s.calls
  after_duplicate-Bounded event (ok b) s =
      elim (b && not (is_profile_bound event))
        as (λ x.
          Bounded 0 settings.max_attempts s.calls
            (if◌then◌else◌ {A = Exec W Bool} x (λ t. (ok true, t))
              (claim_and_run api settings event) s).1.calls) [
                | true ↦ nothing settings.max_attempts s.calls
                | false ↦ claim_and_run-Bounded event s
              ]

  -- From the answer of the resolve calls on, none of them follows.
  after_resolve-Bounded :
      (r : Result Failure CodingJobRequested) (s : State W)
      → Bounded 0 settings.max_attempts s.calls (after_resolve api settings r s).1.calls
  unfolding after_resolve unclaimed set_error
  after_resolve-Bounded (err f) s = nothing settings.max_attempts s.calls
  after_resolve-Bounded (ok event) s =
      let (r, w) = api.is_duplicate event s.world in
      let t : State W = record {
        world = w;
        last_error_code = s.last_error_code;
        calls = asked r ∷ s.calls;
      } in
      let d = after_duplicate-Bounded event r t in
      record {
        resolves = omega (arith, d.resolves, quiet is_resolve (λ _. refl) r);
        claims = omega (arith, d.claims, quiet is_claim (λ _. refl) r);
        invocations = omega (arith, d.invocations, quiet is_invoke (λ _. refl) r);
        acceptances = omega (arith, d.acceptances, quiet is_accepted (λ _. refl) r);
        balance =
            omega (arith, d.balance, quiet is_start (λ _. refl) r, quiet is_stop (λ _. refl) r);
      }
    where
      quiet :
          (p : Call → Bool)
          → ((b : Bool) → p (asked_duplicate b) ≡ false)
          → (r : Result Failure Bool) → count p (asked r ∷ s.calls) ≡ count p s.calls
      quiet p h (ok b) = ground (arith, h b)
      quiet p h (err f) = ground (arith, h false)

  -- What one delivery costs, whatever the collaborators answer: at most `max_attempts` resolve calls and
  -- as many claim calls, at most one run of the graph and one report that is accepted; and as many
  -- heartbeats are stopped as are started.
  pub process-Bounded :
      (job : QueuedJobReference) (s : State W)
      → Bounded settings.max_attempts settings.max_attempts s.calls
          (process api settings job s).1.calls
  unfolding process resolve_with_backoff
  process-Bounded job s =
      let (r, t) =
        with_backoff api settings resolve (api.resolve_job job) settings.max_attempts 1 s in
      let d = after_resolve-Bounded r t in
      record {
        resolves = omega (
          arith,
          d.resolves,
          count-with_backoff api settings resolve (api.resolve_job job) is_resolve (λ _. refl)
              settings.max_attempts 1 s,
        );
        claims = omega (arith, d.claims, same is_claim (λ _. refl) refl);
        invocations = omega (arith, d.invocations, same is_invoke (λ _. refl) refl);
        acceptances = omega (arith, d.acceptances, same is_accepted (λ _. refl) refl);
        balance =
            omega (arith, d.balance, same is_start (λ _. refl) refl, same is_stop (λ _. refl) refl);
      }
    where
      same :
          (p : Call → Bool)
          → ((n : ℕ) → p (sleep n) ≡ false)
          → p resolve ≡ false
          → count p
              (with_backoff api settings resolve
                (api.resolve_job job)
                settings.max_attempts
                1
                s).1.calls
            ≡ count p s.calls
      same p silent away =
          count_other api settings resolve (api.resolve_job job) p silent away settings.max_attempts
            1 s

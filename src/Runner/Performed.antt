-- ===== src/Runner/Performed.antt =====
-- What `invoke` of snapshot_runner.py returns agrees with the checkpoint that it leaves, and a delivery that
-- `is_duplicate` calls a duplicate leaves everything as it is.
use urizo_final_orchestrator.Base.{
  ℕ, true, Str, Option, ok, err, guard, guard-eq-ok, ok_inj, ◌≡◌, refl, sym, ap, ◌∙◌, inl, inr,
  Result-cases,
}
use urizo_final_orchestrator.Json.{Fields}
use urizo_final_orchestrator.Runner.{
  Event, Claim, Checkpoint, Phase, waiting_approval, completed, running, Ledger, state_conflict,
}
use urizo_final_orchestrator.Runner.Stored.{
  Run, checkpoint_ledger, checkpoint_phase, validate_checkpoint_identity,
  validate_recovered_delivery,
}
use urizo_final_orchestrator.Runner.Approval.{Boundary, boundary_result}
use urizo_final_orchestrator.Runner.Plan.{
  Plan, answers, goes_on, resumes, recovers, starts, is_boundary, plan,
}
use urizo_final_orchestrator.Runner.Duplicate.{duplicate_answers}
use urizo_final_orchestrator.Runner.Invoke.{
  Runtime, GraphInput, from_checkpoint, resume_with, from_state, Engine, Act, onward, state_of,
  same_ledger, is_completed, held_values, invoke_graph_with, recovered_from,
  recover_completed_checkpoint, perform, invoke_with, is_duplicate_with, duplicate_read,
}
use urizo_final_orchestrator.Runner.Answered.{
  IsAt, IsAnswer, boundary_result-IsAt, plan_by-IsAnswer,
}

module _ {S A B : Type 0} where
  onward-eq-ok :
      (p : Run A × S) (next : A → Act S B) {b : B} {t : S}
      → onward p.0 next p.1 ≡ (ok b, t)
      → (a : A) × (p.0 ≡ ok a) × (next a p.1 ≡ (ok b, t))
  onward-eq-ok (ok a, s) next h = (a, refl, h)
  onward-eq-ok (err e, s) next h = absurd (cc)

is_completed-phase : (p : Phase) → is_completed p ≡ true → p ≡ completed
unfolding is_completed
is_completed-phase completed h = refl
is_completed-phase waiting_approval h = absurd (cc)
is_completed-phase running h = absurd (cc)

module _ {W S : Type 0} (instant_of : Str → Option ℕ) (engine : Engine W S) (r : Runtime W)
    (event : Event) (claim : Claim) where
  -- What `invoke` returns is at the boundary of the checkpoint in the state that it leaves.
  pub record IsAtBoundary (b : Boundary) (t : S) : Type 0 where
    pub checkpoint : Checkpoint
    pub stored : engine.get_state r t ≡ ok checkpoint
    pub says : IsAt event claim r.execution checkpoint b

  invoke_graph-IsAtBoundary :
      (input : GraphInput) (s t : S) (b : Boundary)
      → invoke_graph_with instant_of engine r event claim input s ≡ (ok b, t)
      → IsAtBoundary b t
  unfolding invoke_graph_with
  invoke_graph-IsAtBoundary input s t b h =
      let s1 = (engine.invoke_graph r input s).1 in
      let (values, _, h1) = onward-eq-ok (state_of (engine.invoke_graph r input s).0, s1) _ h in
      let (c, stored, h2) = onward-eq-ok (engine.get_state r s1, s1) _ h1 in
      let (_, at, h3) =
        onward-eq-ok (guard (is_boundary (checkpoint_phase c)) state_conflict, s1) _ h2 in
      let made : boundary_result values c event claim r.execution ≡ ok b = ap (λ p. p.0) h3 in
      let left : s1 ≡ t = ap (λ p. p.1) h3 in
      record {
        checkpoint = c;
        stored = rw (← left) stored;
        says =
            boundary_result-IsAt event claim r.execution values c b
              (guard-eq-ok _ state_conflict at) made;
      }

  recovered-IsAtBoundary :
      (expected : Ledger) (c : Checkpoint) (values : Fields) (s t : S) (b : Boundary)
      → engine.get_state r s ≡ ok c
      → recovered_from instant_of engine r event claim expected c values s ≡ (ok b, t)
      → IsAtBoundary b t
  unfolding recovered_from
  recovered-IsAtBoundary expected c values s t b stored h =
      let (_, at, h1) =
        onward-eq-ok (guard (is_completed (checkpoint_phase c)) state_conflict, s) _ h in
      let (_, _, h2) =
        onward-eq-ok (validate_checkpoint_identity values event r.execution r.digest, s) _ h1 in
      let (l, _, h3) = onward-eq-ok (checkpoint_ledger values, s) _ h2 in
      let (_, _, h4) = onward-eq-ok (guard (same_ledger l expected) state_conflict, s) _ h3 in
      let (_, _, last) =
        onward-eq-ok (validate_recovered_delivery instant_of values event claim r.execution, s) _
          h4 in
      let same = ok_inj (ap (λ p. p.0) last) in
      let left : s ≡ t = ap (λ p. p.1) last in
      let phase = is_completed-phase (checkpoint_phase c) (guard-eq-ok _ state_conflict at) in
      record {
        checkpoint = c;
        stored = rw (← left) stored;
        says = record {
          phase = phase ∙ ap (λ (x : Boundary). x.status) same;
          approval = inl (
            sym (ap (λ (x : Boundary). x.status) same),
            sym (ap (λ (x : Boundary). x.approval) same),
          );
        };
      }

  recover-IsAtBoundary :
      (updates : Fields) (expected : Ledger) (s t : S) (b : Boundary)
      → recover_completed_checkpoint instant_of engine r event claim updates expected s ≡ (ok b, t)
      → IsAtBoundary b t
  unfolding recover_completed_checkpoint
  recover-IsAtBoundary updates expected s t b h =
      let s1 = (engine.update_state r updates s).1 in
      let (_, _, h1) = onward-eq-ok (engine.update_state r updates s) _ h in
      let (c, stored, h2) = onward-eq-ok (engine.get_state r s1, s1) _ h1 in
      let (values, _, last) = onward-eq-ok (held_values c.values, s1) _ h2 in
      recovered-IsAtBoundary expected c values s1 t b stored last

  perform-IsAtBoundary :
      (p : Plan) (c : Checkpoint) (s t : S) (b : Boundary)
      → engine.get_state r s ≡ ok c
      → IsAnswer event claim r.execution c p
      → perform instant_of engine r event claim p s ≡ (ok b, t)
      → IsAtBoundary b t
  unfolding perform
  perform-IsAtBoundary (answers x) c s t b stored answer h =
      let left : s ≡ t = ap (λ p. p.1) h in
      record { checkpoint = c; stored = rw (← left) stored; says = answer b (ap (λ p. p.0) h) }
  perform-IsAtBoundary (goes_on updates) c s t b stored answer h =
      let (_, _, last) = onward-eq-ok (engine.update_state r updates s) _ h in
      invoke_graph-IsAtBoundary from_checkpoint _ t b last
  perform-IsAtBoundary (resumes updates) c s t b stored answer h =
      invoke_graph-IsAtBoundary (resume_with updates) s t b h
  perform-IsAtBoundary (recovers updates expected) c s t b stored answer h =
      recover-IsAtBoundary updates expected s t b h
  perform-IsAtBoundary (starts initial) c s t b stored answer h =
      invoke_graph-IsAtBoundary (from_state initial) s t b h

-- Where `invoke` returns, at whichever branch, the checkpoint that the graph then holds is completed or
-- waits for one valid approval, and the result's status and pending approval are that checkpoint's.
pub invoke_with-IsAtBoundary :
    {W S : Type 0} (instant_of : Str → Option ℕ) (engine : Engine W S) (r : Runtime W)
    (event : Event) (claim : Claim) (s t : S) (b : Boundary)
    → invoke_with instant_of engine r event claim s ≡ (ok b, t)
    → IsAtBoundary instant_of engine r event claim b t
unfolding invoke_with plan
invoke_with-IsAtBoundary instant_of engine r event claim s t b h =
    let (c, stored, h1) = onward-eq-ok (engine.get_state r s, s) _ h in
    let (p, planned, last) =
      onward-eq-ok (plan instant_of event claim r.execution r.digest c, s) _ h1 in
    perform-IsAtBoundary instant_of engine r event claim p c s t b stored
      (plan_by-IsAnswer event claim r.execution instant_of r.digest c.values c p planned) last

-- Where `is_duplicate` answers true, `invoke` of the same delivery, with any claim, leaves LangGraph's state as it
-- is: it answers from the checkpoint or raises, without a write and without a run.
pub duplicate-keeps :
    {W S : Type 0} (instant_of : Str → Option ℕ) (engine : Engine W S) (r : Runtime W)
    (event : Event) (claim : Claim) (s : S)
    → is_duplicate_with instant_of engine r event s ≡ ok true
    → (invoke_with instant_of engine r event claim s).1 ≡ s
unfolding is_duplicate_with invoke_with duplicate_read perform
duplicate-keeps instant_of engine r event claim s h = elim (Result-cases (engine.get_state r s)) [
  | inr (e, failed) ↦ rw failed refl
  | inl (c, stored) ↦
      let known = ok_inj (rw stored at h) in
      elim (Result-cases (plan instant_of event claim r.execution r.digest c)) [
        | inr (e, refused) ↦ rw (stored, refused) refl
        | inl (p, planned) ↦
            let (x, answered) =
              duplicate_answers instant_of event claim r.execution r.digest c p known planned in
            rw (stored, planned, answered) refl
      ]
]

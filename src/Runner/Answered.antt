-- ===== src/Runner/Answered.antt =====
-- Where `invoke` of snapshot_runner.py answers without a run, the answer is what the checkpoint says.
use urizo_final_orchestrator.Base.{
  ℕ, true, not, ◌==◌, ◌&&◌, ◌||◌, ltb, Str, Option, none, some, ok, guard, >>=-eq-ok, ok_inj, ◌≡◌,
  refl, sym, ap, subst, ◌∙◌, ◌⊎◌, inl, inr, Bool-cases,
}
use urizo_final_orchestrator.Json.{Fields, end, field}
use urizo_final_orchestrator.Runner.{
  Event, Claim, SnapshotExecution, Checkpoint, Phase, waiting_approval, completed, running, Ledger,
  state_conflict,
}
use urizo_final_orchestrator.Runner.Stored.{
  checkpoint_ledger, checkpoint_execution_attempt, checkpoint_phase, validate_checkpoint_identity,
  validate_recovered_delivery, execution_updates,
}
use urizo_final_orchestrator.Runner.Approval.{Boundary, pending_approval, boundary_result}
use urizo_final_orchestrator.Runner.Plan.{
  Plan, answers, updated_ledger, is_same_delivery, is_waiting_phase, is_boundary, plan_by_phase,
  plan_same, plan_newer, plan_from, plan_first, plan_by,
}

-- The boundary says what the checkpoint does: completed, or waiting for the approval that it holds.
pub record IsAt (event : Event) (claim : Claim) (execution : SnapshotExecution) (c : Checkpoint)
    (b : Boundary) : Type 0 where
  pub phase : checkpoint_phase c ≡ b.status
  pub approval :
      (b.status ≡ completed) × (b.approval ≡ none)
      ⊎ (payload : Fields) × (b.status ≡ waiting_approval)
        × (b.approval ≡ some payload)
        × (pending_approval c event claim execution ≡ ok payload)

module _ (event : Event) (claim : Claim) (execution : SnapshotExecution) where
  boundary-IsAt :
      (phase : Phase) (values : Fields) (c : Checkpoint) (b : Boundary)
      → checkpoint_phase c ≡ phase
      → is_boundary phase ≡ true
      → boundary_result values c event claim execution ≡ ok b
      → IsAt event claim execution c b
  unfolding boundary_result is_boundary
  boundary-IsAt running values c b is at h = absurd (cc)
  boundary-IsAt completed values c b is at h =
      let same = ok_inj (rw (boundary_result, is) at h) in
      record {
        phase = is ∙ ap (λ (x : Boundary). x.status) same;
        approval = inl (
          sym (ap (λ (x : Boundary). x.status) same),
          sym (ap (λ (x : Boundary). x.approval) same),
        );
      }
  boundary-IsAt waiting_approval values c b is at h =
      let (payload, pending, last) =
        >>=-eq-ok (pending_approval c event claim execution) _ (rw (boundary_result, is) at h) in
      let same = ok_inj last in
      record {
        phase = is ∙ ap (λ (x : Boundary). x.status) same;
        approval = inr (
          payload,
          sym (ap (λ (x : Boundary). x.status) same),
          sym (ap (λ (x : Boundary). x.approval) same),
          pending,
        );
      }

  pub boundary_result-IsAt :
      (values : Fields) (c : Checkpoint) (b : Boundary)
      → is_boundary (checkpoint_phase c) ≡ true
      → boundary_result values c event claim execution ≡ ok b
      → IsAt event claim execution c b
  boundary_result-IsAt values c b at h = boundary-IsAt (checkpoint_phase c) values c b refl at h

  -- An answer is the boundary of the checkpoint.
  abbrev pub IsAnswer : Checkpoint → Plan → Type 0
  IsAnswer c (answers r) = (b : Boundary) → r ≡ ok b → IsAt event claim execution c b
  IsAnswer c _ = Unit

  module _ (instant_of : Str → Option ℕ) (digest : Str) where
    plan_by_phase-IsAnswer :
        (c : Checkpoint) (phase : Phase) (attempt : ℕ) (updates : Fields) (l : Ledger)
        → IsAnswer c (plan_by_phase phase attempt execution updates l)
    unfolding plan_by_phase
    plan_by_phase-IsAnswer c completed attempt updates l = tt
    plan_by_phase-IsAnswer c running attempt updates l = tt
    plan_by_phase-IsAnswer c waiting_approval attempt updates l =
        elim (Bool-cases (ltb attempt execution.execution_attempt)) [
          | inl more ↦ rw more tt
          | inr same ↦ rw same tt
        ]

    plan_same-IsAnswer :
        (values : Fields) (c : Checkpoint) (l : Ledger) (p : Plan)
        → plan_same instant_of event claim execution digest values c l ≡ ok p
        → IsAnswer c p
    unfolding plan_same
    plan_same-IsAnswer values c l p h =
        let (_, _, last) =
          >>=-eq-ok (validate_recovered_delivery instant_of values event claim execution) _ h in
        elim (Bool-cases (is_boundary (checkpoint_phase c))) [
          | inl at ↦ rw (← ok_inj last, at) (λ b. boundary_result-IsAt values c b at)
          | inr on ↦ rw (← ok_inj last, on) tt
        ]

    plan_newer-IsAnswer :
        (values : Fields) (c : Checkpoint) (l : Ledger) (p : Plan)
        → plan_newer instant_of event claim execution digest values c l ≡ ok p
        → IsAnswer c p
    unfolding plan_newer
    plan_newer-IsAnswer values c l p h =
        let (_, _, h1) =
          >>=-eq-ok
            (guard (ltb l.max_state_version event.requested.expected_state_version) state_conflict)
            _ h in
        let (attempt, _, h2) = >>=-eq-ok (checkpoint_execution_attempt values) _ h1 in
        let (_, _, h3) =
          >>=-eq-ok (guard (not (ltb execution.execution_attempt attempt)) state_conflict) _ h2 in
        let phase = checkpoint_phase c in
        let stuck =
          execution.execution_attempt == attempt
          && (not (is_waiting_phase phase) || not claim.claimed.resume) in
        let (_, _, last) = >>=-eq-ok (guard (not stuck) state_conflict) _ h3 in
        let updated = updated_ledger event l.event_ids in
        subst (λ q. IsAnswer c q) (ok_inj last)
          (plan_by_phase-IsAnswer c phase attempt (execution_updates event claim execution updated)
            updated)

    plan_from-IsAnswer :
        (values : Fields) (c : Checkpoint) (p : Plan)
        → plan_from instant_of event claim execution digest values c ≡ ok p
        → IsAnswer c p
    unfolding plan_from
    plan_from-IsAnswer values c p h =
        let (_, _, h1) =
          >>=-eq-ok (validate_checkpoint_identity values event execution digest) _ h in
        let (l, _, last) = >>=-eq-ok (checkpoint_ledger values) _ h1 in
        elim (Bool-cases (is_same_delivery event l)) [
          | inl same ↦ plan_same-IsAnswer values c l p (rw same at last)
          | inr other ↦ plan_newer-IsAnswer values c l p (rw other at last)
        ]

    plan_first-IsAnswer :
        (c : Checkpoint) (p : Plan)
        → plan_first instant_of event claim execution digest ≡ ok p
        → IsAnswer c p
    unfolding plan_first
    plan_first-IsAnswer c p h =
        let (_, _, last) = >>=-eq-ok (guard (not claim.claimed.resume) state_conflict) _ h in
        rw (← ok_inj last) tt

    pub plan_by-IsAnswer :
        (values : Option Fields) (c : Checkpoint) (p : Plan)
        → plan_by instant_of event claim execution digest values c ≡ ok p
        → IsAnswer c p
    unfolding plan_by
    plan_by-IsAnswer none c p h = plan_first-IsAnswer c p h
    plan_by-IsAnswer (some end) c p h = plan_first-IsAnswer c p h
    plan_by-IsAnswer (some (field k v fs)) c p h = plan_from-IsAnswer (field k v fs) c p h

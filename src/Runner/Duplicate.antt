-- ===== src/Runner/Duplicate.antt =====
-- A delivery that `is_duplicate` of snapshot_runner.py calls a duplicate would change nothing.
use urizo_final_orchestrator.Base.{
  ℕ, true, ltb, &&_true, Str, Option, none, some, ok, guard, >>=-eq-ok, guard-eq-ok, ok_inj, ◌≡◌,
  refl, sym, ◌∙◌, inl, inr, arith, Bool-cases,
}
use urizo_final_orchestrator.Json.{Fields, end, field}
use urizo_final_orchestrator.Runner.{
  Event, Claim, SnapshotExecution, Checkpoint, Ledger, state_conflict,
}
use urizo_final_orchestrator.Runner.Stored.{
  Run, checkpoint_ledger, checkpoint_phase, validate_checkpoint_identity,
  validate_recovered_delivery,
}
use urizo_final_orchestrator.Runner.Approval.{Boundary, boundary_result}
use urizo_final_orchestrator.Runner.Plan.{
  Plan, answers, is_same_delivery, is_boundary, plan_same, plan_newer, plan_from, plan_by, plan,
  duplicate_in, duplicate_of, duplicate_by,
}

module _ (instant_of : Str → Option ℕ) (event : Event) (claim : Claim)
    (execution : SnapshotExecution) (digest : Str) where
  -- An event that is older is refused.
  older_refused :
      (values : Fields) (checkpoint : Checkpoint) (l : Ledger) (p : Plan)
      → ltb event.requested.expected_state_version l.max_state_version ≡ true
      → plan_newer instant_of event claim execution digest values checkpoint l ≡ ok p
      → ⊥
  unfolding plan_newer
  older_refused values checkpoint l p old h =
      let (_, newer, _) =
        >>=-eq-ok
          (guard (ltb l.max_state_version event.requested.expected_state_version) state_conflict) _
          h in
      let later =
        guard-eq-ok (ltb l.max_state_version event.requested.expected_state_version) state_conflict
          newer in
      ground (arith, old, later)

  same_answers :
      (values : Fields) (checkpoint : Checkpoint) (l : Ledger) (p : Plan)
      → is_boundary (checkpoint_phase checkpoint) ≡ true
      → plan_same instant_of event claim execution digest values checkpoint l ≡ ok p
      → p ≡ answers (boundary_result values checkpoint event claim execution)
  unfolding plan_same
  same_answers values checkpoint l p at h =
      let (_, _, last) =
        >>=-eq-ok (validate_recovered_delivery instant_of values event claim execution) _ h in
      sym (ok_inj last) ∙ (rw at refl)

  from_answers :
      (values : Fields) (checkpoint : Checkpoint) (p : Plan)
      → duplicate_in instant_of event execution digest values checkpoint (checkpoint_ledger values)
        ≡ true
      → plan_from instant_of event claim execution digest values checkpoint ≡ ok p
      → p ≡ answers (boundary_result values checkpoint event claim execution)
  unfolding plan_from duplicate_in is_same_delivery
  from_answers values checkpoint p d h =
      let (_, _, h1) = >>=-eq-ok (validate_checkpoint_identity values event execution digest) _ h in
      let (l, read, last) = >>=-eq-ok (checkpoint_ledger values) _ h1 in
      let known = rw read at d in
      elim (Bool-cases (ltb event.requested.expected_state_version l.max_state_version)) [
        | inl old ↦ elim (Bool-cases (is_same_delivery event l)) [
          | inl same ↦ absurd (ground (arith, old, same))
          | inr other ↦ absurd (older_refused values checkpoint l p old (rw other at last))
        ]
        | inr current ↦
            let rest = (&&_true _ _ (&&_true _ _ (rw current at known)).1).1 in
            let (same, on) = &&_true (is_same_delivery event l) _ rest in
            let (at, _) = &&_true _ _ on in same_answers values checkpoint l p at (rw same at last)
      ]

  by_answers :
      (values : Option Fields) (checkpoint : Checkpoint) (p : Plan)
      → duplicate_of instant_of event execution digest values checkpoint ≡ true
      → plan_by instant_of event claim execution digest values checkpoint ≡ ok p
      → (r : Run Boundary) × (p ≡ answers r)
  unfolding duplicate_of plan_by
  by_answers none checkpoint p d h = absurd (cc)
  by_answers (some end) checkpoint p d h = absurd (cc)
  by_answers (some (field k v fs)) checkpoint p d h =
      (_, from_answers (field k v fs) checkpoint p d h)

-- Where `is_duplicate` answers true, `invoke` on the same checkpoint, with any claim, is refused or answers
-- with the boundary that the checkpoint holds: it neither writes to the graph nor runs it.
pub duplicate_answers :
    (instant_of : Str → Option ℕ) (event : Event) (claim : Claim) (execution : SnapshotExecution)
    (digest : Str) (checkpoint : Checkpoint) (p : Plan)
    → duplicate_by instant_of event execution digest checkpoint ≡ true
    → plan instant_of event claim execution digest checkpoint ≡ ok p
    → (r : Run Boundary) × (p ≡ answers r)
unfolding duplicate_by plan
duplicate_answers instant_of event claim execution digest checkpoint p =
    by_answers instant_of event claim execution digest checkpoint.values checkpoint p

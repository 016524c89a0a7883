-- ===== src/Runner/Ordered.antt =====
-- When `invoke` of snapshot_runner.py writes to a graph that has a checkpoint, and what.
use urizo_final_orchestrator.Base.{
  ℕ, ◌≤◌, ◌<◌, true, not, ◌&&◌, ◌||◌, ◌==◌, ltb, ltb→lt, &&_true, Str, codes, Option, none, some,
  ok, guard, >>=-eq-ok, guard-eq-ok, ok_inj, ◌≡◌, refl, ◌⊎◌, inl, inr, arith, Bool-cases,
}
use urizo_final_orchestrator.Json.{Value, Fields, end, field, lookup}
use urizo_final_orchestrator.Contracts.Claim.{is_some_text}
use urizo_final_orchestrator.Runner.{
  Event, Claim, SnapshotExecution, Checkpoint, Phase, waiting_approval, completed, running, Ledger,
  state_conflict,
}
use urizo_final_orchestrator.Runner.Stored.{
  checkpoint_ledger, checkpoint_execution_attempt, checkpoint_phase, validate_checkpoint_identity,
}
use urizo_final_orchestrator.Runner.Plan.{
  Plan, answers, goes_on, resumes, recovers, starts, is_same_delivery, is_waiting_phase, plan_newer,
  plan_from, plan_first, plan_by, plan,
}
use urizo_final_orchestrator.Runner.Written.{
  checkpoint_ledger-IsLedger, IsRecord, Writes, first-IsRecord, plan_same-Writes,
  plan_by_phase-Writes,
}

-- The event is newer than the checkpoint, by a later attempt or as the approval that was waited for.
pub record IsNewer (event : Event) (claim : Claim) (execution : SnapshotExecution) (values : Fields)
    (checkpoint : Checkpoint) (ledger : Ledger) : Type 0 where
  pub later : ledger.max_state_version < event.requested.expected_state_version
  pub attempt : ℕ
  pub attempted : checkpoint_execution_attempt values ≡ ok attempt
  pub resumed :
      (attempt < execution.execution_attempt)
      ⊎ (attempt ≡ execution.execution_attempt)
        × (checkpoint_phase checkpoint ≡ waiting_approval)
        × (claim.claimed.resume ≡ true)

-- The checkpoint is this job's, of the same profile, and the event is its last one or a newer one.
pub record IsOrdered (event : Event) (claim : Claim) (execution : SnapshotExecution) (digest : Str)
    (values : Fields) (checkpoint : Checkpoint) : Type 0 where
  pub same_job : is_some_text event.requested.job_id (lookup (codes "jobId") values) ≡ true
  pub same_trace : is_some_text event.requested.trace_id (lookup (codes "traceId") values) ≡ true
  pub same_profile :
      is_some_text execution.snapshot.profile_version_id (lookup (codes "profileVersionId") values)
      ≡ true
  pub same_digest : is_some_text digest (lookup (codes "_snapshotProfileDigest") values) ≡ true
  pub ledger : Ledger
  pub read : checkpoint_ledger values ≡ ok ledger
  pub in_order :
      (is_same_delivery event ledger ≡ true)
      ⊎ IsNewer event claim execution values checkpoint ledger

Writes-any : (P : Type 0) (Q : Fields → Type 0) (p : Plan) → Writes Q p → P → Writes (λ u. P) p
Writes-any P Q (answers r) w h = tt
Writes-any P Q (goes_on u) w h = h
Writes-any P Q (resumes u) w h = h
Writes-any P Q (recovers u l) w h = (h, w.1)
Writes-any P Q (starts u) w h = h

is_waiting : (p : Phase) → is_waiting_phase p ≡ true → p ≡ waiting_approval
unfolding is_waiting_phase
is_waiting waiting_approval h = refl
is_waiting completed h = absurd (cc)
is_waiting running h = absurd (cc)

module _ (instant_of : Str → Option ℕ) (event : Event) (claim : Claim)
    (execution : SnapshotExecution) (digest : Str)
    (positive : 1 ≤ event.requested.expected_state_version) where
  plan_newer-Writes :
      (values : Fields) (checkpoint : Checkpoint) (l : Ledger) (p : Plan)
      → plan_newer instant_of event claim execution digest values checkpoint l ≡ ok p
      → Writes (IsRecord event) p × IsNewer event claim execution values checkpoint l
  unfolding plan_newer
  plan_newer-Writes values checkpoint l p h =
      let (_, newer, h1) =
        >>=-eq-ok
          (guard (ltb l.max_state_version event.requested.expected_state_version) state_conflict) _
          h in
      let (attempt, attempted, h2) = >>=-eq-ok (checkpoint_execution_attempt values) _ h1 in
      let (_, current, h3) =
        >>=-eq-ok (guard (not (ltb execution.execution_attempt attempt)) state_conflict) _ h2 in
      let phase = checkpoint_phase checkpoint in
      let stuck =
        execution.execution_attempt == attempt
        && (not (is_waiting_phase phase) || not claim.claimed.resume) in
      let (_, free, last) = >>=-eq-ok (guard (not stuck) state_conflict) _ h3 in
      let still =
        guard-eq-ok (not (ltb execution.execution_attempt attempt)) state_conflict current in
      let open_now = guard-eq-ok (not stuck) state_conflict free in
      let resumed : (attempt < execution.execution_attempt)
          ⊎ (attempt ≡ execution.execution_attempt)
            × (phase ≡ waiting_approval)
            × (claim.claimed.resume ≡ true) =
        elim (Bool-cases (ltb attempt execution.execution_attempt)) [
          | inl more ↦ inl (ltb→lt attempt execution.execution_attempt more)
          | inr same ↦
              let equal : attempt ≡ execution.execution_attempt = ground (arith, still, same) in
              inr (
                equal,
                is_waiting phase (ground (arith, open_now, equal)),
                ground (arith, open_now, equal),
              )
        ] in
      (
        rw (← ok_inj last) (
            plan_by_phase-Writes instant_of event claim execution digest positive phase attempt
              l.event_ids),
        record {
          later = ltb→lt _ _ (guard-eq-ok _ state_conflict newer);
          attempt = attempt;
          attempted = attempted;
          resumed = resumed;
        },
      )

  plan_from-Writes :
      (values : Fields) (checkpoint : Checkpoint) (p : Plan)
      → plan_from instant_of event claim execution digest values checkpoint ≡ ok p
      → Writes (IsRecord event) p × IsOrdered event claim execution digest values checkpoint
  unfolding plan_from validate_checkpoint_identity
  plan_from-Writes values checkpoint p h =
      let (_, identity, h1) =
        >>=-eq-ok (validate_checkpoint_identity values event execution digest) _ h in
      let (l, read, last) = >>=-eq-ok (checkpoint_ledger values) _ h1 in
      let own = guard-eq-ok _ state_conflict identity in
      let (job, own1) = &&_true _ _ own in
      let (trace, own2) = &&_true _ _ own1 in
      let (profile, same_digest) = &&_true _ _ own2 in
      let make =
        λ (order : (is_same_delivery event l ≡ true)
            ⊎ IsNewer event claim execution values checkpoint l).
          let r : IsOrdered event claim execution digest values checkpoint = record {
            same_job = job;
            same_trace = trace;
            same_profile = profile;
            same_digest = same_digest;
            ledger = l;
            read = read;
            in_order = order;
          } in
          r in
      elim (Bool-cases (is_same_delivery event l)) [
        | inl same ↦ (
          plan_same-Writes instant_of event claim execution digest positive values checkpoint l p
              (checkpoint_ledger-IsLedger values l read) same (rw same at last),
          make (inl same),
        )
        | inr other ↦
            let (w, newer) = plan_newer-Writes values checkpoint l p (rw other at last) in
            (w, make (inr newer))
      ]

  plan_first-Writes :
      (p : Plan)
      → plan_first instant_of event claim execution digest ≡ ok p
      → Writes (IsRecord event) p
  unfolding plan_first
  plan_first-Writes p h =
      let (_, _, last) = >>=-eq-ok (guard (not claim.claimed.resume) state_conflict) _ h in
      rw (← ok_inj last) (first-IsRecord instant_of event claim execution digest positive)

  plan_by-Writes :
      (values : Option Fields) (checkpoint : Checkpoint) (p : Plan)
      → plan_by instant_of event claim execution digest values checkpoint ≡ ok p
      → Writes (IsRecord event) p
  unfolding plan_by
  plan_by-Writes none checkpoint p h = plan_first-Writes p h
  plan_by-Writes (some end) checkpoint p h = plan_first-Writes p h
  plan_by-Writes (some (field k v fs)) checkpoint p h =
      (plan_from-Writes (field k v fs) checkpoint p h).0

  plan_by-IsOrdered :
      (values : Option Fields) (checkpoint : Checkpoint) (k : Str) (v : Value) (fs : Fields)
      (p : Plan)
      → values ≡ some (field k v fs)
      → plan_by instant_of event claim execution digest values checkpoint ≡ ok p
      → Writes (λ u. IsOrdered event claim execution digest (field k v fs) checkpoint) p
  unfolding plan_by
  plan_by-IsOrdered values checkpoint k v fs p held h =
      let (w, ordered) = plan_from-Writes (field k v fs) checkpoint p (rw held at h) in
      Writes-any _ (IsRecord event) p w ordered

-- Whatever `invoke` writes into a graph carries a ledger that `_checkpoint_ledger` reads back, which names
-- the event at the event's expected state version, where that is positive, as `from_dict` has checked.
pub plan-Writes :
    (instant_of : Str → Option ℕ) (event : Event) (claim : Claim) (execution : SnapshotExecution)
    (digest : Str) (checkpoint : Checkpoint) (p : Plan)
    → 1 ≤ event.requested.expected_state_version
    → plan instant_of event claim execution digest checkpoint ≡ ok p
    → Writes (IsRecord event) p
unfolding plan
plan-Writes instant_of event claim execution digest checkpoint p positive h =
    plan_by-Writes instant_of event claim execution digest positive checkpoint.values checkpoint p h

-- Where the graph has a checkpoint, `invoke` writes to it only if the checkpoint is of the same job, trace,
-- profile version and profile digest, and the event is the last delivery of its ledger or newer than
-- all of them; a newer one must have a later execution attempt, or resume the waiting approval of the
-- same attempt.
pub plan-IsOrdered :
    (instant_of : Str → Option ℕ) (event : Event) (claim : Claim) (execution : SnapshotExecution)
    (digest : Str) (checkpoint : Checkpoint) (k : Str) (v : Value) (fs : Fields) (p : Plan)
    → 1 ≤ event.requested.expected_state_version
    → checkpoint.values ≡ some (field k v fs)
    → plan instant_of event claim execution digest checkpoint ≡ ok p
    → Writes (λ u. IsOrdered event claim execution digest (field k v fs) checkpoint) p
unfolding plan
plan-IsOrdered instant_of event claim execution digest checkpoint k v fs p positive held h =
    plan_by-IsOrdered instant_of event claim execution digest positive checkpoint.values checkpoint
      k v fs p held h

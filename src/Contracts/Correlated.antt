-- ===== src/Contracts/Correlated.antt =====
-- What holds of the claims and lease responses that contracts.py lets through.
use urizo_final_orchestrator.Base.{
  ℕ, ◌<◌, true, ◌&&◌, ltb, Str, codes, eq, eq_iff, ◌≡◌, refl, Option, none, some, ok, ◌>>=◌, guard,
  >>=-eq-ok, guard-eq-ok, ltb→lt, &&_true, ok_inj, ◌∙◌, ap,
}
use urizo_final_orchestrator.Json.{Value, Fields}
use urizo_final_orchestrator.Contracts.{CodingJobRequested, Binding, WorkerClaim}
use urizo_final_orchestrator.Contracts.Checks.{
  expired, uncorrelated, not_advanced, wrong_profile, out_of_scope, object_of, entry, exact_names,
  schema_version, uuid_entry, positive_integer, bool_of, timestamp, not_expired,
}
use urizo_final_orchestrator.Contracts.Claim.{
  worker_claim_fields, Scope, in_scope, right_profile, claim_snapshot_fields, snapshot_scope,
  check_permissions, check_snapshot, finish_claim, parse_claim,
}
use urizo_final_orchestrator.Contracts.Scoped.{IsInScope, snapshot_scope-IsInScope}
use urizo_final_orchestrator.Contracts.Permitted.{IsPermitted, check_permissions-IsPermitted}

-- The lease ends after this moment.
abbrev pub IsLive : Option ℕ → ℕ → Type 0
IsLive none expires = Unit
IsLive (some now) expires = now < expires

right_profile_kept :
    (o : Option Binding) (t : Str)
    → right_profile o t ≡ true
    → (b : Binding) → o ≡ some b
    → t ≡ b.profile_version_id
unfolding right_profile
right_profile_kept none t h b e = absurd (cc)
right_profile_kept (some a) t h b e =
    let same : a ≡ b = cc in
    (eq_iff t a.profile_version_id).0 h ∙ ap (λ (x : Binding). x.profile_version_id) same

module _ (instant_of : Str → Option ℕ) where
  not_expired-IsLive :
      (expires : ℕ) (now : Option ℕ) {u : Unit {0}}
      → not_expired instant_of expires now ≡ ok u
      → IsLive now expires
  unfolding not_expired
  not_expired-IsLive expires none h = tt
  not_expired-IsLive expires (some now) h =
      ltb→lt now expires (guard-eq-ok (ltb now expires) expired h)

  pub record IsCorrelated (event : CodingJobRequested) (now : Option ℕ) (c : WorkerClaim)
      : Type 0 where
    pub same_job : c.job_id ≡ event.job_id
    pub same_trace : c.trace_id ≡ event.trace_id
    pub live : IsLive now c.lease_expires_at
    pub advanced : event.expected_state_version < c.state_version
    pub same_profile :
        (b : Binding) → event.binding ≡ some b → c.profile_version_id ≡ b.profile_version_id
    pub permitted : IsPermitted instant_of c.snapshot
    pub scoped : IsInScope event.payload c.snapshot

  record IsFinished (event : CodingJobRequested) (job_id trace_id : Str) (expires n : ℕ)
      (c : WorkerClaim) : Type 0 where
    job_kept : c.job_id ≡ job_id
    trace_kept : c.trace_id ≡ trace_id
    lease_kept : c.lease_expires_at ≡ expires
    version_kept : c.state_version ≡ n
    same_profile :
        (b : Binding) → event.binding ≡ some b → c.profile_version_id ≡ b.profile_version_id
    permitted : IsPermitted instant_of c.snapshot
    scoped : IsInScope event.payload c.snapshot

  check_snapshot_parts :
      (snapshot : Fields) (scope : Scope)
      → check_snapshot instant_of snapshot ≡ ok scope
      → (snapshot_scope snapshot ≡ ok scope) × (check_permissions instant_of snapshot ≡ ok tt)
  unfolding check_snapshot
  check_snapshot_parts snapshot scope h =
      let (_, _, h1) = >>=-eq-ok (exact_names snapshot claim_snapshot_fields) _ h in
      let (c, scoped, h2) = >>=-eq-ok (snapshot_scope snapshot) _ h1 in
      let (_, checked, last) = >>=-eq-ok (check_permissions instant_of snapshot) _ h2 in
      (scoped ∙ last, checked)

  finish_claim-IsFinished :
      (event : CodingJobRequested) (payload : Fields) (job_id trace_id lease_id : Str)
      (expires n : ℕ) (c : WorkerClaim)
      → finish_claim instant_of event payload (job_id, trace_id, lease_id) expires n ≡ ok c
      → IsFinished event job_id trace_id expires n c
  unfolding finish_claim
  finish_claim-IsFinished event payload job_id trace_id lease_id expires n c h =
      let (resume, _, h1) = >>=-eq-ok (entry (codes "resume") payload >>= bool_of) _ h in
      let (profile, _, h2) = >>=-eq-ok (uuid_entry (codes "profileVersionId") payload) _ h1 in
      let (_, right, h3) =
        >>=-eq-ok (guard (right_profile event.binding profile) wrong_profile) _ h2 in
      let (snapshot, _, h4) = >>=-eq-ok (entry (codes "snapshot") payload >>= object_of) _ h3 in
      let (scope, scoped, h5) = >>=-eq-ok (check_snapshot instant_of snapshot) _ h4 in
      let (_, covered, last) = >>=-eq-ok (guard (in_scope event.payload scope) out_of_scope) _ h5 in
      let same = ok_inj last in
      rw (← same) (record {
        job_kept = refl;
        trace_kept = refl;
        lease_kept = refl;
        version_kept = refl;
        same_profile =
            right_profile_kept event.binding profile
              (guard-eq-ok (right_profile event.binding profile) wrong_profile right);
        permitted =
            check_permissions-IsPermitted instant_of snapshot
              (check_snapshot_parts snapshot scope scoped).1;
        scoped =
            snapshot_scope-IsInScope event.payload snapshot scope
              (check_snapshot_parts snapshot scope scoped).0
              (guard-eq-ok (in_scope event.payload scope) out_of_scope covered);
      })

  -- A claim that `WorkerClaim.from_dict` returns is of the event's job and trace, of its profile version
  -- where it is bound to one, with a lease that ends after the moment given and a state version above
  -- the event's. Its snapshot has the texts of the event's payload as actor, project, repository, graph
  -- step, base, context and policy; it permits CHAT and no capabilities but the three known ones, in 1 to
  -- 50 distinct nodes; and its deadline is a time.
  pub parse_claim-IsCorrelated :
      (v : Value) (event : CodingJobRequested) (now : Option ℕ) (c : WorkerClaim)
      → parse_claim instant_of v event now ≡ ok c
      → IsCorrelated event now c
  unfolding parse_claim
  parse_claim-IsCorrelated v event now c h =
      let (payload, _, h1) = >>=-eq-ok (object_of v) _ h in
      let (_, _, h2) = >>=-eq-ok (exact_names payload worker_claim_fields) _ h1 in
      let (version, _, h3) = >>=-eq-ok (entry (codes "schemaVersion") payload) _ h2 in
      let (_, _, h4) = >>=-eq-ok (schema_version version) _ h3 in
      let (job_id, _, h5) = >>=-eq-ok (uuid_entry (codes "jobId") payload) _ h4 in
      let (trace_id, _, h6) = >>=-eq-ok (uuid_entry (codes "traceId") payload) _ h5 in
      let (lease_id, _, h7) = >>=-eq-ok (uuid_entry (codes "leaseId") payload) _ h6 in
      let (_, correlated, h8) =
        >>=-eq-ok (guard (eq job_id event.job_id && eq trace_id event.trace_id) uncorrelated) _
          h7 in
      let (expires, _, h9) =
        >>=-eq-ok (entry (codes "leaseExpiresAt") payload >>= timestamp instant_of) _ h8 in
      let (_, live, h10) = >>=-eq-ok (not_expired instant_of expires now) _ h9 in
      let (n, _, h11) =
        >>=-eq-ok (entry (codes "stateVersion") payload >>= positive_integer) _ h10 in
      let (_, advanced, last) =
        >>=-eq-ok (guard (ltb event.expected_state_version n) not_advanced) _ h11 in
      let f = finish_claim-IsFinished event payload job_id trace_id lease_id expires n c last in
      let agree =
        guard-eq-ok (eq job_id event.job_id && eq trace_id event.trace_id) uncorrelated
          correlated in
      let up =
        ltb→lt event.expected_state_version n
          (guard-eq-ok (ltb event.expected_state_version n) not_advanced advanced) in
      record {
        same_job =
            f.job_kept
            ∙ (eq_iff job_id event.job_id).0
                (&&_true (eq job_id event.job_id) (eq trace_id event.trace_id) agree).0;
        same_trace =
            f.trace_kept
            ∙ (eq_iff trace_id event.trace_id).0
                (&&_true (eq job_id event.job_id) (eq trace_id event.trace_id) agree).1;
        live = rw f.lease_kept (not_expired-IsLive expires now live);
        advanced = rw f.version_kept up;
        same_profile = f.same_profile;
        permitted = f.permitted;
        scoped = f.scoped;
      }

-- ===== src/Runner/Authority.antt =====
-- A coding approval that `_pending_approval` of snapshot_runner.py lets through has what
-- `_validated_pending_approval` of worker_api.py asks of it.
use urizo_final_orchestrator.Base.{
  true, &&_true, Str, codes, eq, eq_iff, Option, some, List, [], ◌∷◌, ◌++◌, mem, mem-subset, subset,
  same_set, ok, guard, >>=-eq-ok, guard-eq-ok, ok_inj, ◌≡◌, refl, sym, subst, arith,
}
use urizo_final_orchestrator.Json.{Value, Fields, field_names, lookup}
use urizo_final_orchestrator.Contracts.Claim.{is_some_text}
use urizo_final_orchestrator.Worker.Sending.{approval_fields, is_short_text, approval_valid}
use urizo_final_orchestrator.Runner.{
  Event, Claim, SnapshotExecution, Checkpoint, contract_failure, state_conflict,
}
use urizo_final_orchestrator.Runner.Stored.{mapping_in}
use urizo_final_orchestrator.Runner.Approval.{
  common_fields, coding_fields, interrupted, only_interrupt, payload_of, name_of,
  has_coding_authority, has_its_fields, has_positive, is_correlated, has_authority,
  pending_approval,
}

subset-subset :
    (xs ys zs : List Str) → subset xs ys ≡ true → subset ys zs ≡ true → subset xs zs ≡ true
unfolding subset
subset-subset [] ys zs h m = refl
subset-subset (x ∷ xs) ys zs h m = ground (arith, mem-subset ys zs x m, subset-subset xs ys zs)

all_sent : subset (common_fields ++ coding_fields) approval_fields ≡ true
unfolding subset mem eq
all_sent = refl

sent_all : subset approval_fields (common_fields ++ coding_fields) ≡ true
unfolding subset mem eq
sent_all = refl

-- The names are the same, in another order.
same_set-approval_fields :
    (names : List Str)
    → same_set names (common_fields ++ coding_fields) ≡ true
    → same_set names approval_fields ≡ true
unfolding same_set
same_set-approval_fields names h =
    let all = common_fields ++ coding_fields in
    let (within, whole) = &&_true (subset names all) (subset all names) h in
    ground (
      arith,
      subset-subset names all approval_fields within all_sent,
      subset-subset approval_fields all names sent_all whole,
    )

same-is_some_text :
    (a b : Str) (v : Option Value)
    → eq a b ≡ true
    → is_some_text b v ≡ true
    → is_some_text a v ≡ true
same-is_some_text a b v same h = subst (λ t. is_some_text t v ≡ true) (sym ((eq_iff a b).0 same)) h

-- What `_pending_approval` has checked of the payload that it returns.
record IsChecked (event : Event) (claim : Claim) (execution : SnapshotExecution) (payload : Fields)
    : Type 0 where
  node_id : Str
  fields : has_its_fields (has_coding_authority payload) payload ≡ true
  positive : has_positive (has_coding_authority payload) payload ≡ true
  correlated :
      is_correlated (has_coding_authority payload) node_id event claim execution payload ≡ true
  authority : has_authority (has_coding_authority payload) payload ≡ true

pending_approval-IsChecked :
    (c : Checkpoint) (event : Event) (claim : Claim) (execution : SnapshotExecution)
    (payload : Fields)
    → pending_approval c event claim execution ≡ ok payload
    → IsChecked event claim execution payload
unfolding pending_approval
pending_approval-IsChecked c event claim execution payload h =
    let ((name, value), _, h1) = >>=-eq-ok (only_interrupt (interrupted c.tasks)) _ h in
    let (found, _, h2) = >>=-eq-ok (payload_of (mapping_in (some value))) _ h1 in
    let coding = has_coding_authority found in
    let (_, fields, h3) = >>=-eq-ok (guard (has_its_fields coding found) contract_failure) _ h2 in
    let (_, positive, h4) = >>=-eq-ok (guard (has_positive coding found) contract_failure) _ h3 in
    let (node_id, _, h5) = >>=-eq-ok (name_of name) _ h4 in
    let (_, correlated, h6) =
      >>=-eq-ok (guard (is_correlated coding node_id event claim execution found) state_conflict) _
        h5 in
    let (_, authority, last) =
      >>=-eq-ok (guard (has_authority coding found) contract_failure) _ h6 in
    subst (λ fs. IsChecked event claim execution fs) (ok_inj last)
      (record {
        node_id = node_id;
        fields = guard-eq-ok _ contract_failure fields;
        positive = guard-eq-ok _ contract_failure positive;
        correlated = guard-eq-ok _ state_conflict correlated;
        authority = guard-eq-ok _ contract_failure authority;
      })

-- Where `_pending_approval` lets a coding approval through, and its node id, stage and role have at most 64
-- characters and are not empty, `_validated_pending_approval` of the API client accepts it for the claim.
pub pending_approval-approval_valid :
    (c : Checkpoint) (event : Event) (claim : Claim) (execution : SnapshotExecution)
    (payload : Fields)
    → pending_approval c event claim execution ≡ ok payload
    → has_coding_authority payload ≡ true
    → is_short_text (lookup (codes "nodeId") payload) ≡ true
    → is_short_text (lookup (codes "stage") payload) ≡ true
    → is_short_text (lookup (codes "requiredRole") payload) ≡ true
    → approval_valid claim.claimed payload ≡ true
unfolding approval_valid has_its_fields has_positive is_correlated has_authority
pending_approval-approval_valid c event claim execution payload h coding node stage role =
    let checked = pending_approval-IsChecked c event claim execution payload h in
    let fields = rw coding at checked.fields in
    let positive = rw coding at checked.positive in
    let correlated = rw coding at checked.correlated in
    let authority = rw coding at checked.authority in
    ground (
      arith,
      same_set-approval_fields (field_names payload) fields,
      same-is_some_text claim.claimed.job_id event.requested.job_id
          (lookup (codes "jobId") payload),
      same-is_some_text claim.claimed.profile_version_id execution.snapshot.profile_version_id
          (lookup (codes "profileVersionId") payload),
      positive,
      correlated,
      authority,
      node,
      stage,
      role,
    )

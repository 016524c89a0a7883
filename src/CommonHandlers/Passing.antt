-- ===== src/CommonHandlers/Passing.antt =====
-- What the common guardrail lets pass in a compiled graph.
use mathlib.Core.List.{Memᴰ}
use mathlib.Core.List.Memᴰ
use urizo_final_orchestrator.Base.{
  Bool, true, false, not, ◌&&◌, Str, codes, Option, none, some, List, [], ◌∷◌, eq, eq_iff, mem,
  Result, ok, err, guard, >>=-eq-ok, guard-eq-ok, ok_inj, ◌≡◌, ◌≢◌, refl, sym, ap, ◌∙◌, inl, inr,
  arith,
}
use urizo_final_orchestrator.Json.{Value, text, Fields, lookup}
use urizo_final_orchestrator.Snapshot.{SnapshotNode, SnapshotEdge, VersionedSnapshot}
use urizo_final_orchestrator.Snapshot.Freeze.{contains_surrogate, any_surrogate, thaw_object}
use urizo_final_orchestrator.Snapshot.Validate.{find_node}
use urizo_final_orchestrator.Snapshot.Valid.{valid}
use urizo_final_orchestrator.Snapshot.Accepted.{IsAccepted}
use urizo_final_orchestrator.Snapshot.Checks.{is_name_character, all_of, starts, is_identifier}
use urizo_final_orchestrator.Node.{
  NodeViolation, NodeInvocation, NodeResult, NodeHandler, NodeHandlerRegistration, NodeRegistry,
  Handled, returned,
}
use urizo_final_orchestrator.Node.Freeze.{freeze_entries, freeze_members, freeze_context}
use urizo_final_orchestrator.Node.Create.{
  positive_integer, matched, uuid_of, optional_uuid, Arguments, create, check_port, given_updates,
  create_result,
}
use urizo_final_orchestrator.Node.Registry.{resolve}
use urizo_final_orchestrator.Builder.{Graph, mismatched_profile, failed_not_to_end}
use urizo_final_orchestrator.Builder.Compile.{
  target_of, failed_port, common_failure_handlers, is_target, validate_common_failure_routes,
  compile,
}
use urizo_final_orchestrator.Builder.Action.{
  required, or_empty, in_context, invocation_of, context_key,
}
use urizo_final_orchestrator.Builder.Run.{Cursor, goes, super_step}
use urizo_final_orchestrator.Builder.Compiled.{find_node-Memᴰ}
use urizo_final_orchestrator.Builder.Bounded.{Reached, IsStarted}
use urizo_final_orchestrator.Builder.Correct.{Reached-Moved}
use urizo_final_orchestrator.CommonHandlers.{
  is_digest, require_valid_config, returning, port_by, guardrail_handler,
  build_common_node_registry,
}
use urizo_final_orchestrator.CommonHandlers.Registry.{
  guardrail_registration, common_registrations, common_registry, resolve-guardrail,
}

is_target-some : (a : Str) (o : Option Str) → is_target a o ≡ true → o ≡ some a
unfolding is_target
is_target-some a none h = absurd (cc)
is_target-some a (some t) h = ap some ((eq_iff t a).0 h)

-- A node with a common handler fails to the end.
pub failed_routed :
    (edges : List SnapshotEdge) (end_id : Str) (ns : List SnapshotNode) (n : SnapshotNode)
    → validate_common_failure_routes edges end_id ns ≡ ok tt
    → Memᴰ n ns
    → mem n.handler_key common_failure_handlers ≡ true
    → target_of (n.node_id, failed_port) edges ≡ some end_id
unfolding validate_common_failure_routes
failed_routed edges end_id [] n h m k = absurd (Memᴰ.not-nil m)
failed_routed edges end_id (x ∷ ns) n h m k =
    let (_, g, rest) =
      >>=-eq-ok
        (guard
          (not (
            mem x.handler_key common_failure_handlers
            && not (is_target end_id (target_of (x.node_id, failed_port) edges))))
          (failed_not_to_end x.node_id))
        _ h in
    elim (Memᴰ.cases_cons m) [
      | inl this ↦
          let key : mem x.handler_key common_failure_handlers ≡ true = rw this at k in
          let to =
            is_target-some end_id (target_of (x.node_id, failed_port) edges)
              (ground (arith, guard-eq-ok _ (failed_not_to_end x.node_id) g, key)) in
          rw this to
      | inr later ↦ failed_routed edges end_id ns n rest later k
    ]

create-context :
    (a : Arguments) (i : NodeInvocation) → create a ≡ ok i → freeze_context a.context ≡ ok i.context
unfolding create
create-context a i h =
    let (_, _, h1) = >>=-eq-ok (uuid_of a.job_id) _ h in
    let (_, _, h2) = >>=-eq-ok (uuid_of a.profile_version_id) _ h1 in
    let (_, _, h3) = >>=-eq-ok (matched is_identifier 64 a.node_id) _ h2 in
    let (_, _, h4) = >>=-eq-ok (positive_integer a.pipeline_attempt) _ h3 in
    let (_, _, h5) = >>=-eq-ok (positive_integer a.execution_attempt) _ h4 in
    let (_, _, h6) = >>=-eq-ok (positive_integer a.state_version) _ h5 in
    let (_, _, h7) = >>=-eq-ok (uuid_of a.trace_id) _ h6 in
    let (_, _, h8) = >>=-eq-ok (optional_uuid a.workspace_id) _ h7 in
    let (_, _, h9) = >>=-eq-ok (optional_uuid a.tool_call_id) _ h8 in
    let (context, frozen, h10) = >>=-eq-ok (freeze_context a.context) _ h9 in
    let (_, _, last) = >>=-eq-ok (freeze_context a.config) _ h10 in
    frozen ∙ ap ok (ap (λ (x : NodeInvocation). x.context) (ok_inj last))

in_context_ok :
    (r : Result NodeViolation NodeInvocation) (i : NodeInvocation) → in_context r ≡ ok i → r ≡ ok i
unfolding in_context
in_context_ok (ok j) i h = ap ok (ok_inj h)
in_context_ok (err e) i h = absurd (cc)

-- The context that a handler is given is the state's.
invocation_of-context :
    (s : VersionedSnapshot) (n : SnapshotNode) (state : Fields) (i : NodeInvocation)
    → invocation_of s n state ≡ ok i
    → freeze_context (or_empty (lookup context_key state)) ≡ ok i.context
unfolding invocation_of
invocation_of-context s n state i h =
    let (job_id, _, h1) = >>=-eq-ok (required (lookup (codes "jobId") state)) _ h in
    let (profile, _, h2) = >>=-eq-ok (required (lookup (codes "profileVersionId") state)) _ h1 in
    let (pipeline, _, h3) = >>=-eq-ok (required (lookup (codes "pipelineAttempt") state)) _ h2 in
    let (execution, _, h4) = >>=-eq-ok (required (lookup (codes "executionAttempt") state)) _ h3 in
    let (version, _, h5) = >>=-eq-ok (required (lookup (codes "stateVersion") state)) _ h4 in
    let (trace, _, h6) = >>=-eq-ok (required (lookup (codes "traceId") state)) _ h5 in
    let (made, created, h7) = >>=-eq-ok (in_context (create _)) _ h6 in
    let (_, _, last) =
      >>=-eq-ok (guard (eq made.profile_version_id s.profile_version_id) mismatched_profile) _ h7 in
    let same : made ≡ i = ok_inj last in
    create-context _ made (in_context_ok _ made created)
    ∙ ap (λ (x : NodeInvocation). ok x.context) same

abbrev port_of : Handled → Option Str
port_of (returned r) = r.port
port_of _ = none

-- A handler that answers anything but `failed` has seen a digest.
answers_passed :
    (failure : Value) (b : Bool) (r : NodeResult) (p : Str)
    → require_valid_config failure (returning (create_result (text (port_by b)) none)) ≡ returned r
    → r.port ≡ some p
    → p ≢ failed_port
    → b ≡ true
unfolding require_valid_config returning create_result check_port matched is_identifier starts
    all_of is_name_character contains_surrogate given_updates freeze_context freeze_members
    any_surrogate freeze_entries port_by
answers_passed Value.null true r p h given away = refl
answers_passed Value.null false r p h given away =
    let port : some failed_port ≡ r.port = ap port_of h in absurd (away (cc (sym (port ∙ given))))
answers_passed v b r p h given away = absurd (cc)

-- In a graph compiled with the common registry, a run that a node with handler key common.guardrail
-- sends on, to any node but the end, has a SHA-256 digest under policyHash in its context at that time.
pub guardrail_passes :
    {W : Type 0} (registry : NodeRegistry W) (s : VersionedSnapshot) (g : Graph W)
    (first before after : Cursor W) (n : SnapshotNode)
    → build_common_node_registry W ≡ ok registry
    → (accepted : IsAccepted s) → compile registry s ≡ ok g
    → IsStarted s first
    → Reached g first before
    → find_node before.at s.nodes ≡ some n
    → n.handler_key ≡ codes "common.guardrail"
    → super_step g before ≡ goes after
    → after.at ≢ (valid s accepted.valid).end.node_id
    → (context : Fields) × (freeze_context (or_empty (lookup context_key before.state))
        ≡ ok context)
      × (is_digest (lookup (codes "policyHash") (thaw_object context)) ≡ true)
unfolding mem eq guardrail_handler
guardrail_passes {W} registry s g first before after n common accepted compiled st r found keyed e
      away =
    let (m, b) = Reached-Moved registry s g first before after accepted compiled st r e in
    let (named, listed) = find_node-Memᴰ before.at s.nodes n found in
    let key : mem n.handler_key common_failure_handlers ≡ true = rw keyed refl in
    let to_end =
      failed_routed s.edges (valid s accepted.valid).end.node_id s.nodes n b.routed listed key in
    let apart : m.port ≢ failed_port = λ same. away (
      cc (
        sym m.edge
        ∙ ap (λ (p : Str). target_of (before.at, p) s.edges) same
        ∙ rw named at to_end)) in
    let bound = b.bound before.at n found in
    let registered : registry ≡ common_registrations W = ok_inj (sym common ∙ common_registry W) in
    let resolves : ok bound.registration ≡ ok guardrail_registration =
      sym bound.resolves
      ∙ ap (λ (k : Str). resolve registry (text k)) keyed
      ∙ ap (λ (x : NodeRegistry W). resolve x (text (codes "common.guardrail"))) registered
      ∙ resolve-guardrail in
    let handler : m.handler ≡ guardrail_registration.handler =
      cc (sym m.bound ∙ rw named at bound.handled)
      ∙ ap (λ (x : NodeHandlerRegistration W). x.handler) (ok_inj resolves) in
    let answered : guardrail_handler m.invocation ≡ returned m.result =
      sym (ap (λ (h : NodeHandler W). (h before.world m.invocation).0) handler) ∙ m.handled in
    let digest = answers_passed _ _ m.result m.port answered m.given apart in
    (
      m.invocation.context,
      invocation_of-context s m.node before.state m.invocation m.invoked,
      digest,
    )

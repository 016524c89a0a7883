-- ===== src/Scenarios/Common.antt =====
-- A profile of the common nodes, its graph by the common registry, and a run past its guardrail.
use urizo_final_orchestrator.Base.{
  true, Str, codes, ◌≡◌, ◌≢◌, refl, sym, ap, ◌∙◌, some, [], ◌∷◌, ok, eq, mem, add, nodup, nodup_by,
  subset, same_set, mem_by, add_by, subset_by, get, put, eq_pair, eq_route,
}
use urizo_final_orchestrator.Json.{bool, int, text, dict, Fields, end, field, lookup, is_true}
use urizo_final_orchestrator.Snapshot.{SnapshotNode, VersionedSnapshot}
use urizo_final_orchestrator.Snapshot.Graph.{
  targets, reach_loop, edge_count, reachable_nodes, count_of, increment, decrement, increment_all,
  zero_counters, indegrees, sources, relax, kahn_loop, contains_cycle,
}
use urizo_final_orchestrator.Snapshot.Validate.{
  start_type, end_type, guardrail_type, of_type, ids, find_node, single, all_locked, declared_ports,
  declared_routes, empty_adjacency, add_target, add_edges, adjacency_without, has_port, is_some,
  check_edge, scan_edge, scan_edges, found, remove_all, without_nodes, check_limit, check_limits,
  check_nodes, check_shape, check_graph, validate_snapshot,
}
use urizo_final_orchestrator.Snapshot.Valid.{valid}
use urizo_final_orchestrator.Snapshot.Accepted.{IsAccepted}
use urizo_final_orchestrator.Snapshot.Freeze.{
  contains_surrogate, any_surrogate, thaw_object, thaw_json, thaw_items,
}
use urizo_final_orchestrator.Snapshot.Checks.{
  is_name_character, all_of, starts, is_identifier, is_handler_from, is_handler_key,
}
use urizo_final_orchestrator.Contracts.{is_hex, uuid_at, uuid_from}
use urizo_final_orchestrator.Contracts.Checks.{drop_prefix, is_hex_digits, is_sha256_digest}
use urizo_final_orchestrator.Node.Freeze.{
  within, freeze_value, freeze_values, freeze_entries, freeze_members, freeze_context,
}
use urizo_final_orchestrator.Node.Create.{
  positive_integer, matched, uuid_of, optional_uuid, create, check_port, given_updates,
  create_result,
}
use urizo_final_orchestrator.Node.Registry.{reraised, key_of, Registration, registered, resolve}
use urizo_final_orchestrator.Node.{NodeRegistry}
use urizo_final_orchestrator.Builder.{to_end, edge_to, by_port, Graph}
use urizo_final_orchestrator.Builder.Compile.{
  target_of, route_key, limit_of, is_empty, found_key, check_verdict, resolved, legacy_or_own,
  expected_ports, bind_node, bind_nodes, next_of, is_target, validate_common_failure_routes,
  port_targets, exit_by, exit_of, exits_of, compile,
}
use urizo_final_orchestrator.Builder.Action.{
  put_field, update, next_node_sequence, required, or_none, or_empty, in_context, invocation_of,
  within_limit, checked_count, counts_of, loop_counts, or_zero, count_limited, route_target,
  count_route, check_result_port, validate_result, failing, handle_and_validate, count_fields,
  port_value, updates_of, closing_report, opening_report, updating, act, prepare, act_prepared,
  node_action, text_in, is_source, declared, port_router, context_key,
}
use urizo_final_orchestrator.Builder.Run.{
  next_node, moved, after_action, act_at, Cursor, Stepped, goes, super_step, at_entry,
}
use urizo_final_orchestrator.Builder.Bounded.{Reached, IsStarted}
use urizo_final_orchestrator.CommonHandlers.{
  is_digest, no_config, equals_true, is_locked_config, failure_unless, empty_config_failure,
  guardrail_config_failure, returning, require_valid_config, start_handler, port_by,
  guardrail_handler, check_handler, end_handler, pure, common,
}
use urizo_final_orchestrator.CommonHandlers.Registry.{
  entry_of, common_registrations, common_registry,
}
use urizo_final_orchestrator.CommonHandlers.Passing.{guardrail_passes}
use urizo_final_orchestrator.Scenarios.Profile.{profile, edge, end_node}

abbrev passed : Str
passed = codes "passed"

abbrev failed : Str
failed = codes "failed"

abbrev guard_node : SnapshotNode
guard_node = record {
  node_id = codes "guard";
  node_type = guardrail_type;
  handler_key = codes "common.guardrail";
  result_ports = passed ∷ failed ∷ [];
  config = field (codes "locked") (bool true) end;
}

abbrev common_profile : VersionedSnapshot
common_profile = record profile {
  nodes =
      record guard_node {
        node_id = codes "begin";
        node_type = start_type;
        handler_key = codes "common.start";
        result_ports = codes "next" ∷ [];
        config = end;
      }
      ∷ guard_node
      ∷ record guard_node {
        node_id = codes "look";
        node_type = codes "check";
        handler_key = codes "common.check";
        config = end;
      }
      ∷ record end_node { handler_key = codes "common.end" }
      ∷ [];
  edges =
      edge (codes "begin") (codes "next") (codes "guard")
      ∷ edge (codes "guard") passed (codes "look")
      ∷ edge (codes "guard") failed (codes "finish")
      ∷ edge (codes "look") passed (codes "finish")
      ∷ edge (codes "look") failed (codes "finish")
      ∷ [];
  config = record { max_nodes = 8; max_attempts = 3; loop_limits = [] };
  model_bindings = [];
}

common_profile-IsAccepted : IsAccepted common_profile
unfolding validate_snapshot check_shape check_nodes check_graph check_limits check_limit
    without_nodes remove_all found scan_edges scan_edge check_edge is_some has_port
    adjacency_without add_edges add_target empty_adjacency declared_routes declared_ports all_locked
    single find_node ids of_type reachable_nodes contains_cycle kahn_loop relax sources indegrees
    zero_counters increment_all decrement increment count_of edge_count reach_loop targets mem add
    nodup nodup_by subset same_set mem_by add_by subset_by eq_pair eq_route eq get put is_true
    lookup is_identifier starts all_of is_name_character
common_profile-IsAccepted = record {
  valid = refl;
  keyed = refl;
  typed = (refl, (refl, (refl, (refl, tt))));
  three_attempts = refl;
  positive = tt;
  distinct_limits = refl;
  identified = ((refl, refl), ((refl, refl), ((refl, refl), ((refl, refl), ((refl, refl), tt)))));
  identified_limits = tt;
}

abbrev common_graph : Graph (Unit {0})
common_graph = record {
  snapshot = common_profile;
  entry = codes "begin";
  handlers =
      (codes "begin", pure start_handler)
      ∷ (codes "guard", pure guardrail_handler)
      ∷ (codes "look", pure check_handler)
      ∷ (codes "finish", pure end_handler)
      ∷ [];
  exits =
      (codes "begin", edge_to (codes "guard"))
      ∷ (
        codes "guard",
        by_port (codes "guard") ((failed, codes "finish") ∷ (passed, codes "look") ∷ []),
      )
      ∷ (
        codes "look",
        by_port (codes "look") ((failed, codes "finish") ∷ (passed, codes "finish") ∷ []),
      )
      ∷ (codes "finish", to_end)
      ∷ [];
}

common_compiled : compile (common_registrations Unit) common_profile ≡ ok common_graph
unfolding compile exits_of exit_of exit_by port_targets validate_common_failure_routes is_target
    next_of bind_nodes bind_node expected_ports legacy_or_own resolved check_verdict found_key
    is_empty target_of resolve registered key_of reraised matched is_handler_key is_handler_from
    is_name_character contains_surrogate of_type thaw_object thaw_json mem same_set subset get put
    eq eq_pair empty_config_failure guardrail_config_failure failure_unless no_config
    is_locked_config equals_true
common_compiled = refl

abbrev job_id : Str
job_id = codes "3f2504e0-4f89-41d3-9a0c-0305e82c3302"

abbrev digest : Str
digest = codes "sha256:0123456789abcdef0123456789abcdef0123456789abcdef0123456789abcdef"

abbrev state : Fields
state = field (codes "jobId") (text job_id) (
    field (codes "profileVersionId") (text profile.profile_version_id) (
      field (codes "pipelineAttempt") (int 1) (
        field (codes "executionAttempt") (int 1) (
          field (codes "stateVersion") (int 1) (
            field (codes "traceId") (text job_id)
              (field context_key (dict (field (codes "policyHash") (text digest) end)) end))))))

abbrev first : Cursor (Unit {0})
first = at_entry common_graph state tt

first-IsStarted : IsStarted common_profile first
unfolding loop_counts next_node_sequence ids mem lookup eq
first-IsStarted = record { at_node = refl; counts = []; read = refl; number = 1; numbered = refl }

abbrev cursor_of : Cursor (Unit {0}) → Stepped (Unit {0}) → Cursor (Unit {0})
cursor_of c (goes next) = next
cursor_of c _ = c

abbrev at_guard : Cursor (Unit {0})
at_guard = cursor_of first (super_step common_graph first)

abbrev at_look : Cursor (Unit {0})
at_look = cursor_of at_guard (super_step common_graph at_guard)

steps :
    (super_step common_graph first ≡ goes at_guard)
    × (super_step common_graph at_guard ≡ goes at_look)
    × (at_look.at ≡ codes "look")
    × (at_guard.at ≡ codes "guard")
unfolding super_step act_at after_action moved next_node port_router declared is_source text_in
    node_action act_prepared act prepare updating closing_report opening_report updates_of
    port_value count_fields handle_and_validate failing validate_result check_result_port
    count_route route_target count_limited or_zero loop_counts counts_of checked_count within_limit
    invocation_of in_context or_empty or_none required next_node_sequence update put_field create
    optional_uuid uuid_of matched positive_integer freeze_context freeze_members freeze_entries
    freeze_values freeze_value within is_identifier starts all_of is_name_character
    contains_surrogate any_surrogate uuid_from uuid_at is_hex thaw_object thaw_items thaw_json
    target_of route_key limit_of find_node lookup mem get put eq eq_pair is_digest is_sha256_digest
    is_hex_digits drop_prefix no_config equals_true is_locked_config failure_unless
    empty_config_failure guardrail_config_failure returning require_valid_config start_handler
    port_by guardrail_handler check_port given_updates create_result
steps = (refl, refl, refl, refl)

guard_found : find_node at_guard.at common_profile.nodes ≡ some guard_node
unfolding find_node eq
guard_found = rw (steps.3) refl

abbrev last_node : SnapshotNode
last_node = record end_node { handler_key = codes "common.end" }

ends_once : of_type end_type common_profile.nodes ≡ last_node ∷ []
unfolding of_type eq
ends_once = refl

end_is_finish : (valid common_profile common_profile-IsAccepted.valid).end.node_id ≡ codes "finish"
end_is_finish =
    let v = valid common_profile common_profile-IsAccepted.valid in
    let one : v.end ≡ last_node = cc (sym v.ends ∙ ends_once) in
    ap (λ (n : SnapshotNode). n.node_id) one

look_is_inner : at_look.at ≢ (valid common_profile common_profile-IsAccepted.valid).end.node_id
look_is_inner e = let same : codes "look" ≡ codes "finish" = sym steps.2 ∙ e ∙ end_is_finish in cc

guardrail_passes_example :
    (context : Fields) × (freeze_context (or_empty (lookup context_key at_guard.state))
      ≡ ok context)
    × (is_digest (lookup (codes "policyHash") (thaw_object context)) ≡ true)
guardrail_passes_example =
    guardrail_passes (common_registrations Unit) common_profile common_graph first at_guard at_look
      guard_node (common_registry Unit) common_profile-IsAccepted common_compiled first-IsStarted
      (Reached.moves at_guard Reached.begins steps.0) guard_found refl steps.1 look_is_inner

abbrev start_registration : Registration (Unit {0})
start_registration =
    common (codes "common.start") (codes "start") (codes "next" ∷ []) start_handler
      (empty_config_failure (codes "no config"))

abbrev one_registered : NodeRegistry (Unit {0})
one_registered =
    (
      codes "common.start",
      entry_of (codes "common.start") (codes "start") (codes "next" ∷ []) start_handler
          (empty_config_failure (codes "no config")),
    )
    ∷ []

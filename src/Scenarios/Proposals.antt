-- ===== src/Scenarios/Proposals.antt =====
-- The proposals of both profiles pass the checks of snapshot.py, and the limits of their runs.
use urizo_final_orchestrator.Base.{
  ◌≡◌, refl, ℕ, err, ok, mem, add, nodup, subset, same_set, mem_by, add_by, nodup_by, subset_by,
  eq_pair, eq_route, eq, get, put,
}
use urizo_final_orchestrator.Json.{lookup, is_true}
use urizo_final_orchestrator.Contracts.{is_hex, uuid_at, uuid_from}
use urizo_final_orchestrator.Snapshot.Graph.{
  targets, reach_loop, edge_count, reachable_nodes, count_of, increment, decrement, increment_all,
  zero_counters, indegrees, sources, relax, kahn_loop, contains_cycle,
}
use urizo_final_orchestrator.Snapshot.Validate.{
  of_type, ids, find_node, single, all_locked, declared_ports, declared_routes, empty_adjacency,
  add_target, add_edges, adjacency_without, has_port, is_some, check_edge, scan_edge, scan_edges,
  found, remove_all, without_nodes, check_limit, check_limits, check_nodes, check_shape,
  check_graph, validate_snapshot,
}
use urizo_final_orchestrator.Snapshot.Freeze.{
  contains_surrogate, any_surrogate, intersects, reject_surrogate_keys,
  reject_execution_context_fields, check_keys, within_depth, freeze_json, freeze_items,
  freeze_fields, freeze_mapping,
}
use urizo_final_orchestrator.Snapshot.Checks.{
  is_name_character, is_key_character, is_guardrail_character, all_of, starts, is_identifier,
  is_profile_key, is_guardrail_profile_key, is_handler_from, is_handler_key, object_of, present,
  exact_names, matched, positive_integer, uuid_of, items_of, some_items, nonempty_items_of,
  parse_all, frozen_of, freeze_object,
}
use urizo_final_orchestrator.Snapshot.Parse.{
  matched_entry, parse_parts, parse_node, parse_edge, parse_loop_limit, parse_config,
  freeze_entries, freeze_bindings, freeze_tool_bindings, expected_fields, is_contract_version,
  validated, parse_snapshot,
}
use urizo_final_orchestrator.Snapshot.{VersionedSnapshot}
use urizo_final_orchestrator.Snapshot.Checks.{Parsed}
use urizo_final_orchestrator.Runner.Limit.{total_iterations, recursion_limit}
use urizo_final_orchestrator.Defaults.Coding.{default_coding_snapshot}
use urizo_final_orchestrator.Defaults.NaturalCms.{default_natural_cms_snapshot}

-- The recursion limit of a run, where the snapshot is accepted.
abbrev limit_of_parsed : Parsed VersionedSnapshot → ℕ
limit_of_parsed (err e) = 0
limit_of_parsed (ok s) = recursion_limit s

coding_accepted : limit_of_parsed (parse_snapshot default_coding_snapshot) ≡ 120
unfolding parse_snapshot parse_parts validated is_contract_version expected_fields
    freeze_tool_bindings freeze_bindings freeze_entries parse_config parse_loop_limit parse_edge
    parse_node matched_entry freeze_object frozen_of parse_all nonempty_items_of some_items items_of
    uuid_of positive_integer matched exact_names present object_of is_handler_key is_handler_from
    is_guardrail_profile_key is_profile_key is_identifier starts all_of is_guardrail_character
    is_key_character is_name_character freeze_mapping freeze_json freeze_fields freeze_items
    within_depth check_keys reject_execution_context_fields reject_surrogate_keys intersects
    any_surrogate contains_surrogate uuid_from uuid_at is_hex validate_snapshot check_shape
    check_nodes check_graph check_limits check_limit without_nodes remove_all found scan_edges
    scan_edge check_edge is_some has_port adjacency_without add_edges add_target empty_adjacency
    declared_routes declared_ports all_locked single find_node ids of_type reachable_nodes
    contains_cycle kahn_loop relax sources indegrees zero_counters increment_all decrement increment
    count_of edge_count reach_loop targets mem add nodup subset same_set mem_by add_by nodup_by
    subset_by eq_pair eq_route eq get put is_true lookup recursion_limit total_iterations
coding_accepted = refl

natural_cms_accepted : limit_of_parsed (parse_snapshot default_natural_cms_snapshot) ≡ 25
unfolding parse_snapshot parse_parts validated is_contract_version expected_fields
    freeze_tool_bindings freeze_bindings freeze_entries parse_config parse_loop_limit parse_edge
    parse_node matched_entry freeze_object frozen_of parse_all nonempty_items_of some_items items_of
    uuid_of positive_integer matched exact_names present object_of is_handler_key is_handler_from
    is_guardrail_profile_key is_profile_key is_identifier starts all_of is_guardrail_character
    is_key_character is_name_character freeze_mapping freeze_json freeze_fields freeze_items
    within_depth check_keys reject_execution_context_fields reject_surrogate_keys intersects
    any_surrogate contains_surrogate uuid_from uuid_at is_hex validate_snapshot check_shape
    check_nodes check_graph check_limits check_limit without_nodes remove_all found scan_edges
    scan_edge check_edge is_some has_port adjacency_without add_edges add_target empty_adjacency
    declared_routes declared_ports all_locked single find_node ids of_type reachable_nodes
    contains_cycle kahn_loop relax sources indegrees zero_counters increment_all decrement increment
    count_of edge_count reach_loop targets mem add nodup subset same_set mem_by add_by nodup_by
    subset_by eq_pair eq_route eq get put is_true lookup recursion_limit total_iterations
natural_cms_accepted = refl

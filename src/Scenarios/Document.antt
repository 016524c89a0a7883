-- ===== src/Scenarios/Document.antt =====
-- The profile's document, as json.loads builds it, and uses of the theorems on parsing and freezing.
use urizo_final_orchestrator.Base.{
  ◌≤◌, Str, codes, ◌≡◌, refl, ◌↔◌, true, List, [], ◌∷◌, ok, mem, add, nodup, subset, same_set,
  mem_by, add_by, nodup_by, subset_by, eq_pair, eq_route, eq, get, put,
}
use urizo_final_orchestrator.Json.{
  Value, null, bool, int, text, list, dict, Items, nil, cons, Fields, end, field, lookup, is_true,
}
use urizo_final_orchestrator.Contracts.{is_hex, uuid_at, uuid_from}
use urizo_final_orchestrator.Snapshot.Graph.{
  targets, reach_loop, edge_count, reachable_nodes, count_of, increment, decrement, increment_all,
  zero_counters, indegrees, sources, relax, kahn_loop, contains_cycle,
}
use urizo_final_orchestrator.Snapshot.Validate.{
  of_type, ids, find_node, single, all_locked, declared_ports, declared_routes, empty_adjacency,
  add_target, add_edges, adjacency_without, has_port, is_some, check_edge, scan_edge, scan_edges,
  found, remove_all, without_nodes, check_limit, check_limits, check_nodes, check_shape,
  check_graph, validate_snapshot,
}
use urizo_final_orchestrator.Snapshot.Freeze.{
  contains_surrogate, any_surrogate, intersects, reject_surrogate_keys,
  reject_execution_context_fields, check_keys, within_depth, freeze_json, freeze_items,
  freeze_fields, freeze_mapping, thaw_object,
}
use urizo_final_orchestrator.Snapshot.Safe.{plain_fields, thaw_object-freeze_mapping}
use urizo_final_orchestrator.Snapshot.Shape.{HaveJson, fields_height}
use urizo_final_orchestrator.Snapshot.Nested.{freeze_mapping_iff}
use urizo_final_orchestrator.Snapshot.Checks.{
  is_name_character, is_key_character, is_guardrail_character, all_of, starts, is_identifier,
  is_profile_key, is_guardrail_profile_key, is_handler_from, is_handler_key, object_of, present,
  exact_names, matched, positive_integer, uuid_of, items_of, some_items, nonempty_items_of,
  parse_all, frozen_of, freeze_object,
}
use urizo_final_orchestrator.Snapshot.Parse.{
  matched_entry, parse_parts, parse_node, parse_edge, parse_loop_limit, parse_config,
  freeze_entries, freeze_bindings, freeze_tool_bindings, expected_fields, is_contract_version,
  validated, parse_snapshot,
}
use urizo_final_orchestrator.Snapshot.Accepted.{IsAccepted, parse_snapshot-IsAccepted}
use urizo_final_orchestrator.Node.Freeze.{freeze_context}
use urizo_final_orchestrator.Node.Refreeze.{freeze_context-thaw_object}
use urizo_final_orchestrator.Scenarios.Profile.{profile, again, ok_port}

abbrev pub items : List Value → Items
items [] = nil
items (v ∷ vs) = cons v (items vs)

abbrev pub fields : List (Str × Value) → Fields
fields [] = end
fields ((k, v) ∷ fs) = field k v (fields fs)

abbrev node : Str → Str → List Value → Fields → Value
node a t ports config = dict (
    fields (
      (codes "id", text a)
      ∷ (codes "type", text t)
      ∷ (codes "handlerKey", text t)
      ∷ (codes "resultPorts", list (items ports))
      ∷ (codes "config", dict config)
      ∷ []))

abbrev edge : Str → Str → Str → Value
edge a p b =
    dict
      (fields ((codes "from", text a) ∷ (codes "resultPort", text p) ∷ (codes "to", text b) ∷ []))

abbrev limit : Value
limit = dict (
    fields (
      (codes "from", text (codes "agent"))
      ∷ (codes "resultPort", text again)
      ∷ (codes "to", text (codes "guard"))
      ∷ (codes "maxIterations", int 2)
      ∷ []))

abbrev pub document : Value
document = dict (
    fields (
      (codes "contractVersion", text (codes "1.0"))
      ∷ (codes "profileVersionId", text (codes "3f2504e0-4f89-41d3-9a0c-0305e82c3301"))
      ∷ (codes "profileKey", text (codes "LLM_OPS"))
      ∷ (codes "profileVersion", int 1)
      ∷ (
        codes "nodes",
        list (
            items (
              node (codes "begin") (codes "start") (text ok_port ∷ []) end
              ∷ node (codes "guard") (codes "guardrail") (text ok_port ∷ [])
                  (field (codes "locked") (bool true) end)
              ∷ node (codes "agent") (codes "agent") (text ok_port ∷ text again ∷ []) end
              ∷ node (codes "finish") (codes "end") [] end
              ∷ [])),
      )
      ∷ (
        codes "edges",
        list (
            items (
              edge (codes "begin") ok_port (codes "guard")
              ∷ edge (codes "guard") ok_port (codes "agent")
              ∷ edge (codes "agent") again (codes "guard")
              ∷ edge (codes "agent") ok_port (codes "finish")
              ∷ [])),
      )
      ∷ (
        codes "config",
        dict (
            fields (
              (codes "maxNodes", int 8)
              ∷ (codes "maxAttempts", int 3)
              ∷ (codes "loopLimits", list (items (limit ∷ [])))
              ∷ [])),
      )
      ∷ (codes "modelBindings", dict (fields ((codes "agent", dict end) ∷ [])))
      ∷ (codes "toolPolicy", dict end)
      ∷ (codes "guardrailProfileKey", text (codes "g"))
      ∷ []))

pub document_parsed : parse_snapshot document ≡ ok profile
unfolding parse_snapshot parse_parts validated is_contract_version expected_fields
    freeze_tool_bindings freeze_bindings freeze_entries parse_config parse_loop_limit parse_edge
    parse_node matched_entry freeze_object frozen_of parse_all nonempty_items_of some_items items_of
    uuid_of positive_integer matched exact_names present object_of is_handler_key is_handler_from
    is_guardrail_profile_key is_profile_key is_identifier starts all_of is_guardrail_character
    is_key_character is_name_character freeze_mapping freeze_json freeze_fields freeze_items
    within_depth check_keys reject_execution_context_fields reject_surrogate_keys intersects
    any_surrogate contains_surrogate uuid_from uuid_at is_hex validate_snapshot check_shape
    check_nodes check_graph check_limits check_limit without_nodes remove_all found scan_edges
    scan_edge check_edge is_some has_port adjacency_without add_edges add_target empty_adjacency
    declared_routes declared_ports all_locked single find_node ids of_type reachable_nodes
    contains_cycle kahn_loop relax sources indegrees zero_counters increment_all decrement increment
    count_of edge_count reach_loop targets mem add nodup subset same_set mem_by add_by nodup_by
    subset_by eq_pair eq_route eq get put is_true lookup
document_parsed = refl

parse_snapshot-IsAccepted_example : IsAccepted profile
parse_snapshot-IsAccepted_example = parse_snapshot-IsAccepted document profile document_parsed

-- A configuration with a list in it.
abbrev settings : Fields
settings = fields ((codes "tags", list (items (text (codes "a") ∷ null ∷ []))) ∷ [])

abbrev frozen : Fields
frozen = field (codes "tags") (Value.tuple (items (text (codes "a") ∷ null ∷ []))) end

settings-frozen : freeze_mapping settings ≡ ok frozen
unfolding freeze_mapping freeze_json freeze_fields freeze_items within_depth check_keys
    reject_execution_context_fields reject_surrogate_keys intersects any_surrogate
    contains_surrogate mem eq
settings-frozen = refl

thaw_object-freeze_mapping_example : thaw_object frozen ≡ plain_fields settings
thaw_object-freeze_mapping_example = thaw_object-freeze_mapping settings frozen settings-frozen

freeze_mapping_iff_example :
    ((fs : Fields) × (freeze_mapping settings ≡ ok fs))
    ↔ (HaveJson settings × (fields_height settings ≤ 65))
freeze_mapping_iff_example = freeze_mapping_iff settings

freeze_context-thaw_object_example : freeze_context (dict (thaw_object frozen)) ≡ ok frozen
freeze_context-thaw_object_example = freeze_context-thaw_object settings frozen settings-frozen

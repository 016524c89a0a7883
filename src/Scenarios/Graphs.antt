-- ===== src/Scenarios/Graphs.antt =====
-- The profile's graph with handlers that count in the world outside, and a run that goes round its loop.
use urizo_final_orchestrator.Base.{
  ℕ, zero, suc, Str, codes, ◌≡◌, ◌≢◌, refl, Option, none, some, List, [], ◌∷◌, length, ok, err, eq,
  mem, subset, same_set, get, put, eq_pair,
}
use urizo_final_orchestrator.Json.{int, text, Fields, end, field, lookup}
use urizo_final_orchestrator.Snapshot.{SnapshotNode}
use urizo_final_orchestrator.Snapshot.Valid.{valid}
use urizo_final_orchestrator.Snapshot.Accepted.{IsAccepted, parse_snapshot-IsAccepted}
use urizo_final_orchestrator.Snapshot.Validate.{
  start_type, end_type, guardrail_type, agent_type, of_type, ids, find_node,
}
use urizo_final_orchestrator.Snapshot.Freeze.{
  contains_surrogate, any_surrogate, thaw_object, thaw_json, thaw_items,
}
use urizo_final_orchestrator.Snapshot.Checks.{
  is_name_character, all_of, starts, is_identifier, is_handler_from, is_handler_key,
}
use urizo_final_orchestrator.Contracts.{is_hex, uuid_at, uuid_from}
use urizo_final_orchestrator.Runner.Limit.{total_iterations, recursion_limit}
use urizo_final_orchestrator.Node.{
  NodeHandler, NodeHandlerRegistration, NodeRegistry, Handled, returned, interrupts,
}
use urizo_final_orchestrator.Node.Freeze.{
  within, freeze_value, freeze_values, freeze_entries, freeze_members, freeze_context,
}
use urizo_final_orchestrator.Node.Create.{positive_integer, matched, uuid_of, optional_uuid, create}
use urizo_final_orchestrator.Node.Registry.{
  accept_any_config, reraised, key_of, registered, resolve,
}
use urizo_final_orchestrator.Builder.{to_end, edge_to, by_port, Graph, interrupted, Report}
use urizo_final_orchestrator.Builder.Compile.{
  target_of, route_key, limit_of, is_empty, found_key, check_verdict, resolved, legacy_or_own,
  expected_ports, bind_node, bind_nodes, next_of, is_target, validate_common_failure_routes,
  port_targets, exit_by, exit_of, exits_of, compile,
}
use urizo_final_orchestrator.Builder.Action.{
  put_field, update, next_node_sequence, required, or_none, or_empty, in_context, invocation_of,
  within_limit, checked_count, counts_of, loop_counts, or_zero, count_limited, route_target,
  count_route, check_result_port, validate_result, failing, handle_and_validate, count_fields,
  port_value, updates_of, closing_report, opening_report, updating, act, prepare, act_prepared,
  node_action, text_in, is_source, declared, port_router,
}
use urizo_final_orchestrator.Builder.Run.{
  next_node, moved, after_action, act_at, Cursor, Stepped, goes, super_step, Ending, finished,
  stopped, recursion_error, run_graph, at_entry,
}
use urizo_final_orchestrator.Builder.Compiled.{Bound}
use urizo_final_orchestrator.Builder.Bounded.{Reached, IsStarted, Follows}
use urizo_final_orchestrator.Builder.Correct.{
  run_graph-ne-recursion_error, FinishedRun, run_graph-finished, run_graph-stopped, Reached-Follows,
}
use urizo_final_orchestrator.Scenarios.Profile.{profile, again, ok_port}
use urizo_final_orchestrator.Scenarios.Document.{document, document_parsed}

abbrev answer : Option Str → Handled
answer port = returned (record { port = port; updates = end })

-- The agent asks for another round while the world holds any.
abbrev agent_handler : NodeHandler ℕ
agent_handler zero i = (answer (some ok_port), zero)
agent_handler (suc n) i = (answer (some again), n)

abbrev entry_of : Str → Str → List Str → NodeHandler ℕ → Str × NodeHandlerRegistration ℕ
entry_of key kind ports handler = (
  key,
  record {
    handler_key = key;
    node_types = kind ∷ [];
    result_ports = ports;
    legacy_result_ports = none;
    handler = handler;
    config_validator = accept_any_config;
  },
)

abbrev passing : NodeHandler ℕ
passing w i = (answer (some ok_port), w)

abbrev ending : NodeHandler ℕ
ending w i = (answer none, w)

abbrev registry : (agent : NodeHandler ℕ) → NodeRegistry ℕ
registry agent =
    entry_of (codes "start") start_type (ok_port ∷ []) passing
    ∷ entry_of (codes "guardrail") guardrail_type (ok_port ∷ []) passing
    ∷ entry_of (codes "agent") agent_type (ok_port ∷ again ∷ []) agent
    ∷ entry_of (codes "end") end_type [] ending
    ∷ []

abbrev graph : (agent : NodeHandler ℕ) → Graph ℕ
graph agent = record {
  snapshot = profile;
  entry = codes "begin";
  handlers =
      (codes "begin", passing)
      ∷ (codes "guard", passing)
      ∷ (codes "agent", agent)
      ∷ (codes "finish", ending)
      ∷ [];
  exits =
      (codes "begin", edge_to (codes "guard"))
      ∷ (codes "guard", edge_to (codes "agent"))
      ∷ (
        codes "agent",
        by_port (codes "agent") ((again, codes "guard") ∷ (ok_port, codes "finish") ∷ []),
      )
      ∷ (codes "finish", to_end)
      ∷ [];
}

graph_compiled : (agent : NodeHandler ℕ) → compile (registry agent) profile ≡ ok (graph agent)
unfolding compile exits_of exit_of exit_by port_targets validate_common_failure_routes is_target
    next_of bind_nodes bind_node expected_ports legacy_or_own resolved check_verdict found_key
    is_empty target_of resolve registered key_of reraised matched is_handler_key is_handler_from
    is_name_character contains_surrogate of_type thaw_object thaw_json mem same_set subset get put
    eq eq_pair
graph_compiled agent = refl

profile-IsAccepted : IsAccepted profile
profile-IsAccepted = parse_snapshot-IsAccepted document profile document_parsed

abbrev job_id : Str
job_id = codes "3f2504e0-4f89-41d3-9a0c-0305e82c3302"

abbrev state : Fields
state = field (codes "jobId") (text job_id) (
    field (codes "profileVersionId") (text profile.profile_version_id) (
      field (codes "pipelineAttempt") (int 1) (
        field (codes "executionAttempt") (int 1)
          (field (codes "stateVersion") (int 1) (field (codes "traceId") (text job_id) end)))))

abbrev first : (agent : NodeHandler ℕ) → Cursor ℕ
first agent = at_entry (graph agent) state 2

first-IsStarted : (agent : NodeHandler ℕ) → IsStarted profile (first agent)
unfolding loop_counts next_node_sequence ids mem lookup eq
first-IsStarted agent = record {
  at_node = refl;
  counts = [];
  read = refl;
  number = 1;
  numbered = refl;
}

run_graph-ne-recursion_error_example :
    run_graph (recursion_limit profile) (graph agent_handler) (first agent_handler)
    ≢ recursion_error
run_graph-ne-recursion_error_example =
    run_graph-ne-recursion_error (registry agent_handler) profile (graph agent_handler)
      (first agent_handler) profile-IsAccepted (graph_compiled agent_handler)
      (first-IsStarted agent_handler)

abbrev state_of : Ending ℕ → Fields
state_of (finished st w reports) = st
state_of _ = end

abbrev world_of : Ending ℕ → ℕ
world_of (finished st w reports) = w
world_of (stopped stop w reports) = w
world_of _ = 0

abbrev reports_in : Ending ℕ → List Report
reports_in (finished st w reports) = reports
reports_in (stopped stop w reports) = reports
reports_in _ = []

abbrev whole_run : Ending ℕ
whole_run = run_graph (recursion_limit profile) (graph agent_handler) (first agent_handler)

-- The run goes round the loop twice, which its limit allows, and finishes.
ran_whole :
    (whole_run ≡ finished (state_of whole_run) (world_of whole_run) (reports_in whole_run))
    × (length (reports_in whole_run) ≡ 16)
unfolding run_graph super_step act_at after_action moved next_node port_router declared is_source
    text_in node_action act_prepared act prepare updating closing_report opening_report updates_of
    port_value count_fields handle_and_validate failing validate_result check_result_port
    count_route route_target count_limited or_zero loop_counts counts_of checked_count within_limit
    invocation_of in_context or_empty or_none required next_node_sequence update put_field create
    optional_uuid uuid_of matched positive_integer freeze_context freeze_members freeze_entries
    freeze_values freeze_value within is_identifier starts all_of is_name_character
    contains_surrogate any_surrogate uuid_from uuid_at is_hex thaw_object thaw_items thaw_json
    target_of route_key limit_of find_node lookup mem get put eq eq_pair recursion_limit
    total_iterations
ran_whole = (refl, refl)

run_graph-finished_example :
    FinishedRun profile
      (graph agent_handler)
      (first agent_handler)
      (first-IsStarted agent_handler)
      (valid profile profile-IsAccepted.valid).end.node_id
      (state_of whole_run)
      (world_of whole_run)
      (reports_in whole_run)
run_graph-finished_example =
    run_graph-finished (registry agent_handler) profile (graph agent_handler) (first agent_handler)
      (state_of whole_run) (world_of whole_run) (reports_in whole_run) profile-IsAccepted
      (graph_compiled agent_handler) (first-IsStarted agent_handler) refl ran_whole.0

-- An agent that waits for an approval stops the run.
abbrev waiting : NodeHandler ℕ
waiting w i = (interrupts, w)

abbrev waiting_run : Ending ℕ
waiting_run = run_graph (recursion_limit profile) (graph waiting) (first waiting)

ran_waiting : waiting_run ≡ stopped interrupted (world_of waiting_run) (reports_in waiting_run)
unfolding run_graph super_step act_at after_action moved next_node port_router declared is_source
    text_in node_action act_prepared act prepare updating closing_report opening_report updates_of
    port_value count_fields handle_and_validate failing validate_result check_result_port
    count_route route_target count_limited or_zero loop_counts counts_of checked_count within_limit
    invocation_of in_context or_empty or_none required next_node_sequence update put_field create
    optional_uuid uuid_of matched positive_integer freeze_context freeze_members freeze_entries
    freeze_values freeze_value within is_identifier starts all_of is_name_character
    contains_surrogate any_surrogate uuid_from uuid_at is_hex thaw_object thaw_items thaw_json
    target_of route_key limit_of find_node lookup mem get put eq eq_pair recursion_limit
    total_iterations
ran_waiting = refl

run_graph-stopped_example :
    (last : Cursor ℕ) × (n : SnapshotNode) × (handled : Bound
      (registry waiting)
      (graph waiting).handlers
      n)
    × Reached (graph waiting) (first waiting) last
    × (find_node last.at profile.nodes ≡ some n)
    × ((node_action profile n handled.registration.handler last.state last.world).outcome
        ≡ err interrupted)
run_graph-stopped_example =
    run_graph-stopped (registry waiting) profile (graph waiting) (first waiting) interrupted
      (world_of waiting_run) (reports_in waiting_run) profile-IsAccepted (graph_compiled waiting)
      (first-IsStarted waiting) ran_waiting

abbrev cursor_of : Cursor ℕ → Stepped ℕ → Cursor ℕ
cursor_of c (goes next) = next
cursor_of c _ = c

abbrev after_begin : Cursor ℕ
after_begin =
    cursor_of (first agent_handler) (super_step (graph agent_handler) (first agent_handler))

begin_goes : super_step (graph agent_handler) (first agent_handler) ≡ goes after_begin
unfolding run_graph super_step act_at after_action moved next_node port_router declared is_source
    text_in node_action act_prepared act prepare updating closing_report opening_report updates_of
    port_value count_fields handle_and_validate failing validate_result check_result_port
    count_route route_target count_limited or_zero loop_counts counts_of checked_count within_limit
    invocation_of in_context or_empty or_none required next_node_sequence update put_field create
    optional_uuid uuid_of matched positive_integer freeze_context freeze_members freeze_entries
    freeze_values freeze_value within is_identifier starts all_of is_name_character
    contains_surrogate any_surrogate uuid_from uuid_at is_hex thaw_object thaw_items thaw_json
    target_of route_key limit_of find_node lookup mem get put eq eq_pair recursion_limit
    total_iterations
begin_goes = refl

Reached-Follows_example :
    Follows profile (first agent_handler) (first-IsStarted agent_handler) after_begin
Reached-Follows_example =
    Reached-Follows (registry agent_handler) profile (graph agent_handler) (first agent_handler)
      after_begin profile-IsAccepted (graph_compiled agent_handler) (first-IsStarted agent_handler)
      (Reached.moves after_begin Reached.begins begin_goes)

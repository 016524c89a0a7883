-- ===== src/Scenarios/Profile.antt =====
-- A profile whose agent may send its work back to the guardrail twice.
use mathlib.Core.List.{Memᴰ}
use urizo_final_orchestrator.Base.{
  ℕ, ◌<◌, true, false, Str, codes, ◌≡◌, ◌≢◌, refl, ◌↔◌, none, some, List, [], ◌∷◌, ok, err, Route,
  mem, length, eq, put, get, add, nodup, subset, same_set, mem_by, add_by, nodup_by, subset_by,
  eq_pair, eq_route, arith,
}
use urizo_final_orchestrator.Json.{end, field, bool, lookup, is_true}
use urizo_final_orchestrator.Snapshot.{
  SnapshotNode, SnapshotEdge, VersionedSnapshot, guardrail_bypass, out_of_fuel,
}
use urizo_final_orchestrator.Snapshot.Graph.{
  Adjacency, targets, reach_loop, edge_count, reachable_nodes, count_of, increment, decrement,
  increment_all, zero_counters, indegrees, sources, relax, kahn_loop, contains_cycle,
}
use urizo_final_orchestrator.Snapshot.Validate.{
  start_type, end_type, guardrail_type, agent_type, of_type, ids, find_node, single, all_locked,
  declared_ports, declared_routes, empty_adjacency, add_target, add_edges, adjacency_without,
  has_port, is_some, check_edge, scan_edge, scan_edges, found, remove_all, without_nodes,
  check_limit, check_limits, check_nodes, check_shape, check_graph, validate_snapshot,
}
use urizo_final_orchestrator.Snapshot.Reach.{Walk, reachable_nodes-iff-Walk}
use urizo_final_orchestrator.Snapshot.Trail.{Trail, visited, IsLockedGuardrail}
use urizo_final_orchestrator.Snapshot.Ends.{validate_snapshot-ne-out_of_fuel}
use urizo_final_orchestrator.Snapshot.Guardrail.{guardrail_on_every-Trail}
use urizo_final_orchestrator.Snapshot.Connected.{node_on_Trail}
use urizo_final_orchestrator.Snapshot.Order.Counters.{IsWellFormed}
use urizo_final_orchestrator.Snapshot.Order.Cycle.{IsRanking, contains_cycle_iff}
use urizo_final_orchestrator.Runner.Limit.{KeepsLimits, recursion_limit, run-lt-recursion_limit}

abbrev pub ok_port : Str
ok_port = codes "ok"

abbrev pub again : Str
again = codes "again"

abbrev pub begin_node : SnapshotNode
begin_node = record {
  node_id = codes "begin";
  node_type = start_type;
  handler_key = codes "start";
  result_ports = ok_port ∷ [];
  config = end;
}

abbrev pub guard_node : SnapshotNode
guard_node = record {
  node_id = codes "guard";
  node_type = guardrail_type;
  handler_key = codes "guardrail";
  result_ports = ok_port ∷ [];
  config = field (codes "locked") (bool true) end;
}

abbrev pub agent_node : SnapshotNode
agent_node = record {
  node_id = codes "agent";
  node_type = agent_type;
  handler_key = codes "agent";
  result_ports = ok_port ∷ again ∷ [];
  config = end;
}

abbrev pub end_node : SnapshotNode
end_node = record {
  node_id = codes "finish";
  node_type = end_type;
  handler_key = codes "end";
  result_ports = [];
  config = end;
}

abbrev pub edge : Str → Str → Str → SnapshotEdge
edge a p b = record { source = a; result_port = p; target = b }

abbrev pub profile : VersionedSnapshot
profile = record {
  contract_version = codes "1.0";
  profile_version_id = codes "3f2504e0-4f89-41d3-9a0c-0305e82c3301";
  profile_key = codes "LLM_OPS";
  profile_version = 1;
  nodes = begin_node ∷ guard_node ∷ agent_node ∷ end_node ∷ [];
  edges =
      edge (codes "begin") ok_port (codes "guard")
      ∷ edge (codes "guard") ok_port (codes "agent")
      ∷ edge (codes "agent") again (codes "guard")
      ∷ edge (codes "agent") ok_port (codes "finish")
      ∷ [];
  config = record {
    max_nodes = 8;
    max_attempts = 3;
    loop_limits =
        record {
          source = codes "agent";
          result_port = again;
          target = codes "guard";
          max_iterations = 2;
        }
        ∷ [];
  };
  model_bindings = (codes "agent", end) ∷ [];
  tool_bindings = none;
  tool_policy = end;
  guardrail_profile_key = codes "g";
}

-- With a way round the guardrail the profile is refused.
abbrev bypassed : VersionedSnapshot
bypassed = record profile {
  nodes =
      record begin_node { result_ports = ok_port ∷ again ∷ [] }
      ∷ guard_node
      ∷ agent_node
      ∷ end_node
      ∷ [];
  edges = edge (codes "begin") again (codes "agent") ∷ profile.edges;
}

verdicts : (validate_snapshot profile ≡ ok tt) × (validate_snapshot bypassed ≡ err guardrail_bypass)
unfolding validate_snapshot check_shape check_nodes check_graph check_limits check_limit
    without_nodes remove_all found scan_edges scan_edge check_edge is_some has_port
    adjacency_without add_edges add_target empty_adjacency declared_routes declared_ports all_locked
    single find_node ids of_type reachable_nodes contains_cycle kahn_loop relax sources indegrees
    zero_counters increment_all decrement increment count_of edge_count reach_loop targets mem add
    nodup subset same_set mem_by add_by nodup_by subset_by eq_pair eq_route eq get put is_true
    lookup
verdicts = (refl, refl)

profile_accepted : validate_snapshot profile ≡ ok tt
profile_accepted = verdicts.0

-- A run that takes the way back once.
abbrev taken : List Route
taken =
    (codes "agent", ok_port, codes "finish")
    ∷ (codes "guard", ok_port, codes "agent")
    ∷ (codes "agent", again, codes "guard")
    ∷ (codes "guard", ok_port, codes "agent")
    ∷ (codes "begin", ok_port, codes "guard")
    ∷ []

trail : Trail profile (codes "begin") (codes "finish") taken
unfolding mem_by eq_route eq
trail =
    Trail.follow ok_port (codes "finish")
      (Trail.follow ok_port (codes "agent")
        (Trail.follow again (codes "guard")
          (Trail.follow ok_port (codes "agent")
            (Trail.follow ok_port (codes "guard") Trail.start refl) refl)
          refl)
        refl)
      refl

trail_keeps : KeepsLimits profile.config.loop_limits taken
unfolding eq_route eq
trail_keeps = (omega arith, tt)

begin_listed : mem (codes "begin") (ids profile.nodes) ≡ true
unfolding mem ids eq
begin_listed = refl

guard_listed : mem (codes "guard") (ids profile.nodes) ≡ true
unfolding mem ids eq
guard_listed = refl

guardrail_on_every-Trail_example :
    (g : Str) × (mem g (visited (codes "begin") taken) ≡ true) × IsLockedGuardrail profile g
guardrail_on_every-Trail_example =
    guardrail_on_every-Trail profile begin_node end_node profile_accepted (Memᴰ.head refl) refl
      (Memᴰ.tail (Memᴰ.tail (Memᴰ.tail (Memᴰ.head refl)))) refl trail

node_on_Trail_example :
    ((rs : List Route) × Trail profile (codes "begin") (codes "guard") rs)
    × ((qs : List Route) × Trail profile (codes "guard") (codes "finish") qs)
node_on_Trail_example =
    node_on_Trail profile begin_node end_node (codes "guard") profile_accepted (Memᴰ.head refl) refl
      (Memᴰ.tail (Memᴰ.tail (Memᴰ.tail (Memᴰ.head refl)))) refl guard_listed

run-lt-recursion_limit_example : length (visited (codes "begin") taken) < recursion_limit profile
run-lt-recursion_limit_example =
    run-lt-recursion_limit profile (codes "begin") (codes "finish") profile_accepted begin_listed
      trail trail_keeps

-- Two nodes, one of which leads to the other.
abbrev chain : Adjacency
chain = (codes "a", codes "b" ∷ []) ∷ (codes "b", []) ∷ []

chain-IsWellFormed : IsWellFormed chain
unfolding nodup subset mem eq
chain-IsWellFormed = record { distinct = refl; closed = (refl, refl, (refl, refl, tt)) }

contains_cycle_iff_example :
    (contains_cycle chain ≡ some false) ↔ ((place : Str → ℕ) × IsRanking chain place)
contains_cycle_iff_example = contains_cycle_iff chain chain-IsWellFormed

chain_searched : reachable_nodes (codes "a") chain ≡ some (codes "b" ∷ codes "a" ∷ [])
unfolding reachable_nodes edge_count reach_loop targets mem get eq
chain_searched = refl

reachable_nodes-iff-Walk_example :
    (mem (codes "b") (codes "b" ∷ codes "a" ∷ []) ≡ true) ↔ Walk chain (codes "a") (codes "b")
reachable_nodes-iff-Walk_example =
    reachable_nodes-iff-Walk (codes "a") chain (codes "b" ∷ codes "a" ∷ []) (codes "b")
      chain_searched

validate_snapshot-ne-out_of_fuel_example : validate_snapshot bypassed ≢ err out_of_fuel
validate_snapshot-ne-out_of_fuel_example = validate_snapshot-ne-out_of_fuel bypassed

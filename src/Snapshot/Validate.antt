-- ===== src/Snapshot/Validate.antt =====
-- `validate_snapshot` and `_adjacency_without` of snapshot.py, check by check in the source's order.
use urizo_final_orchestrator.Base.{
  Bool, true, false, not, ◌&&◌, Str, codes, Option, none, some, List, [], ◌∷◌, ◌++◌, map,
  if◌then◌else◌, leb, eq, mem, add, nodup, subset, same_set, keys, length, Result, ok, err, ◌>>=◌,
  ◌>>◌, guard, mem_by, add_by, nodup_by, subset_by, Pair, Route, eq_pair, eq_route,
}
use urizo_final_orchestrator.Json.{lookup, is_true}
use urizo_final_orchestrator.Snapshot.{
  SnapshotNode, SnapshotEdge, SnapshotLoopLimit, VersionedSnapshot, Violation, duplicate_ids,
  duplicate_result_routes, exceeds_max_nodes, not_one_start, not_one_end, end_declares_ports,
  unlocked_guardrail, model_bindings_mismatch, unknown_node, start_has_incoming, end_has_outgoing,
  undeclared_port, ports_without_edge, unreachable_from_start, cannot_reach_end, guardrail_bypass,
  unknown_limited_edge, not_repeating, unbounded_cycle, out_of_fuel,
}
use urizo_final_orchestrator.Snapshot.Graph.{Adjacency, reachable_nodes, contains_cycle}

abbrev pub start_type : Str
start_type = codes "start"

abbrev pub end_type : Str
end_type = codes "end"

abbrev pub guardrail_type : Str
guardrail_type = codes "guardrail"

abbrev pub agent_type : Str
agent_type = codes "agent"

-- `[node for node in snapshot.nodes if node.node_type == t]`
unfoldable pub of_type : Str → List SnapshotNode → List SnapshotNode
of_type t [] = []
of_type t (n ∷ ns) = let rest = of_type t ns in if eq n.node_type t then n ∷ rest else rest

unfoldable pub ids : List SnapshotNode → List Str
ids [] = []
ids (n ∷ ns) = n.node_id ∷ ids ns

-- `nodes.get(id)`, the ids being distinct
unfoldable pub find_node : Str → List SnapshotNode → Option SnapshotNode
find_node a [] = none
find_node a (n ∷ ns) = if eq n.node_id a then some n else find_node a ns

abbrev pub edge_route : SnapshotEdge → Route
edge_route e = (e.source, e.result_port, e.target)

abbrev pub edge_pair : SnapshotEdge → Pair
edge_pair e = (e.source, e.result_port)

-- `SnapshotLoopLimit.route`
abbrev pub route : SnapshotLoopLimit → Route
route l = (l.source, l.result_port, l.target)

unfoldable pub single : List SnapshotNode → Violation → Result Violation SnapshotNode
single (n ∷ []) v = ok n
single _ v = err v

unfoldable pub all_locked : List SnapshotNode → Bool
all_locked [] = true
all_locked (n ∷ ns) = is_true (lookup (codes "locked") n.config) && all_locked ns

unfoldable pub declared_ports : Str → List Str → List Pair
declared_ports a [] = []
declared_ports a (p ∷ ps) = (a, p) ∷ declared_ports a ps

unfoldable pub declared_routes : List SnapshotNode → List Pair
declared_routes [] = []
declared_routes (n ∷ ns) = declared_ports n.node_id n.result_ports ++ declared_routes ns

-- `{node_id: set() for node_id in nodes}`
unfoldable pub empty_adjacency : List SnapshotNode → Adjacency
empty_adjacency [] = []
empty_adjacency (n ∷ ns) = (n.node_id, []) ∷ empty_adjacency ns

-- `adjacency[u].add(v)`, for a key `u`
unfoldable pub add_target : Str → Str → Adjacency → Adjacency
add_target u v [] = []
add_target u v ((k, ts) ∷ adj) =
    if eq k u then (k, add v ts) ∷ adj else (k, ts) ∷ add_target u v adj

unfoldable pub add_edges : List Route → List SnapshotEdge → Adjacency → Adjacency
add_edges excluded [] adj = adj
add_edges excluded (e ∷ es) adj =
    add_edges excluded es
      (if mem_by eq_route (edge_route e) excluded then adj else add_target e.source e.target adj)

-- `_adjacency_without`
unfoldable pub adjacency_without : VersionedSnapshot → List Route → Adjacency
adjacency_without s excluded = add_edges excluded s.edges (empty_adjacency s.nodes)

-- What the loop over the edges collects.
pub record Scan : Type 0 where
  pub edge_routes : List Route
  pub adjacency : Adjacency
  pub reverse_adjacency : Adjacency

unfoldable pub has_port : Str → Option SnapshotNode → Bool
has_port p none = false
has_port p (some n) = mem p n.result_ports

unfoldable pub is_some : Option SnapshotNode → Bool
is_some none = false
is_some (some n) = true

module _ (nodes : List SnapshotNode) (start end : SnapshotNode) where
  unfoldable pub check_edge : SnapshotEdge → Result Violation (Unit {0})
  check_edge e = do
    guard (is_some (find_node e.source nodes) && is_some (find_node e.target nodes)) unknown_node
    guard (not (eq e.target start.node_id)) start_has_incoming
    guard (not (eq e.source end.node_id)) end_has_outgoing
    guard (has_port e.result_port (find_node e.source nodes)) undeclared_port

  unfoldable pub scan_edge : SnapshotEdge → Scan → Scan
  scan_edge e s = record {
    edge_routes = add_by eq_route (edge_route e) s.edge_routes;
    adjacency = add_target e.source e.target s.adjacency;
    reverse_adjacency = add_target e.target e.source s.reverse_adjacency;
  }

  unfoldable pub scan_edges : List SnapshotEdge → Scan → Result Violation Scan
  scan_edges [] s = ok s
  scan_edges (e ∷ es) s = check_edge e >>= λ _. scan_edges es (scan_edge e s)

-- A search's answer; the searches never run out of fuel.
unfoldable pub found {ℓ} : {A : Type ℓ} → Option A → Result Violation A
found none = err out_of_fuel
found (some a) = ok a

-- `without_guardrails`
unfoldable pub remove_all : List Str → List Str → List Str
remove_all gs [] = []
remove_all gs (t ∷ ts) = let rest = remove_all gs ts in if mem t gs then rest else t ∷ rest

unfoldable pub without_nodes : List Str → Adjacency → Adjacency
without_nodes gs [] = []
without_nodes gs ((k, ts) ∷ adj) =
    let rest = without_nodes gs adj in if mem k gs then rest else (k, remove_all gs ts) ∷ rest

unfoldable pub check_limit : VersionedSnapshot → SnapshotLoopLimit → Result Violation (Unit {0})
check_limit s l = if eq l.source l.target then ok tt else do
  back ← found (reachable_nodes l.target (adjacency_without s (route l ∷ [])))
  guard (mem l.source back) not_repeating

unfoldable pub check_limits :
    VersionedSnapshot → List SnapshotLoopLimit → Result Violation (Unit {0})
check_limits s [] = ok tt
check_limits s (l ∷ ls) = check_limit s l >>= λ _. check_limits s ls

-- The checks before the loop over the edges.
unfoldable pub check_nodes : VersionedSnapshot → SnapshotNode → Result Violation (Unit {0})
check_nodes s end = do
  guard (subset end.result_ports []) end_declares_ports
  let guardrails = of_type guardrail_type s.nodes
  guard (leb 1 (length guardrails) && all_locked guardrails) unlocked_guardrail
  guard (same_set (keys s.model_bindings) (ids (of_type agent_type s.nodes)))
      model_bindings_mismatch

unfoldable pub check_shape : VersionedSnapshot → Result Violation (Unit {0})
check_shape s = do
  guard (nodup (ids s.nodes)) duplicate_ids
  guard (nodup_by eq_pair (map edge_pair s.edges)) duplicate_result_routes
  guard (leb (length s.nodes) s.config.max_nodes) exceeds_max_nodes

abbrev pub first_scan : VersionedSnapshot → Scan
first_scan s = record {
  edge_routes = [];
  adjacency = empty_adjacency s.nodes;
  reverse_adjacency = empty_adjacency s.nodes;
}

abbrev pub guardrail_ids : VersionedSnapshot → List Str
guardrail_ids s = ids (of_type guardrail_type s.nodes)

abbrev pub limited_routes : VersionedSnapshot → List Route
limited_routes s = map route s.config.loop_limits

-- The checks after it.
unfoldable pub check_graph :
    VersionedSnapshot → SnapshotNode → SnapshotNode → Scan → Result Violation (Unit {0})
check_graph s start end scan = do
  let routes = map edge_pair s.edges
  let declared = declared_routes s.nodes
  guard (subset_by eq_pair routes declared && subset_by eq_pair declared routes) ports_without_edge
  reachable ← found (reachable_nodes start.node_id scan.adjacency)
  guard (same_set reachable (ids s.nodes)) unreachable_from_start
  can_reach_end ← found (reachable_nodes end.node_id scan.reverse_adjacency)
  guard (same_set can_reach_end (ids s.nodes)) cannot_reach_end
  unguarded ← found (reachable_nodes start.node_id (without_nodes (guardrail_ids s) scan.adjacency))
  guard (not (mem end.node_id unguarded)) guardrail_bypass
  guard (subset_by eq_route (limited_routes s) scan.edge_routes) unknown_limited_edge
  check_limits s s.config.loop_limits
  cyclic ← found (contains_cycle (adjacency_without s (limited_routes s)))
  guard (not cyclic) unbounded_cycle

unfoldable pub validate_snapshot : VersionedSnapshot → Result Violation (Unit {0})
validate_snapshot s = do
  check_shape s
  start ← single (of_type start_type s.nodes) not_one_start
  end ← single (of_type end_type s.nodes) not_one_end
  check_nodes s end
  scan ← scan_edges s.nodes start end s.edges (first_scan s)
  check_graph s start end scan

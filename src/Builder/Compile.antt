-- ===== src/Builder/Compile.antt =====
-- graph_builder.py: `SnapshotGraphBuilder.compile` and `_validate_common_failure_routes`.
use urizo_final_orchestrator.Base.{
  ℕ, Bool, true, false, not, ◌&&◌, Str, codes, eq, Option, none, some, List, [], ◌∷◌, ◌++◌,
  if◌then◌else◌, mem, same_set, Dict, put, Pair, eq_pair, Result, ok, err, ◌>>=◌, ◌>>◌, guard,
}
use urizo_final_orchestrator.Json.{null, text, Fields, end, field}
use urizo_final_orchestrator.Snapshot.{
  SnapshotNode, SnapshotEdge, SnapshotLoopLimit, VersionedSnapshot,
}
use urizo_final_orchestrator.Snapshot.Freeze.{thaw_object}
use urizo_final_orchestrator.Snapshot.Validate.{start_type, end_type, of_type, edge_pair}
use urizo_final_orchestrator.Node.{
  NodeHandler, NodeHandlerRegistration, NodeRegistry, Verdict, verdict, throws,
}
use urizo_final_orchestrator.Node.Registry.{Registering, resolve}
use urizo_final_orchestrator.Builder.{
  BuildError, unregistered, type_mismatch, ports_mismatch, validator_failed, validator_invalid,
  config_refused, failed_not_to_end, key_error, stop_iteration, Exit, to_end, edge_to, by_port,
  Graph,
}

abbrev pub Building : Type 0 → Type 0
Building A = Result BuildError A

-- `routes[pair]`: of two edges with one pair the later is kept.
unfoldable pub target_of : Pair → List SnapshotEdge → Option Str
target_of r [] = none
target_of r (e ∷ es) = elim (target_of r es) [
  | some t ↦ some t
  | none ↦ if eq_pair (edge_pair e) r then some e.target else none
]

-- `_route_key`
unfoldable pub route_key : (source port target : Str) → Str
route_key source port target = source ++ (b':' ∷ (port ++ (b':' ∷ target)))

-- `limits.get(key)`: of two limits with one key the later is kept.
unfoldable pub limit_of : Str → List SnapshotLoopLimit → Option ℕ
limit_of key [] = none
limit_of key (l ∷ ls) = elim (limit_of key ls) [
  | some n ↦ some n
  | none ↦
      if eq (route_key l.source l.result_port l.target) key then some l.max_iterations else none
]

unfoldable pub is_empty : Fields → Bool
is_empty end = true
is_empty (field k v fs) = false

-- The value of a lookup that raises KeyError.
unfoldable pub found_key {ℓ} : {A : Type ℓ} → Option A → Result BuildError A
found_key none = err key_error
found_key (some a) = ok a

-- What `compile` makes of the config validator's answer.
unfoldable pub check_verdict : Str → Verdict → Building (Unit {0})
check_verdict a throws = err (validator_failed a)
check_verdict a (verdict null) = ok tt
check_verdict a (verdict (text [])) = err (validator_invalid a)
check_verdict a (verdict (text (c ∷ cs))) = err (config_refused a (c ∷ cs))
check_verdict a (verdict _) = err (validator_invalid a)

-- `expected_ports`
unfoldable pub legacy_or_own : Bool → Option (List Str) → List Str → List Str
legacy_or_own true (some ports) own = ports
legacy_or_own _ _ own = own

module _ {W : Type 0} where
  -- `except NodeRegistryViolation`
  unfoldable pub resolved :
      Str → Registering (NodeHandlerRegistration W) → Building (NodeHandlerRegistration W)
  resolved a (err _) = err (unregistered a)
  resolved a (ok r) = ok r

  unfoldable pub expected_ports : SnapshotNode → NodeHandlerRegistration W → List Str
  expected_ports n r = legacy_or_own (is_empty n.config) r.legacy_result_ports r.result_ports

  unfoldable pub bind_node : NodeRegistry W → SnapshotNode → Building (NodeHandler W)
  bind_node registry n = do
    r ← resolved n.node_id (resolve registry (text n.handler_key))
    guard (mem n.node_type r.node_types) (type_mismatch n.node_id)
    guard (same_set n.result_ports (expected_ports n r)) (ports_mismatch n.node_id)
    check_verdict n.node_id (r.config_validator (thaw_object n.config))
    ok r.handler

  -- `handlers`
  unfoldable pub bind_nodes :
      NodeRegistry W → List SnapshotNode → Dict (NodeHandler W) → Building (Dict (NodeHandler W))
  bind_nodes registry [] handlers = ok handlers
  bind_nodes registry (n ∷ ns) handlers = do
    handler ← bind_node registry n
    bind_nodes registry ns (put n.node_id handler handlers)

-- `next(node for node in snapshot.nodes if ...)`
unfoldable pub next_of : List SnapshotNode → Building SnapshotNode
next_of [] = err stop_iteration
next_of (n ∷ ns) = ok n

abbrev pub failed_port : Str
failed_port = codes "failed"

-- `_COMMON_FAILURE_HANDLERS`
abbrev pub common_failure_handlers : List Str
common_failure_handlers = codes "common.guardrail" ∷ codes "common.check" ∷ []

unfoldable pub is_target : Str → Option Str → Bool
is_target a none = false
is_target a (some t) = eq t a

-- `_validate_common_failure_routes`
unfoldable pub validate_common_failure_routes :
    List SnapshotEdge → Str → List SnapshotNode → Building (Unit {0})
validate_common_failure_routes edges end_id [] = ok tt
validate_common_failure_routes edges end_id (n ∷ ns) = do
  guard
      (not (
        mem n.handler_key common_failure_handlers
        && not (is_target end_id (target_of (n.node_id, failed_port) edges))))
      (failed_not_to_end n.node_id)
  validate_common_failure_routes edges end_id ns

-- `port_targets`
unfoldable pub port_targets : List SnapshotEdge → Str → List Str → Building (Dict Str)
port_targets edges a [] = ok []
port_targets edges a (p ∷ ps) = do
  t ← found_key (target_of (a, p) edges)
  rest ← port_targets edges a ps
  ok (put p t rest)

-- One target is an edge; the graph branches on the port elsewhere.
unfoldable pub exit_by : Str → Dict Str → Exit
exit_by a ((p, t) ∷ []) = edge_to t
exit_by a targets = by_port a targets

unfoldable pub exit_of : List SnapshotEdge → Str → SnapshotNode → Building Exit
exit_of edges end_id n =
    if eq n.node_id end_id
    then ok to_end
    else do targets ← port_targets edges n.node_id n.result_ports; ok (exit_by n.node_id targets)

unfoldable pub exits_of : List SnapshotEdge → Str → List SnapshotNode → Building (Dict Exit)
exits_of edges end_id [] = ok []
exits_of edges end_id (n ∷ ns) = do
  exit ← exit_of edges end_id n
  rest ← exits_of edges end_id ns
  ok ((n.node_id, exit) ∷ rest)

-- `SnapshotGraphBuilder.compile`
unfoldable pub compile : {W : Type 0} → NodeRegistry W → VersionedSnapshot → Building (Graph W)
compile registry s = do
  handlers ← bind_nodes registry s.nodes []
  start ← next_of (of_type start_type s.nodes)
  last ← next_of (of_type end_type s.nodes)
  validate_common_failure_routes s.edges last.node_id s.nodes
  exits ← exits_of s.edges last.node_id s.nodes
  ok (record { snapshot = s; entry = start.node_id; handlers = handlers; exits = exits })

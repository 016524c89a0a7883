-- ===== src/Snapshot/Ends.antt =====
-- `validate_snapshot` never runs out of the fuel that its searches are given.
use urizo_final_orchestrator.Base.{
  Bool, true, false, not, ◌&&◌, Str, ◌≡◌, ◌≢◌, refl, List, [], ◌∷◌, map, eq, mem, nodup, same_set,
  Result, ok, err, ◌>>=◌, guard, guard-eq-ok, >>=-eq-ok, subset_by, eq_pair, eq_route, arith,
  Bool-cases, inl, inr,
}
use urizo_final_orchestrator.Snapshot.{
  SnapshotNode, SnapshotEdge, SnapshotLoopLimit, VersionedSnapshot, Violation, out_of_fuel,
  duplicate_ids, not_one_start, not_one_end, ports_without_edge, unreachable_from_start,
  cannot_reach_end, guardrail_bypass, unknown_limited_edge, not_repeating, unbounded_cycle,
}
use urizo_final_orchestrator.Snapshot.Graph.{Adjacency, reachable_nodes, contains_cycle}
use urizo_final_orchestrator.Snapshot.Validate.{
  start_type, end_type, of_type, ids, edge_pair, route, single, declared_routes, adjacency_without,
  Scan, check_edge, scan_edge, scan_edges, found, without_nodes, check_limit, check_limits,
  check_nodes, check_shape, first_scan, guardrail_ids, limited_routes, check_graph,
  validate_snapshot,
}
use urizo_final_orchestrator.Snapshot.Reach.{reachable_nodes_returns}
use urizo_final_orchestrator.Snapshot.Adjacency.{AreJoined, adjacency_without-IsWellFormed}
use urizo_final_orchestrator.Snapshot.Order.Cycle.{contains_cycle_returns}
use urizo_final_orchestrator.Snapshot.Valid.{scan_edges_ok}

abbrev Ends : {A : Type 0} → Result Violation A → Type 0
Ends r = r ≢ err out_of_fuel

Ends-bind :
    {A B : Type 0} (m : Result Violation A) (f : A → Result Violation B)
    → Ends m
    → ((a : A) → m ≡ ok a → Ends (f a))
    → Ends (m >>= f)
Ends-bind (ok a) f e k = k a refl
Ends-bind (err x) f e k = λ h. e (ground (arith, h))

Ends-guard : (b : Bool) (v : Violation) → v ≢ out_of_fuel → Ends (guard b v)
Ends-guard true v ne = λ h. cc
Ends-guard false v ne = λ h. ne (ground (arith, h))

Ends-search : (source : Str) (adj : Adjacency) → Ends (found (reachable_nodes source adj))
unfolding found
Ends-search source adj =
    let (vs, e) = reachable_nodes_returns source adj in λ h. ground (arith, e, h)

Ends-check_edge :
    (nodes : List SnapshotNode) (start end : SnapshotNode) (e : SnapshotEdge)
    → Ends (check_edge nodes start end e)
unfolding check_edge
Ends-check_edge nodes start end e = λ h. ground (arith, h)

Ends-scan_edges :
    (nodes : List SnapshotNode) (start end : SnapshotNode) (es : List SnapshotEdge) (s : Scan)
    → Ends (scan_edges nodes start end es s)
unfolding scan_edges
Ends-scan_edges nodes start end [] s = λ h. cc
Ends-scan_edges nodes start end (e ∷ es) s =
    Ends-bind (check_edge nodes start end e)
      (λ _. scan_edges nodes start end es (scan_edge nodes start end e s))
      (Ends-check_edge nodes start end e)
      (λ _ _. Ends-scan_edges nodes start end es (scan_edge nodes start end e s))

Ends-check_limit : (s : VersionedSnapshot) (l : SnapshotLoopLimit) → Ends (check_limit s l)
unfolding check_limit
Ends-check_limit s l = elim (Bool-cases (eq l.source l.target)) [
  | inl same ↦ rw same (λ h. cc)
  | inr other ↦ rw other (
      Ends-bind (found (reachable_nodes l.target (adjacency_without s (route l ∷ []))))
        (λ back. guard (mem l.source back) not_repeating)
        (Ends-search l.target (adjacency_without s (route l ∷ [])))
        (λ back _. Ends-guard (mem l.source back) not_repeating (λ h. cc)))
]

Ends-check_limits : (s : VersionedSnapshot) (ls : List SnapshotLoopLimit) → Ends (check_limits s ls)
unfolding check_limits
Ends-check_limits s [] = λ h. cc
Ends-check_limits s (l ∷ ls) =
    Ends-bind (check_limit s l) (λ _. check_limits s ls) (Ends-check_limit s l)
      (λ _ _. Ends-check_limits s ls)

module _ (s : VersionedSnapshot) (joined : AreJoined (ids s.nodes) s.edges)
    (distinct : nodup (ids s.nodes) ≡ true) where
  Ends-cycle : Ends (found (contains_cycle (adjacency_without s (limited_routes s))))
  unfolding found
  Ends-cycle =
      let (answer, e) =
        contains_cycle_returns (adjacency_without s (limited_routes s))
          (adjacency_without-IsWellFormed s (limited_routes s) joined distinct) in
      λ h. ground (arith, e, h)

  Ends-check_graph : (start end : SnapshotNode) (scan : Scan) → Ends (check_graph s start end scan)
  unfolding check_graph
  Ends-check_graph start end scan =
      Ends-bind
        (guard
          (subset_by eq_pair (map edge_pair s.edges) (declared_routes s.nodes)
            && subset_by eq_pair (declared_routes s.nodes) (map edge_pair s.edges))
          ports_without_edge)
        _ (Ends-guard _ ports_without_edge (λ h. cc))
        λ _ _.
          Ends-bind (found (reachable_nodes start.node_id scan.adjacency)) _
            (Ends-search start.node_id scan.adjacency)
            λ vs _.
              Ends-bind (guard (same_set vs (ids s.nodes)) unreachable_from_start) _
                (Ends-guard _ unreachable_from_start (λ h. cc))
                λ _ _.
                  Ends-bind (found (reachable_nodes end.node_id scan.reverse_adjacency)) _
                    (Ends-search end.node_id scan.reverse_adjacency)
                    λ ws _.
                      Ends-bind (guard (same_set ws (ids s.nodes)) cannot_reach_end) _
                        (Ends-guard _ cannot_reach_end (λ h. cc))
                        λ _ _.
                          Ends-bind
                            (found (
                              reachable_nodes start.node_id
                                (without_nodes (guardrail_ids s) scan.adjacency)))
                            _
                            (Ends-search start.node_id
                              (without_nodes (guardrail_ids s) scan.adjacency))
                            λ us _.
                              Ends-bind (guard (not (mem end.node_id us)) guardrail_bypass) _
                                (Ends-guard _ guardrail_bypass (λ h. cc))
                                λ _ _.
                                  Ends-bind
                                    (guard (subset_by eq_route (limited_routes s) scan.edge_routes)
                                      unknown_limited_edge)
                                    _ (Ends-guard _ unknown_limited_edge (λ h. cc))
                                    λ _ _.
                                      Ends-bind (check_limits s s.config.loop_limits) _
                                        (Ends-check_limits s s.config.loop_limits)
                                        λ _ _.
                                          Ends-bind
                                            (found (
                                              contains_cycle
                                                (adjacency_without s (limited_routes s))))
                                            _ Ends-cycle
                                            λ cyclic _.
                                              Ends-guard (not cyclic) unbounded_cycle (λ h. cc)

check_shape_distinct :
    (s : VersionedSnapshot) {u : Unit {0}} → check_shape s ≡ ok u → nodup (ids s.nodes) ≡ true
unfolding check_shape
check_shape_distinct s h =
    let (_, distinct, _) = >>=-eq-ok (guard (nodup (ids s.nodes)) duplicate_ids) _ h in
    guard-eq-ok (nodup (ids s.nodes)) duplicate_ids distinct

Ends-check_shape : (s : VersionedSnapshot) → Ends (check_shape s)
unfolding check_shape
Ends-check_shape s = λ h. ground (arith, h)

Ends-check_nodes : (s : VersionedSnapshot) (end : SnapshotNode) → Ends (check_nodes s end)
unfolding check_nodes
Ends-check_nodes s end = λ h. ground (arith, h)

Ends-single : (ns : List SnapshotNode) (v : Violation) → v ≢ out_of_fuel → Ends (single ns v)
unfolding single
Ends-single [] v ne = λ h. ne (ground (arith, h))
Ends-single (n ∷ []) v ne = λ h. cc
Ends-single (n ∷ m ∷ ns) v ne = λ h. ne (ground (arith, h))

-- `validate_snapshot` answers every snapshot, with an acceptance or one of the source's messages: none
-- of its searches and loops runs out of the fuel that stands for their termination.
pub validate_snapshot-ne-out_of_fuel :
    (s : VersionedSnapshot) → validate_snapshot s ≢ err out_of_fuel
unfolding validate_snapshot
validate_snapshot-ne-out_of_fuel s = Ends-bind (check_shape s) _ (Ends-check_shape s) λ _ shape.
    Ends-bind (single (of_type start_type s.nodes) not_one_start) _
      (Ends-single (of_type start_type s.nodes) not_one_start (λ h. cc))
      λ start _.
        Ends-bind (single (of_type end_type s.nodes) not_one_end) _
          (Ends-single (of_type end_type s.nodes) not_one_end (λ h. cc))
          λ end _. Ends-bind (check_nodes s end) _ (Ends-check_nodes s end) λ _ _.
            Ends-bind (scan_edges s.nodes start end s.edges (first_scan s)) _
              (Ends-scan_edges s.nodes start end s.edges (first_scan s))
              λ scan scanned.
                Ends-check_graph s
                  (scan_edges_ok s.nodes start end s.edges (first_scan s) scan scanned).joined
                  (check_shape_distinct s shape) start end scan

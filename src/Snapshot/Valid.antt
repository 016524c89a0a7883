-- ===== src/Snapshot/Valid.antt =====
-- What `validate_snapshot` has checked of a snapshot that it accepts.
use urizo_final_orchestrator.Base.{
  true, false, not, ◌&&◌, Str, ◌≡◌, ◌∙◌, ◌⊎◌, inl, inr, Option, none, some, List, [], ◌∷◌, map, eq,
  eq_iff, mem, nodup, same_set, ok, guard, >>=-eq-ok, Route, mem_by, add_by, subset_by, eq_pair,
  eq_route, eq_route_iff, arith,
}
use urizo_final_orchestrator.Snapshot.{
  SnapshotNode, SnapshotEdge, VersionedSnapshot, Violation, ports_without_edge,
  unreachable_from_start, cannot_reach_end, guardrail_bypass, unknown_limited_edge,
}
use urizo_final_orchestrator.Snapshot.Graph.{Adjacency, reachable_nodes, contains_cycle}
use urizo_final_orchestrator.Snapshot.Validate.{
  start_type, end_type, guardrail_type, of_type, ids, find_node, is_some, edge_route, edge_pair,
  declared_routes, single, all_locked, empty_adjacency, add_edges, adjacency_without, Scan,
  check_edge, scan_edge, scan_edges, found, without_nodes, check_limits, check_nodes, check_shape,
  first_scan, guardrail_ids, limited_routes, check_graph, validate_snapshot,
}
use urizo_final_orchestrator.Snapshot.Adjacency.{AreJoined}

-- An edge turned round.
abbrev pub flip : SnapshotEdge → SnapshotEdge
flip e = record e { source = e.target; target = e.source }

abbrev pub reverse_adjacency : VersionedSnapshot → Adjacency
reverse_adjacency s = add_edges [] (map flip s.edges) (empty_adjacency s.nodes)

mem-find_node :
    (a : Str) (ns : List SnapshotNode) → is_some (find_node a ns) ≡ true → mem a (ids ns) ≡ true
unfolding is_some find_node ids mem
mem-find_node a [] h = cc
mem-find_node a (n ∷ ns) h =
    ground (arith, mem-find_node a ns, eq_iff n.node_id a, eq_iff a n.node_id)

check_edge_ok :
    (nodes : List SnapshotNode) (start end : SnapshotNode) (e : SnapshotEdge) {u : Unit {0}}
    → check_edge nodes start end e ≡ ok u
    → (mem e.source (ids nodes) ≡ true)
      × (mem e.target (ids nodes) ≡ true)
      × (eq e.target start.node_id ≡ false)
      × (eq e.source end.node_id ≡ false)
unfolding check_edge
check_edge_ok nodes start end e h =
    ground (arith, mem-find_node e.source nodes, mem-find_node e.target nodes)

pub record Scanned (nodes : List SnapshotNode) (start end : SnapshotNode) (es : List SnapshotEdge)
    (s t : Scan) : Type 0 where
  pub joined : AreJoined (ids nodes) es
  forward : t.adjacency ≡ add_edges [] es s.adjacency
  backward : t.reverse_adjacency ≡ add_edges [] (map flip es) s.reverse_adjacency
  routes :
      (r : Route)
      → mem_by eq_route r t.edge_routes ≡ true
      → (mem_by eq_route r s.edge_routes ≡ true) ⊎ (mem_by eq_route r (map edge_route es) ≡ true)

pub scan_edges_ok :
    (nodes : List SnapshotNode) (start end : SnapshotNode) (es : List SnapshotEdge) (s t : Scan)
    → scan_edges nodes start end es s ≡ ok t
    → Scanned nodes start end es s t
unfolding scan_edges scan_edge add_edges mem_by add_by
scan_edges_ok nodes start end [] s t h =
    let same : s ≡ t = ground arith in
    record {
      joined = tt;
      forward = ground arith;
      backward = ground arith;
      routes = λ r m. inl (rw same m);
    }
scan_edges_ok nodes start end (e ∷ es) s t h =
    let (u, checked, rest) = >>=-eq-ok (check_edge nodes start end e) _ h in
    let (a, b, c, d) = check_edge_ok nodes start end e checked in
    let ih = scan_edges_ok nodes start end es (scan_edge nodes start end e s) t rest in
    record {
      joined = (a, b, ih.joined);
      forward = ih.forward;
      backward = ih.backward;
      routes = λ r m. ground (arith, ih.routes r m, eq_route_iff r (edge_route e));
    }

single_ok :
    (ns : List SnapshotNode) (v : Violation) (n : SnapshotNode) → single ns v ≡ ok n → ns ≡ n ∷ []
unfolding single
single_ok [] v n h = cc
single_ok (a ∷ []) v n h = ground arith
single_ok (a ∷ b ∷ ns) v n h = cc

found_ok {ℓ} : {A : Type ℓ} (o : Option A) (a : A) → found o ≡ ok a → o ≡ some a
unfolding found
found_ok none a h = cc
found_ok (some b) a h = ground arith

pub record Valid (s : VersionedSnapshot) : Type 0 where
  pub start : SnapshotNode
  pub end : SnapshotNode
  pub starts : of_type start_type s.nodes ≡ start ∷ []
  pub ends : of_type end_type s.nodes ≡ end ∷ []
  pub distinct : nodup (ids s.nodes) ≡ true
  pub joined : AreJoined (ids s.nodes) s.edges
  pub locked : all_locked (of_type guardrail_type s.nodes) ≡ true
  pub reached : List Str
  pub reaches : reachable_nodes start.node_id (adjacency_without s []) ≡ some reached
  pub all_reached : same_set reached (ids s.nodes) ≡ true
  pub coreached : List Str
  pub coreaches : reachable_nodes end.node_id (reverse_adjacency s) ≡ some coreached
  pub all_coreached : same_set coreached (ids s.nodes) ≡ true
  pub unguarded : List Str
  pub bypasses :
      reachable_nodes start.node_id (without_nodes (guardrail_ids s) (adjacency_without s []))
      ≡ some unguarded
  pub no_bypass : mem end.node_id unguarded ≡ false
  pub limits_known :
      (r : Route)
      → mem_by eq_route r (limited_routes s) ≡ true
      → mem_by eq_route r (map edge_route s.edges) ≡ true
  pub bounded : contains_cycle (adjacency_without s (limited_routes s)) ≡ some false

mem_by-subset_by :
    (xs ys : List Route) (r : Route)
    → subset_by eq_route xs ys ≡ true
    → mem_by eq_route r xs ≡ true
    → mem_by eq_route r ys ≡ true
unfolding subset_by mem_by
mem_by-subset_by [] ys r h m = cc
mem_by-subset_by (x ∷ xs) ys r h m = ground (arith, eq_route_iff r x, mem_by-subset_by xs ys r)

-- What the checks after the loop over the edges establish.
record Checked (s : VersionedSnapshot) (start end : SnapshotNode) (scan : Scan) : Type 0 where
  reached : List Str
  reaches : reachable_nodes start.node_id scan.adjacency ≡ some reached
  all_reached : same_set reached (ids s.nodes) ≡ true
  coreached : List Str
  coreaches : reachable_nodes end.node_id scan.reverse_adjacency ≡ some coreached
  all_coreached : same_set coreached (ids s.nodes) ≡ true
  unguarded : List Str
  bypasses :
      reachable_nodes start.node_id (without_nodes (guardrail_ids s) scan.adjacency)
      ≡ some unguarded
  no_bypass : mem end.node_id unguarded ≡ false
  limits : subset_by eq_route (limited_routes s) scan.edge_routes ≡ true
  bounded : contains_cycle (adjacency_without s (limited_routes s)) ≡ some false

check_graph_ok :
    (s : VersionedSnapshot) (start end : SnapshotNode) (scan : Scan) {u : Unit {0}}
    → check_graph s start end scan ≡ ok u
    → Checked s start end scan
unfolding check_graph
check_graph_ok s start end scan h =
    let routes = map edge_pair s.edges in
    let declared = declared_routes s.nodes in
    let (_, _, h1) =
      >>=-eq-ok
        (guard (subset_by eq_pair routes declared && subset_by eq_pair declared routes)
          ports_without_edge)
        _ h in
    let (r, er, h2) = >>=-eq-ok (found (reachable_nodes start.node_id scan.adjacency)) _ h1 in
    let (_, tr, h3) = >>=-eq-ok (guard (same_set r (ids s.nodes)) unreachable_from_start) _ h2 in
    let (c, ec, h4) = >>=-eq-ok (found (reachable_nodes end.node_id scan.reverse_adjacency)) _ h3 in
    let (_, tc, h5) = >>=-eq-ok (guard (same_set c (ids s.nodes)) cannot_reach_end) _ h4 in
    let (g, eg, h6) =
      >>=-eq-ok
        (found (reachable_nodes start.node_id (without_nodes (guardrail_ids s) scan.adjacency))) _
        h5 in
    let (_, tg, h7) = >>=-eq-ok (guard (not (mem end.node_id g)) guardrail_bypass) _ h6 in
    let (_, tl, h8) =
      >>=-eq-ok
        (guard (subset_by eq_route (limited_routes s) scan.edge_routes) unknown_limited_edge) _
        h7 in
    let (_, _, h9) = >>=-eq-ok (check_limits s s.config.loop_limits) _ h8 in
    let (k, ek, h10) =
      >>=-eq-ok (found (contains_cycle (adjacency_without s (limited_routes s)))) _ h9 in
    record {
      reached = r;
      reaches = found_ok _ r er;
      all_reached = ground (arith, tr);
      coreached = c;
      coreaches = found_ok _ c ec;
      all_coreached = ground (arith, tc);
      unguarded = g;
      bypasses = found_ok _ g eg;
      no_bypass = ground (arith, tg);
      limits = ground (arith, tl);
      bounded = found_ok _ k ek ∙ ground (arith, h10);
    }

nothing_in_nil : (r : Route) → mem_by eq_route r [] ≡ true → ⊥
unfolding mem_by
nothing_in_nil r m = ground arith

pub valid : (s : VersionedSnapshot) {u : Unit {0}} → validate_snapshot s ≡ ok u → Valid s
unfolding validate_snapshot check_shape check_nodes adjacency_without
valid s h =
    let (_, shape, h1) = >>=-eq-ok (check_shape s) _ h in
    let (st, est, h2) = >>=-eq-ok (single (of_type start_type s.nodes) _) _ h1 in
    let (en, een, h3) = >>=-eq-ok (single (of_type end_type s.nodes) _) _ h2 in
    let (_, checked, h4) = >>=-eq-ok (check_nodes s en) _ h3 in
    let (scan, escan, h5) = >>=-eq-ok (scan_edges s.nodes st en s.edges (first_scan s)) _ h4 in
    let sc = scan_edges_ok s.nodes st en s.edges (first_scan s) scan escan in
    let g = check_graph_ok s st en scan h5 in
    record {
      start = st;
      end = en;
      starts = single_ok _ _ st est;
      ends = single_ok _ _ en een;
      distinct = ground (arith, shape);
      joined = sc.joined;
      locked = ground (arith, checked);
      reached = g.reached;
      reaches = rw sc.forward at (g.reaches);
      all_reached = g.all_reached;
      coreached = g.coreached;
      coreaches = rw sc.backward at (g.coreaches);
      all_coreached = g.all_coreached;
      unguarded = g.unguarded;
      bypasses = rw sc.forward at (g.bypasses);
      no_bypass = g.no_bypass;
      limits_known = λ r m.
          elim (sc.routes r (mem_by-subset_by (limited_routes s) scan.edge_routes r g.limits m)) [
            | inl first ↦ absurd (nothing_in_nil r first)
            | inr listed ↦ listed
          ];
      bounded = g.bounded;
    }

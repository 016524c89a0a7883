-- ===== src/Snapshot/Connected.antt =====
-- In an accepted snapshot each node lies on a trail from the start to the end.
use mathlib.Core.List.{Memᴰ}
use urizo_final_orchestrator.Base.{
  true, Str, ◌≡◌, ap, inl, inr, List, [], ◌∷◌, ◌++◌, map, ok, mem, mem-subset, same_set, Route,
  mem_by, eq_route, eq_route_iff, arith, Bool-cases,
}
use urizo_final_orchestrator.Snapshot.{SnapshotNode, SnapshotEdge, VersionedSnapshot}
use urizo_final_orchestrator.Snapshot.Graph.{targets}
use urizo_final_orchestrator.Snapshot.Reach.{Walk, reachable_nodes-iff-Walk}
use urizo_final_orchestrator.Snapshot.Validate.{
  start_type, end_type, ids, edge_route, adjacency_without, validate_snapshot,
}
use urizo_final_orchestrator.Snapshot.Adjacency.{AreJoined, targets-adjacency_without}
use urizo_final_orchestrator.Snapshot.Trail.{HasEdge, Trail}
use urizo_final_orchestrator.Snapshot.Valid.{flip, reverse_adjacency, Valid, valid}
use urizo_final_orchestrator.Snapshot.Guardrail.{only_of_type}

mem-same_set :
    (xs ys : List Str) (a : Str) → same_set xs ys ≡ true → mem a ys ≡ true → mem a xs ≡ true
unfolding same_set
mem-same_set xs ys a h m = ground (arith, mem-subset ys xs a)

Trail-append :
    {s : VersionedSnapshot} {a b c : Str} {rs qs : List Route}
    → Trail s a b rs
    → Trail s b c qs
    → Trail s a c (qs ++ rs)
Trail-append t Trail.start = t
Trail-append t (Trail.follow p v q e) = Trail.follow p v (Trail-append t q) e

mem-flip :
    (a p b : Str) (es : List SnapshotEdge)
    → mem_by eq_route (a, p, b) (map edge_route (map flip es)) ≡ true
    → mem_by eq_route (b, p, a) (map edge_route es) ≡ true
unfolding mem_by
mem-flip a p b [] m = cc
mem-flip a p b (e ∷ es) m = elim (Bool-cases (eq_route (a, p, b) (edge_route (flip e)))) [
  | inl this ↦
      let same = (eq_route_iff (a, p, b) (edge_route (flip e))).0 this in
      let turned : ◌≡◌ {A = Route} (b, p, a) (edge_route e) =
        ap (λ (r : Route). let q : Route = (r.2, r.1, r.0) in q) same in
      ground (arith, (eq_route_iff (b, p, a) (edge_route e)).1 turned)
  | inr other ↦ ground (arith, mem-flip a p b es (rw other at m))
]

joined-flip :
    (ks : List Str) (es : List SnapshotEdge) → AreJoined ks es → AreJoined ks (map flip es)
joined-flip ks [] j = tt
joined-flip ks (e ∷ es) j = (j.1, j.0, joined-flip ks es j.2)

module _ (s : VersionedSnapshot) (c : Valid s) where
  Trail-of_Walk :
      (a : Str) {v : Str} → Walk (adjacency_without s []) a v → (rs : List Route) × Trail s a v rs
  Trail-of_Walk a Walk.here = ([], Trail.start)
  Trail-of_Walk a (Walk.step {u} {v} w m) =
      let (rs, t) = Trail-of_Walk a w in
      let (p, e, _) = (targets-adjacency_without s [] c.joined u v).0 m in
      ((u, p, v) ∷ rs, Trail.follow p v t e)

  edge_of_reverse :
      (u v : Str) → mem v (targets (reverse_adjacency s) u) ≡ true → (p : Str) × HasEdge s (v, p, u)
  edge_of_reverse u v m =
      let turned = record s { edges = map flip s.edges } in
      let at =
        (targets-adjacency_without turned [] (joined-flip (ids s.nodes) s.edges c.joined) u v).0 in
      let (p, e, _) = at (unfold adjacency_without in m) in (p, mem-flip u p v s.edges e)

  Trail-of_reverse :
      (z : Str) {v : Str} → Walk (reverse_adjacency s) z v → (rs : List Route) × Trail s v z rs
  Trail-of_reverse z Walk.here = ([], Trail.start)
  Trail-of_reverse z (Walk.step {u} {v} w m) =
      let (rs, t) = Trail-of_reverse z w in
      let (p, e) = edge_of_reverse u v m in
      (rs ++ (v, p, u) ∷ [], Trail-append (Trail.follow p u Trail.start e) t)

-- In a snapshot that `validate_snapshot` accepts, some trail along its edges leads from its start
-- node to any of its nodes, and some trail leads from there to its end node.
pub node_on_Trail :
    (s : VersionedSnapshot) (first last : SnapshotNode) (n : Str)
    → validate_snapshot s ≡ ok tt
    → Memᴰ first s.nodes
    → first.node_type ≡ start_type
    → Memᴰ last s.nodes
    → last.node_type ≡ end_type
    → mem n (ids s.nodes) ≡ true
    → ((rs : List Route) × Trail s first.node_id n rs)
      × ((qs : List Route) × Trail s n last.node_id qs)
node_on_Trail s first last n h mf tf ml tl m =
    let c = valid s h in
    let f =
      ap (λ (k : SnapshotNode). k.node_id)
        (only_of_type start_type first c.start s.nodes c.starts tf mf) in
    let l =
      ap (λ (k : SnapshotNode). k.node_id)
        (only_of_type end_type last c.end s.nodes c.ends tl ml) in
    let out =
      (reachable_nodes-iff-Walk c.start.node_id (adjacency_without s []) c.reached n c.reaches).0
        (mem-same_set c.reached (ids s.nodes) n c.all_reached m) in
    let back =
      (reachable_nodes-iff-Walk c.end.node_id (reverse_adjacency s) c.coreached n c.coreaches).0
        (mem-same_set c.coreached (ids s.nodes) n c.all_coreached m) in
    (rw f (Trail-of_Walk s c c.start.node_id out), rw l (Trail-of_reverse s c c.end.node_id back))

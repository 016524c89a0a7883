-- ===== src/Snapshot/Adjacency.antt =====
-- The adjacencies of snapshot.py: well formed, and with exactly the edges that the snapshot lists.
use urizo_final_orchestrator.Base.{
  suc, Bool, true, false, not, ◌&&◌, Str, ◌≡◌, refl, ap, ◌∙◌, ◌↔◌, ◌⊎◌, inl, inr, List, [], ◌∷◌,
  map, if◌then◌else◌, eq, eq_iff, mem, add, mem-add, nodup, nodup-add, subset, keys, Route, mem_by,
  eq_route, eq_route_iff, arith, Bool-cases, length,
}
use urizo_final_orchestrator.Snapshot.{SnapshotNode, SnapshotEdge, VersionedSnapshot}
use urizo_final_orchestrator.Snapshot.Graph.{Adjacency, targets}
use urizo_final_orchestrator.Snapshot.Order.Counters.{AreTargets, IsWellFormed}
use urizo_final_orchestrator.Snapshot.Validate.{
  ids, edge_route, empty_adjacency, add_target, add_edges, adjacency_without,
}

pub keys-add_target : (u v : Str) (adj : Adjacency) → keys (add_target u v adj) ≡ keys adj
unfolding add_target
keys-add_target u v [] = refl
keys-add_target u v ((k, ts) ∷ adj) = ground (arith, keys-add_target u v adj)

pub targets-add_target :
    (u v a b : Str) (adj : Adjacency)
    → mem u (keys adj) ≡ true
    → mem b (targets (add_target u v adj) a)
      ≡ (if eq u a && eq b v then true else mem b (targets adj a))
unfolding add_target targets mem
targets-add_target u v a b [] h = cc
targets-add_target u v a b ((k, ts) ∷ adj) h = ground (
  arith,
  targets-add_target u v a b adj,
  mem-add v b ts,
  eq_iff k u,
  eq_iff u k,
  eq_iff k a,
  eq_iff u a,
  eq_iff b v,
)

subset-add :
    (v : Str) (ts ks : List Str)
    → mem v ks ≡ true
    → subset ts ks ≡ true
    → subset (add v ts) ks ≡ true
unfolding add subset
subset-add v ts ks m h = ground arith

AreTargets-add_target :
    (ks : List Str) (u v : Str) (adj : Adjacency)
    → mem v ks ≡ true
    → AreTargets ks adj
    → AreTargets ks (add_target u v adj)
unfolding add_target
AreTargets-add_target ks u v [] m h = h
AreTargets-add_target ks u v ((k, ts) ∷ adj) m h = elim (Bool-cases (eq k u)) [
  | inl same ↦ rw same (nodup-add v ts h.0, subset-add v ts ks m h.1, h.2)
  | inr other ↦ rw other (h.0, h.1, AreTargets-add_target ks u v adj m h.2)
]

-- Both ends of every edge are among `ks`.
abbrev pub AreJoined : List Str → List SnapshotEdge → Type 0
AreJoined ks [] = Unit
AreJoined ks (e ∷ es) = (mem e.source ks ≡ true) × (mem e.target ks ≡ true) × AreJoined ks es

module _ (excluded : List Route) where
  abbrev kept : SnapshotEdge → Bool
  kept e = not (mem_by eq_route (edge_route e) excluded)

  pub keys-add_edges :
      (es : List SnapshotEdge) (adj : Adjacency) → keys (add_edges excluded es adj) ≡ keys adj
  unfolding add_edges
  keys-add_edges [] adj = refl
  keys-add_edges (e ∷ es) adj = elim (Bool-cases (mem_by eq_route (edge_route e) excluded)) [
    | inl out ↦ rw out (keys-add_edges es adj)
    | inr in_it ↦ rw in_it (
        keys-add_edges es (add_target e.source e.target adj)
        ∙ keys-add_target e.source e.target adj)
  ]

  pub AreTargets-add_edges :
      (ks : List Str) (es : List SnapshotEdge) (adj : Adjacency)
      → AreJoined ks es
      → AreTargets ks adj
      → AreTargets ks (add_edges excluded es adj)
  unfolding add_edges
  AreTargets-add_edges ks [] adj j h = h
  AreTargets-add_edges ks (e ∷ es) adj j h =
      elim (Bool-cases (mem_by eq_route (edge_route e) excluded)) [
        | inl out ↦ rw out (AreTargets-add_edges ks es adj j.2 h)
        | inr in_it ↦ rw in_it (
            AreTargets-add_edges ks es (add_target e.source e.target adj) j.2
              (AreTargets-add_target ks e.source e.target adj j.1 h))
      ]

  -- An old target stays.
  targets-add_edges_old :
      (a b : Str) (es : List SnapshotEdge) (adj : Adjacency)
      → AreJoined (keys adj) es
      → mem b (targets adj a) ≡ true
      → mem b (targets (add_edges excluded es adj) a) ≡ true
  unfolding add_edges
  targets-add_edges_old a b [] adj j m = m
  targets-add_edges_old a b (e ∷ es) adj j m =
      elim (Bool-cases (mem_by eq_route (edge_route e) excluded)) [
        | inl out ↦ rw out (targets-add_edges_old a b es adj j.2 m)
        | inr in_it ↦ rw in_it (
            targets-add_edges_old a b es (add_target e.source e.target adj)
              (rw (keys-add_target e.source e.target adj) j.2)
              (ground (arith, targets-add_target e.source e.target a b adj j.0)))
      ]

  -- Every edge that is not excluded gives a target.
  pub targets-add_edges :
      (a p b : Str) (es : List SnapshotEdge) (adj : Adjacency)
      → AreJoined (keys adj) es
      → mem_by eq_route (a, p, b) (map edge_route es) ≡ true
      → mem_by eq_route (a, p, b) excluded ≡ false
      → mem b (targets (add_edges excluded es adj) a) ≡ true
  unfolding add_edges mem_by
  targets-add_edges a p b [] adj j m x = cc
  targets-add_edges a p b (e ∷ es) adj j m x =
      elim (Bool-cases (eq_route (a, p, b) (edge_route e))) [
        | inl this ↦
            let same = (eq_route_iff (a, p, b) (edge_route e)).0 this in
            let s : a ≡ e.source = ap (λ (r : Route). r.0) same in
            let t : b ≡ e.target = ap (λ (r : Route). r.2) same in
            let unlisted : mem_by eq_route (edge_route e) excluded ≡ false = rw same at x in
            rw unlisted (
              targets-add_edges_old a b es (add_target e.source e.target adj)
                (rw (keys-add_target e.source e.target adj) j.2)
                (ground (
                  arith,
                  targets-add_target e.source e.target a b adj j.0,
                  eq_iff e.source a,
                  eq_iff b e.target,
                  s,
                  t,
                )))
        | inr other ↦
            let later : mem_by eq_route (a, p, b) (map edge_route es) ≡ true = rw other at m in
            elim (Bool-cases (mem_by eq_route (edge_route e) excluded)) [
              | inl out ↦ rw out (targets-add_edges a p b es adj j.2 later x)
              | inr in_it ↦ rw in_it (
                  targets-add_edges a p b es (add_target e.source e.target adj)
                    (rw (keys-add_target e.source e.target adj) j.2) later x)
            ]
      ]

  -- Every new target comes from an edge that is not excluded.
  pub edge_of_target :
      (a b : Str) (es : List SnapshotEdge) (adj : Adjacency)
      → AreJoined (keys adj) es
      → mem b (targets (add_edges excluded es adj) a) ≡ true
      → (mem b (targets adj a) ≡ true)
        ⊎ ((p : Str) × (mem_by eq_route (a, p, b) (map edge_route es) ≡ true)
            × (mem_by eq_route (a, p, b) excluded ≡ false))
  unfolding add_edges mem_by
  edge_of_target a b [] adj j m = inl m
  edge_of_target a b (e ∷ es) adj j m =
      elim (Bool-cases (mem_by eq_route (edge_route e) excluded)) [
        | inl out ↦ elim (edge_of_target a b es adj j.2 (rw (out, add_edges) at m)) [
          | inl old ↦ inl old
          | inr (p, r, x) ↦ inr (p, later (a, p, b) e es r, x)
        ]
        | inr in_it ↦
            elim (edge_of_target a b es (add_target e.source e.target adj)
              (rw (keys-add_target e.source e.target adj) j.2) (rw (in_it, add_edges) at m)) [
                | inl old ↦ elim (Bool-cases (eq e.source a && eq b e.target)) [
                  | inl new ↦ inr (e.result_port, first a b e es new, moved a b e new in_it)
                  | inr same ↦
                      inl (ground (arith, targets-add_target e.source e.target a b adj j.0))
                ]
                | inr (p, r, x) ↦ inr (p, later (a, p, b) e es r, x)
              ]
      ]
    where
      later :
          (r : Route) (e : SnapshotEdge) (es : List SnapshotEdge)
          → mem_by eq_route r (map edge_route es) ≡ true
          → mem_by eq_route r (map edge_route (e ∷ es)) ≡ true
      later r e es h = ground arith

      moved :
          (a b : Str) (e : SnapshotEdge)
          → (eq e.source a && eq b e.target) ≡ true
          → mem_by eq_route (edge_route e) excluded ≡ false
          → mem_by eq_route (a, e.result_port, b) excluded ≡ false
      moved a b e h x = ground (arith, eq_iff e.source a, eq_iff b e.target, x)

      first :
          (a b : Str) (e : SnapshotEdge) (es : List SnapshotEdge)
          → (eq e.source a && eq b e.target) ≡ true
          → mem_by eq_route (a, e.result_port, b) (map edge_route (e ∷ es)) ≡ true
      first a b e es h = ground (
        arith,
        eq_iff e.source a,
        eq_iff b e.target,
        (eq_route_iff (edge_route e) (edge_route e)).1 refl,
      )

pub keys-empty_adjacency : (ns : List SnapshotNode) → keys (empty_adjacency ns) ≡ ids ns
unfolding empty_adjacency ids
keys-empty_adjacency [] = refl
keys-empty_adjacency (n ∷ ns) = ap (λ (ks : List Str). n.node_id ∷ ks) (keys-empty_adjacency ns)

pub targets-empty_adjacency :
    (u : Str) (ns : List SnapshotNode) → targets (empty_adjacency ns) u ≡ []
unfolding empty_adjacency targets
targets-empty_adjacency u [] = refl
targets-empty_adjacency u (n ∷ ns) = ground (arith, targets-empty_adjacency u ns)

pub AreTargets-empty_adjacency :
    (ks : List Str) (ns : List SnapshotNode) → AreTargets ks (empty_adjacency ns)
unfolding empty_adjacency nodup subset
AreTargets-empty_adjacency ks [] = tt
AreTargets-empty_adjacency ks (n ∷ ns) = (refl, refl, AreTargets-empty_adjacency ks ns)

-- `_adjacency_without` of a snapshot whose ids are distinct and whose edges join its nodes.
module _ (s : VersionedSnapshot) (excluded : List Route)
    (joined : AreJoined (ids s.nodes) s.edges) where
  pub keys-adjacency_without : keys (adjacency_without s excluded) ≡ ids s.nodes
  unfolding adjacency_without
  keys-adjacency_without =
      keys-add_edges excluded s.edges (empty_adjacency s.nodes) ∙ keys-empty_adjacency s.nodes

  joined_keys : AreJoined (keys (empty_adjacency s.nodes)) s.edges
  joined_keys = rw (keys-empty_adjacency s.nodes) joined

  pub adjacency_without-IsWellFormed :
      nodup (ids s.nodes) ≡ true → IsWellFormed (adjacency_without s excluded)
  adjacency_without-IsWellFormed n = record {
    distinct = rw keys-adjacency_without n;
    closed = rw keys-adjacency_without (
        unfold adjacency_without in
        AreTargets-add_edges excluded (ids s.nodes) s.edges (empty_adjacency s.nodes) joined
          (AreTargets-empty_adjacency (ids s.nodes) s.nodes));
  }

  -- A node is a target exactly when an edge that is not excluded leads to it.
  pub targets-adjacency_without :
      (a b : Str)
      → (mem b (targets (adjacency_without s excluded) a) ≡ true) ↔ (
          (p : Str) × (mem_by eq_route (a, p, b) (map edge_route s.edges) ≡ true)
          × (mem_by eq_route (a, p, b) excluded ≡ false))
  unfolding adjacency_without mem
  targets-adjacency_without a b = (
    λ m. elim (edge_of_target excluded a b s.edges (empty_adjacency s.nodes) joined_keys m) [
      | inl old ↦ absurd (ground (arith, targets-empty_adjacency a s.nodes))
      | inr edge ↦ edge
    ],
    λ edge.
        targets-add_edges excluded a edge.0 b s.edges (empty_adjacency s.nodes) joined_keys edge.1
          edge.2,
  )

pub length-empty_adjacency : (ns : List SnapshotNode) → length (empty_adjacency ns) ≡ length ns
unfolding empty_adjacency
length-empty_adjacency [] = refl
length-empty_adjacency (n ∷ ns) = ap suc (length-empty_adjacency ns)

-- ===== src/Snapshot/Trail.antt =====
-- The trails that a run may take through the edges of a snapshot, and nodes by their types.
use mathlib.Core.List.{Memᴰ}
use urizo_final_orchestrator.Base.{
  true, false, Str, codes, ◌≡◌, refl, sym, ◌⊎◌, inl, inr, List, [], ◌∷◌, map, eq, eq_iff, mem,
  Route, mem_by, eq_route, arith, Bool-cases,
}
use urizo_final_orchestrator.Json.{lookup, is_true}
use urizo_final_orchestrator.Snapshot.{SnapshotNode, VersionedSnapshot}
use urizo_final_orchestrator.Snapshot.Validate.{
  edge_route, of_type, ids, guardrail_type, all_locked,
}

-- The snapshot lists this edge.
abbrev pub HasEdge : VersionedSnapshot → Route → Type 0
HasEdge s r = mem_by eq_route r (map edge_route s.edges) ≡ true

-- A way from `a` along edges of the snapshot; the last route taken stands in front.
pub data Trail (s : VersionedSnapshot) (a : Str) : Str → List Route → Type 0 where
  start : Trail s a a []
  follow :
      {u : Str} {rs : List Route} (p v : Str)
      → Trail s a u rs
      → HasEdge s (u, p, v)
      → Trail s a v ((u, p, v) ∷ rs)

-- The nodes that it visits.
abbrev pub visited : Str → List Route → List Str
visited a [] = a ∷ []
visited a (r ∷ rs) = r.2 ∷ visited a rs

pub record IsLockedGuardrail (s : VersionedSnapshot) (g : Str) : Type 0 where
  pub node : SnapshotNode
  pub listed : Memᴰ node s.nodes
  pub named : node.node_id ≡ g
  pub typed : node.node_type ≡ guardrail_type
  pub locked : is_true (lookup (codes "locked") node.config) ≡ true

find_locked :
    (g : Str) (ns : List SnapshotNode)
    → mem g (ids (of_type guardrail_type ns)) ≡ true
    → all_locked (of_type guardrail_type ns) ≡ true
    → (n : SnapshotNode) × Memᴰ n ns
      × (n.node_id ≡ g)
      × (n.node_type ≡ guardrail_type)
      × (is_true (lookup (codes "locked") n.config) ≡ true)
unfolding of_type ids mem all_locked
find_locked g [] m h = absurd (cc)
find_locked g (n ∷ ns) m h = elim (Bool-cases (eq n.node_type guardrail_type)) [
  | inl kind ↦ elim (Bool-cases (eq g n.node_id)) [
    | inl this ↦ (
      n,
      Memᴰ.head refl,
      sym ((eq_iff g n.node_id).0 this),
      (eq_iff n.node_type guardrail_type).0 kind,
      ground arith,
    )
    | inr other ↦
        let (k, l, a, b, c) = find_locked g ns (ground arith) (ground arith) in
        (k, Memᴰ.tail l, a, b, c)
  ]
  | inr other ↦
      let (k, l, a, b, c) = find_locked g ns (ground arith) (ground arith) in
      (k, Memᴰ.tail l, a, b, c)
]

pub IsLockedGuardrail-of_mem :
    (s : VersionedSnapshot) (g : Str)
    → mem g (ids (of_type guardrail_type s.nodes)) ≡ true
    → all_locked (of_type guardrail_type s.nodes) ≡ true
    → IsLockedGuardrail s g
IsLockedGuardrail-of_mem s g m h =
    let (n, l, a, b, c) = find_locked g s.nodes m h in
    record { node = n; listed = l; named = a; typed = b; locked = c }

-- Either one of the texts is in the set, or none is.
pub meets :
    (gs xs : List Str)
    → ((g : Str) × (mem g xs ≡ true) × (mem g gs ≡ true))
      ⊎ ((g : Str) → mem g xs ≡ true → mem g gs ≡ false)
unfolding mem
meets gs [] = inr (λ g m. cc)
meets gs (x ∷ xs) = elim (Bool-cases (mem x gs)) [
  | inl here ↦ inl (x, ground (arith, (eq_iff x x).1 refl), here)
  | inr other ↦ elim (meets gs xs) [
    | inl (g, m, h) ↦ inl (g, ground arith, h)
    | inr away ↦ inr (λ g m. ground (arith, away g, eq_iff g x))
  ]
]

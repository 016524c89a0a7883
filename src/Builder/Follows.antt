-- ===== src/Builder/Follows.antt =====
-- One node's turn in a compiled graph: it stops where the node's action stops, and goes along an edge of the
-- snapshot or to the end otherwise.
use mathlib.Core.List.{Memᴰ}
use mathlib.Core.List.Memᴰ
use urizo_final_orchestrator.Base.{
  ℕ, true, false, Str, none, some, List, [], ◌∷◌, ◌++◌, Dict, get, eq, eq_iff, mem, nodup, ok, ◌≡◌,
  refl, sym, ap, ◌∙◌, inl, inr, arith, Bool-cases,
}
use urizo_final_orchestrator.Json.{int, text, dict, lookup}
use urizo_final_orchestrator.Snapshot.{SnapshotNode, VersionedSnapshot}
use urizo_final_orchestrator.Snapshot.Validate.{end_type, find_node, ids, of_type}
use urizo_final_orchestrator.Snapshot.Valid.{Valid}
use urizo_final_orchestrator.Snapshot.Guardrail.{only_of_type}
use urizo_final_orchestrator.Node.{NodeInvocation, NodeResult, NodeHandler, returned}
use urizo_final_orchestrator.Builder.{MonitorStatus, running, completed, Report}
use urizo_final_orchestrator.Builder.Compile.{target_of, route_key, limit_of}
use urizo_final_orchestrator.Builder.Action.{
  next_node_sequence, loop_counts, count_limited, count_fields, invocation_of, loop_counts_key,
  last_port_key, sequence_key,
}
use urizo_final_orchestrator.Builder.Run.{Cursor}
use urizo_final_orchestrator.Builder.Compiled.{find_node-Memᴰ}

pub of_type-Memᴰ :
    (t : Str) (k : SnapshotNode) (ns : List SnapshotNode)
    → Memᴰ k (of_type t ns)
    → (k.node_type ≡ t) × Memᴰ k ns
unfolding of_type
of_type-Memᴰ t k [] m = absurd (Memᴰ.not-nil m)
of_type-Memᴰ t k (n ∷ ns) m = elim (Bool-cases (eq n.node_type t)) [
  | inl kind ↦ elim (Memᴰ.cases_cons (rw kind at m)) [
    | inl this ↦
        let typed : k.node_type ≡ t =
          ap (λ (x : SnapshotNode). x.node_type) this ∙ (eq_iff n.node_type t).0 kind in
        (typed, Memᴰ.head this)
    | inr later ↦ let (typed, l) = of_type-Memᴰ t k ns later in (typed, Memᴰ.tail l)
  ]
  | inr other ↦ let (typed, l) = of_type-Memᴰ t k ns (rw other at m) in (typed, Memᴰ.tail l)
]

pub Memᴰ-ids :
    (k : SnapshotNode) (ns : List SnapshotNode) → Memᴰ k ns → mem k.node_id (ids ns) ≡ true
unfolding ids mem
Memᴰ-ids k [] m = absurd (Memᴰ.not-nil m)
Memᴰ-ids k (n ∷ ns) m = elim (Memᴰ.cases_cons m) [
  | inl this ↦
      ground (arith, (eq_iff k.node_id n.node_id).1 (ap (λ (x : SnapshotNode). x.node_id) this))
  | inr later ↦ ground (arith, Memᴰ-ids k ns later)
]

-- With distinct ids, a node is found by its own.
find_node-of_Memᴰ :
    (k : SnapshotNode) (ns : List SnapshotNode)
    → nodup (ids ns) ≡ true
    → Memᴰ k ns
    → find_node k.node_id ns ≡ some k
unfolding ids nodup find_node
find_node-of_Memᴰ k [] d m = absurd (Memᴰ.not-nil m)
find_node-of_Memᴰ k (n ∷ ns) d m = elim (Memᴰ.cases_cons m) [
  | inl this ↦
      let same : eq n.node_id k.node_id ≡ true =
        (eq_iff n.node_id k.node_id).1 (ap (λ (x : SnapshotNode). x.node_id) (sym this)) in
      rw same (ap some (sym this))
  | inr later ↦
      let apart : eq n.node_id k.node_id ≡ false =
        ground (arith, Memᴰ-ids k ns later, eq_iff n.node_id k.node_id) in
      rw apart (find_node-of_Memᴰ k ns (ground arith) later)
]

module _ (s : VersionedSnapshot) (c : Valid s) where
  end_listed : (c.end.node_type ≡ end_type) × Memᴰ c.end s.nodes
  end_listed = of_type-Memᴰ end_type c.end s.nodes (rw c.ends (Memᴰ.head refl))

  -- A node has the end's id just when it has the end's type.
  pub end_by_id :
      (a : Str) (n : SnapshotNode)
      → find_node a s.nodes ≡ some n
      → eq n.node_type end_type ≡ eq n.node_id c.end.node_id
  end_by_id a n found =
      let (named, listed) = find_node-Memᴰ a s.nodes n found in
      let (typed, last) = end_listed in
      elim (Bool-cases (eq n.node_id c.end.node_id)) [
        | inl here ↦
            let same = (eq_iff n.node_id c.end.node_id).0 here in
            let own = find_node-of_Memᴰ n s.nodes c.distinct listed in
            let other = find_node-of_Memᴰ c.end s.nodes c.distinct last in
            let one : n ≡ c.end = cc (ap (λ (x : Str). find_node x s.nodes) same) in
            let kind =
              (eq_iff n.node_type end_type).1
                (ap (λ (x : SnapshotNode). x.node_type) one ∙ typed) in
            kind ∙ sym here
        | inr away ↦ elim (Bool-cases (eq n.node_type end_type)) [
          | inr other ↦ other ∙ sym away
          | inl kind ↦
              let one =
                only_of_type end_type n c.end s.nodes c.ends ((eq_iff n.node_type end_type).0 kind)
                  listed in
              let hit =
                (eq_iff n.node_id c.end.node_id).1 (ap (λ (x : SnapshotNode). x.node_id) one) in
              absurd (ground (arith, hit, away))
        ]
      ]

abbrev pub report : Str → ℕ → MonitorStatus → Report
report a sequence status = record {
  node_id = a;
  node_sequence = sequence;
  status = status;
  error_code = none;
}

-- A turn that goes on: the port that was taken, and the counters before and after.
pub record Moved {W : Type 0} (s : VersionedSnapshot) (handlers : Dict (NodeHandler W))
    (before after : Cursor W) : Type 0 where
  pub node : SnapshotNode
  pub handler : NodeHandler W
  pub invocation : NodeInvocation
  pub result : NodeResult
  pub found : find_node before.at s.nodes ≡ some node
  pub bound : get before.at handlers ≡ some handler
  pub invoked : invocation_of s node before.state ≡ ok invocation
  pub handled : (handler before.world invocation).0 ≡ returned result
  pub port : Str
  pub given : result.port ≡ some port
  pub counts : Dict ℕ
  pub counted : Dict ℕ
  pub sequence : ℕ
  pub edge : target_of (before.at, port) s.edges ≡ some after.at
  pub read : loop_counts s.config.loop_limits (lookup loop_counts_key before.state) ≡ ok counts
  pub counts_route :
      count_limited
        (route_key before.at port after.at)
        (limit_of (route_key before.at port after.at) s.config.loop_limits)
        counts
      ≡ ok counted
  pub written : lookup loop_counts_key after.state ≡ some (dict (count_fields counted))
  pub numbered : next_node_sequence (lookup sequence_key before.state) ≡ ok sequence
  pub reported :
      after.reports
      ≡ before.reports
        ++ (report before.at sequence running ∷ report before.at sequence completed ∷ [])
  pub port_written : lookup last_port_key after.state ≡ some (text port)
  pub sequence_written : lookup sequence_key after.state ≡ some (int sequence)

-- ===== src/Builder/Compiled.antt =====
-- What `SnapshotGraphBuilder.compile` has bound to the nodes of a snapshot that it compiled.
use mathlib.Core.List.{Memᴰ}
use urizo_final_orchestrator.Base.{
  true, false, Str, some, List, [], ◌∷◌, Dict, get, put, get-put, eq, eq_iff, mem, nodup, same_set,
  ok, err, guard, >>=-eq-ok, guard-eq-ok, ok_inj, ◌≡◌, refl, sym, ap, ◌∙◌, inl, inr, arith,
  Bool-cases,
}
use urizo_final_orchestrator.Json.{text}
use urizo_final_orchestrator.Snapshot.{SnapshotNode, SnapshotEdge, VersionedSnapshot}
use urizo_final_orchestrator.Snapshot.Freeze.{thaw_object}
use urizo_final_orchestrator.Snapshot.Validate.{start_type, end_type, of_type, ids, find_node}
use urizo_final_orchestrator.Snapshot.Valid.{Valid}
use urizo_final_orchestrator.Node.{NodeHandler, NodeHandlerRegistration, NodeRegistry}
use urizo_final_orchestrator.Node.Registry.{Registering, resolve}
use urizo_final_orchestrator.Builder.{type_mismatch, ports_mismatch, Exit, Graph}
use urizo_final_orchestrator.Builder.Compile.{
  check_verdict, resolved, expected_ports, bind_node, bind_nodes, next_of,
  validate_common_failure_routes, exit_of, exits_of, compile,
}

pub find_node-Memᴰ :
    (a : Str) (ns : List SnapshotNode) (n : SnapshotNode)
    → find_node a ns ≡ some n
    → (n.node_id ≡ a) × Memᴰ n ns
unfolding find_node
find_node-Memᴰ a [] n h = absurd (cc)
find_node-Memᴰ a (k ∷ ns) n h = elim (Bool-cases (eq k.node_id a)) [
  | inl this ↦
      let same : k ≡ n = cc (rw this at h) in
      rw (← same) ((eq_iff k.node_id a).0 this, Memᴰ.head refl)
  | inr other ↦
      let (named, listed) = find_node-Memᴰ a ns n (rw other at h) in (named, Memᴰ.tail listed)
]

-- A node's handler, and what the registry said of it.
pub record Bound {W : Type 0} (registry : NodeRegistry W) (handlers : Dict (NodeHandler W))
    (n : SnapshotNode) : Type 0 where
  pub registration : NodeHandlerRegistration W
  pub resolves : resolve registry (text n.handler_key) ≡ ok registration
  pub typed : mem n.node_type registration.node_types ≡ true
  pub ported : same_set n.result_ports (expected_ports n registration) ≡ true
  pub configured :
      check_verdict n.node_id (registration.config_validator (thaw_object n.config)) ≡ ok tt
  pub handled : get n.node_id handlers ≡ some registration.handler

module _ {W : Type 0} (registry : NodeRegistry W) where
  resolved_ok :
      (a : Str) (r : Registering (NodeHandlerRegistration W)) (x : NodeHandlerRegistration W)
      → resolved a r ≡ ok x
      → r ≡ ok x
  unfolding resolved
  resolved_ok a (err e) x h = cc
  resolved_ok a (ok y) x h = ap ok (ok_inj h)

  bind_node_ok :
      (n : SnapshotNode) (h : NodeHandler W) (handlers : Dict (NodeHandler W))
      → bind_node registry n ≡ ok h
      → get n.node_id handlers ≡ some h
      → Bound registry handlers n
  unfolding bind_node
  bind_node_ok n h handlers e there =
      let (r, er, h1) =
        >>=-eq-ok (resolved n.node_id (resolve registry (text n.handler_key))) _ e in
      let (_, typed, h2) =
        >>=-eq-ok (guard (mem n.node_type r.node_types) (type_mismatch n.node_id)) _ h1 in
      let (_, ported, h3) =
        >>=-eq-ok (guard (same_set n.result_ports (expected_ports n r)) (ports_mismatch n.node_id))
          _ h2 in
      let (_, configured, last) =
        >>=-eq-ok (check_verdict n.node_id (r.config_validator (thaw_object n.config))) _ h3 in
      record {
        registration = r;
        resolves = resolved_ok n.node_id _ r er;
        typed = guard-eq-ok _ (type_mismatch n.node_id) typed;
        ported = guard-eq-ok _ (ports_mismatch n.node_id) ported;
        configured = configured;
        handled = there ∙ ap some (sym (ok_inj last));
      }

  bind_nodes-other :
      (a : Str) (ns : List SnapshotNode) (before after : Dict (NodeHandler W))
      → bind_nodes registry ns before ≡ ok after
      → mem a (ids ns) ≡ false
      → get a after ≡ get a before
  unfolding bind_nodes ids mem
  bind_nodes-other a [] before after h m = ap (get a) (sym (ok_inj h))
  bind_nodes-other a (n ∷ ns) before after h m =
      let (handler, e, rest) = >>=-eq-ok (bind_node registry n) _ h in
      ground (
        arith,
        bind_nodes-other a ns (put n.node_id handler before) after rest,
        get-put n.node_id a handler before,
        eq_iff a n.node_id,
        eq_iff n.node_id a,
      )

  bind_nodes_ok :
      (a : Str) (n : SnapshotNode) (ns : List SnapshotNode) (before after : Dict (NodeHandler W))
      → bind_nodes registry ns before ≡ ok after
      → nodup (ids ns) ≡ true
      → find_node a ns ≡ some n
      → Bound registry after n
  unfolding bind_nodes ids nodup find_node
  bind_nodes_ok a n [] before after h d f = absurd (cc)
  bind_nodes_ok a n (k ∷ ns) before after h d f =
      let (handler, e, rest) = >>=-eq-ok (bind_node registry k) _ h in
      elim (Bool-cases (eq k.node_id a)) [
        | inl this ↦
            let same : k ≡ n = cc (rw this at f) in
            let kept =
              bind_nodes-other k.node_id ns (put k.node_id handler before) after rest
                (ground arith) in
            let there : get k.node_id after ≡ some handler = ground (
              arith,
              kept,
              get-put k.node_id k.node_id handler before,
              eq_iff k.node_id k.node_id,
            ) in
            rw (← same) (bind_node_ok k handler after e there)
        | inr other ↦
            bind_nodes_ok a n ns (put k.node_id handler before) after rest (ground arith)
              (rw other at f)
      ]

exits_of_ok :
    (a end_id : Str) (n : SnapshotNode) (edges : List SnapshotEdge) (ns : List SnapshotNode)
    (exits : Dict Exit)
    → exits_of edges end_id ns ≡ ok exits
    → find_node a ns ≡ some n
    → (x : Exit) × (get a exits ≡ some x) × (exit_of edges end_id n ≡ ok x)
unfolding exits_of find_node get
exits_of_ok a end_id n edges [] exits h f = absurd (cc)
exits_of_ok a end_id n edges (k ∷ ns) exits h f =
    let (x, e, h1) = >>=-eq-ok (exit_of edges end_id k) _ h in
    let (rest, r, last) = >>=-eq-ok (exits_of edges end_id ns) _ h1 in
    elim (Bool-cases (eq k.node_id a)) [
      | inl this ↦
          let same : k ≡ n = cc (rw this at f) in (x, rw (← ok_inj last, this) refl, rw (← same) e)
      | inr other ↦
          let (y, there, ey) = exits_of_ok a end_id n edges ns rest r (rw other at f) in
          (y, rw (← ok_inj last, other) there, ey)
    ]

-- The graph that `compile` made of a valid snapshot: each node found in it has its exit and its handler.
pub record Built {W : Type 0} (registry : NodeRegistry W) (s : VersionedSnapshot) (c : Valid s)
    (g : Graph W) : Type 0 where
  pub same_snapshot : g.snapshot ≡ s
  pub starts_at : g.entry ≡ c.start.node_id
  pub exits :
      (a : Str) (n : SnapshotNode)
      → find_node a s.nodes ≡ some n
      → (x : Exit) × (get a g.exits ≡ some x) × (exit_of s.edges c.end.node_id n ≡ ok x)
  pub bound :
      (a : Str) (n : SnapshotNode) → find_node a s.nodes ≡ some n → Bound registry g.handlers n
  pub routed : validate_common_failure_routes s.edges c.end.node_id s.nodes ≡ ok tt

next_of_single :
    (ns : List SnapshotNode) (n k : SnapshotNode) → ns ≡ k ∷ [] → next_of ns ≡ ok n → n ≡ k
unfolding next_of
next_of_single ns n k one h = sym (ok_inj (rw one at h))

pub built :
    {W : Type 0} (registry : NodeRegistry W) (s : VersionedSnapshot) (c : Valid s) (g : Graph W)
    → compile registry s ≡ ok g
    → Built registry s c g
unfolding compile
built registry s c g h =
    let (handlers, bound, h1) = >>=-eq-ok (bind_nodes registry s.nodes []) _ h in
    let (first, ef, h2) = >>=-eq-ok (next_of (of_type start_type s.nodes)) _ h1 in
    let (last, el, h3) = >>=-eq-ok (next_of (of_type end_type s.nodes)) _ h2 in
    let (_, routed, h4) =
      >>=-eq-ok (validate_common_failure_routes s.edges last.node_id s.nodes) _ h3 in
    let (exits, ex, final) = >>=-eq-ok (exits_of s.edges last.node_id s.nodes) _ h4 in
    let f = next_of_single (of_type start_type s.nodes) first c.start c.starts ef in
    let l = next_of_single (of_type end_type s.nodes) last c.end c.ends el in
    let l_id : last.node_id ≡ c.end.node_id = ap (λ (n : SnapshotNode). n.node_id) l in
    rw (← ok_inj final) (record {
      same_snapshot = refl;
      starts_at = ap (λ (n : SnapshotNode). n.node_id) f;
      exits =
          λ a n found. exits_of_ok a c.end.node_id n s.edges s.nodes exits (rw l_id at ex) found;
      bound = λ a n found. bind_nodes_ok registry a n s.nodes [] handlers bound c.distinct found;
      routed = rw l_id at routed;
    })

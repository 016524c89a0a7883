-- ===== src/Snapshot/Guardrail.antt =====
-- An accepted snapshot has no way from its start to its end round the locked guardrails.
use mathlib.Core.List.{Memᴰ}
use mathlib.Core.List.Memᴰ
use urizo_final_orchestrator.Base.{
  true, false, not, ◌&&◌, Str, ◌≡◌, refl, sym, ap, ◌∙◌, inl, inr, List, [], ◌∷◌, ok, eq, eq_iff,
  mem, Route, mem_by, arith, Bool-cases,
}
use urizo_final_orchestrator.Snapshot.{SnapshotNode, VersionedSnapshot}
use urizo_final_orchestrator.Snapshot.Graph.{Adjacency, targets}
use urizo_final_orchestrator.Snapshot.Reach.{Walk, reachable_nodes-iff-Walk}
use urizo_final_orchestrator.Snapshot.Validate.{
  start_type, end_type, of_type, adjacency_without, remove_all, without_nodes, guardrail_ids,
  validate_snapshot,
}
use urizo_final_orchestrator.Snapshot.Adjacency.{targets-adjacency_without}
use urizo_final_orchestrator.Snapshot.Trail.{
  Trail, visited, IsLockedGuardrail, IsLockedGuardrail-of_mem, meets,
}
use urizo_final_orchestrator.Snapshot.Valid.{Valid, valid}

mem-remove_all :
    (gs ts : List Str) (b : Str) → mem b (remove_all gs ts) ≡ (mem b ts && not (mem b gs))
unfolding remove_all mem
mem-remove_all gs [] b = refl
mem-remove_all gs (t ∷ ts) b = ground (arith, mem-remove_all gs ts b, eq_iff b t)

targets-without_nodes :
    (gs : List Str) (adj : Adjacency) (a b : Str)
    → mem a gs ≡ false
    → mem b (targets (without_nodes gs adj) a) ≡ (mem b (targets adj a) && not (mem b gs))
unfolding without_nodes targets mem
targets-without_nodes gs [] a b h = refl
targets-without_nodes gs ((k, ts) ∷ adj) a b h =
    ground (arith, targets-without_nodes gs adj a b, mem-remove_all gs ts b, eq_iff k a)

pub mem-of_type :
    (t : Str) (n : SnapshotNode) (ns : List SnapshotNode)
    → n.node_type ≡ t
    → Memᴰ n ns
    → Memᴰ n (of_type t ns)
unfolding of_type
mem-of_type t n [] e m = absurd (Memᴰ.not-nil m)
mem-of_type t n (k ∷ ns) e m = elim (Memᴰ.cases_cons m) [
  | inl this ↦
      let hit : eq k.node_type t ≡ true =
        (eq_iff k.node_type t).1 (ap (λ (x : SnapshotNode). x.node_type) (sym this) ∙ e) in
      rw hit (Memᴰ.head this)
  | inr later ↦ elim (Bool-cases (eq k.node_type t)) [
    | inl hit ↦ rw hit (Memᴰ.tail (mem-of_type t n ns e later))
    | inr miss ↦ rw miss (mem-of_type t n ns e later)
  ]
]

-- The one node of its type.
pub only_of_type :
    (t : Str) (n k : SnapshotNode) (ns : List SnapshotNode)
    → of_type t ns ≡ k ∷ []
    → n.node_type ≡ t
    → Memᴰ n ns
    → n ≡ k
only_of_type t n k ns one e m = Memᴰ.eq_of_singleton (subst_one (mem-of_type t n ns e m))
  where
    subst_one : Memᴰ n (of_type t ns) → Memᴰ n (k ∷ [])
    subst_one l = rw one at l

visited-last :
    (s : VersionedSnapshot) (a : Str) {v : Str} {rs : List Route}
    → Trail s a v rs
    → mem v (visited a rs) ≡ true
unfolding mem
visited-last s a Trail.start = ground (arith, (eq_iff a a).1 refl)
visited-last s a (Trail.follow p v t e) = ground (arith, (eq_iff v v).1 refl)

module _ (s : VersionedSnapshot) (c : Valid s) where
  abbrev gs : List Str
  gs = guardrail_ids s

  -- A trail that visits no guardrail is a walk of the graph without them.
  unguarded-Walk :
      (a : Str) {v : Str} {rs : List Route}
      → Trail s a v rs
      → ((g : Str) → mem g (visited a rs) ≡ true → mem g gs ≡ false)
      → Walk (without_nodes gs (adjacency_without s [])) a v
  unfolding mem mem_by
  unguarded-Walk a Trail.start away = Walk.here
  unguarded-Walk a (Trail.follow {u} {rs} p v t e) away =
      let before = λ (g : Str) (m : mem g (visited a rs) ≡ true). away g (ground arith) in
      let edge = (targets-adjacency_without s [] c.joined u v).1 (p, e, refl) in
      Walk.step (unguarded-Walk a t before) (
        ground (
          arith,
          targets-without_nodes gs (adjacency_without s []) u v (before u (visited-last s a t)),
          edge,
          away v (ground (arith, (eq_iff v v).1 refl)),
        ))

-- In a snapshot that `validate_snapshot` accepts, every trail along its edges from its start node
-- to its end node visits a node of type guardrail whose config has `locked` set to true.
pub guardrail_on_every-Trail :
    (s : VersionedSnapshot) (first last : SnapshotNode) {rs : List Route}
    → validate_snapshot s ≡ ok tt
    → Memᴰ first s.nodes
    → first.node_type ≡ start_type
    → Memᴰ last s.nodes
    → last.node_type ≡ end_type
    → Trail s first.node_id last.node_id rs
    → (g : Str) × (mem g (visited first.node_id rs) ≡ true) × IsLockedGuardrail s g
guardrail_on_every-Trail s first last {rs} h mf tf ml tl t =
    let c = valid s h in
    let f = only_of_type start_type first c.start s.nodes c.starts tf mf in
    let l = only_of_type end_type last c.end s.nodes c.ends tl ml in
    elim (meets (guardrail_ids s) (visited first.node_id rs)) [
      | inl (g, m, is_guardrail) ↦ (g, m, IsLockedGuardrail-of_mem s g is_guardrail c.locked)
      | inr away ↦
          let w = unguarded-Walk s c first.node_id t away in
          let w' : Walk (without_nodes (guardrail_ids s) (adjacency_without s [])) c.start.node_id
              c.end.node_id =
            rw (f, l) at w in
          let hit =
            (reachable_nodes-iff-Walk c.start.node_id
                (without_nodes (guardrail_ids s) (adjacency_without s [])) c.unguarded c.end.node_id
                c.bypasses).1
              w' in
          absurd (ground (arith, hit, c.no_bypass))
    ]

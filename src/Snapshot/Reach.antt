-- ===== src/Snapshot/Reach.antt =====
-- `_reachable_nodes` ends, and finds exactly the nodes that a walk leads to.
use urizo_final_orchestrator.Base.{
  ℕ, zero, suc, ◌+◌, ◌≤◌, true, false, Str, ◌≡◌, refl, ◌↔◌, ◌⊎◌, inl, inr, some, List, [], ◌∷◌,
  ◌++◌, if◌then◌else◌, eq, eq_iff, eq_refl, mem, mem-append, length, length-append, arith,
  Bool-cases,
}
use urizo_final_orchestrator.Snapshot.Graph.{
  Adjacency, targets, reach_loop, edge_count, reachable_nodes,
}

-- The walks of the adjacency from `source`.
pub data Walk (adj : Adjacency) (source : Str) : Str → Type 0 where
  here : Walk adj source source
  step : {u v : Str} → Walk adj source u → mem v (targets adj u) ≡ true → Walk adj source v

-- The sizes of the target sets of the nodes not visited.
unpushed : List Str → Adjacency → ℕ
unpushed visited [] = 0
unpushed visited ((k, ts) ∷ adj) = (if mem k visited then 0 else length ts) + unpushed visited adj

unpushed-nil : (adj : Adjacency) → unpushed [] adj ≡ edge_count adj
unfolding unpushed edge_count mem
unpushed-nil [] = refl
unpushed-nil ((k, ts) ∷ adj) = omega (arith, unpushed-nil adj)

unpushed-le : (u : Str) (vs : List Str) (adj : Adjacency) → unpushed (u ∷ vs) adj ≤ unpushed vs adj
unfolding unpushed mem
unpushed-le u vs [] = omega arith
unpushed-le u vs ((k, ts) ∷ adj) = ground (arith, unpushed-le u vs adj)

-- A first visit pays for the targets that it pushes.
unpushed-visit :
    (u : Str) (vs : List Str) (adj : Adjacency)
    → mem u vs ≡ false
    → length (targets adj u) + unpushed (u ∷ vs) adj ≤ unpushed vs adj
unfolding unpushed mem targets
unpushed-visit u vs [] h = omega arith
unpushed-visit u vs ((k, ts) ∷ adj) h =
    ground (arith, unpushed-visit u vs adj, unpushed-le u vs adj, eq_iff k u, eq_refl u)

reach_loop_ends :
    (fuel : ℕ) (adj : Adjacency) (visited pending : List Str)
    → length pending + unpushed visited adj ≤ fuel
    → (vs : List Str) × (reach_loop fuel adj visited pending ≡ some vs)
unfolding reach_loop
reach_loop_ends zero adj visited [] h = (visited, refl)
reach_loop_ends (suc fuel) adj visited [] h = (visited, refl)
reach_loop_ends zero adj visited (u ∷ pending) h = absurd (omega arith)
reach_loop_ends (suc fuel) adj visited (u ∷ pending) h = elim (Bool-cases (mem u visited)) [
  | inl old ↦ rw (old, reach_loop) (reach_loop_ends fuel adj visited pending (omega arith))
  | inr new ↦
      rw (new, reach_loop)
        (reach_loop_ends fuel adj (u ∷ visited) (targets adj u ++ pending)
          (omega (arith, unpushed-visit u visited adj new, length-append (targets adj u) pending)))
]

-- The search returns, for every adjacency and every source.
pub reachable_nodes_returns :
    (source : Str) (adj : Adjacency) → (vs : List Str) × (reachable_nodes source adj ≡ some vs)
unfolding reachable_nodes
reachable_nodes_returns source adj =
    reach_loop_ends (suc (edge_count adj)) adj [] (source ∷ []) (omega (arith, unpushed-nil adj))

module _ (adj : Adjacency) (source : Str) where
  record Inv (visited pending : List Str) : Type 0 where
    sound : (v : Str) → mem v visited ≡ true → Walk adj source v
    queued : (v : Str) → mem v pending ≡ true → Walk adj source v
    first : (mem source visited ≡ true) ⊎ (mem source pending ≡ true)
    closed :
        (u v : Str)
        → mem u visited ≡ true
        → mem v (targets adj u) ≡ true
        → (mem v visited ≡ true) ⊎ (mem v pending ≡ true)

  Inv-skip :
      (u : Str) (visited pending : List Str)
      → mem u visited ≡ true
      → Inv visited (u ∷ pending)
      → Inv visited pending
  unfolding mem
  Inv-skip u visited pending old h = record {
    sound = h.sound;
    queued = λ v m. h.queued v (ground arith);
    first = ground (arith, h.first, eq_iff source u);
    closed = λ a v m e. ground (arith, h.closed a v, eq_iff v u);
  }

  Inv-visit :
      (u : Str) (visited pending : List Str)
      → Inv visited (u ∷ pending)
      → Inv (u ∷ visited) (targets adj u ++ pending)
  unfolding mem
  Inv-visit u visited pending h = record {
    sound = λ v m. elim (Bool-cases (eq v u)) [
      | inl same ↦ rw ((eq_iff v u).0 same) to_u
      | inr other ↦ h.sound v (rw other at m)
    ];
    queued = λ v m. elim (Bool-cases (mem v (targets adj u))) [
      | inl new ↦ Walk.step to_u new
      | inr old ↦ h.queued v (ground (arith, mem-append v (targets adj u) pending))
    ];
    first = ground (arith, h.first, mem-append source (targets adj u) pending);
    closed =
        λ a v m e. ground (arith, h.closed a v, eq_iff a u, mem-append v (targets adj u) pending);
  }
    where
      to_u : Walk adj source u
      to_u = h.queued u (ground (arith, eq_refl u))

  loop_Inv :
      (fuel : ℕ) (visited pending vs : List Str)
      → Inv visited pending
      → reach_loop fuel adj visited pending ≡ some vs
      → Inv vs []
  unfolding reach_loop
  loop_Inv zero visited [] vs h e = ground arith
  loop_Inv (suc fuel) visited [] vs h e = ground arith
  loop_Inv zero visited (u ∷ pending) vs h e = cc
  loop_Inv (suc fuel) visited (u ∷ pending) vs h e = elim (Bool-cases (mem u visited)) [
    | inl old ↦
        loop_Inv fuel visited pending vs (Inv-skip u visited pending old h)
          (rw (old, reach_loop) at e)
    | inr new ↦
        loop_Inv fuel (u ∷ visited) (targets adj u ++ pending) vs (Inv-visit u visited pending h)
          (rw (new, reach_loop) at e)
  ]

  Inv-start : Inv [] (source ∷ [])
  unfolding mem
  Inv-start = record {
    sound = λ v m. absurd (cc);
    queued = λ v m. rw ((eq_iff v source).0 (ground arith)) here;
    first = inr (ground (arith, eq_refl source));
    closed = λ u v m e. absurd (cc);
  }

  complete : (vs : List Str) {v : Str} → Inv vs [] → Walk adj source v → mem v vs ≡ true
  unfolding mem
  complete vs h here = ground (arith, h.first)
  complete vs h (step {u} {v} w e) = ground (arith, h.closed u v (complete vs h w) e)

-- What the search returns holds a node exactly when a walk leads to it from the source.
pub reachable_nodes-iff-Walk :
    (source : Str) (adj : Adjacency) (vs : List Str) (v : Str)
    → reachable_nodes source adj ≡ some vs
    → (mem v vs ≡ true) ↔ Walk adj source v
unfolding reachable_nodes
reachable_nodes-iff-Walk source adj vs v e =
    let inv =
      loop_Inv adj source (suc (edge_count adj)) [] (source ∷ []) vs (Inv-start adj source) e in
    (inv.sound v, complete adj source vs inv)

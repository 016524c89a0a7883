-- ===== src/Snapshot/Order/Cycle.antt =====
-- `_contains_cycle` says no exactly when the nodes can be put in a topological order.
use urizo_final_orchestrator.Base.{
  ℕ, zero, suc, ◌<◌, Bool, true, false, not, Str, ◌==◌, ◌≡◌, refl, ◌↔◌, some, List, [], ◌∷◌, eq_iff,
  eq_refl, mem, nodup, keys, length, arith,
}
use urizo_final_orchestrator.Snapshot.Graph.{
  Adjacency, Counters, targets, sources, kahn_loop, contains_cycle,
}
use urizo_final_orchestrator.Snapshot.Order.Counters.{
  waiting, IsWellFormed, first_counters, keys-first_counters, length-keys,
}
use urizo_final_orchestrator.Snapshot.Order.Kahn.{
  Inv, Inv-start, undone-nil, undone_zero, undone_all, rank, rank-lt-length,
}
use urizo_final_orchestrator.Snapshot.Order.Loop.{targets-keys, kahn_loop_ends}

-- A number for each key below their count, that grows along each edge.
pub record IsRanking (adj : Adjacency) (place : Str → ℕ) : Type 0 where
  pub grows : (u v : Str) → mem v (targets adj u) ≡ true → place u < place v
  pub below : (u : Str) → mem u (keys adj) ≡ true → place u < length adj

targets_outside : (u : Str) (adj : Adjacency) → mem u (keys adj) ≡ false → targets adj u ≡ []
unfolding targets mem
targets_outside u [] h = refl
targets_outside u ((k, ts) ∷ adj) h = ground (arith, targets_outside u adj, eq_iff k u, eq_iff u k)

pub keys_of_target :
    (u v : Str) (adj : Adjacency) → mem v (targets adj u) ≡ true → mem u (keys adj) ≡ true
unfolding mem
keys_of_target u v adj m = ground (arith, targets_outside u adj)

-- With every predecessor done there is nothing left to wait for.
waiting_none :
    (v : Str) (done : List Str) (adj : Adjacency)
    → nodup (keys adj) ≡ true
    → ((u : Str) → mem v (targets adj u) ≡ true → mem u done ≡ true)
    → waiting v done adj ≡ 0
unfolding waiting nodup targets mem
waiting_none v done [] n h = refl
waiting_none v done ((k, ts) ∷ adj) n h = ground (
  arith,
  h k,
  eq_refl k,
  waiting_none v done adj (ground arith)
      (λ u m. ground (arith, h u, eq_iff k u, targets_outside u adj)),
)

contains_cycle-eq :
    (adj : Adjacency) (n : ℕ)
    → kahn_loop (length adj) adj (first_counters adj) (sources (first_counters adj)) 0 ≡ some n
    → length (first_counters adj) ≡ length adj
    → contains_cycle adj ≡ some (not (n == length adj))
unfolding contains_cycle
contains_cycle-eq adj n e size = ground (arith, e, size)

module _ (adj : Adjacency) (wf : IsWellFormed adj) where
  -- How the loop of `_contains_cycle` ends.
  record End (answer : Bool) : Type 0 where
    counters : Counters
    done : List Str
    visited : ℕ
    inv : Inv adj counters [] done visited
    said : answer ≡ not (visited == length adj)
    returned : contains_cycle adj ≡ some answer

  ending : (answer : Bool) × End answer
  ending =
      let d = first_counters adj in
      let (n, d', done, e, inv) =
        kahn_loop_ends adj wf (length adj) d (sources d) [] 0 (Inv-start adj wf)
          (omega (arith, undone-nil adj)) in
      let size = length-keys d adj (keys-first_counters adj) in
      (
        not (n == length adj),
        record {
          counters = d';
          done = done;
          visited = n;
          inv = inv;
          said = refl;
          returned = contains_cycle-eq adj n e size;
        },
      )

  ranking :
      (done : List Str) (d : Counters) (n : ℕ)
      → Inv adj d [] done n
      → n ≡ length adj
      → IsRanking adj (rank done)
  ranking done d n inv full =
      let all = λ (u : Str) (m : mem u (keys adj) ≡ true).
        undone_zero u done adj (omega (arith, inv.tally)) m in
      record {
        grows =
            λ u v m. (inv.ordered u v (all v (targets-keys u v (keys adj) adj wf.closed m)) m).1;
        below = λ u m. omega (arith, rank-lt-length done u (all u m), inv.popped);
      }

  exhausted :
      (place : Str → ℕ) (done : List Str) (d : Counters) (n : ℕ)
      → IsRanking adj place
      → Inv adj d [] done n
      → (fuel : ℕ) (u : Str) → mem u (keys adj) ≡ true
      → place u < fuel
      → mem u done ≡ true
  unfolding mem
  exhausted place done d n r inv zero u m lt = absurd (omega arith)
  exhausted place done d n r inv (suc fuel) u m lt =
      let none_left = waiting_none u done adj wf.distinct (λ a e.
        exhausted place done d n r inv fuel a (keys_of_target a u adj e)
          (omega (arith, r.grows a u e))) in
      ground (arith, inv.swept u m none_left)

  -- On an adjacency without repeats whose targets are keys, `_contains_cycle` answers no exactly when
  -- the nodes can be numbered so that each edge leads to a greater number below their count.
  pub contains_cycle_iff :
      (contains_cycle adj ≡ some false) ↔ ((place : Str → ℕ) × IsRanking adj place)
  contains_cycle_iff = let (answer, e) = ending in (forth answer e, back answer e)
    where
      forth :
          (answer : Bool)
          → End answer
          → contains_cycle adj ≡ some false
          → (place : Str → ℕ) × IsRanking adj place
      forth answer e h = (
        rank e.done,
        ranking e.done e.counters e.visited e.inv (ground (arith, e.said, e.returned)),
      )

      back :
          (answer : Bool)
          → End answer
          → ((place : Str → ℕ) × IsRanking adj place)
          → contains_cycle adj ≡ some false
      back answer e (place, r) =
          let full = undone_all e.done adj (λ u m.
            exhausted place e.done e.counters e.visited r e.inv (suc (place u)) u m
              (omega arith)) in
          let counted : e.visited ≡ length adj = omega (arith, e.inv.tally) in
          ground (arith, e.said, e.returned, counted)

  -- On such an adjacency, which need not be that of an accepted snapshot, the loop of `_contains_cycle`
  -- ends within as many rounds as there are nodes.
  pub contains_cycle_returns : (answer : Bool) × (contains_cycle adj ≡ some answer)
  contains_cycle_returns = let (answer, e) = ending in (answer, e.returned)

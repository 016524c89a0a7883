-- ===== src/Snapshot/Order/Loop.antt =====
-- A round of the loop of `_contains_cycle` keeps the invariant, and the rounds end.
use urizo_final_orchestrator.Base.{
  ℕ, zero, suc, ◌+◌, ◌-◌, ◌≤◌, true, ◌&&◌, Str, ◌==◌, ◌≡◌, refl, inl, inr, some, List, [], ◌∷◌,
  if◌then◌else◌, eq, eq_iff, eq_refl, mem, nodup, mem-subset, keys, length, arith, Bool-cases,
}
use urizo_final_orchestrator.Snapshot.Graph.{
  Adjacency, Counters, targets, count_of, relax, kahn_loop,
}
use urizo_final_orchestrator.Snapshot.Order.Counters.{
  unit, waiting, AreTargets, IsWellFormed, count_of-relax, mem-relax, nodup-relax,
}
use urizo_final_orchestrator.Snapshot.Order.Kahn.{
  Inv, targets-nodup, waiting-pop, waiting_zero, undone, undone-pop, rank,
}

pub targets-keys :
    (u j : Str) (ks : List Str) (adj : Adjacency)
    → AreTargets ks adj
    → mem j (targets adj u) ≡ true
    → mem j ks ≡ true
unfolding targets mem
targets-keys u j ks [] h m = cc
targets-keys u j ks ((k, ts) ∷ adj) h m =
    ground (arith, targets-keys u j ks adj, mem-subset ts ks j)

module _ (adj : Adjacency) (wf : IsWellFormed adj) (d : Counters) (u : Str)
    (pending done : List Str) (visited : ℕ) (h : Inv adj d (u ∷ pending) done visited) where
  abbrev ts : List Str
  ts = targets adj u

  abbrev d' : Counters
  d' = (relax ts d pending).0

  abbrev pending' : List Str
  pending' = (relax ts d pending).1

  ts-nodup : nodup ts ≡ true
  ts-nodup = targets-nodup u (keys adj) adj wf.closed

  u-pending : mem u (u ∷ pending) ≡ true
  unfolding mem
  u-pending = ground (arith, eq_refl u)

  counter : (j : Str) → count_of j d' ≡ count_of j d - unit (mem j ts)
  counter j = count_of-relax ts d pending j ts-nodup

  member :
      (j : Str) → mem j pending' ≡ (if mem j pending then true else mem j ts && count_of j d == 1)
  member j = mem-relax ts d pending j ts-nodup

  falls : (j : Str) → waiting j (u ∷ done) adj + unit (mem j ts) ≡ waiting j done adj
  falls j = waiting-pop j u done adj wf.distinct (h.apart u u-pending)

  round-ordered :
      (a v : Str)
      → mem v (u ∷ done) ≡ true
      → mem v (targets adj a) ≡ true
      → (mem a (u ∷ done) ≡ true) × (suc (rank (u ∷ done) a) ≤ rank (u ∷ done) v)
  unfolding mem rank
  round-ordered a v m e = elim (Bool-cases (eq v u)) [
    | inl same ↦
        let here : v ≡ u = (eq_iff v u).0 same in
        let before : mem a done ≡ true =
          waiting_zero u a done adj (h.ready u u-pending) (rw here at e) in
        ground (
          arith,
          before,
          h.apart u u-pending,
          rank-lt a before,
          eq_iff u a,
          eq_iff a u,
          eq_iff u v,
          here,
        )
    | inr other ↦
        ground (
          arith,
          h.ordered a v,
          h.apart u u-pending,
          eq_iff u a,
          eq_iff a u,
          eq_iff u v,
          eq_iff v u,
        )
  ]
    where
      rank-lt : (b : Str) → mem b done ≡ true → suc (rank done b) ≤ length done
      rank-lt b m = urizo_final_orchestrator.Snapshot.Order.Kahn.rank-lt-length done b m

  pub Inv-round : Inv adj d' pending' (u ∷ done) (visited + 1)
  unfolding mem nodup
  Inv-round = record {
    counts = λ j. omega (arith, counter j, falls j, h.counts j);
    fresh =
        nodup-relax ts d pending ts-nodup (λ j m. ground (arith, h.counts j, h.ready j))
          (ground (arith, h.fresh));
    apart = λ j m. ground (
      arith,
      member j,
      h.apart j,
      h.spent j,
      h.counts j,
      h.ready u u-pending,
      h.fresh,
      eq_iff j u,
    );
    ready = λ j m. ground (arith, member j, falls j, h.ready j, h.counts j);
    known = λ j m. ground (arith, member j, h.known j, targets-keys u j (keys adj) adj wf.closed);
    spent = λ j m. ground (arith, falls j, h.spent j, h.ready u u-pending, eq_iff j u);
    ordered = round-ordered;
    swept = λ j m z. ground (arith, member j, falls j, h.swept j, h.counts j, eq_iff j u);
    tally = omega (
      arith,
      h.tally,
      undone-pop u done adj wf.distinct (h.apart u u-pending) (h.known u u-pending),
    );
    popped = omega (arith, h.popped);
  }

module _ (adj : Adjacency) (wf : IsWellFormed adj) where
  -- With as much fuel as there are keys left the loop ends, and its count is that of `done`.
  pub kahn_loop_ends :
      (fuel : ℕ) (d : Counters) (pending done : List Str) (visited : ℕ)
      → Inv adj d pending done visited
      → undone done adj ≤ fuel
      → (n : ℕ) × (d' : Counters) × (done' : List Str) × (kahn_loop fuel adj d pending visited
          ≡ some n)
        × Inv adj d' [] done' n
  unfolding kahn_loop
  kahn_loop_ends zero d [] done visited h f = (visited, d, done, refl, h)
  kahn_loop_ends (suc fuel) d [] done visited h f = (visited, d, done, refl, h)
  kahn_loop_ends zero d (u ∷ pending) done visited h f =
      let m = u-pending adj wf d u pending done visited h in
      absurd (omega (arith, undone-pop u done adj wf.distinct (h.apart u m) (h.known u m)))
  kahn_loop_ends (suc fuel) d (u ∷ pending) done visited h f =
      let m = u-pending adj wf d u pending done visited h in
      kahn_loop_ends fuel (d' adj wf d u pending done visited h)
        (pending' adj wf d u pending done visited h) (u ∷ done) (visited + 1)
        (Inv-round adj wf d u pending done visited h)
        (omega (arith, undone-pop u done adj wf.distinct (h.apart u m) (h.known u m)))

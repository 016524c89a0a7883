-- ===== src/Snapshot/Order/Kahn.antt =====
-- The invariant of the loop of `_contains_cycle`, and that the loop ends.
use urizo_final_orchestrator.Base.{
  ℕ, ◌+◌, ◌<◌, true, false, Str, ◌≡◌, refl, ◌⊎◌, inl, List, [], ◌∷◌, if◌then◌else◌, eq, eq_iff,
  eq_refl, mem, nodup, keys, length, arith,
}
use urizo_final_orchestrator.Snapshot.Graph.{Adjacency, Counters, targets, count_of, sources}
use urizo_final_orchestrator.Snapshot.Order.Counters.{
  unit, waiting, AreTargets, IsWellFormed, first_counters, keys-first_counters,
  count_of-first_counters, mem-sources, nodup-sources,
}

waiting_outside :
    (j u : Str) (done : List Str) (adj : Adjacency)
    → mem u (keys adj) ≡ false
    → waiting j (u ∷ done) adj ≡ waiting j done adj
unfolding waiting mem
waiting_outside j u done [] h = refl
waiting_outside j u done ((k, ts) ∷ adj) h =
    ground (arith, waiting_outside j u done adj, eq_iff u k, eq_iff k u)

-- Popping a new node takes its targets' counters down by one.
pub waiting-pop :
    (j u : Str) (done : List Str) (adj : Adjacency)
    → nodup (keys adj) ≡ true
    → mem u done ≡ false
    → waiting j (u ∷ done) adj + unit (mem j (targets adj u)) ≡ waiting j done adj
unfolding waiting mem nodup targets
waiting-pop j u done [] n h = refl
waiting-pop j u done ((k, ts) ∷ adj) n h =
    ground (arith, waiting-pop j u done adj, waiting_outside j u done adj, eq_iff u k, eq_iff k u)

-- With nothing left to wait for, all predecessors are done.
pub waiting_zero :
    (v u : Str) (done : List Str) (adj : Adjacency)
    → waiting v done adj ≡ 0
    → mem v (targets adj u) ≡ true
    → mem u done ≡ true
unfolding waiting mem targets
waiting_zero v u done [] h m = cc
waiting_zero v u done ((k, ts) ∷ adj) h m = ground (arith, waiting_zero v u done adj, eq_iff k u)

pub targets-nodup :
    (u : Str) (ks : List Str) (adj : Adjacency) → AreTargets ks adj → nodup (targets adj u) ≡ true
unfolding targets nodup
targets-nodup u ks [] h = refl
targets-nodup u ks ((k, ts) ∷ adj) h = ground (arith, targets-nodup u ks adj)

-- The keys outside `done`.
unfoldable pub undone : List Str → Adjacency → ℕ
undone done [] = 0
undone done ((k, ts) ∷ adj) = (if mem k done then 0 else 1) + undone done adj

undone_outside :
    (u : Str) (done : List Str) (adj : Adjacency)
    → mem u (keys adj) ≡ false
    → undone (u ∷ done) adj ≡ undone done adj
unfolding undone mem
undone_outside u done [] h = refl
undone_outside u done ((k, ts) ∷ adj) h =
    ground (arith, undone_outside u done adj, eq_iff u k, eq_iff k u)

pub undone-pop :
    (u : Str) (done : List Str) (adj : Adjacency)
    → nodup (keys adj) ≡ true
    → mem u done ≡ false
    → mem u (keys adj) ≡ true
    → undone (u ∷ done) adj + 1 ≡ undone done adj
unfolding undone mem nodup
undone-pop u done [] n h m = cc
undone-pop u done ((k, ts) ∷ adj) n h m =
    ground (arith, undone-pop u done adj, undone_outside u done adj, eq_iff u k, eq_iff k u)

pub undone-nil : (adj : Adjacency) → undone [] adj ≡ length adj
unfolding undone mem
undone-nil [] = refl
undone-nil ((k, ts) ∷ adj) = omega (arith, undone-nil adj)

pub undone_zero :
    (u : Str) (done : List Str) (adj : Adjacency)
    → undone done adj ≡ 0
    → mem u (keys adj) ≡ true
    → mem u done ≡ true
unfolding undone mem
undone_zero u done [] h m = cc
undone_zero u done ((k, ts) ∷ adj) h m = ground (arith, undone_zero u done adj, eq_iff u k)

pub undone_all :
    (done : List Str) (adj : Adjacency)
    → ((u : Str) → mem u (keys adj) ≡ true → mem u done ≡ true)
    → undone done adj ≡ 0
unfolding undone mem
undone_all done [] h = refl
undone_all done ((k, ts) ∷ adj) h =
    ground (arith, h k, eq_refl k, undone_all done adj (λ u m. h u (ground arith)))

-- The place of a node in the order in which the nodes were popped.
unfoldable pub rank : List Str → Str → ℕ
rank [] u = 0
rank (x ∷ done) u = if eq x u then length done else rank done u

pub rank-lt-length : (done : List Str) (u : Str) → mem u done ≡ true → rank done u < length done
unfolding rank mem
rank-lt-length [] u m = cc
rank-lt-length (x ∷ done) u m = ground (arith, rank-lt-length done u, eq_iff x u, eq_iff u x)

module _ (adj : Adjacency) where
  -- `done` is the list of the nodes popped, the last in front.
  pub record Inv (d : Counters) (pending done : List Str) (visited : ℕ) : Type 0 where
    pub counts : (j : Str) → count_of j d ≡ waiting j done adj
    pub fresh : nodup pending ≡ true
    pub apart : (j : Str) → mem j pending ≡ true → mem j done ≡ false
    pub ready : (j : Str) → mem j pending ≡ true → waiting j done adj ≡ 0
    pub known : (j : Str) → mem j pending ≡ true → mem j (keys adj) ≡ true
    pub spent : (j : Str) → mem j done ≡ true → waiting j done adj ≡ 0
    pub ordered :
        (u v : Str)
        → mem v done ≡ true
        → mem v (targets adj u) ≡ true
        → (mem u done ≡ true) × (rank done u < rank done v)
    pub swept :
        (j : Str)
        → mem j (keys adj) ≡ true
        → waiting j done adj ≡ 0
        → (mem j pending ≡ true) ⊎ (mem j done ≡ true)
    pub tally : visited + undone done adj ≡ length adj
    pub popped : length done ≡ visited

  pub Inv-start : IsWellFormed adj → Inv (first_counters adj) (sources (first_counters adj)) [] 0
  unfolding mem
  Inv-start wf =
      let d = first_counters adj in
      let same = keys-first_counters adj in
      let n : nodup (keys d) ≡ true = rw same wf.distinct in
      record {
        counts = λ j. count_of-first_counters adj j wf;
        fresh = nodup-sources d n;
        apart = λ j m. refl;
        ready = λ j m. ground (arith, mem-sources d j n, count_of-first_counters adj j wf);
        known = λ j m. ground (arith, mem-sources d j n, same);
        spent = λ j m. absurd (cc);
        ordered = λ u v m e. absurd (cc);
        swept = λ j m z.
            inl (ground (arith, mem-sources d j n, count_of-first_counters adj j wf, same));
        tally = omega (arith, undone-nil adj);
        popped = refl;
      }

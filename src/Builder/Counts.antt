-- ===== src/Builder/Counts.antt =====
-- The loop counters that a node's action reads from the state and writes back.
use urizo_final_orchestrator.Base.{
  ℕ, true, Str, Option, none, some, List, [], ◌∷◌, Dict, put, eq, ok, >>=-eq-ok, ok_inj, ◌≡◌, refl,
  inl, inr, arith, Bool-cases,
}
use urizo_final_orchestrator.Json.{Value, int, dict, proxy, null, Fields, end, field}
use urizo_final_orchestrator.Snapshot.{SnapshotLoopLimit}
use urizo_final_orchestrator.Builder.Compile.{limit_of}
use urizo_final_orchestrator.Builder.Action.{
  within_limit, checked_count, counts_of, loop_counts, count_fields,
}

module _ (limits : List SnapshotLoopLimit) where
  -- Every counter is the counter of a limited route, within its limit.
  abbrev pub AreWithin : Dict ℕ → Type 0
  AreWithin [] = Unit
  AreWithin ((k, n) ∷ counts) =
      (within_limit limits (limit_of k limits) n ≡ true) × AreWithin counts

  checked_count_ok :
      (k : Str) (v : Value) (n : ℕ)
      → checked_count limits k v ≡ ok n
      → within_limit limits (limit_of k limits) n ≡ true
  unfolding checked_count
  checked_count_ok k (int m) n h = ground arith
  checked_count_ok k v n h = cc

  counts_of-AreWithin :
      (fs : Fields) (counts : Dict ℕ) → counts_of limits fs ≡ ok counts → AreWithin counts
  unfolding counts_of
  counts_of-AreWithin end [] h = tt
  counts_of-AreWithin end (c ∷ cs) h = cc
  counts_of-AreWithin (field k v fs) counts h =
      let (n, e, h1) = >>=-eq-ok (checked_count limits k v) _ h in
      let (rest, r, last) = >>=-eq-ok (counts_of limits fs) _ h1 in
      rw (← ok_inj last) (checked_count_ok k v n e, counts_of-AreWithin fs rest r)

  pub loop_counts-AreWithin :
      (o : Option Value) (counts : Dict ℕ) → loop_counts limits o ≡ ok counts → AreWithin counts
  unfolding loop_counts
  loop_counts-AreWithin none counts h = rw (← ok_inj h) tt
  loop_counts-AreWithin (some null) counts h = rw (← ok_inj h) tt
  loop_counts-AreWithin (some (dict fs)) counts h = counts_of-AreWithin fs counts h
  loop_counts-AreWithin (some (proxy fs)) counts h = counts_of-AreWithin fs counts h
  loop_counts-AreWithin (some v) counts h = cc

  -- Counters that were written within their limits are read back as they are.
  pub counts_of-count_fields :
      (counts : Dict ℕ) → AreWithin counts → counts_of limits (count_fields counts) ≡ ok counts
  unfolding counts_of count_fields checked_count
  counts_of-count_fields [] h = refl
  counts_of-count_fields ((k, n) ∷ counts) (h, rest) =
      rw (h, counts_of-count_fields counts rest) refl

  pub AreWithin-put :
      (k : Str) (n : ℕ) (counts : Dict ℕ)
      → within_limit limits (limit_of k limits) n ≡ true
      → AreWithin counts
      → AreWithin (put k n counts)
  unfolding put
  AreWithin-put k n [] h rest = (h, tt)
  AreWithin-put k n ((j, m) ∷ counts) h (here, rest) = elim (Bool-cases (eq j k)) [
    | inl same ↦ rw same (h, rest)
    | inr other ↦ rw other (here, AreWithin-put k n counts h rest)
  ]

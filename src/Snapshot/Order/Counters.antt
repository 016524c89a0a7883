-- ===== src/Snapshot/Order/Counters.antt =====
-- The counters of `_contains_cycle`: what each step does to each of them.
use urizo_final_orchestrator.Base.{
  ℕ, suc, ◌+◌, ◌-◌, Bool, true, false, ◌&&◌, Str, ◌==◌, ◌≡◌, refl, ap, ◌∙◌, List, [], ◌∷◌,
  if◌then◌else◌, eq, eq_iff, mem, nodup, subset, keys, arith, length,
}
use urizo_final_orchestrator.Snapshot.Graph.{
  Adjacency, Counters, count_of, increment, decrement, increment_all, zero_counters, indegrees,
  sources, relax,
}

-- One for membership, as the counters count it.
abbrev pub unit : Bool → ℕ
unit true = 1
unit false = 0

pub keys-increment : (t : Str) (d : Counters) → keys (increment t d) ≡ keys d
unfolding increment
keys-increment t [] = refl
keys-increment t ((k, n) ∷ d) = ground (arith, keys-increment t d)

count_of-increment :
    (t j : Str) (d : Counters)
    → mem t (keys d) ≡ true
    → count_of j (increment t d) ≡ count_of j d + unit (eq t j)
unfolding increment count_of mem
count_of-increment t j [] h = cc
count_of-increment t j ((k, n) ∷ d) h =
    ground (arith, count_of-increment t j d, eq_iff k t, eq_iff t k, eq_iff k j, eq_iff t j)

pub count_of-decrement :
    (t j : Str) (d : Counters) → count_of j (decrement t d) ≡ count_of j d - unit (eq t j)
unfolding decrement count_of
count_of-decrement t j [] = omega arith
count_of-decrement t j ((k, n) ∷ d) =
    ground (arith, count_of-decrement t j d, eq_iff k t, eq_iff k j, eq_iff t j)

keys-increment_all : (ts : List Str) (d : Counters) → keys (increment_all ts d) ≡ keys d
unfolding increment_all
keys-increment_all [] d = refl
keys-increment_all (t ∷ ts) d = keys-increment_all ts (increment t d) ∙ keys-increment t d

count_of-increment_all :
    (ts : List Str) (j : Str) (d : Counters)
    → nodup ts ≡ true
    → subset ts (keys d) ≡ true
    → count_of j (increment_all ts d) ≡ count_of j d + unit (mem j ts)
unfolding increment_all nodup subset mem
count_of-increment_all [] j d n s = omega arith
count_of-increment_all (t ∷ ts) j d n s = ground (
  arith,
  count_of-increment_all ts j (increment t d),
  count_of-increment t j d,
  keys-increment t d,
  eq_iff t j,
  eq_iff j t,
)

-- The adjacencies that `validate_snapshot` builds: keys and targets without repeats, and every
-- target is a key.
abbrev pub AreTargets : List Str → Adjacency → Type 0
AreTargets ks [] = Unit
AreTargets ks ((k, ts) ∷ adj) = (nodup ts ≡ true) × (subset ts ks ≡ true) × AreTargets ks adj

pub record IsWellFormed (adj : Adjacency) : Type 0 where
  pub distinct : nodup (keys adj) ≡ true
  pub closed : AreTargets (keys adj) adj

-- The nodes outside `done` that lead to `t`.
unfoldable pub waiting : Str → List Str → Adjacency → ℕ
waiting t done [] = 0
waiting t done ((k, ts) ∷ adj) = (if mem k done then 0 else unit (mem t ts)) + waiting t done adj

keys-indegrees : (adj : Adjacency) (d : Counters) → keys (indegrees adj d) ≡ keys d
unfolding indegrees
keys-indegrees [] d = refl
keys-indegrees ((k, ts) ∷ adj) d = keys-indegrees adj (increment_all ts d) ∙ keys-increment_all ts d

count_of-indegrees :
    (adj : Adjacency) (j : Str) (d : Counters)
    → AreTargets (keys d) adj
    → count_of j (indegrees adj d) ≡ count_of j d + waiting j [] adj
unfolding indegrees waiting mem
count_of-indegrees [] j d h = omega arith
count_of-indegrees ((k, ts) ∷ adj) j d h =
    let same = keys-increment_all ts d in
    omega (
      arith,
      count_of-increment_all ts j d h.0 h.1,
      count_of-indegrees adj j (increment_all ts d) (rw same h.2),
    )

keys-zero_counters : (adj : Adjacency) → keys (zero_counters adj) ≡ keys adj
unfolding zero_counters
keys-zero_counters [] = refl
keys-zero_counters ((k, ts) ∷ adj) = ap (λ (ks : List Str). k ∷ ks) (keys-zero_counters adj)

count_of-zero_counters : (adj : Adjacency) (j : Str) → count_of j (zero_counters adj) ≡ 0
unfolding zero_counters count_of
count_of-zero_counters [] j = refl
count_of-zero_counters ((k, ts) ∷ adj) j = ground (arith, count_of-zero_counters adj j)

abbrev pub first_counters : Adjacency → Counters
first_counters adj = indegrees adj (zero_counters adj)

pub keys-first_counters : (adj : Adjacency) → keys (first_counters adj) ≡ keys adj
keys-first_counters adj = keys-indegrees adj (zero_counters adj) ∙ keys-zero_counters adj

-- At the start each counter is the node's indegree.
pub count_of-first_counters :
    (adj : Adjacency) (j : Str)
    → IsWellFormed adj
    → count_of j (first_counters adj) ≡ waiting j [] adj
count_of-first_counters adj j wf = omega (
  arith,
  count_of-indegrees adj j (zero_counters adj) (rw (keys-zero_counters adj) wf.closed),
  count_of-zero_counters adj j,
)

pub length-keys : (d : Counters) (adj : Adjacency) → keys d ≡ keys adj → length d ≡ length adj
length-keys [] [] h = refl
length-keys [] ((k, ts) ∷ adj) h = cc
length-keys ((k, n) ∷ d) [] h = cc
length-keys ((k, n) ∷ d) ((j, ts) ∷ adj) h = ap suc (length-keys d adj (ground arith))

pub mem-sources :
    (d : Counters) (j : Str)
    → nodup (keys d) ≡ true
    → mem j (sources d) ≡ (mem j (keys d) && count_of j d == 0)
unfolding sources mem nodup count_of
mem-sources [] j h = refl
mem-sources ((k, n) ∷ d) j h = ground (arith, mem-sources d j, eq_iff j k, eq_iff k j)

pub nodup-sources : (d : Counters) → nodup (keys d) ≡ true → nodup (sources d) ≡ true
unfolding sources nodup
nodup-sources [] h = refl
nodup-sources ((k, n) ∷ d) h = ground (arith, nodup-sources d, mem-sources d k)

pub count_of-relax :
    (ts : List Str) (d : Counters) (pending : List Str) (j : Str)
    → nodup ts ≡ true
    → count_of j (relax ts d pending).0 ≡ count_of j d - unit (mem j ts)
unfolding relax nodup mem
count_of-relax [] d pending j h = omega arith
count_of-relax (t ∷ ts) d pending j h = ground (
  arith,
  count_of-relax ts (decrement t d) (if count_of t d == 1 then t ∷ pending else pending) j,
  count_of-decrement t j d,
  eq_iff t j,
  eq_iff j t,
)

pub mem-relax :
    (ts : List Str) (d : Counters) (pending : List Str) (j : Str)
    → nodup ts ≡ true
    → mem j (relax ts d pending).1 ≡ (if mem j pending then true else mem j ts && count_of j d == 1)
unfolding relax nodup mem
mem-relax [] d pending j h = ground arith
mem-relax (t ∷ ts) d pending j h = ground (
  arith,
  mem-relax ts (decrement t d) (if count_of t d == 1 then t ∷ pending else pending) j,
  count_of-decrement t j d,
  eq_iff t j,
  eq_iff j t,
)

-- What is pushed was not on the stack: its counter was above 0.
pub nodup-relax :
    (ts : List Str) (d : Counters) (pending : List Str)
    → nodup ts ≡ true
    → ((j : Str) → mem j pending ≡ true → count_of j d ≡ 0)
    → nodup pending ≡ true
    → nodup (relax ts d pending).1 ≡ true
unfolding relax nodup mem
nodup-relax [] d pending h zero_there n = n
nodup-relax (t ∷ ts) d pending h zero_there n =
    nodup-relax ts (decrement t d) (if count_of t d == 1 then t ∷ pending else pending)
      (ground arith)
      (λ j m. ground (arith, zero_there j, count_of-decrement t j d, eq_iff t j, eq_iff j t))
      (ground (arith, zero_there t))

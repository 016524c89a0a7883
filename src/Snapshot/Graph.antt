-- ===== src/Snapshot/Graph.antt =====
-- The graph routines of snapshot.py: `_reachable_nodes`, `_contains_cycle`, `_adjacency_without`.
-- A set is a list without repeats, and the order in which Python walks it is left open: here it is
-- the list's. A stack is a list with its top in front.
use urizo_final_orchestrator.Base.{
  ℕ, zero, suc, ◌+◌, ◌-◌, Bool, true, false, not, Str, ◌==◌, Option, none, some, List, [], ◌∷◌,
  ◌++◌, if◌then◌else◌, eq, mem, Dict, length,
}

-- `dict[str, set[str]]`
abbrev pub Adjacency : Type 0
Adjacency = Dict (List Str)

-- `adjacency.get(current, ())`
unfoldable pub targets : Adjacency → Str → List Str
targets [] u = []
targets ((k, ts) ∷ adj) u = if eq k u then ts else targets adj u

-- The loop of `_reachable_nodes`; `none` is fuel run out, which `reach_loop_ends` excludes.
unfoldable pub reach_loop : ℕ → Adjacency → List Str → List Str → Option (List Str)
reach_loop fuel adj visited [] = some visited
reach_loop zero adj visited (current ∷ pending) = none
reach_loop (suc fuel) adj visited (current ∷ pending) = elim (mem current visited) [
  | true ↦ reach_loop fuel adj visited pending
  | false ↦ reach_loop fuel adj (current ∷ visited) (targets adj current ++ pending)
]

-- The sizes of all the target sets: each set is pushed at most once.
unfoldable pub edge_count : Adjacency → ℕ
edge_count [] = 0
edge_count ((k, ts) ∷ adj) = length ts + edge_count adj

-- `_reachable_nodes`
unfoldable pub reachable_nodes : Str → Adjacency → Option (List Str)
reachable_nodes source adj = reach_loop (suc (edge_count adj)) adj [] (source ∷ [])

-- The counters of `_contains_cycle`. A target that is no key is a KeyError in Python; in an
-- adjacency whose targets are keys, as `validate_snapshot` builds it, there is none.
abbrev pub Counters : Type 0
Counters = Dict ℕ

unfoldable pub count_of : Str → Counters → ℕ
count_of t [] = 0
count_of t ((k, n) ∷ d) = if eq k t then n else count_of t d

unfoldable pub increment : Str → Counters → Counters
increment t [] = []
increment t ((k, n) ∷ d) = if eq k t then (k, n + 1) ∷ d else (k, n) ∷ increment t d

-- A counter that has come to 0 is never tested again, so it may stop there.
unfoldable pub decrement : Str → Counters → Counters
decrement t [] = []
decrement t ((k, n) ∷ d) = if eq k t then (k, n - 1) ∷ d else (k, n) ∷ decrement t d

unfoldable pub increment_all : List Str → Counters → Counters
increment_all [] d = d
increment_all (t ∷ ts) d = increment_all ts (increment t d)

unfoldable pub zero_counters : Adjacency → Counters
zero_counters [] = []
zero_counters ((k, ts) ∷ adj) = (k, 0) ∷ zero_counters adj

unfoldable pub indegrees : Adjacency → Counters → Counters
indegrees [] d = d
indegrees ((k, ts) ∷ adj) d = indegrees adj (increment_all ts d)

-- `[node_id for node_id, count in indegree.items() if count == 0]`
unfoldable pub sources : Counters → List Str
sources [] = []
sources ((k, n) ∷ d) = let rest = sources d in if n == 0 then k ∷ rest else rest

-- `for target in adjacency[current]`: the counter falls by one, and a node whose counter comes to
-- 0 (it was 1) is pushed.
unfoldable pub relax : List Str → Counters → List Str → Counters × List Str
relax [] d pending = (d, pending)
relax (t ∷ ts) d pending =
    relax ts (decrement t d) (if count_of t d == 1 then t ∷ pending else pending)

-- The `while` loop; it counts the nodes popped.
unfoldable pub kahn_loop : ℕ → Adjacency → Counters → List Str → ℕ → Option ℕ
kahn_loop fuel adj d [] visited = some visited
kahn_loop zero adj d (current ∷ pending) visited = none
kahn_loop (suc fuel) adj d (current ∷ pending) visited =
    let (d', pending') = relax (targets adj current) d pending in
    kahn_loop fuel adj d' pending' (visited + 1)

-- `_contains_cycle`
unfoldable pub contains_cycle : Adjacency → Option Bool
contains_cycle adj =
    let d = indegrees adj (zero_counters adj) in
    elim (kahn_loop (length adj) adj d (sources d) 0) [
      | none ↦ none
      | some visited ↦ some (not (visited == length d))
    ]

-- ===== src/Runner/Limit.antt =====
-- `_recursion_limit` of snapshot_runner.py, and why it is enough.
use urizo_final_orchestrator.Base.{
  ℕ, suc, ◌+◌, ◌*◌, ◌≤◌, ◌<◌, true, Str, ◌≡◌, refl, ap, ◌∙◌, inl, inr, List, [], ◌∷◌, map, ok,
  if◌then◌else◌, mem, keys, length, Route, mem_by, eq_route, eq_route_iff, arith, Bool-cases,
}
use urizo_final_orchestrator.Snapshot.{
  SnapshotNode, SnapshotLoopLimit, SnapshotEdge, VersionedSnapshot,
}
use urizo_final_orchestrator.Snapshot.Graph.{Adjacency}
use urizo_final_orchestrator.Snapshot.Validate.{
  ids, edge_route, route, adjacency_without, limited_routes, validate_snapshot,
}
use urizo_final_orchestrator.Snapshot.Order.Cycle.{IsRanking, contains_cycle_iff}
use urizo_final_orchestrator.Snapshot.Adjacency.{
  AreJoined, keys-adjacency_without, adjacency_without-IsWellFormed, targets-adjacency_without,
}
use urizo_final_orchestrator.Snapshot.Trail.{Trail, visited}
use urizo_final_orchestrator.Snapshot.Valid.{Valid, valid}

unfoldable pub total_iterations : List SnapshotLoopLimit → ℕ
total_iterations [] = 0
total_iterations (l ∷ ls) = l.max_iterations + total_iterations ls

-- `_recursion_limit`
unfoldable pub recursion_limit : VersionedSnapshot → ℕ
recursion_limit s = length s.nodes * (1 + total_iterations s.config.loop_limits) + 1

-- How often a trail takes a route.
abbrev pub uses : Route → List Route → ℕ
uses r [] = 0
uses r (q ∷ rs) = (if eq_route r q then 1 else 0) + uses r rs

-- The trail keeps within each loop limit.
abbrev pub KeepsLimits : List SnapshotLoopLimit → List Route → Type 0
KeepsLimits [] rs = Unit
KeepsLimits (l ∷ ls) rs = (uses (route l) rs ≤ l.max_iterations) × KeepsLimits ls rs

-- The steps along limited routes.
limited_steps : List Route → List Route → ℕ
limited_steps limited [] = 0
limited_steps limited (r ∷ rs) =
    (if mem_by eq_route r limited then 1 else 0) + limited_steps limited rs

all_uses : List SnapshotLoopLimit → List Route → ℕ
all_uses [] rs = 0
all_uses (l ∷ ls) rs = uses (route l) rs + all_uses ls rs

all_uses-nil : (ls : List SnapshotLoopLimit) → all_uses ls [] ≡ 0
unfolding all_uses
all_uses-nil [] = refl
all_uses-nil (l ∷ ls) = omega (arith, all_uses-nil ls)

all_uses-cons :
    (ls : List SnapshotLoopLimit) (r : Route) (rs : List Route)
    → (if mem_by eq_route r (map route ls) then 1 else 0) + all_uses ls rs ≤ all_uses ls (r ∷ rs)
unfolding all_uses mem_by
all_uses-cons [] r rs = omega arith
all_uses-cons (l ∷ ls) r rs =
    ground (arith, all_uses-cons ls r rs, eq_route_iff r (route l), eq_route_iff (route l) r)

limited_steps-le :
    (ls : List SnapshotLoopLimit) (rs : List Route)
    → limited_steps (map route ls) rs ≤ all_uses ls rs
unfolding limited_steps
limited_steps-le ls [] = omega arith
limited_steps-le ls (r ∷ rs) = omega (arith, limited_steps-le ls rs, all_uses-cons ls r rs)

all_uses-le :
    (ls : List SnapshotLoopLimit) (rs : List Route)
    → KeepsLimits ls rs
    → all_uses ls rs ≤ total_iterations ls
unfolding all_uses total_iterations
all_uses-le [] rs h = omega arith
all_uses-le (l ∷ ls) rs h = omega (arith, all_uses-le ls rs h.1)

pub joined_ends :
    (ks : List Str) (u p v : Str) (es : List SnapshotEdge)
    → AreJoined ks es
    → mem_by eq_route (u, p, v) (map edge_route es) ≡ true
    → (mem u ks ≡ true) × (mem v ks ≡ true)
unfolding mem_by
joined_ends ks u p v [] j m = cc
joined_ends ks u p v (e ∷ es) j m = elim (Bool-cases (eq_route (u, p, v) (edge_route e))) [
  | inl this ↦
      let same = (eq_route_iff (u, p, v) (edge_route e)).0 this in ground (arith, same, j.0, j.1)
  | inr other ↦ joined_ends ks u p v es j.2 (rw other at m)
]

mul_step : (n k : ℕ) → n * (1 + k) ≡ n + n * k
mul_step n k = omega arith

module _ (s : VersionedSnapshot) (c : Valid s) (place : Str → ℕ)
    (r : IsRanking (adjacency_without s (limited_routes s)) place) where
  abbrev size : ℕ
  size = length (adjacency_without s (limited_routes s))

  place-lt : (u : Str) → mem u (ids s.nodes) ≡ true → place u < size
  place-lt u m = r.below u (rw (keys-adjacency_without s (limited_routes s) c.joined) m)

  Trail-length :
      (a : Str) {v : Str} {rs : List Route}
      → Trail s a v rs
      → mem a (ids s.nodes) ≡ true
      → (length rs ≤ place v + size * limited_steps (limited_routes s) rs)
        × (mem v (ids s.nodes) ≡ true)
  unfolding limited_steps
  Trail-length a Trail.start m = (omega arith, m)
  Trail-length a (Trail.follow {u} {rs} p v t e) m =
      let (short, at_u) = Trail-length a t m in
      let (_, at_v) = joined_ends (ids s.nodes) u p v s.edges c.joined e in
      elim (Bool-cases (mem_by eq_route (u, p, v) (limited_routes s))) [
        | inl limited ↦ (rw limited (omega (arith, place-lt u at_u)), at_v)
        | inr free ↦
            let up =
              r.grows u v
                ((targets-adjacency_without s (limited_routes s) c.joined u v).1 (p, e, free)) in
            (rw free (omega arith), at_v)
      ]

pub length-visited : (a : Str) (rs : List Route) → length (visited a rs) ≡ length rs + 1
length-visited a [] = refl
length-visited a (r ∷ rs) = omega (arith, length-visited a rs)

length-keys_eq : (ks : List Str) (adj : Adjacency) → keys adj ≡ ks → length adj ≡ length ks
length-keys_eq [] [] h = refl
length-keys_eq (k ∷ ks) [] h = cc
length-keys_eq [] (x ∷ adj) h = cc
length-keys_eq (k ∷ ks) ((j, ts) ∷ adj) h = ap suc (length-keys_eq ks adj (ground arith))

length-ids : (ns : List SnapshotNode) → length (ids ns) ≡ length ns
unfolding ids
length-ids [] = refl
length-ids (n ∷ ns) = ap suc (length-ids ns)

length_bound :
    (steps place size k total n nodes : ℕ)
    → nodes ≡ steps + 1
    → steps ≤ place + size * k
    → place < size
    → k ≤ total
    → size ≡ n
    → nodes < n * (1 + total) + 1
length_bound steps place size k total n nodes e short p few same =
    let more : size * k ≤ size * total = grind arith in rw (← same) (omega (arith, more))

-- In an accepted snapshot, a trail that starts at a node and takes each limited route at most its
-- max_iterations times visits fewer nodes, repeats counted, than `_recursion_limit` allows.
pub run-lt-recursion_limit :
    (s : VersionedSnapshot) (a v : Str) {rs : List Route}
    → validate_snapshot s ≡ ok tt
    → mem a (ids s.nodes) ≡ true
    → Trail s a v rs
    → KeepsLimits s.config.loop_limits rs
    → length (visited a rs) < recursion_limit s
unfolding recursion_limit
run-lt-recursion_limit s a v {rs} h m t keeps =
    let c = valid s h in
    let limited = limited_routes s in
    let wf = adjacency_without-IsWellFormed s limited c.joined c.distinct in
    let (place, r) = (contains_cycle_iff (adjacency_without s limited) wf).0 c.bounded in
    let (short, at_v) = Trail-length s c place r a t m in
    let few = limited_steps-le s.config.loop_limits rs in
    let bound = all_uses-le s.config.loop_limits rs keeps in
    length_bound (length rs) (place v) (size s c place r) (limited_steps limited rs)
      (total_iterations s.config.loop_limits) (length s.nodes) (length (visited a rs))
      (length-visited a rs) short (place-lt s c place r v at_v) (omega (arith, few, bound))
      (length-keys_eq (ids s.nodes) (adjacency_without s limited)
          (keys-adjacency_without s limited c.joined)
        ∙ length-ids s.nodes)

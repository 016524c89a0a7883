-- ===== src/Builder/Routes.antt =====
-- `routes` and `limits` of `compile`: what they answer, and how an edge that is taken counts.
use urizo_final_orchestrator.Base.{
  ℕ, ◌+◌, ◌≤◌, true, false, Str, Option, none, some, List, [], ◌∷◌, map, Dict, get, put, get-put,
  eq, eq_iff, leb, leb→le, Route, eq_pair, eq_route, eq_route_iff, mem_by, nodup_by, ok, guard,
  >>=-eq-ok, guard-eq-ok, ok_inj, ◌≡◌, refl, sym, ap, ◌∙◌, inl, inr, arith, Bool-cases,
  Option-cases,
}
use urizo_final_orchestrator.Snapshot.{SnapshotEdge, SnapshotLoopLimit}
use urizo_final_orchestrator.Snapshot.Validate.{edge_pair, edge_route, route}
use urizo_final_orchestrator.Runner.Limit.{uses, KeepsLimits}
use urizo_final_orchestrator.Builder.{exceeded_loop}
use urizo_final_orchestrator.Builder.Compile.{target_of, route_key, limit_of}
use urizo_final_orchestrator.Builder.Action.{within_limit, or_zero, count_limited}
use urizo_final_orchestrator.Builder.Keys.{IsNamed, key_of_route, route_key_inj}
use urizo_final_orchestrator.Builder.Counts.{AreWithin, AreWithin-put}

-- The target that `routes` has is that of an edge.
pub target_of-listed :
    (a p t : Str) (es : List SnapshotEdge)
    → target_of (a, p) es ≡ some t
    → mem_by eq_route (a, p, t) (map edge_route es) ≡ true
unfolding target_of mem_by eq_pair eq_route
target_of-listed a p t [] h = cc
target_of-listed a p t (e ∷ es) h = elim (Option-cases (target_of (a, p) es)) [
  | inr (u, later) ↦
      let same : u ≡ t = cc (rw later at h) in
      ground (arith, target_of-listed a p t es (later ∙ ap some same))
  | inl nothing ↦ ground (
    arith,
    rw nothing at h,
    eq_iff e.source a,
    eq_iff a e.source,
    eq_iff e.result_port p,
    eq_iff p e.result_port,
    eq_iff t e.target,
  )
]

pub has_target :
    (a p : Str) (es : List SnapshotEdge)
    → mem_by eq_pair (a, p) (map edge_pair es) ≡ true
    → (t : Str) × (target_of (a, p) es ≡ some t)
unfolding target_of mem_by eq_pair
has_target a p [] h = absurd (cc)
has_target a p (e ∷ es) h = elim (Option-cases (target_of (a, p) es)) [
  | inr (u, later) ↦ (u, rw later refl)
  | inl nothing ↦ elim (Bool-cases (eq_pair (edge_pair e) (a, p))) [
    | inl this ↦ (e.target, rw (nothing, this) refl)
    | inr other ↦
        let (t, found) = has_target a p es (
          ground (
            arith,
            eq_iff e.source a,
            eq_iff a e.source,
            eq_iff e.result_port p,
            eq_iff p e.result_port,
          )) in
        absurd (ground (arith, found, nothing))
  ]
]

abbrev key_of : SnapshotLoopLimit → Str
key_of l = route_key l.source l.result_port l.target

-- Each of the limits has its maximum in `limits`, and names without colons.
abbrev pub AreFound : (limits : List SnapshotLoopLimit) → List SnapshotLoopLimit → Type 0
AreFound limits [] = Unit
AreFound limits (l ∷ ls) =
    IsNamed (route l) × (limit_of (key_of l) limits ≡ some l.max_iterations) × AreFound limits ls

abbrev pub AreNamedLimits : List SnapshotLoopLimit → Type 0
AreNamedLimits [] = Unit
AreNamedLimits (l ∷ ls) = IsNamed (route l) × AreNamedLimits ls

limit_of-other :
    (r : Route) (ls : List SnapshotLoopLimit)
    → IsNamed r
    → AreNamedLimits ls
    → mem_by eq_route r (map route ls) ≡ false
    → limit_of (key_of_route r) ls ≡ none
unfolding limit_of mem_by
limit_of-other r [] n h m = refl
limit_of-other r (l ∷ ls) n (named, h) m = elim (Bool-cases (eq (key_of l) (key_of_route r))) [
  | inl same ↦
      let one = route_key_inj (route l) r named n ((eq_iff (key_of l) (key_of_route r)).0 same) in
      absurd (ground (arith, (eq_route_iff r (route l)).1 (sym one)))
  | inr other ↦ rw (limit_of-other r ls n h (ground arith), other) refl
]

AreFound-cons :
    (l : SnapshotLoopLimit) (ls rest : List SnapshotLoopLimit)
    → AreFound ls rest
    → AreFound (l ∷ ls) rest
unfolding limit_of
AreFound-cons l ls [] h = tt
AreFound-cons l ls (k ∷ rest) (named, found, h) = (named, rw found refl, AreFound-cons l ls rest h)

-- Distinct limits with such names are all found.
pub AreFound-all :
    (ls : List SnapshotLoopLimit)
    → nodup_by eq_route (map route ls) ≡ true
    → AreNamedLimits ls
    → AreFound ls ls
unfolding nodup_by limit_of
AreFound-all [] d h = tt
AreFound-all (l ∷ ls) d (named, h) =
    let away : limit_of (key_of l) ls ≡ none = limit_of-other (route l) ls named h (ground arith) in
    let here = (eq_iff (key_of l) (key_of l)).1 refl in
    (named, rw (away, here) refl, AreFound-cons l ls ls (AreFound-all ls (ground arith) h))

-- Each limited route's counter has grown by the number of times that the trail took it, and is within
-- its limit. `base` has the counters at the trail's start.
abbrev pub AreCounted : (base : Str → ℕ) → Dict ℕ → List Route → List SnapshotLoopLimit → Type 0
AreCounted base counts rs [] = Unit
AreCounted base counts rs (l ∷ ls) =
    (or_zero (get (key_of l) counts) ≡ base (key_of l) + uses (route l) rs)
    × (base (key_of l) + uses (route l) rs ≤ l.max_iterations)
    × AreCounted base counts rs ls

get-AreWithin :
    (limits : List SnapshotLoopLimit) (counts : Dict ℕ) (k : Str) (m : ℕ)
    → AreWithin limits counts
    → limit_of k limits ≡ some m
    → or_zero (get k counts) ≤ m
unfolding get or_zero within_limit
get-AreWithin limits [] k m w lim = omega arith
get-AreWithin limits ((j, n) ∷ counts) k m (w, ws) lim = elim (Bool-cases (eq j k)) [
  | inl this ↦
      let same = (eq_iff j k).0 this in
      let bound : leb n m ≡ true =
        sym (
          ap (λ (o : Option ℕ). within_limit limits o n)
            (ap (λ (x : Str). limit_of x limits) same ∙ lim))
        ∙ w in
      rw this (leb→le n m bound)
  | inr other ↦ rw other (get-AreWithin limits counts k m ws lim)
]

pub AreCounted-start :
    (limits : List SnapshotLoopLimit) (counts : Dict ℕ) (ls : List SnapshotLoopLimit)
    → AreFound limits ls
    → AreWithin limits counts
    → AreCounted (λ k. or_zero (get k counts)) counts [] ls
AreCounted-start limits counts [] f w = tt
AreCounted-start limits counts (l ∷ ls) (named, found, f) w = (
  omega arith,
  omega (arith, get-AreWithin limits counts (key_of l) l.max_iterations w found),
  AreCounted-start limits counts ls f w,
)

pub KeepsLimits-AreCounted :
    (base : Str → ℕ) (counts : Dict ℕ) (rs : List Route) (ls : List SnapshotLoopLimit)
    → AreCounted base counts rs ls
    → KeepsLimits ls rs
KeepsLimits-AreCounted base counts rs [] h = tt
KeepsLimits-AreCounted base counts rs (l ∷ ls) h =
    (omega (arith, h.1), KeepsLimits-AreCounted base counts rs ls h.2)

-- A route without a limit counts nowhere.
AreCounted-free :
    (limits : List SnapshotLoopLimit) (base : Str → ℕ) (counts : Dict ℕ) (r : Route)
    (rs : List Route) (ls : List SnapshotLoopLimit)
    → AreFound limits ls
    → limit_of (key_of_route r) limits ≡ none
    → AreCounted base counts rs ls
    → AreCounted base counts (r ∷ rs) ls
AreCounted-free limits base counts r rs [] f free h = tt
AreCounted-free limits base counts r rs (l ∷ ls) (named, found, f) free (same, kept, h) =
    elim (Bool-cases (eq_route (route l) r)) [
      | inl this ↦
          let one : key_of l ≡ key_of_route r =
            ap (λ (q : Route). key_of_route q) ((eq_route_iff (route l) r).0 this) in
          absurd (ground (arith, rw one at found, free))
      | inr other ↦ rw other (
        omega (arith, same),
        omega (arith, kept),
        AreCounted-free limits base counts r rs ls f free h,
      )
    ]

AreCounted-limited :
    (limits : List SnapshotLoopLimit) (base : Str → ℕ) (counts : Dict ℕ) (r : Route)
    (rs : List Route) (m : ℕ) (ls : List SnapshotLoopLimit)
    → AreFound limits ls
    → IsNamed r
    → limit_of (key_of_route r) limits ≡ some m
    → or_zero (get (key_of_route r) counts) + 1 ≤ m
    → AreCounted base counts rs ls
    → AreCounted base
        (put (key_of_route r) (or_zero (get (key_of_route r) counts) + 1) counts)
        (r ∷ rs)
        ls
unfolding or_zero
AreCounted-limited limits base counts r rs m [] f n lim le h = tt
AreCounted-limited limits base counts r rs m (l ∷ ls) (named, found, f) n lim le (same, kept, h) =
    let rest = AreCounted-limited limits base counts r rs m ls f n lim le h in
    let key = key_of_route r in
    let new = or_zero (get key counts) + 1 in
    let after = get-put key (key_of l) new counts in
    elim (Bool-cases (eq_route (route l) r)) [
      | inl this ↦
          let one : key_of l ≡ key =
            ap (λ (q : Route). key_of_route q) ((eq_route_iff (route l) r).0 this) in
          let max : l.max_iterations ≡ m = ground (arith, rw one at found, lim) in
          let hit : eq key (key_of l) ≡ true = (eq_iff key (key_of l)).1 (sym one) in
          let was : or_zero (get key counts) ≡ base (key_of l) + uses (route l) rs =
            ap (λ (k : Str). or_zero (get k counts)) (sym one) ∙ same in
          rw (this, after, hit) (omega (arith, was), omega (arith, was, max, le), rest)
      | inr other ↦
          let apart : eq key (key_of l) ≡ false = elim (Bool-cases (eq key (key_of l))) [
            | inl e ↦
                let one = route_key_inj (route l) r named n (sym ((eq_iff key (key_of l)).0 e)) in
                absurd (ground (arith, (eq_route_iff (route l) r).1 one, other))
            | inr miss ↦ miss
          ] in
          rw (other, after, apart) (omega (arith, same), omega (arith, kept), rest)
    ]

-- Counting a route that is taken keeps the counters right and within the limits.
pub count_limited-AreCounted :
    (limits : List SnapshotLoopLimit) (base : Str → ℕ) (counts after : Dict ℕ) (r : Route)
    (rs : List Route)
    → AreFound limits limits
    → IsNamed r
    → AreWithin limits counts
    → AreCounted base counts rs limits
    → count_limited (key_of_route r) (limit_of (key_of_route r) limits) counts ≡ ok after
    → AreWithin limits after × AreCounted base after (r ∷ rs) limits
unfolding count_limited within_limit
count_limited-AreCounted limits base counts after r rs f n w c h =
    elim (Option-cases (limit_of (key_of_route r) limits)) [
      | inl free ↦
          let same : counts ≡ after = ok_inj (rw free at h) in
          rw (← same) (w, AreCounted-free limits base counts r rs limits f free c)
      | inr (m, lim) ↦
          let new = or_zero (get (key_of_route r) counts) + 1 in
          let (_, g, last) = >>=-eq-ok (guard (leb new m) exceeded_loop) _ (rw lim at h) in
          let le = guard-eq-ok (leb new m) exceeded_loop g in
          rw (← ok_inj last) (
            AreWithin-put limits (key_of_route r) new counts (rw lim le) w,
            AreCounted-limited limits base counts r rs m limits f n lim (leb→le new m le) c,
          )
    ]

-- ===== src/Builder/Bounded.antt =====
-- Every run of a compiled graph follows a trail of the snapshot, keeps its loop limits, and ends within
-- the recursion limit, whatever the handlers do.
use mathlib.Core.List.{append-nil, append_assoc}
use urizo_final_orchestrator.Base.{
  ℕ, ◌+◌, true, Str, Option, none, some, List, [], ◌∷◌, ◌++◌, map, Dict, get, eq, eq_iff, mem,
  length, Route, mem_by, eq_route, eq_route_iff, ok, ok_inj, ◌≡◌, refl, sym, ap, ◌∙◌, inl, inr,
  arith, Bool-cases,
}
use urizo_final_orchestrator.Json.{Value, int, lookup}
use urizo_final_orchestrator.Snapshot.{
  SnapshotNode, SnapshotEdge, SnapshotLoopLimit, VersionedSnapshot,
}
use urizo_final_orchestrator.Snapshot.Validate.{find_node, ids, edge_route}
use urizo_final_orchestrator.Snapshot.Valid.{Valid}
use urizo_final_orchestrator.Snapshot.Trail.{HasEdge, Trail}
use urizo_final_orchestrator.Snapshot.Accepted.{All, IsAccepted, IsIdentified, IsIdentifiedLimit}
use urizo_final_orchestrator.Runner.Limit.{joined_ends}
use urizo_final_orchestrator.Node.{NodeRegistry}
use urizo_final_orchestrator.Builder.{Graph, running, completed, Report}
use urizo_final_orchestrator.Builder.Action.{
  next_node_sequence, loop_counts, or_zero, loop_counts_key, sequence_key,
}
use urizo_final_orchestrator.Builder.Run.{Cursor, Stepped, goes, super_step}
use urizo_final_orchestrator.Builder.Keys.{IsNamed, colon_free-is_identifier}
use urizo_final_orchestrator.Builder.Counts.{loop_counts-AreWithin, counts_of-count_fields}
use urizo_final_orchestrator.Builder.Routes.{
  target_of-listed, AreFound, AreNamedLimits, AreFound-all, AreCounted, AreCounted-start,
  count_limited-AreCounted,
}
use urizo_final_orchestrator.Builder.Compiled.{Built}
use urizo_final_orchestrator.Builder.Follows.{report, Moved}
use urizo_final_orchestrator.Builder.Turn.{
  Turn, stopped_turn, ended_turn, moved_turn, super_step-Turn,
}

-- A cursor that a run from a fresh state comes to.
pub data Reached {W : Type 0} (g : Graph W) (first : Cursor W) : Cursor W → Type 0 where
  begins : Reached g first first
  moves :
      {before : Cursor W} (after : Cursor W)
      → Reached g first before
      → super_step g before ≡ goes after
      → Reached g first after

-- Where a run may start or go on: at a node of the snapshot, with loop counters that the nodes' actions
-- accept, and with the number of the next node.
pub record IsStarted {W : Type 0} (s : VersionedSnapshot) (first : Cursor W) : Type 0 where
  pub at_node : mem first.at (ids s.nodes) ≡ true
  pub counts : Dict ℕ
  pub read : loop_counts s.config.loop_limits (lookup loop_counts_key first.state) ≡ ok counts
  pub number : ℕ
  pub numbered : next_node_sequence (lookup sequence_key first.state) ≡ ok number

-- A node that completed is reported twice, with its number.
abbrev pub reports_of : (number : ℕ) → List Route → List Report
reports_of number [] = []
reports_of number (r ∷ rs) =
    reports_of number rs
    ++ (report r.0 (number + length rs) running ∷ report r.0 (number + length rs) completed ∷ [])

-- The trail that a run has taken, with the loop counters and the node number that its state holds.
pub record Follows {W : Type 0} (s : VersionedSnapshot) (first : Cursor W) (st : IsStarted s first)
    (c : Cursor W) : Type 0 where
  pub routes : List Route
  pub trail : Trail s first.at c.at routes
  pub counts : Dict ℕ
  pub read : loop_counts s.config.loop_limits (lookup loop_counts_key c.state) ≡ ok counts
  pub counted : AreCounted (λ k. or_zero (get k st.counts)) counts routes s.config.loop_limits
  pub numbered : next_node_sequence (lookup sequence_key c.state) ≡ ok (st.number + length routes)
  pub reported : c.reports ≡ first.reports ++ reports_of st.number routes
  pub listed : mem c.at (ids s.nodes) ≡ true

found_listed :
    (a : Str) (ns : List SnapshotNode)
    → mem a (ids ns) ≡ true
    → (n : SnapshotNode) × (find_node a ns ≡ some n)
unfolding ids mem find_node
found_listed a [] m = absurd (cc)
found_listed a (n ∷ ns) m = elim (Bool-cases (eq n.node_id a)) [
  | inl this ↦ (n, rw this refl)
  | inr other ↦
      let (k, found) = found_listed a ns (ground (arith, eq_iff a n.node_id, eq_iff n.node_id a)) in
      (k, rw other found)
]

IsNamed-edge :
    (a p t : Str) (es : List SnapshotEdge)
    → All IsIdentified es
    → mem_by eq_route (a, p, t) (map edge_route es) ≡ true
    → IsNamed (a, p, t)
unfolding mem_by eq_route
IsNamed-edge a p t [] i m = absurd (cc)
IsNamed-edge a p t (e ∷ es) ((source, port), i) m =
    elim (Bool-cases (eq_route (a, p, t) (edge_route e))) [
      | inl this ↦
          let one = (eq_route_iff (a, p, t) (edge_route e)).0 this in
          let a_is : a ≡ e.source = ap (λ (r : Route). r.0) one in
          let p_is : p ≡ e.result_port = ap (λ (r : Route). r.1) one in
          rw (a_is, p_is)
            (colon_free-is_identifier e.source source, colon_free-is_identifier e.result_port port)
      | inr other ↦ IsNamed-edge a p t es i (rw other at m)
    ]

named_limits : (ls : List SnapshotLoopLimit) → All IsIdentifiedLimit ls → AreNamedLimits ls
named_limits [] h = tt
named_limits (l ∷ ls) ((source, port), h) = (
  (colon_free-is_identifier l.source source, colon_free-is_identifier l.result_port port),
  named_limits ls h,
)

positive_number :
    (o : Option Value) (n : ℕ)
    → next_node_sequence o ≡ ok n
    → next_node_sequence (some (int n)) ≡ ok (n + 1)
unfolding next_node_sequence
positive_number none n h = rw (← ok_inj h) refl
positive_number (some Value.null) n h = rw (← ok_inj h) refl
positive_number (some (int m)) n h = ground arith
positive_number (some v) n h = absurd (cc)

module _ {W : Type 0} (registry : NodeRegistry W) (s : VersionedSnapshot) (accepted : IsAccepted s)
    (c : Valid s) (g : Graph W) (b : Built registry s c g) (first : Cursor W)
    (st : IsStarted s first) where
  limits_found : AreFound s.config.loop_limits s.config.loop_limits
  limits_found =
      AreFound-all s.config.loop_limits accepted.distinct_limits
        (named_limits s.config.loop_limits accepted.identified_limits)

  pub first-Follows : Follows s first st first
  first-Follows =
      let limits = s.config.loop_limits in
      let within =
        loop_counts-AreWithin limits (lookup loop_counts_key first.state) st.counts st.read in
      record {
        routes = [];
        trail = Trail.start;
        counts = st.counts;
        read = st.read;
        counted = AreCounted-start limits st.counts limits limits_found within;
        numbered = st.numbered ∙ ap ok (omega arith);
        reported = sym (append-nil first.reports);
        listed = st.at_node;
      }

  pub next-Follows :
      (before after : Cursor W) (f : Follows s first st before)
      → Moved s g.handlers before after
      → (next : Follows s first st after) × (length next.routes ≡ length f.routes + 1)
  unfolding loop_counts
  next-Follows before after f m =
      let limits = s.config.loop_limits in
      let base : Str → ℕ = λ k. or_zero (get k st.counts) in
      let r : Route = (before.at, m.port, after.at) in
      let edge : HasEdge s r = target_of-listed before.at m.port after.at s.edges m.edge in
      let named = IsNamed-edge before.at m.port after.at s.edges accepted.identified edge in
      let same : f.counts ≡ m.counts = ok_inj (sym f.read ∙ m.read) in
      let within =
        loop_counts-AreWithin limits (lookup loop_counts_key before.state) m.counts m.read in
      let (inside, counted) =
        count_limited-AreCounted limits base m.counts m.counted r f.routes limits_found named within
          (rw same at f.counted) m.counts_route in
      let number : m.sequence ≡ st.number + length f.routes =
        ok_inj (sym m.numbered ∙ f.numbered) in
      let numbers = positive_number (lookup sequence_key before.state) m.sequence m.numbered in
      let next : Follows s first st after = record {
        routes = r ∷ f.routes;
        trail = Trail.follow m.port after.at f.trail edge;
        counts = m.counted;
        read = rw m.written (counts_of-count_fields limits m.counted inside);
        counted = counted;
        numbered = rw m.sequence_written (numbers ∙ ap ok (omega (arith, number)));
        reported =
            m.reported
            ∙ rw (f.reported, number)
                (append_assoc first.reports (reports_of st.number f.routes) _);
        listed = (joined_ends (ids s.nodes) before.at m.port after.at s.edges c.joined edge).1;
      } in
      (next, omega arith)

  pub Turn-at :
      (before : Cursor W)
      → Follows s first st before
      → Turn s g.handlers c.end.node_id before (super_step g before)
  Turn-at before f =
      let (n, found) = found_listed before.at s.nodes f.listed in
      super_step-Turn registry s c g before n b found

  pub Moved-of :
      (before after : Cursor W) (t : Stepped W)
      → Turn s g.handlers c.end.node_id before t
      → t ≡ goes after
      → Moved s g.handlers before after
  Moved-of before after t (stopped_turn n h stop w reports f d e) k = absurd (cc)
  Moved-of before after t (ended_turn state w reports number e n r) k = absurd (cc)
  Moved-of before after t (moved_turn next m) k = let same : next ≡ after = cc in rw (← same) m

  pub Reached-Follows_trail : (last : Cursor W) → Reached g first last → Follows s first st last
  Reached-Follows_trail last begins = first-Follows
  Reached-Follows_trail last (moves {before} after r e) =
      let f = Reached-Follows_trail before r in
      (next-Follows before after f
        (Moved-of before after (super_step g before) (Turn-at before f) e)).0

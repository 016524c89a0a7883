-- ===== src/Builder/Correct.antt =====
-- What the runs of a compiled graph keep to, and how they end.
use mathlib.Core.List.{Memᴰ}
use urizo_final_orchestrator.Base.{
  ℕ, zero, suc, ◌+◌, ◌≤◌, ◌<◌, true, Str, some, List, [], ◌∷◌, ◌++◌, ok_inj, get, mem, length,
  Route, ok, err, ◌≡◌, ◌≢◌, refl, sym, subst, ◌∙◌, ◌⊎◌, inl, inr, arith,
}
use urizo_final_orchestrator.Json.{Fields, lookup}
use urizo_final_orchestrator.Snapshot.{SnapshotNode, VersionedSnapshot}
use urizo_final_orchestrator.Snapshot.Validate.{start_type, end_type, find_node}
use urizo_final_orchestrator.Snapshot.Valid.{Valid, valid}
use urizo_final_orchestrator.Snapshot.Trail.{Trail, visited, IsLockedGuardrail}
use urizo_final_orchestrator.Snapshot.Guardrail.{guardrail_on_every-Trail}
use urizo_final_orchestrator.Snapshot.Accepted.{IsAccepted}
use urizo_final_orchestrator.Runner.Limit.{
  KeepsLimits, recursion_limit, length-visited, run-lt-recursion_limit,
}
use urizo_final_orchestrator.Node.{NodeHandler, NodeRegistry}
use urizo_final_orchestrator.Builder.{Stop, Graph, Report, running, completed}
use urizo_final_orchestrator.Builder.Compile.{compile}
use urizo_final_orchestrator.Builder.Action.{node_action, or_zero, next_node_sequence, sequence_key}
use urizo_final_orchestrator.Builder.Run.{
  Cursor, Stepped, goes, ends, stops, super_step, Ending, finished, stopped, recursion_error,
  run_graph,
}
use urizo_final_orchestrator.Builder.Routes.{KeepsLimits-AreCounted}
use urizo_final_orchestrator.Builder.Compiled.{find_node-Memᴰ, Bound, Built, built}
use urizo_final_orchestrator.Builder.Follows.{report, Moved, of_type-Memᴰ}
use urizo_final_orchestrator.Builder.Turn.{Turn, stopped_turn, ended_turn, moved_turn}
use urizo_final_orchestrator.Builder.Bounded.{
  Reached, begins, moves, IsStarted, Follows, Turn-at, next-Follows, first-Follows,
  Reached-Follows_trail, Moved-of,
}

-- The reports of the node that a run is at.
abbrev pub reports_of_end : {W : Type 0} → Cursor W → (number : ℕ) → List Report
reports_of_end last number = report last.at number running ∷ report last.at number completed ∷ []

-- A run that finished: the trail that its last node was reached by, which the counters, the node number
-- and the reports of its state agree with, and its last step.
pub record FinishedRun {W : Type 0} (s : VersionedSnapshot) (g : Graph W) (first : Cursor W)
    (st : IsStarted s first) (end_id : Str) (state : Fields) (w : W) (reports : List Report)
    : Type 0 where
  pub last : Cursor W
  pub reached : Reached g first last
  pub follows : Follows s first st last
  pub at_end : last.at ≡ end_id
  pub ended : super_step g last ≡ ends state w reports
  pub keeps : KeepsLimits s.config.loop_limits follows.routes
  pub short : length (visited first.at follows.routes) < recursion_limit s
  pub guarded : (q : Str) × (mem q (visited first.at follows.routes) ≡ true) × IsLockedGuardrail s q
  pub told : reports ≡ last.reports ++ reports_of_end last (st.number + length follows.routes)

module _ {W : Type 0} (registry : NodeRegistry W) (s : VersionedSnapshot) (accepted : IsAccepted s)
    (g : Graph W) (compiled : compile registry s ≡ ok g) where
  abbrev c : Valid s
  c = valid s accepted.valid

  b : Built registry s c g
  b = built registry s c g compiled

  start_listed : (c.start.node_type ≡ start_type) × Memᴰ c.start s.nodes
  start_listed = of_type-Memᴰ start_type c.start s.nodes (rw c.starts (Memᴰ.head refl))

  end_listed : (c.end.node_type ≡ end_type) × Memᴰ c.end s.nodes
  end_listed = of_type-Memᴰ end_type c.end s.nodes (rw c.ends (Memᴰ.head refl))

  module _ (first : Cursor W) (st : IsStarted s first) where
    -- How a run ends, with where it came to.
    data RunEnds : Ending W → Type 0 where
      run_finished :
          (last : Cursor W) (state : Fields) (w : W) (reports : List Report)
          → Reached g first last
          → (f : Follows s first st last) → last.at ≡ c.end.node_id
          → super_step g last ≡ ends state w reports
          → reports ≡ last.reports ++ reports_of_end last (st.number + length f.routes)
          → RunEnds (finished state w reports)
      run_stopped :
          (last : Cursor W) (n : SnapshotNode) (handler : NodeHandler W) (stop : Stop) (w : W)
          (reports : List Report)
          → Reached g first last
          → find_node last.at s.nodes ≡ some n
          → get last.at g.handlers ≡ some handler
          → (node_action s n handler last.state last.world).outcome ≡ err stop
          → RunEnds (stopped stop w reports)

    Turn-cases :
        (before : Cursor W) (t : Stepped W)
        → Turn s g.handlers c.end.node_id before t
        → ((n : SnapshotNode) × (handler : NodeHandler W) × (stop : Stop) × (w : W)
            × (reports : List Report) × (find_node before.at s.nodes ≡ some n)
            × (get before.at g.handlers ≡ some handler)
            × ((node_action s n handler before.state before.world).outcome ≡ err stop)
            × (t ≡ stops stop w reports))
          ⊎ (((state : Fields) × (w : W) × (reports : List Report) × (number : ℕ) × (before.at
                  ≡ c.end.node_id)
                × (next_node_sequence (lookup sequence_key before.state) ≡ ok number)
                × (reports ≡ before.reports ++ reports_of_end before number)
                × (t ≡ ends state w reports))
              ⊎ ((after : Cursor W) × Moved s g.handlers before after × (t ≡ goes after)))
    Turn-cases before t (stopped_turn n handler stop w reports found handled e) =
        inl (n, handler, stop, w, reports, found, handled, e, refl)
    Turn-cases before t (ended_turn state w reports number e n r) =
        inr (inl (state, w, reports, number, e, n, r, refl))
    Turn-cases before t (moved_turn after m) = inr (inr (after, m, refl))

    room :
        (before : Cursor W) (f : Follows s first st before)
        → length (visited first.at f.routes) < recursion_limit s
    room before f = run-lt-recursion_limit s first.at before.at accepted.valid st.at_node f.trail (
        KeepsLimits-AreCounted (λ k. or_zero (get k st.counts)) f.counts f.routes
          s.config.loop_limits f.counted)

    RunEnds-run_graph :
        (fuel : ℕ) (before : Cursor W)
        → Reached g first before
        → (f : Follows s first st before) → recursion_limit s ≤ length f.routes + fuel
        → RunEnds (run_graph fuel g before)
    unfolding run_graph
    RunEnds-run_graph zero before r f enough =
        absurd (omega (arith, room before f, length-visited first.at f.routes))
    RunEnds-run_graph (suc fuel) before r f enough =
        elim (Turn-cases before (super_step g before)
          (Turn-at registry s accepted c g b first st before f)) [
            | inl (n, handler, stop, w, reports, found, handled, e, same) ↦
                rw (run_graph, same) (run_stopped before n handler stop w reports r found handled e)
            | inr (inl (state, w, reports, number, at_end, numbered, told, same)) ↦
                let counted : number ≡ st.number + length f.routes =
                  ok_inj (sym numbered ∙ f.numbered) in
                rw (run_graph, same)
                  (run_finished before state w reports r f at_end same
                    (subst (λ k. reports ≡ before.reports ++ reports_of_end before k) counted told))
            | inr (inr (after, m, same)) ↦
                let (next, longer) =
                  next-Follows registry s accepted c g b first st before after f m in
                rw (run_graph, same)
                  (RunEnds-run_graph fuel after (moves after r same) next
                    (omega (arith, enough, longer)))
          ]

    RunEnds-first : RunEnds (run_graph (recursion_limit s) g first)
    RunEnds-first =
        let f = first-Follows registry s accepted c g b first st in
        RunEnds-run_graph (recursion_limit s) first begins f (omega arith)

    no_recursion_error : (x : Ending W) → RunEnds x → x ≢ recursion_error
    no_recursion_error x (run_finished last state w reports r f e d told) k = absurd (cc)
    no_recursion_error x (run_stopped last n handler stop w reports r l h e) k = absurd (cc)

    guarded :
        (rs : List Route)
        → first.at ≡ g.entry
        → Trail s first.at c.end.node_id rs
        → (q : Str) × (mem q (visited first.at rs) ≡ true) × IsLockedGuardrail s q
    guarded rs entry trail =
        let at_start = entry ∙ b.starts_at in
        let (q, on, locked) =
          guardrail_on_every-Trail s c.start c.end accepted.valid start_listed.1 start_listed.0
            end_listed.1 end_listed.0
            (subst (λ (a : Str). Trail s a c.end.node_id rs) at_start trail) in
        (q, subst (λ (a : Str). mem q (visited a rs) ≡ true) (sym at_start) on, locked)

    -- What a finished run has been through.
    finished_run :
        (x : Ending W) (state : Fields) (w : W) (reports : List Report)
        → RunEnds x
        → first.at ≡ g.entry
        → x ≡ finished state w reports
        → FinishedRun s g first st c.end.node_id state w reports
    finished_run x state w reports (run_finished last state' w' reports' r f e ended told) entry k =
        let same_state : state' ≡ state = cc in
        let same_world : w' ≡ w = cc in
        let same_reports : reports' ≡ reports = cc in
        record {
          last = last;
          reached = r;
          follows = f;
          at_end = e;
          ended = rw (← same_state, ← same_world, ← same_reports) ended;
          keeps =
              KeepsLimits-AreCounted (λ q. or_zero (get q st.counts)) f.counts f.routes
                s.config.loop_limits f.counted;
          short = room last f;
          guarded =
              guarded f.routes entry (subst (λ (a : Str). Trail s first.at a f.routes) e f.trail);
          told = rw (← same_reports) told;
        }
    finished_run x state w reports (run_stopped last n handler stop w' reports' r l h e) entry k =
        absurd (cc)

    stopped_in_action :
        (x : Ending W) (stop : Stop) (w : W) (reports : List Report)
        → RunEnds x
        → x ≡ stopped stop w reports
        → (last : Cursor W) × (n : SnapshotNode) × (handled : Bound registry g.handlers n) × Reached
            g first last
          × (find_node last.at s.nodes ≡ some n)
          × ((node_action s n handled.registration.handler last.state last.world).outcome
              ≡ err stop)
    stopped_in_action x stop w reports (run_finished last state w' reports' r f e d told) k =
        absurd (cc)
    stopped_in_action x stop w reports
          (run_stopped last n handler stop' w' reports' r found handled e) k =
        let bound = b.bound last.at n found in
        let (named, _) = find_node-Memᴰ last.at s.nodes n found in
        let own : handler ≡ bound.registration.handler = cc (rw named at bound.handled) in
        let same : stop' ≡ stop = cc in (last, n, bound, r, found, rw (← own, ← same) e)

-- In the graph that `compile` makes of a snapshot that `from_dict` returns, a run never meets the recursion
-- limit that the runner sets, whatever the handlers do, and whether it starts afresh or goes on from a
-- checkpoint: within the limit, the run finishes or stops.
pub run_graph-ne-recursion_error :
    {W : Type 0} (registry : NodeRegistry W) (s : VersionedSnapshot) (g : Graph W)
    (first : Cursor W)
    → IsAccepted s
    → compile registry s ≡ ok g
    → IsStarted s first
    → run_graph (recursion_limit s) g first ≢ recursion_error
run_graph-ne-recursion_error registry s g first accepted compiled st =
    no_recursion_error registry s accepted g compiled first st
      (run_graph (recursion_limit s) g first)
      (RunEnds-first registry s accepted g compiled first st)

-- A run of a compiled graph from its entry that finishes did so by the action of the snapshot's end node,
-- which it had reached along edges of the snapshot from the start node; the loop counters in the state
-- there have grown by the numbers of times that this trail took each limited route, at most its
-- max_iterations each; the trail visits fewer nodes than the recursion limit, and a locked guardrail;
-- and the run reported its nodes, the end node last, as RUNNING and COMPLETED in order, and no other.
pub run_graph-finished :
    {W : Type 0} (registry : NodeRegistry W) (s : VersionedSnapshot) (g : Graph W)
    (first : Cursor W) (state : Fields) (w : W) (reports : List Report)
    → (accepted : IsAccepted s) → compile registry s ≡ ok g
    → (st : IsStarted s first) → first.at ≡ g.entry
    → run_graph (recursion_limit s) g first ≡ finished state w reports
    → FinishedRun s g first st (valid s accepted.valid).end.node_id state w reports
run_graph-finished registry s g first state w reports accepted compiled st entry e =
    finished_run registry s accepted g compiled first st (run_graph (recursion_limit s) g first)
      state w reports (RunEnds-first registry s accepted g compiled first st) entry e

-- A run of a compiled graph that stops did so in the action of a node that it had reached, with what that
-- action raised from the handler that the registry has under the node's key; the edges and routers of
-- the graph never fail.
pub run_graph-stopped :
    {W : Type 0} (registry : NodeRegistry W) (s : VersionedSnapshot) (g : Graph W)
    (first : Cursor W) (stop : Stop) (w : W) (reports : List Report)
    → IsAccepted s
    → compile registry s ≡ ok g
    → IsStarted s first
    → run_graph (recursion_limit s) g first ≡ stopped stop w reports
    → (last : Cursor W) × (n : SnapshotNode) × (handled : Bound registry g.handlers n) × Reached g
        first last
      × (find_node last.at s.nodes ≡ some n)
      × ((node_action s n handled.registration.handler last.state last.world).outcome ≡ err stop)
run_graph-stopped registry s g first stop w reports accepted compiled st =
    stopped_in_action registry s accepted g compiled first st
      (run_graph (recursion_limit s) g first) stop w reports
      (RunEnds-first registry s accepted g compiled first st)

-- Wherever a run of a compiled graph comes to, it has followed a trail along the snapshot's edges; the loop
-- counters in the state have grown by the numbers of times that the trail took each limited route, and
-- none is above its max_iterations; the node number has grown by the number of nodes run; and each of
-- them was reported as RUNNING and COMPLETED, in order.
pub Reached-Follows :
    {W : Type 0} (registry : NodeRegistry W) (s : VersionedSnapshot) (g : Graph W)
    (first last : Cursor W)
    → IsAccepted s
    → compile registry s ≡ ok g
    → (st : IsStarted s first) → Reached g first last
    → Follows s first st last
Reached-Follows registry s g first last accepted compiled st r =
    Reached-Follows_trail registry s accepted (c registry s accepted g compiled) g
      (b registry s accepted g compiled) first st last r

-- The turn of a node that a run came to, where the run went on.
pub Reached-Moved :
    {W : Type 0} (registry : NodeRegistry W) (s : VersionedSnapshot) (g : Graph W)
    (first before after : Cursor W)
    → (accepted : IsAccepted s) → compile registry s ≡ ok g
    → IsStarted s first
    → Reached g first before
    → super_step g before ≡ goes after
    → Moved s g.handlers before after × Built registry s (valid s accepted.valid) g
Reached-Moved registry s g first before after accepted compiled st r e =
    let v = valid s accepted.valid in
    let built_of = built registry s v g compiled in
    let f = Reached-Follows registry s g first before accepted compiled st r in
    (
      Moved-of registry s accepted v g built_of first st before after (super_step g before)
          (Turn-at registry s accepted v g built_of first st before f) e,
      built_of,
    )

-- ===== src/Builder/Turn.antt =====
-- All that one node's turn may come to, in the graph compiled of a valid snapshot.
use urizo_final_orchestrator.Base.{
  ℕ, Bool, true, false, Str, Option, none, some, List, [], ◌∷◌, ◌++◌, Dict, get, eq, eq_iff, mem,
  ok, err, >>=-eq-ok, guard-eq-ok, ok_inj, ◌≡◌, refl, sym, ap, ◌∙◌, inl, inr, Option-cases,
  Result-cases,
}
use urizo_final_orchestrator.Json.{Fields, lookup}
use urizo_final_orchestrator.Snapshot.{SnapshotNode, SnapshotEdge, VersionedSnapshot}
use urizo_final_orchestrator.Snapshot.Validate.{end_type, find_node}
use urizo_final_orchestrator.Snapshot.Valid.{Valid}
use urizo_final_orchestrator.Node.{NodeRegistry, NodeHandler}
use urizo_final_orchestrator.Builder.{
  Stop, Exit, to_end, Graph, undeclared_port, Report, running, completed,
}
use urizo_final_orchestrator.Builder.Compile.{target_of, port_targets, exit_by, exit_of}
use urizo_final_orchestrator.Builder.Action.{
  update, route_target, count_route, check_result_port, node_action, opening_report, closing_report,
  port_value, next_node_sequence, sequence_key,
}
use urizo_final_orchestrator.Builder.Run.{
  Cursor, Stepped, goes, ends, stops, next_node, moved, after_action, act_at, super_step,
}
use urizo_final_orchestrator.Builder.Compiled.{find_node-Memᴰ, Built}
use urizo_final_orchestrator.Builder.Update.{
  merged, merged-counts, merged-node, merged-port, merged-sequence,
}
use urizo_final_orchestrator.Builder.Step.{Acts, action-Acts, get-port_targets, next_node-exit_by}
use urizo_final_orchestrator.Builder.Follows.{end_by_id, Moved, report}

-- A turn stops as the node's action does, ends at the end node, or moves along an edge.
pub data Turn {W : Type 0} (s : VersionedSnapshot) (handlers : Dict (NodeHandler W)) (end_id : Str)
    (before : Cursor W) : Stepped W → Type 0 where
  stopped_turn :
      (n : SnapshotNode) (handler : NodeHandler W) (stop : Stop) (w : W) (reports : List Report)
      → find_node before.at s.nodes ≡ some n
      → get before.at handlers ≡ some handler
      → (node_action s n handler before.state before.world).outcome ≡ err stop
      → Turn s handlers end_id before (stops stop w reports)
  ended_turn :
      (state : Fields) (w : W) (reports : List Report) (sequence : ℕ)
      → before.at ≡ end_id
      → next_node_sequence (lookup sequence_key before.state) ≡ ok sequence
      → reports
        ≡ before.reports
          ++ (report before.at sequence running ∷ report before.at sequence completed ∷ [])
      → Turn s handlers end_id before (ends state w reports)
  moved_turn :
      (after : Cursor W)
      → Moved s handlers before after
      → Turn s handlers end_id before (goes after)

checked_none :
    (is_end : Bool) (ports : List Str) → check_result_port is_end ports none ≡ ok tt → is_end ≡ true
unfolding check_result_port
checked_none true ports h = refl
checked_none false ports h = absurd (cc)

checked_some :
    (is_end : Bool) (ports : List Str) (p : Str)
    → check_result_port is_end ports (some p) ≡ ok tt
    → (is_end ≡ false) × (mem p ports ≡ true)
unfolding check_result_port
checked_some true ports p h = absurd (cc)
checked_some false ports p h = (refl, guard-eq-ok (mem p ports) (undeclared_port (some p)) h)

route_target_ok : (o : Option Str) (t : Str) → route_target o ≡ ok t → o ≡ some t
unfolding route_target
route_target_ok none t h = absurd (cc)
route_target_ok (some u) t h = ap some (ok_inj h)

exit_of-end :
    (edges : List SnapshotEdge) (end_id : Str) (n : SnapshotNode) (x : Exit)
    → exit_of edges end_id n ≡ ok x
    → eq n.node_id end_id ≡ true
    → x ≡ to_end
unfolding exit_of
exit_of-end edges end_id n x h e = sym (ok_inj (rw e at h))

exit_of-inner :
    (edges : List SnapshotEdge) (end_id : Str) (n : SnapshotNode) (x : Exit)
    → exit_of edges end_id n ≡ ok x
    → eq n.node_id end_id ≡ false
    → (ts : _) × (port_targets edges n.node_id n.result_ports ≡ ok ts) × (x ≡ exit_by n.node_id ts)
unfolding exit_of
exit_of-inner edges end_id n x h e =
    let (ts, targets, last) =
      >>=-eq-ok (port_targets edges n.node_id n.result_ports) _ (rw e at h) in
    (ts, targets, sym (ok_inj last))

module _ {W : Type 0} (s : VersionedSnapshot) (c : Valid s) (handlers : Dict (NodeHandler W))
    (before : Cursor W) (n : SnapshotNode) (found : find_node before.at s.nodes ≡ some n) (x : Exit)
    (exits : exit_of s.edges c.end.node_id n ≡ ok x) where
  -- Where the run goes after an action that returned.
  acted-Turn :
      (handler : NodeHandler W) (bound : get before.at handlers ≡ some handler) (w : W)
      (made : List Report) (updates : Fields)
      (a : Acts s n handler before.world before.state updates made)
      → Turn s handlers c.end.node_id before (
          moved
            (update before.state updates)
            w
            (before.reports ++ made)
            (next_node x (update before.state updates)))
  unfolding moved next_node count_route port_value opening_report closing_report
  acted-Turn handler bound w made updates a =
      let reports = before.reports ++ made in
      let (named, _) = find_node-Memᴰ before.at s.nodes n found in
      let kind = end_by_id s c before.at n found in
      elim (Option-cases a.validated.port) [
        | inl terminal ↦
            let last =
              checked_none (eq n.node_type end_type) n.result_ports
                (rw terminal at a.port_checked) in
            let here : eq n.node_id c.end.node_id ≡ true = sym kind ∙ last in
            let to = exit_of-end s.edges c.end.node_id n x exits here in
            let at_end : before.at ≡ c.end.node_id =
              sym named ∙ (eq_iff n.node_id c.end.node_id).0 here in
            let reported =
              ap (λ (made : List Report). before.reports ++ made) (rw named at a.reported) in
            rw to (
              ended_turn (update before.state updates) w reports a.sequence at_end a.numbered
                reported)
        | inr (p, given) ↦
            let (inner, listed) =
              checked_some (eq n.node_type end_type) n.result_ports p
                (rw given at a.port_checked) in
            let away : eq n.node_id c.end.node_id ≡ false = sym kind ∙ inner in
            let (ts, targets, by) = exit_of-inner s.edges c.end.node_id n x exits away in
            let (t, et, counted) =
              >>=-eq-ok (route_target (target_of (n.node_id, p) s.edges)) _
                (rw given at a.counted) in
            let target = route_target_ok (target_of (n.node_id, p) s.edges) t et in
            let here =
              get-port_targets s.edges n.node_id n.result_ports ts p t targets listed target in
            let state = merged before.state n a.sequence a.validated in
            let same : update before.state updates ≡ state = ap (update before.state) a.returns in
            let port = merged-port before.state n a.sequence a.validated in
            let next : next_node x state ≡ ok (some t) =
              ap (λ (y : Exit). next_node y state) by
              ∙ next_node-exit_by n.node_id ts state p t here
                  (merged-node before.state n a.sequence a.validated)
                  (port ∙ ap (λ (o : Option Str). some (port_value o)) given) in
            let after : Cursor W = record { at = t; state = state; world = w; reports = reports } in
            let moves : Moved s handlers before after = record {
              node = n;
              handler = handler;
              invocation = a.invocation;
              result = a.result;
              found = found;
              bound = bound;
              invoked = a.invoked;
              handled = a.handled;
              port = p;
              given = a.same_port ∙ given;
              counts = a.counts;
              counted = a.validated.counts;
              sequence = a.sequence;
              edge = rw named at target;
              read = a.read;
              counts_route = rw named at counted;
              written = merged-counts before.state n a.sequence a.validated;
              numbered = a.numbered;
              reported =
                  ap (λ (made : List Report). before.reports ++ made) (rw named at a.reported);
              port_written = port ∙ ap (λ (o : Option Str). some (port_value o)) given;
              sequence_written = merged-sequence before.state n a.sequence a.validated;
            } in
            rw (same, next) (moved_turn after moves)
      ]

  stepped-Turn :
      (handler : NodeHandler W)
      → get before.at handlers ≡ some handler
      → Turn s handlers c.end.node_id before (
          after_action before.state x before.reports
            (node_action s n handler before.state before.world))
  unfolding after_action
  stepped-Turn handler handled =
      let acted = node_action s n handler before.state before.world in
      elim (Result-cases acted.outcome) [
        | inr (stop, e) ↦ rw e (
            stopped_turn n handler stop acted.world (before.reports ++ acted.reports) found handled
              e)
        | inl (updates, e) ↦ rw e (
            acted-Turn handler handled acted.world acted.reports updates
              (action-Acts s n handler before.state before.world updates e))
      ]

-- A node's turn, where the node is one of the snapshot's: the graph has its action and its edges.
pub super_step-Turn :
    {W : Type 0} (registry : NodeRegistry W) (s : VersionedSnapshot) (c : Valid s) (g : Graph W)
    (before : Cursor W) (n : SnapshotNode)
    → Built registry s c g
    → find_node before.at s.nodes ≡ some n
    → Turn s g.handlers c.end.node_id before (super_step g before)
unfolding super_step act_at
super_step-Turn registry s c g before n b found =
    let (named, _) = find_node-Memᴰ before.at s.nodes n found in
    let bound = b.bound before.at n found in
    let (x, exit, exits) = b.exits before.at n found in
    let handled : get before.at g.handlers ≡ some bound.registration.handler =
      rw named at bound.handled in
    rw (b.same_snapshot, found, handled, exit)
      (stepped-Turn s c g.handlers before n found x exits bound.registration.handler handled)

-- ===== src/Builder/Run.antt =====
-- How LangGraph runs the graph that graph_builder.py compiles: from the entry, it runs the node's action,
-- merges the updates into the state, and goes where the node's edges lead, at most `recursion_limit`
-- times. A handler is a function of the world outside, which stands for whatever it reads and changes.
use urizo_final_orchestrator.Base.{
  ℕ, zero, suc, Str, Option, none, some, List, [], ◌++◌, get, keys, ok, err, ◌>>=◌,
}
use urizo_final_orchestrator.Json.{Fields}
use urizo_final_orchestrator.Snapshot.{SnapshotNode}
use urizo_final_orchestrator.Snapshot.Validate.{find_node}
use urizo_final_orchestrator.Node.{NodeHandler}
use urizo_final_orchestrator.Builder.{
  Exit, to_end, edge_to, by_port, Graph, missing_key, Stop, failed, Report,
}
use urizo_final_orchestrator.Builder.Action.{
  Acting, Acted, update, node_action, port_router, route_target,
}

-- The node that runs next, the state and the world that it finds, and the reports made before.
pub record Cursor (W : Type 0) : Type 0 where
  pub at : Str
  pub state : Fields
  pub world : W
  pub reports : List Report

pub data Stepped (W : Type 0) : Type 0 where
  goes : Cursor W → Stepped W
  ends : Fields → W → List Report → Stepped W
  stops : Stop → W → List Report → Stepped W

-- Where the run goes from a node; `none` is END.
unfoldable pub next_node : Exit → Fields → Acting (Option Str)
next_node to_end state = ok none
next_node (edge_to t) state = ok (some t)
next_node (by_port source targets) state = do
  port ← port_router source (keys targets) state
  t ← route_target (get port targets)
  ok (some t)

-- How a run ends. `recursion_error` is LangGraph's GraphRecursionError.
pub data Ending (W : Type 0) : Type 0 where
  finished : Fields → W → List Report → Ending W
  stopped : Stop → W → List Report → Ending W
  recursion_error : Ending W

module _ {W : Type 0} where
  unfoldable pub moved : Fields → W → List Report → Acting (Option Str) → Stepped W
  moved state w reports (ok none) = ends state w reports
  moved state w reports (ok (some t)) =
      goes (record { at = t; state = state; world = w; reports = reports })
  moved state w reports (err e) = stops (failed e) w reports

  unfoldable pub after_action : Fields → Exit → List Report → Acted W → Stepped W
  after_action state exit before acted = elim acted.outcome [
    | err stop ↦ stops stop acted.world (before ++ acted.reports)
    | ok updates ↦
        let merged = update state updates in
        moved merged acted.world (before ++ acted.reports) (next_node exit merged)
  ]

  -- Every node of the graph has its action and its edges.
  unfoldable pub act_at :
      Graph W → Cursor W → Option SnapshotNode → Option (NodeHandler W) → Option Exit → Stepped W
  act_at g c (some n) (some handler) (some exit) =
      after_action c.state exit c.reports (node_action g.snapshot n handler c.state c.world)
  act_at g c _ _ _ = stops (failed missing_key) c.world c.reports

  -- One node's turn.
  unfoldable pub super_step : Graph W → Cursor W → Stepped W
  super_step g c =
      act_at g c (find_node c.at g.snapshot.nodes) (get c.at g.handlers) (get c.at g.exits)

  unfoldable pub run_graph : ℕ → Graph W → Cursor W → Ending W
  run_graph zero g c = recursion_error
  run_graph (suc fuel) g c = elim (super_step g c) [
    | goes next ↦ run_graph fuel g next
    | ends state w reports ↦ finished state w reports
    | stops stop w reports ↦ stopped stop w reports
  ]

abbrev pub at_entry : {W : Type 0} → Graph W → Fields → W → Cursor W
at_entry g state w = record { at = g.entry; state = state; world = w; reports = [] }

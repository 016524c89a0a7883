-- ===== src/Builder.antt =====
-- graph_builder.py: the graph that `SnapshotGraphBuilder.compile` builds from a snapshot, and its nodes'
-- actions. What LangGraph does with the graph is in Run: it runs one node after another, merges each
-- node's updates into the state, and follows the edges that `compile` added.
pub mod Compile
pub mod Action
pub mod Run
pub mod Keys
pub mod Counts
pub mod Routes
pub mod Compiled
pub mod Update
pub mod Step
pub mod Follows
pub mod Turn
pub mod Bounded
pub mod Correct
use urizo_final_orchestrator.Base.{ℕ, Str, List, Option, Dict}
use urizo_final_orchestrator.Json.{Fields}
use urizo_final_orchestrator.Snapshot.{VersionedSnapshot}
use urizo_final_orchestrator.Node.{NodeHandler}

-- What `compile` may raise: the messages of `SnapshotGraphBuildError`, the KeyError of `routes[...]`, and
-- the StopIteration of `next`.
pub data BuildError : Type 0 where
  unregistered type_mismatch ports_mismatch validator_failed validator_invalid : Str → BuildError
  config_refused : (node_id failure : Str) → BuildError
  failed_not_to_end : Str → BuildError
  key_error stop_iteration : BuildError

-- What leads on from a node: the edge to END, an edge, or conditional edges by `_port_router`.
pub data Exit : Type 0 where
  to_end : Exit
  edge_to : Str → Exit
  by_port : (source : Str) (port_targets : Dict Str) → Exit

pub record Graph (W : Type 0) : Type 0 where
  pub snapshot : VersionedSnapshot
  pub entry : Str
  pub handlers : Dict (NodeHandler W)
  pub exits : Dict Exit

-- The messages of `SnapshotGraphExecutionError` in a node's action or a router, a handler's own
-- exception, and the KeyError of `routes[...]`.
pub data ActionError : Type 0 where
  invalid_context mismatched_profile invalid_sequence not_node_result end_returned_port :
      ActionError
  undeclared_port : Option Str → ActionError
  invalid_loop_state exceeded_loop no_route handler_raised missing_key : ActionError

-- What ends a node's action early.
pub data Stop : Type 0 where
  interrupted cancelled : Stop
  failed : ActionError → Stop

pub data MonitorStatus : Type 0 where
  running waiting_approval completed failed_node : MonitorStatus

-- A call of `monitoring.report`; the node's invocation goes with it.
pub record Report : Type 0 where
  pub node_id : Str
  pub node_sequence : ℕ
  pub status : MonitorStatus
  pub error_code : Option Str

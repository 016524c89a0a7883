-- ===== src/Snapshot.antt =====
-- snapshot.py: the Versioned Profile Snapshot, its nodes, edges and loop limits. The graph
-- routines are in Graph, `validate_snapshot` is in Validate, and the other children prove.
pub mod Freeze
pub mod Safe
pub mod Shape
pub mod Nested
pub mod Checks
pub mod Parse
pub mod Graph
pub mod Validate
pub mod Reach
pub mod Adjacency
pub mod Trail
pub mod Valid
pub mod Accepted
pub mod Ends
pub mod Guardrail
pub mod Connected
pub mod Order
use urizo_final_orchestrator.Base.{ℕ, Str, List, Dict, Option}
use urizo_final_orchestrator.Json.{Fields}

pub record SnapshotNode : Type 0 where
  pub node_id : Str
  pub node_type : Str
  pub handler_key : Str
  pub result_ports : List Str
  pub config : Fields

pub record SnapshotEdge : Type 0 where
  pub source : Str
  pub result_port : Str
  pub target : Str

pub record SnapshotLoopLimit : Type 0 where
  pub source : Str
  pub result_port : Str
  pub target : Str
  pub max_iterations : ℕ

pub record SnapshotConfig : Type 0 where
  pub max_nodes : ℕ
  pub max_attempts : ℕ
  pub loop_limits : List SnapshotLoopLimit

pub record VersionedSnapshot : Type 0 where
  pub contract_version : Str
  pub profile_version_id : Str
  pub profile_key : Str
  pub profile_version : ℕ
  pub nodes : List SnapshotNode
  pub edges : List SnapshotEdge
  pub config : SnapshotConfig
  pub model_bindings : Dict Fields
  pub tool_bindings : Option (Dict Fields)
  pub tool_policy : Fields
  pub guardrail_profile_key : Str

-- The messages of `SnapshotContractViolation` that `validate_snapshot` raises.
pub data Violation : Type 0 where
  duplicate_ids duplicate_result_routes exceeds_max_nodes : Violation
  not_one_start not_one_end end_declares_ports unlocked_guardrail : Violation
  model_bindings_mismatch unknown_node start_has_incoming end_has_outgoing : Violation
  undeclared_port ports_without_edge unreachable_from_start cannot_reach_end : Violation
  guardrail_bypass unknown_limited_edge not_repeating unbounded_cycle : Violation
  out_of_fuel : Violation

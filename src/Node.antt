-- ===== src/Node.antt =====
-- node_runtime.py: what a node of a graph is given and gives back, and the registry of handlers.
pub mod Freeze
pub mod Refreeze
pub mod Create
pub mod Registry
pub mod Given
pub mod Registered
use urizo_final_orchestrator.Base.{ℕ, Str, List, Option, Dict}
use urizo_final_orchestrator.Json.{Value, Fields}

-- The messages of `NodeContractViolation`, without the field's name.
pub data NodeViolation : Type 0 where
  not_object invalid_unicode exceeds_depth not_json_safe invalid : NodeViolation

-- `context` and `config` are frozen.
pub record NodeInvocation : Type 0 where
  pub job_id : Str
  pub profile_version_id : Str
  pub node_id : Str
  pub pipeline_attempt : ℕ
  pub execution_attempt : ℕ
  pub state_version : ℕ
  pub trace_id : Str
  pub workspace_id : Option Str
  pub tool_call_id : Option Str
  pub context : Fields
  pub config : Fields

-- No port is the end of the graph. `updates` is frozen.
pub record NodeResult : Type 0 where
  pub port : Option Str
  pub updates : Fields

-- What a call of a handler comes to: a NodeResult, another object, a GraphInterrupt, a CancelledError,
-- or another exception.
pub data Handled : Type 0 where
  returned : NodeResult → Handled
  other_object interrupts cancels raises : Handled

-- What a call of a config validator comes to.
pub data Verdict : Type 0 where
  verdict : Value → Verdict
  throws : Verdict

-- A handler may read and change the world outside.
abbrev pub NodeHandler : Type 0 → Type 0
NodeHandler W = W → NodeInvocation → Handled × W

abbrev pub NodeConfigValidator : Type 0
NodeConfigValidator = Fields → Verdict

pub record NodeHandlerRegistration (W : Type 0) : Type 0 where
  pub handler_key : Str
  pub node_types : List Str
  pub result_ports : List Str
  pub legacy_result_ports : Option (List Str)
  pub handler : NodeHandler W
  pub config_validator : NodeConfigValidator

-- `_registrations`
abbrev pub NodeRegistry : Type 0 → Type 0
NodeRegistry W = Dict (NodeHandlerRegistration W)

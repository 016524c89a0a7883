-- ===== src/Builder/Action.antt =====
-- graph_builder.py: what a node of the graph does (`_node_action` and what it calls), and `_port_router`.
-- The state is the dictionary that LangGraph passes. `observability.invoke_node` calls its handler once and
-- passes on what comes of it.
use urizo_final_orchestrator.Base.{
  ℕ, ◌+◌, Bool, true, false, Str, codes, eq, leb, Option, none, some, List, [], ◌∷◌, if◌then◌else◌,
  mem, Dict, get, put, Result, ok, err, ◌>>=◌, ◌>>◌, guard,
}
use urizo_final_orchestrator.Json.{Value, null, int, text, dict, proxy, Fields, end, field, lookup}
use urizo_final_orchestrator.Snapshot.{SnapshotNode, SnapshotLoopLimit, VersionedSnapshot}
use urizo_final_orchestrator.Snapshot.Freeze.{thaw_object}
use urizo_final_orchestrator.Snapshot.Validate.{end_type}
use urizo_final_orchestrator.Node.{
  NodeViolation, NodeInvocation, NodeResult, NodeHandler, Handled, returned, other_object,
  interrupts, cancels, raises,
}
use urizo_final_orchestrator.Node.Create.{create}
use urizo_final_orchestrator.Builder.{
  ActionError, invalid_context, mismatched_profile, invalid_sequence, not_node_result,
  end_returned_port, undeclared_port, invalid_loop_state, exceeded_loop, no_route, handler_raised,
  missing_key, Stop, interrupted, cancelled, failed, running, waiting_approval, completed,
  failed_node, Report,
}
use urizo_final_orchestrator.Builder.Compile.{target_of, route_key, limit_of}

abbrev pub Acting : Type 0 → Type 0
Acting A = Result ActionError A

-- `mapping[key] = value`
unfoldable pub put_field : Str → Value → Fields → Fields
put_field k v end = field k v end
put_field k v (field j w fs) = if eq j k then field k v fs else field j w (put_field k v fs)

-- `mapping.update(others)`
unfoldable pub update : Fields → Fields → Fields
update fs end = fs
update fs (field k v others) = update (put_field k v fs) others

abbrev pub loop_counts_key : Str
loop_counts_key = codes "_snapshotLoopCounts"

abbrev pub last_node_key : Str
last_node_key = codes "_snapshotLastNodeId"

abbrev pub last_port_key : Str
last_port_key = codes "_snapshotLastResultPort"

abbrev pub sequence_key : Str
sequence_key = codes "_monitorNodeSequence"

abbrev pub context_key : Str
context_key = codes "context"

-- `_next_node_sequence`
unfoldable pub next_node_sequence : Option Value → Acting ℕ
next_node_sequence none = ok 1
next_node_sequence (some null) = ok 1
next_node_sequence (some (int n)) = guard (leb 1 n) invalid_sequence >>= λ _. ok (n + 1)
next_node_sequence (some _) = err invalid_sequence

-- `state[name]`; the KeyError is caught with the others.
unfoldable pub required : Option Value → Acting Value
required none = err invalid_context
required (some v) = ok v

-- `state.get(name)`
unfoldable pub or_none : Option Value → Value
or_none none = null
or_none (some v) = v

-- `state.get("context", {})`
unfoldable pub or_empty : Option Value → Value
or_empty none = dict end
or_empty (some v) = v

-- `except (KeyError, NodeContractViolation, TypeError)`
unfoldable pub in_context : Result NodeViolation NodeInvocation → Acting NodeInvocation
in_context (ok i) = ok i
in_context (err _) = err invalid_context

-- `_invocation`
unfoldable pub invocation_of : VersionedSnapshot → SnapshotNode → Fields → Acting NodeInvocation
invocation_of s n state = do
  job_id ← required (lookup (codes "jobId") state)
  profile_version_id ← required (lookup (codes "profileVersionId") state)
  pipeline_attempt ← required (lookup (codes "pipelineAttempt") state)
  execution_attempt ← required (lookup (codes "executionAttempt") state)
  state_version ← required (lookup (codes "stateVersion") state)
  trace_id ← required (lookup (codes "traceId") state)
  invocation ← in_context (
      create (record {
        job_id = job_id;
        profile_version_id = profile_version_id;
        node_id = text n.node_id;
        pipeline_attempt = pipeline_attempt;
        execution_attempt = execution_attempt;
        state_version = state_version;
        trace_id = trace_id;
        workspace_id = or_none (lookup (codes "workspaceId") state);
        tool_call_id = or_none (lookup (codes "toolCallId") state);
        context = or_empty (lookup context_key state);
        config = dict (thaw_object n.config);
      }))
  guard (eq invocation.profile_version_id s.profile_version_id) mismatched_profile
  ok invocation

module _ (limits : List SnapshotLoopLimit) where
  -- `route in limits and count <= limits[route]`
  unfoldable pub within_limit : Option ℕ → ℕ → Bool
  within_limit none n = false
  within_limit (some m) n = leb n m

  unfoldable pub checked_count : Str → Value → Acting ℕ
  checked_count k (int n) =
      guard (within_limit (limit_of k limits) n) invalid_loop_state >>= λ _. ok n
  checked_count k _ = err invalid_loop_state

  -- The keys of a mapping are distinct, so the copy has its entries in their order.
  unfoldable pub counts_of : Fields → Acting (Dict ℕ)
  counts_of end = ok []
  counts_of (field k v fs) = do n ← checked_count k v; rest ← counts_of fs; ok ((k, n) ∷ rest)

  -- `_loop_counts`
  unfoldable pub loop_counts : Option Value → Acting (Dict ℕ)
  loop_counts none = ok []
  loop_counts (some null) = ok []
  loop_counts (some (dict fs)) = counts_of fs
  loop_counts (some (proxy fs)) = counts_of fs
  loop_counts (some _) = err invalid_loop_state

-- `counts.get(key, 0)`
unfoldable pub or_zero : Option ℕ → ℕ
or_zero none = 0
or_zero (some n) = n

unfoldable pub count_limited : Str → Option ℕ → Dict ℕ → Acting (Dict ℕ)
count_limited key none counts = ok counts
count_limited key (some maximum) counts =
    let count = or_zero (get key counts) + 1 in
    guard (leb count maximum) exceeded_loop >>= λ _. ok (put key count counts)

unfoldable pub route_target : Option Str → Acting Str
route_target none = err missing_key
route_target (some t) = ok t

-- The loop that the result's port takes is counted.
unfoldable pub count_route :
    VersionedSnapshot → SnapshotNode → Option Str → Dict ℕ → Acting (Dict ℕ)
count_route s n none counts = ok counts
count_route s n (some port) counts = do
  target ← route_target (target_of (n.node_id, port) s.edges)
  let key = route_key n.node_id port target
  count_limited key (limit_of key s.config.loop_limits) counts

unfoldable pub check_result_port : (is_end : Bool) → List Str → Option Str → Acting (Unit {0})
check_result_port true ports none = ok tt
check_result_port true ports (some p) = err end_returned_port
check_result_port false ports none = err (undeclared_port none)
check_result_port false ports (some p) = guard (mem p ports) (undeclared_port (some p))

pub record Validated : Type 0 where
  pub port : Option Str
  pub context : Fields
  pub counts : Dict ℕ

-- `handle_and_validate`, after the handler's call
unfoldable pub validate_result :
    VersionedSnapshot → SnapshotNode → Fields → NodeInvocation → NodeResult → Acting Validated
validate_result s n state invocation r = do
  check_result_port (eq n.node_type end_type) n.result_ports r.port
  counts ← loop_counts s.config.loop_limits (lookup loop_counts_key state)
  counted ← count_route s n r.port counts
  ok (record {
    port = r.port;
    context = update (thaw_object invocation.context) (thaw_object r.updates);
    counts = counted;
  })

unfoldable pub failing : Acting Validated → Result Stop Validated
failing (ok v) = ok v
failing (err e) = err (failed e)

unfoldable pub handle_and_validate :
    VersionedSnapshot → SnapshotNode → Fields → NodeInvocation → Handled → Result Stop Validated
handle_and_validate s n state invocation (returned r) =
    failing (validate_result s n state invocation r)
handle_and_validate s n state invocation other_object = err (failed not_node_result)
handle_and_validate s n state invocation interrupts = err interrupted
handle_and_validate s n state invocation cancels = err cancelled
handle_and_validate s n state invocation raises = err (failed handler_raised)

unfoldable pub count_fields : Dict ℕ → Fields
count_fields [] = end
count_fields ((k, n) ∷ counts) = field k (int n) (count_fields counts)

unfoldable pub port_value : Option Str → Value
port_value none = null
port_value (some p) = text p

-- What the action returns.
unfoldable pub updates_of : SnapshotNode → ℕ → Validated → Fields
updates_of n sequence v = field context_key (dict v.context) (
    field loop_counts_key (dict (count_fields v.counts)) (
      field last_node_key (text n.node_id)
        (field last_port_key (port_value v.port) (field sequence_key (int sequence) end))))

-- The report after the handler's call; a cancelled action makes none.
unfoldable pub closing_report : SnapshotNode → ℕ → Result Stop Validated → List Report
closing_report n sequence (ok v) =
    record { node_id = n.node_id; node_sequence = sequence; status = completed; error_code = none }
    ∷ []
closing_report n sequence (err interrupted) =
    record {
      node_id = n.node_id;
      node_sequence = sequence;
      status = waiting_approval;
      error_code = none;
    }
    ∷ []
closing_report n sequence (err cancelled) = []
closing_report n sequence (err (failed e)) =
    record {
      node_id = n.node_id;
      node_sequence = sequence;
      status = failed_node;
      error_code = some (codes "NODE_EXECUTION_FAILED");
    }
    ∷ []

unfoldable pub opening_report : SnapshotNode → ℕ → Report
opening_report n sequence = record {
  node_id = n.node_id;
  node_sequence = sequence;
  status = running;
  error_code = none;
}

-- What a node's action came to, the reports that it made, and the world that it left.
pub record Acted (W : Type 0) : Type 0 where
  pub outcome : Result Stop Fields
  pub reports : List Report
  pub world : W

unfoldable pub updating : SnapshotNode → ℕ → Result Stop Validated → Result Stop Fields
updating n sequence (ok v) = ok (updates_of n sequence v)
updating n sequence (err x) = err x

-- The action's two checks that come before any report.
unfoldable pub prepare : VersionedSnapshot → SnapshotNode → Fields → Acting (NodeInvocation × ℕ)
prepare s n state = do
  invocation ← invocation_of s n state
  sequence ← next_node_sequence (lookup sequence_key state)
  ok (invocation, sequence)

module _ {W : Type 0} where
  unfoldable pub act :
      VersionedSnapshot → SnapshotNode → Fields → NodeInvocation → ℕ → Handled × W → Acted W
  act s n state invocation sequence (handled, w) =
      let validated = handle_and_validate s n state invocation handled in
      record {
        outcome = updating n sequence validated;
        reports = opening_report n sequence ∷ closing_report n sequence validated;
        world = w;
      }

  unfoldable pub act_prepared :
      VersionedSnapshot
      → SnapshotNode
      → NodeHandler W
      → Fields
      → W
      → Acting (NodeInvocation × ℕ)
      → Acted W
  act_prepared s n handler state w (err e) = record {
    outcome = err (failed e);
    reports = [];
    world = w;
  }
  act_prepared s n handler state w (ok (invocation, sequence)) =
      act s n state invocation sequence (handler w invocation)

  -- `_node_action`; where no reporter is configured, the reports are not made.
  unfoldable pub node_action :
      VersionedSnapshot → SnapshotNode → NodeHandler W → Fields → W → Acted W
  node_action s n handler state w = act_prepared s n handler state w (prepare s n state)

unfoldable pub text_in : Option Value → Option Str
text_in (some (text t)) = some t
text_in _ = none

unfoldable pub is_source : Str → Option Str → Bool
is_source a none = false
is_source a (some t) = eq t a

unfoldable pub declared : List Str → Option Str → Acting Str
declared ports none = err no_route
declared ports (some p) = guard (mem p ports) no_route >>= λ _. ok p

-- `_port_router`
unfoldable pub port_router : Str → List Str → Fields → Acting Str
port_router source ports state = do
  guard (is_source source (text_in (lookup last_node_key state))) no_route
  declared ports (text_in (lookup last_port_key state))

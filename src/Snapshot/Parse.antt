-- ===== src/Snapshot/Parse.antt =====
-- snapshot.py: `from_dict` of the snapshot and of its parts.
use urizo_final_orchestrator.Base.{
  ℕ, Bool, false, ◌==◌, Str, codes, eq, Option, none, some, List, [], ◌∷◌, map, mem, nodup,
  nodup_by, eq_route, Dict, Result, ok, err, ◌>>=◌, ◌>>◌, guard,
}
use urizo_final_orchestrator.Json.{Value, text, Fields, end, field, lookup}
use urizo_final_orchestrator.Snapshot.{
  SnapshotNode, SnapshotEdge, SnapshotLoopLimit, SnapshotConfig, VersionedSnapshot, Violation,
}
use urizo_final_orchestrator.Snapshot.Validate.{
  route, validate_snapshot, start_type, end_type, guardrail_type, agent_type,
}
use urizo_final_orchestrator.Snapshot.Checks.{
  unsupported, duplicates, not_three_attempts, refused, Parsed, is_identifier, is_profile_key,
  is_guardrail_profile_key, is_handler_key, object_of, present, exact_names, matched,
  positive_integer, uuid_of, items_of, nonempty_items_of, parse_all, freeze_object,
}

-- ALLOWED_NODE_TYPES
abbrev pub allowed_node_types : List Str
allowed_node_types =
    start_type
    ∷ agent_type
    ∷ codes "tool"
    ∷ codes "approval"
    ∷ codes "check"
    ∷ guardrail_type
    ∷ end_type
    ∷ []

-- PROFILE_KEYS
abbrev pub profile_keys : List Str
profile_keys = codes "LLM_OPS" ∷ codes "NATURAL_CMS" ∷ []

abbrev pub entry : Str → Fields → Parsed Value
entry name fs = present (lookup name fs)

-- `_matched(payload[name], pattern, ..., maximum)`
unfoldable pub matched_entry : (Str → Bool) → ℕ → Str → Fields → Parsed Str
matched_entry pattern maximum name fs = entry name fs >>= matched pattern maximum

-- `SnapshotNode.from_dict`
unfoldable pub parse_node : Value → Parsed SnapshotNode
parse_node value = do
  payload ← object_of value
  exact_names payload
      (codes "id" ∷ codes "type" ∷ codes "handlerKey" ∷ codes "resultPorts" ∷ codes "config" ∷ [])
  node_id ← matched_entry is_identifier 64 (codes "id") payload
  node_type ← matched_entry is_identifier 64 (codes "type") payload
  guard (mem node_type allowed_node_types) unsupported
  handler_key ← matched_entry is_handler_key 128 (codes "handlerKey") payload
  items ← entry (codes "resultPorts") payload >>= items_of
  result_ports ← parse_all (matched is_identifier 64) items
  guard (nodup result_ports) duplicates
  config ← entry (codes "config") payload >>= freeze_object
  ok (record {
    node_id = node_id;
    node_type = node_type;
    handler_key = handler_key;
    result_ports = result_ports;
    config = config;
  })

-- `SnapshotEdge.from_dict`
unfoldable pub parse_edge : Value → Parsed SnapshotEdge
parse_edge value = do
  payload ← object_of value
  exact_names payload (codes "from" ∷ codes "resultPort" ∷ codes "to" ∷ [])
  source ← matched_entry is_identifier 64 (codes "from") payload
  result_port ← matched_entry is_identifier 64 (codes "resultPort") payload
  target ← matched_entry is_identifier 64 (codes "to") payload
  ok (record { source = source; result_port = result_port; target = target })

-- `SnapshotLoopLimit.from_dict`
unfoldable pub parse_loop_limit : Value → Parsed SnapshotLoopLimit
parse_loop_limit value = do
  payload ← object_of value
  exact_names payload (codes "from" ∷ codes "resultPort" ∷ codes "to" ∷ codes "maxIterations" ∷ [])
  source ← matched_entry is_identifier 64 (codes "from") payload
  result_port ← matched_entry is_identifier 64 (codes "resultPort") payload
  target ← matched_entry is_identifier 64 (codes "to") payload
  max_iterations ← entry (codes "maxIterations") payload >>= positive_integer
  ok (record {
    source = source;
    result_port = result_port;
    target = target;
    max_iterations = max_iterations;
  })

-- `SnapshotConfig.from_dict`
unfoldable pub parse_config : Value → Parsed SnapshotConfig
parse_config value = do
  payload ← object_of value
  exact_names payload (codes "maxNodes" ∷ codes "maxAttempts" ∷ codes "loopLimits" ∷ [])
  items ← entry (codes "loopLimits") payload >>= items_of
  limits ← parse_all parse_loop_limit items
  guard (nodup_by eq_route (map route limits)) duplicates
  max_nodes ← entry (codes "maxNodes") payload >>= positive_integer
  max_attempts ← entry (codes "maxAttempts") payload >>= positive_integer
  guard (max_attempts == 3) not_three_attempts
  ok (record { max_nodes = max_nodes; max_attempts = max_attempts; loop_limits = limits })

-- The items of `_freeze_model_bindings` and `_freeze_tool_bindings`, whose texts agree.
unfoldable pub freeze_entries : Fields → Parsed (Dict Fields)
freeze_entries end = ok []
freeze_entries (field k v fs) = do
  node_id ← matched is_identifier 64 (text k)
  binding ← freeze_object v
  rest ← freeze_entries fs
  ok ((node_id, binding) ∷ rest)

unfoldable pub freeze_bindings : Value → Parsed (Dict Fields)
freeze_bindings v = object_of v >>= freeze_entries

-- `toolBindings`, where the payload has them.
unfoldable pub freeze_tool_bindings : Option Value → Parsed (Option (Dict Fields))
freeze_tool_bindings none = ok none
freeze_tool_bindings (some v) = do bindings ← freeze_bindings v; ok (some bindings)

abbrev pub snapshot_fields : List Str
snapshot_fields =
    codes "contractVersion"
    ∷ codes "profileVersionId"
    ∷ codes "profileKey"
    ∷ codes "profileVersion"
    ∷ codes "nodes"
    ∷ codes "edges"
    ∷ codes "config"
    ∷ codes "modelBindings"
    ∷ codes "toolPolicy"
    ∷ codes "guardrailProfileKey"
    ∷ []

unfoldable pub expected_fields : Option Value → List Str
expected_fields none = snapshot_fields
expected_fields (some v) = codes "toolBindings" ∷ snapshot_fields

unfoldable pub is_contract_version : Value → Bool
is_contract_version (text t) = eq t (codes "1.0")
is_contract_version _ = false

-- `validate_snapshot(snapshot)` and the return.
unfoldable pub validated :
    VersionedSnapshot → Result Violation (Unit {0}) → Parsed VersionedSnapshot
validated s (ok _) = ok s
validated s (err e) = err (refused e)

-- `VersionedSnapshot.from_dict`, from the nodes on
unfoldable pub parse_parts :
    (payload : Fields) (profile_version_id profile_key : Str) → Parsed VersionedSnapshot
parse_parts payload profile_version_id profile_key = do
  node_items ← entry (codes "nodes") payload >>= nonempty_items_of
  nodes ← parse_all parse_node node_items
  edge_items ← entry (codes "edges") payload >>= items_of
  edges ← parse_all parse_edge edge_items
  model_bindings ← entry (codes "modelBindings") payload >>= freeze_bindings
  tool_bindings ← freeze_tool_bindings (lookup (codes "toolBindings") payload)
  tool_policy ← entry (codes "toolPolicy") payload >>= freeze_object
  profile_version ← entry (codes "profileVersion") payload >>= positive_integer
  config ← entry (codes "config") payload >>= parse_config
  guardrail_profile_key ←
      matched_entry is_guardrail_profile_key 128 (codes "guardrailProfileKey") payload
  let snapshot : VersionedSnapshot = record {
    contract_version = codes "1.0";
    profile_version_id = profile_version_id;
    profile_key = profile_key;
    profile_version = profile_version;
    nodes = nodes;
    edges = edges;
    config = config;
    model_bindings = model_bindings;
    tool_bindings = tool_bindings;
    tool_policy = tool_policy;
    guardrail_profile_key = guardrail_profile_key;
  }
  validated snapshot (validate_snapshot snapshot)

-- `VersionedSnapshot.from_dict`
unfoldable pub parse_snapshot : Value → Parsed VersionedSnapshot
parse_snapshot value = do
  payload ← object_of value
  exact_names payload (expected_fields (lookup (codes "toolBindings") payload))
  version ← entry (codes "contractVersion") payload
  guard (is_contract_version version) unsupported
  profile_version_id ← entry (codes "profileVersionId") payload >>= uuid_of
  profile_key ← matched_entry is_profile_key 64 (codes "profileKey") payload
  guard (mem profile_key profile_keys) unsupported
  parse_parts payload profile_version_id profile_key

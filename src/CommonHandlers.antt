-- ===== src/CommonHandlers.antt =====
-- common_handlers.py: the source-owned handlers of the common runtime, and their registry. They change
-- nothing outside.
pub mod Registry
pub mod Passing
use urizo_final_orchestrator.Base.{
  ℕ, ◌==◌, Bool, true, false, not, ◌&&◌, Str, codes, eq, Option, none, some, List, [], ◌∷◌,
  if◌then◌else◌, Result, ok, err, ◌>>=◌,
}
use urizo_final_orchestrator.Json.{
  Value, null, bool, int, float, text, list, dict, Items, nil, cons, Fields, end, field, lookup,
}
use urizo_final_orchestrator.Snapshot.Freeze.{thaw_object}
use urizo_final_orchestrator.Contracts.Checks.{is_sha256_digest}
use urizo_final_orchestrator.Node.{
  NodeViolation, NodeInvocation, NodeResult, NodeHandler, Handled, returned, raises, Verdict,
  verdict, NodeRegistry,
}
use urizo_final_orchestrator.Node.Create.{create_result}
use urizo_final_orchestrator.Node.Registry.{
  Registering, ValidatorArgument, callable, Registration, register,
}

-- `_is_digest`
unfoldable pub is_digest : Option Value → Bool
is_digest (some (text t)) = is_sha256_digest t
is_digest _ = false

unfoldable pub no_config : Fields → Bool
no_config end = true
no_config (field k v fs) = false

-- `value == True`: an int and a float equal to one are as well.
unfoldable pub equals_true : Value → Bool
equals_true (bool b) = b
equals_true (int n) = n == 1
equals_true (float bits) = bits == 0x3FF0000000000000
equals_true _ = false

-- `config == {"locked": True}`
unfoldable pub is_locked_config : Fields → Bool
is_locked_config (field k v end) = eq k (codes "locked") && equals_true v
is_locked_config _ = false

unfoldable pub failure_unless : Bool → Str → Value
failure_unless true message = null
failure_unless false message = text message

-- `_empty_config_validator`
unfoldable pub empty_config_failure : Str → Fields → Value
empty_config_failure message config = failure_unless (no_config config) message

abbrev pub start_message : Str
start_message = codes "common start does not accept node config"

abbrev pub check_message : Str
check_message = codes "common check does not accept node config"

abbrev pub end_message : Str
end_message = codes "common end does not accept node config"

abbrev pub guardrail_message : Str
guardrail_message = codes "common guardrail config is invalid"

abbrev pub approval_message : Str
approval_message = codes "common.approval is not supported by the production Worker contract"

-- `_guardrail_config_failure`
unfoldable pub guardrail_config_failure : Fields → Value
guardrail_config_failure config = failure_unless (is_locked_config config) guardrail_message

-- `_unsupported_approval_config_failure`
unfoldable pub unsupported_approval_config_failure : Fields → Value
unsupported_approval_config_failure config = text approval_message

-- `NodeResult.create(port)`, which the handler returns
unfoldable pub returning : Result NodeViolation NodeResult → Handled
returning (ok r) = returned r
returning (err _) = raises

-- `_require_valid_config`
unfoldable pub require_valid_config : Value → Handled → Handled
require_valid_config null rest = rest
require_valid_config _ rest = raises

-- `_start`
unfoldable pub start_handler : NodeInvocation → Handled
start_handler i =
    require_valid_config (empty_config_failure start_message (thaw_object i.config))
      (returning (create_result (text (codes "next")) none))

unfoldable pub port_by : Bool → Str
port_by true = codes "passed"
port_by false = codes "failed"

-- `_guardrail`
unfoldable pub guardrail_handler : NodeInvocation → Handled
guardrail_handler i = require_valid_config (guardrail_config_failure (thaw_object i.config)) (
    returning (
      create_result
        (text (port_by (is_digest (lookup (codes "policyHash") (thaw_object i.context))))) none))

-- `_check`
unfoldable pub check_handler : NodeInvocation → Handled
check_handler i = require_valid_config (empty_config_failure check_message (thaw_object i.config)) (
    returning (
      create_result
        (text (port_by (is_digest (lookup (codes "contextDigest") (thaw_object i.context))))) none))

-- `_unsupported_approval`
unfoldable pub unsupported_approval : NodeInvocation → Handled
unsupported_approval i = raises

-- `_end`
unfoldable pub end_handler : NodeInvocation → Handled
end_handler i =
    require_valid_config (empty_config_failure end_message (thaw_object i.config))
      (returning (create_result null none))

unfoldable pub text_items : List Str → Items
text_items [] = nil
text_items (t ∷ ts) = cons (text t) (text_items ts)

abbrev pub strings : List Str → Value
strings ts = list (text_items ts)

module _ {W : Type 0} where
  abbrev pub pure : (NodeInvocation → Handled) → NodeHandler W
  pure f w i = (f i, w)

  -- The arguments of a call of `register` here.
  abbrev pub common :
      Str → Str → List Str → (NodeInvocation → Handled) → (Fields → Value) → Registration W
  common key kind ports handler failure = record {
    handler_key = text key;
    node_types = strings (kind ∷ []);
    result_ports = strings ports;
    handler = some (pure handler);
    config_validator = callable (λ config. verdict (failure config));
    legacy_result_ports = none;
  }

abbrev pub passed_failed : List Str
passed_failed = codes "passed" ∷ codes "failed" ∷ []

-- `build_common_node_registry`
unfoldable pub build_common_node_registry : (W : Type 0) → Registering (NodeRegistry W)
build_common_node_registry W = do
  r1 ← register [] (
      common (codes "common.start") (codes "start") (codes "next" ∷ []) start_handler
        (empty_config_failure start_message))
  r2 ← register r1 (
      common (codes "common.guardrail") (codes "guardrail") passed_failed guardrail_handler
        guardrail_config_failure)
  r3 ← register r2 (
      common (codes "common.check") (codes "check") passed_failed check_handler
        (empty_config_failure check_message))
  r4 ← register r3 (
      common (codes "common.approval") (codes "approval") (codes "approved" ∷ [])
        unsupported_approval unsupported_approval_config_failure)
  register r4
      (common (codes "common.end") (codes "end") [] end_handler (empty_config_failure end_message))

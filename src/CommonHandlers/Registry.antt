-- ===== src/CommonHandlers/Registry.antt =====
-- The registry that `build_common_node_registry` builds.
use urizo_final_orchestrator.Base.{
  Str, codes, none, List, [], ◌∷◌, eq, mem, nodup, get, put, ok, ◌≡◌, refl,
}
use urizo_final_orchestrator.Json.{Value, text}
use urizo_final_orchestrator.Snapshot.Freeze.{contains_surrogate}
use urizo_final_orchestrator.Snapshot.Checks.{
  is_name_character, all_of, starts, is_identifier, is_handler_from, is_handler_key,
}
use urizo_final_orchestrator.Node.{
  NodeInvocation, Handled, NodeHandlerRegistration, NodeRegistry, verdict,
}
use urizo_final_orchestrator.Node.Create.{matched}
use urizo_final_orchestrator.Node.Registry.{
  reraised, values_of, iterated, is_allowed, checked_items, check_some, string_set, legacy_set,
  validator_of, handler_of, is_registered, key_of, register, registered, resolve,
}
use urizo_final_orchestrator.CommonHandlers.{
  start_message, check_message, end_message, empty_config_failure, guardrail_config_failure,
  unsupported_approval_config_failure, start_handler, guardrail_handler, check_handler,
  unsupported_approval, end_handler, text_items, pure, passed_failed, build_common_node_registry,
}
use urizo_final_orchestrator.Json.{Fields}

module _ {W : Type 0} where
  abbrev pub entry_of :
      Str
      → Str
      → List Str
      → (NodeInvocation → Handled)
      → (Fields → Value)
      → NodeHandlerRegistration W
  entry_of key kind ports handler failure = record {
    handler_key = key;
    node_types = kind ∷ [];
    result_ports = ports;
    legacy_result_ports = none;
    handler = pure handler;
    config_validator = λ config. verdict (failure config);
  }

  abbrev pub guardrail_registration : NodeHandlerRegistration W
  guardrail_registration =
      entry_of (codes "common.guardrail") (codes "guardrail") passed_failed guardrail_handler
        guardrail_config_failure

-- The registrations in their order.
abbrev pub common_registrations : (W : Type 0) → NodeRegistry W
common_registrations W =
    (
      codes "common.start",
      entry_of (codes "common.start") (codes "start") (codes "next" ∷ []) start_handler
          (empty_config_failure start_message),
    )
    ∷ (codes "common.guardrail", guardrail_registration)
    ∷ (
      codes "common.check",
      entry_of (codes "common.check") (codes "check") passed_failed check_handler
          (empty_config_failure check_message),
    )
    ∷ (
      codes "common.approval",
      entry_of (codes "common.approval") (codes "approval") (codes "approved" ∷ [])
          unsupported_approval unsupported_approval_config_failure,
    )
    ∷ (
      codes "common.end",
      entry_of (codes "common.end") (codes "end") [] end_handler (empty_config_failure end_message),
    )
    ∷ []

-- No call of `register` there fails.
pub common_registry : (W : Type 0) → build_common_node_registry W ≡ ok (common_registrations W)
unfolding build_common_node_registry register key_of reraised matched is_handler_key is_handler_from
    is_name_character contains_surrogate is_registered string_set iterated values_of text_items
    check_some checked_items is_allowed is_identifier starts all_of nodup mem eq get put handler_of
    validator_of legacy_set
common_registry W = refl

pub resolve-guardrail :
    {W : Type 0}
    → resolve (common_registrations W) (text (codes "common.guardrail")) ≡ ok guardrail_registration
unfolding resolve registered key_of reraised matched is_handler_key is_handler_from
    is_name_character contains_surrogate get eq
resolve-guardrail = refl

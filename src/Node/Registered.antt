-- ===== src/Node/Registered.antt =====
-- What the registry of node_runtime.py holds after `register`, and what `resolve` finds there.
use urizo_final_orchestrator.Base.{
  true, false, not, Str, Option, none, some, get, put, ok, guard, >>=-eq-ok, guard-eq-ok, ok_inj,
  ◌≡◌, refl, sym, ap,
}
use urizo_final_orchestrator.Snapshot.Checks.{is_handler_key}
use urizo_final_orchestrator.Snapshot.Parse.{allowed_node_types}
use urizo_final_orchestrator.Node.{NodeHandler, NodeHandlerRegistration, NodeRegistry}
use urizo_final_orchestrator.Node.Registry.{
  duplicate_key, iterated, texts_of, string_set, legacy_set, validator_of, handler_of,
  is_registered, key_of, Registration, register,
}
use urizo_final_orchestrator.Node.Given.{
  IsNameSet, IsValidator, AreLegacy, matched_ok, string_set_ok, string_set_texts,
  validator_of-IsValidator, legacy_set-AreLegacy,
}

-- A registration as `register` makes it.
pub record IsSound {W : Type 0} (key : Str) (r : NodeHandlerRegistration W) : Type 0 where
  pub keyed : r.handler_key ≡ key
  pub well_keyed : is_handler_key key ≡ true
  pub typed : IsNameSet (some allowed_node_types) r.node_types
  pub ported : IsNameSet none r.result_ports

-- A registration that holds the arguments of `register`.
pub record Holds {W : Type 0} (a : Registration W) (r : NodeHandlerRegistration W) : Type 0 where
  pub handles : a.handler ≡ some r.handler
  pub types : iterated a.node_types ≡ ok (texts_of r.node_types)
  pub ports : iterated a.result_ports ≡ ok (texts_of r.result_ports)
  pub validates : IsValidator a.config_validator r.config_validator
  pub legacy : AreLegacy a.legacy_result_ports r.legacy_result_ports

module _ {W : Type 0} where
  handler_of-some :
      (o : Option (NodeHandler W)) (h : NodeHandler W) → handler_of o ≡ ok h → o ≡ some h
  unfolding handler_of
  handler_of-some none h e = absurd (cc)
  handler_of-some (some g) h e = ap (λ x. some x) (ok_inj e)

  -- What a registration that was accepted adds.
  pub record Added (registry : NodeRegistry W) (a : Registration W) (after : NodeRegistry W)
      : Type 0 where
    pub key : Str
    pub entry : NodeHandlerRegistration W
    pub fresh : get key registry ≡ none
    pub named : key_of a.handler_key ≡ ok key
    pub sound : IsSound key entry
    pub holds : Holds a entry
    pub added : after ≡ put key entry registry

  unregistered_none :
      (o : Option (NodeHandlerRegistration W)) → not (is_registered o) ≡ true → o ≡ none
  unfolding is_registered
  unregistered_none none h = refl
  unregistered_none (some r) h = cc

  pub register-Added :
      (registry after : NodeRegistry W) (a : Registration W)
      → register registry a ≡ ok after
      → Added registry a after
  unfolding register key_of
  register-Added registry after a h =
      let (key, named, h1) = >>=-eq-ok (key_of a.handler_key) _ h in
      let (_, fresh, h2) =
        >>=-eq-ok (guard (not (is_registered (get key registry))) duplicate_key) _ h1 in
      let (types, typed, h3) =
        >>=-eq-ok (string_set false (some allowed_node_types) a.node_types) _ h2 in
      let (ports, ported, h4) = >>=-eq-ok (string_set true none a.result_ports) _ h3 in
      let (handler, handled, h5) = >>=-eq-ok (handler_of a.handler) _ h4 in
      let (validator, validated, h6) = >>=-eq-ok (validator_of a.config_validator) _ h5 in
      let (legacy, kept, last) = >>=-eq-ok (legacy_set a.legacy_result_ports) _ h6 in
      let entry : NodeHandlerRegistration W = record {
        handler_key = key;
        node_types = types;
        result_ports = ports;
        legacy_result_ports = legacy;
        handler = handler;
        config_validator = validator;
      } in
      record {
        key = key;
        entry = entry;
        fresh =
            unregistered_none (get key registry)
              (guard-eq-ok (not (is_registered (get key registry))) duplicate_key fresh);
        named = named;
        sound = record {
          keyed = refl;
          well_keyed = matched_ok is_handler_key 128 a.handler_key _ key named;
          typed = string_set_ok false (some allowed_node_types) a.node_types types typed;
          ported = string_set_ok true none a.result_ports ports ported;
        };
        holds = record {
          handles = handler_of-some a.handler handler handled;
          types = string_set_texts false (some allowed_node_types) a.node_types types typed;
          ports = string_set_texts true none a.result_ports ports ported;
          validates = validator_of-IsValidator a.config_validator validator validated;
          legacy = legacy_set-AreLegacy a.legacy_result_ports legacy kept;
        };
        added = sym (ok_inj last);
      }

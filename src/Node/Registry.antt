-- ===== src/Node/Registry.antt =====
-- node_runtime.py: `NodeRegistry`, which source code fills. A handler is a function of the world outside.
use urizo_final_orchestrator.Base.{
  Bool, true, false, not, Str, Option, none, some, List, [], ◌∷◌, mem, nodup, get, put, Result, ok,
  err, ◌>>=◌, ◌>>◌, guard,
}
use urizo_final_orchestrator.Json.{
  Value, null, text, list, tuple, dict, proxy, Items, nil, cons, field_names,
}
use urizo_final_orchestrator.Snapshot.Checks.{is_identifier, is_handler_key}
use urizo_final_orchestrator.Snapshot.Parse.{allowed_node_types}
use urizo_final_orchestrator.Node.{
  NodeViolation, NodeHandler, NodeConfigValidator, verdict, NodeHandlerRegistration, NodeRegistry,
}
use urizo_final_orchestrator.Node.Create.{matched}

-- The messages of `NodeRegistryViolation`, without the field's name.
pub data RegistryViolation : Type 0 where
  invalid_key duplicate_key not_iterable empty_types invalid_item unsupported_item :
      RegistryViolation
  duplicate_items handler_not_callable validator_not_callable unregistered : RegistryViolation

abbrev pub Registering : Type 0 → Type 0
Registering A = Result RegistryViolation A

-- `except NodeContractViolation: raise NodeRegistryViolation(...)`
unfoldable pub reraised : RegistryViolation → Result NodeViolation Str → Registering Str
reraised e (ok t) = ok t
reraised e (err _) = err e

unfoldable pub values_of : Items → List Value
values_of nil = []
values_of (cons v vs) = v ∷ values_of vs

unfoldable pub texts_of : List Str → List Value
texts_of [] = []
texts_of (t ∷ ts) = text t ∷ texts_of ts

-- `tuple(value)`, where the value is no text; a mapping gives its keys.
unfoldable pub iterated : Value → Registering (List Value)
iterated (list vs) = ok (values_of vs)
iterated (tuple vs) = ok (values_of vs)
iterated (dict fs) = ok (texts_of (field_names fs))
iterated (proxy fs) = ok (texts_of (field_names fs))
iterated _ = err not_iterable

-- `allowed is not None and result not in allowed`
unfoldable pub is_allowed : Option (List Str) → Str → Bool
is_allowed none t = true
is_allowed (some allowed) t = mem t allowed

unfoldable pub checked_items : Option (List Str) → List Value → Registering (List Str)
checked_items allowed [] = ok []
checked_items allowed (v ∷ vs) = do
  t ← reraised invalid_item (matched is_identifier 64 v)
  guard (is_allowed allowed t) unsupported_item
  rest ← checked_items allowed vs
  ok (t ∷ rest)

-- `registry.nodeTypes must not be empty`
unfoldable pub check_some : (may_be_empty : Bool) → List Value → Registering (Unit {0})
check_some true vs = ok tt
check_some _ [] = err empty_types
check_some _ (v ∷ vs) = ok tt

-- `_string_set`; NODE_IDENTIFIER and RESULT_PORT are one pattern.
unfoldable pub string_set :
    (may_be_empty : Bool) (allowed : Option (List Str)) → Value → Registering (List Str)
string_set may_be_empty allowed value = do
  items ← iterated value
  check_some may_be_empty items
  results ← checked_items allowed items
  guard (nodup results) duplicate_items
  ok results

unfoldable pub legacy_set : Option Value → Registering (Option (List Str))
legacy_set none = ok none
legacy_set (some v) = do ports ← string_set true none v; ok (some ports)

-- `_accept_any_config`
abbrev pub accept_any_config : NodeConfigValidator
accept_any_config config = verdict null

-- The argument `config_validator`: left out, a callable, or another object.
pub data ValidatorArgument : Type 0 where
  omitted : ValidatorArgument
  callable : NodeConfigValidator → ValidatorArgument
  not_callable : ValidatorArgument

unfoldable pub validator_of : ValidatorArgument → Registering NodeConfigValidator
validator_of omitted = ok accept_any_config
validator_of (callable v) = ok v
validator_of not_callable = err validator_not_callable

unfoldable pub key_of : Value → Registering Str
key_of v = reraised invalid_key (matched is_handler_key 128 v)

-- The keyword arguments of `register`; an object that is not callable is `none`.
pub record Registration (W : Type 0) : Type 0 where
  pub handler_key : Value
  pub node_types : Value
  pub result_ports : Value
  pub handler : Option (NodeHandler W)
  pub config_validator : ValidatorArgument
  pub legacy_result_ports : Option Value

module _ {W : Type 0} where
  unfoldable pub handler_of : Option (NodeHandler W) → Registering (NodeHandler W)
  handler_of none = err handler_not_callable
  handler_of (some h) = ok h

  unfoldable pub is_registered : Option (NodeHandlerRegistration W) → Bool
  is_registered none = false
  is_registered (some r) = true

  -- `register`
  unfoldable pub register : NodeRegistry W → Registration W → Registering (NodeRegistry W)
  register registry a = do
    key ← key_of a.handler_key
    guard (not (is_registered (get key registry))) duplicate_key
    types ← string_set false (some allowed_node_types) a.node_types
    ports ← string_set true none a.result_ports
    handler ← handler_of a.handler
    validator ← validator_of a.config_validator
    legacy ← legacy_set a.legacy_result_ports
    let registration : NodeHandlerRegistration W = record {
      handler_key = key;
      node_types = types;
      result_ports = ports;
      legacy_result_ports = legacy;
      handler = handler;
      config_validator = validator;
    }
    ok (put key registration registry)

  unfoldable pub registered :
      Option (NodeHandlerRegistration W) → Registering (NodeHandlerRegistration W)
  registered none = err unregistered
  registered (some r) = ok r

  -- `resolve`
  unfoldable pub resolve : NodeRegistry W → Value → Registering (NodeHandlerRegistration W)
  resolve registry v = do key ← key_of v; registered (get key registry)

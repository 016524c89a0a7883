-- ===== src/Defaults.antt =====
-- The profiles' proposals, as their modules build them.
pub mod Coding
pub mod NaturalCms
use urizo_final_orchestrator.Base.{ℕ, Str, codes, List, [], ◌∷◌}
use urizo_final_orchestrator.Json.{
  Value, int, text, list, dict, Items, nil, cons, Fields, end, field,
}

abbrev pub array : List Value → Items
array [] = nil
array (v ∷ vs) = cons v (array vs)

abbrev pub members : List (Str × Value) → Fields
members [] = end
members ((k, v) ∷ fs) = field k v (members fs)

abbrev pub texts : List Str → Items
texts [] = nil
texts (t ∷ ts) = cons (text t) (texts ts)

abbrev pub node : (id node_type handler_key : Str) → (result_ports : List Str) → Fields → Value
node id node_type handler_key result_ports config = dict (
    members (
      (codes "id", text id)
      ∷ (codes "type", text node_type)
      ∷ (codes "handlerKey", text handler_key)
      ∷ (codes "resultPorts", list (texts result_ports))
      ∷ (codes "config", dict config)
      ∷ []))

abbrev pub edge : (source result_port target : Str) → Value
edge source result_port target = dict (
    members (
      (codes "from", text source)
      ∷ (codes "resultPort", text result_port)
      ∷ (codes "to", text target)
      ∷ []))

abbrev pub limit : (source result_port target : Str) → (max_iterations : ℕ) → Value
limit source result_port target max_iterations = dict (
    members (
      (codes "from", text source)
      ∷ (codes "resultPort", text result_port)
      ∷ (codes "to", text target)
      ∷ (codes "maxIterations", int max_iterations)
      ∷ []))

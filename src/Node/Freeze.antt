-- ===== src/Node/Freeze.antt =====
-- node_runtime.py: `_freeze_object` and `_freeze_json`. Unlike the snapshot's, they let the names of the
-- execution context pass. `_thaw_object` is the snapshot's, line for line.
use urizo_final_orchestrator.Base.{ℕ, ◌+◌, not, leb, Result, ok, err, ◌>>=◌, ◌>>◌, guard}
use urizo_final_orchestrator.Json.{
  Value, null, bool, int, negative, float, text, list, tuple, dict, proxy, object, Items, nil, cons,
  Fields, end, field, field_names, is_finite,
}
use urizo_final_orchestrator.Snapshot.Freeze.{max_json_depth, contains_surrogate, any_surrogate}
use urizo_final_orchestrator.Node.{
  NodeViolation, not_object, invalid_unicode, exceeds_depth, not_json_safe,
}

unfoldable pub within : ℕ → Value → Result NodeViolation Value
within depth v = guard (leb depth max_json_depth) exceeds_depth >>= λ _. ok v

-- `_freeze_json`
unfoldable mutual
  pub freeze_value : ℕ → Value → Result NodeViolation Value
  freeze_value depth null = within depth null
  freeze_value depth (bool b) = within depth (bool b)
  freeze_value depth (int n) = within depth (int n)
  freeze_value depth (negative n) = within depth (negative n)
  freeze_value depth (text t) = do
    guard (leb depth max_json_depth) exceeds_depth
    guard (not (contains_surrogate t)) invalid_unicode
    ok (text t)
  freeze_value depth (float bits) = do
    guard (leb depth max_json_depth) exceeds_depth
    guard (is_finite bits) not_json_safe
    ok (float bits)
  freeze_value depth (dict fs) = do
    guard (leb depth max_json_depth) exceeds_depth
    guard (not (any_surrogate (field_names fs))) not_json_safe
    frozen ← freeze_entries (depth + 1) fs
    ok (proxy frozen)
  freeze_value depth (proxy fs) = do
    guard (leb depth max_json_depth) exceeds_depth
    guard (not (any_surrogate (field_names fs))) not_json_safe
    frozen ← freeze_entries (depth + 1) fs
    ok (proxy frozen)
  freeze_value depth (list vs) = do
    guard (leb depth max_json_depth) exceeds_depth
    frozen ← freeze_values (depth + 1) vs
    ok (tuple frozen)
  freeze_value depth (tuple vs) = do
    guard (leb depth max_json_depth) exceeds_depth
    err not_json_safe
  freeze_value depth object = do guard (leb depth max_json_depth) exceeds_depth; err not_json_safe

  pub freeze_values : ℕ → Items → Result NodeViolation Items
  freeze_values depth nil = ok nil
  freeze_values depth (cons v vs) = do
    w ← freeze_value depth v
    ws ← freeze_values depth vs
    ok (cons w ws)

  pub freeze_entries : ℕ → Fields → Result NodeViolation Fields
  freeze_entries depth end = ok end
  freeze_entries depth (field k v fs) = do
    w ← freeze_value depth v
    ws ← freeze_entries depth fs
    ok (field k w ws)

-- `_freeze_object`
unfoldable pub freeze_members : Fields → Result NodeViolation Fields
freeze_members fs = do
  guard (not (any_surrogate (field_names fs))) invalid_unicode
  freeze_entries 0 fs

unfoldable pub freeze_context : Value → Result NodeViolation Fields
freeze_context (dict fs) = freeze_members fs
freeze_context (proxy fs) = freeze_members fs
freeze_context _ = err not_object

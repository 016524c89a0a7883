-- ===== src/Snapshot/Freeze.antt =====
-- snapshot.py: how configurations are frozen and thawed (`_freeze_json`, `_thaw_json` and what they call).
use urizo_final_orchestrator.Base.{
  ℕ, ◌+◌, Bool, true, false, not, ◌&&◌, Str, codes, leb, List, [], ◌∷◌, if◌then◌else◌, mem, Result,
  ok, err, ◌>>=◌, ◌>>◌, guard,
}
use urizo_final_orchestrator.Json.{
  Value, null, bool, int, negative, float, text, list, tuple, dict, proxy, object, Items, nil, cons,
  Fields, end, field, field_names, is_finite,
}

-- The messages of `SnapshotContractViolation` here.
pub data FreezeViolation : Type 0 where
  not_an_object exceeds_depth not_json_safe invalid_unicode execution_context : FreezeViolation

abbrev pub max_json_depth : ℕ
max_json_depth = 64

abbrev pub execution_context_fields : List Str
execution_context_fields =
    codes "jobId"
    ∷ codes "pipelineAttempt"
    ∷ codes "executionAttempt"
    ∷ codes "stateVersion"
    ∷ codes "workspaceId"
    ∷ codes "toolCallId"
    ∷ codes "traceId"
    ∷ []

-- `_contains_surrogate`
unfoldable pub contains_surrogate : Str → Bool
contains_surrogate [] = false
contains_surrogate (c ∷ cs) = if leb 0xD800 c && leb c 0xDFFF then true else contains_surrogate cs

unfoldable pub any_surrogate : List Str → Bool
any_surrogate [] = false
any_surrogate (k ∷ ks) = if contains_surrogate k then true else any_surrogate ks

unfoldable pub intersects : List Str → List Str → Bool
intersects names [] = false
intersects names (k ∷ ks) = if mem k names then true else intersects names ks

-- `_reject_surrogate_keys`
unfoldable pub reject_surrogate_keys : List Str → Result FreezeViolation (Unit {0})
reject_surrogate_keys ks = guard (not (any_surrogate ks)) invalid_unicode

-- `_reject_execution_context_fields`
unfoldable pub reject_execution_context_fields : List Str → Result FreezeViolation (Unit {0})
reject_execution_context_fields ks =
    guard (not (intersects execution_context_fields ks)) execution_context

-- The checks of a mapping's keys.
unfoldable pub check_keys : List Str → Result FreezeViolation (Unit {0})
check_keys ks = do reject_surrogate_keys ks; reject_execution_context_fields ks

unfoldable pub within_depth : ℕ → Value → Result FreezeViolation Value
within_depth depth v = guard (leb depth max_json_depth) exceeds_depth >>= λ _. ok v

-- `_freeze_json`
unfoldable mutual
  pub freeze_json : ℕ → Value → Result FreezeViolation Value
  freeze_json depth null = within_depth depth null
  freeze_json depth (bool b) = within_depth depth (bool b)
  freeze_json depth (int n) = within_depth depth (int n)
  freeze_json depth (negative n) = within_depth depth (negative n)
  freeze_json depth (text t) = do
    guard (leb depth max_json_depth) exceeds_depth
    guard (not (contains_surrogate t)) invalid_unicode
    ok (text t)
  freeze_json depth (float bits) = do
    guard (leb depth max_json_depth) exceeds_depth
    guard (is_finite bits) not_json_safe
    ok (float bits)
  freeze_json depth (dict fs) = do
    guard (leb depth max_json_depth) exceeds_depth
    check_keys (field_names fs)
    frozen ← freeze_fields (depth + 1) fs
    ok (proxy frozen)
  freeze_json depth (proxy fs) = do
    guard (leb depth max_json_depth) exceeds_depth
    check_keys (field_names fs)
    frozen ← freeze_fields (depth + 1) fs
    ok (proxy frozen)
  freeze_json depth (list vs) = do
    guard (leb depth max_json_depth) exceeds_depth
    frozen ← freeze_items (depth + 1) vs
    ok (tuple frozen)
  freeze_json depth (tuple vs) = do
    guard (leb depth max_json_depth) exceeds_depth
    err not_json_safe
  freeze_json depth object = do guard (leb depth max_json_depth) exceeds_depth; err not_json_safe

  pub freeze_items : ℕ → Items → Result FreezeViolation Items
  freeze_items depth nil = ok nil
  freeze_items depth (cons v vs) = do
    w ← freeze_json depth v
    ws ← freeze_items depth vs
    ok (cons w ws)

  pub freeze_fields : ℕ → Fields → Result FreezeViolation Fields
  freeze_fields depth end = ok end
  freeze_fields depth (field k v fs) = do
    w ← freeze_json depth v
    ws ← freeze_fields depth fs
    ok (field k w ws)

-- `_freeze_object` of a mapping's items.
unfoldable pub freeze_mapping : Fields → Result FreezeViolation Fields
freeze_mapping fs = do check_keys (field_names fs); freeze_fields 0 fs

-- `_thaw_json`
unfoldable mutual
  pub thaw_json : Value → Value
  thaw_json (dict fs) = dict (thaw_object fs)
  thaw_json (proxy fs) = dict (thaw_object fs)
  thaw_json (tuple vs) = list (thaw_items vs)
  thaw_json v = v

  pub thaw_items : Items → Items
  thaw_items nil = nil
  thaw_items (cons v vs) = cons (thaw_json v) (thaw_items vs)

  -- `_thaw_object`
  pub thaw_object : Fields → Fields
  thaw_object end = end
  thaw_object (field k v fs) = field k (thaw_json v) (thaw_object fs)

-- ===== src/Node/Refreeze.antt =====
-- A configuration that the snapshot has frozen passes the node runtime's own freezing.
use urizo_final_orchestrator.Base.{
  ℕ, ◌+◌, Bool, true, false, not, leb, Result, ok, err, ◌>>=◌, ◌>>◌, guard, ◌≡◌, refl, inl, inr,
  Result-cases, arith,
}
use urizo_final_orchestrator.Json.{
  Value, null, bool, int, negative, float, text, list, tuple, dict, proxy, object, Items, nil, cons,
  Fields, end, field, field_names,
}
use urizo_final_orchestrator.Snapshot.Freeze.{
  FreezeViolation, exceeds_depth, max_json_depth, any_surrogate, reject_surrogate_keys,
  reject_execution_context_fields, check_keys, within_depth, freeze_json, freeze_items,
  freeze_fields, freeze_mapping, execution_context_fields, intersects, thaw_json, thaw_items,
  thaw_object,
}
use urizo_final_orchestrator.Snapshot.Safe.{mapping_ok}
use urizo_final_orchestrator.Node.Freeze.{
  within, freeze_value, freeze_values, freeze_entries, freeze_members, freeze_context,
}

field_names-thawed :
    (depth : ℕ) (fs frozen : Fields)
    → freeze_fields depth fs ≡ ok frozen
    → field_names (thaw_object frozen) ≡ field_names fs
unfolding freeze_fields thaw_object
field_names-thawed depth end frozen h = ground arith
field_names-thawed depth (field k v fs) frozen h = elim (Result-cases (freeze_json depth v)) [
  | inr (x, e) ↦ ground (arith, e)
  | inl (w, e) ↦ elim (Result-cases (freeze_fields depth fs)) [
    | inr (x, c) ↦ ground (arith, e, c)
    | inl (ws, c) ↦ ground (arith, e, c, field_names-thawed depth fs ws c)
  ]
]

-- A list is frozen only if its depth is allowed and its items are frozen.
items_ok :
    (a : Bool) (r : Result FreezeViolation Items) (w : Value)
    → (do guard a exceeds_depth; frozen ← r; ok (tuple frozen)) ≡ ok w
    → (a ≡ true) × (ws : Items) × (r ≡ ok ws) × (w ≡ tuple ws)
items_ok true (ok ws) w h = (refl, ws, refl, ground arith)
items_ok true (err x) w h = cc
items_ok false r w h = cc

mutual
  unfolding freeze_json freeze_items freeze_fields freeze_value freeze_values freeze_entries
      thaw_json thaw_items thaw_object within_depth within check_keys reject_surrogate_keys
      reject_execution_context_fields

  freeze_value-thaw_json :
      (depth : ℕ) (v w : Value)
      → freeze_json depth v ≡ ok w
      → freeze_value depth (thaw_json w) ≡ ok w
  freeze_value-thaw_json depth null w h = ground arith
  freeze_value-thaw_json depth (bool b) w h = ground arith
  freeze_value-thaw_json depth (int b) w h = ground arith
  freeze_value-thaw_json depth (negative b) w h = ground arith
  freeze_value-thaw_json depth (float b) w h = ground arith
  freeze_value-thaw_json depth (text b) w h = ground arith
  freeze_value-thaw_json depth (list vs) w h =
      let (a, ws, e, same) =
        items_ok (leb depth max_json_depth) (freeze_items (depth + 1) vs) w h in
      rw (same, a, freeze_values-thaw_items (depth + 1) vs ws e) refl
  freeze_value-thaw_json depth (tuple vs) w h = ground arith
  freeze_value-thaw_json depth (dict fs) w h =
      let (a, b, c, ws, e, same) =
        mapping_ok (leb depth max_json_depth) (not (any_surrogate (field_names fs)))
          (not (intersects execution_context_fields (field_names fs)))
          (freeze_fields (depth + 1) fs) w h in
      rw
        (
          same,
          a,
          field_names-thawed (depth + 1) fs ws e,
          b,
          freeze_entries-thaw_object (depth + 1) fs ws e,
        )
        refl
  freeze_value-thaw_json depth (proxy fs) w h =
      let (a, b, c, ws, e, same) =
        mapping_ok (leb depth max_json_depth) (not (any_surrogate (field_names fs)))
          (not (intersects execution_context_fields (field_names fs)))
          (freeze_fields (depth + 1) fs) w h in
      rw
        (
          same,
          a,
          field_names-thawed (depth + 1) fs ws e,
          b,
          freeze_entries-thaw_object (depth + 1) fs ws e,
        )
        refl
  freeze_value-thaw_json depth object w h = ground arith

  freeze_values-thaw_items :
      (depth : ℕ) (vs ws : Items)
      → freeze_items depth vs ≡ ok ws
      → freeze_values depth (thaw_items ws) ≡ ok ws
  freeze_values-thaw_items depth nil ws h = ground arith
  freeze_values-thaw_items depth (cons v vs) ws h = elim (Result-cases (freeze_json depth v)) [
    | inr (x, e) ↦ ground (arith, e)
    | inl (u, e) ↦ elim (Result-cases (freeze_items depth vs)) [
      | inr (x, k) ↦ ground (arith, e, k)
      | inl (us, k) ↦
          ground (
            arith,
            e,
            k,
            freeze_value-thaw_json depth v u e,
            freeze_values-thaw_items depth vs us k,
          )
    ]
  ]

  freeze_entries-thaw_object :
      (depth : ℕ) (fs ws : Fields)
      → freeze_fields depth fs ≡ ok ws
      → freeze_entries depth (thaw_object ws) ≡ ok ws
  freeze_entries-thaw_object depth end ws h = ground arith
  freeze_entries-thaw_object depth (field n v fs) ws h = elim (Result-cases (freeze_json depth v)) [
    | inr (x, e) ↦ ground (arith, e)
    | inl (u, e) ↦ elim (Result-cases (freeze_fields depth fs)) [
      | inr (x, k) ↦ ground (arith, e, k)
      | inl (us, k) ↦ ground (
        arith,
        e,
        k,
        freeze_value-thaw_json depth v u e,
        freeze_entries-thaw_object depth fs us k,
      )
    ]
  ]

-- What `_freeze_object` of snapshot.py returned, thawed as `node.config` is, is accepted by the
-- `_freeze_object` of node_runtime.py, which gives back the same frozen mapping.
pub freeze_context-thaw_object :
    (fs frozen : Fields)
    → freeze_mapping fs ≡ ok frozen
    → freeze_context (dict (thaw_object frozen)) ≡ ok frozen
unfolding freeze_mapping freeze_context freeze_members check_keys reject_surrogate_keys
    reject_execution_context_fields
freeze_context-thaw_object fs frozen h = elim (Result-cases (freeze_fields 0 fs)) [
  | inr (x, e) ↦ ground (arith, e, h)
  | inl (ws, e) ↦
      ground (arith, e, h, freeze_entries-thaw_object 0 fs ws e, field_names-thawed 0 fs ws e)
]

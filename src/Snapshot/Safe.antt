-- ===== src/Snapshot/Safe.antt =====
-- Which values `_freeze_json` accepts, and that thawing undoes freezing.
use urizo_final_orchestrator.Base.{
  ℕ, ◌+◌, Bool, true, false, not, ◌&&◌, Str, leb, List, Result, ok, err, ◌>>=◌, ◌>>◌, guard, ◌≡◌,
  refl, ◌↔◌, arith, inl, inr, ap, Result-cases,
}
use urizo_final_orchestrator.Json.{
  Value, null, bool, int, negative, float, text, list, tuple, dict, proxy, object, Items, nil, cons,
  Fields, end, field, field_names, is_finite,
}
use urizo_final_orchestrator.Snapshot.Freeze.{
  FreezeViolation, exceeds_depth, invalid_unicode, execution_context, max_json_depth,
  execution_context_fields, contains_surrogate, any_surrogate, intersects, reject_surrogate_keys,
  reject_execution_context_fields, check_keys, within_depth, freeze_json, freeze_items,
  freeze_fields, freeze_mapping, thaw_json, thaw_items, thaw_object,
}

-- The names that a mapping may have.
abbrev pub clean_names : List Str → Bool
clean_names ks = not (any_surrogate ks) && not (intersects execution_context_fields ks)

-- A value of JSON, whose texts are free of surrogates and whose mappings have clean names, with at most
-- `limit` levels of nesting.
unfoldable mutual
  pub is_safe : (limit depth : ℕ) → Value → Bool
  is_safe limit depth null = leb depth limit
  is_safe limit depth (bool b) = leb depth limit
  is_safe limit depth (int n) = leb depth limit
  is_safe limit depth (negative n) = leb depth limit
  is_safe limit depth (float bits) = leb depth limit && is_finite bits
  is_safe limit depth (text t) = leb depth limit && not (contains_surrogate t)
  is_safe limit depth (list vs) = leb depth limit && are_safe limit (depth + 1) vs
  is_safe limit depth (tuple vs) = false
  is_safe limit depth (dict fs) =
      leb depth limit && (clean_names (field_names fs) && have_safe limit (depth + 1) fs)
  is_safe limit depth (proxy fs) =
      leb depth limit && (clean_names (field_names fs) && have_safe limit (depth + 1) fs)
  is_safe limit depth object = false

  pub are_safe : (limit depth : ℕ) → Items → Bool
  are_safe limit depth nil = true
  are_safe limit depth (cons v vs) = is_safe limit depth v && are_safe limit depth vs

  pub have_safe : (limit depth : ℕ) → Fields → Bool
  have_safe limit depth end = true
  have_safe limit depth (field k v fs) = is_safe limit depth v && have_safe limit depth fs

-- A MappingProxyType read as the dict that it shows.
unfoldable mutual
  pub plain : Value → Value
  plain (list vs) = list (plain_items vs)
  plain (dict fs) = dict (plain_fields fs)
  plain (proxy fs) = dict (plain_fields fs)
  plain v = v

  pub plain_items : Items → Items
  plain_items nil = nil
  plain_items (cons v vs) = cons (plain v) (plain_items vs)

  pub plain_fields : Fields → Fields
  plain_fields end = end
  plain_fields (field k v fs) = field k (plain v) (plain_fields fs)

-- A mapping is frozen only if its checks pass and its items are frozen.
pub mapping_ok :
    (a b c : Bool) (r : Result FreezeViolation Fields) (w : Value)
    → (do
      guard a exceeds_depth
      (do guard b invalid_unicode; guard c execution_context)
      frozen ← r
      ok (proxy frozen))
      ≡ ok w
    → (a ≡ true) × (b ≡ true) × (c ≡ true) × (ws : Fields) × (r ≡ ok ws) × (w ≡ proxy ws)
mapping_ok true true true (ok ws) w h = (refl, refl, refl, ws, refl, ground arith)
mapping_ok true true true (err e) w h = cc
mapping_ok true true false r w h = cc
mapping_ok true false c r w h = cc
mapping_ok false b c r w h = cc

list_ok :
    (a : Bool) (r : Result FreezeViolation Items) (w : Value)
    → (do guard a exceeds_depth; frozen ← r; ok (tuple frozen)) ≡ ok w
    → (a ≡ true) × (ws : Items) × (r ≡ ok ws) × (w ≡ tuple ws)
list_ok true (ok ws) w h = (refl, ws, refl, ground arith)
list_ok true (err e) w h = cc
list_ok false r w h = cc

mutual
  unfolding is_safe are_safe have_safe freeze_json freeze_items freeze_fields thaw_json thaw_items
      thaw_object plain plain_items plain_fields within_depth check_keys reject_surrogate_keys
      reject_execution_context_fields

  freeze_json_sound :
      (depth : ℕ) (v w : Value)
      → freeze_json depth v ≡ ok w
      → (is_safe max_json_depth depth v ≡ true) × (thaw_json w ≡ plain v)
  freeze_json_sound depth null w h = ground arith
  freeze_json_sound depth (bool b) w h = ground arith
  freeze_json_sound depth (int b) w h = ground arith
  freeze_json_sound depth (negative b) w h = ground arith
  freeze_json_sound depth (float b) w h = ground arith
  freeze_json_sound depth (text b) w h = ground arith
  freeze_json_sound depth (list vs) w h =
      let (a, ws, e, same) = list_ok (leb depth max_json_depth) (freeze_items (depth + 1) vs) w h in
      let (safe, back) = freeze_items_sound (depth + 1) vs ws e in
      (rw (a, safe) refl, rw same (ap list back))
  freeze_json_sound depth (tuple vs) w h = ground arith
  freeze_json_sound depth (dict fs) w h =
      let (a, b, c, ws, e, same) =
        mapping_ok (leb depth max_json_depth) (not (any_surrogate (field_names fs)))
          (not (intersects execution_context_fields (field_names fs)))
          (freeze_fields (depth + 1) fs) w h in
      let (safe, back) = freeze_fields_sound (depth + 1) fs ws e in
      (rw (a, b, c, safe) refl, rw same (ap dict back))
  freeze_json_sound depth (proxy fs) w h =
      let (a, b, c, ws, e, same) =
        mapping_ok (leb depth max_json_depth) (not (any_surrogate (field_names fs)))
          (not (intersects execution_context_fields (field_names fs)))
          (freeze_fields (depth + 1) fs) w h in
      let (safe, back) = freeze_fields_sound (depth + 1) fs ws e in
      (rw (a, b, c, safe) refl, rw same (ap dict back))
  freeze_json_sound depth object w h = ground arith

  freeze_items_sound :
      (depth : ℕ) (v w : Items)
      → freeze_items depth v ≡ ok w
      → (are_safe max_json_depth depth v ≡ true) × (thaw_items w ≡ plain_items v)
  freeze_items_sound depth nil w h = ground arith
  freeze_items_sound depth (cons v vs) w h = elim (Result-cases (freeze_json depth v)) [
    | inr (x, e) ↦ ground (arith, e)
    | inl (u, e) ↦ elim (Result-cases (freeze_items depth vs)) [
      | inr (x, k) ↦ ground (arith, e, k)
      | inl (us, k) ↦
          ground (arith, e, k, freeze_json_sound depth v u e, freeze_items_sound depth vs us k)
    ]
  ]

  freeze_fields_sound :
      (depth : ℕ) (v w : Fields)
      → freeze_fields depth v ≡ ok w
      → (have_safe max_json_depth depth v ≡ true) × (thaw_object w ≡ plain_fields v)
  freeze_fields_sound depth end w h = ground arith
  freeze_fields_sound depth (field n v vs) w h = elim (Result-cases (freeze_json depth v)) [
    | inr (x, e) ↦ ground (arith, e)
    | inl (u, e) ↦ elim (Result-cases (freeze_fields depth vs)) [
      | inr (x, k) ↦ ground (arith, e, k)
      | inl (us, k) ↦
          ground (arith, e, k, freeze_json_sound depth v u e, freeze_fields_sound depth vs us k)
    ]
  ]

mutual
  unfolding is_safe are_safe have_safe freeze_json freeze_items freeze_fields within_depth
      check_keys reject_surrogate_keys reject_execution_context_fields

  freeze_json_accepts :
      (depth : ℕ) (v : Value)
      → is_safe max_json_depth depth v ≡ true
      → (w : Value) × (freeze_json depth v ≡ ok w)
  freeze_json_accepts depth null h = (null, ground arith)
  freeze_json_accepts depth (bool b) h = (bool b, ground arith)
  freeze_json_accepts depth (int b) h = (int b, ground arith)
  freeze_json_accepts depth (negative b) h = (negative b, ground arith)
  freeze_json_accepts depth (float b) h = (float b, ground arith)
  freeze_json_accepts depth (text b) h = (text b, ground arith)
  freeze_json_accepts depth (list vs) h =
      let (ws, e) = freeze_items_accepts (depth + 1) vs (ground arith) in
      (tuple ws, ground (arith, e))
  freeze_json_accepts depth (tuple vs) h = absurd (cc)
  freeze_json_accepts depth (dict fs) h =
      let (ws, e) = freeze_fields_accepts (depth + 1) fs (ground arith) in
      (proxy ws, ground (arith, e))
  freeze_json_accepts depth (proxy fs) h =
      let (ws, e) = freeze_fields_accepts (depth + 1) fs (ground arith) in
      (proxy ws, ground (arith, e))
  freeze_json_accepts depth object h = absurd (cc)

  freeze_items_accepts :
      (depth : ℕ) (v : Items)
      → are_safe max_json_depth depth v ≡ true
      → (w : Items) × (freeze_items depth v ≡ ok w)
  freeze_items_accepts depth nil h = (nil, refl)
  freeze_items_accepts depth (cons v vs) h =
      let (u, e) = freeze_json_accepts depth v (ground arith) in
      let (us, k) = freeze_items_accepts depth vs (ground arith) in
      (cons u us, ground (arith, e, k))

  freeze_fields_accepts :
      (depth : ℕ) (v : Fields)
      → have_safe max_json_depth depth v ≡ true
      → (w : Fields) × (freeze_fields depth v ≡ ok w)
  freeze_fields_accepts depth end h = (end, refl)
  freeze_fields_accepts depth (field n v vs) h =
      let (u, e) = freeze_json_accepts depth v (ground arith) in
      let (us, k) = freeze_fields_accepts depth vs (ground arith) in
      (field n u us, ground (arith, e, k))

-- The tests of a mapping, as one.
pub freeze_mapping-have_safe :
    (fs : Fields)
    → ((frozen : Fields) × (freeze_mapping fs ≡ ok frozen))
      ↔ ((clean_names (field_names fs) && have_safe max_json_depth 0 fs) ≡ true)
unfolding freeze_mapping check_keys reject_surrogate_keys reject_execution_context_fields
freeze_mapping-have_safe fs = (forth, back)
  where
    forth :
        ((frozen : Fields) × (freeze_mapping fs ≡ ok frozen))
        → (clean_names (field_names fs) && have_safe max_json_depth 0 fs) ≡ true
    forth (frozen, h) = elim (Result-cases (freeze_fields 0 fs)) [
      | inl (ws, e) ↦ ground (arith, e, h, freeze_fields_sound 0 fs ws e)
      | inr (x, e) ↦ ground (arith, e, h)
    ]

    back :
        (clean_names (field_names fs) && have_safe max_json_depth 0 fs) ≡ true
        → (frozen : Fields) × (freeze_mapping fs ≡ ok frozen)
    back h = let (ws, e) = freeze_fields_accepts 0 fs (ground arith) in (ws, ground (arith, e, h))

-- Thawing what `_freeze_object` returns gives the mapping back, with the dicts that its proxies show.
pub thaw_object-freeze_mapping :
    (fs frozen : Fields) → freeze_mapping fs ≡ ok frozen → thaw_object frozen ≡ plain_fields fs
unfolding freeze_mapping check_keys reject_surrogate_keys reject_execution_context_fields
thaw_object-freeze_mapping fs frozen h = elim (Result-cases (freeze_fields 0 fs)) [
  | inl (ws, e) ↦ ground (arith, e, h, freeze_fields_sound 0 fs ws e)
  | inr (x, e) ↦ ground (arith, e, h)
]

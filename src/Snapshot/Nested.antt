-- ===== src/Snapshot/Nested.antt =====
-- Which configurations `_freeze_object` accepts, said without the tests that it makes.
use urizo_final_orchestrator.Base.{ℕ, ◌+◌, ◌≤◌, true, &&_true, ok, ◌≡◌, ◌↔◌, refl, arith}
use urizo_final_orchestrator.Json.{
  Value, null, bool, int, negative, float, text, list, tuple, dict, proxy, object, Items, nil, cons,
  Fields, end, field, field_names, is_finite,
}
use urizo_final_orchestrator.Snapshot.Freeze.{max_json_depth, freeze_mapping}
use urizo_final_orchestrator.Snapshot.Safe.{
  clean_names, is_safe, are_safe, have_safe, freeze_mapping-have_safe,
}
use urizo_final_orchestrator.Snapshot.Shape.{
  IsUnicode-iff, IsJson, AreJson, HaveJson, height, items_height, fields_height, max_above,
  max_below, clean_names_none, IsName-head, IsName-more,
}

mutual
  unfolding is_safe are_safe have_safe IsJson AreJson HaveJson height items_height fields_height
      is_finite

  is_safe-IsJson :
      (limit depth : ℕ) (v : Value)
      → is_safe limit depth v ≡ true
      → IsJson v × (depth + height v ≤ limit)
  is_safe-IsJson limit depth null h = (tt, ground (arith, h))
  is_safe-IsJson limit depth (bool b) h = (tt, ground (arith, h))
  is_safe-IsJson limit depth (int n) h = (tt, ground (arith, h))
  is_safe-IsJson limit depth (negative n) h = (tt, ground (arith, h))
  is_safe-IsJson limit depth (float bits) h =
      (λ e. absurd (ground (arith, e, h)), ground (arith, h))
  is_safe-IsJson limit depth (text t) h =
      ((IsUnicode-iff t).0 (ground (arith, h)), ground (arith, h))
  is_safe-IsJson limit depth (list vs) h =
      are_safe-AreJson limit depth vs (ground (arith, h)) (ground (arith, h))
  is_safe-IsJson limit depth (tuple vs) h = absurd (cc)
  is_safe-IsJson limit depth (dict fs) h =
      let (json, within) =
        have_safe-HaveJson limit (depth + 1) fs (ground (arith, h)) (ground (arith, h))
          (ground (arith, h)) in
      (json, omega (arith, within))
  is_safe-IsJson limit depth (proxy fs) h =
      let (json, within) =
        have_safe-HaveJson limit (depth + 1) fs (ground (arith, h)) (ground (arith, h))
          (ground (arith, h)) in
      (json, omega (arith, within))
  is_safe-IsJson limit depth object h = absurd (cc)

  are_safe-AreJson :
      (limit depth : ℕ) (vs : Items)
      → depth ≤ limit
      → are_safe limit (depth + 1) vs ≡ true
      → AreJson vs × (depth + items_height vs ≤ limit)
  are_safe-AreJson limit depth nil low h = (tt, omega (arith, low))
  are_safe-AreJson limit depth (cons v vs) low h =
      let (json, within) = is_safe-IsJson limit (depth + 1) v (ground (arith, h)) in
      let (jsons, rest) = are_safe-AreJson limit depth vs low (ground (arith, h)) in
      (
        (json, jsons),
        max_above depth (1 + height v) (items_height vs) limit (omega (arith, within)) rest,
      )

  have_safe-HaveJson :
      (limit depth : ℕ) (fs : Fields)
      → depth ≤ limit + 1
      → clean_names (field_names fs) ≡ true
      → have_safe limit depth fs ≡ true
      → HaveJson fs × (depth + fields_height fs ≤ limit + 1)
  have_safe-HaveJson limit depth end low clean h = (tt, omega (arith, low))
  have_safe-HaveJson limit depth (field k v fs) low clean h =
      let (named, others) = IsName-head k (field_names fs) clean in
      let (json, within) = is_safe-IsJson limit depth v (ground (arith, h)) in
      let (jsons, rest) = have_safe-HaveJson limit depth fs low others (ground (arith, h)) in
      (
        (named, json, jsons),
        max_above depth (1 + height v) (fields_height fs) (limit + 1) (omega (arith, within)) rest,
      )

mutual
  unfolding is_safe are_safe have_safe IsJson AreJson HaveJson height items_height fields_height
      is_finite

  IsJson-is_safe :
      (limit depth : ℕ) (v : Value)
      → IsJson v
      → depth + height v ≤ limit
      → is_safe limit depth v ≡ true
  IsJson-is_safe limit depth null j h = ground (arith, h)
  IsJson-is_safe limit depth (bool b) j h = ground (arith, h)
  IsJson-is_safe limit depth (int n) j h = ground (arith, h)
  IsJson-is_safe limit depth (negative n) j h = ground (arith, h)
  IsJson-is_safe limit depth (float bits) j h = ground (arith, h, j)
  IsJson-is_safe limit depth (text t) j h = ground (arith, h, (IsUnicode-iff t).1 j)
  IsJson-is_safe limit depth (list vs) j h = ground (arith, h, AreJson-are_safe limit depth vs j h)
  IsJson-is_safe limit depth (tuple vs) j h = absurd j
  IsJson-is_safe limit depth (dict fs) j h =
      ground (arith, h, HaveJson-have_safe limit (depth + 1) fs j (omega (arith, h)))
  IsJson-is_safe limit depth (proxy fs) j h =
      ground (arith, h, HaveJson-have_safe limit (depth + 1) fs j (omega (arith, h)))
  IsJson-is_safe limit depth object j h = absurd j

  AreJson-are_safe :
      (limit depth : ℕ) (vs : Items)
      → AreJson vs
      → depth + items_height vs ≤ limit
      → are_safe limit (depth + 1) vs ≡ true
  AreJson-are_safe limit depth nil j h = refl
  AreJson-are_safe limit depth (cons v vs) (j, js) h =
      let (first, rest) = max_below depth (1 + height v) (items_height vs) limit h in
      ground (
        arith,
        IsJson-is_safe limit (depth + 1) v j (omega (arith, first)),
        AreJson-are_safe limit depth vs js rest,
      )

  HaveJson-have_safe :
      (limit depth : ℕ) (fs : Fields)
      → HaveJson fs
      → depth + fields_height fs ≤ limit + 1
      → (clean_names (field_names fs) ≡ true) × (have_safe limit depth fs ≡ true)
  HaveJson-have_safe limit depth end j h = (clean_names_none, refl)
  HaveJson-have_safe limit depth (field k v fs) (named, j, js) h =
      let (first, rest) = max_below depth (1 + height v) (fields_height fs) (limit + 1) h in
      let (clean, safe) = HaveJson-have_safe limit depth fs js rest in
      (
        IsName-more k (field_names fs) named clean,
        ground (arith, safe, IsJson-is_safe limit depth v j (omega (arith, first))),
      )

-- `_freeze_object` accepts a mapping exactly when what it holds is JSON, with finite floats, texts and names
-- without surrogates and at no level a name that carries the context of an execution, and when it nests
-- at most 65 levels of lists and mappings, itself included: every value in it at most 64.
pub freeze_mapping_iff :
    (fs : Fields)
    → ((frozen : Fields) × (freeze_mapping fs ≡ ok frozen))
      ↔ (HaveJson fs × (fields_height fs ≤ 65))
freeze_mapping_iff fs = (forth, back)
  where
    forth :
        ((frozen : Fields) × (freeze_mapping fs ≡ ok frozen))
        → HaveJson fs × (fields_height fs ≤ 65)
    forth frozen =
        let both = (freeze_mapping-have_safe fs).0 frozen in
        let (clean, safe) =
          &&_true (clean_names (field_names fs)) (have_safe max_json_depth 0 fs) both in
        let (json, within) = have_safe-HaveJson 64 0 fs (omega arith) clean safe in
        (json, omega (arith, within))

    back :
        HaveJson fs × (fields_height fs ≤ 65) → (frozen : Fields) × (freeze_mapping fs ≡ ok frozen)
    back (json, within) =
        let (clean, safe) = HaveJson-have_safe 64 0 fs json (omega (arith, within)) in
        (freeze_mapping-have_safe fs).1 (rw (clean, safe) refl)

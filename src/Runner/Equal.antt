-- ===== src/Runner/Equal.antt =====
-- Python's `==` on the values that checkpoints, events and claims hold.
use urizo_final_orchestrator.Base.{
  ℕ, ◌+◌, ◌-◌, ◌*◌, ◌^◌, Bool, true, false, not, ◌&&◌, ◌||◌, ◌==◌, ltb, leb, eq, none, some, length,
  if◌then◌else◌,
}
use urizo_final_orchestrator.Json.{
  Value, null, bool, int, negative, float, text, list, tuple, dict, proxy, Items, nil, cons, Fields,
  end, field, field_names, lookup,
}
use urizo_final_orchestrator.Contracts.Claim.{is_number}

-- A float below zero is told by its sign bit.
unfoldable pub is_negative_number : ℕ → Value → Bool
is_negative_number n (negative m) = m == n
is_negative_number n (float bits) = leb (2 ^ 63) bits && is_number (n + 1) (float (bits - 2 ^ 63))
is_negative_number n _ = false

unfoldable pub is_not_a_number : ℕ → Bool
is_not_a_number bits = ltb (2047 * 2 ^ 52) (if leb (2 ^ 63) bits then bits - 2 ^ 63 else bits)

unfoldable pub same_float : ℕ → ℕ → Bool
same_float a b =
    (not (is_not_a_number a) && a == b) || (is_number 0 (float a) && is_number 0 (float b))

unfoldable pub same_count : Fields → Fields → Bool
same_count fs gs = length (field_names fs) == length (field_names gs)

unfoldable mutual
  -- `a == b`; a dict and a proxy of it are equal, a list and a tuple are not.
  pub same_value : Value → Value → Bool
  same_value null null = true
  same_value (bool b) v = is_number (if b then 1 else 0) v
  same_value (int n) v = is_number n v
  same_value (negative n) v = is_negative_number n v
  same_value (float a) (float b) = same_float a b
  same_value (float a) (int n) = is_number n (float a)
  same_value (float a) (bool b) = is_number (if b then 1 else 0) (float a)
  same_value (float a) (negative n) = is_negative_number n (float a)
  same_value (text t) (text u) = eq t u
  same_value (list vs) (list ws) = same_items vs ws
  same_value (tuple vs) (tuple ws) = same_items vs ws
  same_value (dict fs) (dict gs) = same_count fs gs && all_same fs gs
  same_value (dict fs) (proxy gs) = same_count fs gs && all_same fs gs
  same_value (proxy fs) (dict gs) = same_count fs gs && all_same fs gs
  same_value (proxy fs) (proxy gs) = same_count fs gs && all_same fs gs
  same_value _ _ = false

  pub same_items : Items → Items → Bool
  same_items nil nil = true
  same_items (cons v vs) (cons w ws) = same_value v w && same_items vs ws
  same_items _ _ = false

  -- Each entry of the first is in the second.
  pub all_same : Fields → Fields → Bool
  all_same end gs = true
  all_same (field k v fs) gs = elim (lookup k gs) [
    | none ↦ false
    | some w ↦ same_value v w && all_same fs gs
  ]

-- ===== src/Json.antt =====
-- Python values as the contracts of snapshot.py and node_runtime.py meet them: what json.loads
-- builds, the frozen forms (a tuple, a MappingProxyType), and any other object. Keys are texts,
-- as json.loads gives them. A float is its IEEE 754 bit pattern.
use urizo_final_orchestrator.Base.{
  ℕ, ◌/◌, ◌%◌, ◌^◌, Bool, true, false, not, Str, ◌==◌, Option, none, some, eq, if◌then◌else◌, List,
  [], ◌∷◌,
}

mutual
  pub data Value : Type 0 where
    null : Value
    bool : Bool → Value
    int : ℕ → Value
    negative : ℕ → Value  -- -(n + 1)
    float : ℕ → Value
    text : Str → Value
    list : Items → Value
    tuple : Items → Value
    dict : Fields → Value
    proxy : Fields → Value
    object : Value

  pub data Items : Type 0 where
    nil : Items
    cons : Value → Items → Items

  pub data Fields : Type 0 where
    end : Fields
    field : Str → Value → Fields → Fields

-- `mapping.get(key)`
unfoldable pub lookup : Str → Fields → Option Value
lookup k end = none
lookup k (field j v fs) = if eq j k then some v else lookup k fs

abbrev pub field_names : Fields → List Str
field_names end = []
field_names (field k v fs) = k ∷ field_names fs

-- `math.isfinite`: the exponent is not all ones.
unfoldable pub is_finite : ℕ → Bool
is_finite bits = not (bits / 2 ^ 52 % 2048 == 2047)

-- `value is True`
unfoldable pub is_true : Option Value → Bool
is_true (some (bool true)) = true
is_true _ = false

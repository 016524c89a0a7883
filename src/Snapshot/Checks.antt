-- ===== src/Snapshot/Checks.antt =====
-- snapshot.py: the checks of single fields, and the patterns that they match.
use urizo_final_orchestrator.Base.{
  ℕ, Bool, true, false, not, ◌&&◌, ◌||◌, ◌==◌, Str, leb, Option, none, some, List, [], ◌∷◌,
  if◌then◌else◌, length, same_set, Result, ok, err, ◌>>=◌, ◌>>◌, guard,
}
use urizo_final_orchestrator.Json.{
  Value, int, text, list, dict, proxy, Items, nil, cons, Fields, field_names,
}
use urizo_final_orchestrator.Contracts.{uuid_from}
use urizo_final_orchestrator.Snapshot.{Violation}
use urizo_final_orchestrator.Snapshot.Freeze.{FreezeViolation, contains_surrogate, freeze_mapping}

-- The messages of `SnapshotContractViolation` that parsing raises, without the field's name.
pub data ParseViolation : Type 0 where
  not_object wrong_fields invalid unsupported duplicates not_array empty_array : ParseViolation
  not_three_attempts : ParseViolation
  not_frozen : FreezeViolation → ParseViolation
  refused : Violation → ParseViolation

abbrev pub Parsed : Type 0 → Type 0
Parsed A = Result ParseViolation A

abbrev pub is_lower_letter : ℕ → Bool
is_lower_letter c = leb b'a' c && leb c b'z'

abbrev pub is_upper_letter : ℕ → Bool
is_upper_letter c = leb b'A' c && leb c b'Z'

abbrev pub is_digit : ℕ → Bool
is_digit c = leb b'0' c && leb c b'9'

-- `[a-z0-9_-]`
unfoldable pub is_name_character : ℕ → Bool
is_name_character c = is_lower_letter c || (is_digit c || (c == b'_' || c == b'-'))

-- `[A-Z0-9_]`
unfoldable pub is_key_character : ℕ → Bool
is_key_character c = is_upper_letter c || (is_digit c || c == b'_')

-- `[a-z0-9_.:-]`
unfoldable pub is_guardrail_character : ℕ → Bool
is_guardrail_character c = is_name_character c || (c == b'.' || c == b':')

unfoldable pub all_of : (ℕ → Bool) → Str → Bool
all_of p [] = true
all_of p (c ∷ cs) = if p c then all_of p cs else false

-- A first character and at most `limit` others.
unfoldable pub starts : (ℕ → Bool) → (ℕ → Bool) → ℕ → Str → Bool
starts first other limit [] = false
starts first other limit (c ∷ cs) = first c && (leb (length cs) limit && all_of other cs)

-- NODE_IDENTIFIER, NODE_TYPE and RESULT_PORT
unfoldable pub is_identifier : Str → Bool
is_identifier t = starts is_lower_letter is_name_character 63 t

-- PROFILE_KEY
unfoldable pub is_profile_key : Str → Bool
is_profile_key t = starts is_upper_letter is_key_character 63 t

-- GUARDRAIL_PROFILE_KEY
unfoldable pub is_guardrail_profile_key : Str → Bool
is_guardrail_profile_key t = starts is_lower_letter is_guardrail_character 127 t

-- HANDLER_KEY: segments parted by dots; `fresh` at the start of one.
unfoldable pub is_handler_from : (fresh : Bool) → Str → Bool
is_handler_from true [] = false
is_handler_from true (c ∷ cs) = let rest = is_handler_from false cs in is_lower_letter c && rest
is_handler_from false [] = true
is_handler_from false (c ∷ cs) =
    let next = is_handler_from true cs in
    let rest = is_handler_from false cs in if c == b'.' then next else is_name_character c && rest

unfoldable pub is_handler_key : Str → Bool
is_handler_key t = is_handler_from true t

-- `_object`
unfoldable pub object_of : Value → Parsed Fields
object_of (dict fs) = ok fs
object_of (proxy fs) = ok fs
object_of _ = err not_object

-- A payload's entry; `_exact_fields` has shown that it is there.
unfoldable pub present : Option Value → Parsed Value
present none = err wrong_fields
present (some v) = ok v

-- `_exact_fields`
unfoldable pub exact_names : Fields → List Str → Parsed (Unit {0})
exact_names fs expected = guard (same_set (field_names fs) expected) wrong_fields

-- `_matched`
unfoldable pub matched : (Str → Bool) → ℕ → Value → Parsed Str
matched pattern maximum (text t) = do
  guard (not (contains_surrogate t) && (leb 1 (length t) && leb (length t) maximum)) invalid
  guard (pattern t) invalid
  ok t
matched pattern maximum _ = err invalid

-- `_positive_integer`
unfoldable pub positive_integer : Value → Parsed ℕ
positive_integer (int n) = guard (leb 1 n) invalid >>= λ _. ok n
positive_integer _ = err invalid

-- `_uuid`: the text is `str` of its UUID.
unfoldable pub uuid_of : Value → Parsed Str
uuid_of (text t) = guard (uuid_from 0 t) invalid >>= λ _. ok t
uuid_of _ = err invalid

-- `_list`
unfoldable pub items_of : Value → Parsed Items
items_of (list vs) = ok vs
items_of _ = err not_array

-- `_nonempty_list`
unfoldable pub some_items : Items → Parsed Items
some_items nil = err empty_array
some_items (cons v vs) = ok (cons v vs)

unfoldable pub nonempty_items_of : Value → Parsed Items
nonempty_items_of v = items_of v >>= some_items

-- Each item in its order.
unfoldable pub parse_all {ℓ} :
    {A : Type ℓ} → (Value → Result ParseViolation A) → Items → Result ParseViolation (List A)
parse_all parse nil = ok []
parse_all parse (cons v vs) = do a ← parse v; rest ← parse_all parse vs; ok (a ∷ rest)

-- `_freeze_object`
unfoldable pub frozen_of : Result FreezeViolation Fields → Parsed Fields
frozen_of (ok fs) = ok fs
frozen_of (err e) = err (not_frozen e)

unfoldable pub freeze_object : Value → Parsed Fields
freeze_object v = do fs ← object_of v; frozen_of (freeze_mapping fs)

-- ===== src/Contracts/Checks.antt =====
-- contracts.py: the checks of single fields. What datetime.fromisoformat reads is the parameter
-- `instant_of`: a text's instant, where it has a time zone.
use urizo_final_orchestrator.Base.{
  ℕ, suc, Bool, true, false, not, ◌&&◌, ◌||◌, ◌==◌, ltb, Str, codes, leb, Option, none, some, List,
  [], ◌∷◌, if◌then◌else◌, eq, length, nodup, Result, ok, err, ◌>>=◌, ◌>>◌, guard,
}
use urizo_final_orchestrator.Json.{
  Value, null, int, text, bool, list, Items, nil, cons, Fields, lookup,
}
use urizo_final_orchestrator.Contracts.{is_uuid, as_object, exact_fields, is_hex}
use urizo_final_orchestrator.Snapshot.Checks.{
  is_lower_letter, is_upper_letter, is_digit, is_name_character, all_of,
}

-- The messages of `WorkerContractViolation`, without the field's name.
pub data ContractViolation : Type 0 where
  not_object wrong_fields invalid unsupported item_count duplicates : ContractViolation
  attempt_mismatch uncorrelated expired not_advanced wrong_profile out_of_scope : ContractViolation
  approval_authority wrong_status : ContractViolation

abbrev pub Checked : Type 0 → Type 0
Checked A = Result ContractViolation A

unfoldable pub object_in : Option Fields → Checked Fields
object_in none = err not_object
object_in (some fs) = ok fs

-- `_object`
unfoldable pub object_of : Value → Checked Fields
object_of v = object_in (as_object v)

-- `payload[name]`; the exact fields have been checked.
unfoldable pub present : Option Value → Checked Value
present none = err wrong_fields
present (some v) = ok v

abbrev pub entry : Str → Fields → Checked Value
entry name fs = present (lookup name fs)

-- `_exact_fields`
unfoldable pub exact_names : Fields → List Str → Checked (Unit {0})
exact_names fs expected = guard (exact_fields fs expected) wrong_fields

unfoldable pub is_text : Str → Value → Bool
is_text t (text u) = eq u t
is_text t _ = false

-- A value that was found to be a text.
unfoldable pub text_of : Value → Checked Str
text_of (text t) = ok t
text_of _ = err invalid

-- `_schema_version`
unfoldable pub schema_version : Value → Checked (Unit {0})
schema_version v = guard (is_text (codes "1.0") v) unsupported

-- `_uuid`
unfoldable pub uuid_of : Value → Checked Str
uuid_of (text t) = guard (is_uuid t) invalid >>= λ _. ok t
uuid_of _ = err invalid

-- `_optional_uuid`
unfoldable pub optional_uuid_of : Value → Checked (Option Str)
optional_uuid_of null = ok none
optional_uuid_of v = do t ← uuid_of v; ok (some t)

-- `_positive_integer`
unfoldable pub positive_integer : Value → Checked ℕ
positive_integer (int n) = guard (leb 1 n) invalid >>= λ _. ok n
positive_integer _ = err invalid

-- `isinstance(value, bool)`
unfoldable pub bool_of : Value → Checked Bool
bool_of (bool b) = ok b
bool_of _ = err invalid

-- `_bounded_string`
unfoldable pub bounded_string : ℕ → ℕ → Value → Checked Str
bounded_string minimum maximum (text t) =
    guard (leb minimum (length t) && leb (length t) maximum) invalid >>= λ _. ok t
bounded_string minimum maximum _ = err invalid

-- `_matched`
unfoldable pub matched : (Str → Bool) → ℕ → Value → Checked Str
matched pattern maximum v = do t ← bounded_string 1 maximum v; guard (pattern t) invalid; ok t

abbrev pub matched_entry : (Str → Bool) → ℕ → Str → Fields → Checked Str
matched_entry pattern maximum name fs = entry name fs >>= matched pattern maximum

abbrev pub uuid_entry : Str → Fields → Checked Str
uuid_entry name fs = entry name fs >>= uuid_of

abbrev pub is_letter_or_digit : ℕ → Bool
is_letter_or_digit c = is_lower_letter c || (is_upper_letter c || is_digit c)

unfoldable pub is_key_character : ℕ → Bool
is_key_character c = is_letter_or_digit c || (c == b'.' || (c == b'_' || (c == b':' || c == b'-')))

unfoldable pub is_version_character : ℕ → Bool
is_version_character c = is_letter_or_digit c || (c == b'.' || (c == b'_' || c == b'-'))

-- IDEMPOTENCY_KEY
unfoldable pub is_idempotency_key : Str → Bool
is_idempotency_key [] = false
is_idempotency_key (c ∷ cs) =
    is_letter_or_digit c
    && (leb 7 (length cs) && (leb (length cs) 127 && all_of is_key_character cs))

unfoldable pub drop_prefix : Str → Str → Option Str
drop_prefix [] cs = some cs
drop_prefix (p ∷ ps) [] = none
drop_prefix (p ∷ ps) (c ∷ cs) = let rest = drop_prefix ps cs in if p == c then rest else none

unfoldable pub is_hex_digits : ℕ → Option Str → Bool
is_hex_digits n none = false
is_hex_digits n (some cs) = (length cs == n) && all_of is_hex cs

-- SHA256_DIGEST
unfoldable pub is_sha256_digest : Str → Bool
is_sha256_digest t = is_hex_digits 64 (drop_prefix (codes "sha256:") t)

-- GIT_OBJECT_ID
unfoldable pub is_git_object_id : Str → Bool
is_git_object_id t = is_hex_digits 40 (drop_prefix (codes "sha1:") t) || is_sha256_digest t

-- GRAPH_STEP
unfoldable pub is_graph_step : Str → Bool
is_graph_step [] = false
is_graph_step (c ∷ cs) = is_lower_letter c && all_of is_name_character cs

-- PROMPT_VERSION
unfoldable pub is_prompt_version : Str → Bool
is_prompt_version [] = false
is_prompt_version (c ∷ cs) = all_of is_version_character (c ∷ cs)

unfoldable pub count_items : Items → ℕ
count_items nil = 0
count_items (cons v vs) = suc (count_items vs)

unfoldable pub bounded_strings : ℕ → Items → Checked (List Str)
bounded_strings maximum nil = ok []
bounded_strings maximum (cons v vs) = do
  t ← bounded_string 1 maximum v
  rest ← bounded_strings maximum vs
  ok (t ∷ rest)

-- `_string_list`
unfoldable pub string_list : ℕ → ℕ → ℕ → Value → Checked (List Str)
string_list minimum maximum item_maximum (list vs) = do
  guard (leb minimum (count_items vs) && leb (count_items vs) maximum) item_count
  ts ← bounded_strings item_maximum vs
  guard (nodup ts) duplicates
  ok ts
string_list minimum maximum item_maximum _ = err item_count

-- `[0-9A-Fa-f]`
unfoldable pub is_any_hex : ℕ → Bool
is_any_hex c = is_hex c || (leb b'A' c && leb c b'F')

-- `re.search(r"%[0-9A-Fa-f]{2}", path)`
unfoldable pub has_escape : Str → Bool
has_escape [] = false
has_escape (a ∷ []) = false
has_escape (a ∷ b ∷ []) = false
has_escape (a ∷ b ∷ c ∷ cs) =
    if a == b'%' && (is_any_hex b && is_any_hex c) then true else has_escape (b ∷ c ∷ cs)

-- The segment at the front, with its `..` test, and the rest: `path.split("/")`.
unfoldable pub has_parent_from : Str → Str → Bool
has_parent_from segment [] = eq segment (codes "..")
has_parent_from segment (c ∷ cs) =
    let next = has_parent_from [] cs in
    let longer = has_parent_from (c ∷ segment) cs in
    if c == b'/' then (if eq segment (codes "..") then true else next) else longer

unfoldable pub is_forbidden_character : ℕ → Bool
is_forbidden_character c = ltb c 0x20 || (c == 0x7F || (c == b'\\' || c == b':'))

unfoldable pub has_forbidden : Str → Bool
has_forbidden [] = false
has_forbidden (c ∷ cs) = if is_forbidden_character c then true else has_forbidden cs

unfoldable pub starts_with_slash : Str → Bool
starts_with_slash [] = false
starts_with_slash (c ∷ cs) = c == b'/'

-- `_relative_path`; a drive letter has a colon, which the path may not hold.
unfoldable pub relative_path : Value → Checked Str
relative_path v = do
  path ← bounded_string 1 1000 v
  guard
      (not (
        starts_with_slash path
        || (has_forbidden path || (has_escape path || has_parent_from [] path))))
      invalid
  ok path

module _ (instant_of : Str → Option ℕ) where
  unfoldable pub instant_in : Option ℕ → Checked ℕ
  instant_in none = err invalid
  instant_in (some n) = ok n

  -- `_timestamp`
  unfoldable pub timestamp : Value → Checked ℕ
  timestamp (text t) = instant_in (instant_of t)
  timestamp _ = err invalid

  -- `now is not None and expires <= now`
  unfoldable pub not_expired : ℕ → Option ℕ → Checked (Unit {0})
  not_expired expires none = ok tt
  not_expired expires (some now) = guard (ltb now expires) expired

-- ===== src/Contracts.antt =====
-- contracts.py: the checks that the worker contracts share, and the queue's job reference.
pub mod Checks
pub mod Event
pub mod Claim
pub mod Correlated
pub mod Scoped
pub mod Permitted
use urizo_final_orchestrator.Base.{
  ℕ, ◌+◌, Bool, true, false, ◌&&◌, ◌||◌, Str, codes, ◌==◌, ltb, leb, Option, none, some, List, [],
  ◌∷◌, map, if◌then◌else◌, same_set,
}
use urizo_final_orchestrator.Json.{Value, text, dict, proxy, Fields, lookup, field_names}

-- `str.lower` on the letters that a hexadecimal number may hold; no other character becomes one.
unfoldable pub lower : ℕ → ℕ
lower c = if leb b'A' c && leb c b'Z' then c + 32 else c

unfoldable pub is_hex : ℕ → Bool
is_hex c = (leb b'0' c && leb c b'9') || (leb b'a' c && leb c b'f')

-- The 8-4-4-4-12 form that `str(UUID(value))` has: hyphens at four places, and hexadecimal digits.
unfoldable pub uuid_at : ℕ → ℕ → Bool
uuid_at i c = if i == 8 || (i == 13 || (i == 18 || i == 23)) then c == b'-' else is_hex c

unfoldable pub uuid_from : ℕ → Str → Bool
uuid_from i [] = i == 36
uuid_from i (c ∷ cs) = ltb i 36 && (uuid_at i c && uuid_from (i + 1) cs)

-- `str(UUID(value)) == value.lower()`
unfoldable pub is_uuid : Str → Bool
is_uuid value = uuid_from 0 (map lower value)

-- `_object`: a mapping, whose keys are texts.
unfoldable pub as_object : Value → Option Fields
as_object (dict fs) = some fs
as_object (proxy fs) = some fs
as_object _ = none

-- `_exact_fields`
unfoldable pub exact_fields : Fields → List Str → Bool
exact_fields fs expected = same_set (field_names fs) expected

unfoldable pub as_uuid : Option Value → Option Str
as_uuid (some (text t)) = if is_uuid t then some t else none
as_uuid _ = none

-- `QueuedJobReference`
pub record QueuedJobReference : Type 0 where
  pub job_id : Str

unfoldable pub with_job_id : Option Str → Option QueuedJobReference
with_job_id none = none
with_job_id (some t) = some (record { job_id = t })

-- `QueuedJobReference.from_dict`; `none` is a WorkerContractViolation.
unfoldable pub job_reference_of_fields : Option Fields → Option QueuedJobReference
job_reference_of_fields none = none
job_reference_of_fields (some fs) =
    if exact_fields fs (codes "jobId" ∷ [])
    then with_job_id (as_uuid (lookup (codes "jobId") fs))
    else none

-- `QueuedJobReference.from_json` of what json.loads makes of the bytes (`none`: no JSON).
unfoldable pub job_reference : Option Value → Option QueuedJobReference
job_reference none = none
job_reference (some v) = job_reference_of_fields (as_object v)

-- The profile binding of an event.
pub record Binding : Type 0 where
  pub profile_version_id : Str
  pub pipeline_attempt : ℕ
  pub execution_attempt : ℕ
  pub workspace_id : Option Str
  pub tool_call_id : Option Str

-- `CodingJobRequested`: what its properties read. `payload` is `job_payload`.
pub record CodingJobRequested : Type 0 where
  pub event_id : Str
  pub job_id : Str
  pub trace_id : Str
  pub idempotency_key : Str
  pub attempt : ℕ
  pub expected_state_version : ℕ
  pub occurred_at : Str
  pub binding : Option Binding
  pub payload : Fields

-- `is_profile_bound`
unfoldable pub is_bound : Option Binding → Bool
is_bound none = false
is_bound (some b) = true

unfoldable pub is_profile_bound : CodingJobRequested → Bool
unfolding is_bound
is_profile_bound e = is_bound e.binding

-- `WorkerClaim`: what its properties read.
pub record WorkerClaim : Type 0 where
  pub job_id : Str
  pub trace_id : Str
  pub lease_id : Str
  pub lease_expires_at : ℕ
  pub state_version : ℕ
  pub resume : Bool
  pub profile_version_id : Str
  pub snapshot : Fields

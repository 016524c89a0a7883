-- ===== src/Worker/Heartbeat.antt =====
-- heartbeat.py: `LeaseHeartbeatManager`. A thread's iteration of `_run` is a step of its own, with the
-- API's answer and the time; `serial` tells records of one job apart (`current is record`).
use urizo_final_orchestrator.Base.{
  ℕ, ◌+◌, Bool, true, false, not, ◌&&◌, ◌||◌, ◌==◌, leb, Str, codes, eq, Option, none, some, List,
  [], ◌∷◌, if◌then◌else◌, Dict, get, put, remove, Result, ok, err,
}
use urizo_final_orchestrator.Contracts.{WorkerClaim}

-- `_LeaseRecord`, with whether its thread still runs.
pub record LeaseRecord : Type 0 where
  pub claim : WorkerClaim
  pub expires_at : ℕ
  pub lost_code : Option Str
  pub serial : ℕ
  pub is_running : Bool

pub record Manager : Type 0 where
  pub records : Dict LeaseRecord
  pub next_serial : ℕ

-- How `self._worker_api.heartbeat` ends: with a new expiry, a WorkerApiError or another exception.
pub data Answer : Type 0 where
  renewed : ℕ → Answer
  api_error : Str → Bool → Answer
  other_error : Answer

abbrev pub conflict : Str
conflict = codes "JOB_STATE_VERSION_CONFLICT"

abbrev pub transient_error : Str
transient_error = codes "INTERNAL_TRANSIENT_ERROR"

-- `stop`
unfoldable pub stop : Str → Manager → Manager
stop job_id m = record m { records = remove job_id m.records }

-- `start`
abbrev pub first_record : WorkerClaim → ℕ → LeaseRecord
first_record c serial = record {
  claim = c;
  expires_at = c.lease_expires_at;
  lost_code = none;
  serial = serial;
  is_running = true;
}

unfoldable pub start : WorkerClaim → Manager → Manager
start c m = record {
  records = put c.job_id (first_record c m.next_serial) (stop c.job_id m).records;
  next_serial = m.next_serial + 1;
}

-- `close`
unfoldable pub stop_all : Dict LeaseRecord → Manager → Manager
stop_all [] m = m
stop_all ((j, r) ∷ rs) m = stop_all rs (stop j m)

unfoldable pub close : Manager → Manager
close m = stop_all m.records m

abbrev pub lost : Str → LeaseRecord → LeaseRecord
lost code r = record r { lost_code = some code; is_running = false }

-- What an iteration does to its record while the manager still has it.
unfoldable pub after_answer : Answer → ℕ → LeaseRecord → LeaseRecord
after_answer (renewed expires) now r = record r { expires_at = expires }
after_answer (api_error code retryable) now r =
    if not retryable || leb r.expires_at now then lost code r else r
after_answer other_error now r = if leb r.expires_at now then lost transient_error r else r

unfoldable pub beat_record : ℕ → Answer → ℕ → LeaseRecord → LeaseRecord
beat_record serial a now r = if r.serial == serial && r.is_running then after_answer a now r else r

abbrev pub beat_found : Str → ℕ → Answer → ℕ → Option LeaseRecord → Manager → Manager
beat_found job_id serial a now none m = m
beat_found job_id serial a now (some r) m = record m {
  records = put job_id (beat_record serial a now r) m.records;
}

-- An iteration of `_run` of the record with this serial number.
unfoldable pub beat : Str → ℕ → Answer → ℕ → Manager → Manager
beat job_id serial a now m = beat_found job_id serial a now (get job_id m.records) m

abbrev pub or_conflict : Option Str → Str
or_conflict none = conflict
or_conflict (some code) = code

abbrev pub is_lost : Option Str → Bool
is_lost none = false
is_lost (some code) = true

-- `ensure_current`; an error is the code of the LeaseLostError.
unfoldable pub ensure_record : WorkerClaim → ℕ → Option LeaseRecord → Result Str (Unit {0})
ensure_record c now none = err conflict
ensure_record c now (some r) =
    if eq r.claim.lease_id c.lease_id
    then (if is_lost r.lost_code || leb r.expires_at now
        then err (or_conflict r.lost_code)
        else ok tt)
    else err conflict

unfoldable pub ensure_current : WorkerClaim → ℕ → Manager → Result Str (Unit {0})
ensure_current c now m = ensure_record c now (get c.job_id m.records)

-- What may happen to the manager, in any order.
pub data Event : Type 0 where
  started : WorkerClaim → Event
  stopped : Str → Event
  beaten : Str → ℕ → Answer → ℕ → Event

unfoldable pub happen : Event → Manager → Manager
happen (started c) m = start c m
happen (stopped j) m = stop j m
happen (beaten j serial a now) m = beat j serial a now m

unfoldable pub happen_all : List Event → Manager → Manager
happen_all [] m = m
happen_all (e ∷ es) m = happen_all es (happen e m)

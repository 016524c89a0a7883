-- ===== src/Scenarios/Leases.antt =====
-- A lease that the API takes back, and the use of the theorem on leases there.
use urizo_final_orchestrator.Base.{
  true, false, codes, eq, ◌≡◌, ◌≢◌, refl, List, [], ◌∷◌, ok, get, put, remove,
}
use urizo_final_orchestrator.Json.{end}
use urizo_final_orchestrator.Contracts.{WorkerClaim}
use urizo_final_orchestrator.Worker.Heartbeat.{
  Manager, renewed, api_error, stop, start, after_answer, beat_record, beat, ensure_current,
  ensure_record, Event, started, stopped, beaten, happen, happen_all,
}
use urizo_final_orchestrator.Worker.Lease.{NeverStarted, is_gone, ensure_current_gone}

abbrev claim : WorkerClaim
claim = record {
  job_id = codes "j";
  trace_id = codes "t";
  lease_id = codes "l";
  lease_expires_at = 60;
  state_version = 2;
  resume = false;
  profile_version_id = codes "v";
  snapshot = end;
}

abbrev another : WorkerClaim
another = record claim { job_id = codes "k" }

abbrev empty : Manager
empty = record { records = []; next_serial = 0 }

-- Started, renewed once, then refused.
abbrev refused : Manager
refused =
    happen_all
      (started claim
        ∷ beaten (codes "j") 0 (renewed 90) 30
        ∷ beaten (codes "j") 0 (api_error (codes "GONE") false) 50
        ∷ [])
      empty

abbrev later : List Event
later = started another ∷ beaten (codes "j") 0 (renewed 900) 55 ∷ stopped (codes "k") ∷ []

before_refusal : ensure_current claim 50 (happen_all (started claim ∷ []) empty) ≡ ok tt
unfolding ensure_current ensure_record happen_all happen start stop get put remove eq
before_refusal = refl

refused_gone : is_gone (get (codes "j") refused.records) ≡ true
unfolding happen_all happen start stop beat beat_record after_answer get put remove eq
refused_gone = refl

later-NeverStarted : NeverStarted (codes "j") later
unfolding eq
later-NeverStarted = (refl, tt)

ensure_current_gone_example : ensure_current claim 58 (happen_all later refused) ≢ ok tt
ensure_current_gone_example =
    ensure_current_gone claim later refused 58 later-NeverStarted refused_gone

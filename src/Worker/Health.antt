-- ===== src/Worker/Health.antt =====
-- service.py: `HealthState.response`, `_safe_probe` and the routes of `_HealthHandler`.
use urizo_final_orchestrator.Base.{
  ℕ, Bool, true, false, ◌&&◌, Str, codes, eq, Option, none, some, if◌then◌else◌, ◌≡◌, refl, ◌↔◌,
  arith, ◌⊎◌, inl, inr,
}

-- `_Status`
pub record Status : Type 0 where
  pub live : Bool
  pub checkpoint : Bool
  pub queue : Bool
  pub spring : Bool
  pub worker : Bool
  pub error_code : Option Str

-- How the call of a probe ends; `answers true` stands for `True` alone.
pub data Probe : Type 0 where
  answers : Bool → Probe
  fails : Probe

-- The probes bound, with how each would end now.
pub record Probes : Type 0 where
  pub checkpoint_probe : Option Probe
  pub queue_probe : Option Probe
  pub spring_probe : Option Probe
  pub worker_probe : Option Probe

-- `_safe_probe`
unfoldable pub safe_probe : Option Probe → Bool
safe_probe none = false
safe_probe (some (answers b)) = b
safe_probe (some fails) = false

-- A worker probe that is not bound leaves `worker` as it is.
unfoldable pub worker_status : Option Probe → Bool → Bool
worker_status none before = before
worker_status (some p) before = safe_probe (some p)

unfoldable pub refresh : Probes → Status → Status
refresh p s = record s {
  checkpoint = safe_probe p.checkpoint_probe;
  queue = safe_probe p.queue_probe;
  spring = safe_probe p.spring_probe;
  worker = worker_status p.worker_probe s.worker;
}

unfoldable pub is_ready : Status → Bool
is_ready s = s.live && (s.checkpoint && (s.queue && (s.spring && s.worker)))

pub record Response : Type 0 where
  pub code : ℕ
  pub is_up : Bool
  pub checks : Status

unfoldable pub respond : Bool → Status → Response
respond success s = record { code = if success then 200 else 503; is_up = success; checks = s }

-- `response`, with the state after it.
unfoldable pub response : (ready : Bool) → Probes → Status → Response × Status
response true p s = (respond (is_ready (refresh p s)) (refresh p s), refresh p s)
response false p s = (respond s.live s, s)

-- `do_GET`; `none` is the 404.
unfoldable pub get_path : Str → Probes → Status → Option Response × Status
get_path path p s =
    if eq path (codes "/health/live")
    then (let (r, s') = response false p s in (some r, s'))
    else if eq path (codes "/health/ready")
    then (let (r, s') = response true p s in (some r, s'))
    else (none, s)

abbrev pub IsUp : Option Probe → Type 0
IsUp o = o ≡ some (answers true)

-- What has to hold for a 200 of the readiness check.
pub record Ready (p : Probes) (s : Status) : Type 0 where
  pub is_live : s.live ≡ true
  pub checkpoint_up : IsUp p.checkpoint_probe
  pub queue_up : IsUp p.queue_probe
  pub spring_up : IsUp p.spring_probe
  pub worker_up : IsUp p.worker_probe ⊎ (p.worker_probe ≡ none) × (s.worker ≡ true)

safe_probe-IsUp : (o : Option Probe) → safe_probe o ≡ true → IsUp o
unfolding safe_probe
safe_probe-IsUp none h = cc
safe_probe-IsUp (some (answers b)) h = ground (arith, h)
safe_probe-IsUp (some fails) h = cc

probe_of : (o : Option Probe) → IsUp o → safe_probe o ≡ true
unfolding safe_probe
probe_of o h = ground (arith, h)

worker_status-IsUp :
    (o : Option Probe) (before : Bool)
    → worker_status o before ≡ true
    → IsUp o ⊎ (o ≡ none) × (before ≡ true)
unfolding worker_status
worker_status-IsUp none before h = inr (refl, h)
worker_status-IsUp (some p) before h = inl (safe_probe-IsUp (some p) h)

worker_status_of :
    (o : Option Probe) (before : Bool)
    → IsUp o ⊎ (o ≡ none) × (before ≡ true)
    → worker_status o before ≡ true
unfolding worker_status safe_probe
worker_status_of o before (inl up) = ground (arith, up)
worker_status_of o before (inr (unbound, up)) = ground (arith, unbound, up)

-- The readiness check answers 200 exactly when the process is live, the checkpoint, queue and Spring
-- probes are bound and answer True, and the worker probe does so too or is not bound while the worker
-- was reported to run; what an earlier check found has no say in it.
pub response-Ready_iff : (p : Probes) (s : Status) → ((response true p s).0.code ≡ 200) ↔ Ready p s
unfolding response respond is_ready refresh
response-Ready_iff p s = (forth, back)
  where
    all_up :
        (v w x y z : Bool)
        → ◌≡◌ {A = ℕ} (if v && (w && (x && (y && z))) then 200 else 503) 200
        → (v ≡ true) × (w ≡ true) × (x ≡ true) × (y ≡ true) × (z ≡ true)
    all_up v w x y z h = ground (arith, h)

    forth : (response true p s).0.code ≡ 200 → Ready p s
    forth h =
        let (l, e, f, g, k) =
          all_up s.live (safe_probe p.checkpoint_probe) (safe_probe p.queue_probe)
            (safe_probe p.spring_probe) (worker_status p.worker_probe s.worker) h in
        record {
          is_live = l;
          checkpoint_up = safe_probe-IsUp p.checkpoint_probe e;
          queue_up = safe_probe-IsUp p.queue_probe f;
          spring_up = safe_probe-IsUp p.spring_probe g;
          worker_up = worker_status-IsUp p.worker_probe s.worker k;
        }

    back : Ready p s → (response true p s).0.code ≡ 200
    back r = ground (
      arith,
      r.is_live,
      probe_of p.checkpoint_probe r.checkpoint_up,
      probe_of p.queue_probe r.queue_up,
      probe_of p.spring_probe r.spring_up,
      worker_status_of p.worker_probe s.worker r.worker_up,
    )

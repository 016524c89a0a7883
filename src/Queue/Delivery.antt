-- ===== src/Queue/Delivery.antt =====
-- The client's side of queue.py: the methods of `ValkeyJobQueue`. What json.loads makes of an entry's
-- bytes is the parameter `decode`.
use urizo_final_orchestrator.Base.{
  ℕ, zero, suc, ◌+◌, Bool, false, ◌&&◌, ◌==◌, leb, Option, none, some, if◌then◌else◌, eq, length,
  Result, ok, err,
}
use urizo_final_orchestrator.Json.{Value}
use urizo_final_orchestrator.Contracts.{QueuedJobReference, job_reference}
use urizo_final_orchestrator.Queue.Store.{
  Raw, World, FailureRecord, QueueError, not_open, read_failed, size_invalid, reference_invalid,
  tracking_failed, tracking_invalid, acknowledgement_failed, no_longer_pending, requeue_failed,
  order_changed, quarantine_failed, recovery_failed, out_of_fuel, Exec, ◌>>=◌, ◌>>◌, pure, raise,
  ensure, call, blmove, lrem_processing, lindex, lmove_left, lmove_right, hincrby, hget, ack_script,
  quarantine_script,
}

abbrev pub max_job_reference_bytes : ℕ
max_job_reference_bytes = 128

abbrev pub max_delivery_attempts : ℕ
max_delivery_attempts = 3

pub record QueueDelivery : Type 0 where
  pub job : QueuedJobReference
  pub raw : Raw
  pub attempt : ℕ

-- `_require_client`
unfoldable pub require_client : Exec (Unit {0})
require_client w = ensure w.is_open not_open w

unfoldable pub size_valid : Raw → Bool
size_valid raw = leb 1 (length raw) && leb (length raw) max_job_reference_bytes

-- `_discard_poison` swallows every exception.
unfoldable pub discard_poison : Raw → Exec (Unit {0})
discard_poison raw w =
    let (r, w') = (do require_client; call (lrem_processing raw) read_failed) w in (ok tt, w')

unfoldable pub ack : QueueDelivery → Exec (Unit {0})
ack d = do
  require_client
  removed ← call (ack_script d.raw d.job.job_id) acknowledgement_failed
  ensure (removed == 1) no_longer_pending

-- `_quarantine`
abbrev pub failure : QueueDelivery → ℕ → FailureRecord
failure d now = record { job_id = d.job.job_id; delivery_attempts = d.attempt; failed_at = now }

unfoldable pub quarantine_as : QueueDelivery → FailureRecord → Exec (Unit {0})
quarantine_as d f = do
  require_client
  quarantined ← call (quarantine_script d.raw f d.job.job_id) quarantine_failed
  ensure (quarantined == 1) no_longer_pending

unfoldable pub quarantine : QueueDelivery → Exec (Unit {0})
quarantine d w = quarantine_as d (failure d w.now) w

abbrev pub is_raw : Raw → Option Raw → Bool
is_raw raw none = false
is_raw raw (some moved) = eq moved raw

unfoldable pub requeue : QueueDelivery → Exec (Unit {0})
requeue d = if leb max_delivery_attempts d.attempt then quarantine d else (do
  require_client
  moved ← call lmove_left requeue_failed
  ensure (is_raw d.raw moved) order_changed)

module _ (decode : Raw → Option Value) where
  unfoldable pub from_json : Raw → Option QueuedJobReference
  from_json raw = job_reference (decode raw)

  -- `pop` from the moment that an entry was moved.
  unfoldable pub deliver : Raw → Option QueuedJobReference → Exec (Option QueueDelivery)
  deliver raw none = do discard_poison raw; raise reference_invalid
  deliver raw (some job) = do
    attempt ← call (hincrby job.job_id) tracking_failed
    ensure (leb 1 attempt) tracking_invalid
    pure (some (record { job = job; raw = raw; attempt = attempt }))

  unfoldable pub receive : Option Raw → Exec (Option QueueDelivery)
  receive none = pure none
  receive (some raw) =
      if size_valid raw
      then deliver raw (from_json raw)
      else (do discard_poison raw; raise size_invalid)

  unfoldable pub pop : Exec (Option QueueDelivery)
  pop = do require_client; moved ← call blmove read_failed; receive moved

  -- `_tracked_delivery`
  abbrev pub delivery_of : Raw → QueuedJobReference → Option ℕ → Option QueueDelivery
  delivery_of raw job none = none
  delivery_of raw job (some n) = some (record { job = job; raw = raw; attempt = n })

  unfoldable pub tracked_of : Raw → Option QueuedJobReference → Exec (Option QueueDelivery)
  tracked_of raw none = pure none
  tracked_of raw (some job) = do
    attempt ← call (hget job.job_id) recovery_failed
    pure (delivery_of raw job attempt)

  unfoldable pub tracked_delivery : Raw → Exec (Option QueueDelivery)
  tracked_delivery raw = tracked_of raw (from_json raw)

  abbrev pub exhausted : Option QueueDelivery → Option QueueDelivery
  exhausted none = none
  exhausted (some d) = if leb max_delivery_attempts d.attempt then some d else none

  -- `except Exception: raise QueueError` turns every error of the loop into one.
  abbrev pub recovery_error :
      {A : Type 0} → Result QueueError A × World → Result QueueError A × World
  recovery_error (ok a, w) = (ok a, w)
  recovery_error (err out_of_fuel, w) = (err out_of_fuel, w)
  recovery_error (err _, w) = (err recovery_failed, w)

  -- One entry of the loop of `recover_stale`, with the number moved back: 1, or 0 if quarantined.
  unfoldable pub settle : Option QueueDelivery → Exec (Option ℕ)
  settle (some d) = do quarantine d; pure (some 0)
  settle none = do
    moved ← call lmove_right recovery_failed
    pure (elim moved [ none ↦ none | some _ ↦ some 1 ])

  unfoldable pub settle_head : Raw → Exec (Option ℕ)
  settle_head raw = do delivery ← tracked_delivery raw; settle (exhausted delivery)

  abbrev pub resume : (ℕ → Exec ℕ) → ℕ → Option ℕ → Exec ℕ
  resume loop recovered none = pure recovered
  resume loop recovered (some n) = loop (recovered + n)

  -- The body of the loop, for the entry at the head of the processing list.
  abbrev pub round : (ℕ → Exec ℕ) → ℕ → Option Raw → Exec ℕ
  round loop recovered none = pure recovered
  round loop recovered (some raw) = settle_head raw >>= resume loop recovered

  -- The loop; `recover_stale-ne-out_of_fuel` shows that the fuel given is enough.
  unfoldable pub recover_loop : ℕ → ℕ → Exec ℕ
  recover_loop zero recovered = raise out_of_fuel
  recover_loop (suc fuel) recovered =
      call lindex recovery_failed >>= round (recover_loop fuel) recovered

  unfoldable pub recover_stale : Exec ℕ
  recover_stale = do
    require_client
    λ w. recovery_error (recover_loop (suc (length w.store.processing)) 0 w)

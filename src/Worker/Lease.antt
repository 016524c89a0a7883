-- ===== src/Worker/Lease.antt =====
-- What `ensure_current` answers over the life of a lease.
use urizo_final_orchestrator.Base.{
  ℕ, Bool, true, false, not, ◌&&◌, Str, eq, eq_iff, ◌≡◌, ◌≢◌, refl, Option, none, some, List, [],
  ◌∷◌, get, remove, get-put, get-remove, ok, arith, Bool-cases, inl, inr,
}
use urizo_final_orchestrator.Contracts.{WorkerClaim}
use urizo_final_orchestrator.Worker.Heartbeat.{
  LeaseRecord, Manager, Answer, stop, start, first_record, beat_record, beat_found, beat,
  ensure_record, ensure_current, Event, started, stopped, beaten, happen, happen_all, is_lost,
}

-- The manager has no record of the job, or a lost one whose thread has ended.
abbrev pub is_gone : Option LeaseRecord → Bool
is_gone none = true
is_gone (some r) = is_lost r.lost_code && not r.is_running

-- None of the events starts this job.
abbrev pub NeverStarted : Str → List Event → Type 0
NeverStarted j [] = Unit
NeverStarted j (started c ∷ es) = (eq c.job_id j ≡ false) × NeverStarted j es
NeverStarted j (e ∷ es) = NeverStarted j es

gone_beat :
    (serial : ℕ) (a : Answer) (now : ℕ) (r : LeaseRecord)
    → is_gone (some r) ≡ true
    → is_gone (some (beat_record serial a now r)) ≡ true
unfolding beat_record
gone_beat serial a now r h = ground (arith, h)

gone_happens_beat :
    (j k : Str) (serial : ℕ) (a : Answer) (now : ℕ) (o : Option LeaseRecord) (m : Manager)
    → get k m.records ≡ o
    → is_gone (get j m.records) ≡ true
    → is_gone (get j (beat_found k serial a now o m).records) ≡ true
gone_happens_beat j k serial a now none m e h = h
gone_happens_beat j k serial a now (some r) m e h = elim (Bool-cases (eq k j)) [
  | inr other ↦ ground (arith, get-put k j (beat_record serial a now r) m.records, other, h)
  | inl this ↦
      let same = (eq_iff k j).0 this in
      let at_j : get j m.records ≡ some r = rw same at e in
      let gone : is_gone (some r) ≡ true = ground (arith, at_j, h) in
      ground (
        arith,
        get-put k j (beat_record serial a now r) m.records,
        this,
        gone_beat serial a now r gone,
      )
]

gone_happens :
    (j : Str) (e : Event) (es : List Event) (m : Manager)
    → NeverStarted j (e ∷ es)
    → is_gone (get j m.records) ≡ true
    → is_gone (get j (happen e m).records) ≡ true
unfolding happen start stop beat
gone_happens j (started c) es m n h = ground (
  arith,
  n.0,
  get-put c.job_id j (first_record c m.next_serial) (remove c.job_id m.records),
  get-remove c.job_id j m.records,
  h,
)
gone_happens j (stopped k) es m n h = ground (arith, get-remove k j m.records, h)
gone_happens j (beaten k serial a now) es m n h =
    gone_happens_beat j k serial a now (get k m.records) m refl h

still_unstarted :
    (j : Str) (e : Event) (es : List Event) → NeverStarted j (e ∷ es) → NeverStarted j es
still_unstarted j (started c) es n = n.1
still_unstarted j (stopped k) es n = n
still_unstarted j (beaten k serial a now) es n = n

gone_all :
    (j : Str) (es : List Event) (m : Manager)
    → NeverStarted j es
    → is_gone (get j m.records) ≡ true
    → is_gone (get j (happen_all es m).records) ≡ true
unfolding happen_all
gone_all j [] m n h = h
gone_all j (e ∷ es) m n h =
    gone_all j es (happen e m) (still_unstarted j e es n) (gone_happens j e es m n h)

-- Once a job's lease was lost or its heartbeat stopped, `ensure_current` refuses every claim of the job
-- at every later time, whatever starts of other jobs, stops and late answers of heartbeats follow, until
-- the job is started again.
pub ensure_current_gone :
    (c : WorkerClaim) (es : List Event) (m : Manager) (now : ℕ)
    → NeverStarted c.job_id es
    → is_gone (get c.job_id m.records) ≡ true
    → ensure_current c now (happen_all es m) ≢ ok tt
unfolding ensure_current ensure_record
ensure_current_gone c es m now n h = let g = gone_all c.job_id es m n h in λ k. ground (arith, g, k)

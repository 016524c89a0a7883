-- ===== src/Queue/Store.antt =====
-- The server's side of queue.py: the lists and the hash that the queue's keys name, the commands and
-- the two Lua scripts over them, and calls that may fail on the way there or on the way back.
use urizo_final_orchestrator.Base.{
  ℕ, ◌+◌, Bool, true, false, Str, Option, none, some, List, [], ◌∷◌, ◌++◌, if◌then◌else◌, eq, Dict,
  get, put, remove, Result, ok, err,
}

-- The bytes of an entry.
abbrev pub Raw : Type 0
Raw = Str

-- The failure history's entry, before it is encoded.
pub record FailureRecord : Type 0 where
  pub job_id : Str
  pub delivery_attempts : ℕ
  pub failed_at : ℕ

pub record Store : Type 0 where
  pub queue : List Raw
  pub processing : List Raw
  pub dead_letter : List Raw
  pub failure_history : List FailureRecord
  pub delivery_attempts : Dict ℕ

-- Whether a call's request, or its reply, is lost; the caller sees the same exception.
pub data Fault : Type 0 where
  served lost_request lost_reply : Fault

-- The queue object and its server; `faults` says how the next calls go, and after it all are served.
pub record World : Type 0 where
  pub store : Store
  pub is_open : Bool
  pub now : ℕ
  pub faults : List Fault

pub data QueueError : Type 0 where
  not_open read_failed size_invalid reference_invalid tracking_failed tracking_invalid : QueueError
  acknowledgement_failed no_longer_pending requeue_failed order_changed : QueueError
  quarantine_failed recovery_failed out_of_fuel : QueueError

abbrev pub Exec : Type 0 → Type 0
Exec A = World → Result QueueError A × World

infixl 5 ◌>>=◌ ◌>>◌
abbrev pub continue : {A B : Type 0} → Result QueueError A → (A → Exec B) → Exec B
continue (ok a) f w = f a w
continue (err e) f w = (err e, w)

abbrev pub ◌>>=◌ : {A B : Type 0} → Exec A → (A → Exec B) → Exec B
◌>>=◌ m f w = let (r, w') = m w in continue r f w'

abbrev pub ◌>>◌ : {B : Type 0} → Exec (Unit {0}) → Exec B → Exec B
m >> k = m >>= λ _. k

abbrev pub pure : {A : Type 0} → A → Exec A
pure a w = (ok a, w)

abbrev pub raise : {A : Type 0} → QueueError → Exec A
raise e w = (err e, w)

abbrev pub ensure : Bool → QueueError → Exec (Unit {0})
ensure true e w = (ok tt, w)
ensure false e w = (err e, w)

-- `try: command except Exception: raise QueueError(e)`
abbrev pub perform : {A : Type 0} → Fault → List Fault → (Store → A × Store) → QueueError → Exec A
perform served rest c e w = let (a, s) = c w.store in (ok a, record w { store = s; faults = rest })
perform lost_request rest c e w = (err e, record w { faults = rest })
perform lost_reply rest c e w =
    let (a, s) = c w.store in (err e, record w { store = s; faults = rest })

abbrev pub call_with : {A : Type 0} → List Fault → (Store → A × Store) → QueueError → Exec A
call_with [] c e w = perform served [] c e w
call_with (f ∷ rest) c e w = perform f rest c e w

unfoldable pub call : {A : Type 0} → (Store → A × Store) → QueueError → Exec A
call c e w = call_with w.faults c e w

-- The commands, over lists from left to right.
-- The right end of a list, and the rest.
unfoldable pub split_last : Raw → List Raw → List Raw × Raw
split_last x [] = ([], x)
split_last x (y ∷ ys) = let (rest, last) = split_last y ys in (x ∷ rest, last)

abbrev pub blmove_from : List Raw → Store → Option Raw × Store
blmove_from [] s = (none, s)
blmove_from (x ∷ xs) s =
    let (rest, last) = split_last x xs in
    (some last, record s { queue = rest; processing = last ∷ s.processing })

-- BLMOVE queue processing RIGHT LEFT; an empty queue times out.
unfoldable pub blmove : Store → Option Raw × Store
blmove s = blmove_from s.queue s

-- LREM key 1 raw
unfoldable pub lrem : Raw → List Raw → List Raw
lrem r [] = []
lrem r (x ∷ xs) = if eq x r then xs else x ∷ lrem r xs

unfoldable pub holds : Raw → List Raw → Bool
holds r [] = false
holds r (x ∷ xs) = if eq x r then true else holds r xs

unfoldable pub lrem_processing : Raw → Store → Unit {0} × Store
lrem_processing r s = (tt, record s { processing = lrem r s.processing })

abbrev pub head : List Raw → Option Raw
head [] = none
head (x ∷ xs) = some x

-- LINDEX processing 0
unfoldable pub lindex : Store → Option Raw × Store
lindex s = (head s.processing, s)

abbrev pub requeue_from : List Raw → Store → Option Raw × Store
requeue_from [] s = (none, s)
requeue_from (x ∷ xs) s = (some x, record s { queue = x ∷ s.queue; processing = xs })

-- LMOVE processing queue LEFT LEFT
unfoldable pub lmove_left : Store → Option Raw × Store
lmove_left s = requeue_from s.processing s

abbrev pub recover_from : List Raw → Store → Option Raw × Store
recover_from [] s = (none, s)
recover_from (x ∷ xs) s = (some x, record s { queue = s.queue ++ x ∷ []; processing = xs })

-- LMOVE processing queue LEFT RIGHT
unfoldable pub lmove_right : Store → Option Raw × Store
lmove_right s = recover_from s.processing s

abbrev pub or_zero : Option ℕ → ℕ
or_zero none = 0
or_zero (some n) = n

unfoldable pub hincrby : Str → Store → ℕ × Store
hincrby j s =
    let n = or_zero (get j s.delivery_attempts) + 1 in
    (n, record s { delivery_attempts = put j n s.delivery_attempts })

unfoldable pub hget : Str → Store → Option ℕ × Store
hget j s = (get j s.delivery_attempts, s)

-- `_ACK_SCRIPT`, with the number of entries removed.
unfoldable pub ack_script : Raw → Str → Store → ℕ × Store
ack_script r j s =
    if holds r s.processing
    then (
      1,
      record s {
        processing = lrem r s.processing;
        delivery_attempts = remove j s.delivery_attempts;
      },
    )
    else (0, s)

-- `_QUARANTINE_SCRIPT`
unfoldable pub quarantine_script : Raw → FailureRecord → Str → Store → ℕ × Store
quarantine_script r failure j s =
    if holds r s.processing
    then (
      1,
      record {
        queue = s.queue;
        processing = lrem r s.processing;
        dead_letter = s.dead_letter ++ r ∷ [];
        failure_history = s.failure_history ++ failure ∷ [];
        delivery_attempts = remove j s.delivery_attempts;
      },
    )
    else (0, s)

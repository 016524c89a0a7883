-- ===== src/Scenarios/Delivery.antt =====
-- A queue with one job that its reader knows, and uses of the queue's theorems on it.
use urizo_final_orchestrator.Base.{
  ℕ, ◌<◌, true, Str, codes, ◌≡◌, ◌≢◌, refl, ◌⊎◌, Option, none, some, List, [], ◌∷◌, ◌++◌, ok, err,
  eq, get, Dict, if◌then◌else◌, length, arith, mem, subset, same_set, Result,
}
use urizo_final_orchestrator.Json.{Value, dict, text, field, end, lookup}
use urizo_final_orchestrator.Contracts.{
  QueuedJobReference, lower, is_hex, uuid_at, uuid_from, is_uuid, as_object, exact_fields, as_uuid,
  with_job_id, job_reference_of_fields, job_reference,
}
use urizo_final_orchestrator.Queue.Store.{
  Raw, Store, World, QueueError, out_of_fuel, served, lost_request, lost_reply,
}
use urizo_final_orchestrator.Queue.Delivery.{
  QueueDelivery, size_valid, ack, requeue, pop, recover_stale, from_json, max_delivery_attempts,
}
use urizo_final_orchestrator.Queue.Conserve.{total}
use urizo_final_orchestrator.Queue.NoLoss.{
  IsReadable, popping, recovering, acking, requeueing, Operation, NeverAcked, run_all, copies_kept,
}
use urizo_final_orchestrator.Queue.Recovery.{recover_stale-ne-out_of_fuel}
use urizo_final_orchestrator.Queue.Order.{
  calm, lists, NoneWorn, recover_stale_order, Emptied, recover_stale_empties,
}
use urizo_final_orchestrator.Queue.Attempts.{
  IsSettled, IsHeld, PopAnswer, pop_settled, ack_settles, requeue_settles,
}

abbrev pub job_id : Str
job_id = codes "3f2504e0-4f89-41d3-9a0c-0305e82c3301"

abbrev pub known : Raw
known = codes "known"

abbrev pub unknown : Raw
unknown = codes "unknown"

-- Reads one entry only.
abbrev pub reader : Raw → Option Value
reader raw = if eq raw known then some (dict (field (codes "jobId") (text job_id) end)) else none

abbrev pub job : QueuedJobReference
job = record { job_id = job_id }

abbrev held : QueueDelivery
held = record { job = job; raw = known; attempt = 1 }

abbrev other_delivery : QueueDelivery
other_delivery = record { job = job; raw = unknown; attempt = 1 }

known_read : from_json reader known ≡ some job
unfolding from_json job_reference job_reference_of_fields with_job_id as_uuid exact_fields as_object
    is_uuid uuid_from uuid_at is_hex lower lookup same_set subset mem eq
known_read = refl

pub known-IsReadable : IsReadable known reader
unfolding size_valid
known-IsReadable = record { sized = refl; job = job; read = known_read }

-- Waiting in the queue, with calls of which two fail.
abbrev pub failing : World
failing = record {
  store = lists (unknown ∷ known ∷ []) [] [] [] [];
  is_open = true;
  now = 7;
  faults = served ∷ lost_reply ∷ lost_request ∷ lost_reply ∷ [];
}

abbrev steps : List Operation
steps = popping ∷ acking other_delivery ∷ requeueing held ∷ recovering ∷ []

steps-NeverAcked : NeverAcked known steps
unfolding eq
steps-NeverAcked = (refl, tt)

copies_kept_example : total known (run_all reader steps failing).store ≡ total known failing.store
copies_kept_example = copies_kept reader known steps failing known-IsReadable steps-NeverAcked

recover_stale-ne-out_of_fuel_example : (recover_stale reader failing).0 ≢ err out_of_fuel
recover_stale-ne-out_of_fuel_example = recover_stale-ne-out_of_fuel reader failing

abbrev counted_once : Dict ℕ
counted_once = (job_id, 1) ∷ []

fresh : NoneWorn reader counted_once (known ∷ unknown ∷ [])
unfolding get eq from_json job_reference job_reference_of_fields with_job_id as_uuid exact_fields
    as_object is_uuid uuid_from uuid_at is_hex lower lookup same_set subset mem
fresh = (refl, (refl, tt))

recover_stale_order_example :
    recover_stale reader (calm (lists (unknown ∷ []) (known ∷ unknown ∷ []) [] [] counted_once) 7)
    ≡ (ok 2, calm (lists (unknown ∷ known ∷ unknown ∷ []) [] [] [] counted_once) 7)
recover_stale_order_example =
    recover_stale_order reader 7 (known ∷ unknown ∷ []) (unknown ∷ []) [] [] counted_once fresh

abbrev crashed : Store
crashed = lists [] (known ∷ unknown ∷ []) [] [] ((job_id, 3) ∷ [])

recover_stale_empties_example :
    (moved dropped : List Raw) × (s' : Store) × (recover_stale reader (calm crashed 7)
      ≡ (ok (length moved), calm s' 7))
    × Emptied reader 7 crashed.delivery_attempts crashed.queue crashed.processing
        crashed.dead_letter moved dropped s'
recover_stale_empties_example = recover_stale_empties reader 7 crashed

abbrev pub waiting : Store
waiting = lists (unknown ∷ known ∷ []) [] [] [] ((job_id, 2) ∷ [])

pub waiting-IsSettled : IsSettled waiting
unfolding get
waiting-IsSettled = record { none_held = refl; below = λ j. ground arith }

pop_settled_example :
    (r : Result QueueError (Option QueueDelivery)) × (s' : Store) × (pop reader (calm waiting 7)
      ≡ (r, calm s' 7))
    × PopAnswer r s'
pop_settled_example = pop_settled reader 7 waiting waiting-IsSettled

abbrev holding : Store
holding = lists (unknown ∷ []) (known ∷ []) [] [] ((job_id, 3) ∷ [])

abbrev last_delivery : QueueDelivery
last_delivery = record { job = job; raw = known; attempt = 3 }

holding-IsHeld : IsHeld last_delivery holding
unfolding get eq
holding-IsHeld = record {
  held = refl;
  numbered = refl;
  at_most = omega arith;
  others = λ j h. ground (arith, h);
}

ack_settles_example :
    (s' : Store) × (ack last_delivery (calm holding 7) ≡ (ok tt, calm s' 7))
    × IsSettled s'
    × (s'.queue ≡ holding.queue)
    × (s'.dead_letter ≡ holding.dead_letter)
ack_settles_example = ack_settles 7 last_delivery holding holding-IsHeld

requeue_settles_example :
    (s' : Store) × (requeue last_delivery (calm holding 7) ≡ (ok tt, calm s' 7))
    × IsSettled s'
    × ((3 < max_delivery_attempts)
          × (s'.queue ≡ known ∷ holding.queue)
          × (s'.dead_letter ≡ holding.dead_letter)
        ⊎ (3 ≡ max_delivery_attempts)
          × (s'.queue ≡ holding.queue)
          × (s'.dead_letter ≡ holding.dead_letter ++ known ∷ []))
requeue_settles_example = requeue_settles 7 last_delivery holding holding-IsHeld

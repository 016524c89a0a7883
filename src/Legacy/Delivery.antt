-- ===== src/Legacy/Delivery.antt =====
-- graph.py: what `CodingGraphRunner.is_duplicate` answers and what `invoke` decides from the values of the
-- checkpoint that it reads, before it touches the graph.
use urizo_final_orchestrator.Base.{
  ℕ, ◌+◌, ◌-◌, Bool, true, false, not, ◌&&◌, ◌||◌, ◌==◌, leb, Str, codes, Option, none, some,
  if◌then◌else◌, ok, err, ◌>>=◌, ◌>>◌, guard,
}
use urizo_final_orchestrator.Json.{
  Value, bool, int, negative, text, list, tuple, dict, proxy, Items, nil, cons, Fields, end, field,
  lookup,
}
use urizo_final_orchestrator.Contracts.Checks.{Checked}
use urizo_final_orchestrator.Contracts.Event.{parse_event}
use urizo_final_orchestrator.Contracts.Claim.{is_some_text, parse_claim}
use urizo_final_orchestrator.Worker.Failure.{other}
use urizo_final_orchestrator.Worker.Sending.{is_equal_number}
use urizo_final_orchestrator.Runner.{Event, Claim, state_conflict}
use urizo_final_orchestrator.Runner.Equal.{same_value}
use urizo_final_orchestrator.Runner.Stored.{Run, mapping_in, agree_on, immutable_claim_fields}

-- `isinstance(value, int)`, which holds of a bool.
unfoldable pub is_int : Option Value → Bool
is_int (some (bool b)) = true
is_int (some (int n)) = true
is_int (some (negative n)) = true
is_int _ = false

-- `n <= value` of an int
unfoldable pub at_most : ℕ → Option Value → Bool
at_most n (some (bool b)) = leb n (if b then 1 else 0)
at_most n (some (int m)) = leb n m
at_most n _ = false

-- `n < value` of an int
unfoldable pub below : ℕ → Option Value → Bool
below n value = at_most (n + 1) value

unfoldable pub list_in : Option Value → Option Items
list_in (some (list vs)) = some vs
list_in _ = none

-- `t in items`
unfoldable pub contains : Str → Items → Bool
contains t nil = false
contains t (cons v vs) = is_some_text t (some v) || contains t vs

unfoldable pub contains_in : Str → Option Items → Bool
contains_in t none = false
contains_in t (some vs) = contains t vs

unfoldable pub count_of : Items → ℕ
count_of nil = 0
count_of (cons v vs) = 1 + count_of vs

unfoldable pub without : ℕ → Items → Items
without n nil = nil
without n (cons v vs) = if n == 0 then cons v vs else without (n - 1) vs

unfoldable pub with_last : Items → Value → Items
with_last nil w = cons w nil
with_last (cons v vs) w = cons v (with_last vs w)

-- `[*event_ids, event.event_id][-100:]`
unfoldable pub recent_ids : Items → Str → Items
recent_ids vs t = let all = with_last vs (text t) in without (count_of all - 100) all

unfoldable mutual
  pub is_hashable : Value → Bool
  is_hashable (list vs) = false
  is_hashable (dict fs) = false
  is_hashable (proxy fs) = false
  is_hashable (tuple vs) = are_hashable vs
  is_hashable _ = true

  pub are_hashable : Items → Bool
  are_hashable nil = true
  are_hashable (cons v vs) = is_hashable v && are_hashable vs

-- `status in {"WAITING_APPROVAL", "COMPLETED"}`, which raises TypeError for what has no hash
unfoldable pub is_final : Option Value → Run Bool
is_final none = ok false
is_final (some v) =
    if is_hashable v
    then ok (
        is_some_text (codes "WAITING_APPROVAL") (some v)
        || is_some_text (codes "COMPLETED") (some v))
    else err other

-- A value that is there, or a KeyError.
unfoldable pub found : Option Value → Run Value
found none = err other
found (some v) = ok v

-- What `from_dict` raises is passed on.
unfoldable pub checked : {A : Type 0} → Checked A → Run A
checked (err e) = err other
checked (ok a) = ok a

unfoldable pub is_same_legacy_delivery : Event → Fields → Bool
is_same_legacy_delivery event ledger =
    let maximum = lookup (codes "maxStateVersion") ledger in
    is_int maximum
    && (is_equal_number event.requested.expected_state_version maximum
        && contains_in event.requested.event_id (list_in (lookup (codes "eventIds") ledger)))

-- What `invoke` does next.
pub data Course : Type 0 where
  -- `update_state(config, updates)` and `invoke(None)`
  continues : (updates : Fields) → Course
  -- `invoke(Command(resume=value))`
  approves : (value : Fields) → Course
  -- `invoke(initial)`
  begins : (initial : Fields) → Course

unfoldable pub delivery_fields : Event → Claim → Fields → Fields
delivery_fields event claim rest =
    field (codes "event") (dict event.dict) (field (codes "claim") (dict claim.dict) rest)

unfoldable pub legacy_ledger : Items → ℕ → Value
legacy_ledger ids version =
    dict (field (codes "eventIds") (list ids) (field (codes "maxStateVersion") (int version) end))

unfoldable pub running_fields : Event → Claim → Items → Fields
running_fields event claim ids = delivery_fields event claim (
    field (codes "ledger") (legacy_ledger ids event.requested.expected_state_version)
      (field (codes "status") (text (codes "RUNNING")) end))

-- `initial`
unfoldable pub begins_with : Event → Claim → Course
begins_with event claim =
    begins (running_fields event claim (cons (text event.requested.event_id) nil))

unfoldable pub approval_of : Event → Claim → Course
approval_of event claim =
    approves (field (codes "approved") (bool true) (delivery_fields event claim end))

unfoldable pub retry_from : Event → Claim → Option Items → Run Course
retry_from event claim none = err state_conflict
retry_from event claim (some ids) =
    ok (continues (running_fields event claim (recent_ids ids event.requested.event_id)))

-- A resuming claim on a checkpoint that is neither the same delivery nor complete.
unfoldable pub retry : Event → Claim → Fields → Run Course
retry event claim ledger =
    let maximum = lookup (codes "maxStateVersion") ledger in
    guard (is_int maximum && not (at_most event.requested.expected_state_version maximum))
      state_conflict
    >>= λ _. retry_from event claim (list_in (lookup (codes "eventIds") ledger))

unfoldable pub resume_from : Event → Claim → Fields → Fields → Run Course
resume_from event claim values ledger =
    let status = lookup (codes "status") values in
    if is_some_text (codes "WAITING_APPROVAL") status
    then ok (approval_of event claim)
    else if is_some_text (codes "COMPLETED") status
    then err state_conflict
    else retry event claim ledger

unfoldable pub ledger_mapping : Option Fields → Run Fields
ledger_mapping none = err state_conflict
ledger_mapping (some fs) = ok fs

unfoldable pub claim_fields : Value → Fields
claim_fields v = elim (mapping_in (some v)) [ none ↦ end | some fs ↦ fs ]

module _ (instant_of : Str → Option ℕ) (event : Event) (claim : Claim) where
  -- The same delivery once more.
  unfoldable pub recover_from : Fields → Run Course
  recover_from values = do
    recorded_event ← found (lookup (codes "event") values)
    old_event ← checked (parse_event instant_of recorded_event)
    recorded_claim ← found (lookup (codes "claim") values)
    old_claim ← checked (parse_claim instant_of recorded_claim old_event none)
    guard (same_value recorded_event (dict event.dict)) state_conflict
    guard (agree_on immutable_claim_fields (claim_fields recorded_claim) claim.dict) state_conflict
    final ← is_final (lookup (codes "status") values)
    guard (not final) state_conflict
    ok (continues (delivery_fields event claim end))

  unfoldable pub course_from : Fields → Run Course
  course_from values = do
    ledger ← ledger_mapping (mapping_in (lookup (codes "ledger") values))
    if is_same_legacy_delivery event ledger
        then recover_from values
        else if claim.claimed.resume
        then resume_from event claim values ledger
        else ok (begins_with event claim)

  -- `invoke`, up to its first write
  unfoldable pub course : Option Fields → Run Course
  course none = ok (begins_with event claim)
  course (some end) = ok (begins_with event claim)
  course (some (field k v fs)) = course_from (field k v fs)

-- `ledger.get("eventIds", [])` and `ledger.get("maxStateVersion", 0)`
unfoldable pub or_default : Value → Option Value → Option Value
or_default v none = some v
or_default v (some w) = some w

unfoldable pub is_recorded : (Str → Option ℕ) → Event → Option Value → Bool
is_recorded instant_of event none = false
is_recorded instant_of event (some v) = elim (mapping_in (some v)) [
  | none ↦ false
  | some fs ↦ elim (parse_event instant_of v) [
    | err _ ↦ false
    | ok _ ↦ same_value v (dict event.dict)
  ]
]

unfoldable pub duplicate_by_ids :
    (Str → Option ℕ) → Event → Fields → Option Value → Option Items → Run Bool
duplicate_by_ids instant_of event values version none = ok false
duplicate_by_ids instant_of event values version (some ids) =
    if not (is_int version)
    then ok false
    else if below event.requested.expected_state_version version
    then ok true
    else if not (
        is_equal_number event.requested.expected_state_version version
        && contains event.requested.event_id ids)
    then ok false
    else do
      final ← is_final (lookup (codes "status") values)
      ok (final && is_recorded instant_of event (lookup (codes "event") values))

unfoldable pub duplicate_by_ledger : (Str → Option ℕ) → Event → Fields → Option Fields → Run Bool
duplicate_by_ledger instant_of event values none = ok false
duplicate_by_ledger instant_of event values (some ledger) =
    duplicate_by_ids instant_of event values
      (or_default (int 0) (lookup (codes "maxStateVersion") ledger))
      (list_in (or_default (list nil) (lookup (codes "eventIds") ledger)))

-- `is_duplicate`, from the checkpoint's values on
unfoldable pub is_legacy_duplicate : (Str → Option ℕ) → Event → Option Fields → Run Bool
is_legacy_duplicate instant_of event none = ok false
is_legacy_duplicate instant_of event (some values) =
    duplicate_by_ledger instant_of event values (mapping_in (lookup (codes "ledger") values))

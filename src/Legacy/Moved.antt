-- ===== src/Legacy/Moved.antt =====
-- The ledgers that graph.py writes for a newer event.
use urizo_final_orchestrator.Base.{
  ℕ, ◌≤◌, true, false, not, ◌&&◌, Str, codes, eq, Option, none, some, ok, guard, >>=-eq-ok,
  guard-eq-ok, ok_inj, ◌≡◌, refl, ap, ◌∙◌, subst, arith,
}
use urizo_final_orchestrator.Json.{Value, int, list, dict, Items, Fields, lookup}
use urizo_final_orchestrator.Contracts.{CodingJobRequested}
use urizo_final_orchestrator.Builder.Update.{lookup-put_field}
use urizo_final_orchestrator.Runner.{Event, Claim, state_conflict}
use urizo_final_orchestrator.Legacy.Delivery.{
  is_int, at_most, list_in, contains, count_of, recent_ids, Course, delivery_fields, legacy_ledger,
  running_fields, retry_from, retry,
}
use urizo_final_orchestrator.Legacy.Approved.{
  max_value, ids_of, approved_ledger, approved_fields, with_ledger, written,
}
use urizo_final_orchestrator.Legacy.Ids.{contains-recent_ids, count_of-recent_ids}

-- The updates carry a ledger at the event's version, which is above the old one, and the event's id is
-- among its at most hundred ids.
pub record MovesOn (event : CodingJobRequested) (ledger updates : Fields) : Type 0 where
  pub later : at_most event.expected_state_version (lookup (codes "maxStateVersion") ledger) ≡ false
  pub moved : Fields
  pub stored : lookup (codes "ledger") updates ≡ some (dict moved)
  pub at_version : lookup (codes "maxStateVersion") moved ≡ some (int event.expected_state_version)
  pub ids : Items
  pub listed : lookup (codes "eventIds") moved ≡ some (list ids)
  pub named : contains event.event_id ids ≡ true
  pub few : count_of ids ≤ 100

running-MovesOn :
    (event : Event) (claim : Claim) (ledger : Fields) (vs : Items)
    → at_most event.requested.expected_state_version (lookup (codes "maxStateVersion") ledger)
      ≡ false
    → MovesOn event.requested ledger
        (running_fields event claim (recent_ids vs event.requested.event_id))
unfolding running_fields delivery_fields legacy_ledger lookup eq
running-MovesOn event claim ledger vs later = record {
  later = later;
  moved = _;
  stored = refl;
  at_version = refl;
  ids = recent_ids vs event.requested.event_id;
  listed = refl;
  named = contains-recent_ids vs event.requested.event_id;
  few = count_of-recent_ids vs event.requested.event_id;
}

retry_from-MovesOn :
    (event : Event) (claim : Claim) (ledger : Fields) (ids : Option Items) (state updates : Fields)
    (instant_of : Str → Option ℕ) (p : Course)
    → at_most event.requested.expected_state_version (lookup (codes "maxStateVersion") ledger)
      ≡ false
    → retry_from event claim ids ≡ ok p
    → written instant_of state p ≡ ok updates
    → MovesOn event.requested ledger updates
unfolding retry_from written
retry_from-MovesOn event claim ledger none state updates instant_of p later h w = absurd (cc)
retry_from-MovesOn event claim ledger (some vs) state updates instant_of p later h w =
    subst (λ u. MovesOn event.requested ledger u) (ok_inj (rw (← ok_inj h) at w))
      (running-MovesOn event claim ledger vs later)

pub retry-MovesOn :
    (event : Event) (claim : Claim) (ledger state updates : Fields) (instant_of : Str → Option ℕ)
    (p : Course)
    → retry event claim ledger ≡ ok p
    → written instant_of state p ≡ ok updates
    → MovesOn event.requested ledger updates
unfolding retry
retry-MovesOn event claim ledger state updates instant_of p h w =
    let maximum = lookup (codes "maxStateVersion") ledger in
    let passes = is_int maximum && not (at_most event.requested.expected_state_version maximum) in
    let (_, checks, last) = >>=-eq-ok (guard passes state_conflict) _ h in
    let holds = guard-eq-ok passes state_conflict checks in
    retry_from-MovesOn event claim ledger (list_in (lookup (codes "eventIds") ledger)) state updates
      instant_of p (ground (arith, holds)) last w

-- The larger of the two is the event's version.
later-max_value :
    (maximum : Option Value) (n : ℕ) → at_most n maximum ≡ false → max_value maximum n ≡ int n
unfolding max_value
later-max_value maximum n later = rw later refl

approved-MovesOn :
    (event : CodingJobRequested) (event_value claim_value : Value) (ledger : Fields) (vs : Items)
    → at_most event.expected_state_version (lookup (codes "maxStateVersion") ledger) ≡ false
    → MovesOn event ledger
        (approved_fields event_value claim_value (approved_ledger event ledger vs))
unfolding approved_fields approved_ledger lookup eq
approved-MovesOn event event_value claim_value ledger vs later = record {
  later = later;
  moved = approved_ledger event ledger vs;
  stored = refl;
  at_version =
      lookup-put_field (codes "maxStateVersion") (codes "maxStateVersion") _ _
      ∙ ap (λ v. some v) (later-max_value _ _ later);
  ids = recent_ids vs event.event_id;
  listed =
      lookup-put_field (codes "maxStateVersion") (codes "eventIds") _ _
      ∙ lookup-put_field (codes "eventIds") (codes "eventIds") _ _;
  named = contains-recent_ids vs event.event_id;
  few = count_of-recent_ids vs event.event_id;
}

pub with_ledger-MovesOn :
    (instant_of : Str → Option ℕ) (event : CodingJobRequested) (event_value claim_value : Value)
    (ledger updates : Fields)
    → at_most event.expected_state_version (lookup (codes "maxStateVersion") ledger) ≡ false
    → with_ledger instant_of event event_value claim_value ledger ≡ ok updates
    → MovesOn event ledger updates
unfolding with_ledger
with_ledger-MovesOn instant_of event event_value claim_value ledger updates later h =
    let (vs, _, last) = >>=-eq-ok (ids_of (list_in (lookup (codes "eventIds") ledger))) _ h in
    subst (λ u. MovesOn event ledger u) (ok_inj last)
      (approved-MovesOn event event_value claim_value ledger vs later)

-- ===== src/Scenarios/Resumes.antt =====
-- A job of the legacy graph that is resumed by a later event.
use urizo_final_orchestrator.Base.{
  true, codes, ◌≡◌, refl, ◌⊎◌, none, some, [], ◌∷◌, ok, eq, mem, nodup, subset, same_set,
}
use urizo_final_orchestrator.Json.{text, int, list, dict, Fields, end, field, lookup}
use urizo_final_orchestrator.Contracts.{
  lower, is_hex, uuid_at, uuid_from, is_uuid, as_object, exact_fields,
}
use urizo_final_orchestrator.Contracts.Checks.{
  is_key_character, object_in, object_of, exact_names, is_text, text_of, schema_version, uuid_of,
  positive_integer, bounded_string, matched, is_hex_digits, drop_prefix, is_sha256_digest,
  is_git_object_id, is_graph_step, is_idempotency_key, instant_in, timestamp, optional_uuid_of,
  present,
}
use urizo_final_orchestrator.Contracts.Event.{parse_binding, check_job, parse_event}
use urizo_final_orchestrator.Contracts.Claim.{is_some_text, is_number}
use urizo_final_orchestrator.Snapshot.Checks.{is_name_character, all_of}
use urizo_final_orchestrator.Worker.Sending.{is_equal_number}
use urizo_final_orchestrator.Runner.{Event, Claim}
use urizo_final_orchestrator.Legacy.Delivery.{
  is_int, at_most, list_in, contains, contains_in, count_of, without, with_last, recent_ids,
  is_same_legacy_delivery, running_fields, retry_from, retry, resume_from, ledger_mapping,
  course_from, course,
}
use urizo_final_orchestrator.Legacy.Approved.{written, delivered}
use urizo_final_orchestrator.Legacy.Moved.{MovesOn}
use urizo_final_orchestrator.Legacy.Resumed.{delivered-MovesOn}
use urizo_final_orchestrator.Scenarios.Document.{fields, items}
use urizo_final_orchestrator.Scenarios.Claims.{clock, uuid, job_payload}

abbrev resumed : Event
resumed = record {
  requested = record {
    event_id = uuid;
    job_id = uuid;
    trace_id = uuid;
    idempotency_key = codes "idempotency-key-1";
    attempt = 1;
    expected_state_version = 3;
    occurred_at = codes "later";
    binding = none;
    payload = job_payload;
  };
  dict = fields (
      (codes "schemaVersion", text (codes "1.0"))
      ∷ (codes "eventId", text uuid)
      ∷ (codes "eventType", text (codes "CODING_JOB_REQUESTED"))
      ∷ (codes "jobId", text uuid)
      ∷ (codes "traceId", text uuid)
      ∷ (codes "idempotencyKey", text (codes "idempotency-key-1"))
      ∷ (codes "attempt", int 1)
      ∷ (codes "expectedStateVersion", int 3)
      ∷ (codes "occurredAt", text (codes "later"))
      ∷ (codes "payload", dict job_payload)
      ∷ []);
}

abbrev resuming : Claim
resuming = record {
  claimed = record {
    job_id = uuid;
    trace_id = uuid;
    lease_id = uuid;
    lease_expires_at = 60;
    state_version = 4;
    resume = true;
    profile_version_id = uuid;
    snapshot = end;
  };
  dict = field (codes "leaseId") (text uuid) end;
}

abbrev old_ledger : Fields
old_ledger = fields (
    (codes "eventIds", list (items (text (codes "e") ∷ [])))
    ∷ (codes "maxStateVersion", int 2)
    ∷ [])

abbrev interrupted_state : Fields
interrupted_state =
    fields ((codes "ledger", dict old_ledger) ∷ (codes "status", text (codes "RUNNING")) ∷ [])

abbrev resumed_updates : Fields
resumed_updates = running_fields resumed resuming (items (text (codes "e") ∷ text uuid ∷ []))

held : lookup (codes "ledger") interrupted_state ≡ some (dict old_ledger)
unfolding lookup eq
held = refl

read_again : parse_event clock (dict resumed.dict) ≡ ok resumed.requested
unfolding object_in is_key_character parse_event check_job parse_binding timestamp instant_in
    is_idempotency_key is_graph_step is_git_object_id is_sha256_digest is_hex_digits drop_prefix
    matched bounded_string positive_integer uuid_of schema_version text_of is_text exact_names
    object_of present optional_uuid_of all_of is_name_character exact_fields as_object is_uuid
    uuid_from uuid_at is_hex lower lookup mem nodup subset same_set eq
read_again = refl

moved : delivered clock interrupted_state resumed resuming ≡ ok resumed_updates
unfolding delivered written course course_from ledger_mapping resume_from retry retry_from
    is_same_legacy_delivery is_int at_most list_in contains contains_in count_of without with_last
    recent_ids is_equal_number is_some_text is_text is_number lookup eq
moved = refl

delivered-MovesOn_example :
    (is_same_legacy_delivery resumed old_ledger ≡ true)
    ⊎ MovesOn resumed.requested old_ledger resumed_updates
delivered-MovesOn_example =
    delivered-MovesOn clock interrupted_state old_ledger resumed_updates resumed resuming held
      read_again refl moved

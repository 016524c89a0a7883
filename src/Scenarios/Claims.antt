-- ===== src/Scenarios/Claims.antt =====
-- A claim of an event's job, and the use of the theorem on claims there.
use urizo_final_orchestrator.Base.{
  ℕ, false, Str, codes, ◌≡◌, refl, Option, none, some, [], ◌∷◌, ok, if◌then◌else◌, eq, mem, nodup,
  subset, same_set,
}
use urizo_final_orchestrator.Json.{Value, text, bool, int, list, dict, Fields, lookup}
use urizo_final_orchestrator.Contracts.{
  CodingJobRequested, WorkerClaim, lower, is_hex, uuid_at, uuid_from, is_uuid, as_object,
  exact_fields,
}
use urizo_final_orchestrator.Snapshot.Checks.{is_name_character, all_of}
use urizo_final_orchestrator.Contracts.Checks.{
  object_in, object_of, present, exact_names, is_text, text_of, schema_version, uuid_of,
  positive_integer, bool_of, bounded_string, matched, is_version_character, drop_prefix,
  is_hex_digits, is_sha256_digest, is_git_object_id, is_graph_step, is_prompt_version, count_items,
  bounded_strings, string_list, is_any_hex, has_escape, has_parent_from, is_forbidden_character,
  has_forbidden, starts_with_slash, relative_path, instant_in, timestamp, not_expired,
}
use urizo_final_orchestrator.Contracts.Claim.{
  all_steps, only_uuid, actor_of, is_some_text, in_scope, right_profile, snapshot_scope,
  check_permissions, check_snapshot, finish_claim, parse_claim,
}
use urizo_final_orchestrator.Contracts.Correlated.{IsCorrelated, parse_claim-IsCorrelated}
use urizo_final_orchestrator.Scenarios.Document.{fields, items}

-- Reads one time only.
abbrev pub clock : Str → Option ℕ
clock t = if eq t (codes "later") then some 60 else none

abbrev pub uuid : Str
uuid = codes "3f2504e0-4f89-41d3-9a0c-0305e82c3301"

abbrev pub digest : Str
digest = codes "sha256:0123456789abcdef0123456789abcdef0123456789abcdef0123456789abcdef"

abbrev pub job_payload : Fields
job_payload = fields (
    (codes "actorId", text uuid)
    ∷ (codes "projectId", text uuid)
    ∷ (codes "repositoryId", text uuid)
    ∷ (codes "graphStep", text (codes "plan"))
    ∷ (codes "baseSha", text digest)
    ∷ (codes "contextDigest", text digest)
    ∷ (codes "policyHash", text digest)
    ∷ (codes "expiresAt", text (codes "later"))
    ∷ [])

abbrev event : CodingJobRequested
event = record {
  event_id = uuid;
  job_id = uuid;
  trace_id = uuid;
  idempotency_key = codes "k";
  attempt = 1;
  expected_state_version = 3;
  occurred_at = codes "later";
  binding = none;
  payload = job_payload;
}

abbrev claim_snapshot : Fields
claim_snapshot = fields (
    (
      codes "actor",
      dict (fields ((codes "actorId", text uuid) ∷ (codes "role", text (codes "REVIEWER")) ∷ [])),
    )
    ∷ (codes "project", dict (fields ((codes "projectId", text uuid) ∷ [])))
    ∷ (codes "repository", dict (fields ((codes "repositoryId", text uuid) ∷ [])))
    ∷ (codes "graphStep", text (codes "plan"))
    ∷ (codes "baseSha", text digest)
    ∷ (codes "contextDigest", text digest)
    ∷ (codes "policyHash", text digest)
    ∷ (codes "promptVersion", text (codes "v1.0"))
    ∷ (codes "allowedCapabilities", list (items (text (codes "CHAT") ∷ [])))
    ∷ (codes "allowedNodes", list (items (text (codes "plan") ∷ [])))
    ∷ (codes "deadlineAt", text (codes "later"))
    ∷ (codes "systemPrompt", text (codes "s"))
    ∷ (codes "userPrompt", text (codes "u"))
    ∷ (codes "toolPath", text (codes "src/main"))
    ∷ (codes "approvalId", text uuid)
    ∷ [])

abbrev claim_document : Value
claim_document = dict (
    fields (
      (codes "schemaVersion", text (codes "1.0"))
      ∷ (codes "jobId", text uuid)
      ∷ (codes "traceId", text uuid)
      ∷ (codes "leaseId", text uuid)
      ∷ (codes "leaseExpiresAt", text (codes "later"))
      ∷ (codes "stateVersion", int 4)
      ∷ (codes "resume", bool false)
      ∷ (codes "profileVersionId", text uuid)
      ∷ (codes "snapshot", dict claim_snapshot)
      ∷ []))

abbrev claim : WorkerClaim
claim = record {
  job_id = uuid;
  trace_id = uuid;
  lease_id = uuid;
  lease_expires_at = 60;
  state_version = 4;
  resume = false;
  profile_version_id = uuid;
  snapshot = claim_snapshot;
}

claim_read : parse_claim clock claim_document event (some 7) ≡ ok claim
unfolding parse_claim finish_claim check_snapshot snapshot_scope check_permissions right_profile
    in_scope is_some_text actor_of only_uuid all_steps not_expired timestamp instant_in
    relative_path starts_with_slash has_forbidden is_forbidden_character has_parent_from has_escape
    is_any_hex string_list bounded_strings count_items is_prompt_version is_graph_step
    is_git_object_id is_sha256_digest is_hex_digits drop_prefix is_version_character matched
    bounded_string bool_of positive_integer uuid_of schema_version text_of is_text exact_names
    present object_of object_in all_of is_name_character exact_fields as_object is_uuid uuid_from
    uuid_at is_hex lower lookup mem nodup subset same_set eq
claim_read = refl

parse_claim-IsCorrelated_example : IsCorrelated clock event (some 7) claim
parse_claim-IsCorrelated_example =
    parse_claim-IsCorrelated clock claim_document event (some 7) claim claim_read

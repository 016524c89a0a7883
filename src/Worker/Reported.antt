-- ===== src/Worker/Reported.antt =====
-- How a request of worker_api.py may fail, and under which code the failure is reported.
use urizo_final_orchestrator.Base.{
  ℕ, Bool, true, false, ◌&&◌, leb, Str, codes, eq, Option, none, some, List, ◌∷◌, mem, same_set,
  Result, ok, err, guard, >>=-eq-ok, guard-eq-ok, ok_inj, ◌≡◌, refl, ap, subst, inl, inr, arith,
  Bool-cases,
}
use urizo_final_orchestrator.Json.{Value, text, dict, Fields, field_names, lookup}
use urizo_final_orchestrator.Snapshot.Checks.{all_of, is_key_character}
use urizo_final_orchestrator.Contracts.Claim.{is_some_text}
use urizo_final_orchestrator.Worker.Failure.{Failure, worker_api, other, classify_failure}
use urizo_final_orchestrator.Worker.Sending.{is_safe_code}
use urizo_final_orchestrator.Worker.Remote.{
  refused, attribute_error, Reading, retryable_error_codes, non_retryable_error_codes,
  canonical_codes, object_fields, pre_context_names, job_scoped_names, xor, text_within,
  safe_code_in, bool_in, retry_after_fits, state_fits, violations_valid, fields_fit, read_error,
  response_invalid, error_from, Transport, no_credential, unavailable, malformed, responded,
  response_object, read_uuid, check_scope, read_envelope, safe_remote_error, call,
}

-- The codes that a failure is reported with.
unfoldable pub reported_codes : (retryable : Bool) → List Str
reported_codes true = retryable_error_codes
reported_codes false = response_invalid ∷ non_retryable_error_codes

-- A code that is reported, and one that `outcome` sends.
pub record IsReported (f : Failure) : Type 0 where
  pub listed : mem (classify_failure f).1 (reported_codes (classify_failure f).0) ≡ true
  pub safe : is_safe_code (classify_failure f).1 ≡ true

safe_code-same :
    (v : Option Value) (code : Str) → safe_code_in v ≡ ok code → is_safe_code code ≡ true
unfolding safe_code_in
safe_code-same none code h = absurd (cc)
safe_code-same (some (text t)) code h = elim (Bool-cases (is_safe_code t)) [
  | inl safe ↦ subst (λ c. is_safe_code c ≡ true) (ok_inj (rw safe at h)) safe
  | inr unsafe ↦ absurd (ground (arith, h, unsafe))
]
safe_code-same (some v) code h = absurd (cc)

read_error-listed :
    (error : Fields) (code : Str) (retryable : Bool)
    → read_error error ≡ ok (code, retryable)
    → (mem code (canonical_codes retryable) ≡ true) × (is_safe_code code ≡ true)
unfolding read_error
read_error-listed error code retryable h =
    let (_, _, h1) = >>=-eq-ok (guard (fields_fit error) refused) _ h in
    let (c, is_code, h2) = >>=-eq-ok (safe_code_in (lookup (codes "code") error)) _ h1 in
    let (_, _, h3) =
      >>=-eq-ok (guard (text_within 1000 (lookup (codes "message") error)) refused) _ h2 in
    let (r, _, h4) = >>=-eq-ok (bool_in (lookup (codes "retryable") error)) _ h3 in
    let (_, listed, h5) = >>=-eq-ok (guard (mem c (canonical_codes r)) refused) _ h4 in
    let (_, _, h6) =
      >>=-eq-ok (guard (retry_after_fits r (lookup (codes "retryAfterMs") error)) refused) _ h5 in
    let (_, _, h7) =
      >>=-eq-ok (guard (state_fits r (lookup (codes "executionState") error)) refused) _ h6 in
    let (_, _, last) =
      >>=-eq-ok (guard (violations_valid (lookup (codes "violations") error)) refused) _ h7 in
    subst (λ (p : Str × Bool). (mem p.0 (canonical_codes p.1) ≡ true) × (is_safe_code p.0 ≡ true))
      (ok_inj last)
      (
        guard-eq-ok (mem c (canonical_codes r)) refused listed,
        safe_code-same (lookup (codes "code") error) c is_code,
      )

invalid-IsReported : (status : Option ℕ) → IsReported (worker_api response_invalid false status)
unfolding classify_failure reported_codes mem eq is_safe_code all_of is_key_character
invalid-IsReported status = record { listed = refl; safe = refl }

other-IsReported : IsReported other
unfolding classify_failure reported_codes mem eq is_safe_code all_of is_key_character
other-IsReported = record { listed = refl; safe = refl }

mem-later : (a x : Str) (xs : List Str) → mem a xs ≡ true → mem a (x ∷ xs) ≡ true
unfolding mem
mem-later a x xs h = ground (arith, h)

-- The canonical codes are among those reported.
canonical-reported :
    (code : Str) (retryable : Bool)
    → mem code (canonical_codes retryable) ≡ true
    → mem code (reported_codes retryable) ≡ true
unfolding canonical_codes reported_codes
canonical-reported code true h = h
canonical-reported code false h = mem-later code response_invalid non_retryable_error_codes h

error_from-IsReported :
    (status : ℕ) (reading : Reading (Str × Bool))
    → ((code : Str) (retryable : Bool)
        → reading ≡ ok (code, retryable)
        → (mem code (canonical_codes retryable) ≡ true) × (is_safe_code code ≡ true))
    → IsReported (error_from status reading)
unfolding error_from classify_failure
error_from-IsReported status (ok (code, retryable)) good =
    let (listed, safe) = good code retryable refl in
    record { listed = canonical-reported code retryable listed; safe = safe }
error_from-IsReported status (err refused) good = invalid-IsReported (some status)
error_from-IsReported status (err attribute_error) good = other-IsReported

pub err_inj : {A : Type 0} {f g : Failure} → ◌≡◌ {A = Result Failure A} (err f) (err g) → f ≡ g
err_inj h = cc

pub object_of-same : (v : Option Value) (fs : Fields) → object_fields v ≡ ok fs → v ≡ some (dict fs)
unfolding object_fields
object_of-same (some (dict gs)) fs h = ap (λ x. some (dict x)) (ok_inj h)
object_of-same none fs h = absurd (cc)
object_of-same (some v) fs h = absurd (cc)

module _ (reads_uuid : Str → Bool) where
  -- The error of an envelope that was read.
  pub record IsRead (envelope : Fields) (context : Option Fields) (p : Str × Bool) : Type 0 where
    pub error : Fields
    pub stored : lookup (codes "error") envelope ≡ some (dict error)
    pub read : read_error error ≡ ok p
    pub scoped :
        check_scope reads_uuid (same_set (field_names envelope) pre_context_names) envelope context
        ≡ ok tt

  pub read_envelope-IsRead :
      (envelope : Fields) (context : Option Fields) (p : Str × Bool)
      → read_envelope reads_uuid envelope context ≡ ok p
      → IsRead envelope context p
  unfolding read_envelope
  read_envelope-IsRead envelope context p h =
      let own = same_set (field_names envelope) pre_context_names in
      let (_, _, h1) =
        >>=-eq-ok
          (guard (is_some_text (codes "1.0") (lookup (codes "schemaVersion") envelope)) refused) _
          h in
      let (_, _, h2) =
        >>=-eq-ok (guard (xor (same_set (field_names envelope) job_scoped_names) own) refused) _
          h1 in
      let (_, _, h3) = >>=-eq-ok (read_uuid reads_uuid (lookup (codes "traceId") envelope)) _ h2 in
      let (_, scoped, h4) = >>=-eq-ok (check_scope reads_uuid own envelope context) _ h3 in
      let (error, stored, last) =
        >>=-eq-ok (object_fields (lookup (codes "error") envelope)) _ h4 in
      record {
        error = error;
        stored = object_of-same (lookup (codes "error") envelope) error stored;
        read = last;
        scoped = scoped;
      }

  remote-IsReported :
      (status : ℕ) (body : Option Value) (context : Option Fields)
      → IsReported (safe_remote_error reads_uuid status body context)
  unfolding safe_remote_error
  remote-IsReported status body context = error_from-IsReported status _ (λ code retryable h.
      let (envelope, _, last) = >>=-eq-ok (object_fields body) _ h in
      let r = read_envelope-IsRead envelope context (code, retryable) last in
      read_error-listed r.error code retryable r.read)

response-IsReported :
    (body : Option Value) (f : Failure) → response_object body ≡ err f → IsReported f
unfolding response_object
response-IsReported (some (dict fs)) f h = absurd (cc)
response-IsReported none f h = subst (λ x. IsReported x) (err_inj h) (invalid-IsReported none)
response-IsReported (some v) f h = subst (λ x. IsReported x) (err_inj h) (invalid-IsReported none)

unavailable-IsReported : IsReported (worker_api (codes "INTERNAL_TRANSIENT_ERROR") true none)
unfolding classify_failure reported_codes mem eq is_safe_code all_of is_key_character
unavailable-IsReported = record { listed = refl; safe = refl }

no_credential-IsReported : IsReported (worker_api (codes "CODING_AGENT_NOT_AVAILABLE") false none)
unfolding classify_failure reported_codes mem eq is_safe_code all_of is_key_character
no_credential-IsReported = record { listed = refl; safe = refl }

-- However a request to the API fails, the failure is reported under a code that `outcome` accepts: one of
-- the retryable codes if the job is to be tried again, and else another code of the contract or
-- WORKER_RESPONSE_INVALID.
pub call-IsReported :
    (reads_uuid : Str → Bool) (context : Option Fields) (transport : Transport) (f : Failure)
    → call reads_uuid context transport ≡ err f
    → IsReported f
unfolding call
call-IsReported reads_uuid context no_credential f h =
    subst (λ x. IsReported x) (err_inj h) no_credential-IsReported
call-IsReported reads_uuid context unavailable f h =
    subst (λ x. IsReported x) (err_inj h) unavailable-IsReported
call-IsReported reads_uuid context malformed f h =
    subst (λ x. IsReported x) (err_inj h) (invalid-IsReported none)
call-IsReported reads_uuid context (responded status body) f h =
    elim (Bool-cases (leb 200 status && leb status 299)) [
      | inl good ↦ response-IsReported body f (rw good at h)
      | inr bad ↦
          subst (λ x. IsReported x) (err_inj (rw bad at h))
            (remote-IsReported reads_uuid status body context)
    ]
